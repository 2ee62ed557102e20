-- ===== src/Errors/Laws.antt =====
-- What becomes of a failed homeserver, Redis or graph call: the conversions of
-- nexus-watcher/src/errors.rs with `should_enqueue_related_event` of
-- nexus-watcher/src/events/retry/scheduler.rs.
use pubky_nexus.Base.{ℕ, ◌≤◌, ◌<◌, ◌≡◌, ◌≢◌, ◌⊎◌, ◌↔◌, refl, String, Bool, true, false, arith}
use pubky_nexus.Errors.{
  RedisError, GraphError, HsOp, HsErrorKind, HsError, Messages, from_status, from_hs, convert_hs,
  is_on_stream, from_redis, from_graph, redis_should_not_retry_now, graph_should_not_retry_now,
  should_not_retry_now, should_enqueue_related_event,
}

-- The homeserver answered with 429 or a 5xx, or could not be reached in time.
pub data IsOutage : HsErrorKind → Type 0 where
  limited : (t : String) → IsOutage (HsErrorKind.rate_limited t)
  server : (n : ℕ) (t : String) → IsOutage (HsErrorKind.server_error n t)
  unreachable : (t : String) → IsOutage (HsErrorKind.transport t)
  slow : IsOutage HsErrorKind.timeout

-- Asking again gives the same answer.
pub data IsPermanent : HsErrorKind → Type 0 where
  missing : (t : String) → IsPermanent (HsErrorKind.not_found t)
  oversized : (got max : ℕ) → IsPermanent (HsErrorKind.too_large got max)
  unbuildable : (t : String) → IsPermanent (HsErrorKind.malformed t)

ruleset kinds = (limited, server, unreachable, slow, missing, oversized, unbuildable)

off_stream :
    (text : String) (e : HsError) (k : HsErrorKind)
    → should_not_retry_now (convert_hs false text e k) ≡ false
unfolding should_not_retry_now convert_hs
off_stream text e (HsErrorKind.not_found t) = refl
off_stream text e _ = refl

stops_on_stream :
    (text : String) (e : HsError) (op : HsOp) (k : HsErrorKind)
    → should_not_retry_now (convert_hs (is_on_stream op) text e k) ≡ true
    → (op ≡ HsOp.user_events) × IsOutage k
unfolding should_not_retry_now convert_hs is_on_stream
stops_on_stream text e HsOp.user_events (HsErrorKind.rate_limited t) h = (refl, limited t)
stops_on_stream text e HsOp.user_events (HsErrorKind.server_error n t) h = (refl, server n t)
stops_on_stream text e HsOp.user_events (HsErrorKind.transport t) h = (refl, unreachable t)
stops_on_stream text e HsOp.user_events HsErrorKind.timeout h = (refl, slow)
stops_on_stream text e HsOp.user_events _ h = cc
stops_on_stream text e HsOp.poll_events k h = cc (off_stream text e k)
stops_on_stream text e HsOp.get_resource k h = cc (off_stream text e k)
stops_on_stream text e HsOp.get_blob k h = cc (off_stream text e k)

outage_stops :
    (text : String) (e : HsError) {op : HsOp} {k : HsErrorKind}
    → op ≡ HsOp.user_events
    → IsOutage k
    → should_not_retry_now (convert_hs (is_on_stream op) text e k) ≡ true
unfolding should_not_retry_now convert_hs is_on_stream
outage_stops text e q (limited t) = ground arith
outage_stops text e q (server n t) = ground arith
outage_stops text e q (unreachable t) = ground arith
outage_stops text e q slow = ground arith

-- A failed homeserver call stops the whole run exactly when it was the event-stream request and
-- the homeserver was overloaded, failing or out of reach.
pub should_not_retry_now-from_hs :
    (text : Messages) (e : HsError)
    → (should_not_retry_now (from_hs text e) ≡ true) ↔ ((e.op ≡ HsOp.user_events) × IsOutage e.kind)
unfolding from_hs
should_not_retry_now-from_hs text e =
    (stops_on_stream (text.hs e) e e.op e.kind, λ h. outage_stops (text.hs e) e h.0 h.1)

permanent_not_enqueued :
    (text : String) (e : HsError) (on : Bool) {k : HsErrorKind}
    → IsPermanent k
    → should_enqueue_related_event (convert_hs on text e k) ≡ false
unfolding should_enqueue_related_event convert_hs
permanent_not_enqueued text e on (missing t) = refl
permanent_not_enqueued text e on (oversized got max) = refl
permanent_not_enqueued text e on (unbuildable t) = refl

not_enqueued_permanent :
    (text : String) (e : HsError) (on : Bool) (k : HsErrorKind)
    → should_not_retry_now (convert_hs on text e k) ≡ false
    → should_enqueue_related_event (convert_hs on text e k) ≡ false
    → IsPermanent k
unfolding should_enqueue_related_event should_not_retry_now convert_hs
not_enqueued_permanent text e on (HsErrorKind.not_found t) s q = missing t
not_enqueued_permanent text e on (HsErrorKind.too_large got max) s q = oversized got max
not_enqueued_permanent text e on (HsErrorKind.malformed t) s q = unbuildable t
not_enqueued_permanent text e true (HsErrorKind.rate_limited t) s q = cc
not_enqueued_permanent text e true (HsErrorKind.server_error n t) s q = cc
not_enqueued_permanent text e true (HsErrorKind.transport t) s q = cc
not_enqueued_permanent text e true HsErrorKind.timeout s q = cc
not_enqueued_permanent text e false _ s q = cc
not_enqueued_permanent text e _ _ s q = cc

-- Of the failed homeserver calls that do not stop the run, exactly the permanent ones (404, body
-- too large, request that cannot be built) are not queued for a retry.
pub should_enqueue_related_event-from_hs :
    (text : Messages) (e : HsError)
    → should_not_retry_now (from_hs text e) ≡ false
    → (should_enqueue_related_event (from_hs text e) ≡ false) ↔ IsPermanent e.kind
unfolding from_hs
should_enqueue_related_event-from_hs text e s = (
  not_enqueued_permanent (text.hs e) e (is_on_stream e.op) e.kind s,
  permanent_not_enqueued (text.hs e) e (is_on_stream e.op),
)

-- An answer with status `n` to the event-stream request stops the run exactly when `n` is 429 or
-- between 500 and 599; to any other request it never does, and the event is queued for a retry
-- exactly when `n` is not 404.
pub from_status_fate :
    (text : Messages) (hs body : String) (op : HsOp) (n : ℕ)
    → let e = from_hs text (record { hs = hs; op = op; kind = from_status n body }) in
      ((should_not_retry_now e ≡ true)
        ↔ ((op ≡ HsOp.user_events) × ((n ≡ 429) ⊎ ((500 ≤ n) × (n < 600)))))
      × (op ≢ HsOp.user_events → (should_enqueue_related_event e ≡ true) ↔ (n ≢ 404))
unfolding from_hs from_status should_not_retry_now should_enqueue_related_event
from_status_fate text hs body HsOp.user_events n =
    ((λ h. ground arith, λ h. ground arith), λ ne. (λ h. absurd (ne refl), λ h. absurd (ne refl)))
from_status_fate text hs body _ n =
    ((λ h. ground arith, λ h. ground arith), λ ne. (λ h. ground arith, λ h. ground arith))

-- Redis is out of reach.
pub data IsRedisOutage : RedisError → Type 0 where
  not_initialized : IsRedisOutage RedisError.connection_not_initialized
  pool : (t : String) → IsRedisOutage (RedisError.connection_pool_error t)
  io : (t : String) → IsRedisOutage (RedisError.io_error t)

-- The graph is out of reach, or its answer to a query was an error.
pub data IsGraphOutage : GraphError → Type 0 where
  not_initialized : IsGraphOutage GraphError.connection_not_initialized
  query : (t : String) → IsGraphOutage (GraphError.query_failed t)

from_redis-IsRedisOutage :
    (text : Messages) (r : RedisError)
    → should_not_retry_now (from_redis text r) ≡ true
    → IsRedisOutage r
unfolding should_not_retry_now from_redis redis_should_not_retry_now
from_redis-IsRedisOutage text RedisError.connection_not_initialized h =
    IsRedisOutage.not_initialized
from_redis-IsRedisOutage text (RedisError.connection_pool_error t) h = pool t
from_redis-IsRedisOutage text (RedisError.io_error t) h = io t
from_redis-IsRedisOutage text _ h = absurd (ground arith)

redis_outage_stops :
    (text : Messages) {r : RedisError}
    → IsRedisOutage r
    → should_not_retry_now (from_redis text r) ≡ true
unfolding should_not_retry_now from_redis redis_should_not_retry_now
redis_outage_stops text IsRedisOutage.not_initialized = refl
redis_outage_stops text (pool t) = refl
redis_outage_stops text (io t) = refl

from_graph-IsGraphOutage :
    (text : Messages) (g : GraphError)
    → should_not_retry_now (from_graph text g) ≡ true
    → IsGraphOutage g
unfolding should_not_retry_now from_graph graph_should_not_retry_now
from_graph-IsGraphOutage text GraphError.connection_not_initialized h =
    IsGraphOutage.not_initialized
from_graph-IsGraphOutage text (GraphError.query_failed t) h = query t
from_graph-IsGraphOutage text _ h = absurd (ground arith)

graph_outage_stops :
    (text : Messages) {g : GraphError}
    → IsGraphOutage g
    → should_not_retry_now (from_graph text g) ≡ true
unfolding should_not_retry_now from_graph graph_should_not_retry_now
graph_outage_stops text IsGraphOutage.not_initialized = refl
graph_outage_stops text (query t) = refl

-- A graph failure is dropped exactly for a scan that cannot advance.
scan_stalled :
    (text : Messages) (g : GraphError)
    → (should_enqueue_related_event (from_graph text g) ≡ false) ↔ (
        (context : String) × (detail : String) × (g
          ≡ GraphError.keyset_scan_stalled context detail))
unfolding should_enqueue_related_event from_graph
scan_stalled text (GraphError.keyset_scan_stalled c d) = ((λ _. (c, d, refl)), λ _. refl)
scan_stalled text _ = ((λ h. cc), λ (c, d, h). cc)

-- A Redis failure never drops an event, and stops the run exactly when Redis is out of reach: not
-- connected, no connection from the pool, or an I/O error. A graph failure drops an event only when
-- a keyset scan cannot advance, and stops the run exactly when the graph is not connected or a query
-- failed.
pub store_failures_kept :
    (text : Messages) (r : RedisError) (g : GraphError)
    → (should_enqueue_related_event (from_redis text r) ≡ true)
      × ((should_not_retry_now (from_redis text r) ≡ true) ↔ IsRedisOutage r)
      × ((should_enqueue_related_event (from_graph text g) ≡ false) ↔ (
          (context : String) × (detail : String) × (g
            ≡ GraphError.keyset_scan_stalled context detail)))
      × ((should_not_retry_now (from_graph text g) ≡ true) ↔ IsGraphOutage g)
unfolding should_enqueue_related_event from_redis
store_failures_kept text r g = (
  refl,
  (from_redis-IsRedisOutage text r, λ h. redis_outage_stops text h),
  scan_stalled text g,
  (from_graph-IsGraphOutage text g, λ h. graph_outage_stops text h),
)
