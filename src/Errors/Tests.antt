-- ===== src/Errors/Tests.antt =====
-- The classification of errors on small inputs.
use pubky_nexus.Base.{ℕ, String, ◌≤◌, ◌<◌, ◌≡◌, ◌≢◌, ◌⊎◌, ◌↔◌, refl, true, false}
use pubky_nexus.Errors.{
  RedisError, GraphError, HsOp, HsErrorKind, HsError, Messages, from_status, from_hs, from_redis,
  from_graph, should_not_retry_now, should_enqueue_related_event,
}
use pubky_nexus.Errors.Laws.{
  IsOutage, IsPermanent, should_not_retry_now-from_hs, should_enqueue_related_event-from_hs,
  from_status_fate, store_failures_kept, IsRedisOutage, IsGraphOutage,
}

abbrev silent : Messages
silent = record { redis = λ e. ""; graph = λ e. ""; hs = λ e. "" }

abbrev slow_stream : HsError
slow_stream = record { hs = "hs"; op = HsOp.user_events; kind = HsErrorKind.timeout }

abbrev gone_post : HsError
gone_post = record { hs = "hs"; op = HsOp.get_resource; kind = HsErrorKind.not_found "" }

should_not_retry_now-from_hs_example :
    (should_not_retry_now (from_hs silent slow_stream) ≡ true)
    ↔ ((slow_stream.op ≡ HsOp.user_events) × IsOutage slow_stream.kind)
should_not_retry_now-from_hs_example = should_not_retry_now-from_hs silent slow_stream

should_enqueue_related_event-from_hs_example :
    (should_enqueue_related_event (from_hs silent gone_post) ≡ false) ↔ IsPermanent gone_post.kind
unfolding from_hs should_not_retry_now
should_enqueue_related_event-from_hs_example =
    should_enqueue_related_event-from_hs silent gone_post refl

from_status_fate_example :
    let e = from_hs silent (record { hs = "hs"; op = HsOp.get_blob; kind = from_status 503 "" }) in
    ((should_not_retry_now e ≡ true) ↔ (
      (HsOp.get_blob ≡ HsOp.user_events) × ((◌≡◌ {A = ℕ} 503 429) ⊎ ((500 ≤ 503) × (503 < 600)))))
    × (HsOp.get_blob ≢ HsOp.user_events
        → (should_enqueue_related_event e ≡ true) ↔ (◌≢◌ {A = ℕ} 503 404))
from_status_fate_example = from_status_fate silent "hs" "" HsOp.get_blob 503

abbrev stalled : GraphError
stalled = GraphError.keyset_scan_stalled "sync" "cursor"

store_failures_kept_example :
    (should_enqueue_related_event (from_redis silent (RedisError.io_error "")) ≡ true)
    × ((should_not_retry_now (from_redis silent (RedisError.io_error "")) ≡ true)
        ↔ IsRedisOutage (RedisError.io_error ""))
    × ((should_enqueue_related_event (from_graph silent stalled) ≡ false) ↔ (
        (context : String) × (detail : String) × (stalled
          ≡ GraphError.keyset_scan_stalled context detail)))
    × ((should_not_retry_now (from_graph silent stalled) ≡ true) ↔ IsGraphOutage stalled)
store_failures_kept_example = store_failures_kept silent (RedisError.io_error "") stalled
