-- ===== src/Retry/Processor/Bounds.antt =====
-- The `retry_count` that `process_retry_event` of
-- nexus-watcher/src/events/retry/processor.rs can write.
use pubky_nexus.Base.{
  ℕ, String, true, false, some, Result, ok, err, leb, ◌≡◌, inl, inr, refl, arith, string_eq, ◌≤◌,
  ◌+◌, Bool-cases,
}
use pubky_nexus.Errors.{EventProcessorError, should_enqueue_related_event, should_not_retry_now}
use pubky_nexus.Event.{
  Specs, Event, ParseResult, parsed, skipped, unrecognized_uri, event_line_of, parse_event,
}
use pubky_nexus.Retry.Config.{EventRetryConfig}
use pubky_nexus.Retry.Entry.{IndexKey, RetryEvent}
use pubky_nexus.Retry.Store.{RetryStore}
use pubky_nexus.Retry.Processor.Safety.{then_raise, remove_if_current_state, reschedule_state}
use pubky_nexus.Retry.Processor.{
  Env, World, max_retries_for, rescheduled, reschedule, settle, process_parsed, process_retry_event,
}

module _ {for_uri : String → IndexKey} (store : RetryStore for_uri) (bound : ℕ) where
  open store use {St, entry}

  -- No stored entry has a higher retry count than `bound`.
  abbrev pub IsBounded : St → Type 0
  IsBounded s = (j : IndexKey) (e : RetryEvent) → entry j s ≡ some e → e.retry_count ≤ bound

  remove_if-IsBounded :
      (k : IndexKey) (n : ℕ) (s : St) → IsBounded s → IsBounded (store.remove_if k n s).1
  remove_if-IsBounded k n s b j e h = elim (store.remove_if_acts k n s) [
    | inl same ↦ ground (arith, same j, b j e)
    | inr gone ↦ ground (arith, gone j, b j e)
  ]

  put_if-IsBounded :
      (event : RetryEvent) (n : ℕ) (s : St)
      → event.retry_count ≤ bound
      → IsBounded s
      → IsBounded (store.put_if event n s).1
  put_if-IsBounded event n s c b j e h = elim (store.put_if_acts event n s) [
    | inl same ↦ ground (arith, same j, b j e)
    | inr new ↦ ground (arith, new j, b j e)
  ]

module _ {specs : Specs} {for_uri : String → IndexKey} (store : RetryStore for_uri)
    (env : Env specs store.St) (config : EventRetryConfig) (bound : ℕ)
    (dependency_cap : config.max_dependency_retries ≤ bound)
    (cap : config.max_retries ≤ bound) where
  max_retries_for-le : (e : EventProcessorError) → max_retries_for store env config e ≤ bound
  unfolding max_retries_for
  max_retries_for-le e = ground arith

  keep_count :
      (now : ℕ) (ev : RetryEvent) (e : EventProcessorError)
      → (rescheduled store env config now ev e false).retry_count ≡ ev.retry_count
  unfolding rescheduled
  keep_count now ev e = refl

  next_count :
      (now : ℕ) (ev : RetryEvent) (e : EventProcessorError)
      → (rescheduled store env config now ev e true).retry_count ≤ ev.retry_count + 1
  unfolding rescheduled
  next_count now ev e = omega arith

  settle-IsBounded :
      (k : IndexKey) (ev : RetryEvent) (r : Result (Unit {0}) EventProcessorError)
      (w : World store env config)
      → ev.retry_count ≤ bound
      → IsBounded store bound w.0
      → IsBounded store bound (settle store env config k ev r w).1.0
  unfolding settle
  settle-IsBounded k ev (ok u) w c b =
      rw (remove_if_current_state store env config k ev.nonce w)
        (remove_if-IsBounded store bound k ev.nonce w.0 b)
  settle-IsBounded k ev (err x) w c b = elim (Bool-cases (should_enqueue_related_event x)) [
    | inr q ↦
        rw (q, remove_if_current_state store env config k ev.nonce w)
          (remove_if-IsBounded store bound k ev.nonce w.0 b)
    | inl q ↦ elim (Bool-cases (should_not_retry_now x)) [
      | inl p ↦
          rw
            (
              q,
              p,
              then_raise (Unit {0}) (reschedule store env config ev x false w) x,
              reschedule_state store env config ev x false w,
            )
            (put_if-IsBounded store bound _ ev.nonce w.0
              (omega (arith, keep_count (env.timestamp_millis w.1).0 ev x)) b)
      | inr p ↦ elim (Bool-cases (leb (max_retries_for store env config x) ev.retry_count)) [
        | inl m ↦
            rw (q, p, m, remove_if_current_state store env config k ev.nonce w)
              (remove_if-IsBounded store bound k ev.nonce w.0 b)
        | inr m ↦
            rw (q, p, m, reschedule_state store env config ev x true w)
              (put_if-IsBounded store bound _ ev.nonce w.0
                (ground (arith, next_count (env.timestamp_millis w.1).0 ev x, max_retries_for-le x))
                b)
      ]
    ]
  ]

  process_parsed-IsBounded :
      (k : IndexKey) (ev : RetryEvent) (r : Result (ParseResult specs) EventProcessorError)
      (w : World store env config)
      → ((event : Event specs) → IsBounded store bound (env.handle event w).1.0)
      → ev.retry_count ≤ bound
      → IsBounded store bound w.0
      → IsBounded store bound (process_parsed store env config k ev r w).1.0
  unfolding process_parsed
  process_parsed-IsBounded k ev (ok (parsed event)) w handler c b =
      settle-IsBounded k ev (env.handle event w).0 (env.handle event w).1 c (handler event)
  process_parsed-IsBounded k ev (ok skipped) w handler c b =
      rw (remove_if_current_state store env config k ev.nonce w)
        (remove_if-IsBounded store bound k ev.nonce w.0 b)
  process_parsed-IsBounded k ev (ok (unrecognized_uri _ _ _)) w handler c b =
      rw (remove_if_current_state store env config k ev.nonce w)
        (remove_if-IsBounded store bound k ev.nonce w.0 b)
  process_parsed-IsBounded k ev (err x) w handler c b =
      rw (remove_if_current_state store env config k ev.nonce w)
        (remove_if-IsBounded store bound k ev.nonce w.0 b)

  -- The stored retry counts stay bounded: a bound on them that is at least both configured limits
  -- is kept by every retry of an entry whose count is within it, if what other tasks write while
  -- the handler runs keeps it too. The counts leave out the retries that met an outage, and an
  -- entry whose count is at its limit is tried once more.
  pub process_retry_event-IsBounded :
      (k : IndexKey) (ev : RetryEvent) (w : World store env config)
      → ((event : Event specs) → IsBounded store bound (env.handle event w).1.0)
      → ev.retry_count ≤ bound
      → IsBounded store bound w.0
      → IsBounded store bound (process_retry_event store env config k ev w).1.0
  unfolding process_retry_event
  process_retry_event-IsBounded k ev =
      process_parsed-IsBounded k ev (parse_event specs (event_line_of ev.event_type ev.event_uri))
