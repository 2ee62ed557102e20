-- ===== src/Retry/Processor/Safety.antt =====
-- What processing a retry entry may do to the store: `remove_if_current`, `reschedule` and the
-- `match` of `process_retry_event` in nexus-watcher/src/events/retry/processor.rs.
use pubky_nexus.Base.{
  ℕ, String, Bool, true, false, some, Result, ok, err, and_then, pure, raise, leb, ◌≡◌, ◌≢◌, inl,
  inr, refl, arith, string_eq, Bool-cases, ap,
}
use pubky_nexus.Errors.{EventProcessorError, should_enqueue_related_event, should_not_retry_now}
use pubky_nexus.Event.{
  Specs, ParseResult, parsed, skipped, unrecognized_uri, event_line_of, parse_event,
}
use pubky_nexus.Retry.Config.{EventRetryConfig}
use pubky_nexus.Retry.Entry.{IndexKey, RetryEvent}
use pubky_nexus.Retry.Store.{RetryStore}
use pubky_nexus.Retry.Processor.{
  Env, World, on_store, max_retries_for, remove_if_current, rescheduled, reschedule, settle,
  process_parsed, process_retry_event,
}

pub then_pure :
    {S E A B : Type 0} (p : Result A E × S) (b : B) → (and_then {B = B} p (λ _. pure b)).1 ≡ p.1
then_pure (ok a, s) b = refl
then_pure (err e, s) b = refl

pub then_raise :
    {S E A : Type 0} (B : Type 0) (p : Result A E × S) (e : E)
    → (and_then {B = B} p (λ _. raise e)).1 ≡ p.1
then_raise B (ok a, s) e = refl
then_raise B (err e', s) e = refl

module _ {for_uri : String → IndexKey} (store : RetryStore for_uri) where
  open store use {St, entry}

  -- Every entry with another nonce is still there.
  abbrev pub Keeps : ℕ → St → St → Type 0
  Keeps n s s' =
      (j : IndexKey) (e : RetryEvent) → entry j s ≡ some e → e.nonce ≢ n → entry j s' ≡ some e

  remove_if-Keeps : (k : IndexKey) (n : ℕ) (s : St) → Keeps n s (store.remove_if k n s).1
  remove_if-Keeps k n s j e h other = elim (store.remove_if_acts k n s) [
    | inl same ↦ ground (arith, same j)
    | inr gone ↦ ground (arith, gone j, string_eq.same_iff k j)
  ]

  put_if-Keeps : (event : RetryEvent) (n : ℕ) (s : St) → Keeps n s (store.put_if event n s).1
  put_if-Keeps event n s j e h other = elim (store.put_if_acts event n s) [
    | inl same ↦ ground (arith, same j)
    | inr new ↦ ground (arith, new j, string_eq.same_iff (for_uri event.event_uri) j)
  ]

module _ {specs : Specs} {for_uri : String → IndexKey} (store : RetryStore for_uri)
    (env : Env specs store.St) (config : EventRetryConfig) where
  pub remove_if_current_state :
      (k : IndexKey) (n : ℕ) (w : World store env config)
      → (remove_if_current store env config k n w).1 ≡ ((store.remove_if k n w.0).1, w.1)
  unfolding remove_if_current
  remove_if_current_state k n w = then_pure (on_store store env config (store.remove_if k n) w) tt

  -- The store after `reschedule`.
  pub reschedule_state :
      (ev : RetryEvent) (e : EventProcessorError) (b : Bool) (w : World store env config)
      → (reschedule store env config ev e b w).1.0
        ≡ (store.put_if
            (rescheduled store env config (env.timestamp_millis w.1).0 ev e b)
            ev.nonce
            w.0).1
  unfolding reschedule
  reschedule_state ev e b w =
      ap (λ u. u.0)
        (then_pure
          (on_store store env config
            (store.put_if (rescheduled store env config (env.timestamp_millis w.1).0 ev e b)
              ev.nonce)
            (w.0, (env.timestamp_millis w.1).1))
          tt)

  reschedule-Keeps :
      (ev : RetryEvent) (e : EventProcessorError) (b : Bool) (w : World store env config)
      → Keeps store ev.nonce w.0 (reschedule store env config ev e b w).1.0
  reschedule-Keeps ev e b w j x h other = rw (reschedule_state ev e b w) (
      put_if-Keeps store (rescheduled store env config (env.timestamp_millis w.1).0 ev e b) ev.nonce
        w.0 j x h other)

  pub settle-Keeps :
      (k : IndexKey) (ev : RetryEvent) (r : Result (Unit {0}) EventProcessorError)
      (w : World store env config)
      → Keeps store ev.nonce w.0 (settle store env config k ev r w).1.0
  unfolding settle
  settle-Keeps k ev (ok x) w j e h other =
      rw (remove_if_current_state k ev.nonce w) (remove_if-Keeps store k ev.nonce w.0 j e h other)
  settle-Keeps k ev (err x) w j e h other = elim (Bool-cases (should_enqueue_related_event x)) [
    | inr q ↦
        rw (q, remove_if_current_state k ev.nonce w)
          (remove_if-Keeps store k ev.nonce w.0 j e h other)
    | inl q ↦ elim (Bool-cases (should_not_retry_now x)) [
      | inl p ↦
          rw (q, p, then_raise (Unit {0}) (reschedule store env config ev x false w) x)
            (reschedule-Keeps ev x false w j e h other)
      | inr p ↦ elim (Bool-cases (leb (max_retries_for store env config x) ev.retry_count)) [
        | inl m ↦
            rw (q, p, m, remove_if_current_state k ev.nonce w)
              (remove_if-Keeps store k ev.nonce w.0 j e h other)
        | inr m ↦ rw (q, p, m) (reschedule-Keeps ev x true w j e h other)
      ]
    ]
  ]

  -- The world once the event of an entry has been handled, or at once if its line is not an event.
  after_handling :
      Result (ParseResult specs) EventProcessorError
      → World store env config
      → World store env config
  after_handling (ok (parsed event)) w = (env.handle event w).1
  after_handling _ w = w

  unfoldable pub handled : RetryEvent → World store env config → World store env config
  unfolding after_handling
  handled ev = after_handling (parse_event specs (event_line_of ev.event_type ev.event_uri))

  process_parsed-Keeps :
      (k : IndexKey) (ev : RetryEvent) (r : Result (ParseResult specs) EventProcessorError)
      (w : World store env config)
      → Keeps store ev.nonce (after_handling r w).0 (process_parsed store env config k ev r w).1.0
  unfolding process_parsed after_handling
  process_parsed-Keeps k ev (ok (parsed event)) w j e h other =
      settle-Keeps k ev (env.handle event w).0 (env.handle event w).1 j e h other
  process_parsed-Keeps k ev (ok skipped) w j e h other =
      rw (remove_if_current_state k ev.nonce w) (remove_if-Keeps store k ev.nonce w.0 j e h other)
  process_parsed-Keeps k ev (ok (unrecognized_uri _ _ _)) w j e h other =
      rw (remove_if_current_state k ev.nonce w) (remove_if-Keeps store k ev.nonce w.0 j e h other)
  process_parsed-Keeps k ev (err x) w j e h other =
      rw (remove_if_current_state k ev.nonce w) (remove_if-Keeps store k ev.nonce w.0 j e h other)

  -- A retry never removes or overwrites a newer event: whatever was enqueued while the handler
  -- ran, every entry that then carries another nonce than the fetched one is still there,
  -- unchanged, when the retry ends, on every branch and whether or not the store fails.
  pub process_retry_event-Keeps :
      (k : IndexKey) (ev : RetryEvent) (w : World store env config) (j : IndexKey) (e : RetryEvent)
      → store.entry j (handled ev w).0 ≡ some e
      → e.nonce ≢ ev.nonce
      → store.entry j (process_retry_event store env config k ev w).1.0 ≡ some e
  unfolding process_retry_event handled
  process_retry_event-Keeps k ev w j e h other =
      process_parsed-Keeps k ev (parse_event specs (event_line_of ev.event_type ev.event_uri)) w j e
        h other
