-- ===== src/Retry/Processor/Outcome.antt =====
-- What becomes of a retried entry, by the result of its handler: the `match` of
-- `process_retry_event` in nexus-watcher/src/events/retry/processor.rs.
use pubky_nexus.Base.{
  ℕ, String, Bool, true, false, Option, none, some, Result, ok, err, and_then, pure, raise,
  if◌then◌else◌, leb, ◌≡◌, inl, inr, refl, arith, string_eq, ◌≤◌, ◌<◌, Bool-cases, le→leb,
}
use pubky_nexus.Base.Word.{add_u32, add_64, mul_64}
use pubky_nexus.Errors.{
  EventProcessorError, should_enqueue_related_event, should_not_retry_now, is_missing_dependency,
}
use pubky_nexus.Retry.Backoff.{calculate_backoff}
use pubky_nexus.Event.{Specs}
use pubky_nexus.Retry.Config.{EventRetryConfig}
use pubky_nexus.Retry.Entry.{IndexKey, RetryEvent, has_nonce}
use pubky_nexus.Retry.Store.{RetryStore, ReplacedIf}
use pubky_nexus.Retry.Processor.Safety.{then_raise}
use pubky_nexus.Retry.Processor.{
  Env, World, on_store, max_retries_for, remove_if_current, backoff_params_for, rescheduled,
  reschedule, settle,
}

then_ok :
    {S E A B : Type 0} (p : Result A E × S) (a : A) (b : B)
    → p.0 ≡ ok a
    → and_then p (λ _. pure b) ≡ (ok b, p.1)
then_ok (ok x, s) a b h = refl
then_ok (err e, s) a b h = cc

then_raise_result :
    {S E A B : Type 0} (p : Result A E × S) (e : E) {a : A}
    → p.0 ≡ ok a
    → (and_then {B = B} p (λ _. raise e)).0 ≡ err e
then_raise_result (ok x, s) e h = refl
then_raise_result (err x, s) e h = cc

lt→leb : (a b : ℕ) → a < b → leb b a ≡ false
lt→leb a b h = ground arith

replaced_self :
    {St : Type 0} (entry : IndexKey → St → Option RetryEvent) (j k : IndexKey) (ev : RetryEvent)
    (n : ℕ) (s s' : St)
    → j ≡ k
    → ReplacedIf entry j ev n s s'
    → has_nonce n (entry k s) ≡ true
    → entry k s' ≡ some ev
replaced_self entry j k ev n s s' key replaced current =
    ground (arith, replaced k, string_eq.same_iff j k)

module _ {specs : Specs} {for_uri : String → IndexKey} (store : RetryStore for_uri)
    (env : Env specs store.St) (config : EventRetryConfig) where
  -- Nothing is left to retry: handled, not worth retrying, or out of retries.
  pub data IsFinished (ev : RetryEvent) : Result (Unit {0}) EventProcessorError → Type 0 where
    done : (u : Unit {0}) → IsFinished ev (ok u)
    hopeless :
        {e : EventProcessorError} → should_enqueue_related_event e ≡ false → IsFinished ev (err e)
    spent :
        {e : EventProcessorError}
        → should_not_retry_now e ≡ false
        → max_retries_for store env config e ≤ ev.retry_count
        → IsFinished ev (err e)

  -- The event is to be tried again: a store is out of reach, which costs no retry, or a retry is
  -- left, which is then used up.
  pub data IsDeferred (ev : RetryEvent) (e : EventProcessorError) : Bool → Type 0 where
    outage :
        should_enqueue_related_event e ≡ true
        → should_not_retry_now e ≡ true
        → IsDeferred ev e false
    again :
        should_enqueue_related_event e ≡ true
        → should_not_retry_now e ≡ false
        → ev.retry_count < max_retries_for store env config e
        → IsDeferred ev e true

  -- The backoff in seconds after a failure and so many retries.
  abbrev pub backoff_of : EventProcessorError → ℕ → ℕ
  backoff_of e retries =
      if is_missing_dependency e
      then calculate_backoff retries config.initial_missing_dep_backoff_secs
          config.max_missing_dep_backoff_secs
      else calculate_backoff retries config.initial_backoff_secs config.max_backoff_secs

  module _ (k : IndexKey) (ev : RetryEvent) (w : World store env config) where
    settle-remove :
        (b : Bool)
        → (store.remove_if k ev.nonce w.0).0 ≡ ok b
        → has_nonce ev.nonce (store.entry k w.0) ≡ true
        → ((remove_if_current store env config k ev.nonce w).0 ≡ ok tt)
          × (store.entry k (remove_if_current store env config k ev.nonce w).1.0 ≡ none)
    unfolding remove_if_current
    settle-remove b h current =
        let q = then_ok (on_store store env config (store.remove_if k ev.nonce) w) b tt h in
        rw q (
          refl,
          ground (arith, (store.remove_if_ok k ev.nonce w.0 b h).0 k, string_eq.same_iff k k),
        )

    -- When an entry that is still the fetched one was handled, is not worth retrying or has no
    -- retry left, it is removed and the batch goes on.
    pub settle-IsFinished :
        (r : Result (Unit {0}) EventProcessorError) (b : Bool)
        → IsFinished ev r
        → (store.remove_if k ev.nonce w.0).0 ≡ ok b
        → has_nonce ev.nonce (store.entry k w.0) ≡ true
        → ((settle store env config k ev r w).0 ≡ ok tt)
          × (store.entry k (settle store env config k ev r w).1.0 ≡ none)
    unfolding settle
    settle-IsFinished (ok u) b (done _) h current = settle-remove b h current
    settle-IsFinished (err e) b (hopeless q) h current = rw q (settle-remove b h current)
    settle-IsFinished (err e) b (spent p m) h current =
        elim (Bool-cases (should_enqueue_related_event e)) [
          | inr q ↦ rw q (settle-remove b h current)
          | inl q ↦ rw (q, p, le→leb _ _ m) (settle-remove b h current)
        ]

    settle-reschedule :
        (e : EventProcessorError) (charge b : Bool)
        → let ev' = rescheduled store env config (env.timestamp_millis w.1).0 ev e charge in
          (store.put_if ev' ev.nonce w.0).0 ≡ ok b
          → for_uri ev.event_uri ≡ k
          → has_nonce ev.nonce (store.entry k w.0) ≡ true
          → ((reschedule store env config ev e charge w).0 ≡ ok tt)
            × (store.entry k (reschedule store env config ev e charge w).1.0 ≡ some ev')
    unfolding reschedule
    settle-reschedule e charge b h key current =
        let (now, x) = env.timestamp_millis w.1 in
        let ev' = rescheduled store env config now ev e charge in
        let q = then_ok (on_store store env config (store.put_if ev' ev.nonce) (w.0, x)) b tt h in
        rw q (
          refl,
          replaced_self store.entry (for_uri ev.event_uri) k ev' ev.nonce w.0
              (store.put_if ev' ev.nonce w.0).1 key ((store.put_if_ok ev' ev.nonce w.0 b h).0)
              current,
        )

    due :
        (e : EventProcessorError) (charge : Bool) (now : ℕ)
        → (rescheduled store env config now ev e charge).next_retry_at
          ≡ add_64 now (mul_64 (backoff_of e ev.retry_count) 1000)
    unfolding rescheduled backoff_params_for
    due e charge now = elim (Bool-cases (is_missing_dependency e)) [
      | inl q ↦ rw q refl
      | inr q ↦ rw q refl
    ]

    -- When the handler of an entry that is still the fetched one failed and the event is to be
    -- tried again, the entry stays under its key with its nonce. It is due, in wrapping machine
    -- arithmetic, after the backoff for the retries so far, which is the longer one configured for
    -- a missing dependency if that was the failure; its retry count grows by one exactly when the
    -- failure was not an outage, and an outage ends the batch with its error.
    pub settle-IsDeferred :
        (e : EventProcessorError) (charge b : Bool)
        → let ev' = rescheduled store env config (env.timestamp_millis w.1).0 ev e charge in
          IsDeferred ev e charge
          → (store.put_if ev' ev.nonce w.0).0 ≡ ok b
          → for_uri ev.event_uri ≡ k
          → has_nonce ev.nonce (store.entry k w.0) ≡ true
          → ((settle store env config k ev (err e) w).0 ≡ (if charge then ok tt else err e))
            × (store.entry k (settle store env config k ev (err e) w).1.0 ≡ some ev')
            × (ev'.nonce ≡ ev.nonce)
            × (ev'.event_uri ≡ ev.event_uri)
            × (ev'.event_type ≡ ev.event_type)
            × (ev'.retry_count ≡ (if charge then add_u32 ev.retry_count 1 else ev.retry_count))
            × (ev'.next_retry_at
                ≡ add_64 (env.timestamp_millis w.1).0 (mul_64 (backoff_of e ev.retry_count) 1000))
    unfolding settle
    settle-IsDeferred e charge b (outage q p) h key current =
        let r = settle-reschedule e false b h key current in
        (
          rw (q, p)
              (then_raise_result {B = Unit {0}} (reschedule store env config ev e false w) e r.0),
          rw (q, p, then_raise (Unit {0}) (reschedule store env config ev e false w) e) r.1,
          refl,
          refl,
          refl,
          refl,
          due e false (env.timestamp_millis w.1).0,
        )
    settle-IsDeferred e charge b (again q p m) h key current =
        let r = settle-reschedule e true b h key current in
        (
          rw (q, p, lt→leb _ _ m) r.0,
          rw (q, p, lt→leb _ _ m) r.1,
          refl,
          refl,
          refl,
          refl,
          due e true (env.timestamp_millis w.1).0,
        )
