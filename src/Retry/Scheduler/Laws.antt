-- ===== src/Retry/Scheduler/Laws.antt =====
-- What an enqueue means for the retries that are under way.
use pubky_nexus.Base.{ℕ, String, some, ok, Result, ◌≡◌, ◌≢◌, string_eq, refl, arith}
use pubky_nexus.Base.Word.{add_64}
use pubky_nexus.Errors.{EventProcessorError}
use pubky_nexus.Event.{Specs, Event}
use pubky_nexus.Retry.Config.{EventRetryConfig}
use pubky_nexus.Retry.Entry.{IndexKey, RetryEvent, Now, new, fresh_nonce}
use pubky_nexus.Retry.Processor.{Env, settle}
use pubky_nexus.Retry.Processor.Safety.{settle-Keeps}
use pubky_nexus.Retry.Scheduler.{InitialBackoff, enqueue}
use pubky_nexus.Retry.Store.{RetryStore}

module _ {specs : Specs} {for_uri : String → IndexKey} (store : RetryStore for_uri)
    (env : Env specs store.St) (config : EventRetryConfig) (initial : InitialBackoff) where
  -- An enqueue that succeeds starts its event afresh and cannot be undone by an older retry: the
  -- slot of the URI then holds the event with retry count zero, due after the initial backoff, and
  -- any retry that is under way with another nonce, for whatever entry and whatever its handler
  -- answered, leaves it there.
  pub settle-enqueue :
      (now nonce_now : Now) (event : Event specs) (backoff_ms : ℕ) (hs_id : String) (s : store.St)
      (x : env.X) (k : IndexKey) (old : RetryEvent) (r : Result (Unit {0}) EventProcessorError)
      → (enqueue store initial now nonce_now event backoff_ms hs_id s).0 ≡ ok tt
      → fresh_nonce nonce_now ≢ old.nonce
      → let queued = enqueue store initial now nonce_now event backoff_ms hs_id s in
        let fresh = new nonce_now event (add_64 now.timestamp_millis backoff_ms) hs_id in
        (fresh.retry_count ≡ 0)
        × (fresh.next_retry_at ≡ add_64 now.timestamp_millis backoff_ms)
        × (store.entry (for_uri event.uri) queued.1 ≡ some fresh)
        × (store.entry (for_uri event.uri) (settle store env config k old r (queued.1, x)).1.0
            ≡ some fresh)
  unfolding enqueue new
  settle-enqueue now nonce_now event backoff_ms hs_id s x k old r h other =
      let fresh = new nonce_now event (add_64 now.timestamp_millis backoff_ms) hs_id in
      let key = for_uri event.uri in
      let s' = (enqueue store initial now nonce_now event backoff_ms hs_id s).1 in
      let stored : store.entry key s' ≡ some fresh =
        ground (arith, store.put_ok fresh s h key, string_eq.same_iff key key) in
      (refl, refl, stored, settle-Keeps store env config k old r (s', x) key fresh stored other)
