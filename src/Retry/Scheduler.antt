-- ===== src/Retry/Scheduler.antt =====
-- `InitialBackoff` and `RetryScheduler` of nexus-watcher/src/events/retry/scheduler.rs. The
-- configured seconds become milliseconds of an `i64`.
use pubky_nexus.Base.{ℕ, String, Step}
use pubky_nexus.Base.Word.{add_64, mul_64}
use pubky_nexus.Errors.{EventProcessorError}
use pubky_nexus.Event.{Specs, Event}
use pubky_nexus.Retry.Entry.{IndexKey, RetryEvent, Now, new}
use pubky_nexus.Retry.Store.{RetryStore}
use pubky_nexus.Retry.Config.{EventRetryConfig}
pub mod Laws

-- `InitialBackoff`
pub record InitialBackoff : Type 0 where
  pub missing_dep_ms : ℕ
  pub transient_ms : ℕ

-- `InitialBackoff::from_config`
unfoldable pub from_config : EventRetryConfig → InitialBackoff
from_config config = record {
  missing_dep_ms = mul_64 config.initial_missing_dep_backoff_secs 1000;
  transient_ms = mul_64 config.initial_backoff_secs 1000;
}

module _ {specs : Specs} {for_uri : String → IndexKey} (store : RetryStore for_uri)
    (initial : InitialBackoff) where
  -- `RetryScheduler::enqueue`, with the times read for the schedule and for the nonce.
  unfoldable pub enqueue :
      Now → Now → Event specs → ℕ → String → Step store.St EventProcessorError (Unit {0})
  unfolding new
  enqueue now nonce_now event initial_backoff_ms origin_homeserver_id =
      let next_retry_at = add_64 now.timestamp_millis initial_backoff_ms in
      store.put (new nonce_now event next_retry_at origin_homeserver_id)

  -- `RetryScheduler::queue_missing_dep`
  unfoldable pub queue_missing_dep :
      Now → Now → Event specs → String → Step store.St EventProcessorError (Unit {0})
  unfolding enqueue
  queue_missing_dep now nonce_now event = enqueue now nonce_now event initial.missing_dep_ms

  -- `RetryScheduler::queue_transient`
  unfoldable pub queue_transient :
      Now → Now → Event specs → String → Step store.St EventProcessorError (Unit {0})
  unfolding enqueue
  queue_transient now nonce_now event = enqueue now nonce_now event initial.transient_ms
