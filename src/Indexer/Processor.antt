-- ===== src/Indexer/Processor.antt =====
-- The trait `TEventProcessor` of nexus-watcher/src/service/indexer/mod.rs: what every processor
-- does with one event. The world `W` holds the stores, the retry queue and the clock.
use pubky_nexus.Base.{
  String, Bool, true, false, not, Option, none, some, Result, ok, err, Step, pure, raise,
  if◌then◌else◌,
}
use pubky_nexus.Errors.{
  EventProcessorError, should_enqueue_related_event, should_not_retry_now, is_missing_dependency,
}
use pubky_nexus.Event.{Specs, Event, ParseResult, parsed, skipped, unrecognized_uri, parse_event}
pub mod Laws

-- The methods of `RetryScheduler` that a processor calls.
pub record Scheduler (specs : Specs) (W : Type 0) : Type 0 where
  pub queue_missing_dep : Event specs → String → Step W EventProcessorError (Unit {0})
  pub queue_transient : Event specs → String → Step W EventProcessorError (Unit {0})

-- What an implementation of the trait supplies.
pub record Processor (specs : Specs) (W : Type 0) : Type 0 where
  pub handle : Event specs → Step W EventProcessorError (Unit {0})
  pub retry_scheduler : Option (Scheduler specs W)
  pub homeserver_id : Option String
  pub should_process_event : Event specs → Step W EventProcessorError Bool

module _ {specs : Specs} {W : Type 0} (self : Processor specs W) where
  -- The end of `handle_error`, where the event is queued.
  queue :
      Event specs
      → EventProcessorError
      → Option (Scheduler specs W)
      → Option String
      → Step W EventProcessorError (Unit {0})
  queue event error none homeserver_id = pure tt
  queue event error (some scheduler) none = pure tt
  queue event error (some scheduler) (some homeserver_id) =
      if is_missing_dependency error
      then scheduler.queue_missing_dep event homeserver_id
      else scheduler.queue_transient event homeserver_id

  -- `handle_error`
  unfoldable pub handle_error :
      Event specs → EventProcessorError → Step W EventProcessorError (Unit {0})
  unfolding queue
  handle_error event error =
      if should_not_retry_now error
      then raise error
      else if not (should_enqueue_related_event error)
      then pure tt
      else queue event error self.retry_scheduler self.homeserver_id

  -- What follows the handler in `handle_event`.
  after_handler :
      Event specs
      → Result (Unit {0}) EventProcessorError × W
      → Result (Unit {0}) EventProcessorError × W
  unfolding handle_error
  after_handler event (ok _, w) = (ok tt, w)
  after_handler event (err e, w) = handle_error event e w

  -- The `match` on `should_process_event` in `handle_event`, and what follows it.
  after_check :
      Event specs → Result Bool EventProcessorError × W → Result (Unit {0}) EventProcessorError × W
  unfolding handle_error after_handler
  after_check event (ok true, w) = after_handler event (self.handle event w)
  after_check event (ok false, w) = (ok tt, w)
  after_check event (err e, w) = handle_error event e w

  -- `handle_event`
  unfoldable pub handle_event : Event specs → Step W EventProcessorError (Unit {0})
  unfolding after_check
  handle_event event w = after_check event (self.should_process_event event w)

  -- `process_event_line`
  unfoldable pub process_event_line : String → Step W EventProcessorError (Unit {0})
  unfolding handle_event
  process_event_line line w = elim (parse_event specs line) [
    | err e ↦ (ok tt, w)
    | ok r ↦ elim r [
      | parsed event ↦ handle_event event w
      | skipped ↦ (ok tt, w)
      | unrecognized_uri _ _ _ ↦ (ok tt, w)
    ]
  ]
