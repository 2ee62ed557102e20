-- ===== src/Retry/Processor.antt =====
-- `RetryProcessor` of nexus-watcher/src/events/retry/processor.rs, over any `RetryStore`. The
-- handler may do anything to the world, the store included: that is how what other tasks enqueue
-- while an event is being handled enters.
use pubky_nexus.Base.{
  ℕ, zero, suc, String, Bool, true, false, not, Option, none, some, List, [], ◌∷◌, Result, ok, err,
  Step, ◌>>=◌, ◌>>◌, pure, raise, if◌then◌else◌, leb,
}
use pubky_nexus.Base.Word.{add_u32, add_64, mul_64}
use pubky_nexus.Errors.{
  EventProcessorError, should_enqueue_related_event, should_not_retry_now, is_missing_dependency,
}
use pubky_nexus.Event.{
  Specs, Event, ParseResult, parsed, skipped, unrecognized_uri, event_line_of, parse_event,
}
use pubky_nexus.Retry.Backoff.{calculate_backoff}
use pubky_nexus.Retry.Config.{EventRetryConfig}
use pubky_nexus.Retry.Entry.{IndexKey, RetryEvent}
use pubky_nexus.Retry.Store.{RetryStore}
pub mod Safety
pub mod Bounds
pub mod Outcome

-- The rest of the world: what handles an event, the clock and the shutdown flag. A read of the
-- clock or the flag may find the rest of the world changed.
pub record Env (specs : Specs) (St : Type 0) : Type 1 where
  pub X : Type 0
  pub handle : Event specs → Step (St × X) EventProcessorError (Unit {0})
  pub timestamp_millis : X → ℕ × X
  pub is_shutdown : X → Bool × X

-- `RunOutcome`
pub data RunOutcome : Type 0 where
  completed budget_spent : RunOutcome

-- `RETRY_BATCH_SIZE`
abbrev pub retry_batch_size : ℕ
retry_batch_size = 100

module _ {specs : Specs} {for_uri : String → IndexKey} (store : RetryStore for_uri)
    (env : Env specs store.St) (config : EventRetryConfig) where
  abbrev pub World : Type 0
  World = store.St × env.X

  abbrev pub on_store :
      {A : Type 0} → Step store.St EventProcessorError A → Step World EventProcessorError A
  on_store m w = let (r, s) = m w.0 in (r, (s, w.1))

  -- `max_retries_for`
  unfoldable pub max_retries_for : EventProcessorError → ℕ
  max_retries_for error =
      if is_missing_dependency error then config.max_dependency_retries else config.max_retries

  -- `backoff_params_for`
  unfoldable pub backoff_params_for : EventProcessorError → ℕ × ℕ
  backoff_params_for error =
      if is_missing_dependency error
      then (config.initial_missing_dep_backoff_secs, config.max_missing_dep_backoff_secs)
      else (config.initial_backoff_secs, config.max_backoff_secs)

  -- `remove_if_current`
  unfoldable pub remove_if_current : IndexKey → ℕ → Step World EventProcessorError (Unit {0})
  remove_if_current index_key nonce = do
    removed ← on_store (store.remove_if index_key nonce)
    pure tt

  -- The event that `reschedule` writes, at the time `now`.
  unfoldable pub rescheduled : ℕ → RetryEvent → EventProcessorError → Bool → RetryEvent
  unfolding backoff_params_for
  rescheduled now retry_event error increment_count =
      let (initial, max) = backoff_params_for error in
      let backoff_secs = calculate_backoff retry_event.retry_count initial max in
      record retry_event {
        retry_count =
            if increment_count then add_u32 retry_event.retry_count 1 else retry_event.retry_count;
        next_retry_at = add_64 now (mul_64 backoff_secs 1000);
      }

  -- `reschedule`
  unfoldable pub reschedule :
      RetryEvent → EventProcessorError → Bool → Step World EventProcessorError (Unit {0})
  unfolding rescheduled
  reschedule retry_event error increment_count w =
      let (now, x) = env.timestamp_millis w.1 in
      (do
        written ←
            on_store
              (store.put_if (rescheduled now retry_event error increment_count) retry_event.nonce)
        pure tt)
        (w.0, x)

  -- The `match event_handle_res` of `process_retry_event`.
  unfoldable pub settle :
      IndexKey
      → RetryEvent
      → Result (Unit {0}) EventProcessorError
      → Step World EventProcessorError (Unit {0})
  unfolding remove_if_current reschedule max_retries_for
  settle index_key retry_event (ok _) = remove_if_current index_key retry_event.nonce
  settle index_key retry_event (err e) =
      if not (should_enqueue_related_event e)
      then remove_if_current index_key retry_event.nonce
      else if should_not_retry_now e
      then (do reschedule retry_event e false; raise e)
      else if leb (max_retries_for e) retry_event.retry_count
      then remove_if_current index_key retry_event.nonce
      else reschedule retry_event e true

  -- What follows once the line is parsed.
  process_parsed :
      IndexKey
      → RetryEvent
      → Result (ParseResult specs) EventProcessorError
      → Step World EventProcessorError (Unit {0})
  unfolding settle remove_if_current
  process_parsed index_key retry_event (ok (parsed event)) w =
      let (event_handle_res, w') = env.handle event w in
      settle index_key retry_event event_handle_res w'
  process_parsed index_key retry_event (ok skipped) w =
      remove_if_current index_key retry_event.nonce w
  process_parsed index_key retry_event (ok (unrecognized_uri _ _ _)) w =
      remove_if_current index_key retry_event.nonce w
  process_parsed index_key retry_event (err _) w = remove_if_current index_key retry_event.nonce w

  -- `process_retry_event`
  unfoldable pub process_retry_event :
      IndexKey → RetryEvent → Step World EventProcessorError (Unit {0})
  unfolding process_parsed
  process_retry_event index_key retry_event =
      process_parsed index_key retry_event
        (parse_event specs (event_line_of retry_event.event_type retry_event.event_uri))

  -- The `for` loop over a batch: true when the shutdown flag ended it.
  unfoldable pub process_batch : List (IndexKey × RetryEvent) → Step World EventProcessorError Bool
  process_batch [] w = pure false w
  process_batch ((index_key, retry_event) ∷ events) w =
      let (stop, x) = env.is_shutdown w.1 in
      let rest = (do process_retry_event index_key retry_event; process_batch events) (w.0, x) in
      if stop then (ok true, (w.0, x)) else rest

  abbrev pub Ended : Type 0
  Ended = Result RunOutcome EventProcessorError × World

  -- What follows a batch, and a fetch, in the `loop` of `run_internal`; `again` is the next round.
  after_batch : (World → Option Ended) → Result Bool EventProcessorError × World → Option Ended
  after_batch again (err e, w) = some (err e, w)
  after_batch again (ok true, w) = some (ok completed, w)
  after_batch again (ok false, w) = again w

  after_fetch :
      (World → Option Ended)
      → Result (List (IndexKey × RetryEvent)) EventProcessorError × World
      → Option Ended
  unfolding after_batch process_batch
  after_fetch again (err e, w) = some (err e, w)
  after_fetch again (ok [], w) = some (ok completed, w)
  after_fetch again (ok (p ∷ events), w) = after_batch again (process_batch (p ∷ events) w)

  -- The `loop` of `run_internal`; `none` when the fuel runs out.
  unfoldable pub run_loop : ℕ → ℕ → World → Option Ended
  unfolding after_fetch
  run_loop zero now w = none
  run_loop (suc fuel) now w =
      after_fetch (λ w'. run_loop fuel now w')
        (on_store (store.fetch_ready now (some retry_batch_size)) w)

  -- `run_internal`
  unfoldable pub run_internal : ℕ → World → Option Ended
  unfolding run_loop
  run_internal fuel w = let (now, x) = env.timestamp_millis w.1 in run_loop fuel now (w.0, x)
