-- ===== src/Indexer/UserEvents.antt =====
-- `process_user_events` of nexus-watcher/src/service/indexer/key_based.rs: one batch of one user's
-- event stream. The clock is read in the unit of the deadline.
use pubky_nexus.Base.{
  ℕ, String, Bool, true, false, Option, none, some, List, [], ◌∷◌, Result, ok, err, Step,
  if◌then◌else◌, leb, ◌==◌, string_eq,
}
use pubky_nexus.Errors.{EventProcessorError}
use pubky_nexus.Event.{Specs, Event, HsStreamEvent, from_stream_event}
use pubky_nexus.Indexer.Processor.{Processor, handle_event}
pub mod Progress

-- The check that opens `process_user_events`: each cursor is above the floor, which is the stored
-- cursor and then the cursor before it. The answer is the cursor and the floor that break it.
unfoldable pub first_out_of_order : ℕ → List HsStreamEvent → Option (ℕ × ℕ)
first_out_of_order cursor_floor [] = none
first_out_of_order cursor_floor (e ∷ events) =
    if leb e.cursor cursor_floor
    then some (e.cursor, cursor_floor)
    else first_out_of_order e.cursor events

-- `validate_user_id`
unfoldable pub validate_user_id :
    String → HsStreamEvent → String → Result (Unit {0}) EventProcessorError
validate_user_id hs_id stream_event expected_user_id =
    if stream_event.owner == expected_user_id
    then ok tt
    else err (EventProcessorError.user_id_mismatch hs_id expected_user_id stream_event.owner)

-- The clock and the shutdown flag, which other tasks may move.
pub record Signals (W : Type 0) : Type 0 where
  pub now : W → ℕ × W
  pub is_shutdown : W → Bool × W

module _ {specs : Specs} {W : Type 0} (self : Processor specs W) (signals : Signals W)
    (hs_id user_id : String) (deadline : ℕ) where
  -- The latest cursor that is safe to persist, and the result.
  abbrev pub Progress : Type 0
  Progress = (Option ℕ × Result (Unit {0}) EventProcessorError) × W

  -- What a stream event is turned into, and its handling.
  handle_stream_event :
      Result (Option (Event specs)) EventProcessorError → Step W EventProcessorError (Unit {0})
  handle_stream_event (ok (some event)) w = handle_event self event w
  handle_stream_event (ok none) w = (ok tt, w)
  handle_stream_event (err _) w = (ok tt, w)

  -- The body of the loop up to the cursor's advance: owner first, then the event.
  unfoldable pub process_stream_event : HsStreamEvent → Step W EventProcessorError (Unit {0})
  unfolding handle_stream_event
  process_stream_event e w = elim (validate_user_id hs_id e user_id) [
    | err x ↦ (err x, w)
    | ok _ ↦ handle_stream_event (from_stream_event specs e) w
  ]

  -- What follows a stream event: an error ends the loop with the cursor before it; else the cursor
  -- advances, and the loop goes on unless the budget is spent.
  advance :
      ℕ
      → Option ℕ
      → (Option ℕ → W → Progress)
      → Result (Unit {0}) EventProcessorError × W
      → Progress
  advance cursor_id latest_cursor rest (err e, w) = ((latest_cursor, err e), w)
  advance cursor_id latest_cursor rest (ok _, w) =
      let (t, w') = signals.now w in
      let next = rest (some cursor_id) w' in
      if leb deadline t then ((some cursor_id, ok tt), w') else next

  -- The loop over the events.
  unfoldable pub process_events : Option ℕ → List HsStreamEvent → W → Progress
  unfolding advance process_stream_event
  process_events latest_cursor [] w = ((latest_cursor, ok tt), w)
  process_events latest_cursor (e ∷ events) w =
      let (stop, w') = signals.is_shutdown w in
      let next =
        advance e.cursor latest_cursor (λ c v. process_events c events v)
          (process_stream_event e w') in
      if stop then ((latest_cursor, ok tt), w') else next

  -- `process_user_events`
  unfoldable pub process_user_events : ℕ → List HsStreamEvent → W → Progress
  unfolding first_out_of_order process_events
  process_user_events persisted_cursor stream_events w =
      let (stop, w') = signals.is_shutdown w in
      let checked : Progress = elim (first_out_of_order persisted_cursor stream_events) [
        | some p ↦
            ((none, err (EventProcessorError.event_cursor_out_of_order hs_id user_id p.0 p.1)), w')
        | none ↦ process_events none stream_events w'
      ] in
      if stop then ((none, ok tt), w') else checked
