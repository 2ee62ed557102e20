-- ===== src/Indexer/Primary.antt =====
-- The primary homeserver's batches: `EventBatch` and `HsEventProcessor` of
-- nexus-watcher/src/service/indexer/homeserver.rs.
use Prim.Native.Char.{code}
use pubky_nexus.Base.{
  ℕ, String, Bool, true, false, not, Option, none, some, List, [], ◌∷◌, ◌++◌, Result, ok, err, Step,
  ◌>>=◌, ◌>>◌, pure, map_err, if◌then◌else◌, leb, nat_beq, is_empty,
}
use pubky_nexus.Errors.{
  EventProcessorError, RedisError, ModelError, HsError, Messages, from_redis, from_model, from_hs,
}
use pubky_nexus.Event.{Specs}
use pubky_nexus.Homeserver.{Homeserver, CursorIndex, put_to_index, try_from_cursor}
use pubky_nexus.Indexer.Processor.{Processor, process_event_line}
use pubky_nexus.Retry.Processor.{RunOutcome, completed}
pub mod Split
pub mod Lines
pub mod Commit
pub mod Mapping

-- `line.strip_prefix(prefix)`
unfoldable pub strip_prefix : String → String → Option String
strip_prefix String.[] line = some line
strip_prefix (String.◌∷◌ c prefix) String.[] = none
strip_prefix (String.◌∷◌ c prefix) (String.◌∷◌ d line) =
    if nat_beq (code c) (code d) then strip_prefix prefix line else none

-- `EventBatch`
pub record EventBatch : Type 0 where
  pub event_lines : List String
  pub cursor : Option String

-- One step of the loop of `EventBatch::split`.
unfoldable pub take_line : EventBatch → String → Option String → EventBatch
take_line batch line (some value) = record batch { cursor = some value }
take_line batch line none = record batch { event_lines = batch.event_lines ++ (line ∷ []) }

unfoldable pub split_loop : EventBatch → List String → EventBatch
unfolding take_line strip_prefix
split_loop batch [] = batch
split_loop batch (line ∷ lines) =
    split_loop (take_line batch line (strip_prefix "cursor: " line)) lines

-- `EventBatch::split`
unfoldable pub split : List String → EventBatch
unfolding split_loop
split lines = split_loop (record { event_lines = []; cursor = none }) lines

-- `EventBatch::has_events`
unfoldable pub has_events : EventBatch → Bool
has_events batch = not (is_empty batch.event_lines)

-- What the processor reaches: its event processing, the cursors, the shutdown flag and the client.
pub record HsEventProcessor (specs : Specs) (W : Type 0) : Type 1 where
  pub processor : Processor specs W
  pub index : CursorIndex W
  pub homeserver : Homeserver
  pub is_shutdown : W → Bool × W
  pub poll_events : Step W HsError (List String)
  pub text : Messages

module _ {specs : Specs} {W : Type 0} (self : HsEventProcessor specs W) where
  -- The checks of `resolve_batch_cursor` on a cursor that could be applied.
  unfoldable pub accept : Bool → Homeserver → Option Homeserver
  accept batch_had_events homeserver =
      if batch_had_events
      then (if leb homeserver.cursor self.homeserver.cursor then none else some homeserver)
      else if nat_beq homeserver.cursor self.homeserver.cursor
      then some homeserver
      else none

  -- The `match` of `resolve_batch_cursor`, and what follows it.
  unfoldable pub judge :
      Bool → Result Homeserver ModelError → Result (Option Homeserver) EventProcessorError
  unfolding accept
  judge batch_had_events (ok homeserver) = ok (accept batch_had_events homeserver)
  judge batch_had_events (err (ModelError.kv_operation_failed (RedisError.invalid_input _))) =
      ok none
  judge batch_had_events (err (ModelError.kv_operation_failed e)) =
      err (from_model self.text (ModelError.kv_operation_failed e))
  judge batch_had_events (err _) = ok none

  -- `resolve_batch_cursor`
  unfoldable pub resolve_batch_cursor :
      String → Bool → Step W EventProcessorError (Option Homeserver)
  unfolding judge
  resolve_batch_cursor raw_cursor batch_had_events w =
      let (r, w') = try_from_cursor self.index self.homeserver.id raw_cursor w in
      (judge batch_had_events r, w')

  -- The loop over the event lines: true when the shutdown flag ended it.
  unfoldable pub process_lines : List String → Step W EventProcessorError Bool
  process_lines [] w = (ok false, w)
  process_lines (line ∷ lines) w =
      let (stop, w') = self.is_shutdown w in
      let rest = (do process_event_line self.processor line; process_lines lines) w' in
      if stop then (ok true, w') else rest

  -- What follows the loop: the cursor is stored.
  unfoldable pub commit : Option Homeserver → Bool → Step W EventProcessorError (Unit {0})
  commit next_cursor true w = (ok tt, w)
  commit none false w = (ok tt, w)
  commit (some homeserver) false w =
      let (r, w') = put_to_index self.index homeserver w in (map_err (from_redis self.text) r, w')

  -- What follows the resolution of the cursor.
  unfoldable pub process_resolved :
      EventBatch → Option Homeserver → Step W EventProcessorError (Unit {0})
  unfolding process_lines commit
  process_resolved batch none = pure tt
  process_resolved batch (some homeserver) = do
    stopped ← process_lines batch.event_lines
    commit (some homeserver) stopped

  -- `process_event_lines`
  unfoldable pub process_event_lines : List String → Step W EventProcessorError (Unit {0})
  unfolding split has_events resolve_batch_cursor process_resolved process_lines commit
  process_event_lines lines =
      let batch = split lines in
      elim batch.cursor [
        | some raw_cursor ↦ (do
          next_cursor ← resolve_batch_cursor raw_cursor (has_events batch)
          process_resolved batch next_cursor)
        | none ↦
            if has_events batch
            then pure tt
            else (do stopped ← process_lines batch.event_lines; commit none stopped)
      ]

  -- What follows the poll in `run_internal`.
  process_polled : List String → Step W EventProcessorError RunOutcome
  unfolding process_event_lines
  process_polled lines =
      if is_empty lines then pure completed else (do process_event_lines lines; pure completed)

  -- `run_internal`
  unfoldable pub run_internal : Step W EventProcessorError RunOutcome
  unfolding process_polled
  run_internal = do
    event_lines ←
        (λ w. (map_err (from_hs self.text) (self.poll_events w).0, (self.poll_events w).1))
    process_polled event_lines
