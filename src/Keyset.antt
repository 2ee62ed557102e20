-- ===== src/Keyset.antt =====
-- The keyset-paginated scan of nexus-common/src/db/graph/pagination.rs. A batch is fetched by
-- `step`, which the caller supplies; a world `W` holds all that it can change.
use pubky_nexus.Base.{
  ℕ, zero, suc, String, Option, none, some, List, [], Result, ok, err, Step, ltb, nat_beq, ◌||◌,
  if◌then◌else◌,
}
use pubky_nexus.Base.Order.{Ord, str_ord, list_ord}
use pubky_nexus.Errors.{GraphError}
pub mod Unroll
pub mod Ends
pub mod Complete
mod Tests

-- The texts of a stall: how many rows came without a cursor, and which cursors did not advance.
pub record Details (C : Type 0) : Type 0 where
  pub no_cursor : ℕ → String
  pub not_advanced : C → C → String

-- `stalled`
unfoldable pub stalled : {E : Type 0} → (GraphError → E) → String → String → E
stalled from context detail = from (GraphError.keyset_scan_stalled context detail)

module _ {E C : Type 0} (ord : Ord C) (from : GraphError → E) (text : Details C) (batch_size : ℕ)
    (context : String) where
  -- What the loop does after a batch: go on from the next cursor, or end with a result.
  unfoldable pub after_batch : C → ℕ × Option C → Result C (Result (Unit {0}) E)
  unfolding stalled
  after_batch cursor (count, last_cursor) =
      if nat_beq count 0 || ltb count batch_size then err (ok tt) else (elim last_cursor [
        | none ↦ err (err (stalled from context (text.no_cursor count)))
        | some next ↦
            if ord.le next cursor
            then err (err (stalled from context (text.not_advanced cursor next)))
            else ok next
      ])

module _ {W E C : Type 0} (ord : Ord C) (from : GraphError → E) (text : Details C) (batch_size : ℕ)
    (context : String) where
  -- The loop of `scan`, for at most `fuel` batches.
  unfoldable pub scan_from :
      ℕ → (C → Step W E (ℕ × Option C)) → C → W → Option (Result (Unit {0}) E) × W
  unfolding after_batch
  scan_from zero step cursor w = (none, w)
  scan_from (suc fuel) step cursor w = elim (step cursor w).0 [
    | err e ↦ (some (err e), (step cursor w).1)
    | ok batch ↦ elim (after_batch ord from text batch_size context cursor batch) [
      | err result ↦ (some result, (step cursor w).1)
      | ok next ↦ scan_from fuel step next (step cursor w).1
    ]
  ]

  -- `scan`, where `start` is the default cursor.
  unfoldable pub scan : C → ℕ → (C → Step W E (ℕ × Option C)) → W → Option (Result (Unit {0}) E) × W
  unfolding scan_from
  scan start fuel step w = scan_from fuel step start w

module _ {W E : Type 0} (from : GraphError → E) where
  -- `keyset_scan`
  unfoldable pub keyset_scan :
      Details String
      → ℕ
      → String
      → ℕ
      → (String → Step W E (ℕ × Option String))
      → W
      → Option (Result (Unit {0}) E) × W
  unfolding scan
  keyset_scan text batch_size context = scan str_ord from text batch_size context ""

  -- `keyset_scan_composite`
  unfoldable pub keyset_scan_composite :
      Details (List String)
      → ℕ
      → String
      → ℕ
      → (List String → Step W E (ℕ × Option (List String)))
      → W
      → Option (Result (Unit {0}) E) × W
  unfolding scan
  keyset_scan_composite text batch_size context =
      scan (list_ord str_ord) from text batch_size context []
