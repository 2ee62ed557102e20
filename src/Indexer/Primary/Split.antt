-- ===== src/Indexer/Primary/Split.antt =====
-- What `EventBatch::split` makes of a response.
use pubky_nexus.Base.{
  append_assoc, append_nil, sym, String, Bool, true, false, Option, none, some, List, [], ◌∷◌, ◌++◌,
  ◌≡◌, refl, filter, Option-cases, inl, inr, ◌∙◌,
}
use pubky_nexus.Indexer.Primary.{EventBatch, strip_prefix, take_line, split_loop, split}

abbrev pub cursor_value : String → Option String
cursor_value = strip_prefix "cursor: "

abbrev pub is_event_line : String → Bool
is_event_line line = elim (cursor_value line) [ none ↦ true | some value ↦ false ]

abbrev or_else : Option String → Option String → Option String
or_else (some value) other = some value
or_else none other = other

-- The value of the last cursor line.
abbrev pub last_cursor : List String → Option String
last_cursor [] = none
last_cursor (line ∷ lines) = or_else (last_cursor lines) (cursor_value line)

or_else_assoc : (a b c : Option String) → or_else a (or_else b c) ≡ or_else (or_else a b) c
or_else_assoc none b c = refl
or_else_assoc (some v) b c = refl

or_else-none : (a : Option String) → or_else a none ≡ a
or_else-none none = refl
or_else-none (some v) = refl

split_loop_lem :
    (batch : EventBatch) (lines : List String)
    → ((split_loop batch lines).event_lines ≡ batch.event_lines ++ filter is_event_line lines)
      × ((split_loop batch lines).cursor ≡ or_else (last_cursor lines) batch.cursor)
unfolding split_loop take_line
split_loop_lem batch [] = (sym (append_nil batch.event_lines), refl)
split_loop_lem batch (line ∷ lines) = elim (Option-cases (cursor_value line)) [
  | inl q ↦
      let (events, cursor) =
        split_loop_lem (record batch { event_lines = batch.event_lines ++ (line ∷ []) }) lines in
      let plain : is_event_line line ≡ true = rw (is_event_line, q) refl in
      rw (plain, split_loop, q)
        (
          events ∙ append_assoc batch.event_lines (line ∷ []) (filter is_event_line lines),
          cursor ∙ or_else_assoc (last_cursor lines) none batch.cursor,
        )
  | inr (value, q) ↦
      let (events, cursor) = split_loop_lem (record batch { cursor = some value }) lines in
      let closing : is_event_line line ≡ false = rw (is_event_line, q) refl in
      rw (closing, split_loop, q)
        (events, cursor ∙ or_else_assoc (last_cursor lines) (some value) batch.cursor)
]

-- Wherever a response has its cursor lines, the batch has the other lines in their order, and the
-- value of the last cursor line.
pub split_lem :
    (lines : List String)
    → ((split lines).event_lines ≡ filter is_event_line lines)
      × ((split lines).cursor ≡ last_cursor lines)
unfolding split
split_lem lines =
    let (events, cursor) = split_loop_lem (record { event_lines = []; cursor = none }) lines in
    (events, cursor ∙ or_else-none (last_cursor lines))
