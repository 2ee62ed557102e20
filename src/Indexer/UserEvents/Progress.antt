-- ===== src/Indexer/UserEvents/Progress.antt =====
-- Where a batch of a user's stream stops, and that the next one goes on from there.
use pubky_nexus.Base.{
  ℕ, String, false, Option, none, some, List, [], ◌∷◌, ◌++◌, Result, ok, err, leb, ltb, ◌≡◌, ◌<◌,
  ◌≤◌, refl, arith, filter, All, inl, inr, Bool-cases, ap, leb→le,
}
use pubky_nexus.Errors.{EventProcessorError}
use pubky_nexus.Event.{Specs, HsStreamEvent}
use pubky_nexus.Indexer.Processor.{Processor}
use pubky_nexus.Indexer.UserEvents.{
  Signals, first_out_of_order, process_stream_event, process_user_events, Progress,
}

-- The cursors rise strictly from the floor.
abbrev pub IsRising : ℕ → List HsStreamEvent → Type 0
IsRising floor [] = Unit
IsRising floor (e ∷ events) = (floor < e.cursor) × IsRising e.cursor events

-- The cursor that the event after some must exceed: the last of them, or the floor.
abbrev pub floor_after : ℕ → List HsStreamEvent → ℕ
floor_after floor [] = floor
floor_after floor (e ∷ events) = floor_after e.cursor events

first_out_of_order-found :
    (floor : ℕ) (events : List HsStreamEvent)
    → ¬ IsRising floor events
    → (pre : List HsStreamEvent) × (e : HsStreamEvent) × (post : List HsStreamEvent) × (events
        ≡ pre ++ (e ∷ post))
      × IsRising floor pre
      × (e.cursor ≤ floor_after floor pre)
      × (first_out_of_order floor events ≡ some (e.cursor, floor_after floor pre))
unfolding first_out_of_order
first_out_of_order-found floor [] h = absurd (h tt)
first_out_of_order-found floor (e ∷ events) h = elim (Bool-cases (leb e.cursor floor)) [
  | inl q ↦ rw q ([], e, events, refl, tt, leb→le e.cursor floor q, refl)
  | inr q ↦
      let up : floor < e.cursor = ground arith in
      let (pre, x, post, c, rising, k, found) =
        first_out_of_order-found e.cursor events (λ l. h (up, l)) in
      rw q (e ∷ pre, x, post, ap (◌∷◌ e) c, (up, rising), k, found)
]

-- What the homeserver sends from a cursor on.
abbrev pub after : ℕ → List HsStreamEvent → List HsStreamEvent
after c = filter (λ e. ltb c e.cursor)

abbrev pub cursor_or : ℕ → Option ℕ → ℕ
cursor_or floor none = floor
cursor_or floor (some c) = c

module _ {specs : Specs} {W : Type 0} (self : Processor specs W) (signals : Signals W)
    (hs_id user_id : String) (deadline : ℕ) where
  -- The event is the user's own, and was handled or is none that is handled.
  abbrev pub IsProcessed : HsStreamEvent → Type 0
  IsProcessed e =
      (e.owner ≡ user_id)
      × (v : W) × (v' : W) × (process_stream_event self signals hs_id user_id deadline e v
          ≡ (ok tt, v'))

  -- The loop got from the cursor `latest` before `events` to the cursor `c` before `rest`.
  pub data Reaches (rest : List HsStreamEvent) (c : Option ℕ)
      : Option ℕ → List HsStreamEvent → Type 0 where
    stop : Reaches rest c c rest
    step :
        {latest : Option ℕ} {e : HsStreamEvent} {events : List HsStreamEvent}
        → IsProcessed e
        → Reaches rest c (some e.cursor) events
        → Reaches rest c latest (e ∷ events)

  -- An error comes from the first event of what is left.
  abbrev pub FailsAt : Result (Unit {0}) EventProcessorError → List HsStreamEvent → Type 0
  FailsAt (ok _) rest = Unit
  FailsAt (err x) [] = ⊥
  FailsAt (err x) (e ∷ rest) =
      (v : W) × (v' : W) × (process_stream_event self signals hs_id user_id deadline e v
        ≡ (err x, v'))

  abbrev Stopped :
      Option ℕ → List HsStreamEvent → Progress self signals hs_id user_id deadline → Type 0
  Stopped latest events p =
      (rest : List HsStreamEvent) × Reaches rest p.0.0 latest events × FailsAt p.0.1 rest

  -- What a run leaves: the events processed, and those that the returned cursor asks for again.
  abbrev pub Resumes :
      ℕ → List HsStreamEvent → Progress self signals hs_id user_id deadline → Type 0
  Resumes persisted events p =
      (done : List HsStreamEvent) × (events ≡ done ++ after (cursor_or persisted p.0.0) events)
      × All IsProcessed done
      × FailsAt p.0.1 (after (cursor_or persisted p.0.0) events)

  -- A batch whose cursors do not rise from the stored one is rejected as a whole, unless a
  -- shutdown was asked for before: no event is processed, nothing but the shutdown flag is read,
  -- no cursor is returned to store, and the error names the cursor of the first event that is not
  -- above its floor, and that floor: the cursor of the event before it or, for the first event, the
  -- stored one.
  pub process_user_events-rejects :
      (persisted : ℕ) (events : List HsStreamEvent) (w : W)
      → ((signals.is_shutdown w).0 ≡ false)
      → ¬ IsRising persisted events
      → (pre : List HsStreamEvent) × (e : HsStreamEvent) × (post : List HsStreamEvent) × (events
          ≡ pre ++ (e ∷ post))
        × IsRising persisted pre
        × (e.cursor ≤ floor_after persisted pre)
        × (process_user_events self signals hs_id user_id deadline persisted events w ≡ (
          (
            none,
            err (
                EventProcessorError.event_cursor_out_of_order hs_id user_id e.cursor
                  (floor_after persisted pre)),
          ),
          (signals.is_shutdown w).1,
        ))
  unfolding process_user_events
  process_user_events-rejects persisted events w q h =
      let (pre, e, post, c, rising, k, r) = first_out_of_order-found persisted events h in
      (pre, e, post, c, rising, k, rw (q, r) refl)
