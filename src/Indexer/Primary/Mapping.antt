-- ===== src/Indexer/Primary/Mapping.antt =====
-- `HsMapping`, `user_hs_mapping` and `should_process_event` of
-- nexus-watcher/src/service/indexer/homeserver.rs.
use pubky_nexus.Base.{
  String, Bool, true, false, not, Option, none, some, List, [], ◌∷◌, Result, ok, err, Step,
  if◌then◌else◌, ◌==◌, string_eq, ◌≡◌, ◌↔◌, ◌⊎◌, inl, inr, refl, arith, ap, Bool-cases,
}
use pubky_nexus.Base.HashMap
use pubky_nexus.Errors.{EventProcessorError, GraphError, Messages, from_graph}
use pubky_nexus.Event.{Specs, Event}

-- `HsMapping`
pub data HsMapping : Type 0 where
  unbound : HsMapping
  current : Bool → HsMapping
  other : String → HsMapping

-- The row of a user's `HOSTED_BY` edge: the homeserver and the stale flag.
abbrev pub Row : Type 0
Row = Option (String × Bool)

-- The cache of the run, and the rest of the world.
abbrev pub Cached : Type 0 → Type 0
Cached V = List (String × HsMapping) × V

-- The `match` on the fetched row in `user_hs_mapping`.
unfoldable pub mapping_of : String → Row → HsMapping
mapping_of homeserver_id none = unbound
mapping_of homeserver_id (some (hs_id, stale)) =
    if hs_id == homeserver_id then current stale else other hs_id

-- The `match` of `should_process_event`.
unfoldable pub admits : HsMapping → Bool
admits unbound = true
admits (current stale) = not stale
admits (other hs_id) = false

unfoldable pub decide : Messages → Result HsMapping GraphError → Result Bool EventProcessorError
unfolding admits
decide text (err e) = err (from_graph text e)
decide text (ok mapping) = ok (admits mapping)

admits-mapping_of :
    (homeserver_id : String) (row : Row)
    → (admits (mapping_of homeserver_id row) ≡ true)
      ↔ ((row ≡ none) ⊎ (row ≡ some (homeserver_id, false)))
unfolding admits mapping_of
admits-mapping_of homeserver_id none = (λ h. inl refl, λ h. refl)
admits-mapping_of homeserver_id (some (hs_id, true)) = (
  λ h. absurd (ground arith),
  λ h. elim h [ inl q ↦ absurd (ground arith) | inr q ↦ absurd (ground arith) ],
)
admits-mapping_of homeserver_id (some (hs_id, false)) = (
  λ h. elim (Bool-cases (hs_id == homeserver_id)) [
    | inl q ↦ inr (ap (λ x. some (x, false)) ((string_eq.same_iff hs_id homeserver_id).0 q))
    | inr q ↦ absurd (ground arith)
  ],
  λ h. ground (arith, string_eq.same_iff hs_id homeserver_id),
)

module _ {V : Type 0} (homeserver_id : String) (fetch_row : String → Step V GraphError Row) where
  -- What follows the fetch in `user_hs_mapping`.
  remember :
      String
      → List (String × HsMapping)
      → Result Row GraphError × V
      → Result HsMapping GraphError × Cached V
  remember user_id cache (err e, v) = (err e, (cache, v))
  remember user_id cache (ok row, v) =
      let mapping = mapping_of homeserver_id row in
      (ok mapping, (HashMap.insert user_id mapping cache, v))

  lookup : String → Option HsMapping → Cached V → Result HsMapping GraphError × Cached V
  unfolding remember
  lookup user_id (some hs_mapping) s = (ok hs_mapping, s)
  lookup user_id none s = remember user_id s.0 (fetch_row user_id s.1)

  -- `user_hs_mapping`
  unfoldable pub user_hs_mapping : String → Step (Cached V) GraphError HsMapping
  unfolding lookup
  user_hs_mapping user_id s = lookup user_id (HashMap.get user_id s.0) s

  remember_keeps :
      (u user_id : String) (cache : List (String × HsMapping)) (f : Result Row GraphError × V)
      (m : HsMapping)
      → HashMap.get user_id cache ≡ none
      → HashMap.get u cache ≡ some m
      → HashMap.get u (remember user_id cache f).1.0 ≡ some m
  unfolding remember
  remember_keeps u user_id cache (err e, v) m p h = h
  remember_keeps u user_id cache (ok row, v) m p h = ground (
    arith,
    HashMap.get-insert user_id u (mapping_of homeserver_id row) cache,
    string_eq.same_iff user_id u,
  )

  lookup_keeps :
      (u user_id : String) (o : Option HsMapping) (s : Cached V) (m : HsMapping)
      → HashMap.get user_id s.0 ≡ o
      → HashMap.get u s.0 ≡ some m
      → HashMap.get u (lookup user_id o s).1.0 ≡ some m
  unfolding lookup
  lookup_keeps u user_id (some hs_mapping) s m p h = h
  lookup_keeps u user_id none s m p h = remember_keeps u user_id s.0 (fetch_row user_id s.1) m p h

  lookup_remembers :
      (u : String) (s : Cached V) (row : Row) (v' : V)
      → fetch_row u s.1 ≡ (ok row, v')
      → HashMap.get u (lookup u none s).1.0 ≡ some (mapping_of homeserver_id row)
  unfolding lookup remember
  lookup_remembers u s row v' f =
      rw (lookup, f, HashMap.get-insert) (ground (arith, string_eq.same_iff u u))

  first_asked :
      (u : String) (s : Cached V) (row : Row) (v' : V)
      → HashMap.get u s.0 ≡ none
      → fetch_row u s.1 ≡ (ok row, v')
      → ((user_hs_mapping u s).0 ≡ ok (mapping_of homeserver_id row))
        × (HashMap.get u (user_hs_mapping u s).1.0 ≡ some (mapping_of homeserver_id row))
  unfolding user_hs_mapping lookup remember
  first_asked u s row v' p f =
      rw (user_hs_mapping, p) (rw (lookup, f) refl, lookup_remembers u s row v' f)

module _ {specs : Specs} {V : Type 0} (text : Messages) (homeserver_id : String)
    (fetch_row : String → Step V GraphError Row) where
  -- `should_process_event`
  unfoldable pub should_process_event : Event specs → Step (Cached V) EventProcessorError Bool
  unfolding user_hs_mapping decide
  should_process_event event s =
      let (r, s') = user_hs_mapping homeserver_id fetch_row (specs.user_id event.parsed_uri) s in
      (decide text r, s')

  -- The state after other events were asked about.
  abbrev pub ask_all : List (Event specs) → Cached V → Cached V
  ask_all [] s = s
  ask_all (event ∷ events) s = ask_all events (should_process_event event s).1

  ask_all_keeps :
      (u : String) (events : List (Event specs)) (s : Cached V) (m : HsMapping)
      → HashMap.get u s.0 ≡ some m
      → HashMap.get u (ask_all events s).0 ≡ some m
  unfolding should_process_event
  ask_all_keeps u [] s m h = h
  ask_all_keeps u (event ∷ events) s m h =
      let user_id = specs.user_id event.parsed_uri in
      ask_all_keeps u events (should_process_event event s).1 m
        (lookup_keeps homeserver_id fetch_row u user_id (HashMap.get user_id s.0) s m refl h)

  known :
      (event : Event specs) (s : Cached V) (m : HsMapping)
      → HashMap.get (specs.user_id event.parsed_uri) s.0 ≡ some m
      → should_process_event event s ≡ (ok (admits m), s)
  unfolding should_process_event
  known event s m h = rw (should_process_event, h) refl

  -- Within a run the fate of a user's events is decided once. When the first event of a user is
  -- asked about and the graph answers, that event and every later event of the same user get one
  -- answer, whatever other events come between; the later ones change nothing and do not ask the
  -- graph; and the answer is to process exactly when the user has no homeserver yet or is bound to
  -- this one and not stale.
  pub should_process_event_once :
      (first later : Event specs) (between : List (Event specs)) (s : Cached V) (row : Row) (v' : V)
      → specs.user_id later.parsed_uri ≡ specs.user_id first.parsed_uri
      → HashMap.get (specs.user_id first.parsed_uri) s.0 ≡ none
      → fetch_row (specs.user_id first.parsed_uri) s.1 ≡ (ok row, v')
      → let s1 = (should_process_event first s).1 in
        let s2 = ask_all between s1 in
        (b : Bool) × ((should_process_event first s).0 ≡ ok b)
        × (should_process_event later s2 ≡ (ok b, s2))
        × ((b ≡ true) ↔ ((row ≡ none) ⊎ (row ≡ some (homeserver_id, false))))
  unfolding should_process_event
  should_process_event_once first later between s row v' same p f =
      let u = specs.user_id first.parsed_uri in
      let m = mapping_of homeserver_id row in
      let (answer, kept) = first_asked homeserver_id fetch_row u s row v' p f in
      let s1 = (should_process_event first s).1 in
      let still : HashMap.get (specs.user_id later.parsed_uri) (ask_all between s1).0 ≡ some m =
        rw same (ask_all_keeps u between s1 m kept) in
      (
        admits m,
        ap (decide text) answer,
        known later (ask_all between s1) m still,
        admits-mapping_of homeserver_id row,
      )
