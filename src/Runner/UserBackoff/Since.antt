-- ===== src/Runner/UserBackoff/Since.antt =====
-- The skips of a user against the 404s it answered in a row.
use pubky_nexus.Base.{
  ℕ, String, true, Option, none, some, List, [], ◌∷◌, min, ◌+◌, ◌-◌, ltb, if◌then◌else◌, ◌==◌,
  string_eq, ◌≡◌, refl, arith, Bool-cases, inl, inr,
}
use pubky_nexus.Base.HashMap
use pubky_nexus.Base.Word.{add_u32}
use pubky_nexus.Runner.UserBackoff.{
  max_failures, BackoffEntry, UserNotFoundBackoff, skip_entry, consume_skip, or_default,
  record_failure, record_success,
}

-- What happens to a user: a run asks whether to skip it, or its fetch answers.
pub data Call : Type 0 where
  asked failed fetched : String → Call

abbrev pub run_call : Call → UserNotFoundBackoff → UserNotFoundBackoff
run_call (asked u) map = (consume_skip u map).1
run_call (failed u) map = record_failure u map
run_call (fetched u) map = record_success u map

abbrev pub replay : UserNotFoundBackoff → List Call → UserNotFoundBackoff
replay map [] = map
replay map (c ∷ calls) = replay (run_call c map) calls

-- The 404s of a user since its last successful fetch, and how often it was asked for since the
-- last of them.
pub record Since : Type 0 where
  pub failures : ℕ
  pub asks : ℕ

abbrev pub since_step : String → Since → Call → Since
since_step u s (asked v) = if v == u then record s { asks = s.asks + 1 } else s
since_step u s (failed v) = if v == u then record { failures = s.failures + 1; asks = 0 } else s
since_step u s (fetched v) = if v == u then record { failures = 0; asks = 0 } else s

abbrev pub since : String → Since → List Call → Since
since u s [] = s
since u s (c ∷ calls) = since u (since_step u s c) calls

abbrev Shown : Since → Option BackoffEntry → Type 0
Shown s none = s.failures ≡ 0
Shown s (some entry) =
    (entry.consecutive_failures ≡ min s.failures 10)
    × (entry.skips_remaining ≡ min s.failures 10 - s.asks)

abbrev Shows : UserNotFoundBackoff → (String → Since) → Type 0
Shows map s = (u : String) → Shown (s u) (HashMap.get u map)

same_user :
    (v u : String) (map : UserNotFoundBackoff) (o : Option BackoffEntry)
    → v == u ≡ true
    → HashMap.get v map ≡ o
    → HashMap.get u map ≡ o
same_user v u map o q h = ground (arith, string_eq.same_iff v u)

asked-Shows :
    (v : String) (map : UserNotFoundBackoff) (o : Option BackoffEntry) (s : String → Since)
    → HashMap.get v map ≡ o
    → Shows map s
    → Shows (skip_entry v map o).1 (λ u. since_step u (s u) (asked v))
unfolding skip_entry
asked-Shows v map none s h i u = elim (Bool-cases (v == u)) [
  | inl q ↦
      let h' = same_user v u map none q h in
      let i' : Shown (s u) none = rw h' at (i u) in rw (q, h') i'
  | inr q ↦ rw q (i u)
]
asked-Shows v map (some entry) s h i u = elim (Bool-cases (v == u)) [
  | inl q ↦
      let h' = same_user v u map (some entry) q h in
      let i' : Shown (s u) (some entry) = rw h' at (i u) in
      elim (Bool-cases (ltb 0 entry.skips_remaining)) [
        | inl e ↦ rw (q, e, HashMap.get-insert, q) (i'.0, ground arith)
        | inr e ↦ rw (q, e, h') (i'.0, ground arith)
      ]
  | inr q ↦ elim (Bool-cases (ltb 0 entry.skips_remaining)) [
    | inl e ↦ rw (q, e, HashMap.get-insert, q) (i u)
    | inr e ↦ rw (q, e) (i u)
  ]
]

failed-Shown :
    (o : Option BackoffEntry) (s : Since)
    → Shown s o
    → min (add_u32 (or_default o).consecutive_failures 1) max_failures ≡ min (s.failures + 1) 10
unfolding or_default
failed-Shown none s h = ground arith
failed-Shown (some entry) s h = ground arith

run_call-Shows :
    (c : Call) (map : UserNotFoundBackoff) (s : String → Since)
    → Shows map s
    → Shows (run_call c map) (λ u. since_step u (s u) c)
unfolding consume_skip record_failure record_success
run_call-Shows (asked v) map s i = λ u. asked-Shows v map (HashMap.get v map) s refl i u
run_call-Shows (failed v) map s i = λ u. elim (Bool-cases (v == u)) [
  | inl q ↦
      let e = failed-Shown (HashMap.get u map) (s u) (i u) in
      rw (q, HashMap.get-insert, q, ← same_user v u map _ q refl) (e, omega (arith, e))
  | inr q ↦ rw (q, HashMap.get-insert, q) (i u)
]
run_call-Shows (fetched v) map s i = λ u. elim (Bool-cases (v == u)) [
  | inl q ↦ rw (q, HashMap.get-remove, q) refl
  | inr q ↦ rw (q, HashMap.get-remove, q) (i u)
]

replay-Shows :
    (map : UserNotFoundBackoff) (s : String → Since) (calls : List Call)
    → Shows map s
    → Shows (replay map calls) (λ u. since u (s u) calls)
replay-Shows map s [] i = i
replay-Shows map s (c ∷ calls) i =
    replay-Shows (run_call c map) (λ u. since_step u (s u) c) calls (run_call-Shows c map s i)

skip_entry-Shown :
    (u : String) (map : UserNotFoundBackoff) (o : Option BackoffEntry) (s : Since)
    → Shown s o
    → (skip_entry u map o).0 ≡ ltb s.asks (min s.failures 10)
unfolding skip_entry
skip_entry-Shown u map none s h = ground arith
skip_entry-Shown u map (some entry) s h = ground arith

abbrev pub unseen : Since
unseen = record { failures = 0; asks = 0 }

-- After any calls for any users, a user is skipped exactly as long as it was asked for fewer times
-- since its last 404 than it answered with a 404 since its last successful fetch, ten at most: the
-- n-th 404 in a row costs it the next n runs, the tenth and later ones ten, and the run after
-- these asks it again. The calls for other users do not matter.
pub consume_skip-replay :
    (calls : List Call) (u : String)
    → let s = since u unseen calls in
      (consume_skip u (replay [] calls)).0 ≡ ltb s.asks (min s.failures 10)
unfolding consume_skip HashMap.get
consume_skip-replay calls u =
    skip_entry-Shown u (replay [] calls) (HashMap.get u (replay [] calls)) (since u unseen calls)
      (replay-Shows [] (λ _. unseen) calls (λ _. refl) u)
