-- ===== src/Runner/HsBackoff/Streak.antt =====
-- The backoff of a homeserver against its failures in a row.
use native.Mathlib.Nat.{pow-suc}
use pubky_nexus.Base.{
  ℕ, suc, String, Bool, false, Option, none, some, List, [], ◌∷◌, min, ◌+◌, ◌*◌, ◌^◌, ltb,
  if◌then◌else◌, ◌==◌, string_eq, ◌≡◌, ◌≤◌, ◌<◌, ap, refl, arith, Bool-cases, inl, inr,
}
use pubky_nexus.Base.HashMap
use pubky_nexus.Base.Word.{i64_min, mul_64}
use pubky_nexus.Runner.Stats.{ProcessorRunStatus, same_status}
use pubky_nexus.Runner.HsBackoff.{
  BackoffState, HomeserverBackoff, from_secs, new, should_skip, record_success, record_failure,
  entry_or, record_run_status,
}

-- A run of a homeserver, recorded with the instants read.
pub record Run : Type 0 where
  pub hs_id : String
  pub status : ProcessorRunStatus
  pub now : ℕ × ℕ

abbrev pub replay : HomeserverBackoff → List Run → HomeserverBackoff
replay self [] = self
replay self (r ∷ runs) = replay (record_run_status self r.now r.hs_id r.status) runs

-- Failures in a row: how many there are after the first, and when the last was.
abbrev pub Streak : Type 0
Streak = Option (ℕ × ℕ)

abbrev longer : ℕ → Streak → Streak
longer now none = some (0, now)
longer now (some (n, _)) = some (suc n, now)

abbrev pub streak_step : String → Streak → Run → Streak
streak_step hs_id acc r =
    if r.hs_id == hs_id
    then (if same_status r.status ProcessorRunStatus.ok then none else longer r.now.1 acc)
    else acc

abbrev pub streak : String → Streak → List Run → Streak
streak hs_id acc [] = acc
streak hs_id acc (r ∷ runs) = streak hs_id (streak_step hs_id acc r) runs

-- The wait after a streak: the initial one, doubled with each further failure, up to the cap.
abbrev pub wait : ℕ → ℕ → ℕ → ℕ
wait initial max n = min (initial * 2 ^ n) max

-- Whether a homeserver with such a streak is to be left alone at `now`.
abbrev pub backed_off : ℕ → ℕ → ℕ → Streak → Bool
backed_off initial max now none = false
backed_off initial max now (some (n, last)) = ltb now (last + from_secs (wait initial max n))

module _ (initial max : ℕ) where
  abbrev shown : Streak → Option BackoffState
  shown none = none
  shown (some (n, last)) = some (record {
    next_backoff_secs = wait initial max (suc n);
    backoff_until = last + from_secs (wait initial max n);
  })

  wait_first : initial ≤ max → wait initial max 0 ≡ initial
  wait_first h = omega arith

  -- The doubling of the code stays within 64 bits, and the cap commutes with it.
  wait_doubles :
      (n : ℕ) → max < i64_min → min (mul_64 (wait initial max n) 2) max ≡ wait initial max (suc n)
  wait_doubles n k = rw pow-suc (ground arith)

  -- The entry that `record_failure` writes.
  written : ℕ × ℕ → Option BackoffState → BackoffState
  unfolding entry_or
  written now o =
      let fresh : BackoffState = record { next_backoff_secs = initial; backoff_until = now.0 } in
      let entry = entry_or fresh o in
      record {
        next_backoff_secs = min (mul_64 entry.next_backoff_secs 2) max;
        backoff_until = now.1 + from_secs entry.next_backoff_secs;
      }

  written-shown :
      (now : ℕ × ℕ) (acc : Streak)
      → initial ≤ max
      → max < i64_min
      → some (written now (shown acc)) ≡ shown (longer now.1 acc)
  unfolding written
  written-shown now none h k = rw (← wait_doubles 0 k, wait_first h) refl
  written-shown now (some (n, last)) h k = rw (wait_doubles (suc n) k) refl

record_failure-get :
    (self : HomeserverBackoff) (now : ℕ × ℕ) (hs_id j : String)
    → HashMap.get j (record_failure self now hs_id).state ≡ (
        if hs_id == j
        then some (
            written self.initial_backoff_secs self.max_backoff_secs now
              (HashMap.get hs_id self.state))
        else HashMap.get j self.state)
unfolding record_failure written
record_failure-get self now hs_id j = HashMap.get-insert hs_id j _ self.state

module _ (initial max : ℕ) where
  -- The backoff shows the streak of each homeserver.
  abbrev Shows : HomeserverBackoff → (String → Streak) → Type 0
  Shows self s =
      (self.initial_backoff_secs ≡ initial)
      × (self.max_backoff_secs ≡ max)
      × ((hs_id : String) → HashMap.get hs_id self.state ≡ shown initial max (s hs_id))

  record_run_status-Shows :
      (self : HomeserverBackoff) (s : String → Streak) (r : Run)
      → initial ≤ max
      → max < i64_min
      → Shows self s
      → Shows (record_run_status self r.now r.hs_id r.status) (λ h. streak_step h (s h) r)
  unfolding record_run_status record_success record_failure written
  record_run_status-Shows self s r h k (p, q, g) =
      elim (Bool-cases (same_status r.status ProcessorRunStatus.ok)) [
        | inl e ↦ rw e (p, q, λ j. ground (arith, HashMap.get-remove r.hs_id j self.state, g j))
        | inr e ↦
            let get_failed : (j : String)
                → HashMap.get j (record_failure self r.now r.hs_id).state
                  ≡ shown initial max (if r.hs_id == j then longer r.now.1 (s j) else s j) =
              λ j.
                rw (record_failure-get self r.now r.hs_id j, p, q, g r.hs_id, g j)
                  (ground (
                    arith,
                    written-shown initial max r.now (s r.hs_id) h k,
                    string_eq.same_iff r.hs_id j,
                  )) in
            rw e (p, q, get_failed)
      ]

  replay-Shows :
      (self : HomeserverBackoff) (s : String → Streak) (runs : List Run)
      → initial ≤ max
      → max < i64_min
      → Shows self s
      → Shows (replay self runs) (λ h. streak h (s h) runs)
  replay-Shows self s [] h k i = i
  replay-Shows self s (r ∷ runs) h k i =
      replay-Shows (record_run_status self r.now r.hs_id r.status) (λ j. streak_step j (s j) r) runs
        h k (record_run_status-Shows self s r h k i)

new-Shows :
    (initial max : ℕ) (self : HomeserverBackoff)
    → new initial max ≡ some self
    → (initial ≤ max) × Shows initial max self (λ _. none)
unfolding new HashMap.get
new-Shows initial max self h = elim (Bool-cases (ltb max initial)) [
  | inl e ↦ absurd (ground arith)
  | inr e ↦
      let fresh : HomeserverBackoff = record {
        initial_backoff_secs = initial;
        max_backoff_secs = max;
        state = [];
      } in
      let q : self ≡ fresh = ground arith in
      (
        ground arith,
        (
          ap (λ x. x.initial_backoff_secs) q,
          ap (λ x. x.max_backoff_secs) q,
          λ j. ap (λ x. HashMap.get j x.state) q,
        ),
      )
]

should_skip-shown :
    (initial max : ℕ) (self : HomeserverBackoff) (acc : Streak) (now : ℕ) (hs_id : String)
    → HashMap.get hs_id self.state ≡ shown initial max acc
    → should_skip self now hs_id ≡ backed_off initial max now acc
unfolding should_skip
should_skip-shown initial max self none now hs_id h = rw (should_skip, h) refl
should_skip-shown initial max self (some p) now hs_id h = rw (should_skip, h) refl

-- The backoff does what its documentation says. From a new backoff on, and whatever runs of
-- whichever homeservers were recorded: a homeserver is skipped exactly while less time has passed
-- since its last failure than the initial wait, doubled with each further failure in a row, up to
-- the cap. A run that ended `Ok` ends the streak, every other status lengthens it, and the runs of
-- other homeservers do not matter. The cap must be below 2 ^ 63 seconds.
pub should_skip-replay :
    (initial max : ℕ) (self : HomeserverBackoff) (runs : List Run) (now : ℕ) (hs_id : String)
    → new initial max ≡ some self
    → max < i64_min
    → should_skip (replay self runs) now hs_id ≡ backed_off initial max now (streak hs_id none runs)
should_skip-replay initial max self runs now hs_id h k =
    let (le, shows) = new-Shows initial max self h in
    should_skip-shown initial max (replay self runs) (streak hs_id none runs) now hs_id
      ((replay-Shows initial max self (λ _. none) runs le k shows).2 hs_id)
