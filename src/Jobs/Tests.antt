-- ===== src/Jobs/Tests.antt =====
-- The jobs on small inputs.
use pubky_nexus.Base.{
  ℕ, zero, suc, String, Bool, true, false, Option, none, some, List, [], ◌∷◌, Result, ◌+◌, ◌≡◌, ◌<◌,
  ◌⊎◌, refl, arith, inl, inr, string_eq, if◌then◌else◌, ltb,
}
use pubky_nexus.Base.HashMap
use pubky_nexus.Jobs.Lock.{
  Reply, replied, RunLock, held_by, Unmoved, Claimed, Freed, acquire, acquired,
}
use pubky_nexus.Jobs.Fire.{
  Ran, finished, Completed, completed, skipped, in_progress, run_locked, run_acquired,
  run_once_locked,
}
use pubky_nexus.Jobs.Fire.Guarded.{KeptBy, run_locked-Starts}
use pubky_nexus.Jobs.Scheduler.{Daemon, shut_down, anchor, sleep_until, run_job}
use pubky_nexus.Jobs.Scheduler.Rising.{Rises, run_job-Rises}

-- A tick every hundred milliseconds; the clock is set back by 250 after the second fire.
abbrev next_hundred : ℕ → ℕ → ℕ → Option ℕ
next_hundred zero tick instant = none
next_hundred (suc n) tick instant =
    let rest = next_hundred n (tick + 100) instant in if ltb instant tick then some tick else rest

abbrev clock : List ℕ → ℕ → ℕ
clock [] n = 410
clock (now ∷ readings) zero = now
clock (now ∷ readings) (suc n) = clock readings n

abbrev readings : List ℕ
readings = 120 ∷ 120 ∷ 220 ∷ 270 ∷ 310 ∷ 60 ∷ []

abbrev daemon : Daemon ℕ
daemon = record {
  after = next_hundred 8 100;
  now = λ w. (clock readings w, w + 1);
  is_shutdown = λ w. (ltb 6 w, w);
  sleep = λ ms w. (false, w);
  max_sleep = 30000;
  fire = λ w. (completed Completed.ok, w);
}

next_later : (n tick instant t : ℕ) → next_hundred n tick instant ≡ some t → instant < t
next_later zero tick instant t h = absurd (ground arith)
next_later (suc n) tick instant t h = ground (arith, next_later n (tick + 100) instant t)

run_job-Rises_example : Rises daemon none 0 (run_job daemon 5 none 0).0.0
run_job-Rises_example = run_job-Rises daemon (next_later 8 100) 5 none 0

fires_once : (run_job daemon 5 none 0).0 ≡ (
  record { tick = 200; read_at = 220 }
      ∷ record { tick = 300; read_at = 310 }
      ∷ record { tick = 400; read_at = 410 }
      ∷ [],
  shut_down,
)
unfolding run_job sleep_until anchor
fires_once = refl

-- The slots as a map from jobs to tokens, which always answers.
abbrev Slots : Type 0
Slots = List (String × String)

abbrev claim : String → String → Option String → Slots → Reply String Bool × Slots
claim job token none w = (replied true, HashMap.insert job token w)
claim job token (some other) w = (replied false, w)

abbrev free : String → String → Slots → Slots
free job token w = if held_by token (HashMap.get job w) then HashMap.remove job w else w

claim-Claimed :
    (job token : String) (o : Option String) (w : Slots)
    → HashMap.get job w ≡ o
    → (claim job token o w).0 ≡ replied true
    → Claimed HashMap.get job token w (claim job token o w).1
claim-Claimed job token none w h r = (h, λ j. HashMap.get-insert job j token w)
claim-Claimed job token (some other) w h r = absurd (ground arith)

claim-Unmoved :
    (job token : String) (o : Option String) (w : Slots)
    → (claim job token o w).0 ≡ replied false
    → Unmoved HashMap.get w (claim job token o w).1
claim-Unmoved job token none w r = absurd (ground arith)
claim-Unmoved job token (some other) w r = λ j. refl

claim-acts :
    (job token : String) (o : Option String) (w : Slots)
    → HashMap.get job w ≡ o
    → Unmoved HashMap.get w (claim job token o w).1
      ⊎ Claimed HashMap.get job token w (claim job token o w).1
claim-acts job token none w h = inr (claim-Claimed job token none w h refl)
claim-acts job token (some other) w h = inl (λ j. refl)

free-Freed : (job token : String) (w : Slots) → Freed HashMap.get job token w (free job token w)
free-Freed job token w j = ground (arith, HashMap.get-remove job j w)

abbrev slots : RunLock Slots String
slots = record {
  holder = HashMap.get;
  new_token = λ w. ("mine", w);
  acquire = λ job token w. claim job token (HashMap.get job w) w;
  unlock = λ job token w. (replied tt, free job token w);
  new_token_acts = λ w j. refl;
  acquire_acts = λ job token w. claim-acts job token (HashMap.get job w) w refl;
  acquire_true = λ job token w h. claim-Claimed job token (HashMap.get job w) w refl h;
  acquire_false = λ job token w h. claim-Unmoved job token (HashMap.get job w) w h;
  unlock_acts = λ job token w. inr (free-Freed job token w);
  unlock_ok = λ job token w h. free-Freed job token w;
}

abbrev race : Slots → Option (Ran String) × Slots
race w = (some (finished (Result.err "failed")), w)

abbrev race_once : Slots → Ran String × Slots
race_once w = (finished (Result.ok tt), w)

abbrev busy : Slots
busy = ("other", "theirs") ∷ []

-- Another job's slot.
abbrev TheirsHeld : Slots → Type 0
TheirsHeld w = HashMap.get "other" w ≡ some "theirs"

claim_theirs :
    (o : Option String) (w : Slots) → TheirsHeld w → TheirsHeld (claim "cleanup" "mine" o w).1
claim_theirs none w h = ground (arith, HashMap.get-insert "cleanup" "other" "mine" w)
claim_theirs (some other) w h = h

theirs_kept : KeptBy slots "cleanup" "mine" TheirsHeld
theirs_kept = (
  λ w h. claim_theirs (HashMap.get "cleanup" w) w h,
  λ w h. ground (arith, free-Freed "cleanup" "mine" w "other"),
)

run_locked-Starts_example :
    TheirsHeld (run_locked slots "cleanup" (λ w. (false, w)) race busy).1
    × TheirsHeld (run_once_locked slots "cleanup" race_once busy).1
unfolding HashMap.get
run_locked-Starts_example =
    run_locked-Starts slots "cleanup" (λ w. (false, w)) race race_once TheirsHeld busy refl refl
      refl theirs_kept theirs_kept (λ w h p. p) (λ w h p. p)

held_elsewhere : run_locked slots "other" (λ w. (false, w)) race busy ≡ (skipped in_progress, busy)
unfolding run_locked run_acquired acquire acquired HashMap.get
held_elsewhere = refl
