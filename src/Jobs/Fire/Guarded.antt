-- ===== src/Jobs/Fire/Guarded.antt =====
-- A job runs only while its slot is held, and a slot that may have been taken is given back.
use pubky_nexus.Base.{
  String, Bool, true, false, Option, none, some, Result, ◌≡◌, ◌⊎◌, inl, inr, refl, arith,
  Bool-cases, string_eq,
}
use pubky_nexus.Jobs.Lock.{
  Reply, replied, elapsed, RunLock, armed, acquire, acquired, release, release_as, drop_guard,
}
use pubky_nexus.Jobs.Fire.{
  Ran, finished, panicked, run_taken, run_acquired, run_locked, once_taken, once_acquired,
  run_once_locked,
}

module _ {W LockError : Type 0} (lock : RunLock W LockError) (name : String) where
  open lock use {holder, new_token}

  -- What an acquire and a release of the slot by the token keep.
  abbrev pub KeptBy {ℓ} : String → (W → Type ℓ) → Type ℓ
  KeptBy token P =
      ((w : W) → P w → P (lock.acquire name token w).1)
      × ((w : W) → P w → P (lock.unlock name token w).1)

  -- What a job's run keeps when its slot is held by the token.
  abbrev pub Starts {ℓ} : {R : Type 0} → String → (W → Type ℓ) → (W → R × W) → Type ℓ
  Starts token P race = (w : W) → holder name w ≡ some token → P w → P (race w).1

  -- The last step, after the acquire with the answer `r` or after the run that followed it, gave
  -- the slot back if the token had it.
  abbrev pub GivesBack : {R : Type 0} → (W → R × W) → String → Reply LockError Bool × W → W → Type 0
  GivesBack race token r w' =
      (v : W) × ((v ≡ r.1) ⊎ ((r.0 ≡ replied true) × (v ≡ (race r.1).1)))
      × (w' ≡ (lock.unlock name token v).1)

  -- The run panicked, and the runtime ended before the task that is to give the slot back.
  abbrev pub Orphans : {R : Type 0} → (W → R × W) → R → Reply LockError Bool × W → W → Type 0
  Orphans race unpolled r w' =
      (r.0 ≡ replied true) × ((race r.1).0 ≡ unpolled) × (w' ≡ (race r.1).1)

  acquire-held :
      (token : String) (w : W)
      → (lock.acquire name token w).0 ≡ replied true
      → holder name (lock.acquire name token w).1 ≡ some token
  acquire-held token w h =
      ground (arith, (lock.acquire_true name token w h).1 name, string_eq.same_iff name name)

module _ {W LockError Error : Type 0} (lock : RunLock W LockError) (name : String) where
  module _ {ℓ} (token : String) (P : W → Type ℓ) (kept : KeptBy lock name token P) where
    run_taken-keeps :
        (p : Option (Ran Error) × W) → P p.1 → P (run_taken lock name (armed name token) p).1
    unfolding run_taken release release_as drop_guard
    run_taken-keeps (none, w) h = kept.1 w h
    run_taken-keeps (some (finished (Result.ok u)), w) h = kept.1 w h
    run_taken-keeps (some (finished (Result.err e)), w) h = kept.1 w h
    run_taken-keeps (some Ran.timed_out, w) h = kept.1 w h
    run_taken-keeps (some (panicked true), w) h = kept.1 w h
    run_taken-keeps (some (panicked false), w) h = h

    once_taken-keeps : (p : Ran Error × W) → P p.1 → P (once_taken lock name (armed name token) p).1
    unfolding once_taken release release_as drop_guard
    once_taken-keeps (finished (Result.ok u), w) h = kept.1 w h
    once_taken-keeps (finished (Result.err e), w) h = kept.1 w h
    once_taken-keeps (Ran.timed_out, w) h = kept.1 w h
    once_taken-keeps (panicked true, w) h = kept.1 w h
    once_taken-keeps (panicked false, w) h = h

    run_acquired-keeps :
        (race : W → Option (Ran Error) × W) (r : Reply LockError Bool × W)
        → Starts lock name token P race
        → (r.0 ≡ replied true → lock.holder name r.1 ≡ some token)
        → P r.1
        → P (run_acquired lock name race (acquired lock (armed name token) r)).1
    unfolding run_acquired acquired release_as
    run_acquired-keeps race (replied true, w) s h p = run_taken-keeps (race w) (s w (h refl) p)
    run_acquired-keeps race (replied false, w) s h p = p
    run_acquired-keeps race (Reply.failed e, w) s h p = kept.1 w p
    run_acquired-keeps race (elapsed, w) s h p = kept.1 w p

    once_acquired-keeps :
        (race : W → Ran Error × W) (r : Reply LockError Bool × W)
        → Starts lock name token P race
        → (r.0 ≡ replied true → lock.holder name r.1 ≡ some token)
        → P r.1
        → P (once_acquired lock name race (acquired lock (armed name token) r)).1
    unfolding once_acquired acquired release_as
    once_acquired-keeps race (replied true, w) s h p = once_taken-keeps (race w) (s w (h refl) p)
    once_acquired-keeps race (replied false, w) s h p = p
    once_acquired-keeps race (Reply.failed e, w) s h p = kept.1 w p
    once_acquired-keeps race (elapsed, w) s h p = kept.1 w p

  -- A job runs only while its slot is held by the token that its own fire made. Whatever is true
  -- of the world before a fire, scheduled or on demand, and is kept by reading the shutdown flag,
  -- by making the token, by acquiring and releasing the slot with it and by a run of the job that
  -- starts with the slot held by it, is true after the fire: so a run that starts without the
  -- slot never happens, on any branch, and neither does an access to another slot or by another
  -- token.
  pub run_locked-Starts {ℓ} :
      (shutdown : W → Bool × W) (race : W → Option (Ran Error) × W) (race_once : W → Ran Error × W)
      (P : W → Type ℓ) (w : W)
      → let w1 = (shutdown w).1 in
        let token = (lock.new_token w1).0 in
        let token_once = (lock.new_token w).0 in
        P w1
        → P (lock.new_token w1).1
        → P (lock.new_token w).1
        → KeptBy lock name token P
        → KeptBy lock name token_once P
        → Starts lock name token P race
        → Starts lock name token_once P race_once
        → P (run_locked lock name shutdown race w).1 × P (run_once_locked lock name race_once w).1
  unfolding run_locked run_once_locked acquire
  run_locked-Starts shutdown race race_once P w p1 p2 p3 k k_once s s_once =
      let w1 = (shutdown w).1 in
      let (token, w2) = lock.new_token w1 in
      let (token_once, v2) = lock.new_token w in
      (
        elim (Bool-cases (shutdown w).0) [
          | inl q ↦ rw (run_locked, q) p1
          | inr q ↦
              rw (run_locked, q)
                (run_acquired-keeps token P k race (lock.acquire name token w2) s
                  (acquire-held lock name token w2) (k.0 w2 p2))
        ],
        once_acquired-keeps token_once P k_once race_once (lock.acquire name token_once v2) s_once
            (acquire-held lock name token_once v2) (k_once.0 v2 p3),
      )
