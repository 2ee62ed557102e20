-- ===== src/Jobs/Scheduler/Rising.antt =====
-- No tick of a schedule fires twice, or early.
use pubky_nexus.Base.{
  ℕ, zero, suc, Option, none, some, List, [], ◌∷◌, ◌-◌, min, ◌≡◌, ◌≤◌, ◌<◌, ◌⊎◌, refl, arith, ap,
  sym, subst, ltb, nat_beq, Bool-cases, Option-cases, inl, inr,
}
use pubky_nexus.Jobs.Scheduler.{Daemon, Fired, anchor, sleep_until, run_job}

module _ {W : Type 0} (self : Daemon W) where
  sleep_until-reached :
      (fuel deadline : ℕ) (w : W) (read_at : ℕ)
      → (sleep_until self fuel deadline w).0 ≡ some (some read_at)
      → (v : W) × (deadline ≤ read_at)
        × (self.now v ≡ (read_at, (sleep_until self fuel deadline w).1))
  unfolding sleep_until
  sleep_until-reached zero deadline w read_at h = absurd (ground arith)
  sleep_until-reached (suc fuel) deadline w read_at h =
      let (now, w1) = self.now w in
      let (shut, w2) = self.sleep (min (deadline - now) self.max_sleep) w1 in
      elim (Bool-cases (nat_beq (deadline - now) 0)) [
        | inl q ↦
            let same : now ≡ read_at = ground arith in
            rw q (w, ground arith, ap (λ n. (n, w1)) same)
        | inr q ↦ elim (Bool-cases shut) [
          | inl p ↦ absurd (ground arith)
          | inr p ↦ rw (q, p) (sleep_until-reached fuel deadline w2 read_at (ground arith))
        ]
      ]

  abbrev pub Before : Option ℕ → ℕ → Type 0
  Before none tick = Unit
  Before (some last) tick = last < tick

  -- The later of the last tick, if there is one, and an instant.
  abbrev pub IsLater : Option ℕ → ℕ → ℕ → Type 0
  IsLater none now a = a ≡ now
  IsLater (some last) now a = (now ≤ a) × (last ≤ a) × ((a ≡ now) ⊎ (a ≡ last))

  anchor-IsLater : (last : Option ℕ) (now : ℕ) → IsLater last now (anchor last now)
  unfolding anchor
  anchor-IsLater none now = refl
  anchor-IsLater (some last) now = elim (Bool-cases (ltb last now)) [
    | inl q ↦ rw q (omega arith, ground arith, inl refl)
    | inr q ↦ rw q (ground arith, omega arith, inr refl)
  ]

  IsLater-bounds :
      (last : Option ℕ) (now a tick : ℕ)
      → IsLater last now a
      → a < tick
      → Before last tick × (now < tick)
  IsLater-bounds none now a tick e h = (tt, ground arith)
  IsLater-bounds (some last) now a tick (l, k, e) h = (omega (arith, k, h), omega (arith, l, h))

  -- Fires of a loop that begins in the world `w` after the tick `last`. The clock is read after the
  -- shutdown flag. The tick is the schedule's next after the later of that reading and the tick
  -- before, it is ahead of both, and it is fired right after a reading that is not before it.
  abbrev pub Rises : Option ℕ → W → List Fired → Type 0
  Rises last w [] = Unit
  Rises last w (f ∷ fires) =
      let now = (self.now (self.is_shutdown w).1).0 in
      Before last f.tick
      × (now < f.tick)
      × ((a : ℕ) × IsLater last now a × (self.after a ≡ some f.tick))
      × ((v : W) × (f.tick ≤ f.read_at)
          × ((self.now v).0 ≡ f.read_at)
          × Rises (some f.tick) (self.fire (self.now v).1).1 fires)

  -- No tick fires twice, whatever the clock does. When the schedule's next time after an instant is
  -- later than it, the ticks at which a job is fired rise strictly, also when the clock is set
  -- back. Each is the schedule's next after the later of the tick before it and the clock as it is
  -- read after the fire before, so a tick that this reading has passed is skipped; and none is
  -- fired before the clock reads it.
  pub run_job-Rises :
      ((instant tick : ℕ) → self.after instant ≡ some tick → instant < tick)
      → (fuel : ℕ) (last : Option ℕ) (w : W) → Rises last w (run_job self fuel last w).0.0
  unfolding run_job
  run_job-Rises later zero last w = tt
  run_job-Rises later (suc fuel) last w = elim (Bool-cases (self.is_shutdown w).0) [
    | inl q ↦ rw (run_job, q) tt
    | inr q ↦
        let w1 = (self.is_shutdown w).1 in
        let (now, w2) = self.now w1 in
        elim (Option-cases (self.after (anchor last now))) [
          | inl p ↦ rw (run_job, q, p) tt
          | inr (tick, p) ↦ elim (Option-cases (sleep_until self (suc fuel) tick w2).0) [
            | inl r ↦ rw (run_job, q, p, r) tt
            | inr (none, r) ↦ rw (run_job, q, p, r) tt
            | inr (some read_at, r) ↦
                let a = anchor last now in
                let upper = anchor-IsLater last now in
                let (before, ahead) = IsLater-bounds last now a tick upper (later a tick p) in
                let (v, reached, e) = sleep_until-reached (suc fuel) tick w2 read_at r in
                let w3 = (sleep_until self (suc fuel) tick w2).1 in
                let fires = (run_job self fuel (some tick) (self.fire w3).1).0.0 in
                rw (run_job, q, p, r)
                  (
                    before,
                    ahead,
                    (a, upper, p),
                    (
                      v,
                      reached,
                      ap (λ x. x.0) e,
                      subst (λ x. Rises (some tick) (self.fire x).1 fires) (sym (ap (λ x. x.1) e))
                          (run_job-Rises later fuel (some tick) (self.fire w3).1),
                    ),
                  )
          ]
        ]
  ]
