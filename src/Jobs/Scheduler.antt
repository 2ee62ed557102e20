-- ===== src/Jobs/Scheduler.antt =====
-- The loop of a scheduled job: `run_job` and `sleep_until` of nexusd/src/jobs/scheduler.rs. An
-- instant counts milliseconds; the schedule of the cron library is the parameter `after`.
use pubky_nexus.Base.{
  ℕ, zero, suc, String, Bool, true, false, Option, none, some, List, [], ◌∷◌, ◌-◌, min, leb, ltb,
  if◌then◌else◌, nat_beq,
}
use pubky_nexus.Jobs.Fire.{Fate}
pub mod Rising

-- What the loop takes from outside: the schedule's next time after an instant, the wall clock, the
-- shutdown flag, a sleep that a shutdown may cut short, and a fire.
pub record Daemon (W : Type 0) : Type 0 where
  pub after : ℕ → Option ℕ
  pub now : W → ℕ × W
  pub is_shutdown : W → Bool × W
  pub sleep : ℕ → W → Bool × W
  pub max_sleep : ℕ
  pub fire : W → Fate × W

-- A fire: its time in the schedule, and the last reading of the clock before it.
pub record Fired : Type 0 where
  pub tick : ℕ
  pub read_at : ℕ

-- How far a job's loop got.
pub data Stopped : Type 0 where
  shut_down schedule_exhausted out_of_fuel : Stopped

-- `last_fired.map_or(now, |last| last.max(now))`
unfoldable pub anchor : Option ℕ → ℕ → ℕ
anchor none now = now
anchor (some last) now = if ltb last now then now else last

module _ {W : Type 0} (self : Daemon W) where
  -- `sleep_until`, for at most `fuel` sleeps: the reading of the clock at which the deadline was
  -- reached, or none after a shutdown.
  unfoldable pub sleep_until : ℕ → ℕ → W → Option (Option ℕ) × W
  sleep_until zero deadline w = (none, w)
  sleep_until (suc fuel) deadline w =
      let (now, w1) = self.now w in
      let (shut, w2) = self.sleep (min (deadline - now) self.max_sleep) w1 in
      let again = sleep_until fuel deadline w2 in
      if nat_beq (deadline - now) 0
      then (some (some now), w1)
      else if shut
      then (some none, w2)
      else again

  -- The loop of `run_job`, for at most `fuel` fires, of at most as many sleeps each.
  unfoldable pub run_job : ℕ → Option ℕ → W → (List Fired × Stopped) × W
  unfolding sleep_until anchor
  run_job zero last_fired w = (([], out_of_fuel), w)
  run_job (suc fuel) last_fired w =
      let (shut, w1) = self.is_shutdown w in
      let (now, w2) = self.now w1 in
      if shut then (([], shut_down), w1) else (elim (self.after (anchor last_fired now)) [
        | none ↦ (([], schedule_exhausted), w2)
        | some next ↦ elim (sleep_until (suc fuel) next w2).0 [
          | none ↦ (([], out_of_fuel), (sleep_until (suc fuel) next w2).1)
          | some none ↦ (([], shut_down), (sleep_until (suc fuel) next w2).1)
          | some (some read_at) ↦
              let w3 = (sleep_until (suc fuel) next w2).1 in
              let w4 = (self.fire w3).1 in
              let ((fires, stopped), w5) = run_job fuel (some next) w4 in
              ((record { tick = next; read_at = read_at } ∷ fires, stopped), w5)
        ]
      ])
