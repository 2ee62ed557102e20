-- ===== src/Jobs/Fire.antt =====
-- One fire of a job: `run_locked` of nexusd/src/jobs/scheduler.rs, and `run_once_locked` of
-- nexusd/src/jobs/runner.rs for a run on demand.
use pubky_nexus.Base.{ℕ, String, Bool, true, false, Option, none, some, Result}
use pubky_nexus.Jobs.Lock.{RunLock, LockGuard, Acquired, taken, held, acquire, release, drop_guard}
pub mod Guarded

-- How a job's run ends, raced against the deadline; a panic unwinds the fire, and comes with whether
-- the runtime still runs the task that the drop of the guard spawns.
pub data Ran (Error : Type 0) : Type 0 where
  finished : Result (Unit {0}) Error → Ran Error
  timed_out : Ran Error
  panicked : Bool → Ran Error

-- The labels of `jobs.run.completed` and of `jobs.run.skipped`.
pub data Completed : Type 0 where
  ok error abandoned timed_out : Completed

pub data Skipped : Type 0 where
  in_progress lock_error acquire_timed_out shutdown_before_acquire : Skipped

-- What is counted of a fire.
pub data Fate : Type 0 where
  completed : Completed → Fate
  skipped : Skipped → Fate
  unwound : Fate

-- `JobError`, as far as a run on demand has it.
pub data JobError (LockError Error : Type 0) : Type 0 where
  already_running : String → JobError LockError Error
  lock : LockError → JobError LockError Error
  lock_timed_out : String → JobError LockError Error
  run : String → Error → JobError LockError Error
  timed_out : String → ℕ → JobError LockError Error

-- `MAX_RUN` in seconds.
abbrev pub max_run : ℕ
max_run = 3600

module _ {W LockError Error : Type 0} (lock : RunLock W LockError) (name : String) where
  -- The job's phase and the release, where no result means that the shutdown came first. A panic
  -- drops the guard.
  unfoldable pub run_taken : LockGuard → Option (Ran Error) × W → Fate × W
  run_taken guard (none, w) = (completed Completed.abandoned, (release lock guard w).1)
  run_taken guard (some (finished (Result.ok _)), w) =
      (completed Completed.ok, (release lock guard w).1)
  run_taken guard (some (finished (Result.err e)), w) =
      (completed Completed.error, (release lock guard w).1)
  run_taken guard (some Ran.timed_out, w) =
      (completed Completed.timed_out, (release lock guard w).1)
  run_taken guard (some (panicked polled), w) = (unwound, drop_guard lock guard polled w)

  -- The `match` of `run_locked` on what `acquire` gave.
  unfoldable pub run_acquired : (W → Option (Ran Error) × W) → Acquired LockError × W → Fate × W
  unfolding run_taken
  run_acquired race (taken guard, w) = run_taken guard (race w)
  run_acquired race (held, w) = (skipped in_progress, w)
  run_acquired race (Acquired.failed e released, w) = (skipped lock_error, w)
  run_acquired race (Acquired.timed_out released, w) = (skipped acquire_timed_out, w)

  -- `Scheduler::run_locked`: the shutdown flag is read first, and `race` is the job's run against
  -- the shutdown signal and the deadline.
  unfoldable pub run_locked : (W → Bool × W) → (W → Option (Ran Error) × W) → W → Fate × W
  unfolding run_acquired
  run_locked shutdown race w = elim (shutdown w).0 [
    | true ↦ (skipped shutdown_before_acquire, (shutdown w).1)
    | false ↦ run_acquired race (acquire lock name (shutdown w).1)
  ]

  -- What a run on demand answers after the job's phase; none when a panic unwinds it.
  unfoldable pub once_taken :
      LockGuard → Ran Error × W → Option (Result (Unit {0}) (JobError LockError Error)) × W
  once_taken guard (finished (Result.ok _), w) = (some (Result.ok tt), (release lock guard w).1)
  once_taken guard (finished (Result.err source), w) =
      (some (Result.err (run name source)), (release lock guard w).1)
  once_taken guard (Ran.timed_out, w) =
      (some (Result.err (JobError.timed_out name max_run)), (release lock guard w).1)
  once_taken guard (panicked polled, w) = (none, drop_guard lock guard polled w)

  -- The `match` of `run_once_locked` on what `acquire` gave.
  unfoldable pub once_acquired :
      (W → Ran Error × W)
      → Acquired LockError × W
      → Option (Result (Unit {0}) (JobError LockError Error)) × W
  unfolding once_taken
  once_acquired race (taken guard, w) = once_taken guard (race w)
  once_acquired race (held, w) = (some (Result.err (already_running name)), w)
  once_acquired race (Acquired.failed e released, w) = (some (Result.err (JobError.lock e)), w)
  once_acquired race (Acquired.timed_out released, w) = (some (Result.err (lock_timed_out name)), w)

  -- `run_once_locked`
  unfoldable pub run_once_locked :
      (W → Ran Error × W) → W → Option (Result (Unit {0}) (JobError LockError Error)) × W
  unfolding once_acquired
  run_once_locked race w = once_acquired race (acquire lock name w)
