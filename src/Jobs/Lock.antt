-- ===== src/Jobs/Lock.antt =====
-- The run lock of nexusd/src/jobs/lock.rs: the trait `RunLock` with what it promises, the guard and
-- `acquire`. Metrics and log lines are left out.
use pubky_nexus.Base.{
  String, Bool, true, false, Option, none, some, ◌≡◌, ◌⊎◌, ◌==◌, ◌&&◌, string_eq, if◌then◌else◌,
}

-- How a call of the backend under `timeout(LOCK_IO_TIMEOUT, ..)` ends.
pub data Reply (LockError A : Type 0) : Type 0 where
  replied : A → Reply LockError A
  failed : LockError → Reply LockError A
  elapsed : Reply LockError A

-- Whether a slot is held by a token.
abbrev pub held_by : String → Option String → Bool
held_by token none = false
held_by token (some other) = other == token

module _ {W : Type 0} (holder : String → W → Option String) where
  abbrev pub Unmoved : W → W → Type 0
  Unmoved w w' = (j : String) → holder j w' ≡ holder j w

  -- The slot of the job was free and is the token's.
  abbrev pub Claimed : String → String → W → W → Type 0
  Claimed job token w w' =
      (holder job w ≡ none)
      × ((j : String) → holder j w' ≡ (if job == j then some token else holder j w))

  -- The slot of the job is free if the token had it.
  abbrev pub Freed : String → String → W → W → Type 0
  Freed job token w w' =
      (j : String)
      → holder j w' ≡ (if job == j && held_by token (holder job w) then none else holder j w)

-- `RunLock`. A call that fails or takes too long may have acted or not.
pub record RunLock (W LockError : Type 0) : Type 0 where
  pub holder : String → W → Option String
  pub new_token : W → String × W
  pub acquire : String → String → W → Reply LockError Bool × W
  pub unlock : String → String → W → Reply LockError (Unit {0}) × W
  pub new_token_acts : (w : W) → Unmoved holder w (new_token w).1
  pub acquire_acts :
      (job token : String) (w : W)
      → Unmoved holder w (acquire job token w).1
        ⊎ Claimed holder job token w (acquire job token w).1
  pub acquire_true :
      (job token : String) (w : W)
      → (acquire job token w).0 ≡ replied true
      → Claimed holder job token w (acquire job token w).1
  pub acquire_false :
      (job token : String) (w : W)
      → (acquire job token w).0 ≡ replied false
      → Unmoved holder w (acquire job token w).1
  pub unlock_acts :
      (job token : String) (w : W)
      → Unmoved holder w (unlock job token w).1 ⊎ Freed holder job token w (unlock job token w).1
  pub unlock_ok :
      (job token : String) (w : W)
      → (unlock job token w).0 ≡ replied tt
      → Freed holder job token w (unlock job token w).1

-- `LockGuard`: armed while it has a token.
pub record LockGuard : Type 0 where
  pub job : String
  pub token : Option String

-- `LockGuard::new`
abbrev pub armed : String → String → LockGuard
armed job token = record { job = job; token = some token }

-- `ReleaseOutcome`
pub data ReleaseOutcome : Type 0 where
  released not_held failed timed_out : ReleaseOutcome

-- `Acquired`
pub data Acquired (LockError : Type 0) : Type 0 where
  taken : LockGuard → Acquired LockError
  held : Acquired LockError
  failed : LockError → Bool → Acquired LockError
  timed_out : Bool → Acquired LockError

-- `matches!(.., ReleaseOutcome::Released)`
abbrev pub is_released : ReleaseOutcome → Bool
is_released released = true
is_released not_held = false
is_released ReleaseOutcome.failed = false
is_released ReleaseOutcome.timed_out = false

abbrev pub release_outcome : {LockError : Type 0} → Reply LockError (Unit {0}) → ReleaseOutcome
release_outcome (replied _) = released
release_outcome (Reply.failed e) = ReleaseOutcome.failed
release_outcome elapsed = ReleaseOutcome.timed_out

module _ {W LockError : Type 0} (lock : RunLock W LockError) where
  -- `LockGuard::release_as`
  unfoldable pub release_as : LockGuard → W → ReleaseOutcome × W
  release_as self w = elim self.token [
    | none ↦ (not_held, w)
    | some token ↦
        (release_outcome (lock.unlock self.job token w).0, (lock.unlock self.job token w).1)
  ]

  -- `LockGuard::release`
  unfoldable pub release : LockGuard → W → ReleaseOutcome × W
  unfolding release_as
  release self w = release_as self w

  -- The `drop` of a guard, with whether the runtime outlives it so that the spawned task is polled.
  unfoldable pub drop_guard : LockGuard → Bool → W → W
  drop_guard self polled w = elim self.token [
    | none ↦ w
    | some token ↦ if polled then (lock.unlock self.job token w).1 else w
  ]

  -- The `match` of `acquire` on the reply.
  unfoldable pub acquired : LockGuard → Reply LockError Bool × W → Acquired LockError × W
  unfolding release_as
  acquired guard (replied true, w) = (taken guard, w)
  acquired guard (replied false, w) = (held, w)
  acquired guard (Reply.failed e, w) =
      let (outcome, w') = release_as guard w in (Acquired.failed e (is_released outcome), w')
  acquired guard (elapsed, w) =
      let (outcome, w') = release_as guard w in (Acquired.timed_out (is_released outcome), w')

  -- `acquire`
  unfoldable pub acquire : String → W → Acquired LockError × W
  unfolding acquired
  acquire job w =
      let (token, w') = lock.new_token w in acquired (armed job token) (lock.acquire job token w')
