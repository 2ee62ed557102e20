-- ===== src/Runner/HsBackoff.antt =====
-- nexus-watcher/src/service/runner/key_based_hs_backoff.rs, and `record_run_status` of
-- nexus-watcher/src/service/runner/key_based.rs. An instant counts nanoseconds, without an upper
-- end.
use pubky_nexus.Base.{
  ℕ, String, Bool, false, Option, none, some, List, [], min, ◌+◌, ◌*◌, ltb, if◌then◌else◌,
  string_eq,
}
use pubky_nexus.Base.HashMap
use pubky_nexus.Base.Word.{mul_64}
use pubky_nexus.Runner.Stats.{ProcessorRunStatus, same_status}
pub mod Streak

-- `Duration::from_secs`
abbrev pub from_secs : ℕ → ℕ
from_secs secs = secs * 1000000000

-- `BackoffState`
pub record BackoffState : Type 0 where
  pub next_backoff_secs : ℕ  -- u64
  pub backoff_until : ℕ

-- `HomeserverBackoff`
pub record HomeserverBackoff : Type 0 where
  pub initial_backoff_secs : ℕ  -- u64
  pub max_backoff_secs : ℕ  -- u64
  pub state : List (String × BackoffState)

-- `HomeserverBackoff::new`: none where it panics.
unfoldable pub new : ℕ → ℕ → Option HomeserverBackoff
new initial_backoff_secs max_backoff_secs =
    if ltb max_backoff_secs initial_backoff_secs
    then none
    else some (record {
      initial_backoff_secs = initial_backoff_secs;
      max_backoff_secs = max_backoff_secs;
      state = [];
    })

-- `HomeserverBackoff::should_skip`, at an instant.
unfoldable pub should_skip : HomeserverBackoff → ℕ → String → Bool
should_skip self now hs_id = elim (HashMap.get hs_id self.state) [
  | some bs ↦ ltb now bs.backoff_until
  | none ↦ false
]

-- `HomeserverBackoff::record_success`
unfoldable pub record_success : HomeserverBackoff → String → HomeserverBackoff
record_success self hs_id = record self { state = HashMap.remove hs_id self.state }

-- What `entry(..).or_insert(..)` finds.
unfoldable pub entry_or : BackoffState → Option BackoffState → BackoffState
entry_or fresh none = fresh
entry_or fresh (some bs) = bs

-- `HomeserverBackoff::record_failure`; the clock is read for a fresh entry, then for the window.
unfoldable pub record_failure : HomeserverBackoff → ℕ × ℕ → String → HomeserverBackoff
unfolding entry_or
record_failure self now hs_id =
    let fresh : BackoffState = record {
      next_backoff_secs = self.initial_backoff_secs;
      backoff_until = now.0;
    } in
    let entry = entry_or fresh (HashMap.get hs_id self.state) in
    let backoff_secs = entry.next_backoff_secs in
    let entry' : BackoffState = record {
      next_backoff_secs = min (mul_64 backoff_secs 2) self.max_backoff_secs;
      backoff_until = now.1 + from_secs backoff_secs;
    } in
    record self { state = HashMap.insert hs_id entry' self.state }

-- `record_run_status`
unfoldable pub record_run_status :
    HomeserverBackoff → ℕ × ℕ → String → ProcessorRunStatus → HomeserverBackoff
unfolding record_success record_failure
record_run_status backoff now hs_id status =
    if same_status status ProcessorRunStatus.ok
    then record_success backoff hs_id
    else record_failure backoff now hs_id
