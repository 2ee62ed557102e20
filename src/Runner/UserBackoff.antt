-- ===== src/Runner/UserBackoff.antt =====
-- nexus-watcher/src/service/runner/key_based_user_backoff.rs. A public key is its text form.
use pubky_nexus.Base.{
  ℕ, String, Bool, true, false, Option, none, some, List, min, ◌-◌, ltb, if◌then◌else◌, string_eq,
}
use pubky_nexus.Base.HashMap
use pubky_nexus.Base.Word.{add_u32}
pub mod Since

-- `MAX_FAILURES`
abbrev pub max_failures : ℕ
max_failures = 10

-- `BackoffEntry`
pub record BackoffEntry : Type 0 where
  pub consecutive_failures : ℕ  -- u32
  pub skips_remaining : ℕ  -- u32

-- `UserNotFoundBackoff`
abbrev pub UserNotFoundBackoff : Type 0
UserNotFoundBackoff = List (String × BackoffEntry)

-- The `match` of `consume_skip`.
skip_entry : String → UserNotFoundBackoff → Option BackoffEntry → Bool × UserNotFoundBackoff
skip_entry user_pk map none = (false, map)
skip_entry user_pk map (some entry) =
    if ltb 0 entry.skips_remaining
    then (
      true,
      HashMap.insert user_pk (record entry { skips_remaining = entry.skips_remaining - 1 }) map,
    )
    else (false, map)

-- `consume_skip`
unfoldable pub consume_skip : String → UserNotFoundBackoff → Bool × UserNotFoundBackoff
unfolding skip_entry
consume_skip user_pk map = skip_entry user_pk map (HashMap.get user_pk map)

-- `entry(..).or_default()`
or_default : Option BackoffEntry → BackoffEntry
or_default none = record { consecutive_failures = 0; skips_remaining = 0 }
or_default (some entry) = entry

-- `record_failure`
unfoldable pub record_failure : String → UserNotFoundBackoff → UserNotFoundBackoff
unfolding or_default
record_failure user_pk map =
    let entry = or_default (HashMap.get user_pk map) in
    let failures = min (add_u32 entry.consecutive_failures 1) max_failures in
    HashMap.insert user_pk (record { consecutive_failures = failures; skips_remaining = failures })
      map

-- `record_success`
unfoldable pub record_success : String → UserNotFoundBackoff → UserNotFoundBackoff
record_success user_pk map = HashMap.remove user_pk map
