-- ===== src/Resolver/Unbound.antt =====
-- `UnboundBackoff` of nexus-watcher/src/service/user_hs_resolver.rs: the users without a homeserver
-- whose lookup found nothing published, kept in memory. Instants and durations count nanoseconds.
use pubky_nexus.Base.{
  ℕ, String, Bool, true, Option, none, some, List, min, ◌+◌, ◌*◌, leb, if◌then◌else◌, ◌==◌,
  string_eq, filter, any,
}
use pubky_nexus.Base.HashMap
pub mod Streak
mod Tests

-- `UnboundEntry`
pub record UnboundEntry : Type 0 where
  pub next_attempt : ℕ
  pub wait : ℕ

-- `UnboundBackoff`
abbrev pub UnboundBackoff : Type 0
UnboundBackoff = List (String × UnboundEntry)

-- `UNBOUND_RETRY_INITIAL`: 60 seconds.
abbrev pub unbound_retry_initial : ℕ
unbound_retry_initial = 60000000000

-- `Duration::from_millis`
abbrev pub from_millis : ℕ → ℕ
from_millis ms = ms * 1000000

-- `Duration::MAX`: 2 ^ 64 seconds, less a nanosecond.
abbrev pub duration_max : ℕ
duration_max = 18446744073709551615999999999

-- `Duration::saturating_mul`, by two.
unfoldable pub saturating_double : ℕ → ℕ
saturating_double wait = min (wait * 2) duration_max

-- Whether a user's next lookup is due.
unfoldable pub is_due : UnboundBackoff → ℕ → String → Bool
is_due entries now user_id = elim (HashMap.get user_id entries) [
  | none ↦ true
  | some entry ↦ leb entry.next_attempt now
]

-- `UnboundBackoff::retain_due`
unfoldable pub retain_due : UnboundBackoff → List String → ℕ → List String × UnboundBackoff
unfolding is_due
retain_due self user_ids now =
    let entries = HashMap.retain (λ user_id. any (λ u. u == user_id) user_ids) self in
    (filter (is_due entries now) user_ids, entries)

-- The wait after an empty lookup, by the entry before it.
unfoldable pub next_wait : ℕ → Option UnboundEntry → ℕ
unfolding saturating_double
next_wait ttl none = min unbound_retry_initial ttl
next_wait ttl (some entry) = min (saturating_double entry.wait) ttl

-- `UnboundBackoff::record_unbound`
unfoldable pub record_unbound : UnboundBackoff → String → ℕ → ℕ → UnboundBackoff
unfolding next_wait
record_unbound self user_id now ttl =
    let wait = next_wait ttl (HashMap.get user_id self) in
    HashMap.insert user_id (record { next_attempt = now + wait; wait = wait }) self

-- `UnboundBackoff::clear`
unfoldable pub clear : UnboundBackoff → String → UnboundBackoff
clear self user_id = HashMap.remove user_id self
