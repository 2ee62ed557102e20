-- ===== src/Resolver/Unbound/Tests.antt =====
-- The backoff of unbound users on a small history.
use pubky_nexus.Base.{ℕ, none, List, [], ◌∷◌, filter, ◌≡◌, refl, arith}
use pubky_nexus.Resolver.Unbound.{retain_due}
use pubky_nexus.Resolver.Unbound.Streak.{
  Call, selected, unbound, found, replay, streak, due_after, retain_due-replay,
}

-- The TTL is five minutes.
abbrev ttl_ms : ℕ
ttl_ms = 300000

abbrev calls : List Call
calls =
    selected ("u" ∷ "v" ∷ []) 0
    ∷ unbound "u" 0
    ∷ found "v"
    ∷ selected ("u" ∷ []) 60000000000
    ∷ unbound "u" 60000000000
    ∷ []

retain_due-replay_example :
    (retain_due (replay ttl_ms [] calls) ("v" ∷ "u" ∷ []) 179000000000).0
    ≡ filter (λ u. due_after ttl_ms 179000000000 (streak u none calls)) ("v" ∷ "u" ∷ [])
retain_due-replay_example =
    retain_due-replay ttl_ms calls ("v" ∷ "u" ∷ []) 179000000000 (omega arith)

-- The second empty lookup in a row is waited for two minutes.
second_waits_120s :
    filter (λ u. due_after ttl_ms 179000000000 (streak u none calls)) ("v" ∷ "u" ∷ []) ≡ "v" ∷ []
second_waits_120s = refl
