-- ===== src/Resolver/Run/Tests.antt =====
-- A run of the resolver over three users, one of them in backoff, which a shutdown cuts short.
use pubky_nexus.Base.{
  ℕ, String, true, none, some, [], ◌∷◌, ok, ◌≡◌, refl, leb, Option, ◌==◌, string_eq, if◌then◌else◌,
  nat_beq,
}
use pubky_nexus.Base.HashMap
use pubky_nexus.Base.Sort.{sort_by, insert_sorted}
use pubky_nexus.Resolver.Bisection.{bisect, bisection_order_user_pks}
use pubky_nexus.Resolver.Unbound.{UnboundBackoff, retain_due, record_unbound, next_wait, is_due}
use pubky_nexus.Resolver.Resolve.{Resolution, MappingState, Outcome, outcome, mapping, newly_stale}
use pubky_nexus.Resolver.Run.{
  World, done, run, run_selected, run_ordered, resolve_all, take_result, count, back_off, parse_all,
  fresh,
}
use pubky_nexus.Resolver.Run.Accounts.{Accounts}

abbrev parse : String → Option ℕ
parse s = if s == "u1" then some 1 else if s == "u2" then some 2 else none

abbrev z32 : ℕ → String
z32 n = if nat_beq n 1 then "u1" else "u2"

-- The world counts the lookups; the second meets a shutdown.
abbrev world : World ℕ ℕ
world = record {
  get_users_needing_resolution = λ ttl_ms w. (ok ("u1" ∷ "bad key" ∷ "u2" ∷ "u3" ∷ []), w);
  parse = parse;
  z32 = z32;
  le = leb;
  now = λ w. (1000, w);
  select = λ user_pk w. if nat_beq w 0 then (some (ok Resolution.unbound), 1) else (none, w);
}

abbrev waiting : UnboundBackoff
waiting = ("u3", record { next_attempt = 5000; wait = 4000 }) ∷ []

first_unbound :
    (run world 300000 waiting 0).0
    ≡ done 2 (record {
      unbound_backoff =
          ("u3", record { next_attempt = 5000; wait = 4000 })
          ∷ ("u2", record { next_attempt = 60000001000; wait = 60000000000 })
          ∷ [];
      processed = 1;
      failed = 1;
      resolutions = (Outcome.unresolved, some MappingState.unbound) ∷ [];
      marked_stale = [];
      shutting_down = true;
    })
unfolding run run_selected run_ordered resolve_all take_result count back_off parse_all fresh
    retain_due is_due record_unbound next_wait bisection_order_user_pks bisect sort_by insert_sorted
    outcome mapping newly_stale HashMap.get HashMap.insert HashMap.retain
first_unbound = refl
