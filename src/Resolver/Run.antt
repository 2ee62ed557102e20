-- ===== src/Resolver/Run.antt =====
-- `run` of nexus-watcher/src/service/user_hs_resolver.rs: one round over the users that are due.
-- The counters are kept as what was recorded; the gauges and the heartbeat are left out.
use pubky_nexus.Base.{
  ℕ, String, Bool, true, false, Option, none, some, List, [], ◌∷◌, ◌++◌, Result, ok, err, Step, ◌+◌,
  ◌*◌, length, is_empty, if◌then◌else◌,
}
use pubky_nexus.Errors.{GraphError}
use pubky_nexus.Resolver.Bisection.{Panic, bisection_order_user_pks}
use pubky_nexus.Resolver.Unbound.{UnboundBackoff, from_millis, retain_due, record_unbound, clear}
use pubky_nexus.Resolver.Resolve.{
  Resolution, StaleReason, MappingState, Outcome, outcome, mapping, newly_stale, lookup_failed,
}
pub mod Accounts
mod Tests

-- What a run counts, and the backoff.
pub record Round : Type 0 where
  pub unbound_backoff : UnboundBackoff
  pub processed : ℕ
  pub failed : ℕ
  pub resolutions : List (Outcome × Option MappingState)
  pub marked_stale : List StaleReason
  pub shutting_down : Bool

-- What a run takes from outside: the query for the users, the parsing and order of keys, the clock,
-- and the race of a resolution against the shutdown signal, which has no result when the signal
-- came first, wherever the resolution was dropped.
pub record World (W PublicKey : Type 0) : Type 0 where
  pub get_users_needing_resolution : ℕ → Step W GraphError (List String)
  pub parse : String → Option PublicKey
  pub z32 : PublicKey → String
  pub le : PublicKey → PublicKey → Bool
  pub now : W → ℕ × W
  pub select : PublicKey → W → Option (Result Resolution GraphError) × W

-- How a run ends.
pub data Ending : Type 0 where
  done : ℕ → Round → Ending
  failed_query : GraphError → Ending
  panicked : Panic → Ending
  out_of_fuel : Ending

-- `outcome != Outcome::Resolved`
abbrev pub is_failure : Outcome → Bool
is_failure Outcome.resolved = false
is_failure Outcome.unresolved = true
is_failure Outcome.error = true

-- The counters of one resolution.
unfoldable pub count : Outcome → Option MappingState → Option StaleReason → Round → Round
count how before newly round = record round {
  processed = round.processed + 1;
  failed = if is_failure how then round.failed + 1 else round.failed;
  resolutions = round.resolutions ++ ((how, before) ∷ []);
  marked_stale = round.marked_stale ++ (elim newly [ none ↦ [] | some reason ↦ reason ∷ [] ]);
}

-- The counters at the start.
unfoldable pub fresh : UnboundBackoff → Round
fresh backoff = record {
  unbound_backoff = backoff;
  processed = 0;
  failed = 0;
  resolutions = [];
  marked_stale = [];
  shutting_down = false;
}

module _ {W PublicKey : Type 0} (world : World W PublicKey) (ttl_ms : ℕ) where
  -- The backoff after a resolution.
  unfoldable pub back_off : Resolution → String → UnboundBackoff → W → UnboundBackoff × W
  back_off Resolution.unbound user_id self w =
      let (instant, w') = world.now w in
      (record_unbound self user_id instant (from_millis ttl_ms), w')
  back_off (lookup_failed before) user_id self w = (self, w)
  back_off Resolution.bound user_id self w = (clear self user_id, w)
  back_off (Resolution.confirmed was_stale) user_id self w = (clear self user_id, w)
  back_off (Resolution.diverged reason was_stale) user_id self w = (clear self user_id, w)

  -- A resolution that was not dropped.
  unfoldable pub take_result : Result Resolution GraphError → String → Round → W → Round × W
  unfolding count back_off outcome mapping newly_stale
  take_result (err e) user_id round w = (count Outcome.error none none round, w)
  take_result (ok resolution) user_id round w =
      let (backoff, w') = back_off resolution user_id round.unbound_backoff w in
      (
        count (outcome resolution) (some (mapping resolution)) (newly_stale resolution)
            (record round { unbound_backoff = backoff }),
        w',
      )

  -- The loop over the users.
  unfoldable pub resolve_all : List PublicKey → Round → W → Round × W
  unfolding take_result
  resolve_all [] round w = (round, w)
  resolve_all (user_pk ∷ user_pks) round w = elim (world.select user_pk w).0 [
    | none ↦ (record round { shutting_down = true }, (world.select user_pk w).1)
    | some result ↦
        let (round', w') =
          take_result result (world.z32 user_pk) round (world.select user_pk w).1 in
        resolve_all user_pks round' w'
  ]

  -- `filter_map` with the parsing of keys.
  unfoldable pub parse_all : List String → List PublicKey
  parse_all [] = []
  parse_all (user_id ∷ user_ids) = elim (world.parse user_id) [
    | none ↦ parse_all user_ids
    | some user_pk ↦ user_pk ∷ parse_all user_ids
  ]

  -- The part of `run` after the users were selected, with their keys in bisection order.
  unfoldable pub run_ordered :
      ℕ → Option (Result (List PublicKey) Panic) → UnboundBackoff → W → Ending × W
  unfolding resolve_all fresh
  run_ordered total none backoff w = (out_of_fuel, w)
  run_ordered total (some (err panic)) backoff w = (panicked panic, w)
  run_ordered total (some (ok user_pks)) backoff w =
      let (round, w') = resolve_all user_pks (fresh backoff) w in (done total round, w')

  -- The part of `run` after the query.
  unfoldable pub run_selected : Result (List String) GraphError → UnboundBackoff → W → Ending × W
  unfolding run_ordered parse_all fresh retain_due
  run_selected (err e) unbound_backoff w = (failed_query e, w)
  run_selected (ok user_ids) unbound_backoff w =
      let (instant, w1) = world.now w in
      let (due, backoff) = retain_due unbound_backoff user_ids instant in
      let user_pks = parse_all due in
      if is_empty user_pks
      then (done 0 (fresh backoff), w1)
      else run_ordered (length user_pks)
          (bisection_order_user_pks world.le (length user_pks * 2 + 2) user_pks) backoff w1

  -- `run`
  unfoldable pub run : UnboundBackoff → W → Ending × W
  unfolding run_selected
  run unbound_backoff w =
      let (user_ids, w') = world.get_users_needing_resolution ttl_ms w in
      run_selected user_ids unbound_backoff w'
