-- ===== src/Resolver/Run/Accounts.antt =====
-- A run accounts for every user that it selected.
use mathlib.Core.List.{Perm}
use mathlib.Core.List.Perm as Perm
use pubky_nexus.Base.{
  ℕ, suc, String, true, Option, none, some, List, [], ◌∷◌, ◌++◌, Result, ok, err, ◌+◌, ◌*◌, length,
  if◌then◌else◌, ◌≡◌,
}
use pubky_nexus.Errors.{GraphError}
use pubky_nexus.Resolver.Bisection.{bisection_order_user_pks}
use pubky_nexus.Resolver.Unbound.{UnboundBackoff, retain_due}
use pubky_nexus.Resolver.Resolve.{Resolution, MappingState, Outcome, outcome, mapping}
use pubky_nexus.Resolver.Run.{
  Round, World, Ending, done, failed_query, is_failure, parse_all, fresh,
}

abbrev pub Counted : Type 0
Counted = List (Outcome × Option MappingState)

-- How many of the recorded resolutions were failures.
abbrev pub failures : Counted → ℕ
failures [] = 0
failures ((how, before) ∷ counted) =
    if is_failure how then suc (failures counted) else failures counted

-- What is recorded of a resolution that was not dropped.
abbrev pub label : Result Resolution GraphError → Outcome × Option MappingState
label (err e) = (Outcome.error, none)
label (ok resolution) = (outcome resolution, some (mapping resolution))

module _ {W PublicKey : Type 0} (world : World W PublicKey) (ttl_ms : ℕ) where
  -- The users and what was recorded, one for each: the label of the user's own resolution.
  abbrev pub Records : List PublicKey → Counted → Type 0
  Records [] [] = Unit
  Records [] (one ∷ new) = ⊥
  Records (user_pk ∷ handled) [] = ⊥
  Records (user_pk ∷ handled) (one ∷ new) =
      ((w : W) × (result : Result Resolution GraphError) × ((world.select user_pk w).0
          ≡ some result)
        × (one ≡ label result))
      × Records handled new

  -- The users that are left over, if any: the resolution of the first was dropped for a shutdown.
  abbrev pub Dropped : List PublicKey → Round → Type 0
  Dropped [] round = Unit
  Dropped (user_pk ∷ rest) round =
      (round.shutting_down ≡ true) × ((w : W) × ((world.select user_pk w).0 ≡ none))

  -- From one state of the counters to another over the users of an order: the first are handled and
  -- counted once each, and the rest is left over.
  abbrev pub Counts : List PublicKey → Round → Round → Type 0
  Counts user_pks old round =
      (handled : List PublicKey) × (rest : List PublicKey) × (new : Counted) × (user_pks
        ≡ handled ++ rest)
      × Records handled new
      × (round.processed ≡ old.processed + length handled)
      × (round.resolutions ≡ old.resolutions ++ new)
      × (round.failed ≡ old.failed + failures new)
      × Dropped rest round

  -- How a run may end, over the users that the query gave and at the instant of the selection.
  abbrev pub Accounts : Result (List String) GraphError → ℕ → UnboundBackoff → Ending → Type 0
  Accounts (err e) instant unbound_backoff ending = ending ≡ failed_query e
  Accounts (ok user_ids) instant unbound_backoff ending =
      let (due, backoff) = retain_due unbound_backoff user_ids instant in
      let user_pks = parse_all world ttl_ms due in
      (order : List PublicKey) × (round : Round) × (ending ≡ done (length user_pks) round)
      × (bisection_order_user_pks world.le (length user_pks * 2 + 2) user_pks ≡ some (ok order))
      × Perm order user_pks
      × Counts order (fresh backoff) round
