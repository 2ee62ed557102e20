-- ===== src/Resolver/Bisection.antt =====
-- `bisection_order_user_pks` of nexus-watcher/src/service/user_hs_resolver.rs. A public key is
-- known by the order of its bytes.
use pubky_nexus.Base.{
  ℕ, zero, suc, Bool, Option, none, some, List, [], ◌∷◌, ◌++◌, Result, ok, err, ◌+◌, ◌-◌, ◌/◌, leb,
  length, get_elem?, if◌then◌else◌,
}
use pubky_nexus.Base.Sort.{sort_by}
pub mod Once
mod Tests

-- An index out of bounds panics.
pub data Panic : Type 0 where
  out_of_bounds : Panic

-- The intervals to begin with.
abbrev pub whole : ℕ → List (ℕ × ℕ)
whole zero = []
whole (suc n) = (0, suc n) ∷ []

module _ {PublicKey : Type 0} where
  -- The loop over the queue of half-open intervals, for at most `fuel` rounds.
  unfoldable pub bisect :
      ℕ → List PublicKey → List (ℕ × ℕ) → List PublicKey → Option (Result (List PublicKey) Panic)
  bisect zero sorted_pks queue bisection_result = none
  bisect (suc fuel) sorted_pks [] bisection_result = some (ok bisection_result)
  bisect (suc fuel) sorted_pks ((lo, hi) ∷ queue) bisection_result =
      let mid = lo + (hi - lo) / 2 in
      let skipped = bisect fuel sorted_pks queue bisection_result in
      if leb hi lo then skipped else (elim (get_elem? sorted_pks mid) [
        | none ↦ some (err out_of_bounds)
        | some pk ↦
            bisect fuel sorted_pks (queue ++ ((lo, mid) ∷ (mid + 1, hi) ∷ []))
              (bisection_result ++ (pk ∷ []))
      ])

  -- `bisection_order_user_pks`
  unfoldable pub bisection_order_user_pks :
      (PublicKey → PublicKey → Bool) → ℕ → List PublicKey → Option (Result (List PublicKey) Panic)
  unfolding bisect
  bisection_order_user_pks le fuel unsorted_pks =
      let sorted_pks = sort_by le unsorted_pks in
      bisect fuel sorted_pks (whole (length sorted_pks)) []
