-- ===== src/Resolver/Bisection/Tests.antt =====
-- The bisection order of eight keys, as the comment in the code has it.
use mathlib.Core.List.{Perm}
use pubky_nexus.Base.{ℕ, List, [], ◌∷◌, ok, some, ◌≡◌, refl, leb}
use pubky_nexus.Base.Sort.{sort_by, insert_sorted}
use pubky_nexus.Resolver.Bisection.{bisect, bisection_order_user_pks}
use pubky_nexus.Resolver.Bisection.Once.{bisection_order_user_pks-Perm}

abbrev keys : List ℕ
keys = 7 ∷ 0 ∷ 3 ∷ 1 ∷ 6 ∷ 2 ∷ 5 ∷ 4 ∷ []

bisection_order_user_pks-Perm_example :
    (out : List ℕ) × (bisection_order_user_pks leb 18 keys ≡ some (ok out)) × Perm out keys
bisection_order_user_pks-Perm_example = bisection_order_user_pks-Perm leb keys

eight_keys : bisection_order_user_pks leb 18 keys ≡ some (ok (4 ∷ 2 ∷ 6 ∷ 1 ∷ 3 ∷ 5 ∷ 7 ∷ 0 ∷ []))
unfolding bisection_order_user_pks bisect sort_by insert_sorted
eight_keys = refl
