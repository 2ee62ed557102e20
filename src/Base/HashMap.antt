-- ===== src/Base/HashMap.antt =====
-- `HashMap` and `BTreeMap` values as association lists: a key is bound by its first entry.
use pubky_nexus.Base.Tests.{Eq, ◌==◌, if◌then◌else◌, Bool-cases}
use pubky_nexus.Base.Lists.{All, Elem, All-map}
use mathlib.Core.Bool.{Bool, false}
use mathlib.Core.List.{List, [], ◌∷◌}
use mathlib.Core.Logic.{inl, inr}
use mathlib.Core.Option.{Option, none, some}
use mathlib.Core.Path.{◌≡◌, refl}
use native.Mathlib.Omega.{arith}

module _ {ℓ} {K V : Type ℓ} ⦃e : Eq K⦄ where
  unfoldable pub get : K → List (K × V) → Option V
  get key [] = none
  get key ((other, old) ∷ m) = if other == key then some old else get key m

  unfoldable pub insert : K → V → List (K × V) → List (K × V)
  insert key new [] = (key, new) ∷ []
  insert key new ((other, old) ∷ m) =
      if other == key then (key, new) ∷ m else (other, old) ∷ insert key new m

  unfoldable pub remove : K → List (K × V) → List (K × V)
  remove k [] = []
  remove k ((j, w) ∷ m) = if j == k then remove k m else (j, w) ∷ remove k m

  pub get-insert :
      (k j : K) (v : V) (m : List (K × V))
      → get j (insert k v m) ≡ (if k == j then some v else get j m)
  unfolding get insert
  get-insert k j v [] = refl
  get-insert k j v ((i, w) ∷ m) =
      ground (arith, e.same_iff k j, e.same_iff i k, e.same_iff i j, get-insert k j v m)

  pub get-remove :
      (k j : K) (m : List (K × V)) → get j (remove k m) ≡ (if k == j then none else get j m)
  unfolding get remove
  get-remove k j [] = ground arith
  get-remove k j ((i, w) ∷ m) =
      ground (arith, e.same_iff k j, e.same_iff i k, e.same_iff i j, get-remove k j m)

  -- `retain`, for a test on the key.
  unfoldable pub retain : (K → Bool) → List (K × V) → List (K × V)
  retain p [] = []
  retain p ((k, v) ∷ m) = if p k then (k, v) ∷ retain p m else retain p m

  pub get-retain :
      (p : K → Bool) (k : K) (m : List (K × V))
      → get k (retain p m) ≡ (if p k then get k m else none)
  unfolding get retain
  get-retain p k [] = ground arith
  get-retain p k ((j, v) ∷ m) = ground (arith, e.same_iff j k, get-retain p k m)

  -- `iter`, `values` and the like see each bound key once.
  unfoldable pub iter : List (K × V) → List (K × V)
  unfolding remove
  iter [] = []
  iter ((k, v) ∷ m) = (k, v) ∷ remove k (iter m)

  All-remove {κ} :
      (P : K × V → Type κ) (k : K) (m : List (K × V))
      → All P m
      → All (λ p. P p × (p.0 == k ≡ false)) (remove k m)
  unfolding remove
  All-remove P k [] h = tt
  All-remove P k ((j, v) ∷ m) h = elim (Bool-cases (j == k)) [
    | inl q ↦ rw q (All-remove P k m h.1)
    | inr q ↦ rw q ((h.0, q), All-remove P k m h.1)
  ]

  -- A walk over the map meets only what a lookup finds.
  pub iter_sound : (m : List (K × V)) → All (λ p. get p.0 m ≡ some p.1) (iter m)
  unfolding iter get
  iter_sound [] = tt
  iter_sound ((k, v) ∷ m) = (
    ground (arith, e.same_iff k k),
    All-map (λ p h. ground (arith, e.same_iff k p.0, e.same_iff p.0 k)) (remove k (iter m))
        (All-remove (λ p. get p.0 m ≡ some p.1) k (iter m) (iter_sound m)),
  )

module _ {K V : Type 0} ⦃e : Eq K⦄ where
  Elem-remove :
      (k j : K) (v : V) (m : List (K × V))
      → j == k ≡ false
      → Elem (j, v) m
      → Elem (j, v) (remove k m)
  unfolding remove
  Elem-remove k j v [] q h = h
  Elem-remove k j v ((i, w) ∷ m) q (inl p) = let r : i == k ≡ false = ground arith in rw r (inl p)
  Elem-remove k j v ((i, w) ∷ m) q (inr h) = elim (Bool-cases (i == k)) [
    | inl r ↦ rw r (Elem-remove k j v m q h)
    | inr r ↦ rw r (inr (Elem-remove k j v m q h))
  ]

  -- A walk over the map meets all that a lookup finds.
  pub iter_complete : (k : K) (v : V) (m : List (K × V)) → get k m ≡ some v → Elem (k, v) (iter m)
  unfolding iter get
  iter_complete k v [] h = cc
  iter_complete k v ((j, w) ∷ m) h = elim (Bool-cases (j == k)) [
    | inl q ↦ inl (ground (arith, e.same_iff j k))
    | inr q ↦ inr (
        Elem-remove j k v (iter m) (ground (arith, e.same_iff j k, e.same_iff k j))
          (iter_complete k v m (ground arith)))
  ]
