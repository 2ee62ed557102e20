-- ===== src/Base/Sort.antt =====
-- `sort_by` and `truncate`: a stable sort, as insertion from the right.
use pubky_nexus.Base.Tests.{if◌then◌else◌, Bool-cases}
use pubky_nexus.Base.Lists.{length, take, All, Elem, All-map, All-elem, All-take}
use Prim.Native.Nat.{ℕ, zero, suc}
use mathlib.Core.Bool.{Bool, true, false}
use mathlib.Core.List.{List, [], ◌∷◌, Perm}
use mathlib.Core.List.Perm as Perm
use mathlib.Core.Logic.{◌⊎◌, inl, inr}
use mathlib.Core.Path.{◌≡◌, refl, ap, ◌∙◌}
use native.Mathlib.Omega.{arith}

module _ {A : Type 0} (le : A → A → Bool) where
  unfoldable pub insert_sorted : A → List A → List A
  insert_sorted x [] = x ∷ []
  insert_sorted x (y ∷ ys) = if le x y then x ∷ y ∷ ys else y ∷ insert_sorted x ys

  unfoldable pub sort_by : List A → List A
  unfolding insert_sorted
  sort_by [] = []
  sort_by (x ∷ xs) = insert_sorted x (sort_by xs)

  abbrev pub IsSorted : List A → Type 0
  IsSorted [] = Unit
  IsSorted (x ∷ xs) = All (λ y. le x y ≡ true) xs × IsSorted xs

module _ {A : Type 0} (le : A → A → Bool) where
  insert_sorted-Perm : (x : A) (ys : List A) → Perm (insert_sorted le x ys) (x ∷ ys)
  unfolding insert_sorted
  insert_sorted-Perm x [] = Perm.refl (x ∷ [])
  insert_sorted-Perm x (y ∷ ys) = elim (Bool-cases (le x y)) [
    | inl e ↦ rw e (Perm.refl (x ∷ y ∷ ys))
    | inr e ↦ rw e (Perm.trans (Perm.cons y (insert_sorted-Perm x ys)) (Perm.swap x y ys))
  ]

  pub sort_by-Perm : (xs : List A) → Perm (sort_by le xs) xs
  unfolding sort_by
  sort_by-Perm [] = Perm.nil
  sort_by-Perm (x ∷ xs) =
      Perm.trans (insert_sorted-Perm x (sort_by le xs)) (Perm.cons x (sort_by-Perm xs))

  length-insert_sorted : (x : A) (ys : List A) → length (insert_sorted le x ys) ≡ suc (length ys)
  unfolding insert_sorted
  length-insert_sorted x [] = refl
  length-insert_sorted x (y ∷ ys) = ground (arith, length-insert_sorted x ys)

  pub length-sort_by : (xs : List A) → length (sort_by le xs) ≡ length xs
  unfolding sort_by
  length-sort_by [] = refl
  length-sort_by (x ∷ xs) = length-insert_sorted x (sort_by le xs) ∙ ap suc (length-sort_by xs)

module _ {A : Type 0} (le : A → A → Bool) (total : (a b : A) → (le a b ≡ true) ⊎ (le b a ≡ true))
    (trans : (a b c : A) → le a b ≡ true → le b c ≡ true → le a c ≡ true) where
  pub All-insert_sorted {κ} :
      (P : A → Type κ) (x : A) (ys : List A) → P x → All P ys → All P (insert_sorted le x ys)
  unfolding insert_sorted
  All-insert_sorted P x [] h k = (h, tt)
  All-insert_sorted P x (y ∷ ys) h k = elim (Bool-cases (le x y)) [
    | inl e ↦ rw e (h, k)
    | inr e ↦ rw e (k.0, All-insert_sorted P x ys h k.1)
  ]

  gt_le : (x y : A) → le x y ≡ false → le y x ≡ true
  gt_le x y e = ground (arith, total x y)

  insert_sorted-IsSorted :
      (x : A) (ys : List A) → IsSorted le ys → IsSorted le (insert_sorted le x ys)
  unfolding insert_sorted
  insert_sorted-IsSorted x [] s = (tt, tt)
  insert_sorted-IsSorted x (y ∷ ys) s = elim (Bool-cases (le x y)) [
    | inl e ↦ rw e ((e, All-map (λ z h. trans x y z e h) ys s.0), s)
    | inr e ↦ rw e (
      All-insert_sorted (λ z. le y z ≡ true) x ys (gt_le x y e) s.0,
      insert_sorted-IsSorted x ys s.1,
    )
  ]

  pub sort_by-IsSorted : (xs : List A) → IsSorted le (sort_by le xs)
  unfolding sort_by
  sort_by-IsSorted [] = tt
  sort_by-IsSorted (x ∷ xs) = insert_sorted-IsSorted x (sort_by le xs) (sort_by-IsSorted xs)

  pub All-sort_by {κ} : (P : A → Type κ) (xs : List A) → All P xs → All P (sort_by le xs)
  unfolding sort_by
  All-sort_by P [] h = tt
  All-sort_by P (x ∷ xs) h = All-insert_sorted P x (sort_by le xs) h.0 (All-sort_by P xs h.1)

  Elem-insert_sorted :
      (a x : A) (ys : List A) → (a ≡ x) ⊎ Elem a ys → Elem a (insert_sorted le x ys)
  unfolding insert_sorted
  Elem-insert_sorted a x [] m = m
  Elem-insert_sorted a x (y ∷ ys) m = elim (Bool-cases (le x y)) [
    | inl e ↦ rw e m
    | inr e ↦ rw e (ground (arith, Elem-insert_sorted a x ys))
  ]

  pub Elem-sort_by : (a : A) (xs : List A) → Elem a xs → Elem a (sort_by le xs)
  unfolding sort_by
  Elem-sort_by a [] m = m
  Elem-sort_by a (x ∷ xs) (inl e) = Elem-insert_sorted a x (sort_by le xs) (inl e)
  Elem-sort_by a (x ∷ xs) (inr m) =
      Elem-insert_sorted a x (sort_by le xs) (inr (Elem-sort_by a xs m))

  -- An element that the cut leaves out is above all that it keeps, and the cut keeps `n`.
  pub take-least :
      (n : ℕ) (a : A) (xs : List A)
      → IsSorted le xs
      → Elem a xs
      → Elem a (take n xs) ⊎ ((length (take n xs) ≡ n) × All (λ y. le y a ≡ true) (take n xs))
  take-least n a [] s m = elim m [ ]
  take-least zero a (x ∷ xs) s m = inr (refl, tt)
  take-least (suc n) a (x ∷ xs) s (inl e) = inl (inl e)
  take-least (suc n) a (x ∷ xs) s (inr m) = elim (take-least n a xs s.1 m) [
    | inl k ↦ inl (inr k)
    | inr r ↦ inr (ap suc r.0, (All-elem _ xs s.0 m, r.1))
  ]

  pub take-IsSorted : (n : ℕ) (xs : List A) → IsSorted le xs → IsSorted le (take n xs)
  take-IsSorted zero xs s = tt
  take-IsSorted (suc n) [] s = tt
  take-IsSorted (suc n) (x ∷ xs) s =
      (All-take (λ y. le x y ≡ true) n xs s.0, take-IsSorted n xs s.1)
