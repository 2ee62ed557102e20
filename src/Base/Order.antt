-- ===== src/Base/Order.antt =====
-- The order of texts, byte by byte, as Rust's `String` has it: on UTF-8 that is the order of
-- the code points.
use Prim.Native.Nat.{ℕ, compare, Ordering}
use Prim.Native.Char.{Char, code}
use Prim.Native.String.{String}
use mathlib.Core.Path.{◌≡◌, refl}
use mathlib.Core.Logic.{◌⊎◌, inl, inr}
use mathlib.Core.Bool.{Bool, true, false, not}
use mathlib.Core.List.{List, [], ◌∷◌}
use pubky_nexus.Base.Tests.{if◌then◌else◌}
use native.Mathlib.Omega.{arith}
use text.Mathlib.TextEquality.{codes_equal}

-- A total order by a Boolean test.
pub record Ord (A : Type 0) : Type 0 where
  pub le : A → A → Bool
  pub total : (a b : A) → (le a b ≡ true) ⊎ (le b a ≡ true)
  pub trans : (a b c : A) → le a b ≡ true → le b c ≡ true → le a c ≡ true
  pub antisymm : (a b : A) → le a b ≡ true → le b a ≡ true → a ≡ b

unfoldable pub str_leb : String → String → Bool
str_leb String.[] t = true
str_leb (String.◌∷◌ c s) String.[] = false
str_leb (String.◌∷◌ c s) (String.◌∷◌ d t) = elim (compare (code c) (code d)) [
  | Ordering.lt ↦ true
  | Ordering.eq ↦ str_leb s t
  | Ordering.gt ↦ false
]

pub str_leb_total : (s t : String) → (str_leb s t ≡ true) ⊎ (str_leb t s ≡ true)
unfolding str_leb
str_leb_total String.[] t = inl refl
str_leb_total (String.◌∷◌ c s) String.[] = inr refl
str_leb_total (String.◌∷◌ c s) (String.◌∷◌ d t) = ground (arith, str_leb_total s t)

pub str_leb_trans : (s t u : String) → str_leb s t ≡ true → str_leb t u ≡ true → str_leb s u ≡ true
unfolding str_leb
str_leb_trans String.[] t u h k = refl
str_leb_trans (String.◌∷◌ c s) String.[] u h k = ground arith
str_leb_trans (String.◌∷◌ c s) (String.◌∷◌ d t) String.[] h k = ground arith
str_leb_trans (String.◌∷◌ c s) (String.◌∷◌ d t) (String.◌∷◌ e u) h k =
    ground (arith, str_leb_trans s t u)

codes_tie : (c d : Char) → compare (code c) (code d) ≡ Ordering.eq → c ≡ d
codes_tie c d h = codes_equal c d h

swap_tie : (m n : ℕ) → compare m n ≡ Ordering.gt → compare n m ≡ Ordering.lt
swap_tie m n h = ground arith

pub str_leb_antisymm : (s t : String) → str_leb s t ≡ true → str_leb t s ≡ true → s ≡ t
unfolding str_leb
str_leb_antisymm String.[] String.[] h k = refl
str_leb_antisymm String.[] (String.◌∷◌ d t) h k = ground arith
str_leb_antisymm (String.◌∷◌ c s) String.[] h k = ground arith
str_leb_antisymm (String.◌∷◌ c s) (String.◌∷◌ d t) h k =
    ground (arith, str_leb_antisymm s t, codes_tie c d)

abbrev pub str_ord : Ord String
str_ord = record {
  le = str_leb;
  total = str_leb_total;
  trans = str_leb_trans;
  antisymm = str_leb_antisymm;
}

-- `a < b`
abbrev pub lt : {A : Type 0} → Ord A → A → A → Bool
lt ord a b = not (ord.le b a)

pub lt_trans :
    {A : Type 0} (ord : Ord A) (a b c : A)
    → lt ord a b ≡ true
    → lt ord b c ≡ true
    → lt ord a c ≡ true
lt_trans ord a b c h k = ground (arith, ord.total a b, ord.trans c a b)

-- The order of `Vec`: element by element.
module _ {A : Type 0} (ord : Ord A) where
  unfoldable pub list_leb : List A → List A → Bool
  list_leb [] ys = true
  list_leb (x ∷ xs) [] = false
  list_leb (x ∷ xs) (y ∷ ys) =
      if ord.le x y then (if ord.le y x then list_leb xs ys else true) else false

  pub list_leb_total : (xs ys : List A) → (list_leb xs ys ≡ true) ⊎ (list_leb ys xs ≡ true)
  unfolding list_leb
  list_leb_total [] ys = inl refl
  list_leb_total (x ∷ xs) [] = inr refl
  list_leb_total (x ∷ xs) (y ∷ ys) = ground (arith, ord.total x y, list_leb_total xs ys)

  pub list_leb_trans :
      (xs ys zs : List A) → list_leb xs ys ≡ true → list_leb ys zs ≡ true → list_leb xs zs ≡ true
  unfolding list_leb
  list_leb_trans [] ys zs h k = refl
  list_leb_trans (x ∷ xs) [] zs h k = ground arith
  list_leb_trans (x ∷ xs) (y ∷ ys) [] h k = ground arith
  list_leb_trans (x ∷ xs) (y ∷ ys) (z ∷ zs) h k =
      ground (arith, ord.trans x y z, ord.trans y z x, ord.trans z x y, list_leb_trans xs ys zs)

  pub list_leb_antisymm : (xs ys : List A) → list_leb xs ys ≡ true → list_leb ys xs ≡ true → xs ≡ ys
  unfolding list_leb
  list_leb_antisymm [] [] h k = refl
  list_leb_antisymm [] (y ∷ ys) h k = ground arith
  list_leb_antisymm (x ∷ xs) [] h k = ground arith
  list_leb_antisymm (x ∷ xs) (y ∷ ys) h k =
      ground (arith, ord.antisymm x y, list_leb_antisymm xs ys)

abbrev pub list_ord : {A : Type 0} → Ord A → Ord (List A)
list_ord ord = record {
  le = list_leb ord;
  total = list_leb_total ord;
  trans = list_leb_trans ord;
  antisymm = list_leb_antisymm ord;
}
