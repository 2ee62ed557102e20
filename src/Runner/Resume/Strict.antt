-- ===== src/Runner/Resume/Strict.antt =====
-- Users with different keys, in the order of their keys.
use pubky_nexus.Base.{
  true, false, List, [], ◌∷◌, ◌++◌, ◌≡◌, ◌≢◌, ◌⊎◌, refl, arith, inl, inr, All, All-map, Bool-cases,
  suc, ap, take, drop, length,
}
use pubky_nexus.Base.Order.{str_leb, str_leb_total, str_leb_trans, str_leb_antisymm}
use pubky_nexus.Base.Sort.{sort_by, insert_sorted, All-sort_by, All-insert_sorted}
use pubky_nexus.Runner.Resume.{User, by_key, before, partition_point, rotate_left}

abbrev pub IsDistinct : List User → Type 0
IsDistinct [] = Unit
IsDistinct (x ∷ xs) = All (λ y. y.0 ≢ x.0) xs × IsDistinct xs

-- Each key is before those that follow.
abbrev pub IsStrict : List User → Type 0
IsStrict [] = Unit
IsStrict (x ∷ xs) = All (λ y. str_leb y.0 x.0 ≡ false) xs × IsStrict xs

not_before :
    (x y z : User) → str_leb x.0 y.0 ≡ true → str_leb z.0 y.0 ≡ false → str_leb z.0 x.0 ≡ false
not_before x y z h k = ground (arith, str_leb_trans z.0 x.0 y.0)

after_first : (x y : User) → str_leb x.0 y.0 ≡ true → y.0 ≢ x.0 → str_leb y.0 x.0 ≡ false
after_first x y h ne = elim (Bool-cases (str_leb y.0 x.0)) [
  | inl q ↦ absurd (ne (str_leb_antisymm y.0 x.0 q h))
  | inr q ↦ q
]

pub by_key_total : (a b : User) → (by_key a b ≡ true) ⊎ (by_key b a ≡ true)
by_key_total a b = str_leb_total a.0 b.0

pub by_key_trans : (a b c : User) → by_key a b ≡ true → by_key b c ≡ true → by_key a c ≡ true
by_key_trans a b c = str_leb_trans a.0 b.0 c.0

insert-IsStrict :
    (x : User) (ys : List User)
    → All (λ y. y.0 ≢ x.0) ys
    → IsStrict ys
    → IsStrict (insert_sorted by_key x ys)
unfolding insert_sorted
insert-IsStrict x [] d s = (tt, tt)
insert-IsStrict x (y ∷ ys) d s = elim (Bool-cases (by_key x y)) [
  | inl q ↦ rw q ((after_first x y q d.0, All-map (λ z h. not_before x y z q h) ys s.0), s)
  | inr q ↦ rw q (
    All-insert_sorted by_key by_key_total by_key_trans (λ z. str_leb z.0 y.0 ≡ false) x ys q s.0,
    insert-IsStrict x ys d.1 s.1,
  )
]

pub sort-IsStrict : (users : List User) → IsDistinct users → IsStrict (sort_by by_key users)
unfolding sort_by
sort-IsStrict [] d = tt
sort-IsStrict (x ∷ users) d =
    insert-IsStrict x (sort_by by_key users)
      (All-sort_by by_key by_key_total by_key_trans (λ y. y.0 ≢ x.0) users d.0)
      (sort-IsStrict users d.1)

take-length : {A : Type 0} (xs ys : List A) → take (length xs) (xs ++ ys) ≡ xs
take-length [] ys = refl
take-length (x ∷ xs) ys = ap (◌∷◌ x) (take-length xs ys)

drop-length : {A : Type 0} (xs ys : List A) → drop (length xs) (xs ++ ys) ≡ ys
drop-length [] ys = refl
drop-length (x ∷ xs) ys = drop-length xs ys

pub rotate_left-append :
    {A : Type 0} (xs ys : List A) → rotate_left (length xs) (xs ++ ys) ≡ ys ++ xs
rotate_left-append xs ys = rw (take-length xs ys, drop-length xs ys) refl

All-middle :
    (P : User → Type 0) (front back : List User) (x : User) → All P (front ++ (x ∷ back)) → P x
All-middle P [] back x h = h.0
All-middle P (y ∷ front) back x h = All-middle P front back x h.1

-- In a list of such users the resume point of one of them splits the list just before it.
pub partition_point-append :
    (front back : List User) (x : User)
    → IsStrict (front ++ (x ∷ back))
    → partition_point (before x.0) (front ++ (x ∷ back)) ≡ length front
unfolding partition_point
partition_point-append [] back x s = ground (arith, str_leb_total x.0 x.0)
partition_point-append (y ∷ front) back x s =
    let after_y : str_leb x.0 y.0 ≡ false =
      All-middle (λ z. str_leb z.0 y.0 ≡ false) front back x s.0 in
    rw after_y (ap suc (partition_point-append front back x s.1))
