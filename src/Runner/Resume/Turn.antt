-- ===== src/Runner/Resume/Turn.antt =====
-- A run that stops is taken up by the next one with the user after it.
use native.Mathlib.Nat.{mod-lt}
use pubky_nexus.Base.{
  append_assoc, append_nil, ℕ, zero, suc, String, some, List, [], ◌∷◌, ◌++◌, ◌≡◌, ◌<◌, ◌+◌, ◌%◌,
  refl, arith, inl, inr, ap, sym, ◌∙◌, subst, take, drop, length, get_elem?, take-append-drop,
  Option-cases, string_eq,
}
use pubky_nexus.Base.HashMap
use pubky_nexus.Base.Sort.{sort_by}
use pubky_nexus.Runner.Resume.{
  User, UserResumePoints, by_key, before, partition_point, rotate_left, order, record_stop_after,
}
use pubky_nexus.Runner.Resume.Strict.{
  IsDistinct, IsStrict, sort-IsStrict, rotate_left-append, partition_point-append,
}

-- A position splits a list before the element there.
pub split_at :
    {A : Type 0} (k : ℕ) (o : List A)
    → k < length o
    → (c : List A) × (x : A) × (d : List A) × (o ≡ c ++ (x ∷ d))
      × (length c ≡ k)
      × (get_elem? o k ≡ some x)
split_at k [] h = absurd (omega (arith, h))
split_at zero (y ∷ o) h = ([], y, o, refl, refl, refl)
split_at (suc k) (y ∷ o) h =
    let (c, x, d, e, l, g) = split_at k o (omega (arith, h)) in
    (y ∷ c, x, d, ap (◌∷◌ y) e, ap suc l, g)

-- Two ways to split a list, by which of the two comes first.
data Splits {A : Type 0} (b a c : List A) (x : A) (d : List A) : Type 0 where
  in_back : (d' : List A) → b ≡ c ++ (x ∷ d') → d ≡ d' ++ a → Splits b a c x d
  in_front : (a1 : List A) → a ≡ a1 ++ (x ∷ d) → c ≡ b ++ a1 → Splits b a c x d

splits :
    {A : Type 0} (b a c : List A) (x : A) (d : List A) → b ++ a ≡ c ++ (x ∷ d) → Splits b a c x d
splits [] a c x d h = in_front c h refl
splits (y ∷ b) a [] x d h = let p : y ∷ b ≡ x ∷ b = cc in let q : d ≡ b ++ a = cc in in_back b p q
splits (y ∷ b) a (z ∷ c) x d h =
    let tail : b ++ a ≡ c ++ (x ∷ d) = cc in
    let same : y ≡ z = cc in
    elim (splits b a c x d tail) [
      | in_back d' p q ↦ let p' : y ∷ b ≡ (z ∷ c) ++ (x ∷ d') = cc in in_back d' p' q
      | in_front a1 p q ↦ let q' : z ∷ c ≡ (y ∷ b) ++ a1 = cc in in_front a1 p q'
    ]

rotated :
    (front back : List User) (x : User)
    → IsStrict (front ++ (x ∷ back))
    → let s = front ++ (x ∷ back) in
      rotate_left (partition_point (before x.0) s) s ≡ (x ∷ back) ++ front
rotated front back x s =
    rw (partition_point-append front back x s) (rotate_left-append front (x ∷ back))

next_turn :
    (a b c : List User) (x : User) (d : List User)
    → IsStrict (a ++ b)
    → Splits b a c x d
    → let s = a ++ b in rotate_left (partition_point (before x.0) s) s ≡ (x ∷ d) ++ c
next_turn a b c x d s (in_back d' p q) =
    let e : a ++ b ≡ (a ++ c) ++ (x ∷ d') = ap (λ t. a ++ t) p ∙ sym (append_assoc a c (x ∷ d')) in
    subst (λ t. rotate_left (partition_point (before x.0) t) t ≡ (x ∷ d) ++ c) (sym e)
      (rotated (a ++ c) d' x (subst IsStrict e s)
        ∙ ap (◌∷◌ x) (sym (append_assoc d' a c) ∙ ap (λ t. t ++ c) (sym q)))
next_turn a b c x d s (in_front a1 p q) =
    let e : a ++ b ≡ a1 ++ (x ∷ (d ++ b)) = ap (λ t. t ++ b) p ∙ append_assoc a1 (x ∷ d) b in
    subst (λ t. rotate_left (partition_point (before x.0) t) t ≡ (x ∷ d) ++ c) (sym e)
      (rotated a1 (d ++ b) x (subst IsStrict e s)
        ∙ ap (◌∷◌ x) (append_assoc d b a1 ∙ ap (λ t. d ++ t) (sym q)))

-- The order of a run is a rotation of the sorted users.
order_rotates :
    (hs_id : String) (users : List User) (inner : UserResumePoints)
    → (a : List User) × (b : List User) × (sort_by by_key users ≡ a ++ b)
      × (order hs_id users inner ≡ b ++ a)
unfolding order
order_rotates hs_id users inner = elim (Option-cases (HashMap.get hs_id inner)) [
  | inl q ↦ (sort_by by_key users, [], sym (append_nil (sort_by by_key users)), rw (order, q) refl)
  | inr (r, q) ↦
      let sorted = sort_by by_key users in
      let n = partition_point (before r) sorted in
      (take n sorted, drop n sorted, sym (take-append-drop n sorted), rw (order, q) refl)
]

order_from :
    (hs_id : String) (users : List User) (inner : UserResumePoints) (r : String)
    → HashMap.get hs_id inner ≡ some r
    → let s = sort_by by_key users in
      order hs_id users inner ≡ rotate_left (partition_point (before r) s) s
unfolding order
order_from hs_id users inner r q = rw (order, q) refl

-- Every user gets its turn. When a run over users with different keys stops after the one at
-- `index` of its order, the stop is recorded, and the next run over the same users goes through
-- them in the same circular order, starting with the user right after that one.
pub order-record_stop_after :
    (hs_id : String) (users : List User) (inner : UserResumePoints) (index : ℕ)
    → IsDistinct users
    → index < length (order hs_id users inner)
    → let o = order hs_id users inner in
      (inner' : UserResumePoints) × (record_stop_after hs_id o index inner ≡ some inner')
      × (order hs_id users inner' ≡ rotate_left ((index + 1) % length o) o)
unfolding record_stop_after
order-record_stop_after hs_id users inner index distinct h =
    let o = order hs_id users inner in
    let k = (index + 1) % length o in
    let (a, b, sorted_is, o_is) = order_rotates hs_id users inner in
    let (c, x, d, e, l, g) = split_at k o (mod-lt (index + 1) (omega (arith, h))) in
    let strict : IsStrict (a ++ b) = subst IsStrict sorted_is (sort-IsStrict users distinct) in
    let turn = next_turn a b c x d strict (splits b a c x d (sym o_is ∙ e)) in
    let inner' = HashMap.insert hs_id x.0 inner in
    let stored : HashMap.get hs_id inner' ≡ some x.0 =
      ground (arith, HashMap.get-insert hs_id hs_id x.0 inner, string_eq.same_iff hs_id hs_id) in
    let from_sorted : order hs_id users inner' ≡ (x ∷ d) ++ c =
      order_from hs_id users inner' x.0 stored
      ∙ ap (λ t. rotate_left (partition_point (before x.0) t) t) sorted_is
      ∙ turn in
    let here : rotate_left k o ≡ (x ∷ d) ++ c =
      ap (λ n. rotate_left n o) (sym l)
      ∙ ap (rotate_left (length c)) e
      ∙ rotate_left-append c (x ∷ d) in
    (inner', rw (record_stop_after, g) refl, from_sorted ∙ sym here)
