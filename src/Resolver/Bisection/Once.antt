-- ===== src/Resolver/Bisection/Once.antt =====
-- The bisection order has every key once.
use mathlib.Core.List.{Perm, perm_append_comm, perm_middle}
use mathlib.Core.List.Perm as Perm
use pubky_nexus.Base.{
  ℕ, zero, suc, Bool, true, some, List, [], ◌∷◌, ◌++◌, ok, ◌+◌, ◌-◌, ◌/◌, ◌*◌, leb, length,
  get_elem?, take, drop, ◌≡◌, ◌≤◌, ◌<◌, refl, arith, ap, All, All-append, Bool-cases, inl, inr,
  append_assoc, append_nil, subst, sym, ◌∙◌,
}
use pubky_nexus.Base.Sort.{sort_by, sort_by-Perm, length-sort_by}
use pubky_nexus.Resolver.Bisection.{bisect, whole, bisection_order_user_pks}

-- The work that a queue of intervals stands for.
work : List (ℕ × ℕ) → ℕ
work [] = 0
work ((lo, hi) ∷ queue) = (hi - lo) * 2 + 1 + work queue

work-append : (front back : List (ℕ × ℕ)) → work (front ++ back) ≡ work front + work back
unfolding work
work-append [] back = omega arith
work-append ((lo, hi) ∷ front) back = omega (arith, work-append front back)

one_more : (n : ℕ) → suc n ≡ n + 1
one_more n = omega arith

work-whole : (n : ℕ) → work (whole n) ≤ n * 2 + 1
unfolding work
work-whole zero = omega arith
work-whole (suc n) = omega arith

module _ {PublicKey : Type 0} where
  slice : List PublicKey → ℕ × ℕ → List PublicKey
  slice pks (lo, hi) = take (hi - lo) (drop lo pks)

  slices : List PublicKey → List (ℕ × ℕ) → List PublicKey
  slices pks [] = []
  slices pks (i ∷ queue) = slice pks i ++ slices pks queue

  slices-append :
      (pks : List PublicKey) (front back : List (ℕ × ℕ))
      → slices pks (front ++ back) ≡ slices pks front ++ slices pks back
  unfolding slices
  slices-append pks [] back = refl
  slices-append pks (i ∷ front) back =
      ap (λ l. slice pks i ++ l) (slices-append pks front back)
      ∙ sym (append_assoc (slice pks i) (slices pks front) (slices pks back))

  -- A stretch of a list, split at one of its elements.
  split_at :
      (lo a b c mid : ℕ) (pks : List PublicKey)
      → mid ≡ lo + a
      → c ≡ suc (a + b)
      → mid < length pks
      → (pk : PublicKey) × (get_elem? pks mid ≡ some pk)
        × (take c (drop lo pks) ≡ take a (drop lo pks) ++ (pk ∷ take b (drop (suc mid) pks)))
  split_at lo a b c mid [] m s h = absurd (omega (arith, h))
  split_at lo a b zero mid (x ∷ pks) m s h = absurd (omega (arith, s))
  split_at (suc lo) a b (suc c) zero (x ∷ pks) m s h = absurd (omega (arith, m))
  split_at (suc lo) a b (suc c) (suc mid) (x ∷ pks) m s h =
      split_at lo a b (suc c) mid pks (omega (arith, m)) s (omega (arith, h))
  split_at zero zero b (suc c) zero (x ∷ pks) m s h =
      let same : c ≡ b = omega (arith, s) in (x, refl, rw same refl)
  split_at zero zero b (suc c) (suc mid) (x ∷ pks) m s h = absurd (omega (arith, m))
  split_at zero (suc a) b (suc c) zero (x ∷ pks) m s h = absurd (omega (arith, m))
  split_at zero (suc a) b (suc c) (suc mid) (x ∷ pks) m s h =
      let (pk, e, p) =
        split_at zero a b c mid pks (omega (arith, m)) (omega (arith, s)) (omega (arith, h)) in
      (pk, e, ap (◌∷◌ x) p)

  -- An interval, split at its middle.
  slice_middle :
      (pks : List PublicKey) (lo hi : ℕ)
      → lo < hi
      → hi ≤ length pks
      → let mid = lo + (hi - lo) / 2 in
        (pk : PublicKey) × (get_elem? pks mid ≡ some pk)
        × (slice pks (lo, hi) ≡ slice pks (lo, mid) ++ (pk ∷ slice pks (mid + 1, hi)))
  unfolding slice
  slice_middle pks lo hi less bound =
      let mid = lo + (hi - lo) / 2 in
      let (pk, e, s) =
        split_at lo (mid - lo) (hi - (mid + 1)) (hi - lo) mid pks (omega arith) (omega arith)
          (omega arith) in
      (
        pk,
        e,
        subst
            (λ next.
              take (hi - lo) (drop lo pks)
              ≡ take (mid - lo) (drop lo pks) ++ (pk ∷ take (hi - (mid + 1)) (drop next pks)))
            (one_more mid) s,
      )

  take-length : (pks : List PublicKey) → take (length pks) pks ≡ pks
  take-length [] = refl
  take-length (pk ∷ pks) = ap (◌∷◌ pk) (take-length pks)

  slice_none : (pks : List PublicKey) (lo hi : ℕ) → leb hi lo ≡ true → slice pks (lo, hi) ≡ []
  unfolding slice
  slice_none pks lo hi h = let none_left : hi - lo ≡ 0 = ground arith in rw none_left refl

  -- The keys found so far with those that are still to come, before and after a round.
  swap_middle :
      (pks found : List PublicKey) (queue : List (ℕ × ℕ)) (left right whole : List PublicKey)
      (pk : PublicKey)
      → whole ≡ left ++ (pk ∷ right)
      → Perm
          ((found ++ (pk ∷ [])) ++ (slices pks queue ++ (left ++ (right ++ []))))
          (found ++ (whole ++ slices pks queue))
  swap_middle pks found queue left right whole pk e =
      rw (append_nil right, append_assoc found (pk ∷ []) (slices pks queue ++ (left ++ right)), e)
        (Perm.append_left found (
          Perm.trans (Perm.cons pk (perm_append_comm (slices pks queue) (left ++ right)))
            (Perm.append_right (slices pks queue) (Perm.symm (perm_middle left right)))))

  IsWithin : List PublicKey → ℕ × ℕ → Type 0
  IsWithin pks (lo, hi) = hi ≤ length pks

  bisect-Perm :
      (pks : List PublicKey) (fuel : ℕ) (queue : List (ℕ × ℕ)) (found : List PublicKey)
      → All (IsWithin pks) queue
      → work queue < fuel
      → (out : List PublicKey) × (bisect fuel pks queue found ≡ some (ok out))
        × Perm out (found ++ slices pks queue)
  unfolding bisect work slices IsWithin
  bisect-Perm pks zero queue found k h = absurd (omega (arith, h))
  bisect-Perm pks (suc fuel) [] found k h = (found, refl, rw (append_nil found) (Perm.refl found))
  bisect-Perm pks (suc fuel) ((lo, hi) ∷ queue) found k h = elim (Bool-cases (leb hi lo)) [
    | inl q ↦
        let (out, e, p) = bisect-Perm pks fuel queue found k.1 (omega (arith, h)) in
        (
          out,
          rw (bisect, q) e,
          subst (λ l. Perm out (found ++ (l ++ slices pks queue))) (sym (slice_none pks lo hi q)) p,
        )
    | inr q ↦
        let mid = lo + (hi - lo) / 2 in
        let (pk, at_mid, s) = slice_middle pks lo hi (ground arith) k.0 in
        let halves = (lo, mid) ∷ (mid + 1, hi) ∷ [] in
        let (out, e, p) =
          bisect-Perm pks fuel (queue ++ halves) (found ++ (pk ∷ []))
            (All-append (IsWithin pks) queue halves k.1 (ground (arith, k.0), (k.0, tt)))
            (ground (arith, work-append queue halves)) in
        (
          out,
          rw (bisect, q, at_mid) e,
          Perm.trans
              (subst (λ l. Perm out ((found ++ (pk ∷ [])) ++ l)) (slices-append pks queue halves) p)
              (swap_middle pks found queue (slice pks (lo, mid)) (slice pks (mid + 1, hi))
                (slice pks (lo, hi)) pk s),
        )
  ]

  whole-IsWithin : (pks : List PublicKey) → All (IsWithin pks) (whole (length pks))
  unfolding IsWithin
  whole-IsWithin [] = tt
  whole-IsWithin (pk ∷ pks) = (omega arith, tt)

  slices-whole : (pks : List PublicKey) → slices pks (whole (length pks)) ≡ pks
  unfolding slices slice
  slices-whole [] = refl
  slices-whole (pk ∷ pks) =
      let same : suc (length pks) - 0 ≡ suc (length pks) = omega arith in
      rw (same, append_nil (take (length pks) pks), take-length pks) refl

  -- `bisection_order_user_pks` looks every key up once: it never indexes out of bounds, `2 n + 2`
  -- rounds are enough for `n` keys, and its answer has the given keys, each as often as it was given.
  pub bisection_order_user_pks-Perm :
      (le : PublicKey → PublicKey → Bool) (pks : List PublicKey)
      → (out : List PublicKey) × (bisection_order_user_pks le (length pks * 2 + 2) pks
          ≡ some (ok out))
        × Perm out pks
  unfolding bisection_order_user_pks
  bisection_order_user_pks-Perm le pks =
      let sorted = sort_by le pks in
      let (out, e, p) =
        bisect-Perm sorted (length pks * 2 + 2) (whole (length sorted)) [] (whole-IsWithin sorted)
          (omega (arith, work-whole (length sorted), length-sort_by le pks)) in
      (out, e, Perm.trans (rw (slices-whole sorted) at p) (sort_by-Perm le pks))
