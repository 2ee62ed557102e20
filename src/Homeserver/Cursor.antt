-- ===== src/Homeserver/Cursor.antt =====
-- The stored cursor of a homeserver never goes back.
use pubky_nexus.Base.{
  ℕ, String, Option, none, some, Result, ok, err, ◌≡◌, ◌⊎◌, inl, inr, ◌≤◌, ◌==◌, string_eq, refl,
  arith, ◌∙◌, Option-cases, and_then, Result-cases, Bool-cases, subst, ltb,
}
use pubky_nexus.Errors.{RedisError, ModelError, ensure_cursor_not_backwards}
use pubky_nexus.Homeserver.{
  Homeserver, CursorIndex, Unmoved, Stored, cursor_in, check_stored, validate_cursor_change,
  put_to_index, try_from_cursor, parse_u64,
}

-- A cursor that was stored is still stored, and not behind.
abbrev pub AtLeast : Option ℕ → Option ℕ → Type 0
AtLeast none b = Unit
AtLeast (some a) none = ⊥
AtLeast (some a) (some b) = a ≤ b

pub AtLeast-refl : (a : Option ℕ) → AtLeast a a
AtLeast-refl none = tt
AtLeast-refl (some a) = omega arith

module _ {W : Type 0} (index : CursorIndex W) where
  open index use {cursor_of, get_from_index}

  check_stored_ok :
      (c : ℕ) (r : Result (Option Homeserver) RedisError) (o : Option ℕ)
      → ((h : Option Homeserver) → r ≡ ok h → cursor_in h ≡ o)
      → check_stored index c r ≡ ok tt
      → AtLeast o (some c)
  unfolding check_stored ensure_cursor_not_backwards
  check_stored_ok c (err e) o k h = absurd (ground arith)
  check_stored_ok c (ok none) o k h = subst (λ x. AtLeast x (some c)) (k none refl) tt
  check_stored_ok c (ok (some s)) o k h =
      subst (λ x. AtLeast x (some c)) (k (some s) refl)
        (elim (Bool-cases (ltb c s.cursor)) [
          | inl q ↦ absurd (ground arith)
          | inr q ↦ ground arith
        ])

  -- What an accepted change says of the stored cursor.
  pub validate_cursor_change-AtLeast :
      (id : String) (c : ℕ) (w : W)
      → (validate_cursor_change index id c w).0 ≡ ok tt
      → AtLeast (cursor_of id w) (some c)
  unfolding validate_cursor_change
  validate_cursor_change-AtLeast id c w h =
      check_stored_ok c (get_from_index id w).0 (cursor_of id w) (λ o q. index.get_ok id w o q) h

  pub validate_cursor_change-Unmoved :
      (id : String) (c : ℕ) (w : W) → Unmoved cursor_of w (validate_cursor_change index id c w).1
  unfolding validate_cursor_change
  validate_cursor_change-Unmoved id c w = index.get_acts id w

  Stored-AtLeast :
      (h : Homeserver) (w w' : W)
      → AtLeast (cursor_of h.id w) (some h.cursor)
      → Stored cursor_of h w w'
      → (j : String) → AtLeast (cursor_of j w) (cursor_of j w')
  Stored-AtLeast h w w' k s j = elim (Bool-cases (h.id == j)) [
    | inl q ↦
        let same : h.id ≡ j = (string_eq.same_iff h.id j).0 q in
        let stored : cursor_of j w' ≡ some h.cursor = ground (arith, s j) in
        rw stored (subst (λ x. AtLeast (cursor_of x w) (some h.cursor)) same k)
    | inr q ↦
        let kept : cursor_of j w' ≡ cursor_of j w = ground (arith, s j) in
        rw kept (AtLeast-refl (cursor_of j w))
  ]

  Unmoved-AtLeast :
      (w w' : W) → Unmoved cursor_of w w' → (j : String) → AtLeast (cursor_of j w) (cursor_of j w')
  Unmoved-AtLeast w w' u j = rw (u j) (AtLeast-refl (cursor_of j w))

  put-AtLeast :
      (h : Homeserver) (w : W) (j : String)
      → AtLeast (cursor_of h.id w) (some h.cursor)
      → AtLeast (cursor_of j w) (cursor_of j (index.put_index_json h w).1)
  put-AtLeast h w j k = elim (index.put_acts h w) [
    | inl u ↦ Unmoved-AtLeast w (index.put_index_json h w).1 u j
    | inr s ↦ Stored-AtLeast h w (index.put_index_json h w).1 k s j
  ]

  then_put :
      (h : Homeserver) (w v : W) (r : Result (Unit {0}) RedisError) (j : String)
      → Unmoved cursor_of w v
      → (r ≡ ok tt → AtLeast (cursor_of h.id w) (some h.cursor))
      → AtLeast (cursor_of j w) (cursor_of j (and_then (r, v) (λ _. index.put_index_json h)).1)
  then_put h w v (err e) j u k = Unmoved-AtLeast w v u j
  then_put h w v (ok x) j u k =
      let at_v : AtLeast (cursor_of h.id v) (some h.cursor) = rw (u h.id) (k refl) in
      rw (← u j) (put-AtLeast h v j at_v)

  then_stored :
      (h : Homeserver) (v : W) (r : Result (Unit {0}) RedisError)
      → (and_then (r, v) (λ _. index.put_index_json h)).0 ≡ ok tt
      → cursor_of h.id (and_then (r, v) (λ _. index.put_index_json h)).1 ≡ some h.cursor
  then_stored h v (err e) q = absurd (ground arith)
  then_stored h v (ok x) q = ground (arith, index.put_ok h v q h.id, string_eq.same_iff h.id h.id)

  -- Whatever a write of a homeserver does, and whether it succeeds or fails, no stored cursor of
  -- any homeserver goes back or is lost; and if it succeeds, the cursor is stored as given.
  pub put_to_index-AtLeast :
      (h : Homeserver) (w : W)
      → ((j : String) → AtLeast (cursor_of j w) (cursor_of j (put_to_index index h w).1))
        × ((put_to_index index h w).0 ≡ ok tt
            → cursor_of h.id (put_to_index index h w).1 ≡ some h.cursor)
  unfolding put_to_index
  put_to_index-AtLeast h w = (
    (λ j.
        then_put h w (validate_cursor_change index h.id h.cursor w).1
          (validate_cursor_change index h.id h.cursor w).0 j
          (validate_cursor_change-Unmoved h.id h.cursor w)
          (validate_cursor_change-AtLeast h.id h.cursor w)),
    then_stored h (validate_cursor_change index h.id h.cursor w).1
        (validate_cursor_change index h.id h.cursor w).0,
  )

  then_put_moves :
      (h : Homeserver) (w v : W) (r : Result (Unit {0}) RedisError)
      → Unmoved cursor_of w v
      → let w' = (and_then (r, v) (λ _. index.put_index_json h)).1 in
        (cursor_of h.id w' ≡ cursor_of h.id w) ⊎ (cursor_of h.id w' ≡ some h.cursor)
  then_put_moves h w v (err e) u = inl (u h.id)
  then_put_moves h w v (ok x) u = elim (index.put_acts h v) [
    | inl same ↦ inl (same h.id ∙ u h.id)
    | inr s ↦ inr (ground (arith, s h.id, string_eq.same_iff h.id h.id))
  ]

  pub put_to_index_moves :
      (h : Homeserver) (w : W)
      → let w' = (put_to_index index h w).1 in
        (cursor_of h.id w' ≡ cursor_of h.id w) ⊎ (cursor_of h.id w' ≡ some h.cursor)
  unfolding put_to_index
  put_to_index_moves h w =
      then_put_moves h w (validate_cursor_change index h.id h.cursor w).1
        (validate_cursor_change index h.id h.cursor w).0
        (validate_cursor_change-Unmoved h.id h.cursor w)

  -- What `try_from_cursor` answers: a homeserver with the cursor that the text spells.
  abbrev pub Parsed : String → String → W → Result Homeserver ModelError → Type 0
  Parsed id raw w (err e) = Unit
  Parsed id raw w (ok h) =
      (h.id ≡ id) × (parse_u64 raw ≡ some h.cursor) × AtLeast (cursor_of id w) (some h.cursor)

  pub try_from_cursor-Parsed :
      (id raw : String) (w : W)
      → Parsed id raw w (try_from_cursor index id raw w).0
        × Unmoved cursor_of w (try_from_cursor index id raw w).1
  unfolding try_from_cursor
  try_from_cursor-Parsed id raw w = elim (Option-cases (parse_u64 raw)) [
    | inl q ↦ rw (Parsed, try_from_cursor, q) (tt, λ j. refl)
    | inr (c, q) ↦ elim (Result-cases (validate_cursor_change index id c w).0) [
      | inl (_, e) ↦
          rw (Parsed, try_from_cursor, q, e)
            (
              (refl, q, validate_cursor_change-AtLeast id c w e),
              validate_cursor_change-Unmoved id c w,
            )
      | inr (x, e) ↦ rw (Parsed, try_from_cursor, q, e) (tt, validate_cursor_change-Unmoved id c w)
    ]
  ]
