-- ===== src/Keyset/Ends.antt =====
-- The scan ends, whatever its batches are.
use pubky_nexus.Base.{
  ℕ, zero, suc, String, Bool, true, false, Option, none, some, List, [], ◌∷◌, Result, ok, err, Step,
  ◌≡◌, ◌⊎◌, ◌≤◌, ◌<◌, ◌∙◌, refl, arith, length, length-filter-le, filter, Elem, Bool-cases,
  Result-cases, inl, inr, ap, ltb, nat_beq, ◌||◌, subst,
}
use pubky_nexus.Base.Order.{Ord, lt, lt_trans}
use pubky_nexus.Errors.{GraphError}
use pubky_nexus.Keyset.{Details, stalled, after_batch, scan_from, scan}
use pubky_nexus.Keyset.Unroll.{scan_from_fails, scan_from_stops, scan_from_goes_on}

module _ {C : Type 0} (ord : Ord C) where
  -- How many of the keys are beyond a cursor.
  abbrev pub beyond : C → List C → ℕ
  beyond cursor keys = length (filter (λ k. lt ord cursor k) keys)

  beyond-le : (a b : C) (keys : List C) → lt ord a b ≡ true → beyond b keys ≤ beyond a keys
  beyond-le a b [] h = omega arith
  beyond-le a b (k ∷ keys) h = ground (arith, beyond-le a b keys h, lt_trans ord a b k h)

  pub beyond-lt :
      (a b : C) (keys : List C) → lt ord a b ≡ true → Elem b keys → beyond b keys < beyond a keys
  beyond-lt a b [] h m = elim m [ ]
  beyond-lt a b (k ∷ keys) h (inl e) =
      subst (λ x. beyond b (x ∷ keys) < beyond a (x ∷ keys)) e
        (ground (arith, beyond-le a b keys h, ord.total b b))
  beyond-lt a b (k ∷ keys) h (inr m) = ground (arith, beyond-lt a b keys h m, lt_trans ord a b k h)

-- How a scan came to its end, in the world `w`: a batch was short, a batch failed, or a full batch
-- gave no cursor beyond the one it was asked for.
module _ {W E C : Type 0} (ord : Ord C) (from : GraphError → E) (text : Details C) (batch_size : ℕ)
    (context : String) (step : C → Step W E (ℕ × Option C)) where
  abbrev pub is_short : ℕ → Bool
  is_short count = nat_beq count 0 || ltb count batch_size

  abbrev pub IsStuck : C → Option C → Type 0
  IsStuck cursor none = Unit
  IsStuck cursor (some next) = ord.le next cursor ≡ true

  abbrev pub Ended : Result (Unit {0}) E → W → Type 0
  Ended (ok _) w =
      (cursor : C) × (v : W) × (count : ℕ) × (last : Option C) × (step cursor v
        ≡ (ok (count, last), w))
      × (is_short count ≡ true)
  Ended (err e) w =
      (cursor : C) × (v : W) × ((step cursor v ≡ (err e, w))
        ⊎ ((count : ℕ) × (last : Option C) × (detail : String) × (step cursor v
              ≡ (ok (count, last), w))
            × (is_short count ≡ false)
            × IsStuck cursor last
            × (e ≡ from (GraphError.keyset_scan_stalled context detail))))

  -- The three ways in which `after_batch` decides.
  after_batch-cases :
      (cursor : C) (v w : W) (count : ℕ) (last : Option C)
      → step cursor v ≡ (ok (count, last), w)
      → ((r : Result (Unit {0}) E) × (after_batch ord from text batch_size context cursor
              (count, last)
            ≡ err r)
          × Ended r w)
        ⊎ ((next : C) × (last ≡ some next)
            × (lt ord cursor next ≡ true)
            × (after_batch ord from text batch_size context cursor (count, last) ≡ ok next))
  unfolding after_batch stalled
  after_batch-cases cursor v w count last h = elim (Bool-cases (is_short count)) [
    | inl q ↦ inl (ok tt, rw q refl, (cursor, v, count, last, h, q))
    | inr q ↦ decide last h q
  ]
    where
      decide :
          (last : Option C)
          → step cursor v ≡ (ok (count, last), w)
          → is_short count ≡ false
          → ((r : Result (Unit {0}) E) × (after_batch ord from text batch_size context cursor
                  (count, last)
                ≡ err r)
              × Ended r w)
            ⊎ ((next : C) × (last ≡ some next)
                × (lt ord cursor next ≡ true)
                × (after_batch ord from text batch_size context cursor (count, last) ≡ ok next))
      decide none h q = inl (
        err (stalled from context (text.no_cursor count)),
        rw (after_batch, q) refl,
        (cursor, v, inr (count, none, _, h, q, tt, refl)),
      )
      decide (some next) h q = elim (Bool-cases (ord.le next cursor)) [
        | inl p ↦ inl (
          err (stalled from context (text.not_advanced cursor next)),
          rw (after_batch, q, p) refl,
          (cursor, v, inr (count, some next, _, h, q, p, refl)),
        )
        | inr p ↦ inr (next, refl, rw p refl, rw (after_batch, q, p) refl)
      ]

  scan_from-Ended :
      (keys : List C)
      → ((cursor : C) (v : W) (count : ℕ) (next : C)
          → (step cursor v).0 ≡ ok (count, some next)
          → Elem next keys)
      → (fuel : ℕ) (cursor : C) (v : W) → beyond ord cursor keys < fuel
      → (r : Result (Unit {0}) E) × (w : W) × (scan_from ord from text batch_size context fuel step
            cursor v
          ≡ (some r, w))
        × Ended r w
  scan_from-Ended keys k zero cursor v h = absurd (omega arith)
  scan_from-Ended keys k (suc fuel) cursor v h = elim (Result-cases (step cursor v).0) [
    | inr (e, q) ↦
        let w = (step cursor v).1 in
        let failed : step cursor v ≡ (err e, w) = ap (λ x. (x, w)) q in
        (
          err e,
          w,
          scan_from_fails ord from text batch_size context step fuel cursor v w e failed,
          (cursor, v, inl failed),
        )
    | inl ((count, last), q) ↦
        let w = (step cursor v).1 in
        let done : step cursor v ≡ (ok (count, last), w) = ap (λ x. (x, w)) q in
        elim (after_batch-cases cursor v w count last done) [
          | inl (r, p, e) ↦ (
            r,
            w,
            scan_from_stops ord from text batch_size context step fuel cursor v w _ r done p,
            e,
          )
          | inr (next, l, up, p) ↦
              let found = k cursor v count next (rw (← l) q) in
              let (r, w', e, ended) =
                scan_from-Ended keys k fuel next w
                  (omega (arith, h, beyond-lt ord cursor next keys up found)) in
              (
                r,
                w',
                scan_from_goes_on ord from text batch_size context step fuel cursor v w _ next done
                      p
                    ∙ e,
                ended,
              )
        ]
  ]

  -- However its batches come out, a scan ends: when the cursors that the batches return are among
  -- `n` keys, `n + 1` batches are enough. It ends well only after a batch that was short; it fails
  -- only with the error of a batch, or with a stall after a batch that was not short and gave no
  -- cursor beyond the one it was asked for.
  pub scan-Ended :
      (start : C) (keys : List C)
      → ((cursor : C) (v : W) (count : ℕ) (next : C)
          → (step cursor v).0 ≡ ok (count, some next)
          → Elem next keys)
      → (v : W)
      → (r : Result (Unit {0}) E) × (w : W) × (scan ord from text batch_size context start
            (suc (length keys))
            step
            v
          ≡ (some r, w))
        × Ended r w
  unfolding scan
  scan-Ended start keys k v =
      scan_from-Ended keys k (suc (length keys)) start v
        (omega (arith, length-filter-le (λ k. lt ord start k) keys))
