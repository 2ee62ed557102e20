-- ===== src/Keyset/Complete.antt =====
-- A scan over rows that a query pages by their key handles every row beyond the start once.
use pubky_nexus.Base.{
  ℕ, zero, suc, String, Bool, true, false, Option, none, some, List, [], ◌∷◌, ◌++◌, Result, ok, err,
  Step, and_then, pure, ◌+◌, ◌≡◌, ◌<◌, refl, arith, length, filter, take, drop, All, Bool-cases,
  Result-cases, inl, inr, ap, ltb, nat_beq, ◌||◌, take-append-drop, length-take-le,
  length-filter-le, All-map, All-filter, All-take, sym, ◌∙◌,
}
use pubky_nexus.Base.Order.{Ord, lt, lt_trans}
use pubky_nexus.Base.Sort.{IsSorted}
use pubky_nexus.Errors.{GraphError}
use pubky_nexus.Keyset.{Details, after_batch, scan_from, scan}
use pubky_nexus.Keyset.Unroll.{scan_from_fails, scan_from_stops, scan_from_goes_on}

module _ {W E Row : Type 0} (handle : Row → Step W E (Unit {0})) where
  -- All rows in order, up to the first that fails.
  abbrev pub each : List Row → Step W E (Unit {0})
  each [] w = (ok tt, w)
  each (row ∷ rows) w = and_then (handle row w) (λ _. each rows)

  then_each :
      (front back : List Row) (r : Result (Unit {0}) E × W)
      → ((v : W) → each (front ++ back) v ≡ and_then (each front v) (λ _. each back))
      → and_then r (λ _. each (front ++ back))
        ≡ and_then (and_then r (λ _. each front)) (λ _. each back)
  then_each front back (ok x, v) h = h v
  then_each front back (err e, v) h = refl

  pub each-append :
      (front back : List Row) (w : W)
      → each (front ++ back) w ≡ and_then (each front w) (λ _. each back)
  each-append [] back w = refl
  each-append (row ∷ front) back w = then_each front back (handle row w) (each-append front back)

module _ {C Row : Type 0} (ord : Ord C) (key : Row → C) where
  abbrev pub later : Row → Row → Bool
  later a b = lt ord (key a) (key b)

  -- The rows after a cursor, and the key of the last of some rows.
  abbrev pub rows_after : C → List Row → List Row
  rows_after cursor rows = filter (λ row. lt ord cursor (key row)) rows

  abbrev pub last_key : List Row → Option C
  last_key [] = none
  last_key (row ∷ []) = some (key row)
  last_key (row ∷ next ∷ rows) = last_key (next ∷ rows)

  -- What the query of a batch returns, `WHERE key > cursor ORDER BY key LIMIT batch_size`.
  abbrev pub page : ℕ → List Row → C → List Row
  page batch_size rows cursor = take batch_size (rows_after cursor rows)

  All-last_key {κ} :
      (P : C → Type κ) (rows : List Row) (d : C)
      → All (λ row. P (key row)) rows
      → last_key rows ≡ some d
      → P d
  All-last_key P [] d h e = absurd (ground arith)
  All-last_key P (row ∷ []) d h e = let same : key row ≡ d = cc in rw (← same) h.0
  All-last_key P (row ∷ next ∷ rows) d h e = All-last_key P (next ∷ rows) d h.1 e

  -- All rows are kept when all are beyond the cursor.
  rows_after-All :
      (cursor : C) (rows : List Row)
      → All (λ row. lt ord cursor (key row) ≡ true) rows
      → rows_after cursor rows ≡ rows
  rows_after-All cursor [] h = refl
  rows_after-All cursor (row ∷ rows) h = rw h.0 (ap (◌∷◌ row) (rows_after-All cursor rows h.1))

  rows_after-twice :
      (c d : C) (rows : List Row)
      → lt ord c d ≡ true
      → rows_after d (rows_after c rows) ≡ rows_after d rows
  rows_after-twice c d [] h = refl
  rows_after-twice c d (row ∷ rows) h = elim (Bool-cases (lt ord c (key row))) [
    | inl q ↦ rw q (elim (Bool-cases (lt ord d (key row))) [
      | inl p ↦ rw p (ap (◌∷◌ row) (rows_after-twice c d rows h))
      | inr p ↦ rw p (rows_after-twice c d rows h)
    ])
    | inr q ↦
        let p : lt ord d (key row) ≡ false = ground (arith, lt_trans ord c d (key row)) in
        rw (q, p) (rows_after-twice c d rows h)
  ]

  rows_after-IsSorted :
      (cursor : C) (rows : List Row) → IsSorted later rows → IsSorted later (rows_after cursor rows)
  rows_after-IsSorted cursor [] s = tt
  rows_after-IsSorted cursor (row ∷ rows) s = elim (Bool-cases (lt ord cursor (key row))) [
    | inl q ↦ rw q (
      All-map (λ x h. h.0) (rows_after cursor rows)
          (All-filter (λ x. later row x ≡ true) (λ x. lt ord cursor (key x)) rows s.0),
      rows_after-IsSorted cursor rows s.1,
    )
    | inr q ↦ rw q (rows_after-IsSorted cursor rows s.1)
  ]

  -- The rows after the last of a page are those that the page left out.
  rows_after-last_key :
      (n : ℕ) (rows : List Row) (d : C)
      → IsSorted later rows
      → length (take (suc n) rows) ≡ suc n
      → last_key (take (suc n) rows) ≡ some d
      → rows_after d rows ≡ drop (suc n) rows
  rows_after-last_key n [] d s e l = absurd (ground arith)
  rows_after-last_key zero (row ∷ rows) d s e l =
      let same : key row ≡ d = cc in
      let p : lt ord d (key row) ≡ false = ground (arith, ord.total d d) in
      rw p (rows_after-All d rows (rw same at s.0))
  rows_after-last_key (suc n) (row ∷ []) d s e l = absurd (ground arith)
  rows_after-last_key (suc n) (row ∷ next ∷ rows) d s e l =
      let up : lt ord (key row) d ≡ true =
        All-last_key (λ x. lt ord (key row) x ≡ true) (take (suc n) (next ∷ rows)) d
          (All-take (λ x. later row x ≡ true) (suc n) (next ∷ rows) s.0) l in
      let p : lt ord d (key row) ≡ false = ground (arith, ord.total d (key row)) in
      rw p (rows_after-last_key n (next ∷ rows) d s.1 (omega (arith, e)) l)

  last_key-some :
      (rows : List Row) → nat_beq (length rows) 0 ≡ false → (d : C) × (last_key rows ≡ some d)
  last_key-some [] h = absurd (ground arith)
  last_key-some (row ∷ []) h = (key row, refl)
  last_key-some (row ∷ next ∷ rows) h = last_key-some (next ∷ rows) (ground arith)

  -- The key of the last row of a page is beyond the cursor.
  page-last_key :
      (n : ℕ) (rows : List Row) (cursor d : C)
      → last_key (page n rows cursor) ≡ some d
      → lt ord cursor d ≡ true
  page-last_key n rows cursor d h =
      All-last_key (λ x. lt ord cursor x ≡ true) (page n rows cursor) d
        (All-take (λ x. lt ord cursor (key x) ≡ true) n (rows_after cursor rows)
          (All-map (λ x p. p.1) (rows_after cursor rows)
            (All-filter (λ x. Unit) (λ x. lt ord cursor (key x)) rows (All-unit rows))))
        h
    where
      All-unit : (rows : List Row) → All (λ x. Unit {0}) rows
      All-unit [] = tt
      All-unit (row ∷ rows) = (tt, All-unit rows)

drop-short :
    {A : Type 0} (n : ℕ) (rows : List A) → ltb (length (take n rows)) n ≡ true → drop n rows ≡ []
drop-short zero rows h = absurd (ground arith)
drop-short (suc n) [] h = refl
drop-short (suc n) (row ∷ rows) h = drop-short n rows (ground arith)

drop-full :
    {A : Type 0} (n : ℕ) (rows : List A)
    → length (take n rows) ≡ n
    → length rows ≡ n + length (drop n rows)
drop-full zero rows h = omega arith
drop-full (suc n) [] h = absurd (ground arith)
drop-full (suc n) (row ∷ rows) h = omega (arith, drop-full n rows (omega (arith, h)))

module _ {W E C Row : Type 0} (ord : Ord C) (key : Row → C) (handle : Row → Step W E (Unit {0}))
    (rows : List Row) (batch_size : ℕ) where
  -- A batch: the query's rows are handled one after the other, then counted.
  abbrev pub Pages : (C → Step W E (ℕ × Option C)) → Type 0
  Pages step =
      (cursor : C) (w : W)
      → let rows = page ord key batch_size rows cursor in
        step cursor w
        ≡ and_then (each handle rows w) (λ _. pure (length rows, last_key ord key rows))

module _ {W E C Row : Type 0} (ord : Ord C) (from : GraphError → E) (text : Details C)
    (context : String) (key : Row → C) (handle : Row → Step W E (Unit {0})) (rows : List Row)
    (sorted : IsSorted (later ord key) rows) where
  -- A page that is not short leaves the rows after its last key.
  full_page :
      (n : ℕ) (cursor : C)
      → let rows1 = page ord key (suc n) rows cursor in
        nat_beq (length rows1) 0 || ltb (length rows1) (suc n) ≡ false
        → (next : C) × (last_key ord key rows1 ≡ some next)
          × (ord.le next cursor ≡ false)
          × (rows_after ord key next rows ≡ drop (suc n) (rows_after ord key cursor rows))
          × (length (rows_after ord key next rows) < length (rows_after ord key cursor rows))
  full_page n cursor h =
      let left = rows_after ord key cursor rows in
      let exact : length (take (suc n) left) ≡ suc n =
        ground (arith, length-take-le (suc n) left) in
      let (next, l) = last_key-some ord key (page ord key (suc n) rows cursor) (ground arith) in
      let up = page-last_key ord key (suc n) rows cursor next l in
      let rest : rows_after ord key next rows ≡ drop (suc n) left =
        sym (rows_after-twice ord key cursor next rows up)
        ∙ rows_after-last_key ord key n left next (rows_after-IsSorted ord key cursor rows sorted)
            exact l in
      (next, l, ground arith, rest, rw rest (omega (arith, drop-full (suc n) left exact)))

  scan_from-each :
      (n : ℕ) (step : C → Step W E (ℕ × Option C))
      → Pages ord key handle rows (suc n) step
      → (fuel : ℕ) (cursor : C) (w : W) → length (rows_after ord key cursor rows) < fuel
      → let (r, w') = each handle (rows_after ord key cursor rows) w in
        scan_from ord from text (suc n) context fuel step cursor w ≡ (some r, w')
  unfolding after_batch
  scan_from-each n step pages zero cursor w h = absurd (omega arith)
  scan_from-each n step pages (suc fuel) cursor w h =
      elim (Result-cases (each handle (take (suc n) left) w).0) [
        | inr (e, q) ↦
            let failed : each handle (take (suc n) left) w ≡ (err e, v) = ap (λ x. (x, v)) q in
            scan_from_fails ord from text (suc n) context step fuel cursor w v e
              (pages cursor w ∙ ap (λ p. and_then p (λ _. pure counted)) failed)
            ∙ sym (
                ap (λ p. (some p.0, p.1))
                  (whole ∙ ap (λ p. and_then p (λ _. each handle (drop (suc n) left))) failed))
        | inl (_, q) ↦
            let done : each handle (take (suc n) left) w ≡ (ok tt, v) = ap (λ x. (x, v)) q in
            let batch : step cursor w ≡ (ok counted, v) =
              pages cursor w ∙ ap (λ p. and_then p (λ _. pure counted)) done in
            let rest : each handle left w ≡ each handle (drop (suc n) left) v =
              whole ∙ ap (λ p. and_then p (λ _. each handle (drop (suc n) left))) done in
            elim (Bool-cases (
              nat_beq (length (take (suc n) left)) 0 || ltb (length (take (suc n) left)) (suc n))) [
                | inl short ↦
                    let nil : drop (suc n) left ≡ [] = drop-short (suc n) left (ground arith) in
                    scan_from_stops ord from text (suc n) context step fuel cursor w v _ (ok tt)
                      batch (rw (after_batch, short) refl)
                    ∙ sym (ap (λ p. (some p.0, p.1)) (rest ∙ ap (λ l. each handle l v) nil))
                | inr full ↦
                    let (next, l, up, same, less) = full_page n cursor full in
                    scan_from_goes_on ord from text (suc n) context step fuel cursor w v _ next
                      batch (rw (after_batch, full, l, up) refl)
                    ∙ scan_from-each n step pages fuel next v (omega (arith, less))
                    ∙ sym (ap (λ p. (some p.0, p.1)) (rest ∙ ap (λ l. each handle l v) (sym same)))
              ]
      ]
    where
      left : List Row
      left = rows_after ord key cursor rows

      counted : ℕ × Option C
      counted = (length (take (suc n) left), last_key ord key (take (suc n) left))

      v : W
      v = (each handle (take (suc n) left) w).1

      whole :
          each handle left w
          ≡ and_then (each handle (take (suc n) left) w) (λ _. each handle (drop (suc n) left))
      whole =
          ap (λ l. each handle l w) (sym (take-append-drop (suc n) left))
          ∙ each-append handle (take (suc n) left) (drop (suc n) left) w

  -- A scan misses no row and handles none twice: when the rows have rising keys, and a batch of at
  -- least one row is what the query returns, handled row by row, the scan does what handling all
  -- rows beyond the start in order does, up to the first that fails, and it never stalls. One more
  -- batch than there are rows is enough.
  pub scan-each :
      (n : ℕ) (step : C → Step W E (ℕ × Option C))
      → Pages ord key handle rows (suc n) step
      → (start : C) (w : W)
      → let (r, w') = each handle (rows_after ord key start rows) w in
        scan ord from text (suc n) context start (suc (length rows)) step w ≡ (some r, w')
  unfolding scan
  scan-each n step pages start w =
      scan_from-each n step pages (suc (length rows)) start w
        (omega (arith, length-filter-le (λ row. lt ord start (key row)) rows))
