-- ===== src/Keyset/Tests.antt =====
-- The keyset scan on small inputs.
use pubky_nexus.Base.{
  ℕ, String, some, List, [], ◌∷◌, ◌++◌, Option, Result, ok, err, Step, and_then, pure, ◌≡◌, ◌+◌,
  refl, arith, length, Elem, Bool-cases, inl, inr, ◌==◌, string_eq, if◌then◌else◌,
}
use pubky_nexus.Base.Order.{str_ord, list_ord, str_leb, list_leb}
use pubky_nexus.Errors.{GraphError}
use pubky_nexus.Keyset.{Details, scan, keyset_scan, keyset_scan_composite, scan_from, after_batch}
use pubky_nexus.Keyset.Ends.{Ended, scan-Ended}
use pubky_nexus.Keyset.Complete.{each, page, last_key, rows_after, scan-each}

abbrev text : {C : Type 0} → Details C
text = record { no_cursor = λ count. "no cursor"; not_advanced = λ cursor next. "behind" }

-- The second batch comes back with a smaller cursor than the first.
abbrev anomaly : String → Step ℕ GraphError (ℕ × Option String)
anomaly cursor w = if cursor == "" then (ok (2, some "b"), w + 1) else (ok (2, some "a"), w + 1)

anomaly_keys :
    (cursor : String) (w count : ℕ) (next : String)
    → (anomaly cursor w).0 ≡ ok (count, some next)
    → Elem next ("a" ∷ "b" ∷ [])
anomaly_keys cursor w count next h = elim (Bool-cases (cursor == "")) [
  | inl q ↦ inr (inl (ground arith))
  | inr q ↦ inl (ground arith)
]

scan-Ended_example :
    (r : Result (Unit {0}) GraphError) × (w : ℕ) × (scan str_ord
        (λ e. e)
        text
        2
        "scan"
        ""
        3
        anomaly
        0
      ≡ (some r, w))
    × Ended str_ord (λ e. e) text 2 "scan" anomaly r w
scan-Ended_example =
    scan-Ended str_ord (λ e. e) text 2 "scan" anomaly "" ("a" ∷ "b" ∷ []) anomaly_keys 0

anomaly_stalls :
    keyset_scan (λ e. e) text 2 "scan" 3 anomaly 0
    ≡ (some (err (GraphError.keyset_scan_stalled "scan" "behind")), 2)
unfolding keyset_scan scan scan_from after_batch str_leb
anomaly_stalls = refl

abbrev rows : List (List String)
rows = ("a" ∷ "x" ∷ []) ∷ ("a" ∷ "y" ∷ []) ∷ ("b" ∷ "x" ∷ []) ∷ []

abbrev collect : List String → Step (List (List String)) GraphError (Unit {0})
collect row w = (ok tt, w ++ (row ∷ []))

abbrev fetch : List String → Step (List (List String)) GraphError (ℕ × Option (List String))
fetch cursor w =
    let batch = page (list_ord str_ord) (λ row. row) 2 rows cursor in
    and_then (each collect batch w)
      (λ _. pure (length batch, last_key (list_ord str_ord) (λ row. row) batch))

scan-each_example :
    let (r, w') = each collect (rows_after (list_ord str_ord) (λ row. row) [] rows) [] in
    scan (list_ord str_ord) (λ e. e) text 2 "scan" [] 4 fetch [] ≡ (some r, w')
unfolding str_leb list_leb
scan-each_example =
    scan-each (list_ord str_ord) (λ e. e) text "scan" (λ row. row) collect rows
      ((refl, (refl, tt)), ((refl, tt), (tt, tt))) 1 fetch (λ cursor w. refl) [] []

two_batches : keyset_scan_composite (λ e. e) text 2 "scan" 2 fetch [] ≡ (some (ok tt), rows)
unfolding keyset_scan_composite scan scan_from after_batch str_leb list_leb
two_batches = refl
