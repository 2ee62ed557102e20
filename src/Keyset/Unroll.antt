-- ===== src/Keyset/Unroll.antt =====
-- One round of the scan, by what its batch gives.
use pubky_nexus.Base.{ℕ, suc, String, Option, some, Result, ok, err, Step, ◌≡◌, ap}
use pubky_nexus.Base.Order.{Ord}
use pubky_nexus.Errors.{GraphError}
use pubky_nexus.Keyset.{Details, after_batch, scan_from}

module _ {W E C : Type 0} (ord : Ord C) (from : GraphError → E) (text : Details C) (batch_size : ℕ)
    (context : String) (step : C → Step W E (ℕ × Option C)) where
  pub scan_from_fails :
      (fuel : ℕ) (cursor : C) (w v : W) (e : E)
      → step cursor w ≡ (err e, v)
      → scan_from ord from text batch_size context (suc fuel) step cursor w ≡ (some (err e), v)
  unfolding scan_from
  scan_from_fails fuel cursor w v e h =
      rw (scan_from, ap (λ p. p.0) h) (ap (λ p. (some (err e), p.1)) h)

  pub scan_from_stops :
      (fuel : ℕ) (cursor : C) (w v : W) (batch : ℕ × Option C) (r : Result (Unit {0}) E)
      → step cursor w ≡ (ok batch, v)
      → after_batch ord from text batch_size context cursor batch ≡ err r
      → scan_from ord from text batch_size context (suc fuel) step cursor w ≡ (some r, v)
  unfolding scan_from
  scan_from_stops fuel cursor w v batch r h q =
      rw (scan_from, ap (λ p. p.0) h, q) (ap (λ p. (some r, p.1)) h)

  pub scan_from_goes_on :
      (fuel : ℕ) (cursor : C) (w v : W) (batch : ℕ × Option C) (next : C)
      → step cursor w ≡ (ok batch, v)
      → after_batch ord from text batch_size context cursor batch ≡ ok next
      → scan_from ord from text batch_size context (suc fuel) step cursor w
        ≡ scan_from ord from text batch_size context fuel step next v
  unfolding scan_from
  scan_from_goes_on fuel cursor w v batch next h q =
      rw (scan_from, ap (λ p. p.0) h, q)
        (ap (λ p. scan_from ord from text batch_size context fuel step next p.1) h)
