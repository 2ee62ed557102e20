-- ===== src/Retry/Backoff.antt =====
-- `calculate_backoff` of nexus-watcher/src/events/retry/processor.rs.
use native.Mathlib.Nat.{pow-suc}
use pubky_nexus.Base.{
  ℕ, zero, suc, ◌*◌, ◌^◌, ◌<◌, ◌≡◌, min, arith, Option, none, some, ltb, if◌then◌else◌,
}
use pubky_nexus.Base.Word.{u64_mod, checked_mul}

-- `base.checked_pow(exp)` on `u64`: none when the power does not fit.
checked_pow : ℕ → ℕ → Option ℕ
checked_pow base exp = if ltb (base ^ exp) u64_mod then some (base ^ exp) else none

-- `calculate_backoff`
unfoldable pub calculate_backoff : ℕ → ℕ → ℕ → ℕ
unfolding checked_pow
calculate_backoff retry_count initial max = elim (checked_pow 2 retry_count) [
  | none ↦ min max max
  | some p ↦ elim (checked_mul initial p) [ none ↦ min max max | some e ↦ min e max ]
]

pow_pos : (n : ℕ) → 0 < 2 ^ n
pow_pos zero = omega arith
pow_pos (suc n) = rw pow-suc (omega (arith, pow_pos n))

-- The checked arithmetic loses nothing: with a cap that fits 64 bits and a nonzero initial
-- backoff, the backoff is the initial one doubled once per retry, up to the cap, for any number of
-- retries.
pub calculate_backoff-doubling :
    (retry_count initial max : ℕ)
    → 0 < initial
    → max < u64_mod
    → calculate_backoff retry_count initial max ≡ min (initial * 2 ^ retry_count) max
unfolding calculate_backoff
calculate_backoff-doubling n initial max h k = grind (arith, pow_pos n)
