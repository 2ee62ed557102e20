-- ===== src/Base/Word.antt =====
-- Machine integers as bit patterns, numbers below 2 ^ 32 or 2 ^ 64. An `i64` is its two's
-- complement pattern: sums and products wrap as patterns do, and its order is that of the
-- patterns moved by 2 ^ 63. A cast between `u64` and `i64` keeps the pattern.
use pubky_nexus.Base.Tests.{leb, ltb}
use mathlib.Core.Bool.{Bool}
use mathlib.Core.Option.{Option, none, some}
use mathlib.Core.Path.{◌≡◌}
use Prim.Native.Nat.{ℕ, ◌+◌, ◌*◌, ◌%◌, ◌<◌}
use native.Mathlib.Omega.{arith}
use pubky_nexus.Base.Tests.{if◌then◌else◌}

abbrev pub u32_mod : ℕ
u32_mod = 4294967296

abbrev pub u64_mod : ℕ
u64_mod = 18446744073709551616

abbrev pub i64_min : ℕ
i64_min = 9223372036854775808

abbrev pub add_u32 : ℕ → ℕ → ℕ
add_u32 a b = (a + b) % u32_mod

abbrev pub add_64 : ℕ → ℕ → ℕ
add_64 a b = (a + b) % u64_mod

abbrev pub mul_64 : ℕ → ℕ → ℕ
mul_64 a b = (a * b) % u64_mod

-- `a <= b` on `i64`.
abbrev pub leb_i64 : ℕ → ℕ → Bool
leb_i64 a b = leb ((a + i64_min) % u64_mod) ((b + i64_min) % u64_mod)

-- `u64::checked_mul`.
abbrev pub checked_mul : ℕ → ℕ → Option ℕ
checked_mul a b = if ltb (a * b) u64_mod then some (a * b) else none

pub leb_i64_small : (a b : ℕ) → a < i64_min → b < i64_min → leb_i64 a b ≡ leb a b
leb_i64_small a b h k = ground arith
