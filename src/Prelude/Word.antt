-- ===== src/Prelude/Word.antt =====
-- The conversions and divisions of C between int64_t, uint64_t and the integers they stand for.
use audited_objects.Prelude.Tests.{ltb, ◌==◌, if◌then◌else◌}
use audited_objects.Prelude.Int.{ℤ, pos, negsuc}
use Prim.Native.Nat.{ℕ, suc, ◌-◌, ◌/◌, ◌%◌, ◌^◌, ◌<◌}
use mathlib.Core.Path.{◌≡◌}
use native.Mathlib.Omega.{arith}

-- `(uint64_t)x`
unfoldable pub to_u64 : ℤ → ℕ
to_u64 (pos n) = n % 2 ^ 64
to_u64 (negsuc n) = 2 ^ 64 - 1 - n % 2 ^ 64

-- `(int64_t)u`
unfoldable pub to_i64 : ℕ → ℤ
to_i64 u = if ltb u (2 ^ 63) then pos u else negsuc (2 ^ 64 - 1 - u)

-- The negation of a number.
unfoldable pub neg : ℕ → ℤ
neg n = if n == 0 then pos 0 else negsuc (n - 1)

-- `x / k` and `x % k`, rounded towards zero.
unfoldable pub quot : ℤ → ℕ → ℤ
unfolding neg
quot (pos n) k = pos (n / k)
quot (negsuc n) k = neg (suc n / k)

unfoldable pub rem : ℤ → ℕ → ℤ
unfolding neg
rem (pos n) k = pos (n % k)
rem (negsuc n) k = neg (suc n % k)

pub to_u64-lt : (x : ℤ) → to_u64 x < 2 ^ 64
unfolding to_u64
to_u64-lt (pos n) = omega arith
to_u64-lt (negsuc n) = omega arith

-- An int64_t comes back from its uint64_t.
pub to_i64-to_u64_pos : (n : ℕ) → n < 2 ^ 63 → to_i64 (to_u64 (pos n)) ≡ pos n
unfolding to_i64 to_u64
to_i64-to_u64_pos n h = ground arith

pub to_i64-to_u64_negsuc : (n : ℕ) → n < 2 ^ 63 → to_i64 (to_u64 (negsuc n)) ≡ negsuc n
unfolding to_i64 to_u64
to_i64-to_u64_negsuc n h = ground arith
