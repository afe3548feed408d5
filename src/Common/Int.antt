-- ===== src/Common/Int.antt =====
-- `int64` values: integers over the native numbers, and the sums that wrap around.
use Prim.Native.Nat.{ℕ, zero, suc, ◌+◌, ◌-◌, ◌^◌, ◌<◌}
use mathlib.Core.Bool.{Bool, true, false}
use simple_twitter.Common.Tests.{ltb, leb, if◌then◌else◌}

-- `negsuc n` is -(n + 1).
pub data ℤ : Type 0 where
  pos : ℕ → ℤ
  negsuc : ℕ → ℤ

abbrev pub neg : ℕ → ℤ
neg zero = pos 0
neg (suc n) = negsuc n

unfoldable pub int_ltb : ℤ → ℤ → Bool
int_ltb (pos a) (pos b) = ltb a b
int_ltb (pos a) (negsuc b) = false
int_ltb (negsuc a) (pos b) = true
int_ltb (negsuc a) (negsuc b) = ltb b a

-- The values that 64 bits hold.
abbrev pub IsInt64 : ℤ → Type 0
IsInt64 (pos n) = n < 2 ^ 63
IsInt64 (negsuc n) = n < 2 ^ 63

-- `a + k` for a small constant `k`; past 2 ^ 63 - 1 it wraps around to the negative values.
unfoldable pub int_add : ℤ → ℕ → ℤ
int_add (pos a) k = if ltb (a + k) (2 ^ 63) then pos (a + k) else negsuc (2 ^ 64 - (a + k) - 1)
int_add (negsuc a) k = if leb k a then negsuc (a - k) else pos (k - a - 1)

-- `a - k` for a small `k`; below -(2 ^ 63) it wraps around to the positive values.
unfoldable pub int_sub : ℤ → ℕ → ℤ
int_sub (pos a) k = if leb k a then pos (a - k) else negsuc (k - a - 1)
int_sub (negsuc a) k = if ltb (a + k) (2 ^ 63) then negsuc (a + k) else pos (2 ^ 64 - (a + k) - 1)
