-- ===== src/Prelude/Int64.antt =====
-- Go's int64: an integer, and the wrap-around that each arithmetic operation ends with.
use Prim.Native.Nat.{ℕ, suc, ◌+◌, ◌-◌, ◌%◌, ◌≤◌, ◌<◌}
use mathlib.Core.Path.{◌≡◌}
use mathlib.Core.Bool.{Bool}
use native.Mathlib.Omega.{arith}
use fleetplane.Prelude.Tests.{ltb, leb, if◌then◌else◌}

-- `negsuc n` is -(n + 1).
pub data ℤ : Type 0 where
  pos : ℕ → ℤ
  negsuc : ℕ → ℤ

abbrev pub pos_part : ℤ → ℕ
pos_part (pos n) = n
pos_part (negsuc n) = 0

abbrev pub neg_part : ℤ → ℕ
neg_part (pos n) = 0
neg_part (negsuc n) = suc n

-- a - b, as an integer.
abbrev pub sub_ℕ : ℕ → ℕ → ℤ
sub_ℕ a b = if leb b a then pos (a - b) else negsuc (b - a - 1)

abbrev pub ◌≤ℤ◌ : ℤ → ℤ → Type 0

infix 50 ◌≤ℤ◌
a ≤ℤ b = pos_part a + neg_part b ≤ pos_part b + neg_part a

abbrev pub ltb_ℤ : ℤ → ℤ → Bool
ltb_ℤ a b = ltb (pos_part a + neg_part b) (pos_part b + neg_part a)

-- 2 ^ 64 and 2 ^ 63.
abbrev pub i64_mod : ℕ
i64_mod = 18446744073709551616

abbrev pub i64_half : ℕ
i64_half = 9223372036854775808

-- The int64 whose bit pattern is that of a - b.
unfoldable pub wrap_sub : ℕ → ℕ → ℤ
wrap_sub a b =
    let bits = (a + (i64_mod - b % i64_mod)) % i64_mod in
    if ltb bits i64_half then pos bits else negsuc (i64_mod - bits - 1)

-- int64 addition and subtraction.
unfoldable pub add64 : ℤ → ℤ → ℤ
unfolding wrap_sub
add64 a b = wrap_sub (pos_part a + pos_part b) (neg_part a + neg_part b)

unfoldable pub sub64 : ℤ → ℤ → ℤ
unfolding wrap_sub
sub64 a b = wrap_sub (pos_part a + neg_part b) (neg_part a + pos_part b)

-- Within the range of int64 the wrap-around is the identity.
pub wrap_sub-exact : (a b : ℕ) → a < b + i64_half → b ≤ a + i64_half → wrap_sub a b ≡ sub_ℕ a b
unfolding wrap_sub
wrap_sub-exact a b h k = ground arith
