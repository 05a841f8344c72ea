-- ===== src/Base/Ints.antt =====
-- Go's `int` and `int64`: integers, with the increment that wraps at 64 bits.
use Prim.Native.Nat.{ℕ, zero, suc, ◌+◌, ◌-◌, ◌/◌, ◌%◌, ◌≤◌}
use mathlib.Core.Path.{◌≡◌, refl}
use mathlib.Core.Bool.{Bool}
use native.Mathlib.Omega.{arith}
use rpi_procmon.Base.Tests.{ltb, leb, eqb, if◌then◌else◌}

-- `negsuc n` is -(n + 1).
pub data ℤ : Type 0 where
  pos : ℕ → ℤ
  negsuc : ℕ → ℤ

abbrev pub pos_part : ℤ → ℕ
pos_part (pos n) = n
pos_part (negsuc n) = 0

abbrev pub neg_part : ℤ → ℕ
neg_part (pos n) = 0
neg_part (negsuc n) = suc n

abbrev pub sub_ℕ : ℕ → ℕ → ℤ
sub_ℕ a b = if leb b a then pos (a - b) else negsuc (b - a - 1)

infixl 65 ◌+ℤ◌ ◌-ℤ◌
unfoldable pub ◌+ℤ◌ : ℤ → ℤ → ℤ
a +ℤ b = sub_ℕ (pos_part a + pos_part b) (neg_part a + neg_part b)

unfoldable pub ◌-ℤ◌ : ℤ → ℤ → ℤ
a -ℤ b = sub_ℕ (pos_part a + neg_part b) (neg_part a + pos_part b)

-- Go's integer division truncates towards zero.
abbrev pub quot : ℤ → ℕ → ℤ
quot (pos n) d = pos (n / d)
quot (negsuc n) d = sub_ℕ 0 (suc n / d)

abbrev pub ltb_ℤ : ℤ → ℤ → Bool
ltb_ℤ a b = ltb (pos_part a + neg_part b) (pos_part b + neg_part a)

abbrev pub leb_ℤ : ℤ → ℤ → Bool
leb_ℤ a b = leb (pos_part a + neg_part b) (pos_part b + neg_part a)

abbrev pub eqb_ℤ : ℤ → ℤ → Bool
eqb_ℤ a b = eqb (pos_part a + neg_part b) (pos_part b + neg_part a)

abbrev pub max_int : ℕ
max_int = 9223372036854775807

abbrev pub two_64 : ℕ
two_64 = 18446744073709551616

-- `x++` on a 64-bit `int`: the largest value is followed by the smallest.
unfoldable pub inc : ℤ → ℤ
inc (pos n) = if eqb n max_int then negsuc max_int else pos (n + 1)
inc (negsuc zero) = pos 0
inc (negsuc (suc n)) = negsuc n

-- The 64-bit pattern of an integer.
abbrev pub word : ℤ → ℕ
word (pos n) = n
word (negsuc n) = two_64 - suc n

-- An integer of a 64-bit pattern.
abbrev signed : ℕ → ℤ
signed b = if leb b max_int then pos b else negsuc (two_64 - 1 - b)

-- What a 64-bit integer keeps of the result of an operation.
unfoldable pub wrap_64 : ℤ → ℤ
wrap_64 (pos n) = signed (n % two_64)
wrap_64 (negsuc n) = signed (two_64 - 1 - n % two_64)

-- The values that an `int` holds.
abbrev pub IsInt : ℤ → Type 0
IsInt (pos n) = n ≤ max_int
IsInt (negsuc n) = n ≤ max_int

pub inc-IsInt : (z : ℤ) → IsInt z → IsInt (inc z)
unfolding inc
inc-IsInt (pos n) h = ground arith
inc-IsInt (negsuc zero) h = omega arith
inc-IsInt (negsuc (suc n)) h = omega arith

pub word-inc : (z : ℤ) → IsInt z → word (inc z) ≡ (word z + 1) % two_64
unfolding inc
word-inc (pos n) h = ground arith
word-inc (negsuc zero) h = refl
word-inc (negsuc (suc n)) h = omega arith
