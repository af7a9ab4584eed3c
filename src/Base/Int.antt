-- ===== src/Base/Int.antt =====
-- Signed 64-bit integers: integers over the native numbers, comparison, wrapping subtraction and
-- truncated division, as `i64` of Rust has them.
use Prim.Native.Nat.{ℕ, zero, suc, ◌+◌, ◌-◌, ◌/◌, ◌%◌, ◌^◌, ◌≤◌, ◌<◌}
use mathlib.Core.Path.{◌≡◌}
use mathlib.Core.Bool.{Bool, ◌&&◌}
use native.Mathlib.Omega.{arith}
use minifind.Base.Test.{ltb, leb, ◌==◌, if◌then◌else◌}

-- `negsuc n` is -(n + 1).
pub data ℤ : Type 0 where
  pos : ℕ → ℤ
  negsuc : ℕ → ℤ

abbrev pub pos_part : ℤ → ℕ
pos_part (pos n) = n
pos_part (negsuc n) = 0

abbrev pub neg_part : ℤ → ℕ
neg_part (pos n) = 0
neg_part (negsuc n) = suc n

-- a - b, as an integer.
abbrev pub sub_ℕ : ℕ → ℕ → ℤ
sub_ℕ a b = if leb b a then pos (a - b) else negsuc (b - a - 1)

infixl 65 ◌-ℤ◌
infix 50 ◌≤ℤ◌ ◌<ℤ◌
abbrev pub ◌-ℤ◌ : ℤ → ℤ → ℤ
a -ℤ b = sub_ℕ (pos_part a + neg_part b) (neg_part a + pos_part b)

abbrev pub ◌≤ℤ◌ : ℤ → ℤ → Type 0
a ≤ℤ b = pos_part a + neg_part b ≤ pos_part b + neg_part a

abbrev pub ◌<ℤ◌ : ℤ → ℤ → Type 0
a <ℤ b = pos_part a + neg_part b < pos_part b + neg_part a

abbrev pub ltb_ℤ : ℤ → ℤ → Bool
ltb_ℤ a b = ltb (pos_part a + neg_part b) (pos_part b + neg_part a)

abbrev pub eqb_ℤ : ℤ → ℤ → Bool
eqb_ℤ a b = (pos_part a == pos_part b) && (neg_part a == neg_part b)

-- The largest `i64`.
abbrev pub i64_max : ℕ
i64_max = 9223372036854775807

-- The values that an `i64` has: -2^63 to 2^63 - 1.
abbrev pub IsI64 : ℤ → Type 0
IsI64 a = (pos_part a ≤ i64_max) × (neg_part a ≤ i64_max + 1)

-- The number that stands for an integer modulo 2^64.
abbrev pub residue : ℤ → ℕ
residue (pos n) = n % 18446744073709551616
residue (negsuc n) = 18446744073709551615 - n % 18446744073709551616

-- The `i64` with a residue below 2^64.
abbrev pub signed : ℕ → ℤ
signed r = if leb r i64_max then pos r else negsuc (18446744073709551615 - r)

-- Subtraction of `usize` values in the release profile, on a 64-bit machine.
abbrev pub sub_usize : ℕ → ℕ → ℕ
sub_usize a b = (a + (2 ^ 64 - b)) % 2 ^ 64

-- Subtraction of `i64` values as the release profile compiles it: no overflow check, so it wraps.
abbrev pub wrapping_sub : ℤ → ℤ → ℤ
wrapping_sub a b = signed (residue (a -ℤ b))

-- -n, as an integer.
abbrev pub negate : ℕ → ℤ
negate zero = pos zero
negate (suc n) = negsuc n

-- Division by a positive number, rounded towards zero.
abbrev pub div_trunc : ℤ → ℕ → ℤ
div_trunc (pos n) d = pos (n / d)
div_trunc (negsuc n) d = negate (suc n / d)

pub wrapping_sub-exact : (a b : ℤ) → IsI64 (a -ℤ b) → wrapping_sub a b ≡ a -ℤ b
wrapping_sub-exact a b h = ground arith
