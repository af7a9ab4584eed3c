-- ===== src/Base/Bits.antt =====
-- The binary digits of native numbers: what `&`, `|` and `& !` do to each digit, at every position.
use Prim.Native.Nat.{
  ℕ, zero, suc, ◌+◌, ◌-◌, ◌/◌, ◌%◌, ◌^◌, ◌≤◌, ◌<◌, min, max, bit_and, bit_or, digits,
  bit_and-bitwise, bit_or-bitwise,
}
use mathlib.Core.Path.{◌≡◌, refl, sym, ap, ◌∙◌}
use mathlib.Core.Logic.{◌↔◌, ◌≢◌}
use minifind.Base.Test.{◌==◌, if◌then◌else◌}
use native.Mathlib.Decide.{ℕ_discrete}
use native.Mathlib.Omega.{arith}
use native.Mathlib.Nat.{pow-suc, le_trans, pow-le-pow_right}

-- The digit of `a` at position `i`: 0 or 1.
unfoldable pub bit : ℕ → ℕ → ℕ
bit zero a = a % 2
bit (suc i) a = bit i (a / 2)

pub bit-le_one : (i a : ℕ) → bit i a ≤ 1
unfolding bit
bit-le_one zero a = omega arith
bit-le_one (suc i) a = bit-le_one i (a / 2)

pub bit-zero : (i : ℕ) → bit i 0 ≡ 0
unfolding bit
bit-zero zero = refl
bit-zero (suc i) = bit-zero i

-- A digit-wise operation acts on each digit by itself.
module _ (z : ℕ → ℕ) (f : ℕ → ℕ → ℕ) (small : (x y : ℕ) → x ≤ 1 → y ≤ 1 → f x y ≤ 1)
    (rest : (i b : ℕ) → bit i (z b) ≡ f 0 (bit i b)) where
  bit-digits : (n a b i : ℕ) → a ≤ n → bit i (digits z f n a b) ≡ f (bit i a) (bit i b)
  unfolding bit
  bit-digits zero zero b i h = rest i b ∙ ap (λ (t : ℕ). f t (bit i b)) (sym (bit-zero i))
  bit-digits zero (suc a) b i h = absurd (omega arith)
  bit-digits (suc n) zero b i h = rest i b ∙ ap (λ (t : ℕ). f t (bit i b)) (sym (bit-zero i))
  bit-digits (suc n) (suc a) b zero h =
      omega (arith, small (suc a % 2) (b % 2) (omega arith) (omega arith))
  bit-digits (suc n) (suc a) b (suc i) h =
      ap (bit i) (omega (arith, small (suc a % 2) (b % 2) (omega arith) (omega arith)))
      ∙ bit-digits n (suc a / 2) (b / 2) i (omega arith)

pub bit-bit_and : (i a b : ℕ) → bit i (bit_and a b) ≡ min (bit i a) (bit i b)
bit-bit_and i a b =
    ap (bit i) (bit_and-bitwise a b)
    ∙ bit-digits (λ b. 0) min (λ x y p q. omega arith) (λ i b. bit-zero i ∙ omega arith) a a b i
        (omega arith)

pub bit-bit_or : (i a b : ℕ) → bit i (bit_or a b) ≡ max (bit i a) (bit i b)
bit-bit_or i a b =
    ap (bit i) (bit_or-bitwise a b)
    ∙ bit-digits (λ b. b) max (λ x y p q. omega arith) (λ i b. omega arith) a a b i (omega arith)

-- Numbers below 2^k with the same digits below k are equal.
pub bit_ext_below :
    (k a b : ℕ) → a < 2 ^ k → b < 2 ^ k → ((i : ℕ) → i < k → bit i a ≡ bit i b) → a ≡ b
unfolding bit
bit_ext_below zero a b p q h = omega arith
bit_ext_below (suc k) a b p q h =
    let halves : a / 2 ≡ b / 2 =
      bit_ext_below k (a / 2) (b / 2) (omega (arith, pow-suc 2 k)) (omega (arith, pow-suc 2 k))
        (λ i lt. h (suc i) (omega arith)) in
    omega (arith, h 0 (omega arith))

lt-two_pow : (a : ℕ) → a < 2 ^ a
lt-two_pow zero = omega arith
lt-two_pow (suc a) = omega (arith, lt-two_pow a, pow-suc 2 a)

-- Digits determine the number.
pub bit_ext : (a b : ℕ) → ((i : ℕ) → bit i a ≡ bit i b) → a ≡ b
bit_ext a b h =
    bit_ext_below (a + b) a b
      (le_trans (lt-two_pow a) (pow-le-pow_right (omega arith) (omega arith)))
      (le_trans (lt-two_pow b) (pow-le-pow_right (omega arith) (omega arith))) (λ i _. h i)

-- `!b & (2^w - 1)`: the complement of a `w`-bit word flips each digit below `w`.
pub bit-complement : (w i b : ℕ) → b < 2 ^ w → i < w → bit i (2 ^ w - 1 - b) ≡ 1 - bit i b
unfolding bit
bit-complement zero i b p q = absurd (omega arith)
bit-complement (suc w) zero b p q = omega (arith, pow-suc 2 w)
bit-complement (suc w) (suc i) b p q =
    ap (bit i) (omega (arith, pow-suc 2 w))
    ∙ bit-complement w i (b / 2) (omega (arith, pow-suc 2 w)) (omega arith)

-- A number below 2^w has no digit from `w` on.
pub bit-high : (w i a : ℕ) → a < 2 ^ w → w ≤ i → bit i a ≡ 0
unfolding bit
bit-high zero i a p q = ap (bit i) (omega arith) ∙ bit-zero i
bit-high (suc w) zero a p q = absurd (omega arith)
bit-high (suc w) (suc i) a p q = bit-high w i (a / 2) (omega (arith, pow-suc 2 w)) (omega arith)

-- A number without a digit from `w` on is below 2^w.
pub lt_of_bits : (w a : ℕ) → ((i : ℕ) → w ≤ i → bit i a ≡ 0) → a < 2 ^ w
unfolding bit
lt_of_bits zero a h = omega (arith, bit_ext a 0 (λ i. h i (omega arith) ∙ sym (bit-zero i)))
lt_of_bits (suc w) a h =
    omega (arith, pow-suc 2 w, lt_of_bits w (a / 2) (λ i le. h (suc i) (omega arith)))

pub bit_or-lt : (w a b : ℕ) → a < 2 ^ w → b < 2 ^ w → bit_or a b < 2 ^ w
bit_or-lt w a b p q =
    lt_of_bits w _
      (λ i le. omega (arith, bit-bit_or i a b, bit-high w i a p le, bit-high w i b q le))

pub bit_and-lt : (w a b : ℕ) → a < 2 ^ w → bit_and a b < 2 ^ w
bit_and-lt w a b p = lt_of_bits w _ (λ i le. omega (arith, bit-bit_and i a b, bit-high w i a p le))

-- `a & b == b`: `a` has every digit of `b`.
pub bit_and-eq_iff : (a b : ℕ) → (bit_and a b ≡ b) ↔ ((i : ℕ) → bit i b ≤ bit i a)
bit_and-eq_iff a b = (
  λ e i. omega (arith, bit-bit_and i a b, ap (bit i) e),
  λ h. bit_ext (bit_and a b) b (λ i. omega (arith, bit-bit_and i a b, h i)),
)

-- `a & b == 0`: no digit is shared.
pub bit_and-eq-zero_iff : (a b : ℕ) → (bit_and a b ≡ 0) ↔ ((i : ℕ) → min (bit i a) (bit i b) ≡ 0)
bit_and-eq-zero_iff a b = (
  λ e i. sym (bit-bit_and i a b) ∙ ap (bit i) e ∙ bit-zero i,
  λ h. bit_ext (bit_and a b) 0 (λ i. bit-bit_and i a b ∙ h i ∙ sym (bit-zero i)),
)

digit_below : (w a : ℕ) → a < 2 ^ w → a ≢ 0 → (i : ℕ) × (bit i a ≡ 1)
unfolding bit
digit_below zero a p h = absurd (h (omega arith))
digit_below (suc w) a p h = elim (ℕ_discrete (a % 2) 1) [
  | yes one ↦ (0, one)
  | no even ↦
      let below = digit_below w (a / 2) (omega (arith, pow-suc 2 w)) (omega arith) in
      (suc below.0, below.1)
]

-- A number other than 0 has a digit 1.
pub digit_of_nonzero : (a : ℕ) → a ≢ 0 → (i : ℕ) × (bit i a ≡ 1)
digit_of_nonzero a h = digit_below a a (lt-two_pow a) h

-- The only digit of 2^k.
pub bit-two_pow : (i k : ℕ) → bit i (2 ^ k) ≡ (if i == k then 1 else 0)
unfolding bit
bit-two_pow zero zero = refl
bit-two_pow (suc i) zero = bit-zero i ∙ ground arith
bit-two_pow zero (suc k) = let e : 2 ^ suc k % 2 ≡ 0 = omega (arith, pow-suc 2 k) in ground arith
bit-two_pow (suc i) (suc k) =
    ap (bit i) (omega (arith, pow-suc 2 k)) ∙ bit-two_pow i k ∙ ground arith

-- `a & 2^k == 0` tests the digit at k.
pub bit_and-two_pow : (a k : ℕ) → (bit_and a (2 ^ k) == 0) ≡ (bit k a == 0)
bit_and-two_pow a k = elim (ℕ_discrete (bit k a) 0) [
  | yes z ↦
      let e : bit_and a (2 ^ k) ≡ 0 = (bit_and-eq-zero_iff a (2 ^ k)).1 (λ i.
        elim (ℕ_discrete i k) [
          | yes q ↦ omega (arith, ap (λ (t : ℕ). bit t a) q)
          | no q ↦ ground (arith, bit-two_pow i k)
        ]) in
      rw (e, z)
  | no z ↦
      let e : bit_and a (2 ^ k) ≢ 0 = λ t.
        let m = (bit_and-eq-zero_iff a (2 ^ k)).0 t k in z (ground (arith, m, bit-two_pow k k)) in
      ground arith
]

pub bit_and_comm : (a b : ℕ) → bit_and a b ≡ bit_and b a
bit_and_comm a b =
    bit_ext (bit_and a b) (bit_and b a) (λ i. omega (arith, bit-bit_and i a b, bit-bit_and i b a))
