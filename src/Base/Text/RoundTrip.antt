-- ===== src/Base/Text/RoundTrip.antt =====
-- Reading back the digits of a number, at a radix from 2 to 10.
use Prim.Native.Nat.{ℕ, zero, suc, ◌+◌, ◌-◌, ◌*◌, ◌/◌, ◌%◌, ◌≤◌, ◌<◌}
use mathlib.Core.Path.{◌≡◌, refl, ap, ◌∙◌}
use mathlib.Core.Logic.{inl, inr}
use mathlib.Core.Option.{some}
use mathlib.Core.List.{[], ◌∷◌, ◌++◌}
use native.Mathlib.Omega.{arith}
use native.Mathlib.Nat.{mod-lt, mod-eq_of_lt}
use minifind.Base.Test.{ltb, Bool-cases}
use minifind.Base.Lists.{All, All-append}
use minifind.Base.Int.{i64_max, pos}
use minifind.Base.Text.{
  Text, to_digit, digits_value, digits_of, unsigned, parse_i64, parse_unsigned,
}

-- A character that is a decimal digit.
abbrev pub IsDigitChar : ℕ → Type 0
IsDigitChar c = (48 ≤ c) × (c ≤ 57)

module _ (radix : ℕ) (two : 2 ≤ radix) (ten : radix ≤ 10) where
  to_digit-digit : (d : ℕ) → d < radix → to_digit radix (b'0' + d) ≡ some d
  unfolding to_digit
  to_digit-digit d h = ground arith

  digits_value-append :
      (acc v d : ℕ) (s : Text)
      → d < radix
      → digits_value radix acc s ≡ some v
      → digits_value radix acc (s ++ ((b'0' + d) ∷ [])) ≡ some (v * radix + d)
  unfolding digits_value
  digits_value-append acc v d [] lt h = ground (arith, to_digit-digit d lt)
  digits_value-append acc v d (c ∷ s) lt h =
      ground (arith, digits_value-append (acc * radix + (c - b'0')) v d s lt)

  div_smaller : (f n : ℕ) → n ≤ suc f → radix ≤ n → n / radix ≤ f
  div_smaller f n h k = grind arith

  div_mod_sum : (n : ℕ) → n / radix * radix + n % radix ≡ n
  div_mod_sum n = grind arith

  one_digit : (n : ℕ) → n < radix → digits_value radix 0 ((b'0' + n) ∷ []) ≡ some n
  unfolding digits_value
  one_digit n h = ground (arith, to_digit-digit n h)

  mod_small : (n : ℕ) → n % radix < radix
  mod_small n = mod-lt n (omega arith)

  -- A fuel of at least the number is enough to write all its digits.
  pub digits_value-digits_of :
      (fuel n : ℕ) → n ≤ fuel → digits_value radix 0 (digits_of radix fuel n) ≡ some n
  unfolding digits_of
  digits_value-digits_of zero n h =
      let e : n % radix ≡ n = mod-eq_of_lt (omega arith) in rw e (one_digit n (omega arith))
  digits_value-digits_of (suc fuel) n h = elim (Bool-cases (ltb n radix)) [
    | inl e ↦ rw e (one_digit n (ground arith))
    | inr e ↦ rw e (
        digits_value-append 0 (n / radix) (n % radix) (digits_of radix fuel (n / radix))
          (mod_small n)
          (digits_value-digits_of fuel (n / radix) (div_smaller fuel n h (ground arith)))
        ∙ ap some (div_mod_sum n))
  ]

  last_digit : (n : ℕ) → n < radix → IsDigitChar (b'0' + n)
  last_digit n h = omega arith

  -- The writing consists of digits.
  pub digits_of-IsDigitChar :
      (fuel n : ℕ) → All (λ c. IsDigitChar c × (c < b'0' + radix)) (digits_of radix fuel n)
  unfolding digits_of
  digits_of-IsDigitChar zero n = ((last_digit _ (mod_small n), omega (arith, mod_small n)), tt)
  digits_of-IsDigitChar (suc fuel) n = elim (Bool-cases (ltb n radix)) [
    | inl e ↦ rw e ((last_digit n (ground arith), ground arith), tt)
    | inr e ↦ rw e (
        All-append _ (digits_of radix fuel (n / radix)) _ (digits_of-IsDigitChar fuel (n / radix))
          ((last_digit _ (mod_small n), omega (arith, mod_small n)), tt))
  ]

  -- There is a first digit.
  pub digits_of-cons : (fuel n : ℕ) → (c : ℕ) × (s : Text) × (digits_of radix fuel n ≡ c ∷ s)
  unfolding digits_of
  digits_of-cons zero n = (b'0' + n % radix, [], refl)
  digits_of-cons (suc fuel) n = elim (Bool-cases (ltb n radix)) [
    | inl e ↦ (b'0' + n, [], rw e)
    | inr e ↦
        let (c, s, q) = digits_of-cons fuel (n / radix) in
        (c, s ++ ((b'0' + n % radix) ∷ []), rw (e, q))
  ]

  unsigned-cons :
      (limit n c : ℕ) (s : Text)
      → digits_value radix 0 (c ∷ s) ≡ some n
      → n ≤ limit
      → unsigned radix limit (c ∷ s) ≡ some n
  unfolding unsigned
  unsigned-cons limit n c s v k = rw (v, unsigned) (ground arith)

  pub unsigned-digits_of :
      (limit fuel n : ℕ)
      → n ≤ fuel
      → n ≤ limit
      → unsigned radix limit (digits_of radix fuel n) ≡ some n
  unfolding unsigned
  unsigned-digits_of limit fuel n h k =
      let (c, s, q) = digits_of-cons fuel n in
      rw q (unsigned-cons limit n c s (rw q at (digits_value-digits_of fuel n h)) k)

  pub first_IsDigitChar : (fuel n c : ℕ) (s : Text) → digits_of radix fuel n ≡ c ∷ s → IsDigitChar c
  first_IsDigitChar fuel n c s q = (rw q at (digits_of-IsDigitChar fuel n)).0.0

  pub parse_unsigned-digits_of :
      (limit fuel n : ℕ)
      → n ≤ fuel
      → n ≤ limit
      → parse_unsigned radix limit (digits_of radix fuel n) ≡ some n
  unfolding parse_unsigned
  parse_unsigned-digits_of limit fuel n h k =
      let (c, s, q) = digits_of-cons fuel n in
      let d : IsDigitChar c = first_IsDigitChar fuel n c s q in
      let v : unsigned radix limit (c ∷ s) ≡ some n =
        rw q at (unsigned-digits_of limit fuel n h k) in
      rw q (ground arith)

-- The decimal writing of a number.
abbrev pub decimal : ℕ → Text
decimal n = digits_of 10 n n

pub parse_i64-decimal : (n : ℕ) → n ≤ i64_max → parse_i64 (decimal n) ≡ some (pos n)
unfolding parse_i64
parse_i64-decimal n h =
    let (c, s, q) = digits_of-cons 10 (omega arith) (omega arith) n n in
    let d : IsDigitChar c = first_IsDigitChar 10 (omega arith) (omega arith) n n c s q in
    let v : unsigned 10 i64_max (c ∷ s) ≡ some n =
      rw q at (unsigned-digits_of 10 (omega arith) (omega arith) i64_max n n (omega arith) h) in
    rw q (ground arith)
