-- ===== src/Base/Text.antt =====
-- Texts as lists of code points, and the number parsers of Rust's standard library that the code
-- calls: `str::parse` at `i64`, `u32` and `usize`, and `u32::from_str_radix`.
pub mod RoundTrip
pub mod Bounds
use Prim.Native.Nat.{ℕ, zero, suc, ◌+◌, ◌-◌, ◌*◌, ◌/◌, ◌%◌, ◌≤◌, ◌<◌}
use Prim.Native.Char.{Char, code}
use Prim.Native.String.{String}
use mathlib.Core.Bool.{Bool, true, false, ◌&&◌}
use mathlib.Core.Option.{Option, none, some}
use mathlib.Core.List.{List, [], ◌∷◌, ◌++◌}
use minifind.Base.Test.{ltb, leb, ◌==◌, if◌then◌else◌, map_some}
use minifind.Base.Int.{ℤ, pos, negate, i64_max}

abbrev pub Text : Type 0
Text = List ℕ

-- The code points of a literal.
abbrev pub codes : String → Text
codes String.[] = []
codes (String.◌∷◌ c s) = code c ∷ codes s

abbrev pub text_eq : Text → Text → Bool
text_eq [] [] = true
text_eq [] (y ∷ ys) = false
text_eq (x ∷ xs) [] = false
text_eq (x ∷ xs) (y ∷ ys) = (x == y) && text_eq xs ys

-- `s.strip_prefix(c)` for a single character.
abbrev pub strip_prefix : ℕ → Text → Option Text
strip_prefix c [] = none
strip_prefix c (x ∷ xs) = if x == c then some xs else none

-- `char::to_digit` at a radix of at most 10.
unfoldable pub to_digit : ℕ → ℕ → Option ℕ
to_digit radix c = if leb b'0' c && ltb c (b'0' + radix) then some (c - b'0') else none

-- The value of a run of digits, read after digits of the value `acc`.
unfoldable pub digits_value : ℕ → ℕ → Text → Option ℕ
unfolding to_digit
digits_value radix acc [] = some acc
digits_value radix acc (c ∷ s) = elim (to_digit radix c) [
  | none ↦ none
  | some d ↦ digits_value radix (acc * radix + d) s
]

-- At least one digit is needed, and the value must not exceed `limit`.
unfoldable pub unsigned : ℕ → ℕ → Text → Option ℕ
unfolding digits_value
unsigned radix limit [] = none
unsigned radix limit (c ∷ s) = elim (digits_value radix 0 (c ∷ s)) [
  | none ↦ none
  | some v ↦ if leb v limit then some v else none
]

-- `s.parse::<i64>()`: one sign, then decimal digits.
unfoldable pub parse_i64 : Text → Option ℤ
parse_i64 [] = none
parse_i64 (c ∷ s) =
    if c == b'-'
    then map_some negate (unsigned 10 (i64_max + 1) s)
    else map_some pos (unsigned 10 i64_max (if c == b'+' then s else c ∷ s))

-- `from_str_radix` of an unsigned type with the given largest value: an optional `+`, then digits.
unfoldable pub parse_unsigned : ℕ → ℕ → Text → Option ℕ
parse_unsigned radix limit [] = none
parse_unsigned radix limit (c ∷ s) = unsigned radix limit (if c == b'+' then s else c ∷ s)

abbrev pub u32_max : ℕ
u32_max = 4294967295

abbrev pub usize_max : ℕ
usize_max = 18446744073709551615

-- `s.parse::<u32>()` and `s.parse::<usize>()`, the latter on a 64-bit target.
unfoldable pub parse_u32 : Text → Option ℕ
parse_u32 s = parse_unsigned 10 u32_max s

unfoldable pub parse_usize : Text → Option ℕ
parse_usize s = parse_unsigned 10 usize_max s

-- The digits of `n`, most significant first: the writing that the parsers are inverse to. The fuel
-- bounds the number of digits beyond the first.
unfoldable pub digits_of : ℕ → ℕ → ℕ → Text
digits_of radix zero n = (b'0' + n % radix) ∷ []
digits_of radix (suc fuel) n =
    let more = digits_of radix fuel (n / radix) ++ ((b'0' + n % radix) ∷ []) in
    if ltb n radix then (b'0' + n) ∷ [] else more
