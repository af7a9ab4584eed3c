-- ===== src/Meta/Compare.antt =====
-- src/meta.rs, `Comparison`: find's `N`, `+N` and `-N`, over `i64`.
pub mod Laws
use minifind.Base.{
  ℕ, ◌≤◌, Bool, true, false, Option, none, some, ◌≡◌, if◌then◌else◌, leb, Result, ok, err,
  invalid_number,
}
use minifind.Base.Int.{ℤ, pos, eqb_ℤ, ltb_ℤ, i64_max, IsI64}
use minifind.Base.Text.{Text, strip_prefix, parse_i64}

pub data Comparison : Type 0 where
  exact : ℤ → Comparison
  greater : ℤ → Comparison
  less : ℤ → Comparison

-- `num.parse().map_err(..)?` and `Ok(ctor(v))`; the message cites the whole text `s`.
abbrev number : (ℤ → Comparison) → Text → Option ℤ → Result Comparison
number ctor s none = err (invalid_number s)
number ctor s (some v) = ok (ctor v)

-- The constructor is chosen by the first character, which is then dropped.
abbrev signed_or_plain : Text → Option Text → Option Text → Result Comparison
signed_or_plain s (some n) m = number greater s (parse_i64 n)
signed_or_plain s none (some n) = number less s (parse_i64 n)
signed_or_plain s none none = number exact s (parse_i64 s)

unfoldable pub parse : Text → Result Comparison
parse s = signed_or_plain s (strip_prefix b'+' s) (strip_prefix b'-' s)

unfoldable pub matches : Comparison → ℤ → Bool
matches (exact n) v = eqb_ℤ v n
matches (greater n) v = ltb_ℤ n v
matches (less n) v = ltb_ℤ v n

-- `i64::try_from(v).unwrap_or(i64::MAX)`.
abbrev pub saturate : ℕ → ℤ
saturate v = if leb v i64_max then pos v else pos i64_max

unfoldable pub matches_u64 : Comparison → ℕ → Bool
unfolding matches
matches_u64 c v = matches c (saturate v)

abbrev pub threshold : Comparison → ℤ
threshold (exact n) = n
threshold (greater n) = n
threshold (less n) = n
