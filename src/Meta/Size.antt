-- ===== src/Meta/Size.antt =====
-- src/meta.rs, `SizePred`: `-size [+-]?N(c|k|M|G|T)`.
pub mod Laws
use minifind.Base.{
  ℕ, suc, ◌+◌, ◌/◌, ◌%◌, ◌^◌, Bool, Option, none, some, List, [], ◌∷◌, ltb, ◌==◌, Result, ok, err,
  empty_size, missing_unit, ◌>>=◌, if◌then◌else◌,
}
use minifind.Base.Text.{Text}
use minifind.Meta.Compare
use minifind.Meta.Compare.{Comparison}

pub record SizePred : Type 0 where
  pub cmp : Comparison
  pub unit : ℕ

-- `s.chars().last()` with the text before it, `&s[..s.len() - last.len_utf8()]`.
unfoldable pub split_last : Text → Option (Text × ℕ)
split_last [] = none
split_last (c ∷ s) = elim (split_last s) [ none ↦ some ([], c) | some (t, l) ↦ some (c ∷ t, l) ]

unfoldable pub unit_of : ℕ → Option ℕ
unit_of c =
    if c == b'c'
    then some 1
    else if c == b'k'
    then some (2 ^ 10)
    else if c == b'M'
    then some (2 ^ 20)
    else if c == b'G'
    then some (2 ^ 30)
    else if c == b'T'
    then some (2 ^ 40)
    else none

abbrev with_unit : Text → Text → Option ℕ → Result SizePred
with_unit s num none = err (missing_unit s)
with_unit s num (some u) = do c ← Compare.parse num; ok (record { cmp = c; unit = u })

abbrev with_last : Text → Option (Text × ℕ) → Result SizePred
with_last s none = err empty_size
with_last s (some (num, last)) = with_unit s num (unit_of last)

unfoldable pub parse : Text → Result SizePred
parse s = with_last s (split_last s)

-- `size.div_ceil(unit)`.
unfoldable pub div_ceil : ℕ → ℕ → ℕ
div_ceil a b = if ltb 0 (a % b) then suc (a / b) else a / b

unfoldable pub matches : SizePred → ℕ → Bool
unfolding div_ceil
matches p size = Compare.matches_u64 p.cmp (div_ceil size p.unit)
