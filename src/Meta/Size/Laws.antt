-- ===== src/Meta/Size/Laws.antt =====
-- src/meta.rs, `SizePred`: rounding up to the unit, and reading back what was written.
use minifind.Base.{
  ℕ, mul_step, iff_trans, ap, ◌*◌, ◌+◌, ◌≤◌, ◌<◌, true, ◌≡◌, refl, ◌↔◌, arith, [], ◌∷◌, ◌++◌, none,
  some, ok, err, missing_unit, empty_size,
}
use minifind.Base.Int.{pos, i64_max}
use minifind.Base.Text.{Text}
use native.Mathlib.Decide.{dec_lt}
use minifind.Meta.Compare
use minifind.Meta.Compare.{Comparison, exact, greater, less}
use minifind.Meta.Compare.Laws.{written, IsPlain}
use minifind.Meta.Size.{split_last, unit_of, parse, div_ceil, matches}

-- The smallest number of units that holds `a`.
pub div_ceil_bounds : (a b : ℕ) → 0 < b → (a ≤ div_ceil a b * b) × (div_ceil a b * b < a + b)
unfolding div_ceil
div_ceil_bounds a b h = grind arith

verdict :
    (n q : ℕ)
    → n < i64_max
    → ((Compare.matches_u64 (greater (pos n)) q ≡ true) ↔ (n < q))
      × ((Compare.matches_u64 (less (pos n)) q ≡ true) ↔ (q < n))
      × ((Compare.matches_u64 (exact (pos n)) q ≡ true) ↔ (q ≡ n))
unfolding Compare.matches_u64
verdict n q h = (
  (λ e. ground arith, λ e. ground arith),
  (λ e. ground arith, λ e. ground arith),
  (λ e. ground arith, λ e. ground arith),
)

-- How the number of units compares with `n`, by the bounds of `div_ceil`.
units_compare :
    (size unit n q : ℕ)
    → size ≤ q * unit
    → q * unit < size + unit
    → ((n < q) ↔ (n * unit < size))
      × ((q < n) ↔ (size + unit ≤ n * unit))
      × ((q ≡ n) ↔ ((size ≤ n * unit) × (n * unit < size + unit)))
units_compare size unit n q lo hi = elim (dec_lt n q) [
  | yes above ↦ omega (arith, mul_step n q unit above)
  | no below ↦ elim (dec_lt q n) [
    | yes under ↦ omega (arith, mul_step q n unit under)
    | no same ↦
        let e : q ≡ n = omega arith in
        let m : q * unit ≡ n * unit = ap (λ (t : ℕ). t * unit) e in omega arith
  ]
]

-- With a positive unit and a threshold N below `i64::MAX`, `+N` means more than N units of bytes,
-- `-N` at most N - 1 units, and `N` more than N - 1 and at most N units.
pub rounded_up_iff :
    (size unit n : ℕ)
    → 0 < unit
    → n < i64_max
    → ((matches (record { cmp = greater (pos n); unit = unit }) size ≡ true) ↔ (n * unit < size))
      × ((matches (record { cmp = less (pos n); unit = unit }) size ≡ true)
          ↔ (size + unit ≤ n * unit))
      × ((matches (record { cmp = exact (pos n); unit = unit }) size ≡ true)
          ↔ ((size ≤ n * unit) × (n * unit < size + unit)))
unfolding matches
rounded_up_iff size unit n h k =
    let (lo, hi) = div_ceil_bounds size unit h in
    let (above, below, same) = units_compare size unit n (div_ceil size unit) lo hi in
    let (g, l, e) = verdict n (div_ceil size unit) k in
    (iff_trans g above, iff_trans l below, iff_trans e same)

split_last-append : (s : Text) (c : ℕ) → split_last (s ++ (c ∷ [])) ≡ some (s, c)
unfolding split_last
split_last-append [] c = refl
split_last-append (x ∷ s) c = rw (split_last-append s c, split_last)

-- A comparison with a threshold that is an `i64` and not negative, written in find's style and
-- followed by the letter of a unit, is parsed to that comparison and that unit.
pub parse-written_unit :
    (c : Comparison) (letter u : ℕ)
    → IsPlain c
    → unit_of letter ≡ some u
    → parse (written c ++ (letter ∷ [])) ≡ ok (record { cmp = c; unit = u })
unfolding parse
parse-written_unit c letter u h e =
    rw (split_last-append (written c) letter, e, Compare.Laws.parse-written c h)

-- A text that ends in no unit letter is refused, with an error of its own if it is empty.
pub parse_refused :
    (s : Text) (c : ℕ)
    → unit_of c ≡ none
    → (parse (s ++ (c ∷ [])) ≡ err (missing_unit (s ++ (c ∷ [])))) × (parse [] ≡ err empty_size)
unfolding parse split_last
parse_refused s c e = (rw (split_last-append s c, e), refl)
