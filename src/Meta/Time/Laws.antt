-- ===== src/Meta/Time/Laws.antt =====
-- src/meta.rs, `TimePred`: the age is cut to whole units, towards zero.
use minifind.Base.{
  ℕ, mul_step, iff_trans, zero, suc, ◌+◌, ◌*◌, ◌/◌, ◌≤◌, ◌<◌, true, false, ◌⊎◌, inr, ◌≡◌, refl, ap,
  ◌∙◌, ◌↔◌, arith,
}
use minifind.Base.Int.{ℤ, pos, negsuc, IsI64, negate, ◌-ℤ◌, wrapping_sub, wrapping_sub-exact}
use minifind.Meta.Compare
use minifind.Meta.Compare.{Comparison, exact, greater, less}
use minifind.Meta.Fields.{Meta, TimeField, time_of}
use minifind.Meta.Time.{matches}
use native.Mathlib.Decide.{dec_lt}

div_bounds : (a u : ℕ) → 0 < u → (a / u * u ≤ a) × (a < a / u * u + u)
div_bounds a u h = grind arith

-- How the number of whole units in an age compares with `n`.
whole_units :
    (age u n q : ℕ)
    → q * u ≤ age
    → age < q * u + u
    → ((n < q) ↔ (n * u + u ≤ age))
      × ((q < n) ↔ (age < n * u))
      × ((q ≡ n) ↔ ((n * u ≤ age) × (age < n * u + u)))
whole_units age u n q lo hi = elim (dec_lt n q) [
  | yes above ↦ omega (arith, mul_step n q u above)
  | no below ↦ elim (dec_lt q n) [
    | yes under ↦ omega (arith, mul_step q n u under)
    | no same ↦
        let e : q ≡ n = omega arith in
        let m : q * u ≡ n * u = ap (λ (t : ℕ). t * u) e in omega arith
  ]
]

verdict :
    (n q : ℕ)
    → ((Compare.matches (greater (pos n)) (pos q) ≡ true) ↔ (n < q))
      × ((Compare.matches (less (pos n)) (pos q) ≡ true) ↔ (q < n))
      × ((Compare.matches (exact (pos n)) (pos q) ≡ true) ↔ (q ≡ n))
unfolding Compare.matches
verdict n q = (
  (λ e. ground arith, λ e. ground arith),
  (λ e. ground arith, λ e. ground arith),
  (λ e. ground arith, λ e. ground arith),
)

elapsed : (now t z : ℤ) → now -ℤ t ≡ z → IsI64 z → wrapping_sub now t ≡ z
elapsed now t z e k = wrapping_sub-exact now t (rw e k) ∙ e

zero_units : (a u : ℕ) → 0 < u → (a / u ≡ 0) ↔ (a < u)
zero_units a u h = (λ e. grind (arith, div_bounds a u h), λ lt. grind arith)

future_verdict :
    (n q a u : ℕ)
    → (q ≡ 0) ↔ (a < u)
    → (Compare.matches (greater (pos n)) (negate q) ≡ false)
      × ((Compare.matches (less (pos n)) (negate q) ≡ true) ↔ ((0 < n) ⊎ (u ≤ a)))
      × ((Compare.matches (exact (pos n)) (negate q) ≡ true) ↔ ((n ≡ 0) × (a < u)))
unfolding Compare.matches
future_verdict n zero a u h =
    let near : a < u = h.0 refl in
    (ground arith, (λ e. ground arith, λ e. ground arith), (λ e. ground arith, λ e. ground arith))
future_verdict n (suc q) a u h =
    let far : u ≤ a = elim (dec_lt a u) [
      | yes near ↦ absurd (omega (arith, h.1 near))
      | no far ↦ omega arith
    ] in
    (ground arith, (λ e. inr far, λ e. ground arith), (λ e. ground arith, λ e. ground arith))

-- For an entry that is `age` seconds old, with `age` an `i64` and a positive unit, `+N` means at
-- least N + 1 whole units (so `-mtime +1` at least two days), `-N` fewer than N units, and `N` from
-- N up to N + 1 units.
pub matches_past :
    (m : Meta) (now : ℤ) (field : TimeField) (age u n : ℕ)
    → 0 < u
    → now -ℤ time_of field m ≡ pos age
    → IsI64 (pos age)
    → ((matches (record { cmp = greater (pos n); unit_secs = u; field = field }) m now ≡ true)
        ↔ (n * u + u ≤ age))
      × ((matches (record { cmp = less (pos n); unit_secs = u; field = field }) m now ≡ true)
          ↔ (age < n * u))
      × ((matches (record { cmp = exact (pos n); unit_secs = u; field = field }) m now ≡ true)
          ↔ ((n * u ≤ age) × (age < n * u + u)))
unfolding matches
matches_past m now field age u n h e k =
    let (lo, hi) = div_bounds age u h in
    let (above, below, same) = whole_units age u n (age / u) lo hi in
    let (g, l, x) = verdict n (age / u) in
    rw (elapsed now (time_of field m) (pos age) e k)
      (iff_trans g above, iff_trans l below, iff_trans x same)

-- For an entry dated `late + 1` seconds into the future, with a difference that is an `i64` and a
-- positive unit: `+N` refuses it, `-N` accepts it exactly if N is positive or it lies a whole unit
-- ahead, and `N` accepts it exactly if N is 0 and it lies less than a unit ahead.
pub matches_future :
    (m : Meta) (now : ℤ) (field : TimeField) (late u n : ℕ)
    → 0 < u
    → now -ℤ time_of field m ≡ negsuc late
    → IsI64 (negsuc late)
    → (matches (record { cmp = greater (pos n); unit_secs = u; field = field }) m now ≡ false)
      × ((matches (record { cmp = less (pos n); unit_secs = u; field = field }) m now ≡ true)
          ↔ ((0 < n) ⊎ (u ≤ suc late)))
      × ((matches (record { cmp = exact (pos n); unit_secs = u; field = field }) m now ≡ true)
          ↔ ((n ≡ 0) × (suc late < u)))
unfolding matches
matches_future m now field late u n h e k =
    rw (elapsed now (time_of field m) (negsuc late) e k)
      (future_verdict n (suc late / u) (suc late) u (zero_units (suc late) u h))
