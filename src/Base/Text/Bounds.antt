-- ===== src/Base/Text/Bounds.antt =====
-- What the number parsers return lies in the range of their type.
use Prim.Native.Nat.{ℕ, zero, suc, ◌+◌, ◌≤◌}
use mathlib.Core.Path.{◌≡◌, subst}
use mathlib.Core.Logic.{inl, inr}
use mathlib.Core.Option.{some}
use mathlib.Core.List.{[], ◌∷◌}
use native.Mathlib.Omega.{arith}
use minifind.Base.Test.{◌==◌, Bool-cases, map_some-eq_some, if◌then◌else◌, Option-cases}
use minifind.Base.Int.{ℤ, pos, negate, IsI64, i64_max}
use minifind.Base.Text.{Text, digits_value, unsigned, parse_unsigned, parse_i64}

pub unsigned-le : (radix limit : ℕ) (s : Text) {v : ℕ} → unsigned radix limit s ≡ some v → v ≤ limit
unfolding unsigned
unsigned-le radix limit [] h = cc
unsigned-le radix limit (c ∷ s) h = elim (Option-cases (digits_value radix 0 (c ∷ s))) [
  | inl e ↦ cc (rw (e, unsigned) at h)
  | inr (w, e) ↦ let k = rw (e, unsigned) at h in ground arith
]

pub parse_unsigned-le :
    (radix limit : ℕ) (s : Text) {v : ℕ} → parse_unsigned radix limit s ≡ some v → v ≤ limit
unfolding parse_unsigned
parse_unsigned-le radix limit [] h = cc
parse_unsigned-le radix limit (c ∷ s) h = unsigned-le radix limit (if c == b'+' then s else c ∷ s) h

negate-IsI64 : (v : ℕ) → v ≤ i64_max + 1 → IsI64 (negate v)
negate-IsI64 zero h = omega arith
negate-IsI64 (suc v) h = omega arith

pub parse_i64-IsI64 : (s : Text) {z : ℤ} → parse_i64 s ≡ some z → IsI64 z
unfolding parse_i64
parse_i64-IsI64 [] h = cc
parse_i64-IsI64 (c ∷ s) h = elim (Bool-cases (c == b'-')) [
  | inl e ↦
      let (v, p, q) = map_some-eq_some negate (unsigned 10 (i64_max + 1) s) (rw e at h) in
      subst IsI64 q (negate-IsI64 v (unsigned-le 10 (i64_max + 1) s p))
  | inr e ↦
      let digits : Text = if c == b'+' then s else c ∷ s in
      let (v, p, q) = map_some-eq_some pos (unsigned 10 i64_max digits) (rw e at h) in
      subst IsI64 q (omega (arith, unsigned-le 10 i64_max digits p))
]
