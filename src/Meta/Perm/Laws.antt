-- ===== src/Meta/Perm/Laws.antt =====
-- src/meta.rs, `PermPred`: the three tests bit by bit, and the modes that the parser gives.
use Prim.Native.Nat.{bit_and}
use native.Mathlib.Decide.{dec_lt, ℕ_discrete}
use minifind.Base.{
  ℕ, ◌+◌, ◌^◌, ◌<◌, ◌≤◌, ◌≡◌, ◌≢◌, ◌⊎◌, inl, inr, ◌↔◌, ◌||◌, not, refl, sym, ap, ◌∙◌, true, false,
  arith, ltb, ◌==◌, ==→≡, ≡→==, if◌then◌else◌, all_below, all_below_sound, Bool-cases, Option, none,
  some, [], ◌∷◌, ok, All, all, is_empty,
}
use minifind.Base.Text.{Text, parse_unsigned, u32_max, digits_of, strip_prefix}
use minifind.Base.Text.RoundTrip.{
  IsDigitChar, digits_of-cons, parse_unsigned-digits_of, digits_of-IsDigitChar, first_IsDigitChar,
}
use minifind.Base.Bits.{
  bit, bit-bit_and, bit-le_one, bit-high, bit-zero, bit_ext_below, lt_of_bits, bit_and-eq_iff,
  digit_of_nonzero,
}
use minifind.Meta.Symbolic.Laws.{parse_symbolic_mode-lt}
use minifind.Meta.Perm.{PermKind, matches, parse_mode, parse, is_octal, in_range}

permission_bits : (i : ℕ) → bit i 0o7777 ≡ (if ltb i 12 then 1 else 0)
unfolding bit all_below
permission_bits i = elim (dec_lt i 12) [
  | yes low ↦
      ==→≡ _ _
        (all_below_sound 12 (λ i. bit i 0o7777 == (if ltb i 12 then 1 else 0)) i low_bits low)
  | no high ↦ bit-high 12 i 0o7777 (omega arith) (omega arith) ∙ ground arith
]
  where
    low_bits : all_below 12 (λ i. bit i 0o7777 == (if ltb i 12 then 1 else 0)) ≡ true
    low_bits = refl

-- `& 0o7777` keeps the twelve low bits.
masked-bit : (m i : ℕ) → bit i (bit_and m 0o7777) ≡ (if ltb i 12 then bit i m else 0)
masked-bit m i = bit-bit_and i m 0o7777 ∙ rw (permission_bits i) (ground (arith, bit-le_one i m))

abbrev low : ℕ → ℕ
low st = bit_and st 0o7777

low-lt : (st : ℕ) → low st < 2 ^ 12
low-lt st = lt_of_bits 12 (low st) (λ i h. masked-bit st i ∙ ground arith)

low-bit : (st i : ℕ) → i < 12 → bit i (low st) ≡ bit i st
low-bit st i h = masked-bit st i ∙ ground arith

exact_iff :
    (mode st : ℕ)
    → mode < 2 ^ 12
    → ((low st == mode) ≡ true) ↔ ((i : ℕ) → i < 12 → bit i st ≡ bit i mode)
exact_iff mode st h = (
  λ e i lt. sym (low-bit st i lt) ∙ ap (bit i) (==→≡ (low st) mode e),
  λ f.
      ≡→== (low st) mode
        (bit_ext_below 12 (low st) mode (low-lt st) h (λ i lt. low-bit st i lt ∙ f i lt)),
)

all_of_iff :
    (mode st : ℕ)
    → mode < 2 ^ 12
    → ((bit_and (low st) mode == mode) ≡ true) ↔ ((i : ℕ) → bit i mode ≤ bit i st)
all_of_iff mode st h = (
  λ e i. ground (
    arith,
    masked-bit st i,
    (bit_and-eq_iff (low st) mode).0 (==→≡ (bit_and (low st) mode) mode e) i,
  ),
  λ f. ≡→== (bit_and (low st) mode) mode (
      (bit_and-eq_iff (low st) mode).1 (λ i. elim (dec_lt i 12) [
        | yes lt ↦ omega (arith, low-bit st i lt, f i)
        | no ge ↦ omega (arith, bit-high 12 i mode h (omega arith))
      ])),
)

shared_bit : (mode st : ℕ) → bit_and (low st) mode ≢ 0 → (i : ℕ) × (bit i mode ≡ 1) × (bit i st ≡ 1)
shared_bit mode st h =
    let (i, e) = digit_of_nonzero (bit_and (low st) mode) h in
    let s = bit-bit_and i (low st) mode in
    let m = masked-bit st i in
    (
      i,
      omega (arith, bit-le_one i mode, bit-le_one i (low st)),
      ground (arith, bit-le_one i mode, bit-le_one i st),
    )

any_of_iff :
    (mode st : ℕ)
    → mode < 2 ^ 12
    → (((mode == 0) || not (bit_and (low st) mode == 0)) ≡ true)
      ↔ ((mode ≡ 0) ⊎ ((i : ℕ) × (bit i mode ≡ 1) × (bit i st ≡ 1)))
any_of_iff mode st h = (
  λ e. elim (ℕ_discrete mode 0) [
    | yes zero ↦ inl zero
    | no nonzero ↦ inr (shared_bit mode st (λ z. ground arith))
  ],
  λ f. elim f [
    | inl z ↦ ground arith
    | inr (i, m, s) ↦ elim (dec_lt i 12) [
      | yes lt ↦
          let n : bit_and (low st) mode ≢ 0 = λ z. absurd (
            omega
              (arith, bit-bit_and i (low st) mode, low-bit st i lt, ap (bit i) z, bit-zero i)) in
          ground arith
      | no ge ↦ absurd (omega (arith, bit-high 12 i mode h (omega arith)))
    ]
  ],
)

-- For a mode of permission bits: exact means that the twelve low bits of the file's mode are those
-- of the mode; all-of that each bit of the mode is set in the file's mode; any-of that some bit
-- of the mode is, or that the mode is 0.
pub bits_iff :
    (mode st : ℕ)
    → mode < 2 ^ 12
    → ((matches (record { mode = mode; kind = PermKind.exact }) st ≡ true)
        ↔ ((i : ℕ) → i < 12 → bit i st ≡ bit i mode))
      × ((matches (record { mode = mode; kind = PermKind.all_of }) st ≡ true)
          ↔ ((i : ℕ) → bit i mode ≤ bit i st))
      × ((matches (record { mode = mode; kind = PermKind.any_of }) st ≡ true)
          ↔ ((mode ≡ 0) ⊎ ((i : ℕ) × (bit i mode ≡ 1) × (bit i st ≡ 1))))
unfolding matches
bits_iff mode st h = (exact_iff mode st h, all_of_iff mode st h, any_of_iff mode st h)

in_range-lt : (s : Text) (o : Option ℕ) {m : ℕ} → in_range s o ≡ ok m → m < 2 ^ 12
in_range-lt s none e = cc
in_range-lt s (some v) {m} e = ground arith

-- A mode that the parser accepts, octal or symbolic, has permission bits alone: it is less than
-- 2^12.
pub parse_mode-lt : (s : Text) {m : ℕ} → parse_mode s ≡ ok m → m < 2 ^ 12
unfolding parse_mode
parse_mode-lt s e = elim (Bool-cases (is_empty s)) [
  | inl empty ↦ cc (rw empty at e)
  | inr full ↦ elim (Bool-cases (all is_octal s)) [
    | inl octal ↦ in_range-lt s (parse_unsigned 8 u32_max s) (rw (full, octal) at e)
    | inr other ↦ parse_symbolic_mode-lt s (rw (full, other) at e)
  ]
]

octal_digits : (s : Text) → All (λ c. IsDigitChar c × (c < b'0' + 8)) s → all is_octal s ≡ true
octal_digits [] h = refl
octal_digits (c ∷ s) h = ground (arith, octal_digits s h.1)

parse_mode-octal : (m : ℕ) → m ≤ 0o7777 → parse_mode (digits_of 8 m m) ≡ ok m
unfolding parse_mode
parse_mode-octal m h =
    let (c, s, q) = digits_of-cons 8 (omega arith) (omega arith) m m in
    let v =
      parse_unsigned-digits_of 8 (omega arith) (omega arith) u32_max m m (omega arith)
        (omega arith) in
    let d =
      octal_digits (digits_of 8 m m) (digits_of-IsDigitChar 8 (omega arith) (omega arith) m m) in
    let full : is_empty (digits_of 8 m m) ≡ false = rw q refl in rw (full, d, v) (ground arith)

no_prefix :
    (m : ℕ)
    → (strip_prefix b'/' (digits_of 8 m m) ≡ none) × (strip_prefix b'-' (digits_of 8 m m) ≡ none)
no_prefix m =
    let (c, s, q) = digits_of-cons 8 (omega arith) (omega arith) m m in
    let d = first_IsDigitChar 8 (omega arith) (omega arith) m m c s q in
    (rw q (ground arith), rw q (ground arith))

-- The octal writing of any permission bits is parsed to them, with each of the three prefixes.
pub parse-octal :
    (m : ℕ)
    → m ≤ 0o7777
    → (parse (digits_of 8 m m) ≡ ok (record { mode = m; kind = PermKind.exact }))
      × (parse (b'-' ∷ digits_of 8 m m) ≡ ok (record { mode = m; kind = PermKind.all_of }))
      × (parse (b'/' ∷ digits_of 8 m m) ≡ ok (record { mode = m; kind = PermKind.any_of }))
unfolding parse
parse-octal m h =
    let e : parse_mode (digits_of 8 m m) ≡ ok m = parse_mode-octal m h in
    (rw (no_prefix m).0 (rw (no_prefix m).1 (rw e)), rw e, rw e)
