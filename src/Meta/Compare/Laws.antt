-- ===== src/Meta/Compare/Laws.antt =====
-- src/meta.rs, `Comparison`: what the parser accepts, and when saturation keeps the verdict.
use mathlib.Core.Path.{subst}
use minifind.Base.{
  ℕ, suc, ◌+◌, ◌≤◌, ◌<◌, Bool, true, false, ◌≡◌, refl, sym, ap, ◌∙◌, ◌≢◌, ◌↔◌, arith, ◌∷◌, Option,
  none, some, ok,
}
use minifind.Base.Int.{ℤ, pos, negsuc, i64_max, IsI64, pos_part, neg_part}
use minifind.Base.Text.{Text, strip_prefix, parse_i64, unsigned}
use minifind.Base.Text.Bounds.{parse_i64-IsI64}
use minifind.Base.Text.RoundTrip.{
  decimal, parse_i64-decimal, unsigned-digits_of, digits_of-cons, first_IsDigitChar,
}
use minifind.Meta.Compare.{
  Comparison, exact, greater, less, parse, number, signed_or_plain, matches, matches_u64, threshold,
}

unsigned-decimal : (limit n : ℕ) → n ≤ limit → unsigned 10 limit (decimal n) ≡ some n
unsigned-decimal limit n h =
    unsigned-digits_of 10 (omega arith) (omega arith) limit n n (omega arith) h

-- Whether the comparison is `-N`.
abbrev pub is_less : Comparison → Bool
is_less (less n) = true
is_less _ = false

-- For a threshold that is an `i64`, the verdict on an unsigned field differs from the exact one
-- exactly where the threshold is `i64::MAX`, the field lies above it, and the comparison is not
-- `-N`.
pub matches_u64-ne_iff :
    (c : Comparison) (v : ℕ)
    → IsI64 (threshold c)
    → (matches_u64 c v ≢ matches c (pos v))
      ↔ ((threshold c ≡ pos i64_max) × (is_less c ≡ false) × (i64_max < v))
unfolding matches_u64
matches_u64-ne_iff (exact (pos n)) v h = (λ d. ground arith, λ d. ground arith)
matches_u64-ne_iff (exact (negsuc n)) v h = (λ d. ground arith, λ d. ground arith)
matches_u64-ne_iff (greater (pos n)) v h = (λ d. ground arith, λ d. ground arith)
matches_u64-ne_iff (greater (negsuc n)) v h = (λ d. ground arith, λ d. ground arith)
matches_u64-ne_iff (less (pos n)) v h = (λ d. ground arith, λ d. ground arith)
matches_u64-ne_iff (less (negsuc n)) v h = (λ d. ground arith, λ d. ground arith)

number-IsI64 :
    (ctor : ℤ → Comparison) (s num : Text) (o : Option ℤ) {c : Comparison}
    → ((v : ℤ) → threshold (ctor v) ≡ v)
    → parse_i64 num ≡ o
    → number ctor s o ≡ ok c
    → IsI64 (threshold c)
number-IsI64 ctor s num none same e h = cc
number-IsI64 ctor s num (some v) {c} same e h =
    let k : ctor v ≡ c = cc h in subst IsI64 (sym (same v) ∙ ap threshold k) (parse_i64-IsI64 num e)

signed_or_plain-IsI64 :
    (s : Text) (plus minus : Option Text) {c : Comparison}
    → signed_or_plain s plus minus ≡ ok c
    → IsI64 (threshold c)
signed_or_plain-IsI64 s (some n) m h = number-IsI64 greater s n (parse_i64 n) (λ v. refl) refl h
signed_or_plain-IsI64 s none (some n) h = number-IsI64 less s n (parse_i64 n) (λ v. refl) refl h
signed_or_plain-IsI64 s none none h = number-IsI64 exact s s (parse_i64 s) (λ v. refl) refl h

-- Every threshold that the parser accepts is an `i64`.
pub parse-IsI64 : (s : Text) {c : Comparison} → parse s ≡ ok c → IsI64 (threshold c)
unfolding parse
parse-IsI64 s h = signed_or_plain-IsI64 s (strip_prefix b'+' s) (strip_prefix b'-' s) h

-- The find-style writing of a comparison with a threshold that is not negative.
abbrev pub written : Comparison → Text
written (exact z) = decimal (pos_part z)
written (greater z) = b'+' ∷ decimal (pos_part z)
written (less z) = b'-' ∷ decimal (pos_part z)

abbrev pub IsPlain : Comparison → Type 0
IsPlain c = (neg_part (threshold c) ≡ 0) × (pos_part (threshold c) ≤ i64_max)

decimal-strip :
    (n : ℕ) → (strip_prefix b'+' (decimal n) ≡ none) × (strip_prefix b'-' (decimal n) ≡ none)
decimal-strip n =
    let (c, s, q) = digits_of-cons 10 (omega arith) (omega arith) n n in
    let d = first_IsDigitChar 10 (omega arith) (omega arith) n n c s q in
    (rw q (ground arith), rw q (ground arith))

-- Writing a comparison whose threshold is an `i64` and not negative in find's style and parsing it
-- gives it back.
pub parse-written : (c : Comparison) → IsPlain c → parse (written c) ≡ ok c
unfolding parse
parse-written (exact (pos n)) h =
    rw ((decimal-strip n).0, (decimal-strip n).1, parse_i64-decimal n h.1)
parse-written (greater (pos n)) h = rw (parse_i64-decimal n h.1)
parse-written (less (pos n)) h = rw (parse_i64-decimal n h.1)
parse-written (exact (negsuc n)) h = absurd (omega arith)
parse-written (greater (negsuc n)) h = absurd (omega arith)
parse-written (less (negsuc n)) h = absurd (omega arith)

-- For n below `i64::MAX`, a second sign after the first is accepted, and read as the sign of the
-- number: `+-(n+1)`, `--(n+1)` and `++n`.
pub parse-second_sign :
    (n : ℕ)
    → n < i64_max
    → (parse (b'+' ∷ b'-' ∷ decimal (suc n)) ≡ ok (greater (negsuc n)))
      × (parse (b'-' ∷ b'-' ∷ decimal (suc n)) ≡ ok (less (negsuc n)))
      × (parse (b'+' ∷ b'+' ∷ decimal n) ≡ ok (greater (pos n)))
unfolding parse parse_i64
parse-second_sign n h = (
  rw (unsigned-decimal (i64_max + 1) (suc n) (omega arith)),
  rw (unsigned-decimal (i64_max + 1) (suc n) (omega arith)),
  rw (unsigned-decimal i64_max n (omega arith)),
)
