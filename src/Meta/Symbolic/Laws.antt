-- ===== src/Meta/Symbolic/Laws.antt =====
-- src/meta.rs, `parse_symbolic_mode`: which bits of the mode a clause adds, removes or sets.
use minifind.Base.{
  ℕ, ◌/◌, ◌%◌, Bool, true, ◌&&◌, ◌≡◌, refl, if◌then◌else◌, ◌==◌, all_below, both, both_sound, ltb,
  max, ◌<◌, ==→≡, min, all_below_sound, ◌-◌, ◌^◌, Bool-cases, arith, inl, [], ◌∷◌, List, ok, ◌∙◌,
  inr, >>=-eq-ok,
}
use Prim.Native.Nat.{bit_and}
use minifind.Base.Bits.{bit, bit-bit_or, bit-bit_and, bit-complement, bit_or-lt, bit_and-lt}
use minifind.Meta.Symbolic.{
  no_flags, read_who, default_who, read_op, read_flags, is_op, parse_clause, parse_clauses,
  parse_symbolic_mode, split, Flags, digit, bits_for, clear_for, apply_op, apply, complement, meant,
  Text,
}

-- Bits 0 to 8 are x, w, r of others, the group and the user; 9 is sticky, 10 set-group-id and
-- 11 set-user-id.
abbrev pub class : Bool → Bool → Bool → ℕ → Bool
class user group other i = if i / 3 == 0 then other else if i / 3 == 1 then group else user

abbrev pub letter : Flags → ℕ → Bool
letter f i = if i % 3 == 0 then f.x else if i % 3 == 1 then f.w else f.r

-- Whether a clause for these classes, with these letters, names bit `i`.
abbrev pub named : Bool → Bool → Bool → Flags → ℕ → Bool
named user group other f i =
    if i == 9
    then f.t
    else if i == 10
    then group && f.s
    else if i == 11
    then user && f.s
    else class user group other i && letter f i

-- Whether `=` for these classes clears bit `i`: `o=` clears the sticky bit.
abbrev pub cleared : Bool → Bool → Bool → ℕ → Bool
cleared user group other i =
    if i == 9
    then other
    else if i == 10
    then group
    else if i == 11
    then user
    else class user group other i

flags : Bool → Bool → Bool → Bool → Bool → Flags
flags r w x s t = record { r = r; w = w; x = x; s = s; t = t }

bits_table :
    both (λ u. both (λ g. both (λ o. both (λ r. both (λ w. both (λ x. both (λ s. both (λ t.
      all_below 12 (λ i.
        bit i (bits_for u g o (flags r w x s t)) == digit (named u g o (flags r w x s t) i))))))))))
    ≡ true
unfolding both all_below bit bits_for flags
bits_table = refl

clear_table :
    both (λ u.
      both
        (λ g. both (λ o. all_below 12 (λ i. bit i (clear_for u g o) == digit (cleared u g o i)))))
    ≡ true
unfolding both all_below bit clear_for
clear_table = refl

-- Every clause names bits below 2^12, and clears none above.
range_table :
    both (λ u. both (λ g. both (λ o. both (λ r. both (λ w. both (λ x. both (λ s.
      both (λ t. ltb (bits_for u g o (flags r w x s t)) 4096 && ltb (clear_for u g o) 4096))))))))
    ≡ true
unfolding both bits_for clear_for flags
range_table = refl

-- An 8-fold table at one row.
row :
    (p : Bool → Bool → Bool → Bool → Bool → Bool → Bool → Bool → Bool) (u g o : Bool) (f : Flags)
    → both (λ u. both (λ g.
      both (λ o. both (λ r. both (λ w. both (λ x. both (λ s. both (λ t. p u g o r w x s t))))))))
      ≡ true
    → p u g o f.r f.w f.x f.s f.t ≡ true
row p u g o f h = both_sound _ f.t (
    both_sound _ f.s (
      both_sound _ f.x
        (both_sound _ f.w (both_sound _ f.r (both_sound _ o (both_sound _ g (both_sound _ u h)))))))

pub bits_for-bit :
    (u g o : Bool) (f : Flags) (i : ℕ) → i < 12 → bit i (bits_for u g o f) ≡ digit (named u g o f i)
unfolding flags
bits_for-bit u g o f i h = ==→≡ _ _ (all_below_sound 12 _ i (row _ u g o f bits_table) h)

pub clear_for-bit :
    (u g o : Bool) (i : ℕ) → i < 12 → bit i (clear_for u g o) ≡ digit (cleared u g o i)
clear_for-bit u g o i h =
    ==→≡ _ _
      (all_below_sound 12 _ i (both_sound _ o (both_sound _ g (both_sound _ u clear_table))) h)

bits_for-lt : (u g o : Bool) (f : Flags) → (bits_for u g o f < 2 ^ 12) × (clear_for u g o < 2 ^ 12)
unfolding flags
bits_for-lt u g o f = ground (arith, row _ u g o f range_table)

complement-bit : (n i : ℕ) → n < 2 ^ 12 → i < 12 → bit i (complement n) ≡ 1 - bit i n
complement-bit n i p q = bit-complement 32 i n (omega arith) (omega arith)

-- The digit of the result at a position, from the digit of the mode before and the two tests.
abbrev pub updated : ℕ → ℕ → Bool → Bool → ℕ
updated op old name clear =
    if op == b'+'
    then max old (digit name)
    else if op == b'-'
    then min old (1 - digit name)
    else max (min old (1 - digit clear)) (digit name)

apply_op-bit :
    (op bits clear mode i : ℕ) (name gone : Bool)
    → bits < 2 ^ 12
    → clear < 2 ^ 12
    → i < 12
    → bit i bits ≡ digit name
    → bit i clear ≡ digit gone
    → bit i (apply_op op bits clear mode) ≡ updated op (bit i mode) name gone
unfolding apply_op
apply_op-bit op bits clear mode i name gone p q h e k = elim (Bool-cases (op == b'+')) [
  | inl plus ↦ rw plus (bit-bit_or i mode bits ∙ rw e)
  | inr other ↦ rw other (elim (Bool-cases (op == b'-')) [
    | inl minus ↦
        rw minus (bit-bit_and i mode (complement bits) ∙ rw (complement-bit bits i p h, e))
    | inr set ↦ rw set (
        bit-bit_or i (bit_and mode (complement clear)) bits
        ∙ rw (bit-bit_and i mode (complement clear), complement-bit clear i q h, e, k))
  ])
]

-- What a clause does to the bit at each position below 12: `+` sets the bits that it names, `-`
-- clears them, and `=` clears the bits of the classes meant and then sets those that it names.
pub apply-bit :
    (op who : ℕ) (f : Flags) (mode i : ℕ)
    → i < 12
    → let user = meant who 0b100 in
      let group = meant who 0b010 in
      let other = meant who 0b001 in
      bit i (apply op who f mode)
      ≡ updated op (bit i mode) (named user group other f i) (cleared user group other i)
unfolding apply
apply-bit op who f mode i h =
    let u = meant who 0b100 in
    let g = meant who 0b010 in
    let o = meant who 0b001 in
    apply_op-bit op (bits_for u g o f) (clear_for u g o) mode i (named u g o f i) (cleared u g o i)
      (bits_for-lt u g o f).0 (bits_for-lt u g o f).1 h (bits_for-bit u g o f i h)
      (clear_for-bit u g o i h)

apply_op-lt :
    (op bits clear mode : ℕ) → bits < 2 ^ 12 → mode < 2 ^ 12 → apply_op op bits clear mode < 2 ^ 12
unfolding apply_op
apply_op-lt op bits clear mode h k = ground (
  arith,
  bit_or-lt 12 mode bits k h,
  bit_and-lt 12 mode (complement bits) k,
  bit_or-lt 12 (bit_and mode (complement clear)) bits (bit_and-lt 12 mode (complement clear) k) h,
)

pub apply-lt : (op who : ℕ) (f : Flags) (mode : ℕ) → mode < 2 ^ 12 → apply op who f mode < 2 ^ 12
unfolding apply
apply-lt op who f mode h =
    apply_op-lt op _ _ mode (bits_for-lt (meant who 0b100) (meant who 0b010) (meant who 0b001) f).0
      h

read_op-lt :
    (clause : Text) (who : ℕ) (s : Text) (mode : ℕ) {m : ℕ}
    → mode < 2 ^ 12
    → read_op clause who s mode ≡ ok m
    → m < 2 ^ 12
unfolding read_op
read_op-lt clause who [] mode h e = cc
read_op-lt clause who (b ∷ s) mode {m} h e = elim (Bool-cases (is_op b)) [
  | inl op ↦
      let (f, _, q) = >>=-eq-ok (read_flags clause no_flags s) _ (rw op at e) in
      let k : apply b who f mode ≡ m = cc q in rw (← k) (apply-lt b who f mode h)
  | inr other ↦ cc (rw other at e)
]

parse_clause-lt :
    (c : Text) (mode : ℕ) {m : ℕ} → mode < 2 ^ 12 → parse_clause c mode ≡ ok m → m < 2 ^ 12
unfolding parse_clause
parse_clause-lt c mode h e =
    let (who, rest) = read_who 0 c in read_op-lt c (default_who who) rest mode h e

parse_clauses-lt :
    (cs : List Text) (mode : ℕ) {m : ℕ} → mode < 2 ^ 12 → parse_clauses cs mode ≡ ok m → m < 2 ^ 12
unfolding parse_clauses
parse_clauses-lt [] mode {m} h e = let k : mode ≡ m = cc e in rw (← k) h
parse_clauses-lt (c ∷ cs) mode h e =
    let (m', p, q) = >>=-eq-ok (parse_clause c mode) (parse_clauses cs) e in
    parse_clauses-lt cs m' (parse_clause-lt c mode h p) q

-- A symbolic mode that is accepted has permission bits alone.
pub parse_symbolic_mode-lt : (s : Text) {m : ℕ} → parse_symbolic_mode s ≡ ok m → m < 2 ^ 12
unfolding parse_symbolic_mode
parse_symbolic_mode-lt s e = parse_clauses-lt (split b',' s) 0 (omega arith) e
