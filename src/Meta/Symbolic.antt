-- ===== src/Meta/Symbolic.antt =====
-- src/meta.rs, `parse_symbolic_mode`: the symbolic modes of `-perm`, such as `u+w,g-x`. The code
-- reads bytes; a byte of a character outside ASCII is none of the letters, as its code point is.
pub mod Laws
use Prim.Native.Nat.{bit_and, bit_or}
use minifind.Base.{
  ℕ, ◌-◌, ◌*◌, ◌^◌, Bool, true, false, not, Option, none, some, List, [], ◌∷◌, ◌==◌, if◌then◌else◌,
  Result, ok, err, expected_op, invalid_perm_char, ◌>>=◌,
}
use minifind.Base.Text.{Text, u32_max}

-- `s.split(',')`: never empty.
prepend : ℕ → List Text → List Text
prepend c [] = (c ∷ []) ∷ []
prepend c (w ∷ ws) = (c ∷ w) ∷ ws

unfoldable pub split : ℕ → Text → List Text
unfolding prepend
split sep [] = [] ∷ []
split sep (c ∷ s) = let rest = split sep s in if c == sep then [] ∷ rest else prepend c rest

-- The bit of a letter that says who is meant.
unfoldable pub who_bit : ℕ → Option ℕ
who_bit b =
    if b == b'u'
    then some 0b100
    else if b == b'g'
    then some 0b010
    else if b == b'o'
    then some 0b001
    else if b == b'a'
    then some 0b111
    else none

-- The first loop: the letters of who, and what follows them.
unfoldable pub read_who : ℕ → Text → ℕ × Text
unfolding who_bit
read_who who [] = (who, [])
read_who who (b ∷ s) = elim (who_bit b) [ none ↦ (who, b ∷ s) | some v ↦ read_who (bit_or who v) s ]

pub record Flags : Type 0 where
  pub r : Bool
  pub w : Bool
  pub x : Bool
  pub s : Bool
  pub t : Bool

abbrev pub no_flags : Flags
no_flags = record { r = false; w = false; x = false; s = false; t = false }

-- The flags after one more letter.
unfoldable pub with_letter : ℕ → Flags → Option Flags
with_letter b f =
    if b == b'r'
    then some (record f { r = true })
    else if b == b'w'
    then some (record f { w = true })
    else if b == b'x'
    then some (record f { x = true })
    else if b == b's'
    then some (record f { s = true })
    else if b == b't'
    then some (record f { t = true })
    else none

-- The second loop: it must reach the end of the clause.
unfoldable pub read_flags : Text → Flags → Text → Result Flags
unfolding with_letter
read_flags clause f [] = ok f
read_flags clause f (b ∷ s) = elim (with_letter b f) [
  | none ↦ err (invalid_perm_char clause)
  | some g ↦ read_flags clause g s
]

abbrev digit : Bool → ℕ
digit true = 1
digit false = 0

-- `bits |= n` under a condition.
abbrev or_if : Bool → ℕ → ℕ → ℕ
or_if b n bits = if b then bit_or bits n else bits

-- `who & k != 0`.
abbrev pub meant : ℕ → ℕ → Bool
meant who k = not (bit_and who k == 0)

-- The mode bits of a clause, from the three tests of `who` and the letters.
unfoldable pub bits_for : Bool → Bool → Bool → Flags → ℕ
bits_for user group other f =
    let rwx : ℕ = bit_or (bit_or (digit f.r * 2 ^ 2) (digit f.w * 2 ^ 1)) (digit f.x) in
    let u : ℕ = if user then or_if f.s 0o4000 (bit_or 0 (rwx * 2 ^ 6)) else 0 in
    let g : ℕ = if group then or_if f.s 0o2000 (bit_or u (rwx * 2 ^ 3)) else u in
    let o : ℕ = or_if other rwx g in or_if f.t 0o1000 o

-- The bits that `=` clears.
unfoldable pub clear_for : Bool → Bool → Bool → ℕ
clear_for user group other =
    let u : ℕ = or_if user (bit_or 0o700 0o4000) 0 in
    let g : ℕ = or_if group (bit_or 0o070 0o2000) u in or_if other (bit_or 0o007 0o1000) g

-- `!n` of a `u32`.
abbrev pub complement : ℕ → ℕ
complement n = u32_max - n

-- `match op`, for the three operators that the parser lets through.
unfoldable pub apply_op : ℕ → ℕ → ℕ → ℕ → ℕ
apply_op op bits clear mode =
    if op == b'+'
    then bit_or mode bits
    else if op == b'-'
    then bit_and mode (complement bits)
    else bit_or (bit_and mode (complement clear)) bits

unfoldable pub apply : ℕ → ℕ → Flags → ℕ → ℕ
unfolding apply_op
apply op who f mode =
    apply_op op (bits_for (meant who 0b100) (meant who 0b010) (meant who 0b001) f)
      (clear_for (meant who 0b100) (meant who 0b010) (meant who 0b001)) mode

abbrev pub is_op : ℕ → Bool
is_op b = if b == b'+' then true else if b == b'-' then true else b == b'='

-- The rest of a clause, after the letters of who.
unfoldable pub read_op : Text → ℕ → Text → ℕ → Result ℕ
unfolding apply read_flags
read_op clause who [] mode = err (expected_op clause)
read_op clause who (b ∷ s) mode =
    if is_op b
    then (read_flags clause no_flags s >>= λ f. ok (apply b who f mode))
    else err (expected_op clause)

-- No letter of who means all.
abbrev pub default_who : ℕ → ℕ
default_who who = if who == 0 then 0b111 else who

unfoldable pub parse_clause : Text → ℕ → Result ℕ
unfolding read_who read_op
parse_clause clause mode =
    let (who, rest) = read_who 0 clause in read_op clause (default_who who) rest mode

unfoldable pub parse_clauses : List Text → ℕ → Result ℕ
unfolding parse_clause
parse_clauses [] mode = ok mode
parse_clauses (c ∷ cs) mode = parse_clause c mode >>= parse_clauses cs

unfoldable pub parse_symbolic_mode : Text → Result ℕ
unfolding parse_clauses split
parse_symbolic_mode s = parse_clauses (split b',' s) 0
