-- ===== src/FileType/Laws.antt =====
-- src/filetype.rs: the mask selects the types that the selectors name.
use minifind.Base.{
  ℕ, ◌<◌, ◌≡◌, refl, ◌∙◌, max, Bool, true, false, not, ◌&&◌, ◌||◌, List, [], ◌∷◌, any, arith, ◌==◌,
  if◌then◌else◌, ◌^◌,
}
use minifind.Base.Bits.{
  bit, bit-bit_or, bit-bit_and, bit_and-two_pow, bit_and_comm, bit-two_pow, bit-high, bit-zero,
  lt_of_bits,
}
use minifind.Base.Text.{Text}
use minifind.Args.Types.{FileType as Selector}
use minifind.FileType.{
  FileType, EntryType, Probe, select, select_all, new, type_bit, is_empty_entry, ignore_filetype,
  is_dir, bit_and, bit_or,
}

-- The position of a selector's bit; `empty` has none.
abbrev position : Selector → ℕ
position Selector.file = 0
position Selector.directory = 1
position Selector.symlink = 2
position Selector.block_device = 3
position Selector.char_device = 4
position Selector.pipe = 5
position Selector.socket = 6
position Selector.empty = 7

abbrev pub same : Selector → Selector → Bool
same v w = position v == position w

-- Whether a selector is listed.
abbrev pub lists : Selector → List Selector → Bool
lists v = any (λ w. same w v)

-- The selector that names the type.
abbrev pub selector_of : EntryType → Selector
selector_of EntryType.file = Selector.file
selector_of EntryType.dir = Selector.directory
selector_of EntryType.symlink = Selector.symlink
selector_of EntryType.block_device = Selector.block_device
selector_of EntryType.char_device = Selector.char_device
selector_of EntryType.fifo = Selector.pipe
selector_of EntryType.socket = Selector.socket

abbrev digit : Bool → ℕ
digit b = if b then 1 else 0

added : (k i s : ℕ) → bit i (bit_or s (2 ^ k)) ≡ max (bit i s) (digit (k == i))
added k i s = bit-bit_or i s (2 ^ k) ∙ rw (bit-two_pow i k) (ground arith)

select-bit :
    (v w : Selector) (f : FileType)
    → position w < 7
    → bit (position w) (select v f).selected ≡ max (bit (position w) f.selected) (digit (same v w))
unfolding select
select-bit Selector.file w f h = added 0 (position w) f.selected
select-bit Selector.directory w f h = added 1 (position w) f.selected
select-bit Selector.symlink w f h = added 2 (position w) f.selected
select-bit Selector.block_device w f h = added 3 (position w) f.selected
select-bit Selector.char_device w f h = added 4 (position w) f.selected
select-bit Selector.pipe w f h = added 5 (position w) f.selected
select-bit Selector.socket w f h = added 6 (position w) f.selected
select-bit Selector.empty w f h = ground arith

select_all-bit :
    (vs : List Selector) (w : Selector) (f : FileType)
    → position w < 7
    → bit (position w) (select_all vs f).selected
      ≡ max (bit (position w) f.selected) (digit (lists w vs))
unfolding select_all
select_all-bit [] w f h = omega arith
select_all-bit (v ∷ vs) w f h =
    ground (arith, select_all-bit vs w (select v f) h, select-bit v w f h)

select_all-empty :
    (vs : List Selector) (f : FileType)
    → (select_all vs f).empty ≡ (f.empty || lists Selector.empty vs)
unfolding select_all select
select_all-empty [] f = ground arith
select_all-empty (v ∷ vs) f = ground (arith, select_all-empty vs (select v f))

abbrev file_or_dir : EntryType → Bool
file_or_dir EntryType.file = true
file_or_dir EntryType.dir = true
file_or_dir _ = false

-- The types that a list of selectors asks for: those it names, and files and directories if it
-- holds `empty` and neither of the two.
abbrev pub wants : List Selector → EntryType → Bool
wants vs ty =
    lists (selector_of ty) vs
    || (lists Selector.empty vs
        && (not (lists Selector.file vs || lists Selector.directory vs) && file_or_dir ty))

type_bit-power : (ty : EntryType) → type_bit ty ≡ 2 ^ position (selector_of ty)
unfolding type_bit
type_bit-power EntryType.file = refl
type_bit-power EntryType.dir = refl
type_bit-power EntryType.symlink = refl
type_bit-power EntryType.block_device = refl
type_bit-power EntryType.char_device = refl
type_bit-power EntryType.fifo = refl
type_bit-power EntryType.socket = refl

position-lt : (ty : EntryType) → position (selector_of ty) < 7
position-lt EntryType.file = omega arith
position-lt EntryType.dir = omega arith
position-lt EntryType.symlink = omega arith
position-lt EntryType.block_device = omega arith
position-lt EntryType.char_device = omega arith
position-lt EntryType.fifo = omega arith
position-lt EntryType.socket = omega arith

abbrev start : FileType
start = record { selected = 0; empty = false }

loop-bit :
    (vs : List Selector) (w : Selector)
    → position w < 7
    → bit (position w) (select_all vs start).selected ≡ digit (lists w vs)
loop-bit vs w h = select_all-bit vs w start h ∙ rw (bit-zero (position w)) (ground arith)

three-lt : (s : ℕ) → bit_and s 3 < 2 ^ 2
three-lt s =
    lt_of_bits 2 (bit_and s 3)
      (λ i h. omega (arith, bit-bit_and i s 3, bit-high 2 i 3 (omega arith) h))

mask_of_three : (s : ℕ) → (bit_and s 3 == 0) ≡ ((bit 0 s == 0) && (bit 1 s == 0))
unfolding bit
mask_of_three s = ground (arith, three-lt s, bit-bit_and 0 s 3, bit-bit_and 1 s 3)

-- The mask with both bits misses exactly where both digits are 0.
both_missing :
    (vs : List Selector)
    → (bit_and (select_all vs start).selected 3 == 0)
      ≡ not (lists Selector.file vs || lists Selector.directory vs)
both_missing vs = ground (
  arith,
  mask_of_three (select_all vs start).selected,
  loop-bit vs Selector.file (omega arith),
  loop-bit vs Selector.directory (omega arith),
)

three-bit : (ty : EntryType) → bit (position (selector_of ty)) 3 ≡ digit (file_or_dir ty)
unfolding bit
three-bit EntryType.file = refl
three-bit EntryType.dir = refl
three-bit EntryType.symlink = refl
three-bit EntryType.block_device = refl
three-bit EntryType.char_device = refl
three-bit EntryType.fifo = refl
three-bit EntryType.socket = refl

new-bit :
    (vs : List Selector) (ty : EntryType)
    → bit (position (selector_of ty)) (new vs).selected ≡ digit (wants vs ty)
unfolding new
new-bit vs ty = ground (
  arith,
  loop-bit vs (selector_of ty) (position-lt ty),
  both_missing vs,
  select_all-empty vs start,
  bit-bit_or (position (selector_of ty)) (select_all vs start).selected 3,
  three-bit ty,
)

new-empty : (vs : List Selector) → (new vs).empty ≡ lists Selector.empty vs
unfolding new
new-empty vs = ground (arith, select_all-empty vs start)

-- An entry is skipped exactly if its type is not wanted, or the selectors hold `empty` and the
-- entry is not empty.
pub ignore_filetype-wants :
    (fs : Probe) (vs : List Selector) (ty : EntryType) (path : Text)
    → ignore_filetype fs (new vs) ty path
      ≡ (not (wants vs ty) || (lists Selector.empty vs && not (is_empty_entry fs path (is_dir ty))))
unfolding ignore_filetype
ignore_filetype-wants fs vs ty path =
    rw
      (
        type_bit-power ty,
        bit_and_comm (2 ^ position (selector_of ty)) (new vs).selected,
        bit_and-two_pow (new vs).selected (position (selector_of ty)),
        new-bit vs ty,
        new-empty vs,
      )
      (ground arith)
