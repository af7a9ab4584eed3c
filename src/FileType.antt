-- ===== src/FileType.antt =====
-- src/filetype.rs: the types of directory entries, and the `--file-type` filter as a bit mask.
pub mod Laws
use Prim.Native.Nat.{bit_and, bit_or}
use minifind.Base.{
  ℕ, ◌^◌, Bool, true, false, not, ◌&&◌, Option, none, some, List, [], ◌∷◌, ◌==◌, if◌then◌else◌,
  is_empty,
}
use minifind.Base.Text.{Text}
use minifind.Args.Types.{FileType as Selector}

abbrev ft_file : ℕ
ft_file = 2 ^ 0

abbrev ft_directory : ℕ
ft_directory = 2 ^ 1

abbrev ft_symlink : ℕ
ft_symlink = 2 ^ 2

abbrev ft_block_device : ℕ
ft_block_device = 2 ^ 3

abbrev ft_char_device : ℕ
ft_char_device = 2 ^ 4

abbrev ft_pipe : ℕ
ft_pipe = 2 ^ 5

abbrev ft_socket : ℕ
ft_socket = 2 ^ 6

pub data EntryType : Type 0 where
  file dir symlink block_device char_device fifo socket : EntryType

pub record FileType : Type 0 where
  pub selected : ℕ
  pub empty : Bool

-- One round of the loop of `new`.
select : Selector → FileType → FileType
select Selector.empty f = record f { empty = true }
select Selector.block_device f = record f { selected = bit_or f.selected ft_block_device }
select Selector.char_device f = record f { selected = bit_or f.selected ft_char_device }
select Selector.directory f = record f { selected = bit_or f.selected ft_directory }
select Selector.pipe f = record f { selected = bit_or f.selected ft_pipe }
select Selector.file f = record f { selected = bit_or f.selected ft_file }
select Selector.symlink f = record f { selected = bit_or f.selected ft_symlink }
select Selector.socket f = record f { selected = bit_or f.selected ft_socket }

select_all : List Selector → FileType → FileType
select_all [] f = f
select_all (v ∷ vs) f = select_all vs (select v f)

-- `--empty` alone stands for files and directories.
expand_empty : FileType → FileType
expand_empty f =
    let both : ℕ = bit_or ft_file ft_directory in
    if f.empty && (bit_and f.selected both == 0)
    then record f { selected = bit_or f.selected both }
    else f

unfoldable pub new : List Selector → FileType
unfolding select_all select expand_empty
new selectors = expand_empty (select_all selectors (record { selected = 0; empty = false }))

unfoldable pub type_bit : EntryType → ℕ
type_bit EntryType.file = ft_file
type_bit EntryType.dir = ft_directory
type_bit EntryType.symlink = ft_symlink
type_bit EntryType.block_device = ft_block_device
type_bit EntryType.char_device = ft_char_device
type_bit EntryType.fifo = ft_pipe
type_bit EntryType.socket = ft_socket

abbrev pub is_dir : EntryType → Bool
is_dir EntryType.dir = true
is_dir _ = false

-- What the emptiness check asks of the file system: the names in a directory, and a file's length.
pub record Probe : Type 0 where
  pub read_dir : Text → Option (List Text)
  pub len : Text → Option ℕ

abbrev no_names : Option (List Text) → Bool
no_names none = false
no_names (some names) = is_empty names

abbrev no_bytes : Option ℕ → Bool
no_bytes none = false
no_bytes (some n) = n == 0

unfoldable pub is_empty_entry : Probe → Text → Bool → Bool
is_empty_entry fs path as_dir =
    if as_dir then no_names (fs.read_dir path) else no_bytes (fs.len path)

unfoldable pub ignore_filetype : Probe → FileType → EntryType → Text → Bool
unfolding type_bit
ignore_filetype fs f ty path =
    if bit_and (type_bit ty) f.selected == 0
    then true
    else f.empty && not (is_empty_entry fs path (is_dir ty))
