-- ===== src/Walk/Unix/Leaf.antt =====
-- src/walk/unix.rs: the operations, over the system calls.
pub mod Listing
pub mod Open
pub mod Metadata
use Prim.Native.Nat.{bit_and}
use minifind.Base.{
  ℕ, ◌+◌, Bool, true, false, not, ◌||◌, Option, none, some, List, [], ◌∷◌, ◌++◌, ◌==◌,
  if◌then◌else◌,
}
use minifind.Base.Int.{ℤ, pos, negsuc}
use minifind.Base.Text.{Text, codes, text_eq}
use minifind.Meta.Fields.{Meta}
use minifind.Meta.Mask
use minifind.FileType.{EntryType}
use minifind.Walk.{FileId, Listed}
use minifind.Walk.Reads.{
  Read, unreadable, passed_over, entry, for_reads, for_opened, read_each, read_all,
}
use minifind.Walk.Unix.Sys.{
  OFlag, AtFlag, AccessFlag, StatxFlag, RFileType, Errno, Opening, opened, failed, Stat, Statx,
  Calls,
}

unfoldable pub dir_flags : Bool → List OFlag
dir_flags follow =
    let flags : List OFlag = OFlag.rdonly ∷ OFlag.directory ∷ OFlag.cloexec ∷ [] in
    if not follow then flags ++ (OFlag.nofollow ∷ []) else flags

unfoldable pub map_type : RFileType → Option EntryType
map_type RFileType.regular_file = some EntryType.file
map_type RFileType.directory = some EntryType.dir
map_type RFileType.symlink = some EntryType.symlink
map_type RFileType.block_device = some EntryType.block_device
map_type RFileType.character_device = some EntryType.char_device
map_type RFileType.fifo = some EntryType.fifo
map_type RFileType.socket = some EntryType.socket
map_type RFileType.unknown = none

abbrev pub id_of : Option Stat → Option FileId
id_of none = none
id_of (some st) = some (st.st_dev, st.st_ino)

unfoldable pub stat_flags : Bool → List AtFlag
stat_flags follow = if follow then [] else AtFlag.symlink_nofollow ∷ []

-- The table of `to_statx_flags`.
abbrev pub pairs : List (ℕ × StatxFlag)
pairs =
    (Mask.size, StatxFlag.size)
    ∷ (Mask.mtime, StatxFlag.mtime)
    ∷ (Mask.ctime, StatxFlag.ctime)
    ∷ (Mask.atime, StatxFlag.atime)
    ∷ (Mask.mode, StatxFlag.mode)
    ∷ (Mask.uid, StatxFlag.uid)
    ∷ (Mask.gid, StatxFlag.gid)
    ∷ (Mask.nlink, StatxFlag.nlink)
    ∷ (Mask.ino, StatxFlag.ino)
    ∷ []

-- `if mask & bit != 0 { acc | flag } else { acc }`, also the tests of `do_access`.
abbrev pub or_flag : {A : Type 0} → ℕ → List A → ℕ × A → List A
or_flag mask acc (k, flag) = if not (bit_and mask k == 0) then acc ++ (flag ∷ []) else acc

-- The fold over the table.
unfoldable pub fold_flags : {A : Type 0} → ℕ → List A → List (ℕ × A) → List A
fold_flags mask acc [] = acc
fold_flags mask acc (p ∷ ps) = fold_flags mask (or_flag mask acc p) ps

unfoldable pub to_statx_flags : ℕ → List StatxFlag
unfolding fold_flags
to_statx_flags mask = fold_flags mask [] pairs

abbrev pub meta_of : Statx → Meta
meta_of sx = record {
  size = sx.stx_size;
  mtime = sx.stx_mtime;
  ctime = sx.stx_ctime;
  atime = sx.stx_atime;
  mode = sx.stx_mode;
  uid = sx.stx_uid;
  gid = sx.stx_gid;
  nlink = sx.stx_nlink;
  ino = sx.stx_ino;
}

abbrev pub filled : Option Statx → Option Meta
filled none = none
filled (some sx) = some (meta_of sx)

-- `u64::try_from(st.st_size).unwrap_or(0)`.
abbrev pub size_of : ℤ → ℕ
size_of (pos n) = n
size_of (negsuc n) = 0

abbrev pub filled_by_stat : Option Stat → Option Meta
filled_by_stat none = none
filled_by_stat (some st) = some (record {
  size = size_of st.st_size;
  mtime = st.st_mtime;
  ctime = st.st_ctime;
  atime = st.st_atime;
  mode = st.st_mode;
  uid = st.st_uid;
  gid = st.st_gid;
  nlink = st.st_nlink;
  ino = st.st_ino;
})

abbrev pub is_dots : Text → Bool
is_dots name = text_eq name (codes ".") || text_eq name (codes "..")

module _ {Fd : Type 0} (S : Calls Fd) where
  unfoldable pub path_id : Text → Option FileId
  path_id path = id_of (S.statat none path [])

  unfoldable pub dir_id : Fd → Option FileId
  dir_id fd = id_of (S.fstat fd)

  unfoldable pub open_root : Text → Bool → Opening Fd
  unfolding dir_flags
  open_root path follow = S.openat none path (dir_flags follow)

  -- An absolute open, and the counter `ABS_FALLBACK_COUNT` after it.
  unfoldable pub open_abs : Text → List OFlag → ℕ → Opening Fd × ℕ
  open_abs full flags count = (S.openat none full flags, count + 1)

  abbrev pub or_fall_back : Text → List OFlag → ℕ → Opening Fd → Opening Fd × ℕ
  or_fall_back full flags count (opened fd) = (opened fd, count)
  or_fall_back full flags count (failed Errno.mfile) = open_abs full flags count
  or_fall_back full flags count (failed Errno.nfile) = open_abs full flags count
  or_fall_back full flags count (failed Errno.other) = (failed Errno.other, count)

  unfoldable pub open_child : Fd → Text → Text → Bool → ℕ → Opening Fd × ℕ
  unfolding open_abs
  open_child parent leaf full follow count =
      or_fall_back full (dir_flags follow) count (S.openat (some parent) leaf (dir_flags follow))

  -- The entry's own type, where `readdir` does not give it.
  abbrev pub raw_type : Option Stat → Option EntryType
  raw_type none = none
  raw_type (some st) = map_type (S.from_raw_mode st.st_mode)

  unfoldable pub statat_type : Fd → Text → Option EntryType
  statat_type dir name = raw_type (S.statat (some dir) name (AtFlag.symlink_nofollow ∷ []))

  abbrev pub or_statat : Fd → Text → Option EntryType → Option EntryType
  or_statat fd name none = statat_type fd name
  or_statat fd name (some ty) = some ty

  unfoldable pub entry_type : Fd → Text → RFileType → Option EntryType
  unfolding statat_type map_type
  entry_type fd name ft = or_statat fd name (map_type ft)

  abbrev pub listed : Text → Text → EntryType → Listed
  listed parent name ty = record { path = S.join parent name; leaf = name; file_type = ty }

  abbrev pub entry_if : Text → Text → Option EntryType → Read
  entry_if parent name none = passed_over
  entry_if parent name (some ty) = entry (listed parent name ty)

  -- The loop's body up to the callback.
  unfoldable pub read_item : Fd → Text → Option (Text × RFileType) → Read
  unfolding entry_type
  read_item fd parent none = unreadable
  read_item fd parent (some (name, ft)) =
      if is_dots name then passed_over else entry_if parent name (entry_type fd name ft)

  unfoldable pub for_each_entry :
      {St : Type 0} → (Listed → St → Bool × St) → Fd → Text → St → Bool × St
  unfolding for_reads read_each read_item
  for_each_entry f fd parent st = for_opened f (read_all (read_item fd parent) (S.read_dir fd)) st

  unfoldable pub do_stat : Option Fd → Text → Bool → ℕ → Option Meta
  unfolding to_statx_flags stat_flags
  do_stat dirfd path follow mask =
      filled (S.statx dirfd path (stat_flags follow) (to_statx_flags mask))

  -- `do_stat` on Unix systems other than Linux: a whole `stat`, whatever the mask.
  unfoldable pub do_stat_by_statat : Option Fd → Text → Bool → ℕ → Option Meta
  unfolding stat_flags
  do_stat_by_statat dirfd path follow mask =
      filled_by_stat (S.statat dirfd path (stat_flags follow))

  unfoldable pub do_access : Option Fd → Text → ℕ → Bool
  do_access dirfd path mode =
      let acc0 : List AccessFlag = [] in
      let acc1 = or_flag mode acc0 (Mask.read, AccessFlag.read_ok) in
      let acc2 = or_flag mode acc1 (Mask.write, AccessFlag.write_ok) in
      let acc3 = or_flag mode acc2 (Mask.exec, AccessFlag.exec_ok) in S.accessat dirfd path acc3

  unfoldable pub do_readlink : Option Fd → Text → Option Text
  do_readlink dirfd path = S.readlinkat dirfd path
