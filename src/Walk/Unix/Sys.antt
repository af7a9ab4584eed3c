-- ===== src/Walk/Unix/Sys.antt =====
-- The calls that src/walk/unix.rs makes of the crate rustix and of the standard library, as a record
-- of parameters, with their flags and results.
use minifind.Base.{ℕ, Bool, Option, List}
use minifind.Base.Int.{ℤ}
use minifind.Base.Text.{Text}

-- The flags of the calls. A set of flags is the list of those put together by `|`.
pub data OFlag : Type 0 where
  rdonly directory cloexec nofollow : OFlag

pub data AtFlag : Type 0 where
  symlink_nofollow : AtFlag

pub data AccessFlag : Type 0 where
  read_ok write_ok exec_ok : AccessFlag

pub data StatxFlag : Type 0 where
  size mtime ctime atime mode uid gid nlink ino : StatxFlag

pub data RFileType : Type 0 where
  regular_file directory symlink block_device character_device fifo socket unknown : RFileType

-- `EMFILE`, `ENFILE`, any other error.
pub data Errno : Type 0 where
  mfile nfile other : Errno

pub data Opening (Fd : Type 0) : Type 0 where
  opened : Fd → Opening Fd
  failed : Errno → Opening Fd

pub record Stat : Type 0 where
  pub st_dev : ℕ
  pub st_ino : ℕ
  pub st_mode : ℕ
  pub st_size : ℤ
  pub st_mtime : ℤ
  pub st_ctime : ℤ
  pub st_atime : ℤ
  pub st_uid : ℕ
  pub st_gid : ℕ
  pub st_nlink : ℕ

pub record Statx : Type 0 where
  pub stx_size : ℕ
  pub stx_mtime : ℤ
  pub stx_ctime : ℤ
  pub stx_atime : ℤ
  pub stx_mode : ℕ
  pub stx_uid : ℕ
  pub stx_gid : ℕ
  pub stx_nlink : ℕ
  pub stx_ino : ℕ

-- The calls on a file system that does not change; `none` for a descriptor is `CWD`. `read_dir` is
-- `Dir::read_from` with the items that its iterator yields, each a name and a type, or an error.
pub record Calls (Fd : Type 0) : Type 0 where
  pub openat : Option Fd → Text → List OFlag → Opening Fd
  pub statat : Option Fd → Text → List AtFlag → Option Stat
  pub fstat : Fd → Option Stat
  pub statx : Option Fd → Text → List AtFlag → List StatxFlag → Option Statx
  pub accessat : Option Fd → Text → List AccessFlag → Bool
  pub readlinkat : Option Fd → Text → Option Text
  pub read_dir : Fd → Option (List (Option (Text × RFileType)))
  -- `RFileType::from_raw_mode`, `Path::join` and `Path::file_name`.
  pub from_raw_mode : ℕ → RFileType
  pub join : Text → Text → Text
  pub file_name : Text → Option Text
