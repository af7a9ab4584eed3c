-- ===== src/Walk.antt =====
-- src/walk.rs: the data of the walker, what one task does, and the leaf operations it rests on.
pub mod Process
pub mod System
pub mod Reads
pub mod Unix
pub mod Fallback
use minifind.Base.{
  ℕ, suc, ◌-◌, ◌+◌, Bool, true, false, not, ◌&&◌, ◌||◌, Option, none, some, List, [], ◌∷◌, ◌++◌,
  ltb, leb, ◌==◌, if◌then◌else◌, max,
}
use minifind.Base.Text.{Text}
use minifind.Meta.Fields.{Meta}
use minifind.FileType.{EntryType}
use minifind.Args.Types.{Args}

-- `(dev, ino)`.
abbrev pub FileId : Type 0
FileId = ℕ × ℕ

-- An entry as `for_each_entry` hands it to its callback: full path, final name, type.
pub record Listed : Type 0 where
  pub path : Text
  pub leaf : Text
  pub file_type : EntryType

-- The operations of `walk/unix.rs` and `walk/fallback.rs` on a file system that does not change
-- during the walk; `none` is an I/O error. `entries` is the sequence of calls of the callback that
-- `for_each_entry` makes if none of them stops it.
pub record Platform (Fd : Type 0) : Type 0 where
  pub path_id : Text → Option FileId
  pub open_root : Text → Bool → Option Fd
  pub open_child : Fd → Text → Text → Bool → Option Fd
  pub dir_id : Fd → Option FileId
  pub entries : Fd → Text → List Listed
  pub stat_at : Fd → Text → Bool → ℕ → Option Meta
  pub stat_root : Text → Bool → ℕ → Option Meta
  pub access_at : Fd → Text → ℕ → Bool
  pub access_root : Text → ℕ → Bool
  pub readlink_at : Fd → Text → Option Text
  pub readlink_root : Text → Option Text
  -- `Path::file_name`.
  pub file_name : Text → Option Text

pub data WalkState : Type 0 where
  go_on quit : WalkState

pub record Entry : Type 0 where
  pub path : Text
  pub file_type : EntryType
  pub depth : ℕ

abbrev or_whole : Text → Option Text → Text
or_whole path none = path
or_whole path (some name) = name

module _ {Fd : Type 0} where
  -- `Entry::file_name`: the whole path for roots like `/`.
  abbrev pub file_name : Platform Fd → Text → Text
  file_name P path = or_whole path (P.file_name path)

pub record Task (Fd : Type 0) : Type 0 where
  pub path : Text
  pub parent : Option Fd
  pub follow : Bool
  pub depth : ℕ
  pub root_dev : ℕ
  pub ancestors : Option (List FileId)

pub data StatSrc (Fd : Type 0) : Type 0 where
  child : Fd → Text → StatSrc Fd
  root : Text → StatSrc Fd

pub record StatAt (Fd : Type 0) : Type 0 where
  pub src : StatSrc Fd
  pub follow : Bool

module _ {Fd : Type 0} (P : Platform Fd) where
  fetch_from : StatSrc Fd → Bool → ℕ → Option Meta
  fetch_from (child dir name) follow mask = P.stat_at dir name follow mask
  fetch_from (root path) follow mask = P.stat_root path follow mask

  unfoldable pub fetch : StatAt Fd → ℕ → Option Meta
  unfolding fetch_from
  fetch s mask = fetch_from s.src s.follow mask

  access_from : StatSrc Fd → ℕ → Bool
  access_from (child dir name) mode = P.access_at dir name mode
  access_from (root path) mode = P.access_root path mode

  unfoldable pub access : StatAt Fd → ℕ → Bool
  unfolding access_from
  access s mode = access_from s.src mode

  readlink_from : StatSrc Fd → Option Text
  readlink_from (child dir name) = P.readlink_at dir name
  readlink_from (root path) = P.readlink_root path

  unfoldable pub readlink : StatAt Fd → Option Text
  unfolding readlink_from
  readlink s = readlink_from s.src

-- `WalkCtx`, less the shared counters, which the state below has. A limiter is what its `acquire`
-- returns for a task: whether a token was had before the shutdown.
pub record WalkCtx (Fd : Type 0) : Type 0 where
  pub args : Args
  pub limiter : Option (Task Fd → Bool)
  pub exclude : Option (Text → Bool)
