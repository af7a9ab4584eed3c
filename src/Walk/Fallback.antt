-- ===== src/Walk/Fallback.antt =====
-- src/walk/fallback.rs: the operations off Unix, over the standard library's file system, which is a
-- record of parameters. A directory is its path.
pub mod Laws
use minifind.Base.{ℕ, Bool, true, false, Option, none, some, List, [], ◌∷◌, if◌then◌else◌}
use minifind.Base.Int.{ℤ, pos, negsuc, signed}
use minifind.Base.Text.{Text}
use minifind.Meta.Fields.{Meta}
use minifind.FileType.{EntryType}
use minifind.Walk.{FileId, Listed, Platform}
use minifind.Walk.Reads.{
  Read, unreadable, passed_over, entry, for_reads, for_opened, read_each, read_all,
}
use minifind.Walk.Reads.Listing.{listing}

pub record StdType : Type 0 where
  pub is_dir : Bool
  pub is_symlink : Bool

-- Times are in whole seconds since the epoch, rounded down; `none` is an error.
pub record Metadata : Type 0 where
  pub file_type : StdType
  pub len : ℕ
  pub modified : Option ℤ
  pub created : Option ℤ
  pub accessed : Option ℤ

pub record DirEntry : Type 0 where
  pub name : Text
  pub file_type : Option StdType

-- `std::fs` and `std::path` on a file system that does not change, and the hasher; `none` is an error.
pub record Std : Type 0 where
  pub canonicalize : Text → Option Text
  pub hash : Text → ℕ
  pub read_dir : Text → Option (List (Option DirEntry))
  pub metadata : Text → Option Metadata
  pub symlink_metadata : Text → Option Metadata
  pub read_link : Text → Option Text
  pub join : Text → Text → Text
  pub file_name : Text → Option Text

unfoldable pub map_type : StdType → EntryType
map_type ft =
    if ft.is_dir then EntryType.dir else if ft.is_symlink then EntryType.symlink else EntryType.file

-- `d.as_secs() as i64`; an error, or a time before the epoch, counts as the epoch.
abbrev pub secs : Option ℤ → ℤ
secs none = pos 0
secs (some (pos n)) = signed n
secs (some (negsuc n)) = pos 0

abbrev pub meta_from : Option Metadata → Option Meta
meta_from none = none
meta_from (some md) = some (record {
  size = md.len;
  mtime = secs md.modified;
  ctime = secs md.created;
  atime = secs md.accessed;
  mode = 0;
  uid = 0;
  gid = 0;
  nlink = 0;
  ino = 0;
})

abbrev pub or_path : Text → Option Text → Text
or_path path none = path
or_path path (some canon) = canon

abbrev pub if_listed : Text → Option (List (Option DirEntry)) → Option Text
if_listed path none = none
if_listed path (some items) = some path

module _ (S : Std) where
  unfoldable pub path_hash : Text → ℕ
  path_hash path = S.hash (or_path path (S.canonicalize path))

  abbrev pub path_id : Text → Option FileId
  path_id path = some (0, path_hash path)

  abbrev pub dir_id : Text → Option FileId
  dir_id d = some (0, path_hash d)

  abbrev pub open_root : Text → Bool → Option Text
  open_root path follow = if_listed path (S.read_dir path)

  abbrev pub open_child : Text → Text → Text → Bool → Option Text
  open_child parent leaf full follow = open_root full follow

  abbrev pub listed : Text → Text → EntryType → Read
  listed path name ty = entry (record { path = path; leaf = name; file_type = ty })

  abbrev pub or_skip : Text → Text → Option Metadata → Read
  or_skip path name none = passed_over
  or_skip path name (some m) = listed path name (map_type m.file_type)

  abbrev pub typed : Text → Text → Option StdType → Read
  typed path name none = or_skip path name (S.symlink_metadata path)
  typed path name (some ft) = listed path name (map_type ft)

  -- The loop's body up to the callback.
  unfoldable pub read_item : Text → Option DirEntry → Read
  unfolding map_type
  read_item parent none = unreadable
  read_item parent (some e) = typed (S.join parent e.name) e.name e.file_type

  unfoldable pub for_each_entry :
      {St : Type 0} → (Listed → St → Bool × St) → Text → Text → St → Bool × St
  unfolding for_reads read_each read_item
  for_each_entry f d parent st = for_opened f (read_all (read_item parent) (S.read_dir d)) st

  abbrev pub meta_of : Text → Bool → Option Meta
  meta_of path follow = meta_from (if follow then S.metadata path else S.symlink_metadata path)

  -- The operations as the platform of the walk.
  abbrev pub platform : Platform Text
  platform = record {
    path_id = path_id;
    open_root = open_root;
    open_child = open_child;
    dir_id = dir_id;
    entries = λ d parent. listing (read_all (read_item parent) (S.read_dir d));
    stat_at = λ d name follow mask. meta_of (S.join d name) follow;
    stat_root = λ path follow mask. meta_of path follow;
    access_at = λ d name mode. true;
    access_root = λ path mode. true;
    readlink_at = λ d name. S.read_link (S.join d name);
    readlink_root = λ path. S.read_link path;
    file_name = S.file_name;
  }
