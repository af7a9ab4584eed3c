-- ===== src/Tests/Unix.antt =====
-- The theorems about src/walk/unix.rs at a concrete set of calls: one directory, whose file holds
-- eight bytes.
use minifind.Base.{
  ℕ, ◌+◌, ◌≡◌, ◌⊎◌, refl, some-inj, Bool, true, false, Option, some, none, List, [], ◌∷◌, all,
  if◌then◌else◌,
}
use minifind.Base.Int.{pos}
use minifind.Base.Text.{Text, codes}
use minifind.FileType.{EntryType}
use minifind.Meta.Fields.{Meta}
use minifind.Meta.Predicates
use minifind.Meta.Predicates.{Predicates, no_predicates, exact_id}
use minifind.Walk.{Listed, Task}
use minifind.Walk.Process.{for_each, opened as task_opened}
use minifind.Walk.Unix.Sys.{
  Stat, OFlag, AccessFlag, StatxFlag, RFileType, Errno, Opening, opened, failed, Statx, Calls,
}
use minifind.Walk.Unix.Leaf.{dir_flags, open_child, for_each_entry, do_stat, to_statx_flags}
use minifind.Walk.Unix.Leaf.Listing.{entries, for_each_entry-for_each, for_each_entry-is_listed}
use minifind.Walk.Unix.Leaf.Metadata.{has, Fills, do_stat-matches}
use minifind.Walk.Unix.Leaf.Open.{opened-OpenedAt}

-- The size is given if it is asked for.
abbrev statx_here : List StatxFlag → Statx
statx_here fields = record {
  stx_size = if has StatxFlag.size fields then 8 else 0;
  stx_mtime = pos 10;
  stx_ctime = pos 20;
  stx_atime = pos 30;
  stx_mode = 33188;
  stx_uid = 1000;
  stx_gid = 100;
  stx_nlink = 1;
  stx_ino = 5;
}

abbrev meta_here : Meta
meta_here = record {
  size = 8;
  mtime = pos 10;
  ctime = pos 20;
  atime = pos 30;
  mode = 33188;
  uid = 1000;
  gid = 100;
  nlink = 1;
  ino = 5;
}

abbrev readable : AccessFlag → Bool
readable AccessFlag.read_ok = true
readable _ = false

-- Descriptors have run out: only an open by the absolute path succeeds.
abbrev open_here : Option ℕ → Text → List OFlag → Opening ℕ
open_here none path flags = opened 4
open_here (some dir) path flags = failed Errno.mfile

abbrev stat_here : ℕ → ℕ → Stat
stat_here ino mode = record {
  st_dev = 7;
  st_ino = ino;
  st_mode = mode;
  st_size = pos 8;
  st_mtime = pos 10;
  st_ctime = pos 20;
  st_atime = pos 30;
  st_uid = 1000;
  st_gid = 100;
  st_nlink = 1;
}

abbrev calls : Calls ℕ
calls = record {
  openat = open_here;
  statat = λ dir path flags. some (stat_here 5 33188);
  fstat = λ fd. some (stat_here fd 16877);
  statx = λ dir path flags fields. some (statx_here fields);
  accessat = λ dir path acc. all readable acc;
  readlinkat = λ dir path. none;
  read_dir = λ fd. some (
      some (codes ".", RFileType.directory)
      ∷ some (codes "f", RFileType.unknown)
      ∷ none
      ∷ some (codes "d", RFileType.directory)
      ∷ []);
  from_raw_mode = λ mode. RFileType.regular_file;
  join = λ dir name. name;
  file_name = λ path. some path;
}

abbrev counting : Listed → ℕ → Bool × ℕ
counting e n = (true, n + 1)

for_each_entry-for_each_example :
    (for_each_entry calls counting 3 (codes "r") 0).1
    ≡ for_each counting (entries calls 3 (codes "r")) 0
for_each_entry-for_each_example = for_each_entry-for_each calls counting 3 (codes "r") 0

for_each_entry-is_listed_example : (for_each_entry calls counting 3 (codes "r") 0).0 ≡ false
for_each_entry-is_listed_example =
    for_each_entry-is_listed calls counting 3 (codes "r") 0 (λ e st. refl)

filled_here : (flags : List StatxFlag) → Fills flags (statx_here flags) meta_here
filled_here flags = record {
  size = λ h. rw h refl;
  mtime = λ h. refl;
  ctime = λ h. refl;
  atime = λ h. refl;
  mode = λ h. refl;
  uid = λ h. refl;
  gid = λ h. refl;
  nlink = λ h. refl;
  ino = λ h. refl;
}

-- `-uid 1000`: the size is not asked for.
abbrev query : Predicates
query = record no_predicates { uid = some (exact_id 1000) }

do_stat-matches_example :
    Predicates.matches query (record meta_here { size = 0 }) (pos 40)
    ≡ Predicates.matches query meta_here (pos 40)
unfolding do_stat to_statx_flags Predicates.mask
do_stat-matches_example =
    do_stat-matches calls query none (codes "f") true (pos 40) meta_here
      (λ flags sx e. rw (← some-inj e) (filled_here flags)) refl

abbrev above : Task ℕ
above = record {
  path = codes "r";
  parent = none;
  follow = true;
  depth = 0;
  root_dev = 7;
  ancestors = none;
}

abbrev sub : Listed
sub = record { path = codes "d"; leaf = codes "d"; file_type = EntryType.dir }

opened-OpenedAt_example :
    ((open_here (some 3) (codes "d") (dir_flags false) ≡ opened 4) × (false ≡ false))
    ⊎ ((open_here none (codes "d") (dir_flags false) ≡ opened 4) × (false ≡ false))
unfolding task_opened open_child
opened-OpenedAt_example =
    opened-OpenedAt calls (λ d path. false) (λ d path flags fd h o. refl) above 3 (7, 3) sub 4 refl
      refl
