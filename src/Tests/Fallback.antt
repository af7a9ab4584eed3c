-- ===== src/Tests/Fallback.antt =====
-- A walk over src/walk/fallback.rs: one root, which is empty.
use minifind.Base.{◌↔◌, refl, true, false, none, some, List, [], ◌∷◌, length}
use minifind.Base.Text.{Text, codes}
use minifind.Walk.{root, WalkCtx}
use minifind.Walk.Process.{opened, contains}
use minifind.Walk.Process.Actions.{actions}
use minifind.Walk.Process.Actions.OneDevice.{with_one}
use minifind.Walk.Reads.{read_each}
use minifind.Walk.Reads.Listing.{entries_of}
use minifind.Walk.System.{Seen, root_tasks}
use minifind.Walk.System.Once.{done, visited, WalkedAll, none_left, one_more}
use minifind.Walk.Fallback.{Std, platform}
use minifind.Walk.Fallback.Laws.{one_filesystem_is_void}
use minifind.Tests.Walk.{arguments, roots, root_entry}

abbrev std : Std
std = record {
  canonicalize = λ path. none;
  hash = λ path. length path;
  read_dir = λ path. some [];
  metadata = λ path. none;
  symlink_metadata = λ path. none;
  read_link = λ path. none;
  join = λ dir name. name;
  file_name = λ path. some path;
}

abbrev ctx : WalkCtx Text
ctx = record { args = arguments; limiter = none; exclude = none }

abbrev visits : List (Seen Text)
visits = (root_entry, record { src = root (codes "r"); follow = true }) ∷ []

walked :
    WalkedAll
      (platform std)
      (with_one ctx true)
      (root_tasks (platform std) (with_one ctx true) roots)
      visits
unfolding root_tasks actions opened contains read_each entries_of
walked = one_more (visited done) none_left refl

one_filesystem_is_void_example :
    WalkedAll
      (platform std)
      (with_one ctx true)
      (root_tasks (platform std) (with_one ctx true) roots)
      visits
    ↔ WalkedAll
        (platform std)
        (with_one ctx false)
        (root_tasks (platform std) (with_one ctx false) roots)
        visits
one_filesystem_is_void_example = one_filesystem_is_void std ctx roots visits

walked_without :
    WalkedAll
      (platform std)
      (with_one ctx false)
      (root_tasks (platform std) (with_one ctx false) roots)
      visits
walked_without = (one_filesystem_is_void std ctx roots visits).0 walked
