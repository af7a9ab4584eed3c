-- ===== src/Walk/Unix/Leaf/Open.antt =====
-- src/walk/unix.rs: the leaf operations as the platform of the walk, and the opening of directories.
use minifind.Base.{ℕ, ◌≡◌, refl, ◌⊎◌, inl, inr, Bool, true, false, Option, none, some, List, any}
use minifind.Base.Text.{Text}
use minifind.Walk.{FileId, Listed, Platform, Task, file_name}
use minifind.Walk.Process.{opened as task_opened, child_task, is_symlink}
use minifind.Walk.Unix.Sys.{OFlag, Errno, Opening, opened, failed, Calls}
use minifind.Walk.Unix.Leaf.{
  dir_flags, path_id, dir_id, open_root, open_abs, or_fall_back, open_child, do_stat, do_access,
  do_readlink,
}
use minifind.Walk.Unix.Leaf.Listing.{entries}

-- `Result::ok`.
abbrev pub ok_of : {Fd : Type 0} → Opening Fd → Option Fd
ok_of (opened fd) = some fd
ok_of (failed e) = none

abbrev pub is_nofollow : OFlag → Bool
is_nofollow OFlag.nofollow = true
is_nofollow _ = false

module _ {Fd : Type 0} (S : Calls Fd) where
  -- What the walk sees of the operations, for whatever the counter of fallbacks is.
  abbrev pub platform : Platform Fd
  platform = record {
    path_id = path_id S;
    open_root = λ path follow. ok_of (open_root S path follow);
    open_child = λ parent leaf full follow. ok_of (open_child S parent leaf full follow 0).0;
    dir_id = dir_id S;
    entries = entries S;
    stat_at = λ dir name follow mask. do_stat S (some dir) name follow mask;
    stat_root = λ path follow mask. do_stat S none path follow mask;
    access_at = λ dir name mode. do_access S (some dir) name mode;
    access_root = λ path mode. do_access S none path mode;
    readlink_at = λ dir name. do_readlink S (some dir) name;
    readlink_root = λ path. do_readlink S none path;
    file_name = S.file_name;
  }

  -- The counter of fallbacks has no bearing on what is opened.
  open_child-count :
      (parent : Fd) (leaf full : Text) (follow : Bool) (n m : ℕ)
      → (open_child S parent leaf full follow n).0 ≡ (open_child S parent leaf full follow m).0
  unfolding open_child open_abs
  open_child-count parent leaf full follow n m =
      cases (S.openat (some parent) leaf (dir_flags follow))
    where
      cases :
          (o : Opening Fd)
          → (or_fall_back S full (dir_flags follow) n o).0
            ≡ (or_fall_back S full (dir_flags follow) m o).0
      cases (opened fd) = refl
      cases (failed Errno.mfile) = refl
      cases (failed Errno.nfile) = refl
      cases (failed Errno.other) = refl

-- `O_NOFOLLOW`: an open with it fails if the last component of the path is a symbolic link.
module _ {Fd : Type 0} (S : Calls Fd) (is_link : Option Fd → Text → Bool)
    (nofollow-fails : (d : Option Fd) (path : Text) (flags : List OFlag) (fd : Fd)
      → any is_nofollow flags ≡ true
      → S.openat d path flags ≡ opened fd
      → is_link d path ≡ false) where
  -- The descriptor was opened under the parent, or by the absolute path, and is no symbolic link there.
  abbrev pub OpenedAt : Fd → Text → Text → Fd → Type 0
  OpenedAt dir leaf full fd =
      ((S.openat (some dir) leaf (dir_flags false) ≡ opened fd) × (is_link (some dir) leaf ≡ false))
      ⊎ ((S.openat none full (dir_flags false) ≡ opened fd) × (is_link none full ≡ false))

  opened_inj : (o : Opening Fd) (fd : Fd) → ok_of o ≡ some fd → o ≡ opened fd
  opened_inj (opened fd') fd h = cc
  opened_inj (failed e) fd h = cc

  dir_flags-nofollow : any is_nofollow (dir_flags false) ≡ true
  unfolding dir_flags
  dir_flags-nofollow = refl

  fall_back-OpenedAt :
      (dir : Fd) (leaf full : Text) (fd : Fd) (n : ℕ) (o : Opening Fd)
      → S.openat (some dir) leaf (dir_flags false) ≡ o
      → ok_of (or_fall_back S full (dir_flags false) n o).0 ≡ some fd
      → OpenedAt dir leaf full fd
  unfolding open_abs
  fall_back-OpenedAt dir leaf full fd n (opened fd') e h =
      let q : S.openat (some dir) leaf (dir_flags false) ≡ opened fd = cc (e, h) in
      inl (q, nofollow-fails (some dir) leaf (dir_flags false) fd dir_flags-nofollow q)
  fall_back-OpenedAt dir leaf full fd n (failed Errno.mfile) e h =
      let q = opened_inj (S.openat none full (dir_flags false)) fd h in
      inr (q, nofollow-fails none full (dir_flags false) fd dir_flags-nofollow q)
  fall_back-OpenedAt dir leaf full fd n (failed Errno.nfile) e h =
      let q = opened_inj (S.openat none full (dir_flags false)) fd h in
      inr (q, nofollow-fails none full (dir_flags false) fd dir_flags-nofollow q)
  fall_back-OpenedAt dir leaf full fd n (failed Errno.other) e h = cc

  -- If an open with `O_NOFOLLOW` fails on a symbolic link, then an entry that was listed as a directory
  -- is never opened through one: its name under the parent's
  -- descriptor is no symbolic link, or, on the fallback, its absolute path is none.
  pub opened-OpenedAt :
      (t : Task Fd) (dir : Fd) (id : FileId) (e : Listed) (fd : Fd)
      → is_symlink e.file_type ≡ false
      → task_opened (platform S) (child_task t dir id e) ≡ some fd
      → OpenedAt dir (file_name (platform S) e.path) e.path fd
  unfolding task_opened open_child
  opened-OpenedAt t dir id e fd h o =
      fall_back-OpenedAt dir (file_name (platform S) e.path) e.path fd 0 _ refl (rw h at o)
