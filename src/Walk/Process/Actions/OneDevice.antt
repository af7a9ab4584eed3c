-- ===== src/Walk/Process/Actions/OneDevice.antt =====
-- src/walk.rs: where all directories are on one device, `--one-filesystem` keeps none of them out.
use minifind.Base.{ℕ, ◌≡◌, refl, Bool, true, false, Option, none, some, List, [], ◌∷◌, arith, ◌==◌}
use minifind.Walk.{FileId, Listed, Platform, Task, WalkCtx}
use minifind.Walk.Process.{opened, descends_into}
use minifind.FileType.{EntryType}
use minifind.Walk.Process.Actions.{
  actions, descend_actions, opened_actions, id_actions, entry_actions,
}

-- The walk's settings with `--one-filesystem` as given.
abbrev pub with_one : {Fd : Type 0} → WalkCtx Fd → Bool → WalkCtx Fd
with_one ctx b = record ctx { args = record ctx.args { one_filesystem = b } }

-- Every directory that can be opened is on the device.
abbrev pub DirsOn : {Fd : Type 0} → Platform Fd → ℕ → Type 0
DirsOn {Fd} P dev = (dir : Fd) (d i : ℕ) → P.dir_id dir ≡ some (d, i) → d ≡ dev

module _ {Fd : Type 0} (P : Platform Fd) (ctx : WalkCtx Fd) (dev : ℕ) (dirs : DirsOn P dev) where
  descends_same :
      (ty : EntryType)
      → descends_into ty (with_one ctx true).args ≡ descends_into ty (with_one ctx false).args
  unfolding descends_into
  descends_same EntryType.dir = refl
  descends_same EntryType.symlink = refl
  descends_same EntryType.file = refl
  descends_same EntryType.block_device = refl
  descends_same EntryType.char_device = refl
  descends_same EntryType.fifo = refl
  descends_same EntryType.socket = refl

  entry_actions-same :
      (t : Task Fd) (dir : Fd) (id : FileId) (es : List Listed)
      → entry_actions P (with_one ctx true) t dir id es
        ≡ entry_actions P (with_one ctx false) t dir id es
  unfolding entry_actions
  entry_actions-same t dir id [] = refl
  entry_actions-same t dir id (e ∷ es) =
      rw (descends_same e.file_type, entry_actions-same t dir id es) refl

  id_actions-same :
      (t : Task Fd) (dir : Fd) (o : Option FileId)
      → P.dir_id dir ≡ o
      → t.root_dev ≡ dev
      → id_actions P (with_one ctx true) t dir o ≡ id_actions P (with_one ctx false) t dir o
  unfolding id_actions
  id_actions-same t dir none e h = refl
  id_actions-same t dir (some (d, i)) e h =
      let on : (d == t.root_dev) ≡ true = ground (arith, dirs dir d i e) in
      rw (on, entry_actions-same t dir (d, i) (P.entries dir t.path)) refl

  opened_actions-same :
      (t : Task Fd) (o : Option Fd)
      → t.root_dev ≡ dev
      → opened_actions P (with_one ctx true) t o ≡ opened_actions P (with_one ctx false) t o
  unfolding opened_actions
  opened_actions-same t none h = refl
  opened_actions-same t (some dir) h = id_actions-same t dir (P.dir_id dir) refl h

  -- A task of that device does the same with `--one-filesystem` and without.
  pub actions-same :
      (t : Task Fd)
      → t.root_dev ≡ dev
      → actions P (with_one ctx true) t ≡ actions P (with_one ctx false) t
  unfolding actions descend_actions
  actions-same t h = rw (opened_actions-same t (opened P t) h) refl
