-- ===== src/Walk/Process.antt =====
-- src/walk.rs, `descends_into`, `process` and `descend`: what a worker does with one task, over the
-- state that it changes.
pub mod Actions
use minifind.Base.{
  ℕ, ◌+◌, Bool, true, false, not, ◌&&◌, ◌||◌, Option, none, some, List, [], ◌∷◌, ◌++◌, ltb, leb,
  ◌==◌, if◌then◌else◌, is_some,
}
use minifind.Base.Text.{Text}
use minifind.FileType.{EntryType}
use minifind.Args.Types.{Args}
use minifind.Walk.{
  FileId, Listed, Platform, WalkState, go_on, quit, Entry, Task, StatAt, child, root, WalkCtx,
  file_name,
}

-- The visitor's own state, the flag `quit`, the counter `pending`, and the worker's deque, whose
-- latest task comes first.
pub record State (Fd S : Type 0) : Type 0 where
  pub visitor : S
  pub quit : Bool
  pub pending : ℕ
  pub queue : List (Task Fd)

abbrev pub Visitor : Type 0 → Type 0 → Type 0
Visitor Fd S = S → Entry → StatAt Fd → WalkState × S

unfoldable pub descends_into : EntryType → Args → Bool
descends_into EntryType.dir args = true
descends_into EntryType.symlink args = args.follow_symlinks
descends_into _ args = false

-- `max_depth` given, and reached by `depth`.
abbrev pub at_max : Option ℕ → ℕ → Bool
at_max none depth = false
at_max (some m) depth = leb m depth

-- `max_depth.is_none_or(|max| depth < max)`.
abbrev pub below_max : Option ℕ → ℕ → Bool
below_max none depth = true
below_max (some m) depth = ltb depth m

abbrev pub same_id : FileId → FileId → Bool
same_id (dev, ino) (dev', ino') = (dev == dev') && (ino == ino')

-- `anc.contains(&id)`.
unfoldable pub contains : FileId → List FileId → Bool
contains id [] = false
contains id (a ∷ rest) = same_id a id || contains id rest

abbrev pub in_cycle : Option (List FileId) → FileId → Bool
in_cycle none id = false
in_cycle (some anc) id = contains id anc

-- `v.push(id)` on a copy.
abbrev pub with_own : Option (List FileId) → FileId → Option (List FileId)
with_own none id = none
with_own (some anc) id = some (anc ++ (id ∷ []))

abbrev pub excluded : Option (Text → Bool) → Text → Bool
excluded none leaf = false
excluded (some is_match) leaf = is_match leaf

abbrev pub is_symlink : EntryType → Bool
is_symlink EntryType.symlink = true
is_symlink _ = false

module _ {Fd : Type 0} where
  abbrev pub is_root : Task Fd → Bool
  is_root t = not (is_some t.parent)

  abbrev pub admitted : Option (Task Fd → Bool) → Task Fd → Bool
  admitted none t = true
  admitted (some acquire) t = acquire t

  -- Roots open by absolute path; children open relative to the parent's descriptor.
  open_from : Platform Fd → Task Fd → Option Fd → Option Fd
  open_from P t none = P.open_root t.path t.follow
  open_from P t (some parent) = P.open_child parent (file_name P t.path) t.path t.follow

  unfoldable pub opened : Platform Fd → Task Fd → Option Fd
  unfolding open_from
  opened P t = open_from P t t.parent

  -- The task for a child that is descended into.
  abbrev pub child_task : Task Fd → Fd → FileId → Listed → Task Fd
  child_task t dir id e = record {
    path = e.path;
    parent = some dir;
    follow = is_symlink e.file_type;
    depth = t.depth + 1;
    root_dev = t.root_dev;
    ancestors = with_own t.ancestors id;
  }

  abbrev pub child_entry : Task Fd → Listed → Entry
  child_entry t e = record { path = e.path; file_type = e.file_type; depth = t.depth + 1 }

  abbrev pub root_entry : Task Fd → Entry
  root_entry t = record { path = t.path; file_type = EntryType.dir; depth = t.depth }

  -- Whether the callback enqueues a task for the entry.
  abbrev pub enqueues : WalkCtx Fd → Task Fd → Listed → Bool
  enqueues ctx t e =
      below_max ctx.args.max_depth (t.depth + 1) && descends_into e.file_type ctx.args

-- `for_each_entry`, which stops when the callback returns `false`.
unfoldable pub for_each : {St : Type 0} → (Listed → St → Bool × St) → List Listed → St → St
for_each f [] st = st
for_each f (e ∷ es) st =
    let (more, st') = f e st in let rest = for_each f es st' in if more then rest else st'

module _ {Fd S : Type 0} (P : Platform Fd) (ctx : WalkCtx Fd) (visit : Visitor Fd S) where
  -- The end of the callback: a quit stops the loop, and a directory becomes a task.
  after_visit : Task Fd → Fd → FileId → Listed → State Fd S → WalkState × S → Bool × State Fd S
  after_visit t dir id e st (quit, v) = (false, record st { visitor = v; quit = true })
  after_visit t dir id e st (go_on, v) =
      if enqueues ctx t e
      then (
        true,
        record st {
          visitor = v;
          pending = st.pending + 1;
          queue = child_task t dir id e ∷ st.queue;
        },
      )
      else (true, record st { visitor = v })

  callback : Task Fd → Fd → FileId → Listed → State Fd S → Bool × State Fd S
  callback t dir id e st =
      if excluded ctx.exclude e.leaf
      then (true, st)
      else after_visit t dir id e st (
          visit st.visitor (child_entry t e)
            (record { src = child dir e.leaf; follow = ctx.args.follow_symlinks }))

  read_entries : Task Fd → Fd → Option FileId → State Fd S → State Fd S
  read_entries t dir none st = st
  read_entries t dir (some (dev, ino)) st =
      if ctx.args.one_filesystem && not (dev == t.root_dev)
      then st
      else if in_cycle t.ancestors (dev, ino)
      then st
      else for_each (callback t dir (dev, ino)) (P.entries dir t.path) st

  read_opened : Task Fd → Option Fd → State Fd S → State Fd S
  read_opened t none st = st
  read_opened t (some dir) st = read_entries t dir (P.dir_id dir) st

  pub descend : Task Fd → State Fd S → State Fd S
  unfolding read_opened read_entries for_each callback after_visit
  descend t st =
      if at_max ctx.args.max_depth t.depth
      then st
      else if not (admitted ctx.limiter t)
      then st
      else read_opened t (opened P t) st

  after_root : Task Fd → State Fd S → WalkState × S → State Fd S
  after_root t st (quit, v) = record st { visitor = v; quit = true }
  after_root t st (go_on, v) = descend t (record st { visitor = v })

  unfoldable pub process : Task Fd → State Fd S → State Fd S
  unfolding after_root descend
  process t st =
      if is_root t
      then after_root t st (
          visit st.visitor (root_entry t)
            (record { src = root t.path; follow = ctx.args.follow_symlinks }))
      else descend t st
