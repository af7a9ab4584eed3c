-- ===== src/Walk/System.antt =====
-- src/walk.rs, `walk_parallel`, `run_worker` and `find_task`: the workers as a step relation. The
-- deques and the injector (crossbeam_deque) are one bag of tasks, from which a worker takes any one
-- task; every push, pop, load, store and update of a counter is a step of its own.
pub mod Costs
pub mod Count
pub mod Once
pub mod Finite
pub mod Load
pub mod OneDevice
use minifind.Base.{
  ℕ, ◌+◌, ◌-◌, ◌≡◌, Bool, true, false, Option, none, some, List, [], ◌∷◌, ◌++◌, length, max,
  is_some, if◌then◌else◌,
}
use minifind.Base.Int.{sub_usize}
use minifind.Base.Text.{Text}
use minifind.Args.Types.{Args}
use minifind.Walk.{FileId, Platform, Entry, Task, StatAt, WalkCtx}
use minifind.Walk.Process.Actions.{Action, emit, spawn, actions}

-- Where a worker stands. `idle` is the top of its loop; `looking` has found `quit` unset;
-- `empty_handed` has found no task; `busy` has the rest of its task; `counted` has counted a new
-- task, which it has yet to push.
pub data Worker (Fd : Type 0) : Type 0 where
  idle : Worker Fd
  looking : Worker Fd
  empty_handed : Worker Fd
  busy : List (Action Fd) → Worker Fd
  counted : Task Fd → List (Action Fd) → Worker Fd
  stopped : Worker Fd

-- Whether a worker is about to call its visitor.
abbrev pub calls : {Fd : Type 0} → Worker Fd → Bool
calls (busy (emit e a ∷ rest)) = true
calls _ = false

-- A visit: the entry, and what its metadata is fetched from.
abbrev pub Seen : Type 0 → Type 0
Seen Fd = Entry × StatAt Fd

pub record System (Fd : Type 0) : Type 0 where
  pub queue : List (Task Fd)
  pub pending : ℕ
  pub quit : Bool
  pub workers : List (Worker Fd)
  pub emitted : List (Seen Fd)

-- `(args.threads - 1).max(1)`: the difference wraps at 0 threads.
abbrev pub n_workers : Args → ℕ
n_workers args = max (sub_usize args.threads 1) 1

abbrev first_dev : Option FileId → Option ℕ
first_dev none = none
first_dev (some (dev, ino)) = some dev

abbrev empty_if : Bool → Option (List FileId)
empty_if true = some []
empty_if false = none

module _ {Fd : Type 0} (P : Platform Fd) (ctx : WalkCtx Fd) where
  root_task : Text → Option ℕ → List (Task Fd) → List (Task Fd)
  root_task path none rest = rest
  root_task path (some dev) rest =
      record {
        path = path;
        parent = none;
        follow = true;
        depth = 0;
        root_dev = dev;
        ancestors = empty_if ctx.args.follow_symlinks;
      }
      ∷ rest

  -- The loop over the roots: one that has no id is passed over.
  unfoldable pub root_tasks : List Text → List (Task Fd)
  unfolding root_task
  root_tasks [] = []
  root_tasks (path ∷ paths) = root_task path (first_dev (P.path_id path)) (root_tasks paths)

  unfoldable pub all_idle : ℕ → List (Worker Fd)
  all_idle = elim [ ℕ.zero ↦ [] | ℕ.suc (n → rest) ↦ idle ∷ rest ]

  -- The state in which the workers are spawned.
  unfoldable pub init : List Text → System Fd
  unfolding root_tasks all_idle
  init roots = record {
    queue = root_tasks roots;
    pending = length (root_tasks roots);
    quit = false;
    workers = all_idle (n_workers ctx.args);
    emitted = [];
  }

  -- One worker moves from `w` to `w'`, and the rest of the state from `s` to `t`; the workers of
  -- both states are those before the move. `find_none` is open with tasks in the bag: a search of the
  -- deques, one after another, can miss a task.
  pub data Move (s t : System Fd) : Worker Fd → Worker Fd → Type 0 where
    see_quit : s.quit ≡ true → t ≡ s → Move s t idle stopped
    look : s.quit ≡ false → t ≡ s → Move s t idle looking
    take :
        (before after : List (Task Fd)) (task : Task Fd)
        → s.queue ≡ before ++ (task ∷ after)
        → t ≡ record s { queue = before ++ after }
        → Move s t looking (busy (actions P ctx task))
    find_none : t ≡ s → Move s t looking empty_handed
    see_done : s.pending ≡ 0 → t ≡ s → Move s t empty_handed stopped
    snooze : t ≡ s → Move s t empty_handed idle
    visit :
        (e : Entry) (a : StatAt Fd) (rest : List (Action Fd))
        → t ≡ record s { emitted = (e, a) ∷ s.emitted }
        → Move s t (busy (emit e a ∷ rest)) (busy rest)
    visit_quit :
        (e : Entry) (a : StatAt Fd) (rest : List (Action Fd))
        → t ≡ record s { emitted = (e, a) ∷ s.emitted; quit = true }
        → Move s t (busy (emit e a ∷ rest)) (busy [])
    count :
        (task : Task Fd) (rest : List (Action Fd))
        → t ≡ record s { pending = s.pending + 1 }
        → Move s t (busy (spawn task ∷ rest)) (counted task rest)
    push :
        (task : Task Fd) (rest : List (Action Fd))
        → t ≡ record s { queue = task ∷ s.queue }
        → Move s t (counted task rest) (busy rest)
    finish : t ≡ record s { pending = s.pending - 1 } → Move s t (busy []) idle

  pub data Step (s u : System Fd) : Type 0 where
    by :
        (before after : List (Worker Fd)) (w w' : Worker Fd) (t : System Fd)
        → s.workers ≡ before ++ (w ∷ after)
        → Move s t w w'
        → u ≡ record t { workers = before ++ (w' ∷ after) }
        → Step s u

  pub data Reach (s : System Fd) : System Fd → Type 0 where
    here : Reach s s
    next : {t u : System Fd} → Reach s t → Step t u → Reach s u
