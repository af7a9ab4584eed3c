-- ===== src/Tests/Walk.antt =====
-- Runs of src/walk.rs over a small tree, and the theorems about it at one whole run.
use minifind.Base.{
  ℕ, ◌+◌, ◌≡◌, refl, true, false, length, some, none, List, [], ◌∷◌, ◌≤◌, inl, if◌then◌else◌, ◌==◌,
}
use minifind.Base.Text.{Text, codes}
use minifind.Meta.Predicates.{no_predicates}
use minifind.FileType.{EntryType}
use minifind.Args.Types.{Args}
use minifind.Walk.{Listed, Platform, go_on, Entry, Task, StatAt, child, root, WalkCtx}
use minifind.Walk.Process.{State, Visitor, process, contains, descends_into, opened}
use minifind.Walk.Process.Actions.{perform, actions, process-perform}
use minifind.Walk.System.{
  Seen, System, Worker, idle, looking, busy, stopped, Move, look, take, find_none, see_done, visit,
  count, push, finish, by, Reach, here, next, init, root_tasks,
}
use minifind.Walk.System.Costs.{sum}
use minifind.Walk.System.Count.{IsCounted, Reach-IsCounted, holds, stopped_means_done}
use minifind.Walk.System.Once.{
  done, visited, entered, WalkedAll, none_left, one_more, SameEntries, emitted-SameEntries,
}
use minifind.Walk.System.Load.{works, all_moves, works-all_moves}
use minifind.Walk.System.Finite.{walk_is_finite}

-- A root `r` that holds a directory `d`, which is empty. Descriptors are the numbers of inodes.
abbrev in_root : ℕ → List Listed
in_root dir =
    if dir == 1
    then record { path = codes "r/d"; leaf = codes "d"; file_type = EntryType.dir } ∷ []
    else []

abbrev pub tree : Platform ℕ
tree = record {
  path_id = λ path. some (7, 1);
  open_root = λ path follow. some 1;
  open_child = λ dir leaf path follow. some (dir + 1);
  dir_id = λ dir. some (7, dir);
  entries = λ dir path. in_root dir;
  stat_at = λ dir leaf follow mask. none;
  stat_root = λ path follow mask. none;
  access_at = λ dir leaf mode. false;
  access_root = λ path mode. false;
  readlink_at = λ dir leaf. none;
  readlink_root = λ path. none;
  file_name = λ path. some path;
}

abbrev pub arguments : Args
arguments = record {
  follow_symlinks = true;
  one_filesystem = true;
  threads = 2;
  idle = false;
  max_depth = some 5;
  min_depth = none;
  max_scan_rate = none;
  max_results = none;
  name = none;
  regex = none;
  case_insensitive = false;
  file_type = [];
  meta = no_predicates;
  path_glob = none;
  lname = none;
  access = 0;
  exclude = none;
  null = false;
  path = codes "r" ∷ [];
}

abbrev pub ctx : WalkCtx ℕ
ctx = record { args = arguments; limiter = none; exclude = none }

abbrev pub roots : List Text
roots = codes "r" ∷ []

abbrev pub root_entry : Entry
root_entry = record { path = codes "r"; file_type = EntryType.dir; depth = 0 }

abbrev pub dir_entry : Entry
dir_entry = record { path = codes "r/d"; file_type = EntryType.dir; depth = 1 }

abbrev root_at : StatAt ℕ
root_at = record { src = root (codes "r"); follow = true }

abbrev dir_at : StatAt ℕ
dir_at = record { src = child 1 (codes "d"); follow = true }

abbrev pub root_seen : Seen ℕ
root_seen = (root_entry, root_at)

abbrev pub dir_seen : Seen ℕ
dir_seen = (dir_entry, dir_at)

abbrev root_task : Task ℕ
root_task = record {
  path = codes "r";
  parent = none;
  follow = true;
  depth = 0;
  root_dev = 7;
  ancestors = some [];
}

abbrev dir_task : Task ℕ
dir_task = record {
  path = codes "r/d";
  parent = some 1;
  follow = false;
  depth = 1;
  root_dev = 7;
  ancestors = some ((7, 1) ∷ []);
}

-- The visitor collects what it sees.
abbrev collect : Visitor ℕ (List Entry)
collect seen e at = (go_on, e ∷ seen)

abbrev fresh : State ℕ (List Entry)
fresh = record { visitor = []; quit = false; pending = 1; queue = [] }

process-perform_example : process tree ctx collect root_task fresh ≡ record {
  visitor = dir_entry ∷ root_entry ∷ [];
  quit = false;
  pending = 2;
  queue = dir_task ∷ [];
}
unfolding perform actions opened contains descends_into
process-perform_example = process-perform tree ctx collect root_task fresh

-- The sequential walk of the tree.
pub walked : WalkedAll tree ctx (root_tasks tree ctx roots) (root_seen ∷ dir_seen ∷ [])
unfolding root_tasks actions opened contains descends_into
walked = one_more (visited (visited (entered done done refl))) none_left refl

-- The state of the only worker, and what it has done.
abbrev pub at : List (Task ℕ) → ℕ → List (Seen ℕ) → Worker ℕ → System ℕ
at queue pending emitted w = record {
  queue = queue;
  pending = pending;
  quit = false;
  workers = w ∷ [];
  emitted = emitted;
}

-- The only worker moves.
solo :
    {s : System ℕ} (q q' : List (Task ℕ)) (n n' : ℕ) (es es' : List (Seen ℕ)) (w w' : Worker ℕ)
    → Reach tree ctx s (at q n es w)
    → Move tree ctx (at q n es w) (at q' n' es' w) w w'
    → Reach tree ctx s (at q' n' es' w')
solo q q' n n' es es' w w' r m = next r (by [] [] w w' (at q' n' es' w) refl m refl)

abbrev queued : List (Task ℕ)
queued = dir_task ∷ []

-- One worker's whole run: the root, its directory, and the end.
pub run : Reach tree ctx (init tree ctx roots) (at [] 0 (dir_seen ∷ root_seen ∷ []) stopped)
unfolding init root_tasks actions opened contains descends_into
run =
    let one : List (Seen ℕ) = root_seen ∷ [] in
    let two : List (Seen ℕ) = dir_seen ∷ root_seen ∷ [] in
    let start = here in
    let r1 = solo (root_task ∷ []) (root_task ∷ []) 1 1 [] [] idle looking start (look refl refl) in
    let r2 =
      solo (root_task ∷ []) [] 1 1 [] [] looking (busy (actions tree ctx root_task)) r1
        (take [] [] root_task refl refl) in
    let r3 =
      solo [] [] 1 1 [] one (busy (actions tree ctx root_task)) _ r2
        (visit root_entry root_at _ refl) in
    let r4 = solo [] [] 1 1 one two _ _ r3 (visit dir_entry dir_at _ refl) in
    let r5 = solo [] [] 1 2 two two _ _ r4 (count dir_task [] refl) in
    let r6 = solo [] queued 2 2 two two _ _ r5 (push dir_task [] refl) in
    let r7 = solo queued queued 2 1 two two _ _ r6 (finish refl) in
    let r8 = solo queued queued 1 1 two two _ _ r7 (look refl refl) in
    let r9 =
      solo queued [] 1 1 two two _ (busy (actions tree ctx dir_task)) r8
        (take [] [] dir_task refl refl) in
    let r10 = solo [] [] 1 0 two two _ _ r9 (finish refl) in
    let r11 = solo [] [] 0 0 two two _ _ r10 (look refl refl) in
    let r12 = solo [] [] 0 0 two two _ _ r11 (find_none refl) in
    solo [] [] 0 0 two two _ _ r12 (see_done refl refl)

emitted-SameEntries_example : SameEntries (dir_seen ∷ root_seen ∷ []) (root_seen ∷ dir_seen ∷ [])
emitted-SameEntries_example = emitted-SameEntries tree ctx roots walked run refl refl

stopped_means_done_example :
    (length {A = Task ℕ} [] ≡ 0) × (sum (holds {Fd = ℕ}) (stopped ∷ []) ≡ 0)
stopped_means_done_example = stopped_means_done tree ctx roots run refl refl

Reach-IsCounted_example : IsCounted tree ctx (at [] 0 (dir_seen ∷ root_seen ∷ []) stopped)
Reach-IsCounted_example = Reach-IsCounted tree ctx roots run

walk_is_finite_example : (es : List (Seen ℕ)) × WalkedAll tree ctx (root_tasks tree ctx roots) es
walk_is_finite_example = walk_is_finite tree ctx [] (inl (5, refl)) roots

-- Eight moves work: two tasks are taken and finished, one is counted and pushed, and two entries are
-- visited.
all_eight : (works run ≡ 8) × (all_moves walked ≡ 8)
unfolding works run walked all_moves solo
all_eight = (refl, refl)

works-all_moves_example : works run ≤ all_moves walked
works-all_moves_example = works-all_moves tree ctx roots walked run refl
