-- ===== src/Walk/System/Load.antt =====
-- src/walk.rs: the work of the workers is bounded: only the turns of the loop that find nothing may
-- go on for ever.
pub mod Stops
pub mod Ends
use minifind.Base.{
  ℕ, zero, suc, ◌+◌, ◌≤◌, ◌≡◌, refl, sym, ap, ◌∙◌, Bool, true, false, List, [], ◌∷◌, ◌++◌, arith,
  ◌==◌, if◌then◌else◌,
}
use mathlib.Core.Path.{subst}
use minifind.Base.Text.{Text}
use minifind.Walk.{Platform, Task, Entry, WalkCtx}
use minifind.Walk.Process.Actions.{Action, emit, spawn, actions}
use minifind.Walk.System.{
  Seen, Worker, idle, looking, empty_handed, busy, counted, stopped, System, all_idle, n_workers,
  root_tasks, init, Move, see_quit, look, take, find_none, see_done, snooze, visit, visit_quit,
  count, push, finish, Step, by, Reach, here, next,
}
use minifind.Walk.System.Costs.{Costs, nil, cons, split, replace, drop}
use minifind.Walk.System.Count.{holds}
use minifind.Walk.System.Once.{
  Walked, done, visited, entered, WalkedAll, none_left, one_more, Step-quit,
}

module _ {Fd : Type 0} {P : Platform Fd} {ctx : WalkCtx Fd} where
  -- The moves that actions take: one for an entry, two for a task that is counted and pushed, one to
  -- take it, and one to finish it.
  unfoldable pub moves : {acts : List (Action Fd)} {es : List (Seen Fd)} → Walked P ctx acts es → ℕ
  moves done = 1
  moves (visited w) = suc (moves w)
  moves (entered v w q) = moves v + moves w + 3

  -- The moves that the tasks of the roots take, with those that take them.
  unfoldable pub all_moves : {ts : List (Task Fd)} {es : List (Seen Fd)} → WalkedAll P ctx ts es → ℕ
  unfolding moves
  all_moves none_left = 0
  all_moves (one_more v w q) = moves v + 1 + all_moves w

-- A move works if the worker holds something before or after it; the others are turns of a worker
-- that has no task.
abbrev pub spent : {Fd : Type 0} → Worker Fd → Worker Fd → ℕ
spent w w' = if holds w + holds w' == 0 then 0 else 1

module _ {Fd : Type 0} {P : Platform Fd} {ctx : WalkCtx Fd} where
  -- The moves of a run that work.
  unfoldable pub works : {s u : System Fd} → Reach P ctx s u → ℕ
  works here = 0
  works (next r (by xs ys w w' t p m q)) = works r + spent w w'

module _ {Fd : Type 0} (P : Platform Fd) (ctx : WalkCtx Fd) where
  -- The moves that are left to a list of actions, a task in the bag, or a worker.
  abbrev ActionsLoad : List (Action Fd) → ℕ → Type 0
  ActionsLoad acts n = (es : List (Seen Fd)) × (w : Walked P ctx acts es) × (n ≡ moves w)

  abbrev pub TaskLoad : Task Fd → ℕ → Type 0
  TaskLoad t n = (m : ℕ) × ActionsLoad (actions P ctx t) m × (n ≡ m + 1)

  abbrev pub WorkerLoad : Worker Fd → ℕ → Type 0
  WorkerLoad (busy rest) n = ActionsLoad rest n
  WorkerLoad (counted t rest) n =
      (m : ℕ) × (k : ℕ) × TaskLoad t m × ActionsLoad rest k × (n ≡ m + k + 1)
  WorkerLoad _ n = n ≡ 0

  -- The moves that work and are left in a state.
  pub record Load (total : ℕ) (s : System Fd) : Type 0 where
    pub queued : ℕ
    pub held : ℕ
    pub queue_costs : Costs TaskLoad s.queue queued
    pub worker_costs : Costs WorkerLoad s.workers held
    pub balance : queued + held ≡ total

  -- The loads of the bag and of the worker after a move.
  record Moved (t : System Fd) (w w' : Worker Fd) (total : ℕ) : Type 0 where
    queued' : ℕ
    own' : ℕ
    queue_costs : Costs TaskLoad t.queue queued'
    worker_cost : WorkerLoad w' own'
    balance : queued' + own' + spent w w' ≡ total

  moved :
      {t r : System Fd} {w w' : Worker Fd} {total queued' : ℕ} (own' : ℕ)
      → t ≡ r
      → Costs TaskLoad r.queue queued'
      → WorkerLoad w' own'
      → queued' + own' + spent w w' ≡ total
      → Moved t w w' total
  moved {queued' = q} o e c k b = record {
    queued' = q;
    own' = o;
    queue_costs = subst (λ (x : System Fd). Costs TaskLoad x.queue q) (sym e) c;
    worker_cost = k;
    balance = b;
  }

  spawn_load :
      (t : Task Fd) (rest : List (Action Fd)) (n : ℕ)
      → ActionsLoad (spawn t ∷ rest) n
      → (m : ℕ) × (k : ℕ) × TaskLoad t m × ActionsLoad rest k × (n ≡ m + k + 2)
  unfolding moves
  spawn_load t rest n (gs, entered {fs = fs} {es = es} a b q, e) =
      (moves a + 1, moves b, (moves a, (fs, a, refl), refl), (es, b, refl), omega arith)

  quit_of : System Fd → Bool
  quit_of x = x.quit

  Move-Moved :
      {s t : System Fd} {w w' : Worker Fd} (queued own : ℕ)
      → Move P ctx s t w w'
      → t.quit ≡ false
      → Costs TaskLoad s.queue queued
      → WorkerLoad w own
      → Moved t w w' (queued + own)
  unfolding moves quit_of
  Move-Moved queued own (see_quit q e) nq c k = moved 0 e c refl (omega arith)
  Move-Moved queued own (look q e) nq c k = moved 0 e c refl (omega arith)
  Move-Moved {s} queued own (take xs ys t q e) nq c k =
      let p = split xs ys (subst (λ (l : List (Task Fd)). Costs TaskLoad l queued) q c) in
      let (m, a, l) = p.here in
      moved m e (drop {m = p.before + p.after} p (omega (arith, p.total))) a
        (omega (arith, p.total, l))
  Move-Moved queued own (find_none e) nq c k = moved 0 e c refl (omega arith)
  Move-Moved queued own (see_done q e) nq c k = moved 0 e c refl (omega arith)
  Move-Moved queued own (snooze e) nq c k = moved 0 e c refl (omega arith)
  Move-Moved queued own (visit e a rest q) nq c (gs, visited {es = es} d, k) =
      moved (moves d) q c (es, d, refl) (omega arith)
  Move-Moved queued own (visit_quit e a rest q) nq c k = cc (ap quit_of q, nq)
  Move-Moved queued own (count t rest q) nq c k =
      let (m, j, x, y, e) = spawn_load t rest own k in
      moved (m + j + 1) q c (m, j, x, y, refl) (omega arith)
  Move-Moved queued own (push t rest q) nq c (m, j, x, y, e) =
      moved j q (cons x c refl) y (omega arith)
  Move-Moved queued own (finish q) nq c (es, done, k) = moved 0 q c refl (omega arith)

  -- A step of a run without a quit takes the move that it works from what is left.
  record Stepped (u : System Fd) (work total : ℕ) : Type 0 where
    left : ℕ
    load : Load left u
    taken : left + work ≡ total

  Step-Load :
      {total : ℕ} {s u t : System Fd} (xs ys : List (Worker Fd)) (w w' : Worker Fd)
      → s.workers ≡ xs ++ (w ∷ ys)
      → Move P ctx s t w w'
      → u ≡ record t { workers = xs ++ (w' ∷ ys) }
      → u.quit ≡ false
      → Load total s
      → Stepped u (spent w w') total
  unfolding quit_of
  Step-Load {total} {s} {u} xs ys w w' p m q nq a =
      let sp =
        split xs ys
          (subst (λ (l : List (Worker Fd)). Costs WorkerLoad l a.held) p a.worker_costs) in
      let v = Move-Moved a.queued sp.own m (ap quit_of (sym q) ∙ nq) a.queue_costs sp.here in
      let left = v.queued' + (sp.before + v.own' + sp.after) in
      record {
        left = left;
        load = subst (Load left) (sym q) (record {
          queued = v.queued';
          held = sp.before + v.own' + sp.after;
          queue_costs = v.queue_costs;
          worker_costs = replace sp v.worker_cost (omega (arith, sp.total));
          balance = refl;
        });
        taken = omega (arith, v.balance, a.balance, sp.total);
      }

  all_idle-Load : (n : ℕ) → Costs WorkerLoad (all_idle P ctx n) 0
  unfolding all_idle
  all_idle-Load zero = nil
  all_idle-Load (suc n) = cons refl (all_idle-Load n) refl

  queue-Load :
      {ts : List (Task Fd)} {es : List (Seen Fd)} (wa : WalkedAll P ctx ts es)
      → Costs TaskLoad ts (all_moves wa)
  unfolding all_moves
  queue-Load none_left = nil
  queue-Load (one_more {fs = fs} a b q) = cons (moves a, (fs, a, refl), refl) (queue-Load b) refl

  Reach-Stepped :
      (roots : List Text) {es : List (Seen Fd)} {s : System Fd}
      (wa : WalkedAll P ctx (root_tasks P ctx roots) es) (r : Reach P ctx (init P ctx roots) s)
      → s.quit ≡ false
      → Stepped s (works r) (all_moves wa)
  unfolding works init
  Reach-Stepped roots wa here nq = record {
    left = all_moves wa;
    load = record {
      queued = all_moves wa;
      held = 0;
      queue_costs = queue-Load wa;
      worker_costs = all_idle-Load (n_workers ctx.args);
      balance = omega arith;
    };
    taken = omega arith;
  }
  Reach-Stepped roots wa (next r (by xs ys w w' t p m q)) nq =
      let before = Reach-Stepped roots wa r (Step-quit (by xs ys w w' t p m q) nq) in
      let now = Step-Load xs ys w w' p m q nq before.load in
      record { left = now.left; load = now.load; taken = omega (arith, now.taken, before.taken) }

  pub Reach-Load :
      (roots : List Text) {es : List (Seen Fd)} {s : System Fd}
      → WalkedAll P ctx (root_tasks P ctx roots) es
      → Reach P ctx (init P ctx roots) s
      → s.quit ≡ false
      → (left : ℕ) × Load left s
  Reach-Load roots wa r nq = let a = Reach-Stepped roots wa r nq in (a.left, a.load)

  -- If the sequential walk of the roots' tasks is finite, then in no run that has not seen a quit do the
  -- workers make more moves with a task in hand than that walk has: only turns of workers that have no
  -- task can go on, whatever the interleaving.
  pub works-all_moves :
      (roots : List Text) {es : List (Seen Fd)} {s : System Fd}
      (wa : WalkedAll P ctx (root_tasks P ctx roots) es) (r : Reach P ctx (init P ctx roots) s)
      → s.quit ≡ false
      → works r ≤ all_moves wa
  works-all_moves roots wa r nq = omega (arith, (Reach-Stepped roots wa r nq).taken)
