-- ===== src/Walk/System/Once.antt =====
-- src/walk.rs: what the workers have visited, against the sequential walk.
use minifind.Base.{
  ◌≤◌, ℕ, ◌+◌, ◌≡◌, refl, sym, ap, ◌∙◌, false, List, [], ◌∷◌, ◌++◌, arith, Bool, length, suc, any,
  zero, true,
}
use mathlib.Core.Path.{subst}
use minifind.Walk.{Platform, Task, Entry, StatAt, WalkCtx, Text}
use minifind.Walk.Process.Actions.{Action, emit, spawn, actions}
use minifind.Walk.System.{
  Seen, Worker, busy, counted, System, Move, see_quit, look, take, find_none, see_done, snooze,
  visit, visit_quit, count, push, finish, Step, all_idle, init, by, root_tasks, Reach, n_workers,
  next, here, idle, looking, empty_handed, stopped,
}
use minifind.Walk.System.Costs.{sum, sum-append, Costs, cons, split, drop, nil, replace}
use minifind.Walk.System.Count.{Move-quit, has_stopped, holds, stopped_means_done}

module _ {Fd : Type 0} (P : Platform Fd) (ctx : WalkCtx Fd) where
  -- The sequential depth-first walk of a list of actions, and the entries that it visits. A
  -- derivation is finite, and so is the tree that it walks.
  pub data Walked : List (Action Fd) → List (Seen Fd) → Type 0 where
    done : Walked [] []
    visited :
        {e : Entry} {a : StatAt Fd} {rest : List (Action Fd)} {es : List (Seen Fd)}
        → Walked rest es
        → Walked (emit e a ∷ rest) ((e, a) ∷ es)
    entered :
        {t : Task Fd} {rest : List (Action Fd)} {fs es gs : List (Seen Fd)}
        → Walked (actions P ctx t) fs
        → Walked rest es
        → gs ≡ fs ++ es
        → Walked (spawn t ∷ rest) gs

  -- The sequential walk of tasks, one after the other.
  pub data WalkedAll : List (Task Fd) → List (Seen Fd) → Type 0 where
    none_left : WalkedAll [] []
    one_more :
        {t : Task Fd} {ts : List (Task Fd)} {fs es gs : List (Seen Fd)}
        → Walked (actions P ctx t) fs
        → WalkedAll ts es
        → gs ≡ fs ++ es
        → WalkedAll (t ∷ ts) gs

-- Two lists of entries hold the same entries equally often: no weighing of entries tells them apart.
abbrev pub SameEntries : {A : Type 0} → List A → List A → Type 0
SameEntries {A} xs ys = (weight : A → ℕ) → sum weight xs ≡ sum weight ys

pub Step-quit :
    {Fd : Type 0} {P : Platform Fd} {ctx : WalkCtx Fd} {s u : System Fd}
    → Step P ctx s u
    → u.quit ≡ false
    → s.quit ≡ false
Step-quit {P = P} {ctx = ctx} (by xs ys w w' t p m q) nq =
    Move-quit P ctx m (ap (λ (x : System _). x.quit) (sym q) ∙ nq)

module _ {Fd : Type 0} (P : Platform Fd) (ctx : WalkCtx Fd) (weight : Seen Fd → ℕ) where
  -- The weight of all entries that actions, a task or a worker will still visit.
  abbrev ActionsCost : List (Action Fd) → ℕ → Type 0
  ActionsCost l n = (es : List (Seen Fd)) × Walked P ctx l es × (n ≡ sum weight es)

  abbrev TaskCost : Task Fd → ℕ → Type 0
  TaskCost t n = ActionsCost (actions P ctx t) n

  abbrev WorkerCost : Worker Fd → ℕ → Type 0
  WorkerCost (busy rest) n = ActionsCost rest n
  WorkerCost (counted t rest) n = ActionsCost (spawn t ∷ rest) n
  WorkerCost _ n = n ≡ 0

  -- What the state will still visit, and what it has visited, weigh `total`, or less after a quit.
  record Account (total : ℕ) (s : System Fd) : Type 0 where
    queued : ℕ
    held : ℕ
    queue_costs : Costs TaskCost s.queue queued
    worker_costs : Costs WorkerCost s.workers held
    most : sum weight s.emitted + queued + held ≤ total
    exact : s.quit ≡ false → sum weight s.emitted + queued + held ≡ total

  -- A move's effect on the queue and the log, with the cost of the worker before and after.
  record Moved (s t : System Fd) (w' : Worker Fd) (queued own : ℕ) : Type 0 where
    queued' : ℕ
    own' : ℕ
    queue_costs : Costs TaskCost t.queue queued'
    worker_cost : WorkerCost w' own'
    most : sum weight t.emitted + queued' + own' ≤ sum weight s.emitted + queued + own
    exact :
        t.quit ≡ false → sum weight t.emitted + queued' + own' ≡ sum weight s.emitted + queued + own

  spawn_cost :
      (t : Task Fd) (rest : List (Action Fd)) (n : ℕ)
      → ActionsCost (spawn t ∷ rest) n
      → (j k : ℕ) × TaskCost t j × ActionsCost rest k × (n ≡ j + k)
  spawn_cost t rest n (gs, entered {fs = fs} {es = es} a b q, e) = (
    sum weight fs,
    sum weight es,
    (fs, a, refl),
    (es, b, refl),
    e ∙ ap (sum weight) q ∙ sum-append weight fs es,
  )

  abbrev quit_of : System Fd → Bool
  quit_of x = x.quit

  moved :
      {s t r : System Fd} {w' : Worker Fd} {queued own queued' : ℕ} (own' : ℕ)
      → t ≡ r
      → Costs TaskCost r.queue queued'
      → WorkerCost w' own'
      → sum weight r.emitted + queued' + own' ≡ sum weight s.emitted + queued + own
      → Moved s t w' queued own
  moved {queued' = q} o e c k b = record {
    queued' = q;
    own' = o;
    queue_costs = subst (λ (x : System Fd). Costs TaskCost x.queue q) (sym e) c;
    worker_cost = k;
    most = omega (arith, ap (λ (x : System Fd). sum weight x.emitted + q + o) e, b);
    exact = λ nq. ap (λ (x : System Fd). sum weight x.emitted + q + o) e ∙ b;
  }

  -- A move that leaves the queue and the log alone, between workers that hold nothing.
  keep :
      {s t : System Fd} {w' : Worker Fd} {queued own : ℕ}
      → t ≡ s
      → Costs TaskCost s.queue queued
      → own ≡ 0
      → WorkerCost w' ≡ (λ n. n ≡ 0)
      → Moved s t w' queued own
  keep {own = o} e c k same = moved o e c (subst (λ (C : ℕ → Type 0). C o) (sym same) k) refl

  Move-Moved :
      {s t : System Fd} {w w' : Worker Fd} (queued own : ℕ)
      → Move P ctx s t w w'
      → Costs TaskCost s.queue queued
      → WorkerCost w own
      → Moved s t w' queued own
  unfolding sum
  Move-Moved {s} {t} {w'} queued own (see_quit q e) c k = keep e c k refl
  Move-Moved queued own (look q e) c k = keep e c k refl
  Move-Moved {s} queued own (take xs ys t q e) c k =
      let p = split xs ys (subst (λ (l : List (Task Fd)). Costs TaskCost l queued) q c) in
      moved p.own e (drop {m = p.before + p.after} p (omega (arith, p.total))) p.here
        (omega (arith, p.total))
  Move-Moved queued own (find_none e) c k = keep e c k refl
  Move-Moved queued own (see_done q e) c k = keep e c k refl
  Move-Moved queued own (snooze e) c k = keep e c k refl
  Move-Moved queued own (visit e a rest q) c (gs, visited {es = es} d, k) =
      moved (sum weight es) q c (es, d, refl) (omega arith)
  Move-Moved {s} {t} queued own (visit_quit e a rest q) c (gs, visited {es = es} d, k) =
      let same = ap (λ (x : System Fd). sum weight x.emitted) q in
      record {
        queued' = queued;
        own' = 0;
        queue_costs = subst (λ (x : System Fd). Costs TaskCost x.queue queued) (sym q) c;
        worker_cost = ([], done, refl);
        most = omega (arith, same, k);
        exact = λ nq. cc (ap quit_of q, nq);
      }
  Move-Moved queued own (count t rest q) c k = moved own q c k refl
  Move-Moved queued own (push t rest q) c k =
      let (i, j, a, b, e) = spawn_cost t rest own k in moved j q (cons a c refl) b (omega arith)
  Move-Moved queued own (finish q) c (es, done, k) = moved 0 q c refl (omega arith)

  Step-Account : {total : ℕ} {s u : System Fd} → Step P ctx s u → Account total s → Account total u
  Step-Account {total} {s} (by xs ys w w' t p m q) a =
      let sp =
        split xs ys
          (subst (λ (l : List (Worker Fd)). Costs WorkerCost l a.held) p a.worker_costs) in
      let v = Move-Moved a.queued sp.own m a.queue_costs sp.here in
      subst (Account total) (sym q) (record {
        queued = v.queued';
        held = sp.before + v.own' + sp.after;
        queue_costs = v.queue_costs;
        worker_costs = replace sp v.worker_cost (omega (arith, sp.total));
        most = omega (arith, v.most, a.most, sp.total);
        exact = λ nq. omega (arith, v.exact nq, a.exact (Move-quit P ctx m nq), sp.total);
      })

  all_idle-Costs : (n : ℕ) → Costs WorkerCost (all_idle P ctx n) 0
  unfolding all_idle
  all_idle-Costs zero = nil
  all_idle-Costs (suc n) = cons refl (all_idle-Costs n) refl

  queue-Costs :
      {ts : List (Task Fd)} {es : List (Seen Fd)}
      → WalkedAll P ctx ts es
      → Costs TaskCost ts (sum weight es)
  unfolding sum
  queue-Costs none_left = nil
  queue-Costs (one_more {fs = fs} {es = es} a b q) =
      cons (fs, a, refl) (queue-Costs b) (ap (sum weight) q ∙ sum-append weight fs es)

  Reach-Account :
      (roots : List Text) {es : List (Seen Fd)} {s : System Fd}
      → WalkedAll P ctx (root_tasks P ctx roots) es
      → Reach P ctx (init P ctx roots) s
      → Account (sum weight es) s
  unfolding init sum
  Reach-Account roots {es} wa here = record {
    queued = sum weight es;
    held = 0;
    queue_costs = queue-Costs wa;
    worker_costs = all_idle-Costs (n_workers ctx.args);
    most = omega arith;
    exact = λ nq. omega arith;
  }
  Reach-Account roots wa (next r st) = Step-Account st (Reach-Account roots wa r)

  free_worker : (w : Worker Fd) (n : ℕ) → holds w ≡ 0 → WorkerCost w n → n ≡ 0
  free_worker idle n h k = k
  free_worker looking n h k = k
  free_worker empty_handed n h k = k
  free_worker stopped n h k = k
  free_worker (busy rest) n h k = absurd (omega arith)
  free_worker (counted t rest) n h k = absurd (omega arith)

  free_workers : {ws : List (Worker Fd)} {n : ℕ} → Costs WorkerCost ws n → sum holds ws ≡ 0 → n ≡ 0
  unfolding sum
  free_workers nil h = refl
  free_workers (cons {x = w} {j = j} c cs e) h =
      omega (arith, free_worker w j (omega arith) c, free_workers cs (omega arith))

  free_queue : {ts : List (Task Fd)} {n : ℕ} → Costs TaskCost ts n → length ts ≡ 0 → n ≡ 0
  free_queue nil h = refl
  free_queue (cons c cs e) h = absurd (omega arith)

  weight_of_end :
      (roots : List Text) {es : List (Seen Fd)} {s : System Fd}
      → WalkedAll P ctx (root_tasks P ctx roots) es
      → Reach P ctx (init P ctx roots) s
      → s.quit ≡ false
      → any has_stopped s.workers ≡ true
      → sum weight s.emitted ≡ sum weight es
  weight_of_end roots wa r nq st =
      let a = Reach-Account roots wa r in
      let (q, h) = stopped_means_done P ctx roots r nq st in
      omega (arith, a.exact nq, free_queue a.queue_costs q, free_workers a.worker_costs h)

-- If the sequential walk of the roots' tasks is finite and visits `es`, and a worker has stopped in
-- a state that the workers reach without a quit, then the entries visited so far are those of `es`,
-- each as often: none is lost and none is visited twice, whatever the interleaving.
pub emitted-SameEntries :
    {Fd : Type 0} (P : Platform Fd) (ctx : WalkCtx Fd) (roots : List Text) {es : List (Seen Fd)}
    {s : System Fd}
    → WalkedAll P ctx (root_tasks P ctx roots) es
    → Reach P ctx (init P ctx roots) s
    → s.quit ≡ false
    → any has_stopped s.workers ≡ true
    → SameEntries s.emitted es
emitted-SameEntries P ctx roots wa r nq st weight = weight_of_end P ctx weight roots wa r nq st

-- The first list holds nothing more often than the second.
abbrev pub Within : {A : Type 0} → List A → List A → Type 0
Within {A} xs ys = (weight : A → ℕ) → sum weight xs ≤ sum weight ys

-- If the sequential walk of the roots' tasks is finite and visits `es`, then in every state that the
-- workers reach, also after a quit, no entry has been visited more often than it is in `es`.
pub emitted-Within :
    {Fd : Type 0} (P : Platform Fd) (ctx : WalkCtx Fd) (roots : List Text) {es : List (Seen Fd)}
    {s : System Fd}
    → WalkedAll P ctx (root_tasks P ctx roots) es
    → Reach P ctx (init P ctx roots) s
    → Within s.emitted es
emitted-Within P ctx roots wa r weight = omega (arith, (Reach-Account P ctx weight roots wa r).most)
