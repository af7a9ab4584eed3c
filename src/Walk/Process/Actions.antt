-- ===== src/Walk/Process/Actions.antt =====
-- src/walk.rs, one task as a list of actions: entries to emit and tasks to enqueue. The direct code
-- performs the actions in order, up to the first visit that quits.
pub mod Spawned
pub mod OneDevice
use minifind.Base.{
  ◌+◌, ◌≡◌, refl, Bool, true, false, not, ◌&&◌, Option, none, some, List, [], ◌∷◌, arith, ◌==◌,
  if◌then◌else◌,
}
use minifind.Walk.{
  FileId, Listed, Platform, WalkState, go_on, quit, Entry, Task, StatAt, child, root, WalkCtx,
}
use minifind.Walk.Process.{
  State, Visitor, at_max, in_cycle, excluded, is_root, admitted, opened, child_task, child_entry,
  root_entry, enqueues, after_visit, callback, for_each, descend, process, read_entries,
  read_opened, after_root,
}

pub data Action (Fd : Type 0) : Type 0 where
  emit : Entry → StatAt Fd → Action Fd
  spawn : Task Fd → Action Fd

module _ {Fd : Type 0} (P : Platform Fd) (ctx : WalkCtx Fd) where
  -- An excluded entry gives no action, another one its visit, and its task if it is descended into.
  entry_actions : Task Fd → Fd → FileId → List Listed → List (Action Fd)
  entry_actions t dir id [] = []
  entry_actions t dir id (e ∷ es) =
      let more = entry_actions t dir id es in
      let visited =
        emit (child_entry t e)
          (record { src = child dir e.leaf; follow = ctx.args.follow_symlinks }) in
      if excluded ctx.exclude e.leaf
      then more
      else if enqueues ctx t e
      then visited ∷ spawn (child_task t dir id e) ∷ more
      else visited ∷ more

  id_actions : Task Fd → Fd → Option FileId → List (Action Fd)
  id_actions t dir none = []
  id_actions t dir (some (dev, ino)) =
      if ctx.args.one_filesystem && not (dev == t.root_dev)
      then []
      else if in_cycle t.ancestors (dev, ino)
      then []
      else entry_actions t dir (dev, ino) (P.entries dir t.path)

  opened_actions : Task Fd → Option Fd → List (Action Fd)
  opened_actions t none = []
  opened_actions t (some dir) = id_actions t dir (P.dir_id dir)

  descend_actions : Task Fd → List (Action Fd)
  descend_actions t =
      if at_max ctx.args.max_depth t.depth
      then []
      else if not (admitted ctx.limiter t)
      then []
      else opened_actions t (opened P t)

  unfoldable pub actions : Task Fd → List (Action Fd)
  unfolding descend_actions opened_actions id_actions entry_actions
  actions t =
      if is_root t
      then emit (root_entry t) (record { src = root t.path; follow = ctx.args.follow_symlinks })
        ∷ descend_actions t
      else descend_actions t

abbrev pub quits : WalkState → Bool
quits quit = true
quits go_on = false

module _ {Fd S : Type 0} (visit : Visitor Fd S) where
  -- The actions performed in order; a quit drops the rest.
  unfoldable pub perform : List (Action Fd) → State Fd S → State Fd S
  perform [] st = st
  perform (spawn t ∷ more) st =
      perform more (record st { pending = st.pending + 1; queue = t ∷ st.queue })
  perform (emit e s ∷ more) st =
      let (w, v) = visit st.visitor e s in
      let rest = perform more (record st { visitor = v }) in
      if quits w then record st { visitor = v; quit = true } else rest

module _ {Fd S : Type 0} (P : Platform Fd) (ctx : WalkCtx Fd) (visit : Visitor Fd S) where
  for_each-perform :
      (t : Task Fd) (dir : Fd) (id : FileId) (es : List Listed) (st : State Fd S)
      → for_each (callback P ctx visit t dir id) es st
        ≡ perform visit (entry_actions P ctx t dir id es) st
  unfolding for_each callback after_visit entry_actions perform
  for_each-perform t dir id [] st = refl
  for_each-perform t dir id (e ∷ es) st =
      let at : StatAt Fd = record { src = child dir e.leaf; follow = ctx.args.follow_symlinks } in
      let seen : State Fd S = record st { visitor = (visit st.visitor (child_entry t e) at).1 } in
      ground (
        arith,
        for_each-perform t dir id es st,
        for_each-perform t dir id es seen,
        for_each-perform t dir id es
            (record seen { pending = st.pending + 1; queue = child_task t dir id e ∷ st.queue }),
      )

  read_entries-perform :
      (t : Task Fd) (dir : Fd) (o : Option FileId) (st : State Fd S)
      → read_entries P ctx visit t dir o st ≡ perform visit (id_actions P ctx t dir o) st
  unfolding read_entries id_actions perform
  read_entries-perform t dir none st = refl
  read_entries-perform t dir (some (dev, ino)) st =
      ground (arith, for_each-perform t dir (dev, ino) (P.entries dir t.path) st)

  read_opened-perform :
      (t : Task Fd) (o : Option Fd) (st : State Fd S)
      → read_opened P ctx visit t o st ≡ perform visit (opened_actions P ctx t o) st
  unfolding read_opened opened_actions perform
  read_opened-perform t none st = refl
  read_opened-perform t (some dir) st = read_entries-perform t dir (P.dir_id dir) st

  descend-perform :
      (t : Task Fd) (st : State Fd S)
      → descend P ctx visit t st ≡ perform visit (descend_actions P ctx t) st
  unfolding descend descend_actions perform
  descend-perform t st = ground (arith, read_opened-perform t (opened P t) st)

  -- What the code does with a task is its list of actions, performed up to the first quit.
  pub process-perform :
      (t : Task Fd) (st : State Fd S)
      → process P ctx visit t st ≡ perform visit (actions P ctx t) st
  unfolding process after_root actions perform
  process-perform t st =
      let at : StatAt Fd = record { src = root t.path; follow = ctx.args.follow_symlinks } in
      ground (
        arith,
        descend-perform t st,
        descend-perform t (record st { visitor = (visit st.visitor (root_entry t) at).1 }),
      )
