-- ===== src/Walk/Process/Actions/Spawned.antt =====
-- src/walk.rs: what holds of every task that a task enqueues.
use minifind.Base.{
  ◌≡◌, refl, true, false, not, ◌&&◌, Bool-cases, inl, inr, Option, none, some, List, [], ◌∷◌, ◌==◌,
}
use minifind.Walk.{FileId, Listed, Platform, Task, WalkCtx}
use minifind.Walk.Process.{
  at_max, in_cycle, excluded, is_root, admitted, opened, child_task, enqueues,
}
use minifind.Walk.Process.Actions.{
  Action, emit, spawn, actions, descend_actions, opened_actions, id_actions, entry_actions,
}

-- Every task that is spawned has the property.
abbrev pub Spawned : {Fd : Type 0} → (Task Fd → Type 0) → List (Action Fd) → Type 0
Spawned Q [] = Unit
Spawned Q (emit e a ∷ rest) = Spawned Q rest
Spawned Q (spawn t ∷ rest) = Q t × Spawned Q rest

module _ {Fd : Type 0} (P : Platform Fd) (ctx : WalkCtx Fd) where
  -- What holds where a task spawns another one.
  abbrev pub Children : Task Fd → (Task Fd → Type 0) → Type 0
  Children t Q =
      (dir : Fd) (id : FileId) (e : Listed)
      → P.dir_id dir ≡ some id
      → in_cycle t.ancestors id ≡ false
      → enqueues ctx t e ≡ true
      → Q (child_task t dir id e)

  entry_actions-Spawned :
      (t : Task Fd) (dir : Fd) (id : FileId) (es : List Listed) (Q : Task Fd → Type 0)
      → ((e : Listed) → enqueues ctx t e ≡ true → Q (child_task t dir id e))
      → Spawned Q (entry_actions P ctx t dir id es)
  unfolding entry_actions
  entry_actions-Spawned t dir id [] Q h = tt
  entry_actions-Spawned t dir id (e ∷ es) Q h = elim (Bool-cases (excluded ctx.exclude e.leaf)) [
    | inl x ↦ rw x (entry_actions-Spawned t dir id es Q h)
    | inr x ↦ elim (Bool-cases (enqueues ctx t e)) [
      | inl q ↦ rw (x, q) (h e q, entry_actions-Spawned t dir id es Q h)
      | inr q ↦ rw (x, q) (entry_actions-Spawned t dir id es Q h)
    ]
  ]

  id_actions-Spawned :
      (t : Task Fd) (dir : Fd) (o : Option FileId) (Q : Task Fd → Type 0)
      → P.dir_id dir ≡ o
      → Children t Q
      → Spawned Q (id_actions P ctx t dir o)
  unfolding id_actions
  id_actions-Spawned t dir none Q e h = tt
  id_actions-Spawned t dir (some (dev, ino)) Q e h =
      elim (Bool-cases (ctx.args.one_filesystem && not (dev == t.root_dev))) [
        | inl x ↦ rw x tt
        | inr x ↦ elim (Bool-cases (in_cycle t.ancestors (dev, ino))) [
          | inl c ↦ rw (x, c) tt
          | inr c ↦
              rw (x, c)
                (entry_actions-Spawned t dir (dev, ino) (P.entries dir t.path) Q
                  (λ l q. h dir (dev, ino) l e c q))
        ]
      ]

  opened_actions-Spawned :
      (t : Task Fd) (o : Option Fd) (Q : Task Fd → Type 0)
      → Children t Q
      → Spawned Q (opened_actions P ctx t o)
  unfolding opened_actions
  opened_actions-Spawned t none Q h = tt
  opened_actions-Spawned t (some dir) Q h = id_actions-Spawned t dir (P.dir_id dir) Q refl h

  pub actions-Spawned :
      (t : Task Fd) (Q : Task Fd → Type 0) → Children t Q → Spawned Q (actions P ctx t)
  unfolding actions descend_actions
  actions-Spawned t Q h = elim (Bool-cases (is_root t)) [
    | inl r ↦ rw r descended
    | inr r ↦ rw r descended
  ]
    where
      descended : Spawned Q (descend_actions P ctx t)
      descended = elim (Bool-cases (at_max ctx.args.max_depth t.depth)) [
        | inl m ↦ rw m tt
        | inr m ↦ elim (Bool-cases (admitted ctx.limiter t)) [
          | inl a ↦ rw (m, a) (opened_actions-Spawned t (opened P t) Q h)
          | inr a ↦ rw (m, a) tt
        ]
      ]
