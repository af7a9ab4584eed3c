-- ===== src/Walk/System/Count.antt =====
-- src/walk.rs: the counter `pending` and the end of the walk.
use minifind.Base.{
  ℕ, zero, suc, ap, ◌∙◌, inl, inr, ◌+◌, ◌≤◌, ◌≡◌, refl, true, false, List, ◌∷◌, ◌++◌, length,
  length-append, arith, Bool, Bool-cases, any, any_middle, sym,
}
use minifind.Base.Text.{Text}
use minifind.Walk.{Platform, Task, WalkCtx}
use minifind.Walk.System.{
  Worker, busy, counted, stopped, System, all_idle, n_workers, init, Move, see_quit, look, take,
  find_none, see_done, snooze, visit, visit_quit, count, push, finish, Step, by, Reach, here, next,
}
use minifind.Walk.System.Costs.{sum, sum_middle}

-- What a worker holds of the counter: its task, and a task counted and not yet pushed.
abbrev pub holds : {Fd : Type 0} → Worker Fd → ℕ
holds (busy rest) = 1
holds (counted task rest) = 2
holds _ = 0

abbrev pub has_stopped : {Fd : Type 0} → Worker Fd → Bool
has_stopped stopped = true
has_stopped _ = false

module _ {Fd : Type 0} (P : Platform Fd) (ctx : WalkCtx Fd) where
  -- The counter is the number of tasks that wait and of those that workers hold.
  abbrev pub IsCounted : System Fd → Type 0
  IsCounted s = s.pending ≡ length s.queue + sum holds s.workers

  length_middle :
      (xs ys : List (Task Fd)) (t : Task Fd) → length (xs ++ (t ∷ ys)) ≡ length (xs ++ ys) + 1
  length_middle xs ys t = omega (arith, length-append xs (t ∷ ys), length-append xs ys)

  Move-counts :
      {s t : System Fd} {w w' : Worker Fd}
      → Move P ctx s t w w'
      → length s.queue + holds w ≤ s.pending
      → (t.pending + length s.queue + holds w ≡ s.pending + length t.queue + holds w')
  Move-counts (see_quit q e) h = ground arith
  Move-counts (look q e) h = ground arith
  Move-counts {s} (take xs ys t q e) h =
      let l : length s.queue ≡ length (xs ++ ys) + 1 = ap length q ∙ length_middle xs ys t in
      ground arith
  Move-counts (find_none e) h = ground arith
  Move-counts (see_done q e) h = ground arith
  Move-counts (snooze e) h = ground arith
  Move-counts (visit e a rest q) h = ground arith
  Move-counts (visit_quit e a rest q) h = ground arith
  Move-counts (count t rest q) h = ground arith
  Move-counts (push t rest q) h = ground arith
  Move-counts (finish e) h = ground arith

  Step-IsCounted : {s u : System Fd} → Step P ctx s u → IsCounted s → IsCounted u
  Step-IsCounted {s} {u} (by xs ys w w' t p m q) c =
      let b : sum holds s.workers ≡ sum holds xs + holds w + sum holds ys =
        ap (sum holds) p ∙ sum_middle holds xs ys w in
      let k = Move-counts m (omega arith) in let a = sum_middle holds xs ys w' in rw q (omega arith)

  sum-all_idle : (n : ℕ) → sum holds (all_idle P ctx n) ≡ 0
  unfolding sum all_idle
  sum-all_idle zero = refl
  sum-all_idle (suc n) = omega (arith, sum-all_idle n)

  init-IsCounted : (roots : List Text) → IsCounted (init P ctx roots)
  unfolding init
  init-IsCounted roots = omega (arith, sum-all_idle (n_workers ctx.args))

  -- In every state that the walk reaches, `pending` is the number of tasks that wait, plus those
  -- that the workers have in hand or have counted and not yet pushed.
  pub Reach-IsCounted :
      (roots : List Text) {s : System Fd} → Reach P ctx (init P ctx roots) s → IsCounted s
  Reach-IsCounted roots here = init-IsCounted roots
  Reach-IsCounted roots (next r st) = Step-IsCounted st (Reach-IsCounted roots r)

  -- Without a quit, a worker has stopped only if the counter is 0.
  abbrev IsOver : System Fd → Type 0
  IsOver s = s.quit ≡ false → any has_stopped s.workers ≡ true → s.pending ≡ 0

  pub Move-not_stopped :
      {s t : System Fd} {w w' : Worker Fd} → Move P ctx s t w w' → has_stopped w ≡ false
  Move-not_stopped (see_quit q e) = refl
  Move-not_stopped (look q e) = refl
  Move-not_stopped (take xs ys t q e) = refl
  Move-not_stopped (find_none e) = refl
  Move-not_stopped (see_done q e) = refl
  Move-not_stopped (snooze e) = refl
  Move-not_stopped (visit e a rest q) = refl
  Move-not_stopped (visit_quit e a rest q) = refl
  Move-not_stopped (count t rest q) = refl
  Move-not_stopped (push t rest q) = refl
  Move-not_stopped (finish e) = refl

  pub Move-quit :
      {s t : System Fd} {w w' : Worker Fd} → Move P ctx s t w w' → t.quit ≡ false → s.quit ≡ false
  Move-quit (see_quit q e) h = ground arith
  Move-quit (look q e) h = ground arith
  Move-quit (take xs ys t q e) h = ground arith
  Move-quit (find_none e) h = ground arith
  Move-quit (see_done q e) h = ground arith
  Move-quit (snooze e) h = ground arith
  Move-quit (visit e a rest q) h = ground arith
  Move-quit (visit_quit e a rest q) h = ground arith
  Move-quit (count t rest q) h = ground arith
  Move-quit (push t rest q) h = ground arith
  Move-quit (finish e) h = ground arith

  -- A move to `stopped` without a quit has seen the counter at 0.
  Move-stops :
      {s t : System Fd} {w w' : Worker Fd}
      → Move P ctx s t w w'
      → t.quit ≡ false
      → has_stopped w' ≡ true
      → t.pending ≡ 0
  Move-stops (see_quit q e) h k = ground arith
  Move-stops (look q e) h k = cc
  Move-stops (take xs ys t q e) h k = cc
  Move-stops (find_none e) h k = cc
  Move-stops (see_done q e) h k = ground arith
  Move-stops (snooze e) h k = cc
  Move-stops (visit e a rest q) h k = cc
  Move-stops (visit_quit e a rest q) h k = cc
  Move-stops (count t rest q) h k = cc
  Move-stops (push t rest q) h k = cc
  Move-stops (finish e) h k = cc

  -- With nothing left, no move brings anything.
  Move-stays :
      {s t : System Fd} {w w' : Worker Fd}
      → Move P ctx s t w w'
      → s.pending ≡ 0
      → length s.queue + holds w ≡ 0
      → t.pending ≡ 0
  Move-stays (see_quit q e) h k = ground arith
  Move-stays (look q e) h k = ground arith
  Move-stays (take xs ys t q e) h k = ground arith
  Move-stays (find_none e) h k = ground arith
  Move-stays (see_done q e) h k = ground arith
  Move-stays (snooze e) h k = ground arith
  Move-stays (visit e a rest q) h k = ground arith
  Move-stays (visit_quit e a rest q) h k = ground arith
  Move-stays (count t rest q) h k = absurd (omega arith)
  Move-stays (push t rest q) h k = ground arith
  Move-stays (finish e) h k = ground arith

  Step-IsOver : {s u : System Fd} → Step P ctx s u → IsCounted s → IsOver s → IsOver u
  Step-IsOver {s} {u} (by xs ys w w' t p m q) c over nq st = elim (Bool-cases (has_stopped w')) [
    | inl now ↦ rw q (Move-stops m (rw q at nq) now)
    | inr other ↦
        let b : sum holds s.workers ≡ sum holds xs + holds w + sum holds ys =
          ap (sum holds) p ∙ sum_middle holds xs ys w in
        let old : any has_stopped s.workers ≡ true =
          ap (any has_stopped) p
          ∙ any_middle has_stopped xs ys w
          ∙ rw (Move-not_stopped m)
              (rw other at (sym (any_middle has_stopped xs ys w') ∙ (rw q at st))) in
        let zero_pending = over (Move-quit m (rw q at nq)) old in
        rw q (Move-stays m zero_pending (omega arith))
  ]

  not_stopped : (n : ℕ) → any has_stopped (all_idle P ctx n) ≡ false
  unfolding all_idle
  not_stopped zero = refl
  not_stopped (suc n) = not_stopped n

  Reach-IsOver : (roots : List Text) {s : System Fd} → Reach P ctx (init P ctx roots) s → IsOver s
  unfolding init
  Reach-IsOver roots here nq st = cc (st, not_stopped (n_workers ctx.args))
  Reach-IsOver roots (next r step) nq st =
      Step-IsOver step (Reach-IsCounted roots r) (Reach-IsOver roots r) nq st

  -- A worker never leaves early: in a state that is reached without a quit and in which a worker
  -- has stopped, no task waits and no worker has one.
  pub stopped_means_done :
      (roots : List Text) {s : System Fd}
      → Reach P ctx (init P ctx roots) s
      → s.quit ≡ false
      → any has_stopped s.workers ≡ true
      → (length s.queue ≡ 0) × (sum holds s.workers ≡ 0)
  stopped_means_done roots r nq st =
      omega (arith, Reach-IsCounted roots r, Reach-IsOver roots r nq st)
