-- ===== src/Walk/System/Load/Ends.antt =====
-- src/walk.rs: from every state the workers can come to an end.
use minifind.Base.{
  ℕ, zero, suc, ◌+◌, ◌<◌, ◌≡◌, refl, ap, ◌∙◌, inl, inr, Bool-cases, true, false, List, [], ◌∷◌,
  ◌++◌, length, length-append, all, any, arith,
}
use minifind.Base.Text.{Text}
use minifind.Walk.{Platform, Task, WalkCtx}
use minifind.Walk.Process.Actions.{emit, spawn, actions}
use minifind.Walk.System.{
  Seen, Worker, idle, looking, empty_handed, busy, counted, stopped, System, all_idle, n_workers,
  root_tasks, init, look, take, snooze, visit, count, push, finish, by, Reach, here, next,
}
use minifind.Walk.System.Count.{has_stopped, Reach-IsCounted, stopped_means_done}
use minifind.Walk.System.Once.{WalkedAll}
use minifind.Walk.System.Load.{works, all_moves, works-all_moves}
use minifind.Walk.System.Load.Stops.{
  and_then, works-and_then, once, Place, first_not, holds_none, sum-holds_none, stop_all_after_quit,
  stop_all_at_end, Ending, all_stopped, turn, calling,
}

module _ {Fd : Type 0} (P : Platform Fd) (ctx : WalkCtx Fd) where
  -- What is left to do once some move has worked without a quit.
  abbrev Onward : System Fd → Type 0
  Onward s =
      (t : System Fd) (run : Reach P ctx s t) → t.quit ≡ false → 0 < works run → Ending P ctx t

  -- A worker that holds something makes its next move.
  advance_holder :
      (w : Worker Fd) (s : System Fd) (xs ys : List (Worker Fd))
      → holds_none w ≡ false
      → s.workers ≡ xs ++ (w ∷ ys)
      → s.quit ≡ false
      → Onward s
      → Ending P ctx s
  unfolding works
  advance_holder (busy []) s xs ys h p nq k =
      turn xs ys (busy []) idle _ p (finish refl) refl
        (k _ (once xs ys (busy []) idle p (finish refl)) nq (omega arith))
  advance_holder (busy (emit e a ∷ rest)) s xs ys h p nq k =
      calling xs ys e a rest p
        (k _ (once xs ys (busy (emit e a ∷ rest)) (busy rest) p (visit e a rest refl)) nq
          (omega arith))
        (stop_all_after_quit P ctx _ refl)
  advance_holder (busy (spawn t ∷ rest)) s xs ys h p nq k =
      turn xs ys _ (counted t rest) _ p (count t rest refl) refl (
        k _ (once xs ys (busy (spawn t ∷ rest)) (counted t rest) p (count t rest refl)) nq
          (omega arith))
  advance_holder (counted t rest) s xs ys h p nq k =
      turn xs ys _ (busy rest) _ p (push t rest refl) refl
        (k _ (once xs ys (counted t rest) (busy rest) p (push t rest refl)) nq (omega arith))
  advance_holder idle s xs ys h p nq k = cc
  advance_holder looking s xs ys h p nq k = cc
  advance_holder empty_handed s xs ys h p nq k = cc
  advance_holder stopped s xs ys h p nq k = cc

  advance_looking :
      (s : System Fd) (xs ys : List (Worker Fd)) (t : Task Fd) (ts : List (Task Fd))
      → s.queue ≡ t ∷ ts
      → s.workers ≡ xs ++ (looking ∷ ys)
      → s.quit ≡ false
      → Onward s
      → Ending P ctx s
  unfolding works
  advance_looking s xs ys t ts q p nq k =
      turn xs ys looking (busy (actions P ctx t)) _ p (take [] ts t q refl) refl
        (k _ (once xs ys looking (busy (actions P ctx t)) p (take [] ts t q refl)) nq (omega arith))

  onward_after : {s t : System Fd} → Reach P ctx s t → Onward s → Onward t
  onward_after r k t run nq gained =
      k t (and_then r run) nq (omega (arith, gained, works-and_then r run))

  advance_idle :
      (s : System Fd) (xs ys : List (Worker Fd)) (t : Task Fd) (ts : List (Task Fd))
      → s.queue ≡ t ∷ ts
      → s.workers ≡ xs ++ (idle ∷ ys)
      → s.quit ≡ false
      → Onward s
      → Ending P ctx s
  advance_idle s xs ys t ts q p nq k = turn xs ys idle looking s p (look nq refl) refl (
      advance_looking _ xs ys t ts q refl nq
        (onward_after (once xs ys idle looking p (look nq refl)) k))

  -- A worker that has not stopped takes a task.
  advance_free :
      (w : Worker Fd) (s : System Fd) (xs ys : List (Worker Fd)) (t : Task Fd) (ts : List (Task Fd))
      → has_stopped w ≡ false
      → s.queue ≡ t ∷ ts
      → s.workers ≡ xs ++ (w ∷ ys)
      → s.quit ≡ false
      → Onward s
      → Ending P ctx s
  advance_free idle s xs ys t ts h q p nq k = advance_idle s xs ys t ts q p nq k
  advance_free looking s xs ys t ts h q p nq k = advance_looking s xs ys t ts q p nq k
  advance_free empty_handed s xs ys t ts h q p nq k =
      turn xs ys empty_handed idle s p (snooze refl) refl (
        advance_idle _ xs ys t ts q refl nq
          (onward_after (once xs ys empty_handed idle p (snooze refl)) k))
  advance_free (busy acts) s xs ys t ts h q p nq k = advance_holder (busy acts) s xs ys refl p nq k
  advance_free (counted u rest) s xs ys t ts h q p nq k =
      advance_holder (counted u rest) s xs ys refl p nq k
  advance_free stopped s xs ys t ts h q p nq k = cc

  length_idle : (n : ℕ) → 0 < n → 0 < length (all_idle P ctx n)
  unfolding all_idle
  length_idle zero h = absurd (omega arith)
  length_idle (suc n) h = omega arith

  -- There is at least one worker.
  pub Reach-workers :
      (roots : List Text) {s : System Fd} → Reach P ctx (init P ctx roots) s → 0 < length s.workers
  unfolding init
  Reach-workers roots here = length_idle (n_workers ctx.args) (omega arith)
  Reach-workers roots (next r (by xs ys w w' t p m q)) =
      rw q (omega (arith, length-append xs (w' ∷ ys)))

  pub all_stopped-any :
      (ws : List (Worker Fd))
      → 0 < length ws
      → all has_stopped ws ≡ true
      → any has_stopped ws ≡ true
  all_stopped-any [] l h = absurd (omega arith)
  all_stopped-any (w ∷ ws) l h = ground arith

  -- Without a quit, some move that works lies ahead, or there is nothing left.
  advance :
      (roots : List Text) {s : System Fd}
      → Reach P ctx (init P ctx roots) s
      → s.quit ≡ false
      → Onward s
      → (all holds_none s.workers ≡ true → s.queue ≡ [] → Ending P ctx s)
      → Ending P ctx s
  advance roots {s} r nq k end = elim (first_not holds_none s.workers) [
    | inr (h, n) ↦ advance_holder h.it s h.before h.after n h.place nq k
    | inl free ↦ elim (first_not has_stopped s.workers) [
      | inr (h, n) ↦ tasks h n s.queue refl free
      | inl st ↦ end free (
          empty s.queue
            (stopped_means_done P ctx roots r nq
              (all_stopped-any s.workers (Reach-workers roots r) st)).0)
    ]
  ]
    where
      empty : (ts : List (Task Fd)) → length ts ≡ 0 → ts ≡ []
      empty [] h = refl
      empty (t ∷ ts) h = absurd (omega arith)

      tasks :
          (h : Place s.workers)
          → has_stopped h.it ≡ false
          → (ts : List (Task Fd)) → s.queue ≡ ts
          → all holds_none s.workers ≡ true
          → Ending P ctx s
      tasks h n [] q free = end free q
      tasks h n (t ∷ ts) q free = advance_free h.it s h.before h.after t ts n q h.place nq k

  -- Run on for as long as some move that works lies ahead.
  run_on :
      (fuel : ℕ) (roots : List Text) {es : List (Seen Fd)} {s : System Fd}
      (wa : WalkedAll P ctx (root_tasks P ctx roots) es) (r : Reach P ctx (init P ctx roots) s)
      → s.quit ≡ false
      → all_moves wa < works r + fuel
      → Ending P ctx s
  run_on zero roots wa r nq l = absurd (omega (arith, works-all_moves P ctx roots wa r nq))
  run_on (suc fuel) roots {s = s} wa r nq l =
      advance roots r nq
        (λ t run nt gained.
          run_on fuel roots wa (and_then r run) nt (omega (arith, works-and_then r run, gained)))
        (λ free q.
          stop_all_at_end P ctx s nq
            (Reach-IsCounted P ctx roots r
              ∙ omega (arith, ap length q, sum-holds_none s.workers free))
            free)

  -- From every state that the workers reach there is a way to stop them all, whichever visits quit.
  pub Reach-Ending :
      (roots : List Text) {es : List (Seen Fd)} {s : System Fd}
      → WalkedAll P ctx (root_tasks P ctx roots) es
      → Reach P ctx (init P ctx roots) s
      → Ending P ctx s
  Reach-Ending roots {s = s} wa r = elim (Bool-cases s.quit) [
    | inl q ↦ stop_all_after_quit P ctx s q
    | inr nq ↦ run_on (suc (all_moves wa)) roots wa r nq (omega arith)
  ]

  -- The way on which no visit quits.
  end_of :
      {s : System Fd}
      → Ending P ctx s
      → (t : System Fd) × Reach P ctx s t × (all has_stopped t.workers ≡ true)
  end_of {s} (all_stopped h) = (s, here, h)
  end_of (turn xs ys w w' t p m k more) =
      let (u, r, h) = end_of more in (u, and_then (once xs ys w w' p m) r, h)
  end_of (calling xs ys e a rest p more other) =
      let (u, r, h) = end_of more in
      (u, and_then (once xs ys (busy (emit e a ∷ rest)) (busy rest) p (visit e a rest refl)) r, h)

  -- If the sequential walk of the roots' tasks is finite, then from every state that the workers reach
  -- they can go on to one in which all of them have stopped, whether there has been a quit or not: no
  -- interleaving leads into a state from which the walk cannot end.
  pub can_end :
      (roots : List Text) {es : List (Seen Fd)} {s : System Fd}
      → WalkedAll P ctx (root_tasks P ctx roots) es
      → Reach P ctx (init P ctx roots) s
      → (t : System Fd) × Reach P ctx s t × (all has_stopped t.workers ≡ true)
  can_end roots wa r = end_of (Reach-Ending roots wa r)
