-- ===== src/Walk/System/Load/Stops.antt =====
-- src/walk.rs: the workers are brought to a stop, one after the other, whichever visits quit.
use minifind.Base.{
  ◌+◌, ◌≡◌, refl, sym, ap, ◌∙◌, ◌⊎◌, inl, inr, Bool, Bool-cases, true, false, List, [], ◌∷◌, ◌++◌,
  append-nil, append_assoc, and-eq-true, all, arith, ◌==◌,
}
use minifind.Walk.{Platform, WalkCtx, Entry, StatAt}
use minifind.Walk.Process.Actions.{Action, emit, spawn}
use minifind.Walk.System.{
  Worker, idle, looking, empty_handed, busy, counted, stopped, System, Move, see_quit, look,
  find_none, see_done, snooze, calls, count, push, finish, by, Reach, here, next,
}
use minifind.Walk.System.Costs.{sum}
use minifind.Walk.System.Count.{holds, has_stopped}
use minifind.Walk.System.Load.{works}

module _ {Fd : Type 0} {P : Platform Fd} {ctx : WalkCtx Fd} where
  -- One run after the other.
  unfoldable pub and_then :
      {s t u : System Fd} → Reach P ctx s t → Reach P ctx t u → Reach P ctx s u
  and_then r here = r
  and_then r (next q st) = next (and_then r q) st

  pub works-and_then :
      {s t u : System Fd} (r : Reach P ctx s t) (q : Reach P ctx t u)
      → works (and_then r q) ≡ works r + works q
  unfolding works and_then
  works-and_then r here = omega arith
  works-and_then r (next q (by xs ys w w' t p m e)) = omega (arith, works-and_then r q)

  -- A run of one step.
  abbrev pub once :
      {s u : System Fd} (xs ys : List (Worker Fd)) (w w' : Worker Fd)
      → s.workers ≡ xs ++ (w ∷ ys)
      → Move P ctx s u w w'
      → Reach P ctx s (record u { workers = xs ++ (w' ∷ ys) })
  once {u = u} xs ys w w' p m = next here (by xs ys w w' u p m refl)

-- One element of a list singled out.
pub record Place {A : Type 0} (ws : List A) : Type 0 where
  pub before : List A
  pub after : List A
  pub it : A
  pub place : ws ≡ before ++ (it ∷ after)

-- The first element that fails a test, if there is one.
pub first_not :
    {A : Type 0} (p : A → Bool) (ws : List A)
    → (all p ws ≡ true) ⊎ ((h : Place ws) × (p h.it ≡ false))
first_not p [] = inl refl
first_not p (w ∷ ws) = elim (Bool-cases (p w)) [
  | inr n ↦ inr (record { before = []; after = ws; it = w; place = refl }, n)
  | inl y ↦ elim (first_not p ws) [
    | inl z ↦ inl (ground arith)
    | inr (h, n) ↦ inr (
      record { before = w ∷ h.before; after = h.after; it = h.it; place = ap (λ l. w ∷ l) h.place },
      n,
    )
  ]
]

abbrev pub holds_none : {Fd : Type 0} → Worker Fd → Bool
holds_none w = holds w == 0

pub sum-holds_none :
    {Fd : Type 0} (ws : List (Worker Fd)) → all holds_none ws ≡ true → sum holds ws ≡ 0
unfolding sum
sum-holds_none [] h = refl
sum-holds_none (w ∷ ws) h = ground (arith, sum-holds_none ws)

module _ {Fd : Type 0} (P : Platform Fd) (ctx : WalkCtx Fd) where
  -- A way to stop all workers, whichever of the visits on it quit.
  pub data Ending : System Fd → Type 0 where
    all_stopped : {s : System Fd} → all has_stopped s.workers ≡ true → Ending s
    turn :
        {s : System Fd} (before after : List (Worker Fd)) (w w' : Worker Fd) (t : System Fd)
        → s.workers ≡ before ++ (w ∷ after)
        → Move P ctx s t w w'
        → calls w ≡ false
        → Ending (record t { workers = before ++ (w' ∷ after) })
        → Ending s
    calling :
        {s : System Fd} (before after : List (Worker Fd)) (e : Entry) (a : StatAt Fd)
        (rest : List (Action Fd))
        → s.workers ≡ before ++ (busy (emit e a ∷ rest) ∷ after)
        → Ending
            (record s { emitted = (e, a) ∷ s.emitted; workers = before ++ (busy rest ∷ after) })
        → Ending (record s {
          emitted = (e, a) ∷ s.emitted;
          quit = true;
          workers = before ++ (busy [] ∷ after);
        })
        → Ending s

  -- What is left to do once the worker in one place has stopped.
  abbrev Onward : List (Worker Fd) → List (Worker Fd) → (System Fd → Type 0) → Type 0
  Onward xs ys Q = (t : System Fd) → t.workers ≡ xs ++ (stopped ∷ ys) → Q t → Ending t

  abbrev Quits : System Fd → Type 0
  Quits s = s.quit ≡ true

  stop_idle :
      (s : System Fd) (xs ys : List (Worker Fd))
      → s.workers ≡ xs ++ (idle ∷ ys)
      → Quits s
      → Onward xs ys Quits
      → Ending s
  stop_idle s xs ys p q k = turn xs ys idle stopped s p (see_quit q refl) refl (k _ refl q)

  stop_finished :
      (s : System Fd) (xs ys : List (Worker Fd))
      → s.workers ≡ xs ++ (busy [] ∷ ys)
      → Quits s
      → Onward xs ys Quits
      → Ending s
  stop_finished s xs ys p q k =
      turn xs ys (busy []) idle _ p (finish refl) refl (stop_idle _ xs ys refl q k)

  -- After a quit, a worker drops or does what it has, and stops.
  stop_busy :
      (acts : List (Action Fd)) (s : System Fd) (xs ys : List (Worker Fd))
      → s.workers ≡ xs ++ (busy acts ∷ ys)
      → Quits s
      → Onward xs ys Quits
      → Ending s
  stop_busy [] s xs ys p q k = stop_finished s xs ys p q k
  stop_busy (emit e a ∷ rest) s xs ys p q k =
      calling xs ys e a rest p (stop_busy rest _ xs ys refl q k) (stop_finished _ xs ys refl refl k)
  stop_busy (spawn t ∷ rest) s xs ys p q k =
      turn xs ys _ (counted t rest) _ p (count t rest refl) refl
        (turn xs ys _ (busy rest) _ refl (push t rest refl) refl (stop_busy rest _ xs ys refl q k))

  stop_after_quit :
      (w : Worker Fd) (s : System Fd) (xs ys : List (Worker Fd))
      → s.workers ≡ xs ++ (w ∷ ys)
      → Quits s
      → Onward xs ys Quits
      → Ending s
  stop_after_quit idle s xs ys p q k = stop_idle s xs ys p q k
  stop_after_quit looking s xs ys p q k =
      turn xs ys looking empty_handed s p (find_none refl) refl
        (turn xs ys empty_handed idle _ refl (snooze refl) refl (stop_idle _ xs ys refl q k))
  stop_after_quit empty_handed s xs ys p q k =
      turn xs ys empty_handed idle s p (snooze refl) refl (stop_idle _ xs ys refl q k)
  stop_after_quit (busy acts) s xs ys p q k = stop_busy acts s xs ys p q k
  stop_after_quit (counted t rest) s xs ys p q k =
      turn xs ys _ (busy rest) _ p (push t rest refl) refl (stop_busy rest _ xs ys refl q k)
  stop_after_quit stopped s xs ys p q k = k s p q

  -- Nothing is left to do.
  abbrev NoneLeft : System Fd → Type 0
  NoneLeft s = (s.quit ≡ false) × (s.pending ≡ 0)

  stop_empty :
      (s : System Fd) (xs ys : List (Worker Fd))
      → s.workers ≡ xs ++ (empty_handed ∷ ys)
      → NoneLeft s
      → Onward xs ys NoneLeft
      → Ending s
  stop_empty s xs ys p q k =
      turn xs ys empty_handed stopped s p (see_done q.1 refl) refl (k _ refl q)

  stop_at_end :
      (w : Worker Fd) (s : System Fd) (xs ys : List (Worker Fd))
      → holds_none w ≡ true
      → s.workers ≡ xs ++ (w ∷ ys)
      → NoneLeft s
      → Onward xs ys NoneLeft
      → Ending s
  stop_at_end idle s xs ys h p q k =
      turn xs ys idle looking s p (look q.0 refl) refl
        (turn xs ys looking empty_handed _ refl (find_none refl) refl (stop_empty _ xs ys refl q k))
  stop_at_end looking s xs ys h p q k =
      turn xs ys looking empty_handed s p (find_none refl) refl (stop_empty _ xs ys refl q k)
  stop_at_end empty_handed s xs ys h p q k = stop_empty s xs ys p q k
  stop_at_end stopped s xs ys h p q k = k s p q
  stop_at_end (busy acts) s xs ys h p q k = cc
  stop_at_end (counted t rest) s xs ys h p q k = cc

  -- All workers, from one place on, are brought to a stop one after the other.
  module _ (Q : System Fd → Type 0) (may : Worker Fd → Bool)
      (stop : (w : Worker Fd) (s : System Fd) (xs ys : List (Worker Fd))
        → may w ≡ true
        → s.workers ≡ xs ++ (w ∷ ys)
        → Q s
        → Onward xs ys Q
        → Ending s) where
    stop_rest :
        (ys xs : List (Worker Fd)) (s : System Fd)
        → all has_stopped xs ≡ true
        → all may ys ≡ true
        → s.workers ≡ xs ++ ys
        → Q s
        → Ending s
    stop_rest [] xs s h m p q = all_stopped (ap (all has_stopped) (p ∙ append-nil xs) ∙ h)
    stop_rest (y ∷ ys) xs s h m p q =
        let (m0, m1) = and-eq-true (may y) _ m in
        stop y s xs ys m0 p q (λ t p' q'.
          stop_rest ys (xs ++ (stopped ∷ [])) t (all-snoc xs h) m1
            (p' ∙ sym (append_assoc xs (stopped ∷ []) ys)) q')
      where
        all-snoc :
            (l : List (Worker Fd))
            → all has_stopped l ≡ true
            → all has_stopped (l ++ (stopped ∷ [])) ≡ true
        all-snoc [] h = refl
        all-snoc (w ∷ l) h = ground (arith, all-snoc l)

  pub stop_all_after_quit : (s : System Fd) → s.quit ≡ true → Ending s
  stop_all_after_quit s q =
      stop_rest Quits (λ w. true) (λ w s xs ys m p q. stop_after_quit w s xs ys p q) s.workers [] s
        refl (all-true s.workers) refl q
    where
      all-true : (l : List (Worker Fd)) → all (λ w. true) l ≡ true
      all-true [] = refl
      all-true (w ∷ l) = all-true l

  pub stop_all_at_end :
      (s : System Fd) → s.quit ≡ false → s.pending ≡ 0 → all holds_none s.workers ≡ true → Ending s
  stop_all_at_end s nq z h =
      stop_rest NoneLeft holds_none stop_at_end s.workers [] s refl h refl (nq, z)
