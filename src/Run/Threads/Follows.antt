-- ===== src/Run/Threads/Follows.antt =====
-- src/lib.rs and src/walk.rs: the threads of `run` walk as the workers of `walk_parallel` do.
use minifind.Base.{
  ℕ, zero, suc, ◌≡◌, refl, sym, ap, ◌∙◌, Bool, true, false, List, [], ◌∷◌, ◌++◌, Option,
}
use mathlib.Core.Path.{subst}
use minifind.FileType.{Probe}
use minifind.Walk.{Platform, WalkState, go_on, quit, WalkCtx, StatAt, Entry}
use minifind.Walk.Process.Actions.{Action, emit}
use minifind.Walk.System.{
  Worker, busy, System, init, Move, visit, visit_quit, by, Reach, here, next, all_idle, n_workers,
}
use minifind.Pipeline.Visitor.{Visit}
use minifind.Pipeline.Worker.Whole.{map}
use minifind.Run.{Plan}
use minifind.Run.Channel.{Channel}
use minifind.Pipeline.Output.{Printer, print_batch}
use minifind.Run.Threads.{
  Handle, Seat, Program, walk_of, start, Step, work, call, leave, receive, write, drain, end_scope,
  join, signal, Run, idle_seats, visited, with_tx, written,
}
use minifind.Run.Threads

pub map_middle :
    {A B : Type 0} (g : A → B) (xs ys : List A) (x : A)
    → map g (xs ++ (x ∷ ys)) ≡ map g xs ++ (g x ∷ map g ys)
map_middle g [] ys x = refl
map_middle g (z ∷ xs) ys x = ap (λ l. g z ∷ l) (map_middle g xs ys x)

with_shared_workers : {Fd : Type 0} → System Fd → List (Worker Fd) → System Fd
with_shared_workers t ws = record t { workers = ws }

module _ {Fd C : Type 0} (P : Platform Fd) (fs : Probe) (has_user has_group : ℕ → Bool)
    (X : Channel C) (ctx : WalkCtx Fd) (plan : Plan) where
  abbrev at_of : Seat Fd → Worker Fd
  at_of s = s.at

  seats_of_idle :
      (n : ℕ) → map at_of (idle_seats P fs has_user has_group X ctx plan n) ≡ all_idle P ctx n
  unfolding all_idle idle_seats
  seats_of_idle zero = refl
  seats_of_idle (suc n) = ap (λ l. Worker.idle ∷ l) (seats_of_idle n)

  -- The threads start as the workers do.
  pub walk_of-start : walk_of (start P fs has_user has_group X ctx plan) ≡ init P ctx plan.roots
  unfolding start init
  walk_of-start =
      ap (λ (ws : List (Worker Fd)). record (init P ctx plan.roots) { workers = ws })
        (seats_of_idle (n_workers ctx.args))

  -- The walk after a move in one place.
  turned :
      {s : System Fd} (m : Program Fd C) (before after : List (Seat Fd)) (x y : Seat Fd)
      (t : System Fd)
      → Reach P ctx s (walk_of m)
      → m.seats ≡ before ++ (x ∷ after)
      → Move P ctx (walk_of m) t x.at y.at
      → Reach P ctx s (record t { workers = map at_of (before ++ (y ∷ after)) })
  turned m before after x y t r p mv = next r (
      by (map at_of before) (map at_of after) x.at y.at t
        (ap (map at_of) p ∙ map_middle at_of before after x) mv
        (ap (λ (ws : List (Worker Fd)). record t { workers = ws })
          (map_middle at_of before after y)))

  turned_visited :
      {s : System Fd} (m : Program Fd C) (before after : List (Seat Fd)) (v : Visit Handle)
      (e : Entry) (a : StatAt Fd) (rest : List (Action Fd)) (o : WalkState × Visit C)
      → Reach P ctx s (walk_of m)
      → m.seats
        ≡ before ++ (record { at = busy (emit e a ∷ rest); visitor = Option.some v } ∷ after)
      → Reach P ctx s
          (walk_of (visited P fs has_user has_group X ctx plan m before after (e, a) rest o))
  turned_visited m before after v e a rest (go_on, v') r p =
      turned m before after _
        (record { at = busy rest; visitor = Option.some (with_tx Threads.handle v') }) _ r p
        (visit e a rest refl)
  turned_visited m before after v e a rest (quit, v') r p =
      turned m before after _
        (record { at = busy []; visitor = Option.some (with_tx Threads.handle v') }) _ r p
        (visit_quit e a rest refl)

  same_workers :
      (before after : List (Seat Fd)) (x y : Seat Fd)
      → x.at ≡ y.at
      → map at_of (before ++ (x ∷ after)) ≡ map at_of (before ++ (y ∷ after))
  same_workers before after x y e =
      map_middle at_of before after x
      ∙ ap (λ (w : Worker Fd). map at_of before ++ (w ∷ map at_of after)) e
      ∙ sym (map_middle at_of before after y)

  -- What the output thread does is nothing to the walk.
  same_walk :
      (m : Program Fd C) (o : Bool × Printer)
      → walk_of (written P fs has_user has_group X ctx plan m o) ≡ walk_of m
  same_walk m (true, p) = refl
  same_walk m (false, p) = refl

  follow :
      {s : System Fd} {m u : Program Fd C}
      → Reach P ctx s (walk_of m)
      → Step P fs has_user has_group X ctx plan m u
      → Reach P ctx s (walk_of u)
  follow {m = m} r (work before after x t w p mv k) =
      turned m before after x (record x { at = w }) t r p mv
  follow {m = m} r (call before after v e a rest b p h k) =
      turned_visited m before after v e a rest _ r p
  follow {s} {m = m} r (leave before after v p k) =
      subst (λ (ws : List (Worker Fd)). Reach P ctx s (record (walk_of m) { workers = ws }))
        (ap (map at_of) p
          ∙ same_workers before after _ (record { at = Worker.stopped; visitor = Option.none })
              refl)
        r
  follow r (receive p b c o h) = r
  follow {s} {m = m} r (write p b o) =
      subst (Reach P ctx s) (sym (same_walk m (print_batch plan.max_results plan.separator b p))) r
  follow r (drain p o h g k) = r
  follow r (end_scope k g) = r
  follow r (join p k o) = r
  follow r signal = r

  -- Whatever the threads of a run do, the workers among them are in a state that those of
  -- `walk_parallel` reach by themselves.
  pub Run-Reach :
      {m : Program Fd C}
      → Run P fs has_user has_group X ctx plan (start P fs has_user has_group X ctx plan) m
      → Reach P ctx (init P ctx plan.roots) (walk_of m)
  Run-Reach Run.here = subst (Reach P ctx (init P ctx plan.roots)) (sym walk_of-start) here
  Run-Reach (Run.next r st) = follow (Run-Reach r) st
