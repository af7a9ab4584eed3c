-- ===== src/Run/Threads/Returns.antt =====
-- src/lib.rs, `run`: the threads never block each other for good.
pub mod Places
pub mod Waiting
pub mod Leaving
pub mod Calling
use minifind.Base.{
  ℕ, ◌≡◌, refl, sym, ap, ◌∙◌, ◌≤◌, inl, inr, Bool, Bool-cases, true, false, not, Option, none, some,
  List, [], ◌∷◌, ◌++◌, append-nil, append_assoc, all, and-eq-true, arith, Result, ok, ◌&&◌,
}
use mathlib.Core.Path.{subst}
use minifind.Base.Int.{ℤ}
use minifind.Base.Text.{Text}
use minifind.Args.Types.{Args}
use minifind.FileType.{Probe}
use minifind.Walk.{Platform, WalkState, go_on, quit, Entry, Task, StatAt, WalkCtx}
use minifind.Walk.Process.Actions.{Action, emit}
use minifind.Walk.System.{
  Seen, Worker, idle, looking, empty_handed, busy, counted, stopped, System, Move, root_tasks,
  calls,
}
use minifind.Walk.System.Count.{has_stopped}
use minifind.Walk.System.Once.{WalkedAll}
use minifind.Walk.System.Load.Ends.{Reach-Ending}
use minifind.Walk.System.Load.Stops.{Ending, all_stopped, turn, calling}
use minifind.Pipeline.Output.{Printer, is_reached}
use minifind.Pipeline.Patterns.{Compiler}
use minifind.Pipeline.Visitor
use minifind.Run.Threads
use minifind.Pipeline.Visitor.{Visit}
use minifind.Pipeline.Worker.Whole.{map}
use minifind.Run.{Plan, run}
use minifind.Run.Channel.{Channel, IsChannel}
use minifind.Run.Threads.{
  Handle, handle, Seat, Main, walking, joining, done, Program, walk_of, is_gone, is_walking,
  with_tx, may_send, visited, visit_sends, worked, work, call, leave, drain, end_scope, join, Run,
  next, start,
}
use minifind.Run.Threads.Follows.{Run-Reach, map_middle}
use minifind.Run.Threads.Plans.{ctx_of, run-plan_of, run-uncapped}
use minifind.Run.Threads.Prints.{PrintsWanted, run-PrintsWanted}
use minifind.Pipeline.Output.{separator_of}
use minifind.Run.Threads.Tally.{printer_of}
use minifind.Run.Threads.Settle.{
  and_then, Returns, return_after, return_next, Same, Settled, settle, Settled-may_send, and_then,
}
use minifind.Run.Threads.Tally.{IsSeat, Manned, Tally}
use minifind.Run.Threads.Tally.Steps.{at_place}
use minifind.Run.Threads.Tally.Whole.{Run-Tally}
use minifind.Run.Threads.Returns.Waiting.{tally, finish_output}
use minifind.Run.Threads.Returns.Leaving.{leave_rest}
use minifind.Run.Threads.Returns.Calling.{Onward, work_on, call_on}

module _ {Fd C : Type 0} (P : Platform Fd) (fs : Probe) (has_user has_group : ℕ → Bool)
    (X : Channel C) (laws : IsChannel X) (ctx : WalkCtx Fd) (plan : Plan)
    (uncapped : is_reached plan.max_results 0 ≡ false) where
  abbrev Begun : Program Fd C → Type 0
  Begun m = Run P fs has_user has_group X ctx plan (start P fs has_user has_group X ctx plan) m

  abbrev CanReturn : Program Fd C → Type 0
  CanReturn m = Returns P fs has_user has_group X laws ctx plan m

  -- The threads follow the workers' way to stop.
  follow_on :
      {s : System Fd} → Ending P ctx s → Onward P fs has_user has_group X laws ctx plan uncapped s
  follow_on (all_stopped h) m e r main =
      leave_rest P fs has_user has_group X laws ctx plan uncapped m.seats [] m refl refl
        (ap (λ (x : System Fd). all has_stopped x.workers) e ∙ h) main r
  follow_on {s} (turn xs ys w w' t p mv k more) m e r main =
      work_on P fs has_user has_group X laws ctx plan uncapped s t xs ys w w' p mv k
        (λ u q r' w. follow_on more u q r' w) m e r main
  follow_on {s} (calling xs ys e a rest p more less) m q r main =
      call_on P fs has_user has_group X laws ctx plan uncapped s xs ys e a rest p
        (λ u q r' w. follow_on more u q r' w) (λ u q r' w. follow_on less u q r' w) m q r main

  Begun-CanReturn :
      {es : List (Seen Fd)} {m : Program Fd C}
      → WalkedAll P ctx (root_tasks P ctx plan.roots) es
      → Begun m
      → CanReturn m
  Begun-CanReturn {m = m} wa r = go m.main refl
    where
      go : (x : Main) → m.main ≡ x → CanReturn m
      go walking e =
          follow_on
            (Reach-Ending P ctx plan.roots wa (Run-Reach P fs has_user has_group X ctx plan r)) m
            refl r e
      go joining e =
          finish_output P fs has_user has_group X laws ctx plan uncapped m r e
            ((tally P fs has_user has_group X laws ctx plan uncapped r).closing (ap is_walking e))
      go done e = (m, Run.here, e, refl)

-- Let the channel be as documented, let `run` compile its filters, and let the sequential walk of the
-- roots be finite. From every state that its threads reach, with signals or without, with a cap or
-- without, and for every number of threads but 0 (one thread, with which the channel has no capacity,
-- included), they can go on, with no further signal, to the return of `run`.
pub can_return :
    {Fd C : Type 0} (P : Platform Fd) (fs : Probe) (has_user has_group : ℕ → Bool) (X : Channel C)
    (laws : IsChannel X) (G : Compiler) (register : ℕ → Bool) (unique : List Text → List Text)
    (args : Args) (now : ℤ) (limiter : Option (Task Fd → Bool)) {plan : Plan} {es : List (Seen Fd)}
    {m : Program Fd C}
    → 1 ≤ args.threads
    → run G register unique args now ≡ ok plan
    → WalkedAll P (ctx_of args limiter plan) (root_tasks P (ctx_of args limiter plan) plan.roots) es
    → Run P fs has_user has_group X
        (ctx_of args limiter plan)
        plan
        (start P fs has_user has_group X (ctx_of args limiter plan) plan)
        m
    → Returns P fs has_user has_group X laws (ctx_of args limiter plan) plan m
can_return P fs has_user has_group X laws G register unique args now limiter {plan} n h wa r =
    Begun-CanReturn P fs has_user has_group X laws (ctx_of args limiter plan) plan
      (run-uncapped G register unique args now h) wa r

-- Let the channel be as documented, let `run` compile its filters, and let the sequential walk of the
-- roots be finite, with the visits `es`. From every state that the threads reach before a signal they
-- can go on to the return of `run`, and there the output is, line by line, the path and the separator
-- of entries of `es` that satisfy all filters: no more than are wanted, none more often than it stands
-- in `es`, and exactly as many as are wanted, or every such entry as often as it stands in `es`.
pub returns-PrintsWanted :
    {Fd C : Type 0} (P : Platform Fd) (fs : Probe) (has_user has_group : ℕ → Bool) (X : Channel C)
    (laws : IsChannel X) (G : Compiler) (register : ℕ → Bool) (unique : List Text → List Text)
    (args : Args) (now : ℤ) (limiter : Option (Task Fd → Bool)) {plan : Plan} {es : List (Seen Fd)}
    {m : Program Fd C}
    → run G register unique args now ≡ ok plan
    → WalkedAll P (ctx_of args limiter plan) (root_tasks P (ctx_of args limiter plan) plan.roots) es
    → Run P fs has_user has_group X
        (ctx_of args limiter plan)
        plan
        (start P fs has_user has_group X (ctx_of args limiter plan) plan)
        m
    → m.shutdown ≡ false
    → (u : Program Fd C) × Run P fs has_user has_group X (ctx_of args limiter plan) plan m u
      × (u.main ≡ done)
      × PrintsWanted P fs plan.filters has_user has_group args.max_results
          (separator_of args.null)
          (printer_of u.output).out
          es
returns-PrintsWanted P fs has_user has_group X laws G register unique args now limiter {plan} h wa r
      s =
    let (u, q, d, e) =
      Begun-CanReturn P fs has_user has_group X laws (ctx_of args limiter plan) plan
        (run-uncapped G register unique args now h) wa r in
    let whole = and_then P fs has_user has_group X laws (ctx_of args limiter plan) plan r q in
    (
      u,
      q,
      d,
      run-PrintsWanted P fs has_user has_group X laws G register unique args now limiter h wa whole
          d (e ∙ s),
    )
