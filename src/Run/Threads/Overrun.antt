-- ===== src/Run/Threads/Overrun.antt =====
-- src/lib.rs, `run`, and src/walk.rs: how soon the walk ends once the output thread has left its loop.
use minifind.Base.{
  ℕ, ◌+◌, ◌-◌, ◌*◌, ◌≤◌, ◌<◌, ◌≡◌, refl, sym, ap, ◌∙◌, ◌⊎◌, Bool, Bool-cases, inl, inr, true, false,
  not, Option, none, some, List, [], ◌∷◌, ◌++◌, length, All, All-at, arith, ok,
}
use mathlib.Core.Path.{subst}
use minifind.Base.Int.{ℤ}
use minifind.Base.Text.{Text}
use minifind.Args.Types.{Args}
use minifind.FileType.{Probe}
use minifind.Pipeline.Patterns.{Compiler}
use minifind.Walk.{Platform, WalkState, go_on, quit, Entry, Task, StatAt, WalkCtx}
use minifind.Walk.Process.Actions.{Action, emit}
use minifind.Walk.System.{Seen, busy, n_workers}
use minifind.Walk.System.Costs.{sum, sum_middle}
use minifind.Pipeline.Batch.{batch_size}
use minifind.Pipeline.Output.{is_reached}
use minifind.Pipeline.Visitor.{Visit}
use minifind.Pipeline.Worker.Whole.{weight_of, sum-passing}
use minifind.Pipeline.Worker.Sending.{test, passing}
use minifind.Run.{Plan, run}
use minifind.Run.Threads.Plans.{ctx_of, run-uncapped}
use minifind.Run.Channel.{Channel, IsChannel}
use minifind.Run.Threads.{
  Handle, handle, Seat, Program, with_tx, visited, start, Step, work, call, leave, receive, write,
  drain, end_scope, join, signal, Run, here, next,
}
use minifind.Run.Threads.Growth.{one_if_passing, Grows, visit-Grows}
use minifind.Run.Threads.Roster.{IsShort, Roster, Run-Roster}
use minifind.Run.Threads.Spare.{spare_of, spare, spare-most, sum-spare-quit, spare-move}
use minifind.Run.Threads.Settle.{and_then}
use minifind.Run.Threads.Tally.{is_ended, Tally}
use minifind.Run.Threads.Tally.Steps.{at_place, Move-quiet}
use minifind.Run.Threads.Tally.Whole.{Run-Tally}

module _ {Fd C : Type 0} (P : Platform Fd) (fs : Probe) (has_user has_group : ℕ → Bool)
    (X : Channel C) (laws : IsChannel X) (ctx : WalkCtx Fd) (plan : Plan) where
  abbrev one : Seen Fd → ℕ
  one s = one_if_passing P fs plan.filters has_user has_group X.send s

  one-most : (s : Seen Fd) → one s ≤ 1
  unfolding weight_of
  one-most s = elim (Bool-cases (test P fs plan.filters has_user has_group s)) [
    | inl p ↦ rw p (omega arith)
    | inr p ↦ rw p (omega arith)
  ]

  -- What has been taken, with what may yet be.
  abbrev taken : Program Fd C → ℕ
  taken m = sum one m.emitted + sum (spare m.quit) m.seats

  turn-taken :
      (q q' : Bool) (before after : List (Seat Fd)) (x y : Seat Fd) (seats : List (Seat Fd))
      (n n' : ℕ)
      → seats ≡ before ++ (x ∷ after)
      → ((q' ≡ q) ⊎ (q' ≡ true))
      → n' + spare q' y ≤ n + spare q x
      → n' + sum (spare q') (before ++ (y ∷ after)) ≤ n + sum (spare q) seats
  turn-taken q q' before after x y seats n n' p same h = omega (
    arith,
    h,
    ap (sum (spare q)) p,
    sum_middle (spare q) before after x,
    sum_middle (spare q') before after y,
    others before,
    others after,
  )
    where
      others : (l : List (Seat Fd)) → sum (spare q') l ≤ sum (spare q) l
      others l = elim same [
        | inl e ↦ omega (arith, ap (λ b. sum (spare b) l) e)
        | inr e ↦ omega (arith, ap (λ b. sum (spare b) l) e, sum-spare-quit q l)
      ]

  spare-busy :
      (q : Bool) (acts : List (Action Fd)) (v : Visit Handle)
      → spare_of {Fd = Fd} q (busy acts) (some v) ≤ 256 - length v.batch.buf
  spare-busy q acts v = ground arith

  spare-calling :
      (q : Bool) (e : Entry) (a : StatAt Fd) (rest : List (Action Fd)) (v : Visit Handle)
      → spare_of q (busy (emit e a ∷ rest)) (some v) ≡ 256 - length v.batch.buf
  spare-calling q e a rest v = ground arith

  visited-taken :
      (m : Program Fd C) (before after : List (Seat Fd)) (v : Visit Handle) (e : Entry)
      (a : StatAt Fd) (rest : List (Action Fd)) (r : WalkState × Visit C)
      → m.seats ≡ before ++ (record { at = busy (emit e a ∷ rest); visitor = some v } ∷ after)
      → ((es : List Entry) → X.send es m.chan ≡ none)
      → length v.batch.buf < batch_size
      → Grows P fs plan.filters has_user has_group X.send (e, a) (with_tx m.chan v) r
      → taken (visited P fs has_user has_group X ctx plan m before after (e, a) rest r) ≤ taken m
  unfolding sum
  visited-taken m before after v e a rest (go_on, v') p closed l g =
      turn-taken m.quit m.quit before after _ _ m.seats (sum one m.emitted)
        (one (e, a) + sum one m.emitted) p (inl refl)
        (omega (
          arith,
          one-most (e, a),
          g.kept closed refl,
          spare-busy m.quit rest (with_tx handle v'),
          spare-calling m.quit e a rest v,
        ))
  visited-taken m before after v e a rest (quit, v') p closed l g =
      turn-taken m.quit true before after _ _ m.seats (sum one m.emitted)
        (one (e, a) + sum one m.emitted) p (inr refl)
        (omega (arith, one-most (e, a), spare-calling m.quit e a rest v))

  Step-taken :
      {m u : Program Fd C}
      → Step P fs has_user has_group X ctx plan m u
      → Tally P fs has_user has_group X plan m
      → Roster (n_workers ctx.args) m.seats
      → is_ended m.output ≡ true
      → (taken u ≤ taken m) × (is_ended u.output ≡ true)
  Step-taken {m} (work before after x t w p mv k) i c e =
      let (q, l) = Move-quiet P ctx mv k in
      (
        omega (
          arith,
          ap (sum one) l,
          ap (λ b. sum (spare b) (before ++ (record x { at = w } ∷ after))) q,
          turn-taken m.quit m.quit before after x (record x { at = w }) m.seats 0 0 p (inl refl)
              (omega (arith, spare-move P ctx x.visitor mv k)),
        ),
        e,
      )
  Step-taken {m} (call before after v d a rest b p k h) i c e = (
    visited-taken m before after v d a rest _ p
        (λ es. laws.send_closed es m.chan (i.open_same ∙ ap not e))
        (All-at IsShort before after _ (subst (All IsShort) p c.short))
        (visit-Grows P fs plan.filters has_user has_group X.send b d a (with_tx m.chan v)
          (at_place P fs has_user has_group X laws ctx plan m before after _ i p)),
    ends _,
  )
    where
      ends :
          (r : WalkState × Visit C)
          → is_ended
              (visited P fs has_user has_group X ctx plan m before after (d, a) rest r).output
            ≡ true
      ends (go_on, v') = e
      ends (quit, v') = e
  Step-taken {m} (leave before after v p h) i c e = (
    turn-taken m.quit m.quit before after _ _ m.seats (sum one m.emitted) (sum one m.emitted) p
        (inl refl) (omega arith),
    e,
  )
  Step-taken (receive p b c' o h) i c e = cc (ap is_ended o, e)
  Step-taken (write p b o) i c e = cc (ap is_ended o, e)
  Step-taken (drain p o h g k) i c e = cc (ap is_ended o, e)
  Step-taken (end_scope k g) i c e = (omega arith, e)
  Step-taken (join p k o) i c e = (omega arith, e)
  Step-taken signal i c e = (omega arith, e)

  abbrev Begun : Program Fd C → Type 0
  Begun m = Run P fs has_user has_group X ctx plan (start P fs has_user has_group X ctx plan) m

  Run-taken :
      {m u : Program Fd C}
      → is_reached plan.max_results 0 ≡ false
      → Begun m
      → is_ended m.output ≡ true
      → Run P fs has_user has_group X ctx plan m u
      → (taken u ≤ taken m) × (is_ended u.output ≡ true)
  Run-taken n r e here = (omega arith, e)
  Run-taken n r e (next q st) =
      let (l, e') = Run-taken n r e q in
      let b = and_then P fs has_user has_group X laws ctx plan r q in
      let (l', e'') =
        Step-taken st (Run-Tally P fs has_user has_group X laws ctx plan n b)
          (Run-Roster P fs has_user has_group X laws ctx plan n b) e' in
      (omega (arith, l, l'), e'')

  length-passing :
      (es : List (Seen Fd)) → length (passing P fs plan.filters has_user has_group es) ≡ sum one es
  unfolding sum
  length-passing es =
      sym (length-sum (passing P fs plan.filters has_user has_group es))
      ∙ sum-passing P fs plan.filters has_user has_group (λ e. 1) es
    where
      length-sum : (l : List Entry) → sum (λ e. 1) l ≡ length l
      length-sum [] = refl
      length-sum (e ∷ l) = omega (arith, length-sum l)

-- Let the channel be as documented, and let `run` compile its filters. Once the output thread has left
-- its loop, as it does at the last result that is wanted, the workers visit, however they go on, no
-- more than 256 further entries that satisfy all filters for each worker.
pub passing-emitted :
    {Fd C : Type 0} (P : Platform Fd) (fs : Probe) (has_user has_group : ℕ → Bool) (X : Channel C)
    (laws : IsChannel X) (G : Compiler) (register : ℕ → Bool) (unique : List Text → List Text)
    (args : Args) (now : ℤ) (limiter : Option (Task Fd → Bool)) {plan : Plan} {m u : Program Fd C}
    → run G register unique args now ≡ ok plan
    → Run P fs has_user has_group X
        (ctx_of args limiter plan)
        plan
        (start P fs has_user has_group X (ctx_of args limiter plan) plan)
        m
    → is_ended m.output ≡ true
    → Run P fs has_user has_group X (ctx_of args limiter plan) plan m u
    → length (passing P fs plan.filters has_user has_group u.emitted)
      ≤ length (passing P fs plan.filters has_user has_group m.emitted)
        + batch_size * n_workers args
passing-emitted P fs has_user has_group X laws G register unique args now limiter {plan} {m} {u} h r
      e q =
    let ctx = ctx_of args limiter plan in
    let n = run-uncapped G register unique args now h in
    let (l, e') = Run-taken P fs has_user has_group X laws ctx plan n r e q in
    omega (
      arith,
      l,
      spare-most m.quit m.seats,
      (Run-Roster P fs has_user has_group X laws ctx plan n r).same_number,
      length-passing P fs has_user has_group X laws ctx plan m.emitted,
      length-passing P fs has_user has_group X laws ctx plan u.emitted,
    )
