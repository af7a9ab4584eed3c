-- ===== src/Run/Threads/Prints.antt =====
-- src/lib.rs, `run`, and src/walk.rs: the whole program, from the arguments to the bytes that the
-- output thread writes.
use minifind.Base.{
  ℕ, ◌≡◌, refl, ap, ◌∙◌, ◌⊎◌, Bool, Bool-cases, inl, inr, true, false, Option, none, some, List, [],
  ◌∷◌, length, all, arith, ok, All, and-eq-true,
}
use mathlib.Core.Path.{subst}
use minifind.Base.Int.{ℤ}
use minifind.Base.Text.{Text}
use minifind.Args.Types.{Args}
use minifind.FileType.{Probe}
use minifind.Walk.{Platform, Entry, Task, WalkCtx}
use minifind.Walk.System.{Seen, root_tasks}
use minifind.Walk.System.Costs.{sum}
use minifind.Walk.System.Count.{has_stopped}
use minifind.Walk.System.Load.Ends.{Reach-workers, all_stopped-any}
use minifind.Walk.System.Once.{WalkedAll, SameEntries, Within, emitted-SameEntries, emitted-Within}
use minifind.Pipeline.Output.{separator_of, cap_of, is_reached}
use minifind.Pipeline.Output.Laws.{lines}
use minifind.Pipeline.Output.Growth.{AtMost}
use minifind.Pipeline.Patterns.{Compiler}
use minifind.Pipeline.Visitor.{Filters, Visit}
use minifind.Pipeline.Worker.Sending.{passing}
use minifind.Pipeline.Worker.Partial.{PrintsSome}
use minifind.Pipeline.Worker.Whole.{map, sum-passing}
use minifind.Run.{Plan, run}
use minifind.Run.Channel.{Channel, IsChannel}
use minifind.Run.Threads.{
  Handle, Output, receiving, writing, ended, Seat, done, Program, is_gone, is_walking, Run, start,
}
use minifind.Run.Threads.Plans.{ctx_of, run-plan_of, run-uncapped}
use minifind.Run.Threads.Follows.{Run-Reach}
use minifind.Run.Threads.Tally.{
  printer_of, is_ended, buffered, coming, IsSeat, Manned, capped, Tally,
}
use minifind.Run.Threads.Tally.Whole.{Run-Tally}

module _ {Fd : Type 0} (P : Platform Fd) (fs : Probe) (f : Filters)
    (has_user has_group : ℕ → Bool) where
  -- The output is, line by line, of entries that pass of a list of visits, none of them more often and
  -- no more of them than are wanted; and they are as many as are wanted, or they are all.
  pub record PrintsWanted (wanted : Option ℕ) (separator : ℕ) (text : Text)
      (visits : List (Seen Fd)) : Type 0 where
    pub printed : List Entry
    pub written : text ≡ lines separator printed
    pub within : Within printed (passing P fs f has_user has_group visits)
    pub bound : AtMost (cap_of wanted) (length printed)
    pub full_or_all :
        (is_reached (cap_of wanted) (length printed) ≡ true)
        ⊎ SameEntries printed (passing P fs f has_user has_group visits)

module _ {Fd C : Type 0} (P : Platform Fd) (fs : Probe) (has_user has_group : ℕ → Bool)
    (X : Channel C) (laws : IsChannel X) where
  module _ (ctx : WalkCtx Fd) (plan : Plan) where
    abbrev Begun : Program Fd C → Type 0
    Begun m = Run P fs has_user has_group X ctx plan (start P fs has_user has_group X ctx plan) m

    -- What is written weighs no more than what passes.
    Within-passing :
        {m : Program Fd C} {es : List (Seen Fd)}
        → WalkedAll P ctx (root_tasks P ctx plan.roots) es
        → Begun m
        → (i : Tally P fs has_user has_group X plan m)
        → Within i.printed (passing P fs plan.filters has_user has_group es)
    Within-passing {es = es} wa r i weight = omega (
      arith,
      i.most weight,
      emitted-Within P ctx plan.roots wa (Run-Reach P fs has_user has_group X ctx plan r) _,
      sum-passing P fs plan.filters has_user has_group weight es,
    )

    gone_seat :
        (weight : Entry → ℕ) (s : Seat Fd)
        → is_gone s ≡ true
        → IsSeat P fs has_user has_group X plan s
        → (buffered weight s ≡ 0) × (has_stopped s.at ≡ true)
    gone_seat weight s g h = go s.visitor g h
      where
        go :
            (o : Option (Visit Handle))
            → is_gone (record s { visitor = o }) ≡ true
            → Manned P fs has_user has_group X plan s.at o
            → (buffered weight (record s { visitor = o }) ≡ 0) × (has_stopped s.at ≡ true)
        go none g h = (refl, h)
        go (some v) g h = (cc g, cc g)

    -- A thread that has gone holds nothing and has stopped.
    seats_gone :
        (weight : Entry → ℕ) (l : List (Seat Fd))
        → all is_gone l ≡ true
        → All (IsSeat P fs has_user has_group X plan) l
        → (sum (buffered weight) l ≡ 0) × (all has_stopped (map (λ (s : Seat Fd). s.at) l) ≡ true)
    unfolding sum
    seats_gone weight [] g h = (refl, refl)
    seats_gone weight (s ∷ l) g (k, h) =
        let (a, b) = and-eq-true (is_gone s) _ g in
        let (x, y) = gone_seat weight s a k in
        let (z, t) = seats_gone weight l b h in (omega (arith, x, z), ground (arith, y, t))

    coming_ended :
        (weight : Entry → ℕ) (o : Output) (c : C) → is_ended o ≡ true → coming X weight o c ≡ 0
    coming_ended weight (receiving p) c e = cc e
    coming_ended weight (writing b p) c e = cc e
    coming_ended weight (ended p) c e = refl

    -- At the end of a run without a signal, all is written unless the cap was reached.
    all_written :
        {m : Program Fd C} {es : List (Seen Fd)}
        → WalkedAll P ctx (root_tasks P ctx plan.roots) es
        → Begun m
        → (i : Tally P fs has_user has_group X plan m) → m.main ≡ done
        → m.shutdown ≡ false
        → capped P fs has_user has_group X plan m.output ≡ false
        → SameEntries i.printed (passing P fs plan.filters has_user has_group es)
    all_written {m} {es} wa r i d s n weight =
        let reach = Run-Reach P fs has_user has_group X ctx plan r in
        let (none_held, stopped) =
          seats_gone weight m.seats (i.closing (ap is_walking d)) i.seated in
        elim (Bool-cases m.quit) [
          | inl q ↦ cc (i.reason q s, n)
          | inr q ↦ omega (
            arith,
            i.exact weight q n,
            none_held,
            coming_ended weight m.output m.chan (i.finished d),
            emitted-SameEntries P ctx plan.roots wa reach q
                (all_stopped-any P ctx _ (Reach-workers P ctx plan.roots reach) stopped) _,
            sum-passing P fs plan.filters has_user has_group weight es,
          )
        ]

  -- Let the channel be as documented, let `run` compile its filters, and let the sequential walk of the
  -- roots be finite, with the visits `es`. In every state that the threads of the run reach, after a
  -- signal or a full cap too, what is written is a sequence of whole lines, each the path and the
  -- separator of an entry of `es` that satisfies all filters, and none is written more often than it
  -- stands in `es`.
  pub run-PrintsSome :
      (G : Compiler) (register : ℕ → Bool) (unique : List Text → List Text) (args : Args) (now : ℤ)
      (limiter : Option (Task Fd → Bool)) {plan : Plan} {es : List (Seen Fd)} {m : Program Fd C}
      → run G register unique args now ≡ ok plan
      → WalkedAll P
          (ctx_of args limiter plan)
          (root_tasks P (ctx_of args limiter plan) plan.roots)
          es
      → Run P fs has_user has_group X
          (ctx_of args limiter plan)
          plan
          (start P fs has_user has_group X (ctx_of args limiter plan) plan)
          m
      → PrintsSome P fs plan.filters has_user has_group
          (separator_of args.null)
          (printer_of m.output).out
          es
  run-PrintsSome G register unique args now limiter {plan} h wa r =
      let (filters, same) = run-plan_of G register unique args now h in
      let i =
        Run-Tally P fs has_user has_group X laws (ctx_of args limiter plan) plan
          (run-uncapped G register unique args now h) r in
      record {
        printed = i.printed;
        written = i.is_printed.out ∙ ap (λ (x : Plan). lines x.separator i.printed) same;
        within = Within-passing (ctx_of args limiter plan) plan wa r i;
      }

  -- Let the channel be as documented, let `run` compile its filters, and let the sequential walk of the
  -- roots be finite, with the visits `es`. When `run` returns without a signal, however its threads were interleaved, then the output
  -- is, line by line, the path and the separator of entries of `es` that satisfy all filters: no more
  -- than are wanted, none more often than it stands in `es`; and they are exactly as many as are
  -- wanted, or every such entry is there as often as it stands in `es`.
  pub run-PrintsWanted :
      (G : Compiler) (register : ℕ → Bool) (unique : List Text → List Text) (args : Args) (now : ℤ)
      (limiter : Option (Task Fd → Bool)) {plan : Plan} {es : List (Seen Fd)} {m : Program Fd C}
      → run G register unique args now ≡ ok plan
      → WalkedAll P
          (ctx_of args limiter plan)
          (root_tasks P (ctx_of args limiter plan) plan.roots)
          es
      → Run P fs has_user has_group X
          (ctx_of args limiter plan)
          plan
          (start P fs has_user has_group X (ctx_of args limiter plan) plan)
          m
      → m.main ≡ done
      → m.shutdown ≡ false
      → PrintsWanted P fs plan.filters has_user has_group args.max_results
          (separator_of args.null)
          (printer_of m.output).out
          es
  run-PrintsWanted G register unique args now limiter {plan} {m = m} h wa r d s =
      let (filters, same) = run-plan_of G register unique args now h in
      let ctx = ctx_of args limiter plan in
      let i =
        Run-Tally P fs has_user has_group X laws ctx plan
          (run-uncapped G register unique args now h) r in
      let counted : (k : ℕ) → _ = λ (k : ℕ). ap (λ (x : Plan). is_reached x.max_results k) same in
      record {
        printed = i.printed;
        written = i.is_printed.out ∙ ap (λ (x : Plan). lines x.separator i.printed) same;
        within = Within-passing ctx plan wa r i;
        bound =
            subst (AtMost (cap_of args.max_results)) i.is_printed.count (
              subst (λ (x : Plan). AtMost x.max_results (printer_of m.output).written) same
                i.bound);
        full_or_all = elim (Bool-cases (is_reached (cap_of args.max_results) (length i.printed))) [
          | inl full ↦ inl full
          | inr n ↦ inr (
              all_written ctx plan wa r i d s (
                ap (is_reached plan.max_results) i.is_printed.count
                ∙ counted (length i.printed)
                ∙ n))
        ];
      }
