-- ===== src/Run/Threads/Plans.antt =====
-- src/lib.rs, `run`: what the threads are given.
use minifind.Base.{
  ℕ, ◌≡◌, refl, sym, ap, ◌∙◌, Bool, false, Option, none, some, List, arith, ok, >>=-eq-ok, ok-inj,
  zero, suc,
}
use minifind.Base.Int.{ℤ}
use minifind.Base.Text.{Text}
use minifind.Interrupt.{setup_interrupt_handler}
use minifind.Args.Types.{Args}
use minifind.Walk.{Task, WalkCtx}
use minifind.Pipeline.Output.{cap_of, is_reached}
use minifind.Pipeline.Patterns.{Compiler}
use minifind.Pipeline.Visitor.{Filters, make_filters}
use minifind.Run.{Plan, plan_of, run}

-- What `run` hands to `walk_parallel`: the set of `--exclude` is the one that it has compiled.
abbrev pub ctx_of : {Fd : Type 0} → Args → Option (Task Fd → Bool) → Plan → WalkCtx Fd
ctx_of args limiter plan = record { args = args; limiter = limiter; exclude = plan.filters.exclude }

-- A plan has the settings of the arguments.
pub run-plan_of :
    (G : Compiler) (register : ℕ → Bool) (unique : List Text → List Text) (args : Args) (now : ℤ)
    {plan : Plan}
    → run G register unique args now ≡ ok plan
    → (filters : Filters) × (plan ≡ plan_of unique args filters)
unfolding run
run-plan_of G register unique args now h =
    let (a, e, k) = >>=-eq-ok (setup_interrupt_handler register) _ h in
    let (filters, e', k') = >>=-eq-ok (make_filters G args now) _ k in (filters, sym (ok-inj k'))

-- No cap is reached by nothing.
pub cap_of-zero : (wanted : Option ℕ) → is_reached (cap_of wanted) 0 ≡ false
cap_of-zero none = refl
cap_of-zero (some zero) = refl
cap_of-zero (some (suc n)) = ground arith

pub run-uncapped :
    (G : Compiler) (register : ℕ → Bool) (unique : List Text → List Text) (args : Args) (now : ℤ)
    {plan : Plan}
    → run G register unique args now ≡ ok plan
    → is_reached plan.max_results 0 ≡ false
run-uncapped G register unique args now h =
    let (filters, same) = run-plan_of G register unique args now h in
    ap (λ (x : Plan). is_reached x.max_results 0) same ∙ cap_of-zero args.max_results
