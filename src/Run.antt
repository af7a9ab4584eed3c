-- ===== src/Run.antt =====
-- src/lib.rs, `run`: what is set up before the walk, in order, and with which settings the walk and the
-- output thread start.
pub mod Laws
pub mod Main
pub mod Channel
pub mod Threads
use minifind.Base.{
  ℕ, ◌*◌, ◌%◌, ◌^◌, Bool, true, false, Option, none, some, List, [], ◌∷◌, Result, ok, err, ◌>>=◌,
  Error, no_signal_handler, ltb, if◌then◌else◌,
}
use minifind.Base.Int.{ℤ, sub_usize}
use minifind.Base.Text.{Text}
use minifind.Args.Types.{Args}
use minifind.Interrupt.{setup_interrupt_handler}
use minifind.Pipeline.Output.{separator_of, cap_of}
use minifind.Pipeline.Patterns.{Compiler}
use minifind.Pipeline.Visitor.{Filters, make_filters}

abbrev pub chan_mult : ℕ
chan_mult = 4

-- What the walk and the output thread start with. `rate` is that of the limiter, if one is built.
pub record Plan : Type 0 where
  pub filters : Filters
  pub capacity : ℕ
  pub separator : ℕ
  pub max_results : Option ℕ
  pub roots : List Text
  pub rate : Option ℕ

-- `max_scan_rate.and_then(NonZeroU32::new)`.
abbrev pub non_zero : Option ℕ → Option ℕ
non_zero none = none
non_zero (some n) = if ltb 0 n then some n else none

abbrev pub plan_of : (List Text → List Text) → Args → Filters → Plan
plan_of unique args filters = record {
  filters = filters;
  capacity = (chan_mult * sub_usize args.threads 1) % 2 ^ 64;
  separator = separator_of args.null;
  max_results = cap_of args.max_results;
  roots = unique args.path;
  rate = non_zero args.max_scan_rate;
}

-- `run` up to the start of the threads. `unique` is that of itertools, and `now` the clock's reading.
unfoldable pub run : Compiler → (ℕ → Bool) → (List Text → List Text) → Args → ℤ → Result Plan
unfolding setup_interrupt_handler make_filters
run G register unique args now = setup_interrupt_handler register >>= λ done.
    make_filters G args now >>= λ filters. ok (plan_of unique args filters)
