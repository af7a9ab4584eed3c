-- ===== src/Run/Laws.antt =====
-- src/lib.rs, `run`: when it fails, and with which error.
use minifind.Base.{
  ℕ, Bool, Option, none, some, List, [], ◌∷◌, ◌++◌, Result, ok, err, Error, invalid_glob,
  invalid_regex, set_too_large, no_signal_handler, if◌then◌else◌,
}
use minifind.Base.Text.{Text}
use minifind.Args.Types.{Args}
use minifind.Pipeline.Patterns.{Compiler, patterns_of}
use minifind.Interrupt.{stop_signals}

-- The error of a result, if it is one.
abbrev pub error_of {ℓ} : {A : Type ℓ} → Result A → Option Error
error_of (err e) = some e
error_of (ok a) = none

-- The first error of a list of checks.
abbrev pub first_error : List (Option Error) → Option Error
first_error [] = none
first_error (none ∷ checks) = first_error checks
first_error (some e ∷ checks) = some e

abbrev pub fails {ℓ} : {A : Type ℓ} → Error → Option A → Option Error
fails e none = some e
fails e (some a) = none

abbrev or_else : Option Error → Option Error → Option Error
or_else none next = next
or_else (some e) next = some e

-- The checks of `run`, one after the other.
signal_checks : (ℕ → Bool) → List ℕ → List (Option Error)
signal_checks register [] = []
signal_checks register (s ∷ signals) =
    (if register s then none else some (no_signal_handler s)) ∷ signal_checks register signals

module _ (G : Compiler) where
  pattern_checks : List Text → Bool → List (Option Error)
  pattern_checks [] i = []
  pattern_checks (p ∷ ps) i = fails (invalid_glob p) (G.build_glob p i) ∷ pattern_checks ps i

  abbrev cons_some : Option G.Glob → List G.Glob → List G.Glob
  cons_some none gs = gs
  cons_some (some g) gs = g ∷ gs

  -- The patterns that compile.
  compiled : List Text → Bool → List G.Glob
  compiled [] i = []
  compiled (p ∷ ps) i = cons_some (G.build_glob p i) (compiled ps i)

  glob_checks : Option (List Text) → Bool → List (Option Error)
  glob_checks patterns i =
      pattern_checks (patterns_of patterns) i
      ++ (fails set_too_large (G.build_globs (compiled (patterns_of patterns) i)) ∷ [])

  regex_checks : Option (List Text) → Bool → List (Option Error)
  regex_checks patterns i = fails invalid_regex (G.build_regexes (patterns_of patterns) i) ∷ []

  exclude_checks : Args → List (Option Error)
  exclude_checks args = glob_checks args.exclude args.case_insensitive ++ []

  lname_checks : Args → List (Option Error)
  lname_checks args = glob_checks args.lname args.case_insensitive ++ exclude_checks args

  path_checks : Args → List (Option Error)
  path_checks args = glob_checks args.path_glob args.case_insensitive ++ lname_checks args

  -- The sets of patterns, in the order of `--name`, `--regex`, `-path`, `-lname` and `--exclude`.
  set_checks : Args → List (Option Error)
  unfolding path_checks lname_checks exclude_checks
  set_checks args =
      glob_checks args.name args.case_insensitive
      ++ (regex_checks args.regex args.case_insensitive ++ path_checks args)

  -- All checks of `run`: the signals, then the sets of patterns.
  unfoldable pub run_checks : (ℕ → Bool) → Args → List (Option Error)
  unfolding signal_checks set_checks path_checks lname_checks exclude_checks glob_checks
      regex_checks pattern_checks compiled
  run_checks register args = signal_checks register stop_signals ++ set_checks args
