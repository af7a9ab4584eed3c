-- ===== src/Run/Main.antt =====
-- src/main.rs, and `Args::parse` and `oversubscription_warning` of src/args.rs: the binary.
use minifind.Base.{
  ℕ, Option, none, some, List, [], ◌∷◌, ◌++◌, Result, ok, err, Error, ltb, if◌then◌else◌,
}
use minifind.Args.Types.{Args, Outcome, help, version, run}

-- What the process does beside the walk, in order. The texts of the messages are left out.
pub data Effect : Type 0 where
  print_help : Effect
  print_version : Effect
  report : Error → Effect
  exit : ℕ → Effect
  warn : ℕ → ℕ → Effect
  reset_sigpipe : Effect
  raise_nofile_limit : Effect
  lower_nice : Effect
  run_with : Args → Effect

-- The numbers that the warning cites.
unfoldable pub oversubscription_warning : ℕ → ℕ → Option (ℕ × ℕ)
oversubscription_warning threads available =
    if ltb available threads then some (threads, available) else none

abbrev pub warning : Option (ℕ × ℕ) → List Effect
warning none = []
warning (some (threads, available)) = warn threads available ∷ []

-- `main` after `Args::parse`.
abbrev pub main_with : ℕ → Args → List Effect
main_with available args =
    warning (oversubscription_warning args.threads available)
    ++ (reset_sigpipe
        ∷ raise_nofile_limit
        ∷ ((if args.idle then lower_nice ∷ [] else []) ++ (run_with args ∷ [])))

-- `main`, with what `parse_inner` makes of the arguments: `Args::parse` ends the process itself if
-- there is nothing to run.
unfoldable pub main : ℕ → Result Outcome → List Effect
unfolding oversubscription_warning
main available (ok (run args)) = main_with available args
main available (ok help) = print_help ∷ exit 0 ∷ []
main available (ok version) = print_version ∷ exit 0 ∷ []
main available (err e) = report e ∷ exit 2 ∷ []
