-- ===== src/Tests/Run.antt =====
-- Runs of the start of src/lib.rs, `run`, and of src/main.rs.
use minifind.Base.{
  ℕ, ◌≡◌, refl, Bool, true, none, some, [], ◌∷◌, if◌then◌else◌, ok, err, no_signal_handler,
  missing_value, ◌==◌, not,
}
use minifind.Base.Int.{pos}
use minifind.Base.Text.{Text, codes, text_eq}
use minifind.Args.Types.{Args, help, run as run_outcome}
use minifind.Pipeline.Patterns.{Compiler}
use minifind.Run.{run}
use minifind.Run.Laws.{error_of}
use minifind.Run.Main.{
  print_help, report, exit, warn, reset_sigpipe, raise_nofile_limit, run_with, main,
}
use minifind.Tests.Walk.{arguments}

-- A glob is its own text, and `[` is none.
abbrev compiler : Compiler
compiler = record {
  Glob = Text;
  build_glob = λ p case_insensitive. if text_eq p (codes "[") then none else some p;
  build_globs = λ gs. some (λ text. true);
  build_regexes = λ ps case_insensitive. some (λ text. true);
}

abbrev bad : Args
bad = record arguments {
  name = some (codes "*.rs" ∷ codes "[" ∷ []);
  exclude = some (codes "[" ∷ []);
}

abbrev but_sigquit : ℕ → Bool
but_sigquit signal = not (signal == 3)

signals_first :
    error_of (run compiler but_sigquit (λ ps. ps) bad (pos 0)) ≡ some (no_signal_handler 3)
unfolding run
signals_first = refl

starts :
    (main 8 (ok (run_outcome arguments))
      ≡ reset_sigpipe ∷ raise_nofile_limit ∷ run_with arguments ∷ [])
    × (main 1 (ok (run_outcome arguments))
        ≡ warn 2 1 ∷ reset_sigpipe ∷ raise_nofile_limit ∷ run_with arguments ∷ [])
    × (main 8 (ok help) ≡ print_help ∷ exit 0 ∷ [])
    × (main 8 (err missing_value) ≡ report missing_value ∷ exit 2 ∷ [])
unfolding main
starts = (refl, refl, refl, refl)
