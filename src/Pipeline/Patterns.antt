-- ===== src/Pipeline/Patterns.antt =====
-- src/glob.rs and src/regex.rs: the compiled sets of patterns. The crates globset and regex are
-- parameters.
use minifind.Base.{
  Bool, Option, none, some, List, [], ◌∷◌, Result, ok, err, ◌>>=◌, Error, invalid_glob,
  invalid_regex, set_too_large,
}
use minifind.Base.Text.{Text}

-- What a compiled set answers, and how one is built: a pattern with its case flag, then the set of
-- them; `none` is an error. A `RegexSet` is built from its patterns at once.
pub record Compiler : Type 1 where
  pub Glob : Type 0
  pub build_glob : Text → Bool → Option Glob
  pub build_globs : List Glob → Option (Text → Bool)
  pub build_regexes : List Text → Bool → Option (Text → Bool)

-- `patterns.into_iter().flatten()`.
abbrev pub patterns_of : Option (List Text) → List Text
patterns_of none = []
patterns_of (some ps) = ps

abbrev pub or_error {ℓ} : {A : Type ℓ} → Error → Option A → Result A
or_error e none = err e
or_error e (some a) = ok a

module _ (G : Compiler) where
  -- The loop that adds each pattern to the builder.
  unfoldable pub add_all : List Text → Bool → Result (List G.Glob)
  add_all [] case_insensitive = ok []
  add_all (p ∷ ps) case_insensitive =
      let rest = add_all ps case_insensitive in
      or_error (invalid_glob p) (G.build_glob p case_insensitive) >>= λ g.
      rest >>= λ gs. ok (g ∷ gs)

  unfoldable pub build_glob_set : Option (List Text) → Bool → Result (Text → Bool)
  unfolding add_all
  build_glob_set patterns case_insensitive =
      add_all (patterns_of patterns) case_insensitive >>= λ gs.
      or_error set_too_large (G.build_globs gs)

  unfoldable pub build_regex_set : Option (List Text) → Bool → Result (Text → Bool)
  build_regex_set patterns case_insensitive =
      or_error invalid_regex (G.build_regexes (patterns_of patterns) case_insensitive)
