-- ===== src/Tests/Args.antt =====
-- Runs of src/args.rs with a small lexer, and the theorems about it at concrete inputs.
use minifind.Base.{
  ◌≤◌, ◌<◌, ◌≡◌, refl, true, false, Option, none, some, List, [], ◌∷◌, arith, length, Result, ok,
  err, missing_value, ◌==◌, if◌then◌else◌, no_paths, ap,
}
use minifind.Base.Text.{Text, codes, text_eq}
use minifind.Args.Types.{FileType, Args, Outcome}
use minifind.Args.Spellings.{normalize, find_row}
use minifind.Args.Spellings.Laws.{IsRewritten, normalize-known}
use minifind.Args.Options.{long_option, short_option}
use minifind.Args.Values.{Env, parse_file_type, parse_paths}
use minifind.Meta.Predicates.{no_predicates}
use minifind.Args.Parse.{
  Arg, short, long, positional, Lexer, parse_inner, parse_loop, normalize_all, run_arg, set_flag,
  set_value, finish,
}
use minifind.Args.Parse.Laws.{IsArgs, parse_inner-IsArgs}
use minifind.Args.Parse.Ends.{parse_inner-ends}

abbrev env : Env
env = record {
  parallelism = some 8;
  is_dir = λ path. text_eq path (codes "src");
  normalize = λ path. some path;
  modified = λ path. none;
  nss_uid = λ word. none;
  nss_gid = λ word. none;
}

-- A word of one dash is a letter, a word of two dashes a name, and a value is the next word.
abbrev arg_of : Text → Arg
arg_of [] = positional []
arg_of (a ∷ []) = positional (a ∷ [])
arg_of (a ∷ b ∷ rest) =
    if a == b'-' then (if b == b'-' then long rest else short b) else positional (a ∷ b ∷ rest)

abbrev next_word : List Text → Result (Option (Arg × List Text))
next_word [] = ok none
next_word (w ∷ ws) = ok (some (arg_of w, ws))

abbrev value_word : List Text → Result (Text × List Text)
value_word [] = err missing_value
value_word (w ∷ ws) = ok (w, ws)

abbrev lexer : Lexer (List Text)
lexer = record { from_iter = λ argv. argv; next = next_word; value = value_word }

next_word-length :
    (l l' : List Text) (arg : Arg) → next_word l ≡ ok (some (arg, l')) → length l' < length l
next_word-length [] l' arg h = cc
next_word-length (w ∷ ws) l' arg h = let e : ws ≡ l' = cc h in omega (arith, ap length e)

value_word-length : (l l' : List Text) (v : Text) → value_word l ≡ ok (v, l') → length l' ≤ length l
value_word-length [] l' v h = cc
value_word-length (w ∷ ws) l' v h = let e : ws ≡ l' = cc h in omega (arith, ap length e)

abbrev argv : List Text
argv = codes "-follow" ∷ codes "-type" ∷ codes "f" ∷ codes "src" ∷ []

parse_inner-ends_example : (r : Result Outcome) × (parse_inner lexer env 5 argv ≡ some r)
unfolding normalize_all
parse_inner-ends_example = parse_inner-ends lexer env length next_word-length value_word-length argv

-- No path is given: the parser's own error.
no_path : parse_inner lexer env 2 (codes "-f" ∷ []) ≡ some (err no_paths)
unfolding parse_inner parse_loop run_arg set_flag finish normalize find_row short_option
    normalize_all
no_path = refl

abbrev accepted : Args
accepted = record {
  follow_symlinks = true;
  one_filesystem = true;
  threads = 8;
  idle = false;
  max_depth = none;
  min_depth = none;
  max_scan_rate = none;
  max_results = none;
  name = none;
  regex = none;
  case_insensitive = false;
  file_type = FileType.file ∷ [];
  meta = no_predicates;
  path_glob = none;
  lname = none;
  access = 1;
  exclude = none;
  null = false;
  path = codes "src" ∷ [];
}

parse_inner-IsArgs_example : IsArgs env accepted
unfolding parse_inner parse_loop run_arg set_flag set_value finish normalize find_row short_option
    long_option parse_file_type parse_paths normalize_all
parse_inner-IsArgs_example =
    parse_inner-IsArgs lexer env 9
      (codes "-follow" ∷ codes "-type" ∷ codes "f" ∷ codes "-readable" ∷ codes "src" ∷ [])
      (omega arith) refl

normalize-known_example : IsRewritten (codes "-type") (normalize (codes "-type"))
normalize-known_example = normalize-known (codes "-type")
