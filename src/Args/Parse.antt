-- ===== src/Args/Parse.antt =====
-- src/args.rs, `parse_inner`: the loop over the arguments, its arms, and the checks after it. The
-- crate lexopt is a parameter; arguments are Unicode texts.
pub mod Laws
pub mod Ends
use Prim.Native.Nat.{bit_or}
use minifind.Base.{
  ℕ, zero, suc, Bool, true, false, not, ◌&&◌, Option, none, some, List, [], ◌∷◌, ◌++◌, is_empty,
  if◌then◌else◌, Result, ok, err, Error, ◌>>=◌, not_a_number, name_and_regex, no_paths,
  unexpected_argument,
}
use minifind.Base.Text.{Text, parse_usize, parse_u32}
use minifind.Meta.Mask
use minifind.Meta.Size
use minifind.Meta.Time
use minifind.Meta.Perm
use minifind.Meta.Nss.{resolve_user, resolve_group}
use minifind.Meta.Predicates.{Predicates, no_predicates, parse_id, exact_id}
use minifind.Args.Types.{FileType, Args, Outcome, help, version, run}
use minifind.Args.Spellings.{normalize}
use minifind.Args.Options.{Flag, Valued, Opt, flag, valued, short_option, long_option}
use minifind.Args.Values.{Env, or_err, default_threads, parse_file_type, parse_threads, parse_paths}

-- The local variables of the loop.
pub record Parsed : Type 0 where
  pub follow_symlinks : Bool
  pub one_filesystem : Bool
  pub threads : Option ℕ
  pub idle : Bool
  pub max_depth : Option ℕ
  pub min_depth : Option ℕ
  pub max_scan_rate : Option ℕ
  pub max_results : Option ℕ
  pub name : List Text
  pub regex : List Text
  pub case_insensitive : Bool
  pub file_type : List FileType
  pub exclude : List Text
  pub null : Bool
  pub meta : Predicates
  pub path_glob : List Text
  pub lname : List Text
  pub access : ℕ
  pub path : List Text

abbrev pub defaults : Parsed
defaults = record {
  follow_symlinks = false;
  one_filesystem = true;
  threads = none;
  idle = false;
  max_depth = none;
  min_depth = none;
  max_scan_rate = none;
  max_results = none;
  name = [];
  regex = [];
  case_insensitive = false;
  file_type = [];
  exclude = [];
  null = false;
  meta = no_predicates;
  path_glob = [];
  lname = [];
  access = 0;
  path = [];
}

-- `v.push(x)`.
abbrev pub pushed {ℓ} : {A : Type ℓ} → List A → A → List A
pushed v x = v ++ (x ∷ [])

-- The arms of the options without a value.
unfoldable pub set_flag : Flag → Parsed → Parsed
set_flag Flag.follow_symlinks p = record p { follow_symlinks = true }
set_flag Flag.one_filesystem p = record p { one_filesystem = true }
set_flag Flag.cross_filesystem p = record p { one_filesystem = false }
set_flag Flag.idle p = record p { idle = true }
set_flag Flag.case_insensitive p = record p { case_insensitive = true }
set_flag Flag.empty p = record p { file_type = pushed p.file_type FileType.empty }
set_flag Flag.nouser p = record p { meta = record p.meta { nouser = true } }
set_flag Flag.nogroup p = record p { meta = record p.meta { nogroup = true } }
set_flag Flag.readable p = record p { access = bit_or p.access Mask.read }
set_flag Flag.writable p = record p { access = bit_or p.access Mask.write }
set_flag Flag.executable p = record p { access = bit_or p.access Mask.exec }
set_flag Flag.quit p = record p { max_results = some 1 }
set_flag Flag.no_op p = p
set_flag Flag.null p = record p { null = true }

-- The rest of an arm once its value is parsed.
abbrev pub store {ℓ} : {A : Type ℓ} → Result A → (A → Parsed) → Result Parsed
store m f = m >>= λ a. ok (f a)

abbrev pub number : (Text → Option ℕ) → Text → Result ℕ
number parse v = or_err (not_a_number v) (parse v)

abbrev pub add_time : Parsed → Time.TimePred → Parsed
add_time p t = record p { meta = record p.meta { times = pushed p.meta.times t } }

abbrev pub add_newer : Parsed → Time.NewerPred → Parsed
add_newer p n = record p { meta = record p.meta { newer = pushed p.meta.newer n } }

-- The arms of the options with a value.
unfoldable pub set_value : Env → Valued → Text → Parsed → Result Parsed
set_value env Valued.threads v p = store (parse_threads v) (λ n. record p { threads = some n })
set_value env Valued.max_depth v p =
    store (number parse_usize v) (λ n. record p { max_depth = some n })
set_value env Valued.min_depth v p =
    store (number parse_usize v) (λ n. record p { min_depth = some n })
set_value env Valued.max_scan_rate v p =
    store (number parse_u32 v) (λ n. record p { max_scan_rate = some n })
set_value env Valued.max_results v p =
    store (number parse_usize v) (λ n. record p { max_results = some n })
set_value env Valued.name v p = ok (record p { name = pushed p.name v })
set_value env Valued.regex v p = ok (record p { regex = pushed p.regex v })
set_value env Valued.iname v p = ok (record p { case_insensitive = true; name = pushed p.name v })
set_value env Valued.iregex v p =
    ok (record p { case_insensitive = true; regex = pushed p.regex v })
set_value env Valued.file_type v p =
    store (parse_file_type v) (λ t. record p { file_type = pushed p.file_type t })
set_value env Valued.exclude v p = ok (record p { exclude = pushed p.exclude v })
set_value env Valued.size v p =
    store (Size.parse v) (λ s. record p { meta = record p.meta { size = some s } })
set_value env Valued.mtime v p = store (Time.mtime v Mask.day) (add_time p)
set_value env Valued.ctime v p = store (Time.ctime v Mask.day) (add_time p)
set_value env Valued.atime v p = store (Time.atime v Mask.day) (add_time p)
set_value env Valued.mmin v p = store (Time.mtime v Mask.minute) (add_time p)
set_value env Valued.cmin v p = store (Time.ctime v Mask.minute) (add_time p)
set_value env Valued.amin v p = store (Time.atime v Mask.minute) (add_time p)
set_value env Valued.perm v p =
    store (Perm.parse v) (λ q. record p { meta = record p.meta { perm = some q } })
set_value env Valued.uid v p =
    store (parse_id v) (λ i. record p { meta = record p.meta { uid = some i } })
set_value env Valued.gid v p =
    store (parse_id v) (λ i. record p { meta = record p.meta { gid = some i } })
set_value env Valued.user v p =
    store (resolve_user env.nss_uid v)
      (λ id. record p { meta = record p.meta { uid = some (exact_id id) } })
set_value env Valued.group v p =
    store (resolve_group env.nss_gid v)
      (λ id. record p { meta = record p.meta { gid = some (exact_id id) } })
set_value env Valued.links v p =
    store (parse_id v) (λ i. record p { meta = record p.meta { links = some i } })
set_value env Valued.inum v p =
    store (parse_id v) (λ i. record p { meta = record p.meta { inum = some i } })
set_value env Valued.newer v p =
    store (Time.file_mtime env.modified v) (λ t. add_newer p (Time.newer t))
set_value env Valued.anewer v p =
    store (Time.file_mtime env.modified v) (λ t. add_newer p (Time.anewer t))
set_value env Valued.cnewer v p =
    store (Time.file_mtime env.modified v) (λ t. add_newer p (Time.cnewer t))
set_value env Valued.path v p = ok (record p { path_glob = pushed p.path_glob v })
set_value env Valued.ipath v p =
    ok (record p { case_insensitive = true; path_glob = pushed p.path_glob v })
set_value env Valued.lname v p = ok (record p { lname = pushed p.lname v })
set_value env Valued.ilname v p =
    ok (record p { case_insensitive = true; lname = pushed p.lname v })

-- lexopt: the next argument, and the value of the option just read.
pub data Arg : Type 0 where
  short : ℕ → Arg
  long : Text → Arg
  positional : Text → Arg

pub record Lexer (L : Type 0) : Type 0 where
  pub from_iter : List Text → L
  pub next : L → Result (Option (Arg × L))
  pub value : L → Result (Text × L)

-- What one round of the loop does: it returns, or goes on.
pub data Round (L : Type 0) : Type 0 where
  returns : Outcome → Round L
  continues : Parsed → L → Round L

-- `(!v.is_empty()).then_some(v)`.
abbrev pub then_some {ℓ} : {A : Type ℓ} → List A → Option (List A)
then_some v = if is_empty v then none else some v

abbrev pub or_default : Option ℕ → ℕ → ℕ
or_default none n = n
or_default (some t) n = t

-- What follows the loop.
unfoldable pub finish : Env → Parsed → Result Outcome
finish env p =
    if not (is_empty p.name) && not (is_empty p.regex)
    then err name_and_regex
    else if is_empty p.path
    then err no_paths
    else ok (
        run (record {
          follow_symlinks = p.follow_symlinks;
          one_filesystem = p.one_filesystem;
          threads = or_default p.threads (if p.idle then 2 else default_threads env);
          idle = p.idle;
          max_depth = p.max_depth;
          min_depth = p.min_depth;
          max_scan_rate = p.max_scan_rate;
          max_results = p.max_results;
          name = then_some p.name;
          regex = then_some p.regex;
          case_insensitive = p.case_insensitive;
          file_type =
              if is_empty p.file_type
              then FileType.directory ∷ FileType.file ∷ FileType.symlink ∷ []
              else p.file_type;
          meta = p.meta;
          path_glob = then_some p.path_glob;
          lname = then_some p.lname;
          access = p.access;
          exclude = then_some p.exclude;
          null = p.null;
          path = p.path;
        }))

unfoldable pub normalize_all : List Text → List Text
unfolding normalize
normalize_all [] = []
normalize_all (a ∷ rest) = normalize a ∷ normalize_all rest

module _ {L : Type 0} (X : Lexer L) (env : Env) where
  run_option : Option Opt → Parsed → L → Result (Round L)
  run_option none p l = err unexpected_argument
  run_option (some Opt.help) p l = ok (returns help)
  run_option (some Opt.version) p l = ok (returns version)
  run_option (some (flag f)) p l = ok (continues (set_flag f p) l)
  run_option (some (valued o)) p l =
      X.value l >>= λ (v, l'). set_value env o v p >>= λ p'. ok (continues p' l')

  unfoldable pub run_arg : Arg → Parsed → L → Result (Round L)
  unfolding run_option
  run_arg (positional v) p l =
      parse_paths env v >>= λ path. ok (continues (record p { path = pushed p.path path }) l)
  run_arg (short c) p l = run_option (short_option c) p l
  run_arg (long name) p l = run_option (long_option name) p l

  -- The loop, on fuel: `none` is a loop that has not ended yet.
  unfoldable pub parse_loop : ℕ → Parsed → L → Option (Result Outcome)
  unfolding finish
  parse_loop zero p l = none
  parse_loop (suc fuel) p l = elim (X.next l) [
    | err e ↦ some (err e)
    | ok none ↦ some (finish env p)
    | ok (some (arg, l')) ↦ elim (run_arg arg p l') [
      | err e ↦ some (err e)
      | ok (returns o) ↦ some (ok o)
      | ok (continues p' l'') ↦ parse_loop fuel p' l''
    ]
  ]

  unfoldable pub parse_inner : ℕ → List Text → Option (Result Outcome)
  unfolding parse_loop normalize_all
  parse_inner fuel argv = parse_loop fuel defaults (X.from_iter (normalize_all argv))
