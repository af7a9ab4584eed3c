-- ===== src/Args/Parse/Laws.antt =====
-- src/args.rs, `parse_inner`: what it guarantees of the arguments that it accepts.

use mathlib.Core.Path.{subst}
use minifind.Base.{
  ℕ, zero, suc, ◌≤◌, ◌<◌, ◌^◌, ◌≡◌, refl, sym, Bool, true, false, ◌&&◌, Option, none, some, is_some,
  List, [], ◌∷◌, is_empty, if◌then◌else◌, Result, ok, >>=-eq-ok, ok-inj, some-inj, Result-cases,
  All, All-append, arith, Bool-cases, Option-cases, inl, inr,
}
use minifind.Base.Bits.{bit_or-lt}
use minifind.Base.Text.{Text, parse_usize}
use minifind.Args.Types.{FileType, Args, Outcome, help, version, run}
use minifind.Args.Options.{Flag, Valued, Opt, flag, valued, short_option, long_option}
use minifind.Args.Values.{Env, parse_threads, parse_paths, in_threads, default_threads}
use minifind.Args.Parse.{
  Parsed, defaults, set_flag, set_value, store, Arg, short, long, positional, Lexer, Round, returns,
  continues, run_option, run_arg, finish, parse_loop, parse_inner, or_default,
}

-- A path that `parse_paths` returns: normalized from a directory.
abbrev pub IsRoot : Env → Text → Type 0
IsRoot env path = (x : Text) × (env.is_dir x ≡ true) × (env.normalize x ≡ some path)

abbrev OkThreads : Option ℕ → Type 0
OkThreads none = Unit
OkThreads (some n) = (2 ≤ n) × (n ≤ 65535)

-- What the loop keeps of its variables.
record IsParsed (env : Env) (p : Parsed) : Type 0 where
  threads : OkThreads p.threads
  access : p.access < 2 ^ 3
  path : All (IsRoot env) p.path

-- What `run` relies on.
pub record IsArgs (env : Env) (a : Args) : Type 0 where
  pub threads : 1 ≤ a.threads
  pub access : a.access < 2 ^ 3
  pub path : All (IsRoot env) a.path
  pub some_path : is_empty a.path ≡ false
  pub some_type : is_empty a.file_type ≡ false
  pub one_pattern : (is_some a.name && is_some a.regex) ≡ false

set_flag-IsParsed :
    (env : Env) (f : Flag) (p : Parsed) → IsParsed env p → IsParsed env (set_flag f p)
unfolding set_flag
set_flag-IsParsed env Flag.readable p h = record {
  threads = h.threads;
  access = bit_or-lt 3 p.access 1 h.access (omega arith);
  path = h.path;
}
set_flag-IsParsed env Flag.writable p h = record {
  threads = h.threads;
  access = bit_or-lt 3 p.access 2 h.access (omega arith);
  path = h.path;
}
set_flag-IsParsed env Flag.executable p h = record {
  threads = h.threads;
  access = bit_or-lt 3 p.access 4 h.access (omega arith);
  path = h.path;
}
set_flag-IsParsed env _ p h = record { threads = h.threads; access = h.access; path = h.path }

-- The fields that the invariant is about are those of `p`.
abbrev IsLike : Parsed → Parsed → Type 0
IsLike p q = (q.threads ≡ p.threads) × (q.access ≡ p.access) × (q.path ≡ p.path)

module _ (env : Env) {p : Parsed} (h : IsParsed env p) where
  like : {q : Parsed} → IsLike p q → IsParsed env q
  like (a, b, c) = record {
    threads = subst OkThreads (sym a) h.threads;
    access = subst (λ (n : ℕ). n < 2 ^ 3) (sym b) h.access;
    path = subst (All (IsRoot env)) (sym c) h.path;
  }

  direct : {q r : Parsed} → IsLike p q → ok q ≡ ok r → IsParsed env r
  direct l e = like (subst (IsLike p) (ok-inj e) l)

  stored :
      {A : Type 0} (m : Result A) (f : A → Parsed) {r : Parsed}
      → ((a : A) → IsLike p (f a))
      → store m f ≡ ok r
      → IsParsed env r
  stored m f l e = let (a, _, q) = >>=-eq-ok m (λ x. ok (f x)) e in direct (l a) q

parse_threads-bounds : (v : Text) {n : ℕ} → parse_threads v ≡ ok n → OkThreads (some n)
unfolding parse_threads
parse_threads-bounds v {n} e = elim (Option-cases (parse_usize v)) [
  | inl q ↦ cc (rw q at e)
  | inr (m, q) ↦ elim (Bool-cases (in_threads m)) [
    | inl c ↦ let w : ok m ≡ ok n = rw (q, c) at e in ground arith
    | inr c ↦ cc (rw (q, c) at e)
  ]
]

set_value-IsParsed :
    (env : Env) (o : Valued) (v : Text) (p : Parsed) {q : Parsed}
    → IsParsed env p
    → set_value env o v p ≡ ok q
    → IsParsed env q
unfolding set_value
set_value-IsParsed env Valued.threads v p h e =
    let (n, m, q) = >>=-eq-ok (parse_threads v) _ e in
    subst (IsParsed env) (ok-inj q)
      (record { threads = parse_threads-bounds v m; access = h.access; path = h.path })
set_value-IsParsed env Valued.max_depth v p h e = stored env h _ _ (λ a. (refl, refl, refl)) e
set_value-IsParsed env Valued.min_depth v p h e = stored env h _ _ (λ a. (refl, refl, refl)) e
set_value-IsParsed env Valued.max_scan_rate v p h e = stored env h _ _ (λ a. (refl, refl, refl)) e
set_value-IsParsed env Valued.max_results v p h e = stored env h _ _ (λ a. (refl, refl, refl)) e
set_value-IsParsed env Valued.file_type v p h e = stored env h _ _ (λ a. (refl, refl, refl)) e
set_value-IsParsed env Valued.size v p h e = stored env h _ _ (λ a. (refl, refl, refl)) e
set_value-IsParsed env Valued.mtime v p h e = stored env h _ _ (λ a. (refl, refl, refl)) e
set_value-IsParsed env Valued.ctime v p h e = stored env h _ _ (λ a. (refl, refl, refl)) e
set_value-IsParsed env Valued.atime v p h e = stored env h _ _ (λ a. (refl, refl, refl)) e
set_value-IsParsed env Valued.mmin v p h e = stored env h _ _ (λ a. (refl, refl, refl)) e
set_value-IsParsed env Valued.cmin v p h e = stored env h _ _ (λ a. (refl, refl, refl)) e
set_value-IsParsed env Valued.amin v p h e = stored env h _ _ (λ a. (refl, refl, refl)) e
set_value-IsParsed env Valued.perm v p h e = stored env h _ _ (λ a. (refl, refl, refl)) e
set_value-IsParsed env Valued.uid v p h e = stored env h _ _ (λ a. (refl, refl, refl)) e
set_value-IsParsed env Valued.gid v p h e = stored env h _ _ (λ a. (refl, refl, refl)) e
set_value-IsParsed env Valued.user v p h e = stored env h _ _ (λ a. (refl, refl, refl)) e
set_value-IsParsed env Valued.group v p h e = stored env h _ _ (λ a. (refl, refl, refl)) e
set_value-IsParsed env Valued.links v p h e = stored env h _ _ (λ a. (refl, refl, refl)) e
set_value-IsParsed env Valued.inum v p h e = stored env h _ _ (λ a. (refl, refl, refl)) e
set_value-IsParsed env Valued.newer v p h e = stored env h _ _ (λ a. (refl, refl, refl)) e
set_value-IsParsed env Valued.anewer v p h e = stored env h _ _ (λ a. (refl, refl, refl)) e
set_value-IsParsed env Valued.cnewer v p h e = stored env h _ _ (λ a. (refl, refl, refl)) e
set_value-IsParsed env Valued.name v p h e = direct env h (refl, refl, refl) e
set_value-IsParsed env Valued.regex v p h e = direct env h (refl, refl, refl) e
set_value-IsParsed env Valued.iname v p h e = direct env h (refl, refl, refl) e
set_value-IsParsed env Valued.iregex v p h e = direct env h (refl, refl, refl) e
set_value-IsParsed env Valued.exclude v p h e = direct env h (refl, refl, refl) e
set_value-IsParsed env Valued.path v p h e = direct env h (refl, refl, refl) e
set_value-IsParsed env Valued.ipath v p h e = direct env h (refl, refl, refl) e
set_value-IsParsed env Valued.lname v p h e = direct env h (refl, refl, refl) e
set_value-IsParsed env Valued.ilname v p h e = direct env h (refl, refl, refl) e

parse_paths-IsRoot :
    (env : Env) (x : Text) {path : Text} → parse_paths env x ≡ ok path → IsRoot env path
unfolding parse_paths
parse_paths-IsRoot env x {path} e = elim (Bool-cases (env.is_dir x)) [
  | inr c ↦ cc (rw c at e)
  | inl c ↦ elim (Option-cases (env.normalize x)) [
    | inl q ↦ cc (rw (c, q) at e)
    | inr (t, q) ↦ let w : ok t ≡ ok path = rw (c, q) at e in (x, c, cc (q, w))
  ]
]

-- A round that goes on keeps the invariant, and one that returns gives no arguments.
abbrev IsGood : {L : Type 0} → Env → Round L → Type 0
IsGood env (returns (run a)) = ⊥
IsGood env (returns _) = Unit
IsGood env (continues p l) = IsParsed env p

good : {L : Type 0} (env : Env) {q r : Round L} → IsGood env q → ok q ≡ ok r → IsGood env r
good env g e = subst (IsGood env) (ok-inj e) g

some_types :
    (ts : List FileType)
    → is_empty
        (if is_empty ts then FileType.directory ∷ FileType.file ∷ FileType.symlink ∷ [] else ts)
      ≡ false
some_types [] = refl
some_types (t ∷ ts) = refl

-- The result of the parser is fit to run, if it is to be run.
abbrev IsFit : Env → Result Outcome → Type 0
IsFit env (ok (run a)) = IsArgs env a
IsFit env _ = Unit

threads-positive :
    (env : Env) (o : Option ℕ) (idle : Bool)
    → 1 ≤ default_threads env
    → OkThreads o
    → 1 ≤ or_default o (if idle then 2 else default_threads env)
threads-positive env none true d h = omega arith
threads-positive env none false d h = d
threads-positive env (some n) idle d h = omega (arith, h.0)

finish-IsFit :
    (env : Env) (p : Parsed) → 1 ≤ default_threads env → IsParsed env p → IsFit env (finish env p)
unfolding finish
finish-IsFit env p d h = elim (Bool-cases (is_empty p.name)) [
  | inl a ↦ elim (Bool-cases (is_empty p.path)) [
    | inl c ↦ rw (a, c) tt
    | inr c ↦
        rw (a, c)
          (record {
            threads = threads-positive env p.threads p.idle d h.threads;
            access = h.access;
            path = h.path;
            some_path = c;
            some_type = some_types p.file_type;
            one_pattern = refl;
          })
  ]
  | inr a ↦ elim (Bool-cases (is_empty p.regex)) [
    | inr b ↦ rw (a, b) tt
    | inl b ↦ elim (Bool-cases (is_empty p.path)) [
      | inl c ↦ rw (a, b, c) tt
      | inr c ↦
          rw (a, b, c)
            (record {
              threads = threads-positive env p.threads p.idle d h.threads;
              access = h.access;
              path = h.path;
              some_path = c;
              some_type = some_types p.file_type;
              one_pattern = refl;
            })
    ]
  ]
]

returned :
    (L : Type 0) (env : Env) (o : Outcome) → IsGood {L = L} env (returns o) → IsFit env (ok o)
returned L env help g = tt
returned L env version g = tt
returned L env (run a) g = absurd g

module _ {L : Type 0} (X : Lexer L) (env : Env) where
  run_option-IsGood :
      (o : Option Opt) (p : Parsed) (l : L) {r : Round L}
      → IsParsed env p
      → run_option X env o p l ≡ ok r
      → IsGood env r
  unfolding run_option
  run_option-IsGood none p l h e = cc
  run_option-IsGood (some Opt.help) p l h e = good env {q = returns help} tt e
  run_option-IsGood (some Opt.version) p l h e = good env {q = returns version} tt e
  run_option-IsGood (some (flag f)) p l h e = good env (set_flag-IsParsed env f p h) e
  run_option-IsGood (some (valued o)) p l h e =
      let ((v, l'), _, e') = >>=-eq-ok (X.value l) _ e in
      let (p', s, e'') = >>=-eq-ok (set_value env o v p) _ e' in
      good env (set_value-IsParsed env o v p h s) e''

  run_arg-IsGood :
      (arg : Arg) (p : Parsed) (l : L) {r : Round L}
      → IsParsed env p
      → run_arg X env arg p l ≡ ok r
      → IsGood env r
  unfolding run_arg
  run_arg-IsGood (short c) p l h e = run_option-IsGood (short_option c) p l h e
  run_arg-IsGood (long word) p l h e = run_option-IsGood (long_option word) p l h e
  run_arg-IsGood (positional v) p l h e =
      let (path, s, e') = >>=-eq-ok (parse_paths env v) _ e in
      let here = parse_paths-IsRoot env v s in
      good env
        (record {
          threads = h.threads;
          access = h.access;
          path = All-append (IsRoot env) p.path (path ∷ []) h.path (here, tt);
        })
        e'

  parse_loop-IsFit :
      (fuel : ℕ) (p : Parsed) (l : L) {r : Result Outcome}
      → 1 ≤ default_threads env
      → IsParsed env p
      → parse_loop X env fuel p l ≡ some r
      → IsFit env r
  unfolding parse_loop
  parse_loop-IsFit zero p l d h e = cc
  parse_loop-IsFit (suc fuel) p l d h e = elim (Result-cases (X.next l)) [
    | inl (c, q) ↦ subst (IsFit env) (some-inj (rw (q, parse_loop) at e)) tt
    | inr (none, q) ↦
        subst (IsFit env) (some-inj (rw (q, parse_loop) at e)) (finish-IsFit env p d h)
    | inr (some (arg, l'), q) ↦ elim (Result-cases (run_arg X env arg p l')) [
      | inl (c, w) ↦ subst (IsFit env) (some-inj (rw (q, w, parse_loop) at e)) tt
      | inr (returns o, w) ↦
          subst (IsFit env) (some-inj (rw (q, w, parse_loop) at e))
            (returned L env o (run_arg-IsGood arg p l' h w))
      | inr (continues p' l'', w) ↦
          parse_loop-IsFit fuel p' l'' d (run_arg-IsGood arg p l' h w) (rw (q, w, parse_loop) at e)
    ]
  ]

  -- If the machine has at least one processor, arguments that are accepted give at least one thread,
  -- three access bits at most, at least one path, each normalized from a directory, at least one
  -- type, and not both name patterns and regular expressions.
  pub parse_inner-IsArgs :
      (fuel : ℕ) (argv : List Text) {a : Args}
      → 1 ≤ default_threads env
      → parse_inner X env fuel argv ≡ some (ok (run a))
      → IsArgs env a
  unfolding parse_inner
  parse_inner-IsArgs fuel argv d e =
      parse_loop-IsFit fuel defaults _ d (record { threads = tt; access = omega arith; path = tt })
        e
