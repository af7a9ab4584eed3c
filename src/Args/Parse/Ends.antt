-- ===== src/Args/Parse/Ends.antt =====
-- src/args.rs, `parse_inner`: it ends, with a round for each step of what lexopt has left.

use minifind.Base.{
  ℕ, zero, suc, ◌≤◌, ◌<◌, ◌≡◌, refl, ap, Option, none, some, List, Result, ok, err, >>=-eq-ok,
  Result-cases, arith, inl, inr,
}
use minifind.Base.Text.{Text}
use minifind.Args.Types.{Outcome}
use minifind.Args.Options.{Opt, flag, valued, short_option, long_option}
use minifind.Args.Values.{Env, parse_paths}
use minifind.Args.Parse.{
  Parsed, defaults, set_value, Arg, short, long, positional, Lexer, returns, continues, run_option,
  run_arg, finish, parse_loop, parse_inner, normalize_all,
}

module _ {L : Type 0} (X : Lexer L) (env : Env) where
  module _ (left : L → ℕ)
      (next-left : (l l' : L) (arg : Arg) → X.next l ≡ ok (some (arg, l')) → left l' < left l)
      (value-left : (l l' : L) (v : Text) → X.value l ≡ ok (v, l') → left l' ≤ left l) where
    run_option-left :
        (o : Option Opt) (p p' : Parsed) (l l' : L)
        → run_option X env o p l ≡ ok (continues p' l')
        → left l' ≤ left l
    unfolding run_option
    run_option-left none p p' l l' e = cc
    run_option-left (some Opt.help) p p' l l' e = cc
    run_option-left (some Opt.version) p p' l l' e = cc
    run_option-left (some (flag f)) p p' l l' e = let s : l ≡ l' = cc e in omega (arith, ap left s)
    run_option-left (some (valued o)) p p' l l' e =
        let ((v, m), a, e') = >>=-eq-ok (X.value l) _ e in
        let (q, _, e'') = >>=-eq-ok (set_value env o v p) _ e' in
        let s : m ≡ l' = cc e'' in omega (arith, value-left l m v a, ap left s)

    run_arg-left :
        (arg : Arg) (p p' : Parsed) (l l' : L)
        → run_arg X env arg p l ≡ ok (continues p' l')
        → left l' ≤ left l
    unfolding run_arg
    run_arg-left (short c) p p' l l' e = run_option-left (short_option c) p p' l l' e
    run_arg-left (long word) p p' l l' e = run_option-left (long_option word) p p' l l' e
    run_arg-left (positional v) p p' l l' e =
        let (path, _, e') = >>=-eq-ok (parse_paths env v) _ e in
        let s : l ≡ l' = cc e' in omega (arith, ap left s)

    parse_loop-ends :
        (fuel : ℕ) (p : Parsed) (l : L)
        → left l < fuel
        → (r : Result Outcome) × (parse_loop X env fuel p l ≡ some r)
    unfolding parse_loop
    parse_loop-ends zero p l h = absurd (omega arith)
    parse_loop-ends (suc fuel) p l h = elim (Result-cases (X.next l)) [
      | inl (c, q) ↦ (err c, rw (q, parse_loop) refl)
      | inr (none, q) ↦ (finish env p, rw (q, parse_loop) refl)
      | inr (some (arg, l'), q) ↦ elim (Result-cases (run_arg X env arg p l')) [
        | inl (c, w) ↦ (err c, rw (q, w, parse_loop) refl)
        | inr (returns o, w) ↦ (ok o, rw (q, w, parse_loop) refl)
        | inr (continues p' l'', w) ↦
            let (r, e) =
              parse_loop-ends fuel p' l''
                (omega (arith, next-left l l' arg q, run_arg-left arg p p' l' l'' w)) in
            (r, rw (q, w, parse_loop) e)
      ]
    ]

    -- If lexopt has ever less left to read, the parser ends with a result, in one round more than it
    -- has left at the start.
    pub parse_inner-ends :
        (argv : List Text)
        → (r : Result Outcome) × (parse_inner X env
              (suc (left (X.from_iter (normalize_all argv))))
              argv
            ≡ some r)
    unfolding parse_inner
    parse_inner-ends argv =
        let l = X.from_iter (normalize_all argv) in
        parse_loop-ends (suc (left l)) defaults l (omega arith)
