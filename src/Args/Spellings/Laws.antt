-- ===== src/Args/Spellings/Laws.antt =====
-- src/args.rs: what rewriting find's spellings leads to.
use mathlib.Core.Path.{ap₂}
use minifind.Base.{
  ◌==◌, ==→≡, ℕ, ◌≡◌, refl, Bool, true, false, not, ◌&&◌, some, is_some, List, [], ◌∷◌, all,
  Bool-cases, inl, inr, ◌⊎◌, Option-cases, and-eq-true,
}
use minifind.Base.Text.{Text, codes, text_eq}
use minifind.Args.Spellings.{find_row, find_words, normalize}
use minifind.Args.Options.{long_option}

-- A long option that the parser knows, and that is not one of find's words.
known : Text → Bool
known [] = false
known (a ∷ []) = false
known (a ∷ b ∷ word) =
    text_eq (a ∷ b ∷ []) (codes "--")
    && (is_some (long_option word) && not (is_some (find_row (a ∷ b ∷ word) find_words)))

words_table : all (λ (row : Text × Text). known row.1) find_words ≡ true
unfolding known find_row long_option
words_table = refl

find_row-all {ℓ} :
    {A : Type ℓ} (q : A → Bool) (s : Text) (rows : List (Text × A)) {a : A}
    → all (λ (row : Text × A). q row.1) rows ≡ true
    → find_row s rows ≡ some a
    → q a ≡ true
unfolding find_row
find_row-all q s [] h e = cc
find_row-all q s ((t, b) ∷ rows) {a} h e =
    let (here, rest) = and-eq-true (q b) (all (λ (row : Text × _). q row.1) rows) h in
    elim (Bool-cases (text_eq t s)) [
      | inl same ↦ let w : some b ≡ some a = rw same at e in cc (w, here)
      | inr other ↦ find_row-all q s rows rest (rw other at e)
    ]

-- A word that is not rewritten, or one that is, to a long option with the given name.
abbrev pub IsRewritten : Text → Text → Type 0
IsRewritten s t =
    (t ≡ s)
    ⊎ ((word : Text) × (t ≡ b'-' ∷ b'-' ∷ word)
        × (is_some (long_option word) ≡ true)
        × (normalize t ≡ t))

free_lem : (t : Text) → not (is_some (find_row t find_words)) ≡ true → normalize t ≡ t
unfolding normalize
free_lem t h = elim (Option-cases (find_row t find_words)) [
  | inl e ↦ rw e
  | inr (u, e) ↦ cc (rw e at h)
]

known_lem : (s t : Text) → known t ≡ true → IsRewritten s t
unfolding known
known_lem s [] h = cc
known_lem s (a ∷ []) h = cc
known_lem s (a ∷ b ∷ word) h =
    let (dashes, q) = and-eq-true (text_eq (a ∷ b ∷ []) (codes "--")) _ h in
    let (listed, free) = and-eq-true (is_some (long_option word)) _ q in
    let (first, rest) = and-eq-true (a == b'-') _ dashes in
    let (second, _) = and-eq-true (b == b'-') _ rest in
    inr (
      word,
      ap₂ (λ (x y : ℕ). x ∷ y ∷ word) (==→≡ a b'-' first) (==→≡ b b'-' second),
      listed,
      free_lem (a ∷ b ∷ word) free,
    )

-- Each argument is left as it is, or rewritten to `--` and the name of an option that the parser knows,
-- which would not be rewritten again.
pub normalize-known : (s : Text) → IsRewritten s (normalize s)
unfolding normalize
normalize-known s = elim (Option-cases (find_row s find_words)) [
  | inl e ↦ rw e (inl refl)
  | inr (t, e) ↦ rw e (known_lem s t (find_row-all known s find_words words_table e))
]
