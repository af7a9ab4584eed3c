-- ===== src/Pipeline/Output/Laws.antt =====
-- src/lib.rs, the output thread: what is written, and that a reader of the separator gets it back.
use minifind.Base.{
  ℕ, zero, suc, ◌+◌, ◌≡◌, refl, sym, ap, ◌∙◌, true, false, Option, none, some, List, [], ◌∷◌, ◌++◌,
  arith, if◌then◌else◌, ◌==◌, any, take, Bool-cases, inl, inr, leb, or-eq-false, ltb,
}
use minifind.Base.Text.{Text}
use minifind.Walk.{Entry}
use minifind.Pipeline.Output.{cap_of, is_reached, Printer, no_output, print, print_batch, print_all}
use minifind.Pipeline.Batch.Laws.{concat}

-- The paths of entries, each followed by the separator.
abbrev pub lines : ℕ → List Entry → Text
lines separator [] = []
lines separator (e ∷ es) = e.path ++ (separator ∷ lines separator es)

-- At most the wanted number of results; none and 0 mean all.
abbrev pub limited : Option ℕ → List Entry → List Entry
limited none es = es
limited (some zero) es = es
limited (some (suc n)) es = take (suc n) es

text_assoc : (xs ys zs : Text) → (xs ++ ys) ++ zs ≡ xs ++ (ys ++ zs)
text_assoc [] ys zs = refl
text_assoc (x ∷ xs) ys zs = ap (λ (l : Text). x ∷ l) (text_assoc xs ys zs)

text_nil : (xs : Text) → xs ++ [] ≡ xs
text_nil [] = refl
text_nil (x ∷ xs) = ap (λ (l : Text). x ∷ l) (text_nil xs)

-- The batches are written as their concatenation would be.
print_batch-append :
    (cap : Option ℕ) (separator : ℕ) (xs ys : List Entry) (p : Printer)
    → (print_batch cap separator (xs ++ ys) p).1 ≡ (
        if (print_batch cap separator xs p).0
        then (print_batch cap separator ys (print_batch cap separator xs p).1).1
        else (print_batch cap separator xs p).1)
unfolding print_batch
print_batch-append cap separator [] ys p = refl
print_batch-append cap separator (x ∷ xs) ys p =
    elim (Bool-cases (is_reached cap (p.written + 1))) [
      | inl e ↦ rw e
      | inr e ↦ rw e (print_batch-append cap separator xs ys (print separator x p))
    ]

print_all-concat :
    (cap : Option ℕ) (separator : ℕ) (bs : List (List Entry)) (p : Printer)
    → print_all cap separator bs p ≡ (print_batch cap separator (concat bs) p).1
unfolding print_all print_batch
print_all-concat cap separator [] p = refl
print_all-concat cap separator (b ∷ bs) p = elim (Bool-cases (print_batch cap separator b p).0) [
  | inl e ↦ rw e (
      print_all-concat cap separator bs _
      ∙ sym (print_batch-append cap separator b (concat bs) p ∙ rw e))
  | inr e ↦ rw e (sym (print_batch-append cap separator b (concat bs) p ∙ rw e))
]

grown :
    (separator : ℕ) (e : Entry) (out rest : Text)
    → (out ++ (e.path ++ (separator ∷ []))) ++ rest ≡ out ++ (e.path ++ (separator ∷ rest))
grown separator e out rest =
    text_assoc out (e.path ++ (separator ∷ [])) rest
    ∙ ap (λ (l : Text). out ++ l) (text_assoc e.path (separator ∷ []) rest)

print_batch-unlimited :
    (separator : ℕ) (es : List Entry) (p : Printer)
    → (print_batch none separator es p).1.out ≡ p.out ++ lines separator es
unfolding print_batch
print_batch-unlimited separator [] p = sym (text_nil p.out)
print_batch-unlimited separator (e ∷ es) p =
    print_batch-unlimited separator es (print separator e p)
    ∙ grown separator e p.out (lines separator es)

-- With `room` results to go.
print_batch-capped :
    (n room : ℕ) (separator : ℕ) (es : List Entry) (p : Printer)
    → p.written + suc room ≡ n
    → (print_batch (some n) separator es p).1.out ≡ p.out ++ lines separator (take (suc room) es)
unfolding print_batch
print_batch-capped n room separator [] p h = sym (text_nil p.out)
print_batch-capped n zero separator (e ∷ es) p h =
    let full : leb n (p.written + 1) ≡ true = ground arith in
    rw full (ap (λ (l : Text). p.out ++ (e.path ++ l)) refl)
print_batch-capped n (suc room) separator (e ∷ es) p h =
    let more : leb n (p.written + 1) ≡ false = ground arith in
    rw more (
      print_batch-capped n room separator es (print separator e p) (omega arith)
      ∙ grown separator e p.out (lines separator (take (suc room) es)))

-- Whatever batches arrive, the output is the path of each entry in order, each followed by the
-- separator, up to the number of results that is wanted, where none and 0 mean all.
pub print_all-lines :
    (max_results : Option ℕ) (separator : ℕ) (bs : List (List Entry))
    → (print_all (cap_of max_results) separator bs no_output).out
      ≡ lines separator (limited max_results (concat bs))
print_all-lines none separator bs =
    ap (λ (p : Printer). p.out) (print_all-concat none separator bs no_output)
    ∙ print_batch-unlimited separator (concat bs) no_output
print_all-lines (some zero) separator bs =
    ap (λ (p : Printer). p.out) (print_all-concat none separator bs no_output)
    ∙ print_batch-unlimited separator (concat bs) no_output
print_all-lines (some (suc n)) separator bs =
    let given : ltb 0 (suc n) ≡ true = ground arith in
    rw given (
      ap (λ (p : Printer). p.out) (print_all-concat (some (suc n)) separator bs no_output)
      ∙ print_batch-capped (suc n) n separator (concat bs) no_output (omega arith))

-- What a reader makes of the output who splits it after each separator, as `xargs -0` does.
add_to_first : ℕ → List Text → List Text
add_to_first c [] = (c ∷ []) ∷ []
add_to_first c (r ∷ rs) = (c ∷ r) ∷ rs

unfoldable pub records : ℕ → Text → List Text
unfolding add_to_first
records separator [] = []
records separator (c ∷ s) =
    let rest = records separator s in if c == separator then [] ∷ rest else add_to_first c rest

record_read :
    (separator : ℕ) (path rest : Text)
    → any (λ c. c == separator) path ≡ false
    → records separator (path ++ (separator ∷ rest)) ≡ path ∷ records separator rest
unfolding records add_to_first
record_read separator [] rest h = ground arith
record_read separator (c ∷ path) rest h = ground (arith, record_read separator path rest)

abbrev pub paths_of : List Entry → List Text
paths_of [] = []
paths_of (e ∷ es) = e.path ∷ paths_of es

-- If no path holds the separator, the paths are read back from the output, in order.
records-lines :
    (separator : ℕ) (es : List Entry)
    → any (λ (e : Entry). any (λ c. c == separator) e.path) es ≡ false
    → records separator (lines separator es) ≡ paths_of es
unfolding records
records-lines separator [] h = refl
records-lines separator (e ∷ es) h =
    let (a, b) = or-eq-false (any (λ c. c == separator) e.path) _ h in
    record_read separator e.path (lines separator es) a
    ∙ ap (λ (l : List Text). e.path ∷ l) (records-lines separator es b)

-- If no path that is written holds the separator, a reader gets exactly those paths back, in order.
pub records-print_all :
    (max_results : Option ℕ) (separator : ℕ) (bs : List (List Entry))
    → any (λ (e : Entry). any (λ c. c == separator) e.path) (limited max_results (concat bs))
      ≡ false
    → records separator (print_all (cap_of max_results) separator bs no_output).out
      ≡ paths_of (limited max_results (concat bs))
records-print_all max_results separator bs h =
    ap (records separator) (print_all-lines max_results separator bs)
    ∙ records-lines separator (limited max_results (concat bs)) h
