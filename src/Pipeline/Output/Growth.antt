-- ===== src/Pipeline/Output/Growth.antt =====
-- src/lib.rs, the output thread: what one batch adds to what is written already.
use minifind.Base.{
  ℕ, ◌+◌, ◌≤◌, ◌≡◌, refl, sym, ap, ◌∙◌, Bool, Bool-cases, inl, inr, true, false, Option, none, some,
  List, [], ◌∷◌, ◌++◌, append-nil, append_assoc, length, length-append, arith, if◌then◌else◌,
}
use minifind.Base.Text.{Text}
use minifind.Walk.{Entry}
use minifind.Walk.System.Costs.{sum}
use minifind.Pipeline.Output.{Printer, is_reached, print, print_batch}
use minifind.Pipeline.Output.Laws.{lines}

-- No more results than are wanted.
abbrev pub AtMost : Option ℕ → ℕ → Type 0
AtMost none written = Unit {0}
AtMost (some n) written = written ≤ n

pub AtMost-next :
    (cap : Option ℕ) (written : ℕ) → is_reached cap written ≡ false → AtMost cap (written + 1)
AtMost-next none written h = tt
AtMost-next (some n) written h = ground arith

pub AtMost-self :
    (cap : Option ℕ) (written : ℕ) → is_reached cap written ≡ false → AtMost cap written
AtMost-self none written h = tt
AtMost-self (some n) written h = ground arith

-- What is written are the lines of `printed`.
pub record IsPrinted (separator : ℕ) (printed : List Entry) (p : Printer) : Type 0 where
  pub out : p.out ≡ lines separator printed
  pub count : p.written ≡ length printed

lines-append :
    (separator : ℕ) (xs : List Entry) (e : Entry)
    → lines separator (xs ++ (e ∷ [])) ≡ lines separator xs ++ (e.path ++ (separator ∷ []))
lines-append separator [] e = refl
lines-append separator (x ∷ xs) e =
    ap (λ (l : Text). x.path ++ (separator ∷ l)) (lines-append separator xs e)
    ∙ sym (append_assoc x.path (separator ∷ lines separator xs) (e.path ++ (separator ∷ [])))

print-IsPrinted :
    (separator : ℕ) (printed : List Entry) (e : Entry) (p : Printer)
    → IsPrinted separator printed p
    → IsPrinted separator (printed ++ (e ∷ [])) (print separator e p)
print-IsPrinted separator printed e p h = record {
  out =
      ap (λ (l : Text). l ++ (e.path ++ (separator ∷ []))) h.out
      ∙ sym (lines-append separator printed e);
  count = omega (arith, h.count, length-append printed (e ∷ []));
}

-- A batch is written as far as results are wanted.
pub record Wrote (cap : Option ℕ) (separator : ℕ) (printed batch : List Entry) (r : Bool × Printer)
    : Type 0 where
  pub more : List Entry
  pub is_printed : IsPrinted separator (printed ++ more) r.1
  pub most : (weight : Entry → ℕ) → sum weight more ≤ sum weight batch
  pub exact : r.0 ≡ true → more ≡ batch
  pub reached : is_reached cap r.1.written ≡ (if r.0 then false else true)
  pub bound : AtMost cap r.1.written

pub print_batch-Wrote :
    (cap : Option ℕ) (separator : ℕ) (printed batch : List Entry) (p : Printer)
    → IsPrinted separator printed p
    → is_reached cap p.written ≡ false
    → Wrote cap separator printed batch (print_batch cap separator batch p)
unfolding print_batch sum
print_batch-Wrote cap separator printed [] p h n = record {
  more = [];
  is_printed = rw (append-nil printed) h;
  most = λ weight. omega arith;
  exact = λ t. refl;
  reached = n;
  bound = AtMost-self cap p.written n;
}
print_batch-Wrote cap separator printed (e ∷ es) p h n =
    let h' = print-IsPrinted separator printed e p h in
    elim (Bool-cases (is_reached cap (p.written + 1))) [
      | inl full ↦ rw full (record {
        more = e ∷ [];
        is_printed = h';
        most = λ weight. omega arith;
        exact = λ t. cc t;
        reached = full;
        bound = AtMost-next cap p.written n;
      })
      | inr room ↦
          let w =
            print_batch-Wrote cap separator (printed ++ (e ∷ [])) es (print separator e p) h'
              room in
          rw room (record {
            more = e ∷ w.more;
            is_printed = rw (sym (append_assoc printed (e ∷ []) w.more)) w.is_printed;
            most = λ weight. omega (arith, w.most weight);
            exact = λ t. ap (λ (l : List Entry). e ∷ l) (w.exact t);
            reached = w.reached;
            bound = w.bound;
          })
    ]
