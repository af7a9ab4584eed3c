-- ===== src/Pipeline/Output.antt =====
-- src/lib.rs, the output thread of `run`: it writes each entry's path and a separator, and leaves the
-- loop at the last result wanted, which closes the channel. A failed write is ignored by the code;
-- `out` is what it hands to the sink.
pub mod Laws
pub mod Growth
use minifind.Base.{
  ℕ, ◌+◌, Bool, true, false, Option, none, some, List, [], ◌∷◌, ◌++◌, if◌then◌else◌, leb, ltb,
}
use minifind.Base.Text.{Text}
use minifind.Walk.{Entry}

-- NUL for `--null`, a newline otherwise.
abbrev pub separator_of : Bool → ℕ
separator_of null = if null then 0 else b'\n'

-- `max_results.filter(|&n| n > 0)`.
abbrev pub cap_of : Option ℕ → Option ℕ
cap_of none = none
cap_of (some n) = if ltb 0 n then some n else none

-- `max_results.is_some_and(|n| written >= n)`.
abbrev pub is_reached : Option ℕ → ℕ → Bool
is_reached none written = false
is_reached (some n) written = leb n written

pub record Printer : Type 0 where
  pub out : Text
  pub written : ℕ

abbrev pub no_output : Printer
no_output = record { out = []; written = 0 }

-- One entry written.
abbrev pub print : ℕ → Entry → Printer → Printer
print separator e p = record {
  out = p.out ++ (e.path ++ (separator ∷ []));
  written = p.written + 1;
}

-- The loop over a batch; `false` once it has left the outer loop.
unfoldable pub print_batch : Option ℕ → ℕ → List Entry → Printer → Bool × Printer
print_batch cap separator [] p = (true, p)
print_batch cap separator (e ∷ es) p =
    let p' = print separator e p in
    let rest = print_batch cap separator es p' in
    if is_reached cap p'.written then (false, p') else rest

-- The loop over the channel, given the batches that arrive.
unfoldable pub print_all : Option ℕ → ℕ → List (List Entry) → Printer → Printer
unfolding print_batch
print_all cap separator [] p = p
print_all cap separator (b ∷ bs) p =
    let (more, p') = print_batch cap separator b p in
    let rest = print_all cap separator bs p' in if more then rest else p'
