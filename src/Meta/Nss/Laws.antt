-- ===== src/Meta/Nss/Laws.antt =====
-- src/meta.rs, the lookup loops: they end once the buffer is large enough.
use minifind.Base.{
  ℕ, zero, suc, ◌*◌, ◌^◌, ◌≤◌, ◌<◌, ◌≡◌, ◌≢◌, refl, arith, Option, none, some, true, false, Bool,
  ap, any, ◌==◌,
}
use native.Mathlib.Decide.{dec_lt}
use minifind.Base.Text.{Text}
use native.Mathlib.Nat.{pow-suc}
use minifind.Meta.Nss.{
  Reply, found, absent, erange, failed, find_id, find_entry, first_len, nss_exists, nss_id,
}

-- The id that an answer other than ERANGE gives, and whether it shows an entry.
abbrev pub id_of : Reply → Option ℕ
id_of (found id) = some id
id_of _ = none

abbrev pub entry_of : Reply → Bool
entry_of absent = false
entry_of _ = true

-- A call needs a buffer of `need` bytes: ERANGE below, and one answer from there on.
pub record Needs (call : ℕ → Reply) (need : ℕ) (answer : Reply) : Type 0 where
  pub short : (len : ℕ) → len < need → call len ≡ erange
  pub enough : (len : ℕ) → need ≤ len → call len ≡ answer
  pub final : answer ≢ erange

-- An answer at the first length ends the loop.
find_id_now :
    (k len : ℕ) (call : ℕ → Reply) (answer : Reply)
    → answer ≢ erange
    → call len ≡ answer
    → (find_id (suc k) call len ≡ some (id_of answer))
      × (find_entry (suc k) call len ≡ some (entry_of answer))
unfolding find_id find_entry
find_id_now k len call (found id) h e = (rw (e, find_id), rw (e, find_entry))
find_id_now k len call absent h e = (rw (e, find_id), rw (e, find_entry))
find_id_now k len call erange h e = absurd (h refl)
find_id_now k len call failed h e = (rw (e, find_id), rw (e, find_entry))

doubled : (need len k : ℕ) → need ≤ len * 2 ^ suc k → need ≤ len * 2 * 2 ^ k
doubled need len k h = omega (arith, h, ap (λ (t : ℕ). len * t) (pow-suc 2 k))

module _ (call : ℕ → Reply) (need : ℕ) (answer : Reply) (n : Needs call need answer) where
  -- From any length the loops end with the answer, if `k` doublings reach what the call needs.
  loops_end :
      (k len : ℕ)
      → need ≤ len * 2 ^ k
      → (find_id (suc k) call len ≡ some (id_of answer))
        × (find_entry (suc k) call len ≡ some (entry_of answer))
  unfolding find_id find_entry
  loops_end zero len h = find_id_now zero len call answer n.final (n.enough len (omega (arith, h)))
  loops_end (suc k) len h = elim (dec_lt len need) [
    | yes small ↦
        let (i, e) = loops_end k (len * 2) (doubled need len k h) in
        (rw (n.short len small, find_id) i, rw (n.short len small, find_entry) e)
    | no large ↦ find_id_now (suc k) len call answer n.final (n.enough len (omega arith))
  ]

-- For a name without a NUL, if the calls need a buffer of `need` bytes and 1024 * 2^k suffices,
-- then k + 1 rounds of the loops give the id of the answer by name, and whether there is an entry
-- by id; an error gives no id, and counts as an entry.
pub nss_ends :
    (getnam : Text → ℕ → Reply) (getid : ℕ → ℕ → Reply) (name : Text) (id need k : ℕ)
    (by_name by_id : Reply)
    → any (λ c. c == 0) name ≡ false
    → Needs (getnam name) need by_name
    → Needs (getid id) need by_id
    → need ≤ first_len * 2 ^ k
    → (nss_id (suc k) getnam name ≡ some (id_of by_name))
      × (nss_exists (suc k) getid id ≡ some (entry_of by_id))
unfolding nss_id nss_exists
nss_ends getnam getid name id need k by_name by_id clean n m h = (
  rw clean (loops_end (getnam name) need by_name n k first_len h).0,
  (loops_end (getid id) need by_id m k first_len h).1,
)
