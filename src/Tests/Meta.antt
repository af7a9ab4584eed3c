-- ===== src/Tests/Meta.antt =====
-- Runs of src/meta.rs, after its own unit tests, and the theorems about it at concrete inputs.

use minifind.Base.{
  ℕ, ◌+◌, ◌≤◌, ◌<◌, ◌*◌, ◌≢◌, ◌↔◌, ◌⊎◌, Bool, ◌≡◌, refl, true, some, [], ◌∷◌, arith, ok, err,
  invalid_number, ◌==◌, List, ap, if◌then◌else◌, ltb, all, not, ◌||◌, false,
}
use mathlib.Core.List.{Nodup}
use minifind.Base.Int.{pos, negsuc, i64_max, IsI64}
use minifind.Base.Bits.{bit}
use minifind.Base.Text.{codes, digits_of, parse_i64, unsigned}
use minifind.Meta.Compare
use minifind.Meta.Compare.{exact, greater, less}
use minifind.Meta.Compare.Laws.{matches_u64-ne_iff, parse-written, parse-second_sign, parse-IsI64}
use minifind.Meta.Size
use minifind.Meta.Size.Laws.{rounded_up_iff, parse-written_unit}
use minifind.Meta.Fields.{Meta, TimeField}
use minifind.Meta.Time
use minifind.Meta.Time.Laws.{matches_past, matches_future}
use minifind.Meta.Symbolic
use minifind.Meta.Symbolic.Laws.{apply-bit}
use minifind.Meta.Perm
use minifind.Meta.Perm.{PermKind}
use minifind.Meta.Perm.Laws.{bits_iff, parse-octal}
use minifind.Meta.Predicates
use minifind.Meta.Predicates.{Predicates, no_predicates, exact_id}
use minifind.Meta.Predicates.Laws.{matches-AgreeOn, is_active-eq-false_iff, Asks}
use minifind.Meta.Nss
use minifind.Meta.Nss.{Reply, found, absent, erange, lookup, user_exists, group_exists}
use minifind.Meta.Nss.Laws.{Needs, nss_ends}
use minifind.Meta.Nss.Cache.{
  Query, user, group, ask, holds, looked_up, ask_all, ask_all-answers, IsCache,
}

signs :
    (Compare.parse (codes "+5") ≡ ok (greater (pos 5)))
    × (Compare.parse (codes "-5") ≡ ok (less (pos 5)))
    × (Compare.parse (codes "5") ≡ ok (exact (pos 5)))
    × (Compare.parse (codes "abc") ≡ err (invalid_number (codes "abc")))
unfolding Compare.parse parse_i64 unsigned
signs = (refl, refl, refl, refl)

symbolic_modes :
    (Symbolic.parse_symbolic_mode (codes "u+w,g-x") ≡ ok 0o200)
    × (Symbolic.parse_symbolic_mode (codes "a+rx") ≡ ok 0o555)
    × (Symbolic.parse_symbolic_mode (codes "u+s") ≡ ok 0o4000)
    × (Symbolic.parse_symbolic_mode (codes "+t") ≡ ok 0o1000)
unfolding Symbolic.parse_symbolic_mode Symbolic.bits_for
symbolic_modes = (refl, refl, refl, refl)

sizes :
    (Size.matches (record { cmp = exact (pos 1); unit = 1024 }) 1024 ≡ true)
    × (Size.matches (record { cmp = exact (pos 1); unit = 1024 }) 1025 ≡ false)
    × (Size.matches (record { cmp = exact (pos 1); unit = 1024 }) 1 ≡ true)
unfolding Size.matches Compare.matches_u64
sizes = (refl, refl, refl)

abbrev file : Meta
file = record {
  size = 1500;
  mtime = pos 1000;
  ctime = pos 1000;
  atime = pos 200000;
  mode = 0o100644;
  uid = 1000;
  gid = 100;
  nlink = 1;
  ino = 7;
}

matches_u64-ne_iff_example :
    (Compare.matches_u64 (exact (pos i64_max)) (i64_max + 1)
      ≢ Compare.matches (exact (pos i64_max)) (pos (i64_max + 1)))
    ↔ ((Compare.threshold (exact (pos i64_max)) ≡ pos i64_max)
        × (◌≡◌ {A = Bool} false false)
        × (i64_max < i64_max + 1))
matches_u64-ne_iff_example = matches_u64-ne_iff (exact (pos i64_max)) (i64_max + 1) (omega arith)

parse-IsI64_example : IsI64 (Compare.threshold (less (pos 5)))
unfolding Compare.parse parse_i64 unsigned
parse-IsI64_example = parse-IsI64 (codes "-5") refl

parse-written_example : Compare.parse (codes "+42") ≡ ok (greater (pos 42))
unfolding digits_of
parse-written_example = parse-written (greater (pos 42)) (omega arith)

parse-second_sign_example :
    (Compare.parse (codes "+-5") ≡ ok (greater (negsuc 4)))
    × (Compare.parse (codes "--5") ≡ ok (less (negsuc 4)))
    × (Compare.parse (codes "++4") ≡ ok (greater (pos 4)))
unfolding digits_of
parse-second_sign_example = parse-second_sign 4 (omega arith)

rounded_up_iff_example :
    ((Size.matches (record { cmp = greater (pos 1); unit = 1024 }) 1500 ≡ true) ↔ (1024 < 1500))
    × ((Size.matches (record { cmp = less (pos 1); unit = 1024 }) 1500 ≡ true)
        ↔ (1500 + 1024 ≤ 1024))
    × ((Size.matches (record { cmp = exact (pos 1); unit = 1024 }) 1500 ≡ true)
        ↔ ((1500 ≤ 1024) × (1024 < 1500 + 1024)))
rounded_up_iff_example = rounded_up_iff 1500 1024 1 (omega arith) (omega arith)

parse-written_unit_example :
    Size.parse (codes "+42k") ≡ ok (record { cmp = greater (pos 42); unit = 1024 })
unfolding digits_of Size.unit_of
parse-written_unit_example = parse-written_unit (greater (pos 42)) b'k' 1024 (omega arith) refl

matches_past_example :
    ((Time.matches
          (record { cmp = greater (pos 1); unit_secs = 86400; field = TimeField.mtime })
          file
          (pos 200000)
        ≡ true)
      ↔ (1 * 86400 + 86400 ≤ 199000))
    × ((Time.matches
            (record { cmp = less (pos 1); unit_secs = 86400; field = TimeField.mtime })
            file
            (pos 200000)
          ≡ true)
        ↔ (199000 < 1 * 86400))
    × ((Time.matches
            (record { cmp = exact (pos 1); unit_secs = 86400; field = TimeField.mtime })
            file
            (pos 200000)
          ≡ true)
        ↔ ((1 * 86400 ≤ 199000) × (199000 < 1 * 86400 + 86400)))
matches_past_example =
    matches_past file (pos 200000) TimeField.mtime 199000 86400 1 (omega arith) refl (omega arith)

matches_future_example :
    (Time.matches
        (record { cmp = greater (pos 0); unit_secs = 60; field = TimeField.atime })
        file
        (pos 199990)
      ≡ false)
    × ((Time.matches
            (record { cmp = less (pos 0); unit_secs = 60; field = TimeField.atime })
            file
            (pos 199990)
          ≡ true)
        ↔ ((0 < 0) ⊎ (60 ≤ 10)))
    × ((Time.matches
            (record { cmp = exact (pos 0); unit_secs = 60; field = TimeField.atime })
            file
            (pos 199990)
          ≡ true)
        ↔ ((◌≡◌ {A = ℕ} 0 0) × (10 < 60)))
matches_future_example =
    matches_future file (pos 199990) TimeField.atime 9 60 0 (omega arith) refl (omega arith)

apply-bit_example :
    bit 7 (
      Symbolic.apply b'+' 0b100 (record { r = false; w = true; x = false; s = false; t = false }) 0)
    ≡ 1
unfolding bit
apply-bit_example =
    apply-bit b'+' 0b100 (record { r = false; w = true; x = false; s = false; t = false }) 0 7
      (omega arith)

bits_iff_example :
    ((Perm.matches (record { mode = 0o200; kind = PermKind.exact }) 0o100644 ≡ true)
      ↔ ((i : ℕ) → i < 12 → bit i 0o100644 ≡ bit i 0o200))
    × ((Perm.matches (record { mode = 0o200; kind = PermKind.all_of }) 0o100644 ≡ true)
        ↔ ((i : ℕ) → bit i 0o200 ≤ bit i 0o100644))
    × ((Perm.matches (record { mode = 0o200; kind = PermKind.any_of }) 0o100644 ≡ true)
        ↔ ((◌≡◌ {A = ℕ} 0o200 0) ⊎ ((i : ℕ) × (bit i 0o200 ≡ 1) × (bit i 0o100644 ≡ 1))))
bits_iff_example = bits_iff 0o200 0o100644 (omega arith)

parse-octal_example :
    (Perm.parse (codes "644") ≡ ok (record { mode = 0o644; kind = PermKind.exact }))
    × (Perm.parse (codes "-644") ≡ ok (record { mode = 0o644; kind = PermKind.all_of }))
    × (Perm.parse (codes "/644") ≡ ok (record { mode = 0o644; kind = PermKind.any_of }))
unfolding digits_of
parse-octal_example = parse-octal 0o644 (omega arith)

-- `-uid 1000 -mmin -5`: the mask has the owner and the modification time.
abbrev query : Predicates
query = record no_predicates {
  uid = some (exact_id 1000);
  times = record { cmp = less (pos 5); unit_secs = 60; field = TimeField.mtime } ∷ [];
}

query-mask : Predicates.mask query ≡ 0b100010
unfolding Predicates.mask
query-mask = refl

bit_of_mask : (bit 0 0b100010 ≡ 0) × (bit 4 0b100010 ≡ 0)
unfolding bit
bit_of_mask = (refl, refl)

matches-AgreeOn_example :
    Predicates.matches query file (pos 1100)
    ≡ Predicates.matches query (record file { size = 0; mode = 0 }) (pos 1100)
matches-AgreeOn_example =
    matches-AgreeOn query file (record file { size = 0; mode = 0 }) (pos 1100)
      (record {
        size = λ a. no_size a;
        mtime = λ a. refl;
        ctime = λ a. refl;
        atime = λ a. refl;
        mode = λ a. no_mode a;
        uid = λ a. refl;
        gid = λ a. refl;
        nlink = λ a. refl;
        ino = λ a. refl;
      })
  where
    no_size : Asks (Predicates.mask query) 0 → ◌≡◌ {A = ℕ} 1500 0
    no_size a = absurd (omega (arith, ap (bit 0) query-mask, a, bit_of_mask.0))

    no_mode : Asks (Predicates.mask query) 4 → ◌≡◌ {A = ℕ} 0o100644 0
    no_mode a = absurd (omega (arith, ap (bit 4) query-mask, a, bit_of_mask.1))

is_active-eq-false_iff_example : (Predicates.is_active query ≡ false) ↔ (Predicates.mask query ≡ 0)
is_active-eq-false_iff_example = is_active-eq-false_iff query

-- A lookup that needs 3000 bytes: two doublings.
abbrev slow_call : ℕ → Reply
slow_call len = if ltb len 3000 then erange else found 1000

abbrev slow_absent : ℕ → Reply
slow_absent len = if ltb len 3000 then erange else absent

slow_call-Needs : Needs slow_call 3000 (found 1000)
slow_call-Needs = record {
  short = λ len h. ground arith;
  enough = λ len h. ground arith;
  final = λ e. cc;
}

slow_absent-Needs : Needs slow_absent 3000 absent
slow_absent-Needs = record {
  short = λ len h. ground arith;
  enough = λ len h. ground arith;
  final = λ e. cc;
}

nss_ends_example :
    (Nss.nss_id 3 (λ name. slow_call) (codes "root") ≡ some (some 1000))
    × (Nss.nss_exists 3 (λ id. slow_absent) 42 ≡ some false)
nss_ends_example =
    nss_ends (λ name. slow_call) (λ id. slow_absent) (codes "root") 42 3000 2 (found 1000) absent
      refl slow_call-Needs slow_absent-Needs (omega arith)

abbrev only_root : ℕ → Bool
only_root id = id == 0

-- Lookups that know further ids, which nobody asks for.
abbrev root_and_more : ℕ → Bool
root_and_more id = (id == 0) || ltb 100 id

abbrev no_cache : Nss.NssCache
no_cache = record { users = []; groups = [] }

ask_all-answers_example :
    let qs : List Query = user 0 ∷ group 5 ∷ user 7 ∷ user 0 ∷ group 5 ∷ [] in
    let once : List Query = user 0 ∷ group 5 ∷ user 7 ∷ [] in
    ((ask_all only_root only_root qs no_cache).0 ≡ true ∷ false ∷ false ∷ true ∷ false ∷ [])
    × IsCache only_root only_root (ask_all only_root only_root qs no_cache).1
    × Nodup once
    × (all (λ q. not (holds q no_cache)) once ≡ true)
    × (ask_all root_and_more root_and_more qs no_cache ≡ ask_all only_root only_root qs no_cache)
unfolding looked_up lookup ask user_exists group_exists
ask_all-answers_example =
    ask_all-answers only_root only_root root_and_more root_and_more
      (user 0 ∷ group 5 ∷ user 7 ∷ user 0 ∷ group 5 ∷ []) no_cache
      (record { users = tt; groups = tt }) refl
