-- ===== src/Meta/Predicates/Laws.antt =====
-- src/meta.rs, `Predicates`: the mask asks for every field that a predicate reads.
use minifind.Base.{
  ℕ, ◌≡◌, refl, ap, true, false, Bool, arith, Option, none, some, List, [], ◌∷◌, ◌||◌, All, all,
  is_some, ◌&&◌, is_empty, ◌↔◌, or-eq-false, not, not-eq-false, ◌∙◌,
}
use Prim.Native.Nat.{bit_or}
use mathlib.Core.Path.{ap₂}
use minifind.Base.Int.{ℤ}
use minifind.Base.Bits.{bit, bit-bit_or, bit-le_one, bit-zero}
use minifind.Meta.Fields.{Meta, TimeField, time_field_mask, time_of}
use minifind.Meta.Time
use minifind.Meta.Mask
use minifind.Meta.Size
use minifind.Meta.Perm
use minifind.Meta.Time.{TimePred, NewerPred}
use minifind.Meta.Predicates.{
  Predicates, mask, matches, or_if, or_times, or_newer, accepts, matches_id, is_active,
}

-- The mask `k` asks for the field with bit `i`.
abbrev pub Asks : ℕ → ℕ → Type 0
Asks k i = bit i k ≡ 1

-- Two results of a `stat` agree on the fields that `k` asks for.
pub record AgreeOn (k : ℕ) (m m' : Meta) : Type 0 where
  pub size : Asks k 0 → m.size ≡ m'.size
  pub mtime : Asks k 1 → m.mtime ≡ m'.mtime
  pub ctime : Asks k 2 → m.ctime ≡ m'.ctime
  pub atime : Asks k 3 → m.atime ≡ m'.atime
  pub mode : Asks k 4 → m.mode ≡ m'.mode
  pub uid : Asks k 5 → m.uid ≡ m'.uid
  pub gid : Asks k 6 → m.gid ≡ m'.gid
  pub nlink : Asks k 7 → m.nlink ≡ m'.nlink
  pub ino : Asks k 8 → m.ino ≡ m'.ino

bit_or-keeps : (i a b : ℕ) → Asks a i → Asks (bit_or a b) i
bit_or-keeps i a b h = omega (arith, bit-bit_or i a b, bit-le_one i b)

bit_or-adds : (i a b : ℕ) → Asks b i → Asks (bit_or a b) i
bit_or-adds i a b h = omega (arith, bit-bit_or i a b, bit-le_one i a)

or_if-keeps : (b : Bool) (k m i : ℕ) → Asks m i → Asks (or_if b k m) i
or_if-keeps true k m i h = bit_or-keeps i m k h
or_if-keeps false k m i h = h

or_if-adds : (b : Bool) (k m i : ℕ) → b ≡ true → Asks k i → Asks (or_if b k m) i
or_if-adds true k m i e h = bit_or-adds i m k h
or_if-adds false k m i e h = cc

or_times-keeps : (ts : List TimePred) (m i : ℕ) → Asks m i → Asks (or_times ts m) i
unfolding or_times
or_times-keeps [] m i h = h
or_times-keeps (t ∷ ts) m i h = or_times-keeps ts _ i (bit_or-keeps i m _ h)

or_newer-keeps : (ns : List NewerPred) (m i : ℕ) → Asks m i → Asks (or_newer ns m) i
unfolding or_newer
or_newer-keeps [] m i h = h
or_newer-keeps (n ∷ ns) m i h = or_newer-keeps ns _ i (bit_or-keeps i m _ h)

abbrev field_bit : TimeField → ℕ
field_bit TimeField.mtime = 1
field_bit TimeField.ctime = 2
field_bit TimeField.atime = 3

field_bit_asked : (f : TimeField) → Asks (time_field_mask f) (field_bit f)
unfolding bit
field_bit_asked TimeField.mtime = refl
field_bit_asked TimeField.ctime = refl
field_bit_asked TimeField.atime = refl

-- A mask that keeps what the loop asked for asks for the field of each predicate of the loop.
or_times-asks :
    (ts : List TimePred) (m k : ℕ)
    → ((i : ℕ) → Asks (or_times ts m) i → Asks k i)
    → All (λ t. Asks k (field_bit t.field)) ts
unfolding or_times
or_times-asks [] m k keeps = tt
or_times-asks (t ∷ ts) m k keeps = (
  keeps _ (or_times-keeps ts _ _ (bit_or-adds _ m _ (field_bit_asked t.field))),
  or_times-asks ts _ k keeps,
)

or_newer-asks :
    (ns : List NewerPred) (m k : ℕ)
    → ((i : ℕ) → Asks (or_newer ns m) i → Asks k i)
    → All (λ n. Asks k (field_bit n.field)) ns
unfolding or_newer
or_newer-asks [] m k keeps = tt
or_newer-asks (n ∷ ns) m k keeps = (
  keeps _ (or_newer-keeps ns _ _ (bit_or-adds _ m _ (field_bit_asked n.field))),
  or_newer-asks ns _ k keeps,
)

-- The bit of each field that a predicate reads is in the mask.
record Covers (p : Predicates) (k : ℕ) : Type 0 where
  size : is_some p.size ≡ true → Asks k 0
  times : All (λ t. Asks k (field_bit t.field)) p.times
  newer : All (λ n. Asks k (field_bit n.field)) p.newer
  perm : is_some p.perm ≡ true → Asks k 4
  uid : (is_some p.uid || p.nouser) ≡ true → Asks k 5
  gid : (is_some p.gid || p.nogroup) ≡ true → Asks k 6
  links : is_some p.links ≡ true → Asks k 7
  inum : is_some p.inum ≡ true → Asks k 8

mask-Covers : (p : Predicates) → Covers p (mask p)
unfolding mask bit
mask-Covers p =
    let s = or_if (is_some p.size) Mask.size 0 in
    let t = or_times p.times s in
    let n = or_newer p.newer t in
    let m = or_if (is_some p.perm) Mask.mode n in
    let u = or_if (is_some p.uid || p.nouser) Mask.uid m in
    let g = or_if (is_some p.gid || p.nogroup) Mask.gid u in
    let l = or_if (is_some p.links) Mask.nlink g in
    let from_l = λ (i : ℕ). or_if-keeps (is_some p.inum) Mask.ino l i in
    let from_g =
      λ (i : ℕ) (a : Asks g i). from_l i (or_if-keeps (is_some p.links) Mask.nlink g i a) in
    let from_u = λ (i : ℕ) (a : Asks u i).
      from_g i (or_if-keeps (is_some p.gid || p.nogroup) Mask.gid u i a) in
    let from_m =
      λ (i : ℕ) (a : Asks m i). from_u i (or_if-keeps (is_some p.uid || p.nouser) Mask.uid m i a) in
    let from_n =
      λ (i : ℕ) (a : Asks n i). from_m i (or_if-keeps (is_some p.perm) Mask.mode n i a) in
    let from_t = λ (i : ℕ) (a : Asks t i). from_n i (or_newer-keeps p.newer t i a) in
    record {
      size = λ e.
          from_t 0 (or_times-keeps p.times s 0 (or_if-adds (is_some p.size) Mask.size 0 0 e refl));
      times = or_times-asks p.times s (mask p) from_t;
      newer = or_newer-asks p.newer t (mask p) from_n;
      perm = λ e. from_m 4 (or_if-adds (is_some p.perm) Mask.mode n 4 e refl);
      uid = λ e. from_u 5 (or_if-adds (is_some p.uid || p.nouser) Mask.uid m 5 e refl);
      gid = λ e. from_g 6 (or_if-adds (is_some p.gid || p.nogroup) Mask.gid u 6 e refl);
      links = λ e. from_l 7 (or_if-adds (is_some p.links) Mask.nlink g 7 e refl);
      inum = λ e. or_if-adds (is_some p.inum) Mask.ino l 8 e refl;
    }

module _ {k : ℕ} {m m' : Meta} (a : AgreeOn k m m') where
  time_of-eq : (f : TimeField) → Asks k (field_bit f) → time_of f m ≡ time_of f m'
  time_of-eq TimeField.mtime h = a.mtime h
  time_of-eq TimeField.ctime h = a.ctime h
  time_of-eq TimeField.atime h = a.atime h

  all-times :
      (ts : List TimePred) (now : ℤ)
      → All (λ t. Asks k (field_bit t.field)) ts
      → all (λ t. Time.matches t m now) ts ≡ all (λ t. Time.matches t m' now) ts
  unfolding Time.matches
  all-times [] now h = refl
  all-times (t ∷ ts) now h = cc (all-times ts now h.1, time_of-eq t.field h.0)

  all-newer :
      (ns : List NewerPred)
      → All (λ n. Asks k (field_bit n.field)) ns
      → all (λ n. Time.matches_newer n m) ns ≡ all (λ n. Time.matches_newer n m') ns
  unfolding Time.matches_newer
  all-newer [] h = refl
  all-newer (n ∷ ns) h = cc (all-newer ns h.1, time_of-eq n.field h.0)

accepts-eq {ℓ κ} :
    {A : Type ℓ} {B : Type κ} (test : A → B → Bool) (o : Option A) {x y : B}
    → (is_some o ≡ true → x ≡ y)
    → accepts (λ a. test a x) o ≡ accepts (λ a. test a y) o
accepts-eq test none h = refl
accepts-eq test (some a) h = ap (test a) (h refl)

-- Only the fields that the mask asks for bear on the verdict.
pub matches-AgreeOn :
    (p : Predicates) (m m' : Meta) (now : ℤ)
    → AgreeOn (mask p) m m'
    → matches p m now ≡ matches p m' now
unfolding matches
matches-AgreeOn p m m' now a =
    let c = mask-Covers p in
    ap₂ ◌&&◌ (accepts-eq Size.matches p.size (λ e. a.size (c.size e))) (
      ap₂ ◌&&◌ (all-times a p.times now c.times) (
        ap₂ ◌&&◌ (accepts-eq Perm.matches p.perm (λ e. a.mode (c.perm e))) (
          ap₂ ◌&&◌ (accepts-eq matches_id p.uid (λ e. a.uid (c.uid (ground arith)))) (
            ap₂ ◌&&◌ (accepts-eq matches_id p.gid (λ e. a.gid (c.gid (ground arith)))) (
              ap₂ ◌&&◌ (accepts-eq matches_id p.links (λ e. a.nlink (c.links e))) (
                ap₂ ◌&&◌ (accepts-eq matches_id p.inum (λ e. a.ino (c.inum e)))
                  (all-newer a p.newer c.newer)))))))

-- The owner fields that the visitor reads besides are asked for as well.
pub mask-owner :
    (p : Predicates) → (p.nouser ≡ true → Asks (mask p) 5) × (p.nogroup ≡ true → Asks (mask p) 6)
mask-owner p = let c = mask-Covers p in (λ e. c.uid (ground arith), λ e. c.gid (ground arith))

or_times-empty : (ts : List TimePred) (m : ℕ) → is_empty ts ≡ true → or_times ts m ≡ m
unfolding or_times
or_times-empty [] m h = refl
or_times-empty (t ∷ ts) m h = cc

or_newer-empty : (ns : List NewerPred) (m : ℕ) → is_empty ns ≡ true → or_newer ns m ≡ m
unfolding or_newer
or_newer-empty [] m h = refl
or_newer-empty (n ∷ ns) m h = cc

no_predicate_no_mask : (p : Predicates) → is_active p ≡ false → mask p ≡ 0
unfolding is_active mask
no_predicate_no_mask p h =
    let (s, h1) = or-eq-false (is_some p.size) _ h in
    let (t, h2) = or-eq-false (not (is_empty p.times)) _ h1 in
    let (q, h3) = or-eq-false (is_some p.perm) _ h2 in
    let (u, h4) = or-eq-false (is_some p.uid) _ h3 in
    let (g, h5) = or-eq-false (is_some p.gid) _ h4 in
    let (l, h6) = or-eq-false (is_some p.links) _ h5 in
    let (i, h7) = or-eq-false (is_some p.inum) _ h6 in
    let (n, h8) = or-eq-false (not (is_empty p.newer)) _ h7 in
    let (o, r) = or-eq-false p.nouser p.nogroup h8 in
    rw (i, l, g, r, u, o, q, s)
      (or_newer-empty p.newer _ (not-eq-false (is_empty p.newer) n)
        ∙ or_times-empty p.times 0 (not-eq-false (is_empty p.times) t))

times_asked :
    (ts : List TimePred) (k : ℕ)
    → All (λ t. Asks k (field_bit t.field)) ts
    → k ≡ 0
    → is_empty ts ≡ true
times_asked [] k h e = refl
times_asked (t ∷ ts) k h e =
    absurd (omega (arith, h.0, ap (bit (field_bit t.field)) e, bit-zero (field_bit t.field)))

newer_asked :
    (ns : List NewerPred) (k : ℕ)
    → All (λ n. Asks k (field_bit n.field)) ns
    → k ≡ 0
    → is_empty ns ≡ true
newer_asked [] k h e = refl
newer_asked (n ∷ ns) k h e =
    absurd (omega (arith, h.0, ap (bit (field_bit n.field)) e, bit-zero (field_bit n.field)))

not_asked : (b : Bool) (k i : ℕ) → (b ≡ true → Asks k i) → k ≡ 0 → b ≡ false
not_asked true k i h e = absurd (omega (arith, h refl, ap (bit i) e, bit-zero i))
not_asked false k i h e = refl

-- The gate of the `stat` is open exactly when some field is asked for.
pub is_active-eq-false_iff : (p : Predicates) → (is_active p ≡ false) ↔ (mask p ≡ 0)
unfolding is_active
is_active-eq-false_iff p = (
  no_predicate_no_mask p,
  λ e.
      let c = mask-Covers p in
      let s = not_asked (is_some p.size) (mask p) 0 c.size e in
      let t = times_asked p.times (mask p) c.times e in
      let n = newer_asked p.newer (mask p) c.newer e in
      let q = not_asked (is_some p.perm) (mask p) 4 c.perm e in
      let u = not_asked (is_some p.uid || p.nouser) (mask p) 5 c.uid e in
      let g = not_asked (is_some p.gid || p.nogroup) (mask p) 6 c.gid e in
      let l = not_asked (is_some p.links) (mask p) 7 c.links e in
      let i = not_asked (is_some p.inum) (mask p) 8 c.inum e in
      let (u1, u2) = or-eq-false (is_some p.uid) p.nouser u in
      let (g1, g2) = or-eq-false (is_some p.gid) p.nogroup g in
      rw (s, t, q, u1, g1, l, i, n, u2, g2),
)
