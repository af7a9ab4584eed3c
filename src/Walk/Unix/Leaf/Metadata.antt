-- ===== src/Walk/Unix/Leaf/Metadata.antt =====
-- src/walk/unix.rs, `do_stat`, `to_statx_flags` and `do_access`: the call asks for the fields that the
-- mask names, and the predicates come out as on the whole metadata.
use Prim.Native.Nat.{bit_and}
use minifind.Base.{
  ℕ, ◌≡◌, refl, ◌∙◌, Bool, true, not, ◌&&◌, ◌||◌, Option, some, some-inj, Option-cases, inl, inr,
  List, [], ◌∷◌, ◌++◌, any, all, ◌==◌, arith,
}
use minifind.Base.Int.{ℤ}
use minifind.Base.Bits.{bit, bit_and-two_pow}
use minifind.Base.Text.{Text}
use minifind.Meta.Fields.{Meta}
use minifind.Meta.Predicates
use minifind.Meta.Predicates.{Predicates}
use minifind.Meta.Predicates.Laws.{Asks, AgreeOn, matches-AgreeOn}
use minifind.Walk.Unix.Sys.{AccessFlag, StatxFlag, Statx, Calls}
use minifind.Walk.Unix.Leaf.{
  pairs, or_flag, fold_flags, to_statx_flags, meta_of, stat_flags, do_stat, do_access,
}

-- The position of a flag in the table, which is its bit in the mask.
abbrev position : StatxFlag → ℕ
position StatxFlag.size = 0
position StatxFlag.mtime = 1
position StatxFlag.ctime = 2
position StatxFlag.atime = 3
position StatxFlag.mode = 4
position StatxFlag.uid = 5
position StatxFlag.gid = 6
position StatxFlag.nlink = 7
position StatxFlag.ino = 8

abbrev pub has : StatxFlag → List StatxFlag → Bool
has f = any (λ g. position g == position f)

any-append :
    {A : Type 0} (p : A → Bool) (xs ys : List A) → any p (xs ++ ys) ≡ (any p xs || any p ys)
any-append p [] ys = refl
any-append p (x ∷ xs) ys = ground (arith, any-append p xs ys)

-- The fold adds the flags of the rows whose bit is set.
any-fold_flags :
    {A : Type 0} (p : A → Bool) (mask : ℕ) (acc : List A) (rows : List (ℕ × A))
    → any p (fold_flags mask acc rows)
      ≡ (any p acc || any (λ (row : ℕ × A). not (bit_and mask row.0 == 0) && p row.1) rows)
unfolding fold_flags
any-fold_flags p mask acc [] = ground arith
any-fold_flags p mask acc ((k, flag) ∷ rows) =
    any-fold_flags p mask (or_flag mask acc (k, flag)) rows
    ∙ ground (arith, any-append p acc (flag ∷ []))

-- The flags asked for are those of the fields in the mask.
has-to_statx_flags :
    (f : StatxFlag) (mask : ℕ) → has f (to_statx_flags mask) ≡ not (bit (position f) mask == 0)
unfolding to_statx_flags
has-to_statx_flags StatxFlag.size mask =
    any-fold_flags (λ g. position g == 0) mask [] pairs ∙ ground (arith, bit_and-two_pow mask 0)
has-to_statx_flags StatxFlag.mtime mask =
    any-fold_flags (λ g. position g == 1) mask [] pairs ∙ ground (arith, bit_and-two_pow mask 1)
has-to_statx_flags StatxFlag.ctime mask =
    any-fold_flags (λ g. position g == 2) mask [] pairs ∙ ground (arith, bit_and-two_pow mask 2)
has-to_statx_flags StatxFlag.atime mask =
    any-fold_flags (λ g. position g == 3) mask [] pairs ∙ ground (arith, bit_and-two_pow mask 3)
has-to_statx_flags StatxFlag.mode mask =
    any-fold_flags (λ g. position g == 4) mask [] pairs ∙ ground (arith, bit_and-two_pow mask 4)
has-to_statx_flags StatxFlag.uid mask =
    any-fold_flags (λ g. position g == 5) mask [] pairs ∙ ground (arith, bit_and-two_pow mask 5)
has-to_statx_flags StatxFlag.gid mask =
    any-fold_flags (λ g. position g == 6) mask [] pairs ∙ ground (arith, bit_and-two_pow mask 6)
has-to_statx_flags StatxFlag.nlink mask =
    any-fold_flags (λ g. position g == 7) mask [] pairs ∙ ground (arith, bit_and-two_pow mask 7)
has-to_statx_flags StatxFlag.ino mask =
    any-fold_flags (λ g. position g == 8) mask [] pairs ∙ ground (arith, bit_and-two_pow mask 8)

-- What `statx` promises: the fields that are asked for are those of the file.
pub record Fills (flags : List StatxFlag) (sx : Statx) (m : Meta) : Type 0 where
  pub size : has StatxFlag.size flags ≡ true → sx.stx_size ≡ m.size
  pub mtime : has StatxFlag.mtime flags ≡ true → sx.stx_mtime ≡ m.mtime
  pub ctime : has StatxFlag.ctime flags ≡ true → sx.stx_ctime ≡ m.ctime
  pub atime : has StatxFlag.atime flags ≡ true → sx.stx_atime ≡ m.atime
  pub mode : has StatxFlag.mode flags ≡ true → sx.stx_mode ≡ m.mode
  pub uid : has StatxFlag.uid flags ≡ true → sx.stx_uid ≡ m.uid
  pub gid : has StatxFlag.gid flags ≡ true → sx.stx_gid ≡ m.gid
  pub nlink : has StatxFlag.nlink flags ≡ true → sx.stx_nlink ≡ m.nlink
  pub ino : has StatxFlag.ino flags ≡ true → sx.stx_ino ≡ m.ino

asked : (f : StatxFlag) (mask : ℕ) → Asks mask (position f) → has f (to_statx_flags mask) ≡ true
asked f mask h = has-to_statx_flags f mask ∙ ground arith

Fills-AgreeOn :
    (mask : ℕ) (sx : Statx) (m : Meta)
    → Fills (to_statx_flags mask) sx m
    → AgreeOn mask (meta_of sx) m
Fills-AgreeOn mask sx m h = record {
  size = λ a. h.size (asked StatxFlag.size mask a);
  mtime = λ a. h.mtime (asked StatxFlag.mtime mask a);
  ctime = λ a. h.ctime (asked StatxFlag.ctime mask a);
  atime = λ a. h.atime (asked StatxFlag.atime mask a);
  mode = λ a. h.mode (asked StatxFlag.mode mask a);
  uid = λ a. h.uid (asked StatxFlag.uid mask a);
  gid = λ a. h.gid (asked StatxFlag.gid mask a);
  nlink = λ a. h.nlink (asked StatxFlag.nlink mask a);
  ino = λ a. h.ino (asked StatxFlag.ino mask a);
}

module _ {Fd : Type 0} (S : Calls Fd) where
  -- If `statx` fills the fields that it is asked for with those of the file, then the predicates say of
  -- what the leaf fetches by their own mask what they say of the whole metadata.
  pub do_stat-matches :
      (p : Predicates) (dirfd : Option Fd) (path : Text) (follow : Bool) (now : ℤ) (m : Meta)
      {m' : Meta}
      → ((flags : List StatxFlag) (sx : Statx)
          → S.statx dirfd path (stat_flags follow) flags ≡ some sx
          → Fills flags sx m)
      → do_stat S dirfd path follow (Predicates.mask p) ≡ some m'
      → Predicates.matches p m' now ≡ Predicates.matches p m now
  unfolding do_stat
  do_stat-matches p dirfd path follow now m {m'} fills e =
      let flags = to_statx_flags (Predicates.mask p) in
      elim (Option-cases (S.statx dirfd path (stat_flags follow) flags)) [
        | inl q ↦ cc (rw q at e)
        | inr (sx, q) ↦
            let same : meta_of sx ≡ m' = some-inj (rw q at e) in
            rw (← same) (
              matches-AgreeOn p (meta_of sx) m now
                (Fills-AgreeOn (Predicates.mask p) sx m (fills flags sx q)))
      ]

  -- The three tests of `access`, for permissions that `faccessat` grants if it grants each of them: the
  -- entry is accepted exactly if every permission whose bit is set is granted.
  pub do_access-grants :
      (grants : AccessFlag → Bool) (dirfd : Option Fd) (path : Text) (mode : ℕ)
      → ((acc : List AccessFlag) → S.accessat dirfd path acc ≡ all grants acc)
      → do_access S dirfd path mode ≡ (
          ((bit 0 mode == 0) || grants AccessFlag.read_ok)
          && ((bit 1 mode == 0) || grants AccessFlag.write_ok)
          && ((bit 2 mode == 0) || grants AccessFlag.exec_ok))
  unfolding do_access
  do_access-grants grants dirfd path mode h =
      h _ ∙ ground (arith, bit_and-two_pow mode 0, bit_and-two_pow mode 1, bit_and-two_pow mode 2)
