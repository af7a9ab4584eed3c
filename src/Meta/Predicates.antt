-- ===== src/Meta/Predicates.antt =====
-- src/meta.rs, `IdPred` and `Predicates`: all metadata predicates of one run.
pub mod Laws
use Prim.Native.Nat.{bit_or}
use minifind.Base.{
  ℕ, Bool, true, false, not, ◌&&◌, ◌||◌, Option, none, some, List, [], ◌∷◌, is_some, is_empty, all,
  if◌then◌else◌, Result, ok, ◌>>=◌,
}
use minifind.Base.Int.{ℤ, pos}
use minifind.Base.Text.{Text}
use minifind.Meta.Compare
use minifind.Meta.Compare.{Comparison, exact}
use minifind.Meta.Size
use minifind.Meta.Size.{SizePred}
use minifind.Meta.Mask
use minifind.Meta.Fields.{Meta, TimeField, time_field_mask}
use minifind.Meta.Time
use minifind.Meta.Time.{TimePred, NewerPred}
use minifind.Meta.Perm
use minifind.Meta.Perm.{PermPred}

pub record IdPred : Type 0 where
  pub cmp : Comparison

abbrev pub parse_id : Text → Result IdPred
parse_id s = do c ← Compare.parse s; ok (record { cmp = c })

abbrev pub exact_id : ℕ → IdPred
exact_id id = record { cmp = exact (pos id) }

unfoldable pub matches_id : IdPred → ℕ → Bool
matches_id p value = Compare.matches_u64 p.cmp value

pub record Predicates : Type 0 where
  pub size : Option SizePred
  pub times : List TimePred
  pub perm : Option PermPred
  pub uid : Option IdPred
  pub gid : Option IdPred
  pub links : Option IdPred
  pub inum : Option IdPred
  pub newer : List NewerPred
  pub nouser : Bool
  pub nogroup : Bool

-- `Predicates::default()`.
abbrev pub no_predicates : Predicates
no_predicates = record {
  size = none;
  times = [];
  perm = none;
  uid = none;
  gid = none;
  links = none;
  inum = none;
  newer = [];
  nouser = false;
  nogroup = false;
}

unfoldable pub is_active : Predicates → Bool
is_active p =
    is_some p.size
    || (not (is_empty p.times)
        || (is_some p.perm
            || (is_some p.uid
                || (is_some p.gid
                    || (is_some p.links
                        || (is_some p.inum
                            || (not (is_empty p.newer) || (p.nouser || p.nogroup))))))))

-- `if … { m |= bit; }`.
abbrev or_if : Bool → ℕ → ℕ → ℕ
or_if b k m = if b then bit_or m k else m

-- The loops over `times` and `newer`.
or_times : List TimePred → ℕ → ℕ
or_times [] m = m
or_times (t ∷ ts) m = or_times ts (bit_or m (time_field_mask t.field))

or_newer : List NewerPred → ℕ → ℕ
or_newer [] m = m
or_newer (n ∷ ns) m = or_newer ns (bit_or m (time_field_mask n.field))

unfoldable pub mask : Predicates → ℕ
unfolding or_times or_newer
mask p = or_if (is_some p.inum) Mask.ino (
    or_if (is_some p.links) Mask.nlink (
      or_if (is_some p.gid || p.nogroup) Mask.gid (
        or_if (is_some p.uid || p.nouser) Mask.uid (
          or_if (is_some p.perm) Mask.mode
            (or_newer p.newer (or_times p.times (or_if (is_some p.size) Mask.size 0)))))))

-- `if let Some(q) = … { if !q.matches(…) { return false; } }`.
abbrev accepts {ℓ} : {A : Type ℓ} → (A → Bool) → Option A → Bool
accepts test none = true
accepts test (some a) = test a

unfoldable pub matches : Predicates → Meta → ℤ → Bool
matches p m now =
    accepts (λ s. Size.matches s m.size) p.size
    && (all (λ t. Time.matches t m now) p.times
        && (accepts (λ q. Perm.matches q m.mode) p.perm
            && (accepts (λ u. matches_id u m.uid) p.uid
                && (accepts (λ g. matches_id g m.gid) p.gid
                    && (accepts (λ l. matches_id l m.nlink) p.links
                        && (accepts (λ i. matches_id i m.ino) p.inum
                            && all (λ n. Time.matches_newer n m) p.newer))))))
