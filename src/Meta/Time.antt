-- ===== src/Meta/Time.antt =====
-- src/meta.rs, `TimePred` and `NewerPred`: ages in days or minutes, and comparison with the time of
-- a reference file.
pub mod Laws
use minifind.Base.{ℕ, Bool, Result, ok, ◌>>=◌, Option, err, min, no_reference, some, none}
use minifind.Base.Int.{ℤ, ltb_ℤ, wrapping_sub, div_trunc, pos, i64_max, negsuc}
use minifind.Base.Text.{Text}
use minifind.Meta.Compare
use minifind.Meta.Compare.{Comparison}
use minifind.Meta.Fields.{Meta, TimeField, time_of}

pub record TimePred : Type 0 where
  pub cmp : Comparison
  pub unit_secs : ℕ
  pub field : TimeField

pub new : Text → ℕ → TimeField → Result TimePred
new s unit_secs field = do
  c ← Compare.parse s
  ok (record { cmp = c; unit_secs = unit_secs; field = field })

unfoldable pub mtime : Text → ℕ → Result TimePred
unfolding new
mtime s unit_secs = new s unit_secs TimeField.mtime

unfoldable pub ctime : Text → ℕ → Result TimePred
unfolding new
ctime s unit_secs = new s unit_secs TimeField.ctime

unfoldable pub atime : Text → ℕ → Result TimePred
unfolding new
atime s unit_secs = new s unit_secs TimeField.atime

unfoldable pub matches : TimePred → Meta → ℤ → Bool
matches p m now =
    Compare.matches p.cmp (div_trunc (wrapping_sub now (time_of p.field m)) p.unit_secs)

pub record NewerPred : Type 0 where
  pub ref_mtime : ℤ
  pub field : TimeField

abbrev pub newer : ℤ → NewerPred
newer t = record { ref_mtime = t; field = TimeField.mtime }

abbrev pub anewer : ℤ → NewerPred
anewer t = record { ref_mtime = t; field = TimeField.atime }

abbrev pub cnewer : ℤ → NewerPred
cnewer t = record { ref_mtime = t; field = TimeField.ctime }

unfoldable pub matches_newer : NewerPred → Meta → Bool
matches_newer p m = ltb_ℤ p.ref_mtime (time_of p.field m)

-- Seconds since the epoch as an `i64`, where an earlier time counts as the epoch.
abbrev pub since_epoch : ℤ → ℤ
since_epoch (pos n) = pos (min n i64_max)
since_epoch (negsuc n) = pos 0

abbrev mtime_of : Text → Option ℤ → Result ℤ
mtime_of path none = err (no_reference path)
mtime_of path (some t) = ok (since_epoch t)

-- `modified` is what the file system says of a path.
unfoldable pub file_mtime : (Text → Option ℤ) → Text → Result ℤ
file_mtime modified path = mtime_of path (modified path)

-- The clock's reading.
abbrev pub now_secs : ℤ → ℤ
now_secs clock = since_epoch clock
