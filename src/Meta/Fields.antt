-- ===== src/Meta/Fields.antt =====
-- src/meta.rs, `Meta` and `TimeField`: the fields that a `stat` fills.
use minifind.Base.{ℕ}
use minifind.Base.Int.{ℤ}
use minifind.Meta.Mask

pub record Meta : Type 0 where
  pub size : ℕ
  pub mtime : ℤ
  pub ctime : ℤ
  pub atime : ℤ
  pub mode : ℕ
  pub uid : ℕ
  pub gid : ℕ
  pub nlink : ℕ
  pub ino : ℕ

pub data TimeField : Type 0 where
  mtime ctime atime : TimeField

abbrev pub time_field_mask : TimeField → ℕ
time_field_mask TimeField.mtime = Mask.mtime
time_field_mask TimeField.ctime = Mask.ctime
time_field_mask TimeField.atime = Mask.atime

-- `match self.field { … }` of `TimePred::matches` and `NewerPred::matches`.
abbrev pub time_of : TimeField → Meta → ℤ
time_of TimeField.mtime m = m.mtime
time_of TimeField.ctime m = m.ctime
time_of TimeField.atime m = m.atime
