-- ===== src/Args/Types.antt =====
-- src/args.rs, `FileType`, `Args` and `Outcome`: the configuration that the whole program runs on.
use minifind.Base.{ℕ, Bool, Option, List}
use minifind.Base.Text.{Text}
use minifind.Meta.Predicates.{Predicates}

-- A value of `--file-type`.
pub data FileType : Type 0 where
  empty block_device char_device directory pipe file symlink socket : FileType

pub record Args : Type 0 where
  pub follow_symlinks : Bool
  pub one_filesystem : Bool
  pub threads : ℕ
  pub idle : Bool
  pub max_depth : Option ℕ
  pub min_depth : Option ℕ
  pub max_scan_rate : Option ℕ
  pub max_results : Option ℕ
  pub name : Option (List Text)
  pub regex : Option (List Text)
  pub case_insensitive : Bool
  pub file_type : List FileType
  pub meta : Predicates
  pub path_glob : Option (List Text)
  pub lname : Option (List Text)
  pub access : ℕ
  pub exclude : Option (List Text)
  pub null : Bool
  pub path : List Text

pub data Outcome : Type 0 where
  help : Outcome
  version : Outcome
  run : Args → Outcome
