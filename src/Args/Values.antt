-- ===== src/Args/Values.antt =====
-- src/args.rs, `parse_file_type`, `parse_threads`, `parse_paths` and `default_threads`, with what they
-- ask of the system.
use minifind.Base.{
  ℕ, Bool, ◌&&◌, Option, none, some, List, [], ◌∷◌, leb, if◌then◌else◌, Result, ok, err, Error,
  ◌>>=◌, not_a_number, threads_range, not_a_directory, invalid_file_type,
}
use minifind.Base.Int.{ℤ}
use minifind.Base.Text.{Text, codes, parse_usize}
use minifind.Args.Types.{FileType}
use minifind.Args.Spellings.{find_row}

-- The system: the parallelism, if it is known, and the tests of paths; `normalize` is normpath's,
-- `modified` a file's time of modification in seconds since the epoch, rounded down, and the last two
-- the lookups `nss_uid` and `nss_gid`.
pub record Env : Type 0 where
  pub parallelism : Option ℕ
  pub is_dir : Text → Bool
  pub normalize : Text → Option Text
  pub modified : Text → Option ℤ
  pub nss_uid : Text → Option ℕ
  pub nss_gid : Text → Option ℕ

abbrev pub or_err {ℓ} : {A : Type ℓ} → Error → Option A → Result A
or_err e none = err e
or_err e (some a) = ok a

abbrev pub or_two : Option ℕ → ℕ
or_two none = 2
or_two (some n) = n

abbrev pub default_threads : Env → ℕ
default_threads env = or_two env.parallelism

abbrev file_types : List (Text × FileType)
file_types =
    (codes "empty", FileType.empty)
    ∷ (codes "e", FileType.empty)
    ∷ (codes "block-device", FileType.block_device)
    ∷ (codes "b", FileType.block_device)
    ∷ (codes "char-device", FileType.char_device)
    ∷ (codes "c", FileType.char_device)
    ∷ (codes "directory", FileType.directory)
    ∷ (codes "d", FileType.directory)
    ∷ (codes "pipe", FileType.pipe)
    ∷ (codes "p", FileType.pipe)
    ∷ (codes "file", FileType.file)
    ∷ (codes "f", FileType.file)
    ∷ (codes "symlink", FileType.symlink)
    ∷ (codes "l", FileType.symlink)
    ∷ (codes "socket", FileType.socket)
    ∷ (codes "s", FileType.socket)
    ∷ []

unfoldable pub parse_file_type : Text → Result FileType
unfolding find_row
parse_file_type s = or_err (invalid_file_type s) (find_row s file_types)

-- The test `2..=65535`.
abbrev pub in_threads : ℕ → Bool
in_threads v = leb 2 v && leb v 65535

unfoldable pub parse_threads : Text → Result ℕ
parse_threads x = or_err (not_a_number x) (parse_usize x) >>= λ v.
    if in_threads v then ok v else err threads_range

unfoldable pub parse_paths : Env → Text → Result Text
parse_paths env x =
    if env.is_dir x then or_err (not_a_directory x) (env.normalize x) else err (not_a_directory x)
