-- ===== src/Args/Spellings.antt =====
-- src/args.rs, the start of `parse_inner`: find's single-dash words are rewritten to long options.
pub mod Laws
use minifind.Base.{Option, none, some, List, [], ◌∷◌, if◌then◌else◌}
use minifind.Base.Text.{Text, codes, text_eq}

-- The first row of a table with the given word.
unfoldable pub find_row {ℓ} : {A : Type ℓ} → Text → List (Text × A) → Option A
find_row s [] = none
find_row s ((t, a) ∷ rows) = let rest = find_row s rows in if text_eq t s then some a else rest

-- find's spellings, and what they are rewritten to.
abbrev pub find_words : List (Text × Text)
find_words =
    (codes "-print0", codes "--null")
    ∷ (codes "-mindepth", codes "--min-depth")
    ∷ (codes "-size", codes "--size")
    ∷ (codes "-mtime", codes "--mtime")
    ∷ (codes "-ctime", codes "--ctime")
    ∷ (codes "-atime", codes "--atime")
    ∷ (codes "-mmin", codes "--mmin")
    ∷ (codes "-cmin", codes "--cmin")
    ∷ (codes "-amin", codes "--amin")
    ∷ (codes "-perm", codes "--perm")
    ∷ (codes "-uid", codes "--uid")
    ∷ (codes "-gid", codes "--gid")
    ∷ (codes "-user", codes "--user")
    ∷ (codes "-group", codes "--group")
    ∷ (codes "-name", codes "--name")
    ∷ (codes "-iname", codes "--iname")
    ∷ (codes "-regex", codes "--regex")
    ∷ (codes "-iregex", codes "--iregex")
    ∷ (codes "-type", codes "--file-type")
    ∷ (codes "-maxdepth", codes "--max-depth")
    ∷ (codes "-xdev", codes "--xdev")
    ∷ (codes "-mount", codes "--xdev")
    ∷ (codes "-follow", codes "--follow-symlinks")
    ∷ (codes "-empty", codes "--empty")
    ∷ (codes "-links", codes "--links")
    ∷ (codes "-inum", codes "--inum")
    ∷ (codes "-newer", codes "--newer")
    ∷ (codes "-anewer", codes "--anewer")
    ∷ (codes "-cnewer", codes "--cnewer")
    ∷ (codes "-path", codes "--path")
    ∷ (codes "-wholename", codes "--wholename")
    ∷ (codes "-ipath", codes "--ipath")
    ∷ (codes "-iwholename", codes "--iwholename")
    ∷ (codes "-lname", codes "--lname")
    ∷ (codes "-ilname", codes "--ilname")
    ∷ (codes "-readable", codes "--readable")
    ∷ (codes "-writable", codes "--writable")
    ∷ (codes "-executable", codes "--executable")
    ∷ (codes "-nouser", codes "--nouser")
    ∷ (codes "-nogroup", codes "--nogroup")
    ∷ (codes "-quit", codes "--quit")
    ∷ (codes "-print", codes "--print")
    ∷ (codes "-ignore_readdir_race", codes "--ignore-readdir-race")
    ∷ (codes "-noignore_readdir_race", codes "--noignore-readdir-race")
    ∷ []

abbrev pub or_same : Text → Option Text → Text
or_same s none = s
or_same s (some t) = t

unfoldable pub normalize : Text → Text
unfolding find_row
normalize s = or_same s (find_row s find_words)
