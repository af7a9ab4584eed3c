-- ===== src/Args/Options.antt =====
-- src/args.rs, the patterns of the `match` in `parse_inner`, as built for Linux: each option with its
-- names.
use minifind.Base.{ℕ, Option, none, some, List, [], ◌∷◌, ◌==◌, if◌then◌else◌}
use minifind.Base.Text.{Text, codes}
use minifind.Args.Spellings.{find_row}

-- The options without a value; `no_op` are the three that are accepted and do nothing.
pub data Flag : Type 0 where
  follow_symlinks : Flag
  one_filesystem : Flag
  cross_filesystem : Flag
  idle : Flag
  case_insensitive : Flag
  empty : Flag
  nouser : Flag
  nogroup : Flag
  readable : Flag
  writable : Flag
  executable : Flag
  quit : Flag
  no_op : Flag
  null : Flag

-- The options with a value.
pub data Valued : Type 0 where
  threads : Valued
  max_depth : Valued
  min_depth : Valued
  max_scan_rate : Valued
  max_results : Valued
  name : Valued
  regex : Valued
  iname : Valued
  iregex : Valued
  file_type : Valued
  exclude : Valued
  size : Valued
  mtime : Valued
  ctime : Valued
  atime : Valued
  mmin : Valued
  cmin : Valued
  amin : Valued
  perm : Valued
  uid : Valued
  gid : Valued
  user : Valued
  group : Valued
  links : Valued
  inum : Valued
  newer : Valued
  anewer : Valued
  cnewer : Valued
  path : Valued
  ipath : Valued
  lname : Valued
  ilname : Valued

pub data Opt : Type 0 where
  help : Opt
  version : Opt
  flag : Flag → Opt
  valued : Valued → Opt

abbrev pub long_options : List (Text × Opt)
long_options =
    (codes "help", help)
    ∷ (codes "version", version)
    ∷ (codes "follow-symlinks", flag Flag.follow_symlinks)
    ∷ (codes "one-filesystem", flag Flag.one_filesystem)
    ∷ (codes "xdev", flag Flag.one_filesystem)
    ∷ (codes "no-one-filesystem", flag Flag.cross_filesystem)
    ∷ (codes "cross-filesystem", flag Flag.cross_filesystem)
    ∷ (codes "idle", flag Flag.idle)
    ∷ (codes "case-insensitive", flag Flag.case_insensitive)
    ∷ (codes "empty", flag Flag.empty)
    ∷ (codes "nouser", flag Flag.nouser)
    ∷ (codes "nogroup", flag Flag.nogroup)
    ∷ (codes "readable", flag Flag.readable)
    ∷ (codes "writable", flag Flag.writable)
    ∷ (codes "executable", flag Flag.executable)
    ∷ (codes "quit", flag Flag.quit)
    ∷ (codes "print", flag Flag.no_op)
    ∷ (codes "ignore-readdir-race", flag Flag.no_op)
    ∷ (codes "noignore-readdir-race", flag Flag.no_op)
    ∷ (codes "null", flag Flag.null)
    ∷ (codes "print0", flag Flag.null)
    ∷ (codes "threads", valued Valued.threads)
    ∷ (codes "max-depth", valued Valued.max_depth)
    ∷ (codes "min-depth", valued Valued.min_depth)
    ∷ (codes "max-scan-rate", valued Valued.max_scan_rate)
    ∷ (codes "max-results", valued Valued.max_results)
    ∷ (codes "name", valued Valued.name)
    ∷ (codes "regex", valued Valued.regex)
    ∷ (codes "iname", valued Valued.iname)
    ∷ (codes "iregex", valued Valued.iregex)
    ∷ (codes "file-type", valued Valued.file_type)
    ∷ (codes "exclude", valued Valued.exclude)
    ∷ (codes "size", valued Valued.size)
    ∷ (codes "mtime", valued Valued.mtime)
    ∷ (codes "ctime", valued Valued.ctime)
    ∷ (codes "atime", valued Valued.atime)
    ∷ (codes "mmin", valued Valued.mmin)
    ∷ (codes "cmin", valued Valued.cmin)
    ∷ (codes "amin", valued Valued.amin)
    ∷ (codes "perm", valued Valued.perm)
    ∷ (codes "uid", valued Valued.uid)
    ∷ (codes "gid", valued Valued.gid)
    ∷ (codes "user", valued Valued.user)
    ∷ (codes "group", valued Valued.group)
    ∷ (codes "links", valued Valued.links)
    ∷ (codes "inum", valued Valued.inum)
    ∷ (codes "newer", valued Valued.newer)
    ∷ (codes "anewer", valued Valued.anewer)
    ∷ (codes "cnewer", valued Valued.cnewer)
    ∷ (codes "path", valued Valued.path)
    ∷ (codes "wholename", valued Valued.path)
    ∷ (codes "ipath", valued Valued.ipath)
    ∷ (codes "iwholename", valued Valued.ipath)
    ∷ (codes "lname", valued Valued.lname)
    ∷ (codes "ilname", valued Valued.ilname)
    ∷ []

abbrev pub short_options : List (ℕ × Opt)
short_options =
    (b'h', help)
    ∷ (b'V', version)
    ∷ (b'f', flag Flag.follow_symlinks)
    ∷ (b'L', flag Flag.follow_symlinks)
    ∷ (b'o', flag Flag.one_filesystem)
    ∷ (b'i', flag Flag.case_insensitive)
    ∷ (b'0', flag Flag.null)
    ∷ (b'x', valued Valued.threads)
    ∷ (b'd', valued Valued.max_depth)
    ∷ (b's', valued Valued.max_scan_rate)
    ∷ (b'n', valued Valued.name)
    ∷ (b'r', valued Valued.regex)
    ∷ (b't', valued Valued.file_type)
    ∷ (b'E', valued Valued.exclude)
    ∷ []

find_letter : ℕ → List (ℕ × Opt) → Option Opt
find_letter c [] = none
find_letter c ((d, o) ∷ rows) = let rest = find_letter c rows in if d == c then some o else rest

unfoldable pub short_option : ℕ → Option Opt
unfolding find_letter
short_option c = find_letter c short_options

unfoldable pub long_option : Text → Option Opt
unfolding find_row
long_option word = find_row word long_options
