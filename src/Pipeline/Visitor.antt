-- ===== src/Pipeline/Visitor.antt =====
-- src/lib.rs, `run`: the filters that one run compiles from its arguments, and the visitor that each
-- worker runs on an entry.
pub mod Laws
use minifind.Base.{
  ℕ, Bool, true, false, not, ◌&&◌, Option, none, some, List, ◌==◌, ltb, is_some, if◌then◌else◌,
  Result, ok, ◌>>=◌,
}
use minifind.Base.Int.{ℤ}
use minifind.Base.Text.{Text}
use minifind.FileType
use minifind.FileType.{FileType, EntryType, Probe}
use minifind.Args.Types.{Args}
use minifind.Meta.Fields.{Meta}
use minifind.Meta.Predicates
use minifind.Meta.Predicates.{Predicates}
use minifind.Meta.Nss.{NssCache, user_exists, group_exists}
use minifind.Walk.{
  Platform, WalkState, go_on, quit, Entry, StatAt, fetch, access, readlink, file_name,
}
use minifind.Walk.Process.{is_symlink}
use minifind.Pipeline.Batch.{BatchSender, push}
use minifind.Pipeline.Patterns.{Compiler, build_glob_set, build_regex_set}

-- What the visitor captures. A set of patterns is there if its option was given.
pub record Filters : Type 0 where
  pub min_depth : ℕ
  pub file_type : FileType
  pub glob_name : Option (Text → Bool)
  pub regex_name : Option (Text → Bool)
  pub glob_path : Option (Text → Bool)
  pub glob_lname : Option (Text → Bool)
  pub predicates : Predicates
  pub now : ℤ
  pub access : ℕ
  pub exclude : Option (Text → Bool)

abbrev pub or_zero : Option ℕ → ℕ
or_zero none = 0
or_zero (some n) = n

-- `args.name.is_some().then_some(…)`.
abbrev pub if_given : Option (List Text) → (Text → Bool) → Option (Text → Bool)
if_given none set = none
if_given (some ps) set = some set

-- The sets in the order in which `run` builds them, so that the first bad pattern is the error.
unfoldable pub make_filters : Compiler → Args → ℤ → Result Filters
make_filters G args now = build_glob_set G args.name args.case_insensitive >>= λ name.
    build_regex_set G args.regex args.case_insensitive >>= λ regex.
    build_glob_set G args.path_glob args.case_insensitive >>= λ path.
    build_glob_set G args.lname args.case_insensitive >>= λ lname.
    build_glob_set G args.exclude args.case_insensitive >>= λ exclude. ok (record {
      min_depth = or_zero args.min_depth;
      file_type = FileType.new args.file_type;
      glob_name = if_given args.name name;
      regex_name = if_given args.regex regex;
      glob_path = if_given args.path_glob path;
      glob_lname = if_given args.lname lname;
      predicates = args.meta;
      now = now;
      access = args.access;
      exclude = if_given args.exclude exclude;
    })

-- The state of one worker's visitor.
pub record Visit (C : Type 0) : Type 0 where
  pub nss : NssCache
  pub batch : BatchSender C

-- `enabled && !set.is_match(text)`.
abbrev pub rejects : Option (Text → Bool) → Text → Bool
rejects none text = false
rejects (some is_match) text = not (is_match text)

abbrev pub misses : (Text → Bool) → Option Text → Bool
misses is_match none = true
misses is_match (some target) = not (is_match target)

-- Whether `-lname` drops an entry.
abbrev pub lname_rejects : Option (Text → Bool) → EntryType → Option Text → Bool
lname_rejects none ty target = false
lname_rejects (some is_match) ty target =
    if not (is_symlink ty) then true else misses is_match target

module _ (f : Filters) (has_user has_group : ℕ → Bool) where
  -- `-nogroup`, then `-nouser` before it: `false` drops the entry.
  unfoldable pub check_group : ℕ → NssCache → Bool × NssCache
  check_group gid c =
      let (known, c') = group_exists has_group gid c in
      if f.predicates.nogroup then (not known, c') else (true, c)

  unfoldable pub check_user : ℕ → ℕ → NssCache → Bool × NssCache
  unfolding check_group
  check_user uid gid c =
      let (known, c') = user_exists has_user uid c in
      if f.predicates.nouser
      then (if known then (false, c') else check_group gid c')
      else check_group gid c

  unfoldable pub check_fetched : Option Meta → NssCache → Bool × NssCache
  unfolding check_user
  check_fetched none c = (false, c)
  check_fetched (some m) c =
      if Predicates.matches f.predicates m f.now then check_user m.uid m.gid c else (false, c)

module _ {Fd C : Type 0} (P : Platform Fd) (fs : Probe) (f : Filters)
    (has_user has_group : ℕ → Bool) (send : List Entry → C → Option C) where
  -- The predicates that need a stat, which is paid only if one is active.
  unfoldable pub check_meta : StatAt Fd → NssCache → Bool × NssCache
  unfolding check_fetched
  check_meta at c =
      if Predicates.is_active f.predicates
      then check_fetched f has_user has_group (fetch P at (Predicates.mask f.predicates)) c
      else (true, c)

  -- The entry is pushed; a closed channel ends the walk.
  unfoldable pub hand_over : Entry → Visit C → WalkState × Visit C
  unfolding push
  hand_over e v =
      let (more, b) = push send e v.batch in (if more then go_on else quit, record v { batch = b })

  unfoldable pub after_meta : Entry → StatAt Fd → Visit C → Bool × NssCache → WalkState × Visit C
  unfolding hand_over
  after_meta e at v (kept, c) =
      let v' : Visit C = record v { nss = c } in
      if not kept
      then (go_on, v')
      else if not (f.access == 0) && not (access P at f.access)
      then (go_on, v')
      else hand_over e v'

  -- The visitor, given whether the shutdown flag is set.
  unfoldable pub visit : Bool → Entry → StatAt Fd → Visit C → WalkState × Visit C
  unfolding after_meta check_meta
  visit shutdown e at v =
      if shutdown
      then (quit, v)
      else if ltb e.depth f.min_depth
      then (go_on, v)
      else if FileType.ignore_filetype fs f.file_type e.file_type e.path
      then (go_on, v)
      else if rejects f.glob_name (file_name P e.path)
      then (go_on, v)
      else if rejects f.regex_name e.path
      then (go_on, v)
      else if rejects f.glob_path e.path
      then (go_on, v)
      else if lname_rejects f.glob_lname e.file_type (readlink P at)
      then (go_on, v)
      else after_meta e at v (check_meta at v.nss)
