-- ===== src/Tests/Pipeline.antt =====
-- Runs of src/lib.rs, and the theorems about it at concrete inputs.
use minifind.Base.{ℕ, ◌≡◌, refl, Bool, true, false, Option, none, some, List, [], ◌∷◌, ◌++◌, arith}
use minifind.Base.Int.{pos}
use minifind.Base.Text.{Text, codes}
use minifind.Meta.Predicates.{no_predicates}
use minifind.FileType.{EntryType, Probe}
use minifind.Walk.{Platform, Entry, StatAt, child}
use minifind.Pipeline.Batch.{BatchSender, new_sender, push_all, drop}
use minifind.Pipeline.Batch.Laws.{IsSender, push_all-IsSender}
use minifind.Pipeline.Output.{cap_of, no_output, print_all}
use minifind.Pipeline.Output.Laws.{records, records-print_all}
use minifind.Pipeline.Visitor.{Filters, Visit, visit}
use minifind.Pipeline.Visitor.Laws.{visit-passes, HandsOver, passes}

abbrev Log : Type 0
Log = List (List Entry)

-- A channel that keeps every batch.
abbrev keep : List Entry → Log → Option Log
keep b log = some (log ++ (b ∷ []))

keep-taken : (b : List Entry) (log log' : Log) → keep b log ≡ some log' → log' ≡ log ++ (b ∷ [])
keep-taken b log log' h = cc

abbrev file_at : Text → ℕ → Entry
file_at path depth = record { path = path; file_type = EntryType.file; depth = depth }

abbrev one : Entry
one = file_at (codes "r/a") 1

abbrev two : Entry
two = file_at (codes "r/b") 1

abbrev sender : BatchSender Log
sender = new_sender []

push_all-IsSender_example :
    IsSender (λ (log : Log). log) (push_all keep (one ∷ []) sender).1
    × IsSender (λ (log : Log). log) (drop keep (push_all keep (one ∷ []) sender).1)
push_all-IsSender_example =
    push_all-IsSender keep (λ log. log) keep-taken (one ∷ []) sender (tt, omega arith)

abbrev batches : List (List Entry)
batches = (one ∷ []) ∷ (two ∷ one ∷ []) ∷ []

records-print_all_example :
    records 0 (print_all (cap_of none) 0 batches no_output).out
    ≡ codes "r/a" ∷ codes "r/b" ∷ codes "r/a" ∷ []
records-print_all_example = records-print_all none 0 batches refl

-- Entries of a directory, all owned by user 7.
abbrev platform : Platform ℕ
platform = record {
  path_id = λ path. none;
  open_root = λ path follow. none;
  open_child = λ dir leaf path follow. none;
  dir_id = λ dir. none;
  entries = λ dir path. [];
  stat_at = λ dir leaf follow mask. some (record {
    size = 3;
    mtime = pos 0;
    ctime = pos 0;
    atime = pos 0;
    mode = 0o644;
    uid = 7;
    gid = 7;
    nlink = 1;
    ino = 9;
  });
  stat_root = λ path follow mask. none;
  access_at = λ dir leaf mode. true;
  access_root = λ path mode. false;
  readlink_at = λ dir leaf. none;
  readlink_root = λ path. none;
  file_name = λ path. some path;
}

abbrev probe : Probe
probe = record { read_dir = λ path. none; len = λ path. none }

-- `-nouser -readable --min-depth 1` on regular files.
abbrev filters : Filters
filters = record {
  min_depth = 1;
  file_type = record { selected = 1; empty = false };
  glob_name = none;
  regex_name = none;
  glob_path = none;
  glob_lname = none;
  predicates = record no_predicates { nouser = true };
  now = pos 100;
  access = 1;
  exclude = none;
}

abbrev at : StatAt ℕ
at = record { src = child 1 (codes "a"); follow = false }

abbrev start : Visit Log
start = record { nss = record { users = []; groups = [] }; batch = sender }

-- No user has an entry.
abbrev nobody : ℕ → Bool
nobody id = false

visit-passes_example :
    HandsOver platform probe filters nobody nobody keep
      (passes platform probe filters nobody nobody keep one at)
      one
      start
      (visit platform probe filters nobody nobody keep false one at start)
visit-passes_example =
    visit-passes platform probe filters nobody nobody keep one at start
      (record { users = tt; groups = tt })
