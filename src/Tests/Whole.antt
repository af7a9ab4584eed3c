-- ===== src/Tests/Whole.antt =====
-- What the one worker of a small tree sends, over a channel that stays open and over one that closes.
use minifind.Base.{ℕ, ◌≡◌, refl, Bool, false, none, List, [], ◌∷◌}
use minifind.Base.Int.{pos}
use minifind.FileType
use minifind.FileType.{FileType, Probe}
use minifind.Meta.Predicates
use minifind.Meta.Predicates.{no_predicates}
use minifind.Walk.System.{Seen}
use minifind.Pipeline.Visitor.{Filters}
use minifind.Pipeline.Worker.{Sent, sent_by, sent_before}
use minifind.Tests.Walk.{tree, dir_entry, root_seen, dir_seen}

-- `--min-depth 1`.
abbrev filters : Filters
filters = record {
  min_depth = 1;
  file_type = record { selected = 0x7f; empty = false };
  glob_name = none;
  regex_name = none;
  glob_path = none;
  glob_lname = none;
  predicates = no_predicates;
  now = pos 100;
  access = 0;
  exclude = none;
}

abbrev probe : Probe
probe = record { read_dir = λ path. none; len = λ path. none }

abbrev nobody : ℕ → Bool
nobody id = false

abbrev share : List (Seen ℕ)
share = root_seen ∷ dir_seen ∷ []

-- The only worker's batches, with the directory and without the root.
abbrev batches : Sent
batches = (dir_entry ∷ []) ∷ []

sends : sent_by tree probe filters nobody nobody share ≡ batches
unfolding sent_by FileType.ignore_filetype Predicates.is_active
sends = refl

-- A channel that takes no batch.
sends_nothing : sent_before tree probe filters nobody nobody 0 share ≡ []
unfolding sent_before FileType.ignore_filetype Predicates.is_active
sends_nothing = refl
