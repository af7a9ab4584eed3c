-- ===== src/Walk/Reads.antt =====
-- src/walk/unix.rs and src/walk/fallback.rs, the loop of `for_each_entry`, which both have, over what
-- each makes of one item of the directory.
pub mod Listing
use minifind.Base.{Bool, true, false, Option, none, some, List, [], ◌∷◌, if◌then◌else◌}
use minifind.Walk.{Listed}

-- An item that cannot be read ends the loop with an error; one may be passed over; any other is an
-- entry for the callback.
pub data Read : Type 0 where
  unreadable : Read
  passed_over : Read
  entry : Listed → Read

-- The loop on the items that are left, with the callback's state; `false` is an error.
unfoldable pub for_reads : {St : Type 0} → (Listed → St → Bool × St) → List Read → St → Bool × St
for_reads f [] st = (true, st)
for_reads f (unreadable ∷ items) st = (false, st)
for_reads f (passed_over ∷ items) st = for_reads f items st
for_reads f (entry e ∷ items) st =
    let (more, st') = f e st in
    let rest = for_reads f items st' in if more then rest else (true, st')

-- The same after the directory itself is opened for reading, which may fail.
abbrev pub for_opened :
    {St : Type 0} → (Listed → St → Bool × St) → Option (List Read) → St → Bool × St
for_opened f none st = (false, st)
for_opened f (some items) st = for_reads f items st

unfoldable pub read_each : {I : Type 0} → (I → Read) → List I → List Read
read_each read [] = []
read_each read (i ∷ items) = read i ∷ read_each read items

abbrev pub read_all : {I : Type 0} → (I → Read) → Option (List I) → Option (List Read)
read_all read none = none
read_all read (some items) = some (read_each read items)
