-- ===== src/Walk/Reads/Listing.antt =====
-- The loop of `for_each_entry` as the loop over a list of entries, and when it reports an error.
use minifind.Base.{
  ◌≡◌, refl, Bool, true, false, Bool-cases, inl, inr, Option, none, some, List, [], ◌∷◌, all,
}
use minifind.Walk.{Listed}
use minifind.Walk.Process.{for_each}
use minifind.Walk.Reads.{Read, unreadable, passed_over, entry, for_reads, for_opened}

-- The entries that come before the first error.
unfoldable pub entries_of : List Read → List Listed
entries_of [] = []
entries_of (unreadable ∷ items) = []
entries_of (passed_over ∷ items) = entries_of items
entries_of (entry e ∷ items) = e ∷ entries_of items

abbrev pub listing : Option (List Read) → List Listed
listing none = []
listing (some items) = entries_of items

abbrev pub is_readable : Read → Bool
is_readable unreadable = false
is_readable _ = true

-- A listing without errors: it can be opened, and every item is read.
abbrev pub is_read : Option (List Read) → Bool
is_read none = false
is_read (some items) = all is_readable items

module _ {St : Type 0} (f : Listed → St → Bool × St) where
  for_reads-for_each :
      (items : List Read) (st : St) → (for_reads f items st).1 ≡ for_each f (entries_of items) st
  unfolding for_reads for_each entries_of
  for_reads-for_each [] st = refl
  for_reads-for_each (unreadable ∷ items) st = refl
  for_reads-for_each (passed_over ∷ items) st = for_reads-for_each items st
  for_reads-for_each (entry e ∷ items) st = elim (Bool-cases (f e st).0) [
    | inl more ↦ rw more (for_reads-for_each items (f e st).1)
    | inr less ↦ rw less refl
  ]

  pub for_opened-for_each :
      (items : Option (List Read)) (st : St)
      → (for_opened f items st).1 ≡ for_each f (listing items) st
  unfolding for_each
  for_opened-for_each none st = refl
  for_opened-for_each (some items) st = for_reads-for_each items st

  for_reads-is_read :
      ((e : Listed) (st : St) → (f e st).0 ≡ true)
      → (items : List Read) (st : St) → (for_reads f items st).0 ≡ all is_readable items
  unfolding for_reads
  for_reads-is_read h [] st = refl
  for_reads-is_read h (unreadable ∷ items) st = refl
  for_reads-is_read h (passed_over ∷ items) st = for_reads-is_read h items st
  for_reads-is_read h (entry e ∷ items) st = rw (h e st) (for_reads-is_read h items (f e st).1)

  pub for_opened-is_read :
      ((e : Listed) (st : St) → (f e st).0 ≡ true)
      → (items : Option (List Read)) (st : St) → (for_opened f items st).0 ≡ is_read items
  for_opened-is_read h none st = refl
  for_opened-is_read h (some items) st = for_reads-is_read h items st
