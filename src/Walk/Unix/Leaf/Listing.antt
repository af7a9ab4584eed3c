-- ===== src/Walk/Unix/Leaf/Listing.antt =====
-- src/walk/unix.rs, `for_each_entry`: the entries that the callback is given, and when it reports an
-- error.
use minifind.Base.{
  ◌≡◌, refl, ap, ◌∙◌, Bool, Bool-cases, true, false, inl, inr, Option, Option-cases, none, some,
  List, [], ◌∷◌, all, is_some, if◌then◌else◌,
}
use minifind.Base.Text.{Text}
use minifind.FileType.{EntryType}
use minifind.Walk.{Listed}
use minifind.Walk.Process.{for_each}
use minifind.Walk.Reads.{read_each, read_all}
use minifind.Walk.Reads.Listing.{
  entries_of, listing, is_readable, is_read, for_opened-for_each, for_opened-is_read,
}
use minifind.Walk.Unix.Sys.{RFileType, Calls}
use minifind.Walk.Unix.Leaf.{is_dots, entry_type, listed, read_item, for_each_entry}

abbrev Items : Type 0
Items = List (Option (Text × RFileType))

-- A listing without errors: it can be opened, and every item is read.
abbrev pub is_listed : Option Items → Bool
is_listed none = false
is_listed (some items) = all is_some items

module _ {Fd : Type 0} (S : Calls Fd) (fd : Fd) (parent : Text) where
  abbrev cons_if : Option EntryType → Text → List Listed → List Listed
  cons_if none name rest = rest
  cons_if (some ty) name rest = listed S parent name ty ∷ rest

  -- The entries among the items: neither `.` nor `..`, with a type that can be found, and before the
  -- first error.
  items_listed : Items → List Listed
  items_listed [] = []
  items_listed (none ∷ items) = []
  items_listed (some (name, ft) ∷ items) =
      let rest = items_listed items in
      if is_dots name then rest else cons_if (entry_type S fd name ft) name rest

  read_listed : Option Items → List Listed
  read_listed none = []
  read_listed (some items) = items_listed items

  unfoldable pub entries : List Listed
  unfolding read_listed items_listed
  entries = read_listed (S.read_dir fd)

  entries_of-read_each :
      (items : Items) → entries_of (read_each (read_item S fd parent) items) ≡ items_listed items
  unfolding entries_of read_each read_item items_listed
  entries_of-read_each [] = refl
  entries_of-read_each (none ∷ items) = refl
  entries_of-read_each (some (name, ft) ∷ items) = elim (Bool-cases (is_dots name)) [
    | inl d ↦ rw d (entries_of-read_each items)
    | inr d ↦ elim (Option-cases (entry_type S fd name ft)) [
      | inl e ↦ rw (d, e) (entries_of-read_each items)
      | inr (ty, e) ↦
          rw (d, e)
            (ap (λ (l : List Listed). listed S parent name ty ∷ l) (entries_of-read_each items))
    ]
  ]

  listing-read_all :
      (o : Option Items) → listing (read_all (read_item S fd parent) o) ≡ read_listed o
  unfolding read_listed
  listing-read_all none = refl
  listing-read_all (some items) = entries_of-read_each items

  all-read_each :
      (items : Items)
      → all is_readable (read_each (read_item S fd parent) items) ≡ all is_some items
  unfolding read_each read_item
  all-read_each [] = refl
  all-read_each (none ∷ items) = refl
  all-read_each (some (name, ft) ∷ items) = elim (Bool-cases (is_dots name)) [
    | inl d ↦ rw d (all-read_each items)
    | inr d ↦ elim (Option-cases (entry_type S fd name ft)) [
      | inl e ↦ rw (d, e) (all-read_each items)
      | inr (ty, e) ↦ rw (d, e) (all-read_each items)
    ]
  ]

  is_read-read_all : (o : Option Items) → is_read (read_all (read_item S fd parent) o) ≡ is_listed o
  is_read-read_all none = refl
  is_read-read_all (some items) = all-read_each items

module _ {Fd : Type 0} (S : Calls Fd) where
  -- The callback is run on the entries in order, and stops the loop when it returns `false`: the
  -- state that it leaves is the one of the plain loop over the entries.
  pub for_each_entry-for_each :
      {St : Type 0} (f : Listed → St → Bool × St) (fd : Fd) (parent : Text) (st : St)
      → (for_each_entry S f fd parent st).1 ≡ for_each f (entries S fd parent) st
  unfolding for_each_entry entries
  for_each_entry-for_each f fd parent st =
      for_opened-for_each f (read_all (read_item S fd parent) (S.read_dir fd)) st
      ∙ ap (λ (l : List Listed). for_each f l st) (listing-read_all S fd parent (S.read_dir fd))

  -- With a callback that never stops the loop, an error is reported exactly if the directory cannot be
  -- listed or some item cannot be read; an entry without a type is no error.
  pub for_each_entry-is_listed :
      {St : Type 0} (f : Listed → St → Bool × St) (fd : Fd) (parent : Text) (st : St)
      → ((e : Listed) (st : St) → (f e st).0 ≡ true)
      → (for_each_entry S f fd parent st).0 ≡ is_listed (S.read_dir fd)
  unfolding for_each_entry
  for_each_entry-is_listed f fd parent st h =
      for_opened-is_read f h (read_all (read_item S fd parent) (S.read_dir fd)) st
      ∙ is_read-read_all S fd parent (S.read_dir fd)
