-- ===== src/Tests/FileType.antt =====
-- Runs of src/filetype.rs, after its own unit tests.
use minifind.Base.{◌≡◌, refl, true, false, some, [], ◌∷◌}
use minifind.Base.Text.{codes}
use minifind.Args.Types.{FileType as Selector}
use minifind.FileType
use minifind.FileType.{EntryType, Probe}
use minifind.FileType.Laws.{ignore_filetype-wants}

-- Every directory is empty, and every file has ten bytes.
abbrev probe : Probe
probe = record { read_dir = λ path. some []; len = λ path. some 10 }

ignore_filetype-wants_example :
    FileType.ignore_filetype probe (FileType.new (Selector.empty ∷ [])) EntryType.file (codes "a")
    ≡ true
unfolding FileType.is_empty_entry
ignore_filetype-wants_example =
    ignore_filetype-wants probe (Selector.empty ∷ []) EntryType.file (codes "a")

-- `--empty` alone keeps an empty directory, and a selector passes its own type only.
selectors :
    (FileType.ignore_filetype probe (FileType.new (Selector.empty ∷ [])) EntryType.dir (codes "d")
      ≡ false)
    × (FileType.ignore_filetype probe (FileType.new (Selector.pipe ∷ [])) EntryType.fifo (codes "p")
        ≡ false)
    × (FileType.ignore_filetype probe
          (FileType.new (Selector.pipe ∷ []))
          EntryType.socket
          (codes "p")
        ≡ true)
unfolding FileType.ignore_filetype FileType.new FileType.is_empty_entry
selectors = (refl, refl, refl)
