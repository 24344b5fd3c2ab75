-- ===== src/Small/Listing.antt =====
-- cpp/list_files.cpp: the entries of a directory that are no directories. boost's paths are a parameter:
-- the stem of a name, and how a name is printed.
use smoll.Base.{List, [], ◌∷◌, Bool, not, Bytes, if◌then◌else◌}

pub record Entry : Type 0 where
  pub filename : Bytes
  pub is_directory : Bool

module _ (printed stem : Bytes → Bytes) where
  -- The lines that `main` prints of the entries, in the order in which the iterator has them.
  unfoldable pub main : List Entry → List Bytes
  main [] = []
  main (entry ∷ entries) =
      let rest = main entries in
      if not entry.is_directory then printed entry.filename ∷ stem entry.filename ∷ rest else rest
