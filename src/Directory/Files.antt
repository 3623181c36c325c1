-- ===== src/Directory/Files.antt =====
-- A directory (code/filesys/directory.cc) is a map from names to the sectors of file headers.
use usc_cs.Common.{ℕ, Bool, true, false, none, some, List, [], ◌∷◌, if◌then◌else◌, take, ◌≡◌, ◌⊎◌}
use usc_cs.Directory.{DirectoryEntry, file_name_max_len}
use usc_cs.Directory.Entries.{lookup, alike}

-- No two entries in use have names that are alike.
abbrev pub Unique : List DirectoryEntry → Type 0
Unique [] = Unit
Unique (e ∷ table) = ((e.in_use ≡ false) ⊎ (lookup e.name table ≡ none)) × Unique table

abbrev pub Full : List DirectoryEntry → Type 0
Full [] = Unit
Full (e ∷ table) = (e.in_use ≡ true) × Full table

abbrev entry_for : List ℕ → ℕ → DirectoryEntry
entry_for name sector = record {
  in_use = true;
  sector = sector;
  name = take file_name_max_len name;
}

-- What Add makes of a table, where the name is not in it.
pub Added : List ℕ → ℕ → List DirectoryEntry → Bool × List DirectoryEntry → Type 0
Added name sector table (done, table') =
    ((done ≡ false) × (table' ≡ table) × Full table)
    ⊎ ((done ≡ true)
        × Unique table'
        × ((other : List ℕ)
            → lookup other table' ≡ (if alike name other then some sector else lookup other table)))
