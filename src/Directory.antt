-- ===== src/Directory.antt =====
-- code/filesys/directory.cc: a directory is a table of entries with a name of at most 9 characters.
-- Names are lists of character codes; strncmp and strncpy look at the first 9 of them.
pub mod Entries
pub mod Files
pub mod Removal
mod Tests
use usc_cs.Common.{
  ℕ, zero, suc, ◌+◌, Bool, true, false, not, ◌&&◌, Option, none, some, List, [], ◌∷◌, ◌==◌,
  if◌then◌else◌, take, get_elem?,
}

abbrev pub file_name_max_len : ℕ
file_name_max_len = 9

pub record DirectoryEntry : Type 0 where
  pub in_use : Bool
  pub sector : ℕ
  pub name : List ℕ

-- Are two texts equal?
abbrev pub same_text : List ℕ → List ℕ → Bool
same_text [] [] = true
same_text (a ∷ xs) (b ∷ ys) = (a == b) && same_text xs ys
same_text _ _ = false

-- `table[i].inUse && !strncmp(table[i].name, name, FileNameMaxLen)`
abbrev pub is_entry : List ℕ → DirectoryEntry → Bool
is_entry name e =
    e.in_use && same_text (take file_name_max_len e.name) (take file_name_max_len name)

-- The loop of Directory::FindIndex from entry `i` on; `none` is -1.
unfoldable pub find_index_from : ℕ → List ℕ → List DirectoryEntry → Option ℕ
find_index_from i name [] = none
find_index_from i name (e ∷ table) =
    let rest = find_index_from (i + 1) name table in if is_entry name e then some i else rest

-- Directory::FindIndex
unfoldable pub find_index : List ℕ → List DirectoryEntry → Option ℕ
find_index name table = find_index_from 0 name table

-- Directory::Directory; `old` is what the memory of the new table holds.
unfoldable pub new_directory : List DirectoryEntry → List DirectoryEntry
new_directory [] = []
new_directory (e ∷ old) = record e { in_use = false } ∷ new_directory old

abbrev pub sector_of : Option DirectoryEntry → Option ℕ
sector_of none = none
sector_of (some e) = some e.sector

abbrev pub sector_at : List DirectoryEntry → Option ℕ → Option ℕ
sector_at table none = none
sector_at table (some i) = sector_of (get_elem? table i)

-- Directory::Find
unfoldable pub find : List ℕ → List DirectoryEntry → Option ℕ
find name table = sector_at table (find_index name table)

-- The loop of Directory::Add: the first entry that is not in use.
unfoldable pub fill_free : List ℕ → ℕ → List DirectoryEntry → Bool × List DirectoryEntry
fill_free name sector [] = (false, [])
fill_free name sector (e ∷ table) =
    let (done, rest) = fill_free name sector table in
    if e.in_use then (done, e ∷ rest) else (
      true,
      record { in_use = true; sector = sector; name = take file_name_max_len name } ∷ table,
    )

abbrev pub is_found : Option ℕ → Bool
is_found none = false
is_found (some i) = true

-- Directory::Add
unfoldable pub add : List ℕ → ℕ → List DirectoryEntry → Bool × List DirectoryEntry
add name sector table =
    if is_found (find_index name table) then (false, table) else fill_free name sector table

-- `table[i].inUse = FALSE;`
abbrev pub free_entry_at : ℕ → List DirectoryEntry → List DirectoryEntry
free_entry_at i [] = []
free_entry_at zero (e ∷ table) = record e { in_use = false } ∷ table
free_entry_at (suc i) (e ∷ table) = e ∷ free_entry_at i table

abbrev pub remove_at : Option ℕ → List DirectoryEntry → Bool × List DirectoryEntry
remove_at none table = (false, table)
remove_at (some i) table = (true, free_entry_at i table)

-- Directory::Remove
unfoldable pub remove : List ℕ → List DirectoryEntry → Bool × List DirectoryEntry
remove name table = remove_at (find_index name table) table
