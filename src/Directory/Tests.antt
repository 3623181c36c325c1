-- ===== src/Directory/Tests.antt =====
-- Tests of the directory (code/filesys/directory.cc) and concrete runs of its theorems.
use usc_cs.Common.{
  ℕ, true, false, none, some, List, [], ◌∷◌, if◌then◌else◌, ◌≡◌, ◌⊎◌, inl, inr, refl,
}
use usc_cs.Directory.{
  DirectoryEntry, find_index, find, add, remove, fill_free, find_index_from, new_directory,
}
use usc_cs.Directory.Entries.{lookup, alike}
use usc_cs.Directory.Files.{Unique}
use usc_cs.Directory.Removal.{find-remove}

abbrev free_entry : DirectoryEntry
free_entry = record { in_use = false; sector = 0; name = [] }

-- The file "ab" in sector 7, between two entries that are not in use.
abbrev one_file : List DirectoryEntry
one_file = free_entry ∷ record { in_use = true; sector = 7; name = 97 ∷ 98 ∷ [] } ∷ free_entry ∷ []

abbrev two_files : List DirectoryEntry
two_files =
    record { in_use = true; sector = 4; name = 99 ∷ [] }
    ∷ record { in_use = true; sector = 7; name = 97 ∷ 98 ∷ [] }
    ∷ free_entry
    ∷ []

two_files-Unique : Unique two_files
unfolding lookup
two_files-Unique = (inr refl, (inr refl, (inl refl, tt)))

add_test : add (99 ∷ []) 4 one_file ≡ (true, two_files)
unfolding add find_index find_index_from fill_free
add_test = refl

remove_test : find (97 ∷ 98 ∷ []) (remove (97 ∷ 98 ∷ []) two_files).1 ≡ none
unfolding remove find find_index find_index_from
remove_test = refl

new_directory_test : find (97 ∷ 98 ∷ []) (new_directory two_files) ≡ none
unfolding new_directory find find_index find_index_from
new_directory_test = refl

find-remove_example :
    let (done, table') = remove (97 ∷ 98 ∷ []) two_files in
    ((done ≡ false) × (table' ≡ two_files) × (find (97 ∷ 98 ∷ []) two_files ≡ none))
    ⊎ ((sector : ℕ) × (find (97 ∷ 98 ∷ []) two_files ≡ some sector)
        × (done ≡ true)
        × Unique table'
        × ((other : List ℕ)
            → find other table'
              ≡ (if alike (97 ∷ 98 ∷ []) other then none else find other two_files)))
find-remove_example = find-remove (97 ∷ 98 ∷ []) two_files two_files-Unique
