-- ===== src/FileHeader/Tests.antt =====
-- Files on a small disk (code/filesys/filehdr.cc).
use usc_cs.Common.{
  ℕ, ◌<◌, ◌≤◌, ◌≡◌, ◌⊎◌, refl, true, false, Option, none, some, List, [], ◌∷◌, set, replicate,
  arith,
}
use usc_cs.BitMap.{BitMap, find, clear, test, mark, num_clear}
use usc_cs.BitMap.Bits.{used, IsValid}
use usc_cs.BitMap.Counting.{clears}
use usc_cs.FileHeader.{FileHeader, sized, allocate, allocate_from, deallocate, deallocate_from}
use usc_cs.FileHeader.Allocation.{Allocated, allocate_lem, deallocate-allocate, allocate_overflows}

-- Sectors 0 and 2 of 40 are in use.
abbrev disk : BitMap
disk = record { num_bits = 40; num_words = 2; map = 5 ∷ 0 ∷ [] }

disk-IsValid : IsValid disk
disk-IsValid = record { words = refl; room = omega arith; fits = (omega arith, (omega arith, tt)) }

abbrev empty : FileHeader
empty = record { num_bytes = 0; num_sectors = 0; data_sectors = replicate 30 none }

-- A file of 200 bytes gets sectors 1 and 3.
abbrev two_sectors : FileHeader
two_sectors = record {
  num_bytes = 200;
  num_sectors = 2;
  data_sectors = some 1 ∷ some 3 ∷ replicate 28 none;
}

allocate_200 : allocate disk 200 empty ≡ some (true, record disk { map = 15 ∷ 0 ∷ [] }, two_sectors)
unfolding allocate allocate_from num_clear find mark test
allocate_200 = refl

deallocate_200 : deallocate (record disk { map = 15 ∷ 0 ∷ [] }) two_sectors ≡ some disk
unfolding deallocate deallocate_from clear test
deallocate_200 = refl

-- A sector that is not in use fails the ASSERT.
deallocate_twice : deallocate disk two_sectors ≡ none
unfolding deallocate deallocate_from clear test
deallocate_twice = refl

free_sectors : clears 40 0 disk ≡ 38
unfolding clears used usc_cs.Common.Bits.bit
free_sectors = refl

allocate_lem_example :
    ((clears 40 0 disk < 2) × (allocate disk 200 empty ≡ some (false, disk, sized 200 empty)))
    ⊎ ((2 ≤ clears 40 0 disk)
        × ((c : BitMap) × (after : FileHeader) × (allocate disk 200 empty ≡ some (true, c, after))
            × Allocated disk 200 c after))
allocate_lem_example = allocate_lem disk 200 empty disk-IsValid refl (omega arith)

deallocate-allocate_example :
    (c d : BitMap) × (after : FileHeader) × (allocate disk 200 empty ≡ some (true, c, after))
    × (deallocate c after ≡ some d)
    × IsValid d
    × (d.num_bits ≡ 40)
    × ((j : ℕ) → used d j ≡ used disk j)
deallocate-allocate_example =
    deallocate-allocate disk 200 empty disk-IsValid refl (omega arith) (omega (arith, free_sectors))

allocate_overflows_example : allocate disk 3841 empty ≡ none
allocate_overflows_example =
    allocate_overflows disk 3841 empty disk-IsValid refl (omega arith) (omega (arith, free_sectors))
