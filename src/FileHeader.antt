-- ===== src/FileHeader.antt =====
-- code/filesys/filehdr.cc: which sectors of the disk hold a file. An operation that returns `none` has
-- failed an ASSERT, or has touched memory outside the array dataSectors.
pub mod Sectors
pub mod Allocation
mod Tests
use usc_cs.Common.{
  ℕ, zero, suc, ◌+◌, ◌/◌, Bool, true, false, Option, none, some, List, ltb, if◌then◌else◌, ◌>>=◌,
  length, get_elem?, set,
}
use usc_cs.BitMap.{BitMap, div_round_up, find, clear, test, num_clear}

abbrev pub sector_size : ℕ
sector_size = 128

-- NumDirect: the entries that fit into a sector beside the two ints.
abbrev pub num_direct : ℕ
num_direct = 30

-- A sector number below 0, such as the -1 of Find, is `none`.
pub record FileHeader : Type 0 where
  pub num_bytes : ℕ
  pub num_sectors : ℕ
  pub data_sectors : List (Option ℕ)

abbrev pub with_sectors : List (Option ℕ) → FileHeader → FileHeader
with_sectors sectors h = record h { data_sectors = sectors }

-- `dataSectors[i] = sector;`
abbrev pub put_sector : ℕ → Option ℕ → List (Option ℕ) → Option (List (Option ℕ))
put_sector i sector sectors = if ltb i (length sectors) then some (set sectors i sector) else none

-- `for (int i = from; i < from + rounds; i++) dataSectors[i] = freeMap->Find();`
unfoldable pub allocate_from : ℕ → ℕ → BitMap → List (Option ℕ) → Option (BitMap × List (Option ℕ))
allocate_from zero i free_map sectors = some (free_map, sectors)
allocate_from (suc rounds) i free_map sectors = do
  (free_map, found) ← find free_map
  sectors ← put_sector i found sectors
  allocate_from rounds (i + 1) free_map sectors

abbrev pub allocate_sectors : BitMap → FileHeader → Option (Bool × BitMap × FileHeader)
allocate_sectors free_map h = do
  (free_map, sectors) ← allocate_from h.num_sectors 0 free_map h.data_sectors
  some (true, free_map, with_sectors sectors h)

abbrev pub sized : ℕ → FileHeader → FileHeader
sized file_size h = record h {
  num_bytes = file_size;
  num_sectors = div_round_up file_size sector_size;
}

-- FileHeader::Allocate
unfoldable pub allocate : BitMap → ℕ → FileHeader → Option (Bool × BitMap × FileHeader)
allocate free_map file_size h = do
  n ← num_clear free_map
  (if ltb n (div_round_up file_size sector_size)
      then some (false, free_map, sized file_size h)
      else allocate_sectors free_map (sized file_size h))

-- `ASSERT(freeMap->Test(...)); freeMap->Clear(...);`
abbrev pub give_back : BitMap → Option ℕ → Option BitMap
give_back free_map none = none
give_back free_map (some n) = do t ← test free_map n; if t then clear free_map n else none

unfoldable pub deallocate_from : ℕ → ℕ → BitMap → List (Option ℕ) → Option BitMap
deallocate_from zero i free_map sectors = some free_map
deallocate_from (suc rounds) i free_map sectors = do
  sector ← get_elem? sectors i
  free_map ← give_back free_map sector
  deallocate_from rounds (i + 1) free_map sectors

-- FileHeader::Deallocate
unfoldable pub deallocate : BitMap → FileHeader → Option BitMap
deallocate free_map h = deallocate_from h.num_sectors 0 free_map h.data_sectors

-- FileHeader::ByteToSector
abbrev pub byte_to_sector : ℕ → FileHeader → Option (Option ℕ)
byte_to_sector offset h = get_elem? h.data_sectors (offset / sector_size)

-- FileHeader::FileLength
abbrev pub file_length : FileHeader → ℕ
file_length h = h.num_bytes
