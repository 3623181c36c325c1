-- ===== src/FileHeader/Allocation.antt =====
-- Allocate and Deallocate of FileHeader (code/filesys/filehdr.cc) against the set of sectors in use.
use usc_cs.Common.{
  ℕ, zero, suc, ◌+◌, ◌/◌, ◌<◌, ◌≤◌, ◌≡◌, refl, ◌∙◌, sym, subst, ◌⊎◌, inl, inr, true, false,
  Bool-cases, Option-cases, Option, none, some, List, [], ◌∷◌, ltb, ◌==◌, length, length-set,
  get_elem?, set, has, arith,
}
use usc_cs.BitMap.{BitMap, div_round_up}
use usc_cs.BitMap.Bits.{used, IsValid, Finds, find_lem}
use usc_cs.BitMap.Counting.{clears, num_clear_lem}
use usc_cs.FileHeader.{
  FileHeader, sector_size, num_direct, with_sectors, sized, allocate_from, allocate,
  deallocate_from, deallocate, byte_to_sector, file_length,
}
use usc_cs.FileHeader.Sectors.{
  HoldsFrom, AllFree, AllUsed, Marks, allocate_from_lem, deallocate_from_lem,
}

HoldsFrom-at :
    (ns : List ℕ) (i j : ℕ) (sectors : List (Option ℕ))
    → HoldsFrom i ns sectors
    → i ≤ j
    → j < i + length ns
    → (n : ℕ) × (get_elem? sectors j ≡ some (some n)) × (has n ns ≡ true)
HoldsFrom-at [] i j sectors h low high = absurd (omega arith)
HoldsFrom-at (n ∷ ns) i j sectors (entry, h) low high = elim (Bool-cases (i == j)) [
  | inl now ↦ let here : j ≡ i = ground arith in (n, rw here entry, ground arith)
  | inr not_now ↦
      let (k, at, inside) = HoldsFrom-at ns (i + 1) j sectors h (ground arith) (omega arith) in
      (k, at, ground arith)
]

-- The header of a file of that size, with the sectors that it got.
pub record Allocated (b : BitMap) (size : ℕ) (c : BitMap) (h : FileHeader) : Type 0 where
  pub sectors : List ℕ
  pub file_size : file_length h ≡ size
  pub enough : h.num_sectors ≡ div_round_up size sector_size
  pub as_many : length sectors ≡ h.num_sectors
  pub held : HoldsFrom 0 sectors h.data_sectors
  pub marks : Marks b sectors c
  pub every_byte :
      (offset : ℕ)
      → offset < size
      → (n : ℕ) × (byte_to_sector offset h ≡ some (some n)) × (has n sectors ≡ true)

-- Where fewer sectors are free than the file needs, Allocate says so and leaves the map alone.
-- Otherwise the header gets that many different sectors, all free before, which are then marked and no
-- others; and each byte of the file lies in one of them. This is for files that fit into a header.
pub allocate_lem :
    (b : BitMap) (size : ℕ) (h : FileHeader)
    → IsValid b
    → length h.data_sectors ≡ num_direct
    → div_round_up size sector_size ≤ num_direct
    → ((clears b.num_bits 0 b < div_round_up size sector_size)
        × (allocate b size h ≡ some (false, b, sized size h)))
      ⊎ ((div_round_up size sector_size ≤ clears b.num_bits 0 b)
          × ((c : BitMap) × (after : FileHeader) × (allocate b size h ≡ some (true, c, after))
              × Allocated b size c after))
unfolding allocate
allocate_lem b size h v long fits =
    let k = div_round_up size sector_size in
    elim (Bool-cases (ltb (clears b.num_bits 0 b) k)) [
      | inl short ↦ inl (ground arith, rw (num_clear_lem b, short) refl)
      | inr not_short ↦
          let enough : k ≤ clears b.num_bits 0 b = ground arith in
          let (c, after, ns, run, many, holds, kept, marks) =
            allocate_from_lem k 0 b h.data_sectors v enough (omega arith) in
          inr (
            enough,
            (
              c,
              with_sectors after (sized size h),
              rw (num_clear_lem b, not_short) (rw run refl),
              record {
                sectors = ns;
                file_size = refl;
                enough = refl;
                as_many = many;
                held = holds;
                marks = marks;
                every_byte = λ offset small.
                    HoldsFrom-at ns 0 (offset / sector_size) after holds (omega arith)
                      (ground arith);
              },
            ),
          )
    ]

Marks-AllUsed : (b c : BitMap) (ns : List ℕ) → Marks b ns c → AllUsed ns c
Marks-AllUsed b c ns m = go ns m.free (λ j inside. inside)
  where
    go : (l : List ℕ) → AllFree l b → ((j : ℕ) → has j l ≡ true → has j ns ≡ true) → AllUsed l c
    go [] f inside = tt
    go (n ∷ l) (small, free, f) inside =
        let bits = m.bits in
        let at = m.at n in
        let first = inside n (ground arith) in
        (omega arith, ground arith, go l f λ j later. inside j (ground arith))

free_is-false :
    (ns : List ℕ) (b : BitMap) (j : ℕ) → AllFree ns b → has j ns ≡ true → used b j ≡ false
free_is-false [] b j f h = absurd (ground arith)
free_is-false (n ∷ ns) b j (small, free, f) h = elim (Bool-cases (has j ns)) [
  | inl later ↦ free_is-false ns b j f later
  | inr here ↦ let same : j ≡ n = ground arith in subst (λ i. used b i ≡ false) (sym same) free
]

-- Deallocate takes back what Allocate gave, without a failed ASSERT: the same sectors as before are in
-- use.
pub deallocate-allocate :
    (b : BitMap) (size : ℕ) (h : FileHeader)
    → IsValid b
    → length h.data_sectors ≡ num_direct
    → div_round_up size sector_size ≤ num_direct
    → div_round_up size sector_size ≤ clears b.num_bits 0 b
    → (c d : BitMap) × (after : FileHeader) × (allocate b size h ≡ some (true, c, after))
      × (deallocate c after ≡ some d)
      × IsValid d
      × (d.num_bits ≡ b.num_bits)
      × ((j : ℕ) → used d j ≡ used b j)
unfolding deallocate
deallocate-allocate b size h v long fits enough = elim (allocate_lem b size h v long fits) [
  | inl (short, _) ↦ absurd (omega arith)
  | inr (_, (c, after, run, got)) ↦
      let marks = got.marks in
      let ns = got.sectors in
      let many = got.as_many in
      let (d, freed, valid, bits, at) =
        deallocate_from_lem ns 0 c after.data_sectors marks.valid got.held marks.distinct
          (Marks-AllUsed b c ns marks) in
      (
        c,
        d,
        after,
        run,
        subst (λ n. deallocate_from n 0 c after.data_sectors ≡ some d) many freed,
        valid,
        bits ∙ marks.bits,
        λ j. elim (Bool-cases (has j ns)) [
          | inl inside ↦
              let free = free_is-false ns b j marks.free inside in ground (arith, at j, marks.at j)
          | inr outside ↦ ground (arith, at j, marks.at j)
        ],
      )
]

found-IsValid : (b c : BitMap) (r : Option ℕ) → IsValid b → Finds b 0 c r → IsValid c
found-IsValid b c r v found = elim (Option-cases r) [
  | inl e ↦ subst IsValid (sym (found.full e).0) v
  | inr (n, e) ↦ let (small, free, before, sets) = found.got n e in sets.valid
]

allocate_from-none :
    (rounds i : ℕ) (b : BitMap) (sectors : List (Option ℕ))
    → IsValid b
    → i ≤ length sectors
    → length sectors < i + rounds
    → allocate_from rounds i b sectors ≡ none
unfolding allocate_from
allocate_from-none zero i b sectors v low high = absurd (omega arith)
allocate_from-none (suc rounds) i b sectors v low high =
    let (c, r, run, found) = find_lem b v in
    elim (Bool-cases (ltb i (length sectors))) [
      | inr past ↦ rw (run, past) refl
      | inl inside ↦
          let same = length-set sectors i r in
          rw (run, inside)
            (allocate_from-none rounds (i + 1) c (set sectors i r) (found-IsValid b c r v found)
              (ground arith) (omega arith))
    ]

-- Allocate does not look at the size of the header: for a file with more sectors than it has entries it
-- writes past the end of dataSectors, if there are enough free sectors.
pub allocate_overflows :
    (b : BitMap) (size : ℕ) (h : FileHeader)
    → IsValid b
    → length h.data_sectors ≡ num_direct
    → num_direct < div_round_up size sector_size
    → div_round_up size sector_size ≤ clears b.num_bits 0 b
    → allocate b size h ≡ none
unfolding allocate
allocate_overflows b size h v long large enough =
    let room : ltb (clears b.num_bits 0 b) (div_round_up size sector_size) ≡ false = ground arith in
    rw (num_clear_lem b, room)
      (rw
        (allocate_from-none (div_round_up size sector_size) 0 b h.data_sectors v (omega arith)
          (omega arith))
        refl)
