-- ===== src/FileHeader/Sectors.antt =====
-- What the loops of FileHeader (code/filesys/filehdr.cc) do with the sectors of a file.
use usc_cs.Common.{
  ℕ, zero, suc, ◌+◌, ◌<◌, ◌≤◌, ◌≡◌, refl, ◌∙◌, ap, inl, inr, true, false, ◌&&◌, ◌||◌, not, Option,
  some, List, [], ◌∷◌, lt→ltb, Option-cases, length, length-set, get_elem?, get_elem?-set, set, has,
  arith,
}
use usc_cs.BitMap.{BitMap}
use usc_cs.BitMap.Bits.{used, IsValid, Sets, clear_lem, test-used, find_lem}
use usc_cs.BitMap.Counting.{clears, clears-Sets, clears-eq-zero}
use usc_cs.FileHeader.{allocate_from, deallocate_from}

-- The entries from `i` on hold these sectors.
abbrev pub HoldsFrom : ℕ → List ℕ → List (Option ℕ) → Type 0
HoldsFrom i [] sectors = Unit
HoldsFrom i (n ∷ ns) sectors = (get_elem? sectors i ≡ some (some n)) × HoldsFrom (i + 1) ns sectors

abbrev pub AllFree : List ℕ → BitMap → Type 0
AllFree [] b = Unit
AllFree (n ∷ ns) b = (n < b.num_bits) × (used b n ≡ false) × AllFree ns b

abbrev pub AllUsed : List ℕ → BitMap → Type 0
AllUsed [] b = Unit
AllUsed (n ∷ ns) b = (n < b.num_bits) × (used b n ≡ true) × AllUsed ns b

-- No number stands there twice.
abbrev pub Distinct : List ℕ → Type 0
Distinct [] = Unit
Distinct (n ∷ ns) = (has n ns ≡ false) × Distinct ns

-- `c` is `b` with these sectors, all free before, marked.
pub record Marks (b : BitMap) (ns : List ℕ) (c : BitMap) : Type 0 where
  pub valid : IsValid c
  pub bits : c.num_bits ≡ b.num_bits
  pub free : AllFree ns b
  pub distinct : Distinct ns
  pub at : (j : ℕ) → used c j ≡ (used b j || has j ns)

-- What is free after a bit was marked was free before, and is another one.
AllFree-before :
    (b c : BitMap) (n : ℕ) (ns : List ℕ)
    → Sets b n true c
    → AllFree ns c
    → AllFree ns b × (has n ns ≡ false)
AllFree-before b c n [] s f = (tt, refl)
AllFree-before b c n (m ∷ ns) s (small, free, f) =
    let (before, other) = AllFree-before b c n ns s f in
    let at = s.at m in let bits = s.bits in ((omega arith, ground arith, before), ground arith)

Marks-first :
    (b c d : BitMap) (n : ℕ) (ns : List ℕ)
    → n < b.num_bits
    → used b n ≡ false
    → Sets b n true c
    → Marks c ns d
    → Marks b (n ∷ ns) d
Marks-first b c d n ns small free s m =
    let (before, other) = AllFree-before b c n ns s m.free in
    record {
      valid = m.valid;
      bits = m.bits ∙ s.bits;
      free = (small, free, before);
      distinct = (other, m.distinct);
      at = λ j. ground (arith, m.at j, s.at j);
    }

-- As long as there are free sectors, the loop of Allocate fills the next entries with them.
pub allocate_from_lem :
    (rounds i : ℕ) (b : BitMap) (sectors : List (Option ℕ))
    → IsValid b
    → rounds ≤ clears b.num_bits 0 b
    → i + rounds ≤ length sectors
    → (c : BitMap) × (after : List (Option ℕ)) × (ns : List ℕ) × (allocate_from rounds i b sectors
        ≡ some (c, after))
      × (length ns ≡ rounds)
      × HoldsFrom i ns after
      × ((j : ℕ) → j < i → get_elem? after j ≡ get_elem? sectors j)
      × Marks b ns c
unfolding allocate_from
allocate_from_lem zero i b sectors v enough room = (
  b,
  sectors,
  [],
  refl,
  refl,
  tt,
  λ j low. refl,
  record { valid = v; bits = refl; free = tt; distinct = tt; at = λ j. ground arith },
)
allocate_from_lem (suc rounds) i b sectors v enough room =
    let (c, r, run, found) = find_lem b v in
    elim (Option-cases r) [
      | inl e ↦
          let none_free =
            clears-eq-zero b.num_bits 0 b λ j low high. (found.full e).1 j low (omega arith) in
          absurd (omega arith)
      | inr (n, e) ↦
          let (small, free, before, sets) = found.got n e in
          let bits = sets.bits in
          let count = clears-Sets b.num_bits 0 n true b c sets in
          let left : rounds ≤ clears c.num_bits 0 c = rw bits (ground arith) in
          let written = set sectors i (some n) in
          let fits : i < length sectors = omega arith in
          let (d, after, ns, rest, long, holds, kept, marks) =
            allocate_from_lem rounds (i + 1) c written sets.valid left
              (let same = length-set sectors i (some n) in omega arith) in
          (
            d,
            after,
            n ∷ ns,
            rw (run, e, lt→ltb _ _ fits) rest,
            ap suc long,
            (
              kept i (omega arith) ∙ (get_elem?-set sectors i i (some n) fits ∙ ground arith),
              holds,
            ),
            (λ j low.
                kept j (omega arith) ∙ (get_elem?-set sectors i j (some n) fits ∙ ground arith)),
            Marks-first b c d n ns small free sets marks,
          )
    ]

AllUsed-after :
    (b c : BitMap) (n : ℕ) (ns : List ℕ)
    → Sets b n false c
    → has n ns ≡ false
    → AllUsed ns b
    → AllUsed ns c
AllUsed-after b c n [] s other u = tt
AllUsed-after b c n (m ∷ ns) s other (small, marked, u) =
    let at = s.at m in
    let bits = s.bits in (omega arith, ground arith, AllUsed-after b c n ns s (ground arith) u)

-- The loop of Deallocate fails no ASSERT on different sectors that are all in use, and clears these alone.
pub deallocate_from_lem :
    (ns : List ℕ) (i : ℕ) (b : BitMap) (sectors : List (Option ℕ))
    → IsValid b
    → HoldsFrom i ns sectors
    → Distinct ns
    → AllUsed ns b
    → (c : BitMap) × (deallocate_from (length ns) i b sectors ≡ some c)
      × IsValid c
      × (c.num_bits ≡ b.num_bits)
      × ((j : ℕ) → used c j ≡ (used b j && not (has j ns)))
unfolding deallocate_from
deallocate_from_lem [] i b sectors v holds distinct u = (b, refl, v, refl, λ j. ground arith)
deallocate_from_lem (n ∷ ns) i b sectors v (entry, holds) (other, distinct) (small, marked, u) =
    let (c, run, sets) = clear_lem b n v small in
    let (d, rest, valid, bits, at) =
      deallocate_from_lem ns (i + 1) c sectors sets.valid holds distinct
        (AllUsed-after b c n ns sets other u) in
    (
      d,
      rw (entry, test-used b n small, marked, run) rest,
      valid,
      bits ∙ sets.bits,
      λ j. ground (arith, at j, sets.at j),
    )
