-- ===== src/BitMap/Lifetime.antt =====
-- The constructor of BitMap and its Resize (code/userprog/bitmap.cc).
use usc_cs.Common.{
  ℕ, zero, suc, ◌+◌, ◌*◌, ◌<◌, ◌≤◌, ◌≡◌, refl, inl, inr, false, ◌&&◌, none, some, List, ltb, leb,
  if◌then◌else◌, length, Option-cases, replicate, arith,
}
use usc_cs.BitMap.{BitMap, bits_in_word, div_round_up, clear, clear_range, new, resize, copy_words}
use usc_cs.BitMap.Bits.{used, IsValid, AllWords, clear_lem}

clear_range_lem :
    (rounds i : ℕ) (b : BitMap)
    → IsValid b
    → rounds + i ≡ b.num_bits
    → (c : BitMap) × (clear_range rounds i b ≡ some c)
      × IsValid c
      × (c.num_bits ≡ b.num_bits)
      × ((j : ℕ) → used c j ≡ (if leb i j && ltb j b.num_bits then false else used b j))
unfolding clear_range
clear_range_lem zero i b v e = (b, refl, v, refl, λ j. ground arith)
clear_range_lem (suc rounds) i b v e =
    let (d, run, sets) = clear_lem b i v (omega arith) in
    let bits = sets.bits in
    let (c, rest, valid, size, at) = clear_range_lem rounds (i + 1) d sets.valid (omega arith) in
    (c, rw run rest, valid, omega arith, λ j. ground (arith, at j, sets.at j))

-- The constructor fails no ASSERT, and afterwards every bit of the map is clear, whatever the words of
-- the new array held.
pub new_lem :
    (n : ℕ) (contents : List ℕ)
    → length contents ≡ div_round_up n bits_in_word
    → AllWords contents
    → (b : BitMap) × (new n contents ≡ some b)
      × IsValid b
      × (b.num_bits ≡ n)
      × ((i : ℕ) → i < n → used b i ≡ false)
unfolding new
new_lem n contents e h =
    let room : n ≤ div_round_up n bits_in_word * 32 = ground arith in
    let (c, run, valid, size, at) =
      clear_range_lem n 0 _ (record { words = e; room = room; fits = h }) (omega arith) in
    (c, run, valid, size, λ i small. ground (arith, at i))

clear_range-none : (rounds : ℕ) (b : BitMap) → 0 < rounds → clear_range rounds b.num_bits b ≡ none
unfolding clear_range clear
clear_range-none zero b h = elim h [ ]
clear_range-none (suc rounds) b h = ground arith

-- Resize never returns on a map that has a bit: its first Clear is of bit num_bits, which the
-- ASSERT of Clear refuses, if the copy before it has not left the array already.
pub resize_aborts : (b : BitMap) → 0 < b.num_bits → resize b ≡ none
unfolding resize
resize_aborts b h =
    elim (Option-cases (copy_words b.num_bits 0 b.map (replicate (b.num_words * 2) 0))) [
      | inl e ↦ rw e
      | inr (words, e) ↦ rw (e, clear_range-none b.num_bits b h)
    ]
