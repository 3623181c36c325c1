-- ===== src/BitMap/Tests.antt =====
-- Small bit maps of code/userprog/bitmap.cc.
use usc_cs.Common.{◌≡◌, refl, true, some, [], ◌∷◌, arith}
use usc_cs.BitMap.{BitMap, find, mark, test}
use usc_cs.BitMap.Bits.{IsValid, Sets, mark_lem}

-- Bits 0 to 2 of 40 are marked.
abbrev forty : BitMap
forty = record { num_bits = 40; num_words = 2; map = 7 ∷ 0 ∷ [] }

forty-IsValid : IsValid forty
forty-IsValid = record { words = refl; room = omega arith; fits = (omega arith, (omega arith, tt)) }

mark_example : (c : BitMap) × (mark forty 33 ≡ some c) × Sets forty 33 true c
mark_example = mark_lem forty 33 forty-IsValid (omega arith)

-- Find answers the first clear bit, and then the next one.
find_test : find forty ≡ some (record forty { map = 15 ∷ 0 ∷ [] }, some 3)
unfolding find mark test
find_test = refl
