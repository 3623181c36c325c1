-- ===== src/BitMap.antt =====
-- code/userprog/bitmap.cc: an array of bits in 32-bit words. An operation that returns `none` has
-- failed an ASSERT, or has touched memory outside its array; the program does not go on from there.
-- Bit numbers are natural numbers: every caller passes a count or an index tested to be at least 0.
pub mod Bits
pub mod Counting
pub mod Lifetime
mod Tests
use usc_cs.Common.{
  ℕ, zero, suc, ◌+◌, ◌-◌, ◌*◌, ◌/◌, ◌%◌, ◌^◌, Bool, true, false, not, Option, none, some, List, [],
  ◌∷◌, ltb, ◌==◌, if◌then◌else◌, ◌>>=◌, length, get_elem?, get_or, set, replicate,
}
use Prim.Native.Nat.{bit_and, bit_or}

abbrev pub bits_in_word : ℕ
bits_in_word = 32

pub record BitMap : Type 0 where
  pub num_bits : ℕ
  pub num_words : ℕ
  pub map : List ℕ

abbrev pub div_round_up : ℕ → ℕ → ℕ
div_round_up n s = n / s + (if ltb 0 (n % s) then 1 else 0)

abbrev word : BitMap → ℕ → ℕ
word b i = get_or b.map (i / bits_in_word) 0

unfoldable pub mark : BitMap → ℕ → Option BitMap
mark b which =
    if ltb which b.num_bits
    then some (record b {
      map = set b.map (which / bits_in_word) (bit_or (word b which) (2 ^ (which % bits_in_word)));
    })
    else none

unfoldable pub clear : BitMap → ℕ → Option BitMap
clear b which =
    if ltb which b.num_bits
    then some (record b {
      map =
          set b.map (which / bits_in_word)
            (bit_and (word b which) (2 ^ 32 - 1 - 2 ^ (which % bits_in_word)));
    })
    else none

unfoldable pub test : BitMap → ℕ → Option Bool
test b which =
    if ltb which b.num_bits
    then some (not (bit_and (word b which) (2 ^ (which % bits_in_word)) == 0))
    else none

-- `for (i = from; i < from + rounds; i++) Clear(i)`
clear_range : ℕ → ℕ → BitMap → Option BitMap
clear_range zero i b = some b
clear_range (suc rounds) i b = do b ← clear b i; clear_range rounds (i + 1) b

-- `contents` is what the memory of the new array holds.
pub new : ℕ → List ℕ → Option BitMap
unfolding clear_range
new nitems contents =
    clear_range nitems 0
      (record { num_bits = nitems; num_words = div_round_up nitems bits_in_word; map = contents })

-- The loop of Find from bit `i` on; the bit found, or `none` for -1.
find_from : ℕ → ℕ → BitMap → Option (BitMap × Option ℕ)
find_from zero i b = some (b, none)
find_from (suc rounds) i b =
    let rest = find_from rounds (i + 1) b in
    do t ← test b i; if t then rest else do b ← mark b i; some (b, some i)

unfoldable pub find : BitMap → Option (BitMap × Option ℕ)
unfolding find_from
find b = find_from b.num_bits 0 b

num_clear_from : ℕ → ℕ → ℕ → BitMap → Option ℕ
num_clear_from zero i count b = some count
num_clear_from (suc rounds) i count b = do
  t ← test b i
  num_clear_from rounds (i + 1) (if t then count else count + 1) b

unfoldable pub num_clear : BitMap → Option ℕ
unfolding num_clear_from
num_clear b = num_clear_from b.num_bits 0 0 b

-- `for (i = 0; i < rounds; i++) newMap[i] = map[i]`, with accesses outside an array refused.
copy_words : ℕ → ℕ → List ℕ → List ℕ → Option (List ℕ)
copy_words zero i old new_map = some new_map
copy_words (suc rounds) i old new_map = do
  w ← get_elem? old i
  if ltb i (length new_map) then copy_words rounds (i + 1) old (set new_map i w) else none

-- The words of `newMap` hold 0 here before they are written; the code leaves them as they come.
pub resize : BitMap → Option BitMap
unfolding copy_words clear_range
resize b = do
  copied ← copy_words b.num_bits 0 b.map (replicate (b.num_words * 2) 0)
  b ← clear_range b.num_bits b.num_bits b
  some (record {
    num_bits = b.num_bits * 2;
    num_words = div_round_up (b.num_bits * 2) bits_in_word;
    map = copied;
  })
