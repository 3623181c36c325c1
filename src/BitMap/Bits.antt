-- ===== src/BitMap/Bits.antt =====
-- Each operation of the bit map (code/userprog/bitmap.cc) against the set of its marked bits.
use usc_cs.Common.{
  ℕ, zero, suc, ◌+◌, ◌-◌, ◌*◌, ◌/◌, ◌%◌, ◌^◌, ◌<◌, ◌≤◌, ◌≡◌, refl, ◌∙◌, subst, inl, inr, Bool, true,
  false, Option, none, some, List, [], ◌∷◌, ltb, lt→ltb, ◌==◌, if◌then◌else◌, length, get_or, set,
  length-set, get_or-set, Bool-cases, arith,
}
use usc_cs.Common.Bits.{
  bit, bit-or, bit-and, bit-one_shl, bit-complement, and-one_shl, and-le, or-lt,
}
use Prim.Native.Nat.{bit_and}
use native.Mathlib.Nat.{pow-le-pow_right, one-le-pow}
use usc_cs.BitMap.{BitMap, mark, clear, test, find, find_from}

-- Bit `i` of the map, marked or not.
unfoldable pub used : BitMap → ℕ → Bool
used b i = bit (get_or b.map (i / 32) 0) (i % 32)

abbrev pub AllWords : List ℕ → Type 0
AllWords [] = Unit
AllWords (w ∷ ws) = (w < 2 ^ 32) × AllWords ws

-- The array has the words that its bits need, and each is a 32-bit word.
pub record IsValid (b : BitMap) : Type 0 where
  pub words : length b.map ≡ b.num_words
  pub room : b.num_bits ≤ b.num_words * 32
  pub fits : AllWords b.map

get_or-lt : (ws : List ℕ) (i : ℕ) → AllWords ws → get_or ws i 0 < 2 ^ 32
get_or-lt [] i h = omega arith
get_or-lt (w ∷ ws) zero h = h.0
get_or-lt (w ∷ ws) (suc i) h = get_or-lt ws i h.1

AllWords-set : (ws : List ℕ) (i w : ℕ) → AllWords ws → w < 2 ^ 32 → AllWords (set ws i w)
AllWords-set [] i w h k = tt
AllWords-set (x ∷ ws) zero w h k = (k, h.1)
AllWords-set (x ∷ ws) (suc i) w h k = (h.0, AllWords-set ws i w h.1 k)

shl-lt : (k : ℕ) → k < 32 → 2 ^ k < 2 ^ 32
shl-lt k h =
    let top : 2 ^ k ≤ 2 ^ 31 = pow-le-pow_right (omega arith) {j = 31} (omega arith) in omega arith

test_lem : (b : BitMap) (i : ℕ) → test b i ≡ (if ltb i b.num_bits then some (used b i) else none)
unfolding test used
test_lem b i =
    rw (and-one_shl (get_or b.map (i / 32) 0) (i % 32))
      (ground (arith, one-le-pow (i % 32) 2 (omega arith)))

-- `c` is `b` with bit `i` set to `v`.
pub record Sets (b : BitMap) (i : ℕ) (v : Bool) (c : BitMap) : Type 0 where
  pub valid : IsValid c
  pub bits : c.num_bits ≡ b.num_bits
  pub at : (j : ℕ) → used c j ≡ (if i == j then v else used b j)

module _ (b : BitMap) (i : ℕ) (v : IsValid b) (h : i < b.num_bits) where
  abbrev old_word : ℕ
  old_word = get_or b.map (i / 32) 0

  in_map : i / 32 < length b.map
  in_map = let room = v.room in let words = v.words in omega arith

  write-Sets :
      (w : ℕ) (s : Bool)
      → w < 2 ^ 32
      → ((k : ℕ) → k < 32 → bit w k ≡ (if i % 32 == k then s else bit old_word k))
      → Sets b i s (record b { map = set b.map (i / 32) w })
  unfolding used
  write-Sets w s small bits_of = record {
    valid = record {
      words = length-set b.map (i / 32) w ∙ v.words;
      room = v.room;
      fits = AllWords-set b.map (i / 32) w v.fits small;
    };
    bits = refl;
    at = λ j. rw (get_or-set b.map (i / 32) (j / 32) w 0 in_map) (ground (arith, bits_of (j % 32)));
  }

  pub mark_lem : (c : BitMap) × (mark b i ≡ some c) × Sets b i true c
  unfolding mark
  mark_lem = (
    _,
    rw (lt→ltb _ _ h),
    write-Sets _ true
        (or-lt 32 old_word (2 ^ (i % 32)) (get_or-lt b.map (i / 32) v.fits)
          (shl-lt (i % 32) (omega arith)))
        λ k hk. ground (arith, bit-or old_word (2 ^ (i % 32)) k, bit-one_shl (i % 32) k),
  )

  pub clear_lem : (c : BitMap) × (clear b i ≡ some c) × Sets b i false c
  unfolding clear
  clear_lem = (
    _,
    rw (lt→ltb _ _ h),
    write-Sets cleared false (omega (arith, and-le old_word mask, get_or-lt b.map (i / 32) v.fits))
        λ k hk. ground (
          arith,
          bit-and old_word mask k,
          bit-complement 32 (2 ^ (i % 32)) k (shl-lt (i % 32) (omega arith)) hk,
          bit-one_shl (i % 32) k,
        ),
  )
    where
      mask : ℕ
      mask = 2 ^ 32 - 1 - 2 ^ (i % 32)

      cleared : ℕ
      cleared = bit_and old_word mask

-- What Find answers: the first clear bit, now marked, or -1 where every bit is marked.
pub record Finds (b : BitMap) (from : ℕ) (c : BitMap) (r : Option ℕ) : Type 0 where
  pub full : r ≡ none → (c ≡ b) × ((j : ℕ) → from ≤ j → j < b.num_bits → used b j ≡ true)
  pub got :
      (i : ℕ)
      → r ≡ some i
      → (i < b.num_bits)
        × (used b i ≡ false)
        × ((j : ℕ) → from ≤ j → j < i → used b j ≡ true)
        × Sets b i true c

pub test-used : (b : BitMap) (i : ℕ) → i < b.num_bits → test b i ≡ some (used b i)
test-used b i h = rw (test_lem b i, lt→ltb _ _ h)

find_from_lem :
    (rounds i : ℕ) (b : BitMap)
    → IsValid b
    → rounds + i ≡ b.num_bits
    → (c : BitMap) × (r : Option ℕ) × (find_from rounds i b ≡ some (c, r)) × Finds b i c r
unfolding find_from
find_from_lem zero i b v e = (
  b,
  none,
  refl,
  record { full = λ _. (refl, λ j low high. absurd (omega arith)); got = λ k q. cc },
)
find_from_lem (suc rounds) i b v e = elim (Bool-cases (used b i)) [
  | inl marked ↦
      let (c, r, run, found) = find_from_lem rounds (i + 1) b v (omega arith) in
      (
        c,
        r,
        rw (test-used b i (omega arith), marked) run,
        record {
          full = λ q. ((found.full q).0, λ j low high. ground (arith, (found.full q).1 j));
          got = λ k q.
              let (small, free, before, sets) = found.got k q in
              (small, free, λ j low high. ground (arith, before j), sets);
        },
      )
  | inr free ↦
      let (c, run, sets) = mark_lem b i v (omega arith) in
      (
        c,
        some i,
        rw (test-used b i (omega arith), free, run) refl,
        record {
          full = λ q. cc;
          got = λ k q.
              let eq : i ≡ k = cc in
              subst
                (λ k.
                  (k < b.num_bits)
                  × (used b k ≡ false)
                  × ((j : ℕ) → i ≤ j → j < k → used b j ≡ true)
                  × Sets b k true c)
                eq (omega arith, free, λ j low high. absurd (omega arith), sets);
        },
      )
]

-- Find always returns; it hands out the first clear bit and marks that bit alone, and answers -1
-- without a change exactly where every bit is marked.
pub find_lem :
    (b : BitMap)
    → IsValid b
    → (c : BitMap) × (r : Option ℕ) × (find b ≡ some (c, r)) × Finds b 0 c r
unfolding find
find_lem b v = find_from_lem b.num_bits 0 b v (omega arith)
