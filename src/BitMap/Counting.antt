-- ===== src/BitMap/Counting.antt =====
-- NumClear against Find (code/userprog/bitmap.cc).
use usc_cs.Common.{
  ℕ, zero, suc, ◌+◌, ◌-◌, ◌<◌, ◌≤◌, ◌≡◌, refl, ◌∙◌, ◌⊎◌, inl, inr, Bool, true, false, ◌&&◌, Option,
  none, some, ltb, leb, if◌then◌else◌, Option-cases, ap, arith,
}
use usc_cs.BitMap.{BitMap, find, num_clear, num_clear_from}
use usc_cs.BitMap.Bits.{used, IsValid, Sets, find_lem, test-used}

-- How many of the `rounds` bits from bit `i` on are clear.
unfoldable pub clears : ℕ → ℕ → BitMap → ℕ
clears zero i b = 0
clears (suc rounds) i b = (if used b i then 0 else 1) + clears rounds (i + 1) b

num_clear_from_lem :
    (rounds i count : ℕ) (b : BitMap)
    → rounds + i ≡ b.num_bits
    → num_clear_from rounds i count b ≡ some (count + clears rounds i b)
unfolding num_clear_from clears
num_clear_from_lem zero i count b e = ground arith
num_clear_from_lem (suc rounds) i count b e =
    rw (test-used b i (omega arith))
      (ground (arith, num_clear_from_lem rounds (i + 1) (if used b i then count else count + 1) b))

pub num_clear_lem : (b : BitMap) → num_clear b ≡ some (clears b.num_bits 0 b)
unfolding num_clear
num_clear_lem b = ground (arith, num_clear_from_lem b.num_bits 0 0 b (omega arith))

-- Bits outside the counted range do not change the count; inside, a bit counts for one.
pub clears-Sets :
    (rounds i k : ℕ) (s : Bool) (b c : BitMap)
    → Sets b k s c
    → clears rounds i c + (if leb i k && ltb k (i + rounds) then (if used b k then 0 else 1) else 0)
      ≡ clears rounds i b + (if leb i k && ltb k (i + rounds) then (if s then 0 else 1) else 0)
unfolding clears
clears-Sets zero i k s b c h = ground arith
clears-Sets (suc rounds) i k s b c h = ground (arith, h.at i, clears-Sets rounds (i + 1) k s b c h)

pub clears-eq-zero :
    (rounds i : ℕ) (b : BitMap)
    → ((j : ℕ) → i ≤ j → j < i + rounds → used b j ≡ true)
    → clears rounds i b ≡ 0
unfolding clears
clears-eq-zero zero i b h = refl
clears-eq-zero (suc rounds) i b h =
    rw (h i (omega arith) (omega arith)) (
      omega
        (arith, clears-eq-zero rounds (i + 1) b (λ j low high. h j (omega arith) (omega arith))))

-- NumClear and Find agree, and both return: Find answers -1 where NumClear counts 0, and changes
-- nothing then; otherwise it marks one bit that was clear, and NumClear counts one less.
pub find-num_clear :
    (b : BitMap)
    → IsValid b
    → (n : ℕ) × (c : BitMap) × (r : Option ℕ) × (num_clear b ≡ some n)
      × (find b ≡ some (c, r))
      × (((n ≡ 0) × (r ≡ none) × (c ≡ b))
          ⊎ ((i : ℕ) × (0 < n)
              × (r ≡ some i)
              × (used b i ≡ false)
              × Sets b i true c
              × (num_clear c ≡ some (n - 1))))
find-num_clear b v =
    let (c, r, run, found) = find_lem b v in
    (
      clears b.num_bits 0 b,
      c,
      r,
      num_clear_lem b,
      run,
      elim (Option-cases r) [
        | inl e ↦
            let (same, all) = found.full e in
            inl (clears-eq-zero b.num_bits 0 b (λ j low high. all j low (omega arith)), e, same)
        | inr (i, e) ↦
            let (small, free, before, sets) = found.got i e in
            let count = clears-Sets b.num_bits 0 i true b c sets in
            let bits = sets.bits in
            inr (i, ground arith, e, free, sets, num_clear_lem c ∙ ap some (rw bits (ground arith)))
      ],
    )
