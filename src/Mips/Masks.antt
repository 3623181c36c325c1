-- ===== src/Mips/Masks.antt =====
-- The tests of code/machine/mipssim.cc on single bits, as comparisons and remainders.
use usc_cs.Common.{
  ℕ, zero, suc, ◌+◌, ◌/◌, ◌%◌, ◌^◌, ◌<◌, ◌≤◌, ◌≡◌, refl, not, ltb, leb, ◌==◌, arith,
}
use usc_cs.Common.Bits.{or_step}
use usc_cs.Common.Masks.{and-ones, and-shifted, and-power}
use usc_cs.Mips.Words.{sign_bit, has_sign}
use Prim.Native.Nat.{bit_and, bit_or}

pub has_sign_lem : (a : ℕ) → a < 2 ^ 32 → has_sign a ≡ leb sign_bit a
has_sign_lem a h = ground (arith, and-power 31 a)

pub is_odd : (a : ℕ) → not (bit_and a 1 == 0) ≡ (a % 2 == 1)
is_odd a = ground (arith, and-ones 1 a)

pub others_zero : (a : ℕ) → a < 2 ^ 32 → (bit_and a 4294967294 == 0) ≡ ltb a 2
others_zero a h = ground (arith, and-shifted 1 a 2147483647, and-ones 31 (a / 2))

or_right_zero : (n a : ℕ) → a ≤ n → bit_or a 0 ≡ a
or_right_zero n zero h = refl
or_right_zero zero (suc a) h = absurd (omega arith)
or_right_zero (suc n) (suc a) h =
    omega (arith, or_step (suc a) 0, or_right_zero n (suc a / 2) (omega arith))

pub or-one : (a : ℕ) → a % 2 ≡ 0 → bit_or a 1 ≡ a + 1
or-one a h = omega (arith, or_step a 1, or_right_zero (a / 2) (a / 2) (omega arith))
