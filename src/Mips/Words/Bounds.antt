-- ===== src/Mips/Words/Bounds.antt =====
-- The operations of code/machine/mipssim.cc on ints answer ints: patterns of 32 bits.
use usc_cs.Common.{
  ℕ, ◌+◌, ◌-◌, ◌*◌, ◌/◌, ◌^◌, ◌<◌, ◌≤◌, ◌≡◌, sym, ap, subst, ◌∙◌, Bool, true, false, Bool-cases,
  inl, inr, ltb, leb, arith,
}
use usc_cs.Common.Bits.{or-lt, and-le}
use usc_cs.Common.Masks.{xor-lt, power_split, power-pos}
use usc_cs.Mips.Words.{shift_right, with_sign, magnitude, sign_bit}
use Prim.Native.Nat.{bit_and, bit_or, bit_xor}
use native.Mathlib.Nat.{div-lt_iff_lt-mul, div-le_self, pow-le-pow_right, div-eq_of_lt}

pub and-word : (a b : ℕ) → a < 2 ^ 32 → bit_and a b < 2 ^ 32
and-word a b h = omega (arith, and-le a b)

pub or-word : (a b : ℕ) → a < 2 ^ 32 → b < 2 ^ 32 → bit_or a b < 2 ^ 32
or-word a b h k = or-lt 32 a b h k

pub xor-word : (a b : ℕ) → a < 2 ^ 32 → b < 2 ^ 32 → bit_xor a b < 2 ^ 32
xor-word a b h k = xor-lt 32 a b h k

-- The bits that a shift leaves.
shifted-lt : (a n : ℕ) → a < 2 ^ 32 → a / 2 ^ n < 2 ^ (32 - n)
shifted-lt a n h = elim (Bool-cases (leb n 32)) [
  | inl small ↦
      let whole : n + (32 - n) ≡ 32 = ground arith in
      let split : 2 ^ 32 ≡ 2 ^ n * 2 ^ (32 - n) =
        ap (λ k. 2 ^ k) (sym whole) ∙ power_split n (32 - n) in
      let swapped : 2 ^ 32 ≡ 2 ^ (32 - n) * 2 ^ n = split ∙ grind arith in
      (div-lt_iff_lt-mul (power-pos n)).1 (subst (λ x. a < x) swapped h)
  | inr big ↦
      let more : 32 ≤ n = ground arith in
      let above : 2 ^ 32 ≤ 2 ^ n = pow-le-pow_right (omega arith) more in
      let nothing : a / 2 ^ n ≡ 0 = div-eq_of_lt (omega arith) in rw nothing (power-pos (32 - n))
]

pub shift_right-word : (a n : ℕ) → a < 2 ^ 32 → shift_right a n < 2 ^ 32
shift_right-word a n h = elim (Bool-cases (ltb a sign_bit)) [
  | inl low ↦ rw low (omega (arith, div-le_self a (2 ^ n)))
  | inr high ↦
      let fewer : 32 - n ≤ 32 = omega arith in
      let rest : 2 ^ (32 - n) ≤ 2 ^ 32 = pow-le-pow_right (omega arith) fewer in
      rw high (omega (arith, shifted-lt a n h, rest))
]

pub with_sign-word : (b : Bool) (a : ℕ) → a < 2 ^ 32 → with_sign b a < 2 ^ 32
with_sign-word true a h = omega arith
with_sign-word false a h = h

pub magnitude-word : (a : ℕ) → a < 2 ^ 32 → magnitude a < 2 ^ 32
magnitude-word a h = ground arith
