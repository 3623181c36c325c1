-- ===== src/Mips/Multiply.antt =====
-- Mult (code/machine/mipssim.cc): the double-length product of two ints.
pub mod Product
use usc_cs.Common.{
  ℕ, zero, suc, ◌+◌, ◌-◌, ◌*◌, ◌/◌, ◌%◌, ◌^◌, Bool, true, false, not, ◌&&◌, ◌||◌, if◌then◌else◌,
  ltb, ◌==◌,
}
use usc_cs.Mips.Words.{sign_bit, plus, negate, complement, shift_left, shift_right, has_sign}
use Prim.Native.Nat.{bit_and, bit_or}

-- hi and lo
abbrev pub Pair : Type 0
Pair = ℕ × ℕ

-- `lo += bLo; if (lo < bLo) hi += 1; hi += bHi;`
abbrev pub add_pair : ℕ → ℕ → Pair → Pair
add_pair b_hi b_lo (hi, lo) =
    let lo = plus lo b_lo in let hi = if ltb lo b_lo then plus hi 1 else hi in (plus hi b_hi, lo)

-- The loop, with `rounds` rounds left; the break ends it where no bit of `a` is left.
unfoldable pub multiply_loop : ℕ → ℕ → ℕ → ℕ → Pair → Pair
multiply_loop zero a b_hi b_lo r = r
multiply_loop (suc rounds) a b_hi b_lo r =
    let odd = not (bit_and a 1 == 0) in
    let r = if odd then add_pair b_hi b_lo r else r in
    let b_hi = shift_left b_hi 1 in
    let b_hi = if has_sign b_lo then bit_or b_hi 1 else b_hi in
    let rest = multiply_loop rounds (shift_right a 1) b_hi (shift_left b_lo 1) r in
    if odd && (bit_and a 4294967294 == 0) then r else rest

-- The two's complement of the double-word result.
abbrev pub negate_pair : Pair → Pair
negate_pair (hi, lo) =
    let hi = complement hi in
    let lo = plus (complement lo) 1 in if lo == 0 then (plus hi 1, lo) else (hi, lo)

-- `a < 0` after the test of `signedArith`, and the operand made positive
abbrev pub is_negative : Bool → ℕ → Bool
is_negative signed a = signed && has_sign a

abbrev pub positive : Bool → ℕ → ℕ
positive signed a = if is_negative signed a then negate a else a

abbrev pub differ : Bool → Bool → Bool
differ true b = not b
differ false b = b

-- Mult
unfoldable pub mult : ℕ → ℕ → Bool → Pair
mult a b signed =
    let r = multiply_loop 32 (positive signed a) 0 (positive signed b) (0, 0) in
    let negative = differ (is_negative signed a) (is_negative signed b) in
    if (a == 0) || (b == 0) then (0, 0) else if negative then negate_pair r else r
