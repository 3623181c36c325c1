-- ===== src/Wire/Masks.antt =====
-- The masks of extractInt and compressInt (code/network/server.cc) as remainders.
use usc_cs.Common.{ℕ, ◌+◌, ◌*◌, ◌/◌, ◌%◌, ◌^◌, ◌≡◌, ◌∙◌, arith}
use usc_cs.Common.Bits.{and_step, and-zero_below}
use native.Mathlib.Nat.{le_refl}
use Prim.Native.Nat.{bit_and}

-- The last bit of a mask is a one or a zero.
and-odd : (w m : ℕ) → bit_and w (m * 2 + 1) ≡ bit_and (w / 2) m * 2 + w % 2
and-odd w m =
    let half : (m * 2 + 1) / 2 ≡ m = omega arith in and_step w (m * 2 + 1) ∙ rw half (omega arith)

and-even : (w m : ℕ) → bit_and w (m * 2) ≡ bit_and (w / 2) m * 2
and-even w m = let half : m * 2 / 2 ≡ m = omega arith in and_step w (m * 2) ∙ rw half (omega arith)

and-3 : (w : ℕ) → bit_and w 3 ≡ w % 4
and-3 w =
    omega
      (arith, and-odd w 1, and-odd (w / 2) 0, and-zero_below (w / 2 / 2) (w / 2 / 2) (le_refl _))

and-15 : (w : ℕ) → bit_and w 15 ≡ w % 16
and-15 w = omega (arith, and-odd w 7, and-odd (w / 2) 3, and-3 (w / 2 / 2))

pub and-255 : (w : ℕ) → bit_and w 255 ≡ w % 256
and-255 w = omega (
  arith,
  and-odd w 127,
  and-odd (w / 2) 63,
  and-odd (w / 2 / 2) 31,
  and-odd (w / 2 / 2 / 2) 15,
  and-15 (w / 2 / 2 / 2 / 2),
)

and-16 : (w m : ℕ) → bit_and w (m * 16) ≡ bit_and (w / 2 / 2 / 2 / 2) m * 16
and-16 w m =
    let doubled : m * 16 ≡ m * 2 * 2 * 2 * 2 = omega arith in
    rw doubled (
      omega (
        arith,
        and-even w (m * 2 * 2 * 2),
        and-even (w / 2) (m * 2 * 2),
        and-even (w / 2 / 2) (m * 2),
        and-even (w / 2 / 2 / 2) m,
      ))

-- A mask that ends in eight zeros.
and-256 : (w m : ℕ) → bit_and w (m * 256) ≡ bit_and (w / 256) m * 256
and-256 w m =
    let twice : m * 256 ≡ m * 16 * 16 = omega arith in
    let deep : w / 2 / 2 / 2 / 2 / 2 / 2 / 2 / 2 ≡ w / 256 = omega arith in
    rw (twice, ← deep) (omega (arith, and-16 w (m * 16), and-16 (w / 2 / 2 / 2 / 2) m))

pub and-65280 : (w : ℕ) → bit_and w 65280 ≡ w / 2 ^ 8 % 256 * 2 ^ 8
and-65280 w = omega (arith, and-256 w 255, and-255 (w / 256))

pub and-16711680 : (w : ℕ) → bit_and w 16711680 ≡ w / 2 ^ 16 % 256 * 2 ^ 16
and-16711680 w = omega (arith, and-256 w 65280, and-65280 (w / 256))

pub and-4278190080 : (w : ℕ) → bit_and w 4278190080 ≡ w / 2 ^ 24 % 256 * 2 ^ 24
and-4278190080 w = omega (arith, and-256 w 16711680, and-16711680 (w / 256))
