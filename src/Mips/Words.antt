-- ===== src/Mips/Words.antt =====
-- The operations on ints that code/machine/mipssim.cc uses, on patterns of 32 bits.
pub mod Bounds
use usc_cs.Common.{ℕ, ◌+◌, ◌-◌, ◌*◌, ◌/◌, ◌%◌, ◌^◌, Bool, not, if◌then◌else◌, ltb, ◌==◌}
use Prim.Native.Nat.{bit_and, bit_or, bit_xor}

-- SIGN_BIT
abbrev pub sign_bit : ℕ
sign_bit = 2147483648

abbrev pub plus : ℕ → ℕ → ℕ
plus a b = (a + b) % 2 ^ 32

abbrev pub minus : ℕ → ℕ → ℕ
minus a b = (a + (2 ^ 32 - b)) % 2 ^ 32

-- `-a`
abbrev pub negate : ℕ → ℕ
negate a = minus 0 a

-- `~a`
abbrev pub complement : ℕ → ℕ
complement a = 2 ^ 32 - 1 - a

-- `a << n`
abbrev pub shift_left : ℕ → ℕ → ℕ
shift_left a n = a * 2 ^ n % 2 ^ 32

-- `a >> n` on a signed int
abbrev pub shift_right : ℕ → ℕ → ℕ
shift_right a n = if ltb a sign_bit then a / 2 ^ n else a / 2 ^ n + (2 ^ 32 - 2 ^ (32 - n))

-- `a & SIGN_BIT`, as a condition
abbrev pub has_sign : ℕ → Bool
has_sign a = not (bit_and a sign_bit == 0)

-- The int moved up by 2^31, which keeps the order.
abbrev pub biased : ℕ → ℕ
biased a = plus a sign_bit

-- `a < b` on signed ints
abbrev pub less : ℕ → ℕ → Bool
less a b = ltb (biased a) (biased b)

-- IndexToAddr
abbrev pub index_to_addr : ℕ → ℕ
index_to_addr x = shift_left x 2

-- The absolute value as an unsigned int.
abbrev pub magnitude : ℕ → ℕ
magnitude a = if ltb a sign_bit then a else negate a

abbrev pub with_sign : Bool → ℕ → ℕ
with_sign negative a = if negative then negate a else a
