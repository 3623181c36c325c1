-- ===== src/Common/Bits.antt =====
-- The bits of a machine word, with the laws of `|`, `&` and `~` that the bit map relies on.
use Prim.Native.Nat.{
  ℕ, zero, suc, ◌+◌, ◌-◌, ◌*◌, ◌/◌, ◌%◌, ◌^◌, ◌≤◌, ◌<◌, min, max, bit_and, bit_or, digits,
  bit_and-bitwise, bit_or-bitwise,
}
use native.Mathlib.Nat.{pow-suc, le_refl}
use mathlib.Core.Path.{◌≡◌, refl}
use mathlib.Core.Bool.{Bool, false, ◌&&◌, ◌||◌, not}
use native.Mathlib.Omega.{arith}
use package.usc_cs.Common.Tests.{◌==◌, if◌then◌else◌}

-- The fuel of the library's recursion on digits does not matter once it covers the number.
module _ (rest : ℕ → ℕ) (f : ℕ → ℕ → ℕ) where
  pub digits_enough : (n m a b : ℕ) → a ≤ n → a ≤ m → digits rest f n a b ≡ digits rest f m a b
  digits_enough zero zero a b p q = refl
  digits_enough zero (suc m) zero b p q = refl
  digits_enough zero (suc m) (suc a) b p q = absurd (omega arith)
  digits_enough (suc n) zero zero b p q = refl
  digits_enough (suc n) zero (suc a) b p q = absurd (omega arith)
  digits_enough (suc n) (suc m) zero b p q = refl
  digits_enough (suc n) (suc m) (suc a) b p q =
      rw (digits_enough n m (suc a / 2) (b / 2) (omega arith) (omega arith))

pub or_step : (a b : ℕ) → bit_or a b ≡ bit_or (a / 2) (b / 2) * 2 + max (a % 2) (b % 2)
or_step zero b = simp bit_or-bitwise (omega arith)
or_step (suc a) b = simp bit_or-bitwise (
    omega (
      arith,
      digits_enough (λ y. y) max a (suc a / 2) (suc a / 2) (b / 2) (omega arith) (le_refl _),
    ))

pub and_step : (a b : ℕ) → bit_and a b ≡ bit_and (a / 2) (b / 2) * 2 + min (a % 2) (b % 2)
and_step zero b = simp bit_and-bitwise (omega arith)
and_step (suc a) b = simp bit_and-bitwise (
    omega (
      arith,
      digits_enough (λ y. 0) min a (suc a / 2) (suc a / 2) (b / 2) (omega arith) (le_refl _),
    ))

-- Bit `i` of a word.
unfoldable pub bit : ℕ → ℕ → Bool
bit w zero = w % 2 == 1
bit w (suc i) = bit (w / 2) i

pub bit-or : (a b i : ℕ) → bit (bit_or a b) i ≡ (bit a i || bit b i)
unfolding bit
bit-or a b zero = ground (arith, or_step a b)
bit-or a b (suc i) =
    let half : bit_or a b / 2 ≡ bit_or (a / 2) (b / 2) = omega (arith, or_step a b) in
    rw half (bit-or (a / 2) (b / 2) i)

pub bit-and : (a b i : ℕ) → bit (bit_and a b) i ≡ (bit a i && bit b i)
unfolding bit
bit-and a b zero = ground (arith, and_step a b)
bit-and a b (suc i) =
    let half : bit_and a b / 2 ≡ bit_and (a / 2) (b / 2) = omega (arith, and_step a b) in
    rw half (bit-and (a / 2) (b / 2) i)

bit-zero : (i : ℕ) → bit 0 i ≡ false
unfolding bit
bit-zero zero = refl
bit-zero (suc i) = bit-zero i

-- `1 << k` has bit k and no other.
pub bit-one_shl : (k i : ℕ) → bit (2 ^ k) i ≡ (k == i)
unfolding bit
bit-one_shl zero zero = refl
bit-one_shl zero (suc i) = ground (arith, bit-zero i)
bit-one_shl (suc k) zero = ground (arith, pow-suc 2 k)
bit-one_shl (suc k) (suc i) =
    let half : 2 ^ suc k / 2 ≡ 2 ^ k = omega (arith, pow-suc 2 k) in
    rw half (ground (arith, bit-one_shl k i))

-- `~w` on n bits is 2^n - 1 - w.
pub bit-complement : (n w i : ℕ) → w < 2 ^ n → i < n → bit (2 ^ n - 1 - w) i ≡ not (bit w i)
unfolding bit
bit-complement zero w i small h = absurd (omega arith)
bit-complement (suc n) w zero small h = ground (arith, pow-suc 2 n)
bit-complement (suc n) w (suc i) small h =
    let half : (2 ^ suc n - 1 - w) / 2 ≡ 2 ^ n - 1 - w / 2 = omega (arith, pow-suc 2 n) in
    rw half (bit-complement n (w / 2) i (omega (arith, pow-suc 2 n)) (omega arith))

pub and-zero_below : (n a : ℕ) → a ≤ n → bit_and a 0 ≡ 0
and-zero_below zero zero h = refl
and-zero_below zero (suc a) h = absurd (omega arith)
and-zero_below (suc n) zero h = refl
and-zero_below (suc n) (suc a) h =
    omega (arith, and_step (suc a) 0, and-zero_below n (suc a / 2) (omega arith))

-- `w & (1 << k)` is 0 exactly where bit k is clear.
pub and-one_shl : (w k : ℕ) → bit_and w (2 ^ k) ≡ (if bit w k then 2 ^ k else 0)
unfolding bit
and-one_shl w zero = ground (arith, and_step w 1, and-zero_below (w / 2) (w / 2) (le_refl _))
and-one_shl w (suc k) =
    let half : 2 ^ suc k / 2 ≡ 2 ^ k = omega (arith, pow-suc 2 k) in
    let step : bit_and w (2 ^ suc k) ≡ bit_and (w / 2) (2 ^ k) * 2 =
      rw (← half) (omega (arith, and_step w (2 ^ suc k), pow-suc 2 k)) in
    ground (arith, step, and-one_shl (w / 2) k, pow-suc 2 k)

pub or-lt : (n a b : ℕ) → a < 2 ^ n → b < 2 ^ n → bit_or a b < 2 ^ n
or-lt zero a b p q =
    let ea : a ≡ 0 = omega arith in let eb : b ≡ 0 = omega arith in rw (ea, eb) (omega arith)
or-lt (suc n) a b p q = omega (
  arith,
  or_step a b,
  pow-suc 2 n,
  or-lt n (a / 2) (b / 2) (omega (arith, pow-suc 2 n)) (omega (arith, pow-suc 2 n)),
)

zero-and : (b : ℕ) → bit_and 0 b ≡ 0
zero-and b = bit_and-bitwise 0 b

and-le_below : (n a b : ℕ) → a ≤ n → bit_and a b ≤ a
and-le_below zero zero b h = omega (arith, zero-and b)
and-le_below zero (suc a) b h = absurd (omega arith)
and-le_below (suc n) zero b h = omega (arith, zero-and b)
and-le_below (suc n) (suc a) b h =
    omega (arith, and_step (suc a) b, and-le_below n (suc a / 2) (b / 2) (omega arith))

pub and-le : (a b : ℕ) → bit_and a b ≤ a
and-le a b = and-le_below a a b (le_refl a)
