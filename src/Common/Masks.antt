-- ===== src/Common/Masks.antt =====
-- Masks and disjoint bits as arithmetic: `w & mask`, `w | high`, `a ^ b`.
use Prim.Native.Nat.{
  ℕ, zero, suc, ◌+◌, ◌-◌, ◌*◌, ◌/◌, ◌%◌, ◌^◌, ◌≤◌, ◌<◌, min, bit_and, bit_or, bit_xor,
  bit_xor-bitwise, differ,
}
use native.Mathlib.Nat.{
  pow-suc, le_refl, mod-add-div, mod-lt, add-mul-mod_self_left, mod-eq_of_lt, div-div-eq-div-mul,
}
use mathlib.Core.Path.{◌≡◌, refl, ◌∙◌, sym, ap}
use native.Mathlib.Omega.{arith}
use package.usc_cs.Common.Bits.{and_step, or_step, digits_enough, and-zero_below}

pub half_mod : (w m : ℕ) → 0 < m → w % (m * 2) ≡ w / 2 % m * 2 + w % 2
half_mod w m pos =
    let r : w / 2 % m < m = mod-lt (w / 2) pos in
    let split : w ≡ (w / 2 % m * 2 + w % 2) + m * 2 * (w / 2 / m) =
      grind (arith, mod-add-div (w / 2) m) in
    ap (λ x. x % (m * 2)) split
    ∙ add-mul-mod_self_left (w / 2 % m * 2 + w % 2) (m * 2) (w / 2 / m)
    ∙ mod-eq_of_lt (omega arith)

pub power-pos : (k : ℕ) → 0 < 2 ^ k
power-pos zero = omega arith
power-pos (suc k) = omega (arith, pow-suc 2 k, power-pos k)

pub power_split : (n d : ℕ) → 2 ^ (n + d) ≡ 2 ^ n * 2 ^ d
power_split n zero = let whole : n + 0 ≡ n = omega arith in rw whole (omega arith)
power_split n (suc d) =
    let deeper : n + suc d ≡ suc (n + d) = omega arith in
    rw (deeper, pow-suc 2 (n + d), pow-suc 2 d, power_split n d) (grind arith)

-- The low bits.
pub and-ones : (k w : ℕ) → bit_and w (2 ^ k - 1) ≡ w % 2 ^ k
and-ones zero w = and-zero_below w w (le_refl w) ∙ omega arith
and-ones (suc k) w =
    let half : (2 ^ suc k - 1) / 2 ≡ 2 ^ k - 1 = omega (arith, pow-suc 2 k) in
    let step =
      and_step w (2 ^ suc k - 1)
      ∙ ap (λ x. bit_and (w / 2) x * 2 + min (w % 2) ((2 ^ suc k - 1) % 2)) half in
    let double : 2 ^ suc k ≡ 2 ^ k * 2 = omega (arith, pow-suc 2 k) in
    step
    ∙ rw (and-ones k (w / 2), double, half_mod w (2 ^ k) (power-pos k)) (omega (arith, power-pos k))

double_power : (m k : ℕ) → m * 2 ^ suc k ≡ m * 2 ^ k * 2
double_power m k = ap (λ x. m * x) (pow-suc 2 k) ∙ grind arith

-- A mask that ends in zeros.
pub and-shifted : (k w m : ℕ) → bit_and w (m * 2 ^ k) ≡ bit_and (w / 2 ^ k) m * 2 ^ k
and-shifted zero w m =
    let here : w / 2 ^ 0 ≡ w = omega arith in
    let whole : m * 2 ^ 0 ≡ m = omega arith in rw (here, whole) (omega arith)
and-shifted (suc k) w m =
    let double : m * 2 ^ suc k ≡ m * 2 ^ k * 2 = double_power m k in
    let half : m * 2 ^ k * 2 / 2 ≡ m * 2 ^ k = omega arith in
    let deep : w / 2 / 2 ^ k ≡ w / 2 ^ suc k =
      div-div-eq-div-mul w 2 (2 ^ k) ∙ ap (λ x. w / x) (omega (arith, pow-suc 2 k)) in
    let step : bit_and w (m * 2 ^ k * 2) ≡ bit_and (w / 2) (m * 2 ^ k) * 2 =
      and_step w (m * 2 ^ k * 2) ∙ rw half (omega arith) in
    ap (bit_and w) double
    ∙ step
    ∙ ap (λ x. x * 2) (and-shifted k (w / 2) m)
    ∙ rw deep (grind (arith, pow-suc 2 k))

pub and-power : (k w : ℕ) → bit_and w (2 ^ k) ≡ w / 2 ^ k % 2 * 2 ^ k
and-power k w =
    let whole : 2 ^ k ≡ 1 * 2 ^ k = omega arith in
    ap (bit_and w) whole ∙ and-shifted k w 1 ∙ ap (λ x. x * 2 ^ k) (and-ones 1 (w / 2 ^ k))

pub or-zero : (n b : ℕ) → b ≤ n → bit_or 0 b ≡ b
or-zero n zero h = refl
or-zero zero (suc b) h = absurd (omega arith)
or-zero (suc n) (suc b) h = omega (arith, or_step 0 (suc b), or-zero n (suc b / 2) (omega arith))

-- Bits that do not meet.
pub or-disjoint : (k a m : ℕ) → a < 2 ^ k → bit_or a (m * 2 ^ k) ≡ a + m * 2 ^ k
or-disjoint zero a m h =
    let nothing : a ≡ 0 = omega arith in
    let whole : m * 2 ^ 0 ≡ m = omega arith in
    rw (nothing, whole) (or-zero m m (le_refl m) ∙ omega arith)
or-disjoint (suc k) a m h =
    let double : m * 2 ^ suc k ≡ m * 2 ^ k * 2 = double_power m k in
    let half : m * 2 ^ k * 2 / 2 ≡ m * 2 ^ k = omega arith in
    rw double (
      or_step a (m * 2 ^ k * 2)
      ∙ rw (half, or-disjoint k (a / 2) m (omega (arith, pow-suc 2 k))) (omega arith))

differ_digits : (x y : ℕ) → x < 2 → y < 2 → differ x y ≡ (x + y) % 2
differ_digits zero y p q = omega arith
differ_digits (suc zero) zero p q = refl
differ_digits (suc zero) (suc zero) p q = refl
differ_digits (suc zero) (suc (suc y)) p q = absurd (omega arith)
differ_digits (suc (suc x)) y p q = absurd (omega arith)

xor_step : (a b : ℕ) → bit_xor a b ≡ bit_xor (a / 2) (b / 2) * 2 + (a % 2 + b % 2) % 2
xor_step zero b = simp bit_xor-bitwise (omega (arith, differ_digits 0 (b % 2)))
xor_step (suc a) b = simp bit_xor-bitwise (
    omega (
      arith,
      differ_digits (suc a % 2) (b % 2) (omega arith) (omega arith),
      digits_enough (λ y. y) differ a (suc a / 2) (suc a / 2) (b / 2) (omega arith) (le_refl _),
    ))

-- One bit of an exclusive or.
pub xor-bit : (k a b : ℕ) → bit_xor a b / 2 ^ k % 2 ≡ (a / 2 ^ k + b / 2 ^ k) % 2
xor-bit zero a b =
    let here : (x : ℕ) → x / 2 ^ 0 ≡ x = λ x. omega arith in
    rw (here (bit_xor a b), here a, here b) (omega (arith, xor_step a b))
xor-bit (suc k) a b =
    let deep : (w : ℕ) → w / 2 ^ suc k ≡ w / 2 / 2 ^ k =
      λ w. sym (div-div-eq-div-mul w 2 (2 ^ k) ∙ ap (λ x. w / x) (omega (arith, pow-suc 2 k))) in
    let half : bit_xor a b / 2 ≡ bit_xor (a / 2) (b / 2) = omega (arith, xor_step a b) in
    rw (deep (bit_xor a b), deep a, deep b, half) (xor-bit k (a / 2) (b / 2))

pub xor-lt : (n a b : ℕ) → a < 2 ^ n → b < 2 ^ n → bit_xor a b < 2 ^ n
xor-lt zero a b p q =
    let ea : a ≡ 0 = omega arith in let eb : b ≡ 0 = omega arith in rw (ea, eb) (omega arith)
xor-lt (suc n) a b p q = omega (
  arith,
  xor_step a b,
  pow-suc 2 n,
  xor-lt n (a / 2) (b / 2) (omega (arith, pow-suc 2 n)) (omega (arith, pow-suc 2 n)),
)
