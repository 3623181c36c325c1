-- ===== src/Mips/Multiply/Product.antt =====
-- Mult (code/machine/mipssim.cc) computes the product of two words, signed or not.
use usc_cs.Common.{
  ℕ, zero, suc, ◌+◌, ◌-◌, ◌*◌, ◌/◌, ◌%◌, ◌^◌, ◌<◌, ◌≤◌, ◌≡◌, ◌⊎◌, refl, ◌∙◌, sym, ap, Bool, true,
  false, Bool-cases, inl, inr, ◌||◌, if◌then◌else◌, ltb, leb, ◌==◌, arith,
}
use usc_cs.Common.Masks.{half_mod, power-pos, power_split}
use usc_cs.Mips.Words.{sign_bit, plus, complement, shift_left, shift_right, has_sign}
use usc_cs.Mips.Masks.{has_sign_lem, is_odd, others_zero, or-one}
use usc_cs.Mips.Multiply.{
  Pair, add_pair, multiply_loop, negate_pair, is_negative, positive, differ, mult,
}
use Prim.Native.Nat.{bit_or}
use native.Mathlib.Nat.{pow-suc, mod-add-div, add-mul-mod_self_left, mod-eq_of_lt}

-- The number that a double word stands for.
abbrev pub double_word : Pair → ℕ
double_word (hi, lo) = hi * 2 ^ 32 + lo

-- The two words, each of 32 bits, of the number `n`, up to overflow of 64 bits.
pub record Holds (r : Pair) (n : ℕ) : Type 0 where
  pub hi_word : r.0 < 2 ^ 32
  pub lo_word : r.1 < 2 ^ 32
  pub number : double_word r ≡ n % 2 ^ 64

add_pair-Holds :
    (b_hi b_lo : ℕ) (r : Pair) (n b : ℕ)
    → Holds r n
    → Holds (b_hi, b_lo) b
    → Holds (add_pair b_hi b_lo r) (n + b)
add_pair-Holds b_hi b_lo (hi, lo) n b h k =
    let h₁ = h.hi_word in
    let h₂ = h.lo_word in
    let h₃ = h.number in
    let k₁ = k.hi_word in
    let k₂ = k.lo_word in
    let k₃ = k.number in
    elim (Bool-cases (ltb (plus lo b_lo) b_lo)) [
      | inl carry ↦
          rw carry (record { hi_word = omega arith; lo_word = omega arith; number = ground arith })
      | inr no_carry ↦
          rw no_carry
            (record { hi_word = omega arith; lo_word = omega arith; number = ground arith })
    ]

double-Holds :
    (b_hi b_lo b : ℕ)
    → Holds (b_hi, b_lo) b
    → Holds
        (
          if has_sign b_lo then bit_or (shift_left b_hi 1) 1 else shift_left b_hi 1,
          shift_left b_lo 1,
        )
        (b * 2)
double-Holds b_hi b_lo b k =
    let k₁ = k.hi_word in
    let k₂ = k.lo_word in
    let k₃ = k.number in
    let carry = or-one (shift_left b_hi 1) (omega arith) in
    rw (has_sign_lem b_lo k₂, carry)
      (elim (Bool-cases (leb sign_bit b_lo)) [
        | inl high ↦
            rw high (record { hi_word = omega arith; lo_word = omega arith; number = ground arith })
        | inr low ↦
            rw low (record { hi_word = omega arith; lo_word = omega arith; number = ground arith })
      ])

-- The rounds of a round of the loop: the next multiplier has the bits above the lowest.
next_bits : (n a : ℕ) → suc n ≤ 32 → a < 2 ^ 32 → shift_right a 1 % 2 ^ n ≡ a / 2 % 2 ^ n
next_bits n a fits h = elim (Bool-cases (ltb a sign_bit)) [
  | inl low ↦ rw low (omega arith)
  | inr high ↦
      let whole : n + (31 - n) ≡ 31 = omega arith in
      let multiple : 2147483648 ≡ 2 ^ n * 2 ^ (31 - n) =
        ap (λ k. 2 ^ k) (sym whole) ∙ power_split n (31 - n) in
      rw (high, multiple) (add-mul-mod_self_left (a / 2) (2 ^ n) (2 ^ (31 - n)))
]

scale : (n t x m : ℕ) → (n + t * (x % m)) % m ≡ (n + t * x) % m
scale n t x m =
    let split : n + t * x ≡ (n + t * (x % m)) + m * (t * (x / m)) =
      grind (arith, mod-add-div x m) in
    sym (ap (λ y. y % m) split ∙ add-mul-mod_self_left (n + t * (x % m)) m (t * (x / m)))

Holds-mod : (r : Pair) (n m : ℕ) → n % 2 ^ 64 ≡ m % 2 ^ 64 → Holds r n → Holds r m
Holds-mod r n m e h = record { hi_word = h.hi_word; lo_word = h.lo_word; number = h.number ∙ e }

loop-Holds :
    (rounds a b_hi b_lo n b : ℕ) (r : Pair)
    → rounds ≤ 32
    → a < 2 ^ 32
    → Holds (b_hi, b_lo) b
    → Holds r n
    → Holds (multiply_loop rounds a b_hi b_lo r) (n + a % 2 ^ rounds * b)
unfolding multiply_loop
loop-Holds zero a b_hi b_lo n b r fits h k v =
    let none_left : a % 2 ^ 0 ≡ 0 = omega arith in
    Holds-mod r n (n + a % 2 ^ 0 * b) (rw none_left (ap (λ x. x % 2 ^ 64) (omega arith))) v
loop-Holds (suc rounds) a b_hi b_lo n b r fits h k v =
    let double : 2 ^ suc rounds ≡ 2 ^ rounds * 2 = omega (arith, pow-suc 2 rounds) in
    let bits = half_mod a (2 ^ rounds) (power-pos rounds) in
    let a' = shift_right a 1 in
    let small : a' < 2 ^ 32 = ground arith in
    let c_hi = if has_sign b_lo then bit_or (shift_left b_hi 1) 1 else shift_left b_hi 1 in
    let more : (m : ℕ) (r' : Pair)
        → Holds r' m
        → Holds (multiply_loop rounds a' c_hi (shift_left b_lo 1) r')
            (m + a / 2 % 2 ^ rounds * (b * 2)) =
      λ m r' v'.
        Holds-mod (multiply_loop rounds a' c_hi (shift_left b_lo 1) r') _
          (m + a / 2 % 2 ^ rounds * (b * 2))
          (ap (λ t. (m + t * (b * 2)) % 2 ^ 64) (next_bits rounds a fits h))
          (loop-Holds rounds a' c_hi (shift_left b_lo 1) m (b * 2) r' (omega arith) small
            (double-Holds b_hi b_lo b k) v') in
    rw (is_odd a, others_zero a h)
      (elim (Bool-cases (a % 2 == 1)) [
        | inr even ↦
            let last : a % 2 ≡ 0 = ground arith in
            rw even (
              Holds-mod _ _ (n + a % 2 ^ suc rounds * b)
                (ap (λ x. x % 2 ^ 64) (rw (double, bits, last) (grind arith))) (more n r v))
        | inl odd ↦
            let last : a % 2 ≡ 1 = ground arith in
            let sum = add_pair-Holds b_hi b_lo r n b v k in
            elim (Bool-cases (ltb a 2)) [
              | inl one ↦
                  let a_one : a % 2 ^ suc rounds ≡ 1 =
                    let half : a / 2 ≡ 0 = ground arith in
                    rw (double, bits, half, mod-eq_of_lt (power-pos rounds), last) refl in
                  rw (odd, one)
                    (Holds-mod _ _ (n + a % 2 ^ suc rounds * b)
                      (ap (λ x. x % 2 ^ 64) (rw a_one (omega arith))) sum)
              | inr more_bits ↦
                  rw (odd, more_bits)
                    (Holds-mod _ _ (n + a % 2 ^ suc rounds * b)
                      (ap (λ x. x % 2 ^ 64) (rw (double, bits, last) (grind arith)))
                      (more (n + b) (add_pair b_hi b_lo r) sum))
            ]
      ])

-- The int as a number of 64 bits, with its sign carried up where it has one.
abbrev pub widen : Bool → ℕ → ℕ
widen signed a = if is_negative signed a then a + (2 ^ 64 - 2 ^ 32) else a

negate_pair-Holds :
    (r : Pair) (n m : ℕ) → Holds r n → (n + m) % 2 ^ 64 ≡ 0 → Holds (negate_pair r) m
negate_pair-Holds (hi, lo) n m h e =
    let h₁ = h.hi_word in
    let h₂ = h.lo_word in
    let h₃ = h.number in
    elim (Bool-cases (plus (complement lo) 1 == 0)) [
      | inl carry ↦
          rw carry (record { hi_word = omega arith; lo_word = omega arith; number = ground arith })
      | inr no_carry ↦
          rw no_carry
            (record { hi_word = omega arith; lo_word = omega arith; number = ground arith })
    ]

-- An operand `w` and its absolute value `p`.
abbrev Side : Bool → ℕ → ℕ → Type 0
Side negative w p = ((negative ≡ false) × (w ≡ p)) ⊎ ((negative ≡ true) × (w + p ≡ 2 ^ 64))

-- An operand and its absolute value.
sides :
    (signed : Bool) (a : ℕ)
    → a < 2 ^ 32
    → (positive signed a < 2 ^ 32)
      × Side (is_negative signed a) (widen signed a) (positive signed a)
sides signed a h = elim (Bool-cases (is_negative signed a)) [
  | inr same ↦ rw same (h, inl (refl, refl))
  | inl flipped ↦
      let high : has_sign a ≡ true = ground arith in
      let big : sign_bit ≤ a = ground (arith, has_sign_lem a h) in
      rw flipped (omega arith, inr (refl, omega arith))
]

share : (x y z m : ℕ) → y + z ≡ m → x * y + x * z ≡ x * m
share x y z m e = rw (← e) (grind arith)

widen_zero : (signed : Bool) → widen signed 0 ≡ 0
widen_zero true = refl
widen_zero false = refl

product_zero :
    (a b : ℕ) (signed : Bool) → (a == 0) || (b == 0) ≡ true → widen signed a * widen signed b ≡ 0
product_zero a b signed z = elim (Bool-cases (a == 0)) [
  | inl e ↦ let a_zero : a ≡ 0 = ground arith in rw (a_zero, widen_zero signed) (omega arith)
  | inr ne ↦ let b_zero : b ≡ 0 = ground arith in rw (b_zero, widen_zero signed) (omega arith)
]

-- The sign of the product.
with_sign-Holds :
    (na nb : Bool) (pa pb wa wb : ℕ) (r : Pair)
    → Side na wa pa
    → Side nb wb pb
    → Holds r (pa * pb)
    → Holds (if differ na nb then negate_pair r else r) (wa * wb)
with_sign-Holds na nb pa pb wa wb r a_side b_side v = elim a_side [
  | inl (sa, ea) ↦ elim b_side [
    | inl (sb, eb) ↦ rw (sa, sb) (Holds-mod r (pa * pb) (wa * wb) (rw (ea, eb) refl) v)
    | inr (sb, eb) ↦
        rw (sa, sb)
          (negate_pair-Holds r (pa * pb) (wa * wb) v (rw ea (omega (arith, share pa wb pb _ eb))))
  ]
  | inr (sa, ea) ↦ elim b_side [
    | inl (sb, eb) ↦
        rw (sa, sb)
          (negate_pair-Holds r (pa * pb) (wa * wb) v (rw eb (grind (arith, share pb wa pa _ ea))))
    | inr (sb, eb) ↦
        rw (sa, sb)
          (Holds-mod r (pa * pb) (wa * wb) (omega (arith, share wa wb pb _ eb, share pb wa pa _ ea))
            v)
  ]
]

-- Mult gives the two words of the 64-bit product of its operands, each taken as a signed int or as an
-- unsigned int.
pub mult-Holds :
    (a b : ℕ) (signed : Bool)
    → a < 2 ^ 32
    → b < 2 ^ 32
    → Holds (mult a b signed) (widen signed a * widen signed b)
unfolding mult
mult-Holds a b signed h k = elim (Bool-cases ((a == 0) || (b == 0))) [
  | inl zeros ↦
      rw (zeros, product_zero a b signed zeros)
        (record { hi_word = omega arith; lo_word = omega arith; number = refl })
  | inr nonzero ↦
      let (p, a_side) = sides signed a h in
      let (q, b_side) = sides signed b k in
      let start : Holds (0, 0) 0 = record {
        hi_word = omega arith;
        lo_word = omega arith;
        number = refl;
      } in
      let factor : Holds (0, positive signed b) (positive signed b) = record {
        hi_word = omega arith;
        lo_word = q;
        number = omega arith;
      } in
      let all =
        loop-Holds 32 (positive signed a) 0 (positive signed b) 0 (positive signed b) (0, 0)
          (omega arith) p factor start in
      rw nonzero (
        with_sign-Holds _ _ _ _ _ _ _ a_side b_side
          (Holds-mod _ _ _ (ap (λ x. x % 2 ^ 64) (rw (mod-eq_of_lt p) (omega arith))) all))
]
