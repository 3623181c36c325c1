-- ===== src/Mips/Execute/Overflow.antt =====
-- OP_ADD, OP_ADDI and OP_SUB of Machine::OneInstruction (code/machine/mipssim.cc) trap where the result
-- does not fit, and are exact otherwise. An int moved up by 2^31 is its value as a natural number.
use usc_cs.Common.{
  true, false, ℕ, ◌+◌, ◌*◌, ◌^◌, ◌<◌, ◌≤◌, ◌≡◌, ◌⊎◌, inl, inr, refl, ◌∙◌, Bool, not, ◌&&◌, leb,
  Option, if◌then◌else◌, arith,
}
use usc_cs.Common.Masks.{xor-bit, xor-lt}
use usc_cs.Mips.{Cpu, Outcome}
use usc_cs.Mips.Words.{plus, minus, biased, has_sign, sign_bit}
use usc_cs.Mips.Masks.{has_sign_lem}
use usc_cs.Mips.Multiply.{differ}
use usc_cs.Mips.Decode.{Instruction}
use usc_cs.Mips.Execute.{write, overflow, execute_add, execute_addi, execute_sub}
use Prim.Native.Nat.{bit_xor}

has_sign-xor :
    (a b : ℕ)
    → a < 2 ^ 32
    → b < 2 ^ 32
    → has_sign (bit_xor a b) ≡ differ (leb sign_bit a) (leb sign_bit b)
has_sign-xor a b h k =
    has_sign_lem (bit_xor a b) (xor-lt 32 a b h k)
    ∙ ground (arith, xor-bit 31 a b, xor-lt 32 a b h k)

-- The test of an addition says whether the sum fits.
add_test-fits :
    (a b : ℕ)
    → a < 2 ^ 32
    → b < 2 ^ 32
    → ((not (has_sign (bit_xor a b)) && has_sign (bit_xor a (plus a b)) ≡ false)
        × (biased (plus a b) + 2 ^ 31 ≡ biased a + biased b))
      ⊎ ((not (has_sign (bit_xor a b)) && has_sign (bit_xor a (plus a b)) ≡ true)
          × ((biased a + biased b < 2 ^ 31) ⊎ (3 * 2 ^ 31 ≤ biased a + biased b)))
add_test-fits a b h k =
    rw (has_sign-xor a b h k, has_sign-xor a (plus a b) h (omega arith)) (ground arith)

addi_test-fits :
    (a b : ℕ)
    → a < 2 ^ 32
    → b < 2 ^ 32
    → ((not (has_sign (bit_xor a b)) && has_sign (bit_xor b (plus a b)) ≡ false)
        × (biased (plus a b) + 2 ^ 31 ≡ biased a + biased b))
      ⊎ ((not (has_sign (bit_xor a b)) && has_sign (bit_xor b (plus a b)) ≡ true)
          × ((biased a + biased b < 2 ^ 31) ⊎ (3 * 2 ^ 31 ≤ biased a + biased b)))
addi_test-fits a b h k =
    rw (has_sign-xor a b h k, has_sign-xor b (plus a b) k (omega arith)) (ground arith)

sub_test-fits :
    (a b : ℕ)
    → a < 2 ^ 32
    → b < 2 ^ 32
    → ((has_sign (bit_xor a b) && has_sign (bit_xor a (minus a b)) ≡ false)
        × (biased (minus a b) + biased b ≡ biased a + 2 ^ 31))
      ⊎ ((has_sign (bit_xor a b) && has_sign (bit_xor a (minus a b)) ≡ true)
          × ((biased a + 2 ^ 31 < biased b) ⊎ (biased b + 2 ^ 31 ≤ biased a)))
sub_test-fits a b h k =
    rw (has_sign-xor a b h k, has_sign-xor a (minus a b) h (omega arith)) (ground arith)

-- The instruction writes its exact result, or traps since the result is out of range.
abbrev pub Checked : Option Outcome → Option Outcome → Cpu → Type 0 → Type 0 → Type 0
Checked run good c Exact OutOfRange = ((run ≡ good) × Exact) ⊎ ((run ≡ overflow c) × OutOfRange)

checked :
    (test : Bool) (good : Option Outcome) (c : Cpu) {Exact OutOfRange : Type 0}
    → ((test ≡ false) × Exact) ⊎ ((test ≡ true) × OutOfRange)
    → Checked (if test then overflow c else good) good c Exact OutOfRange
checked test good c (inl (e, exact)) = inl (rw e refl, exact)
checked test good c (inr (e, out)) = inr (rw e refl, out)

-- ADD, ADDI and SUB of two ints write the sum or the difference where it is one of the ints from -2^31
-- to 2^31 - 1, and raise OverflowException, writing nothing, where it is not.
pub execute_add_exact :
    (i : Instruction) (pc_after : ℕ) (c : Cpu)
    → let a = c.registers i.rs in
      let b = c.registers i.rt in
      a < 2 ^ 32
      → b < 2 ^ 32
      → i.extra < 2 ^ 32
      → Checked
          (execute_add i pc_after c)
          (write i.rd (plus a b) pc_after c)
          c
          (biased (plus a b) + 2 ^ 31 ≡ biased a + biased b)
          ((biased a + biased b < 2 ^ 31) ⊎ (3 * 2 ^ 31 ≤ biased a + biased b))
        × Checked
            (execute_addi i pc_after c)
            (write i.rt (plus a i.extra) pc_after c)
            c
            (biased (plus a i.extra) + 2 ^ 31 ≡ biased a + biased i.extra)
            ((biased a + biased i.extra < 2 ^ 31) ⊎ (3 * 2 ^ 31 ≤ biased a + biased i.extra))
        × Checked
            (execute_sub i pc_after c)
            (write i.rd (minus a b) pc_after c)
            c
            (biased (minus a b) + biased b ≡ biased a + 2 ^ 31)
            ((biased a + 2 ^ 31 < biased b) ⊎ (biased b + 2 ^ 31 ≤ biased a))
execute_add_exact i pc_after c h k l =
    let a = c.registers i.rs in
    let b = c.registers i.rt in
    (
      checked _ (write i.rd (plus a b) pc_after c) c (add_test-fits a b h k),
      checked _ (write i.rt (plus a i.extra) pc_after c) c (addi_test-fits a i.extra h l),
      checked _ (write i.rd (minus a b) pc_after c) c (sub_test-fits a b h k),
    )
