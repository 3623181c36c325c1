-- ===== src/Mips/Execute/Alike.antt =====
-- Instructions of Machine::OneInstruction (code/machine/mipssim.cc) that do what another one does.
use usc_cs.Common.{
  ℕ, zero, suc, ◌+◌, ◌-◌, ◌/◌, ◌%◌, ◌^◌, ◌<◌, ◌≡◌, ◌≤◌, refl, ◌∙◌, ap, true, false, ltb, arith,
}
use native.Mathlib.Nat.{pow-le-pow_right}
use usc_cs.Mips.Words.{sign_bit, shift_right}
use usc_cs.Common.Bits.{or_step}
use usc_cs.Common.Masks.{or-zero, and-ones}
use usc_cs.Mips.{Cpu}
use usc_cs.Mips.Decode.{Instruction, OpCode, op_srl, op_srlv, op_or}
use usc_cs.Mips.Execute.{execute, write}
use Prim.Native.Nat.{bit_or}

or_same : (n a : ℕ) → a ≤ n → bit_or a a ≡ a
or_same n zero h = or-zero 0 0 (omega arith)
or_same zero (suc a) h = absurd (omega arith)
or_same (suc n) (suc a) h =
    omega (arith, or_step (suc a) (suc a), or_same n (suc a / 2) (omega arith))

-- The word that arrives in the register `rd` is that of a shift by `n` which copies the sign in: a
-- negative int stays negative, and another one is divided by 2 ^ n.
abbrev pub CopiesSign : OpCode → ℕ → Instruction → ℕ → Cpu → Type 0
CopiesSign op n i pc_after c =
    let a = c.registers i.rt in
    (2 ^ 31 ≤ a
      → (v : ℕ) × (execute op i pc_after c ≡ write i.rd v pc_after c)
        × (v ≡ a / 2 ^ n + (2 ^ 32 - 2 ^ (32 - n)))
        × (2 ^ 31 ≤ v))
    × (a < 2 ^ 31 → execute op i pc_after c ≡ write i.rd (a / 2 ^ n) pc_after c)

stays_negative : (a n : ℕ) → 2 ^ 31 ≤ a → 2 ^ 31 ≤ a / 2 ^ n + (2 ^ 32 - 2 ^ (32 - n))
stays_negative a zero h = omega arith
stays_negative a (suc n) h =
    let small : 2 ^ (32 - suc n) ≤ 2 ^ 31 = pow-le-pow_right (omega arith) {j = 31} (omega arith) in
    omega arith

copies_sign :
    (op : OpCode) (n : ℕ) (i : Instruction) (pc_after : ℕ) (c : Cpu)
    → execute op i pc_after c ≡ write i.rd (shift_right (c.registers i.rt) n) pc_after c
    → CopiesSign op n i pc_after c
copies_sign op n i pc_after c run = (
  λ negative.
      let past : ltb (c.registers i.rt) sign_bit ≡ false = ground arith in
      (
        c.registers i.rt / 2 ^ n + (2 ^ 32 - 2 ^ (32 - n)),
        run ∙ rw past refl,
        refl,
        stays_negative (c.registers i.rt) n negative,
      ),
  λ positive.
      let below : ltb (c.registers i.rt) sign_bit ≡ true = ground arith in run ∙ rw below refl,
)

-- The logical shifts SRL and SRLV copy the sign in, by the shift amount of the instruction or by the
-- low five bits of a register: a negative int stays negative. And OR copies its first operand,
-- whatever the second one is.
pub execute_alike :
    (i : Instruction) (pc_after : ℕ) (c : Cpu)
    → CopiesSign op_srl i.extra i pc_after c
      × CopiesSign op_srlv (c.registers i.rs % 32) i pc_after c
      × (execute op_or i pc_after c ≡ write i.rd (c.registers i.rs) pc_after c)
unfolding execute
execute_alike i pc_after c =
    let a = c.registers i.rs in
    (
      copies_sign op_srl i.extra i pc_after c refl,
      copies_sign op_srlv (a % 32) i pc_after c
          (ap (λ n. write i.rd (shift_right (c.registers i.rt) n) pc_after c) (and-ones 5 a)),
      ap (λ v. write i.rd v pc_after c) (or_same a a (omega arith)),
    )
