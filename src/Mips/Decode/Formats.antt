-- ===== src/Mips/Decode/Formats.antt =====
-- Instruction::Decode (code/machine/mipssim.cc) takes apart what an assembler puts together.
use usc_cs.Common.{
  ℕ, ◌+◌, ◌-◌, ◌*◌, ◌/◌, ◌%◌, ◌^◌, ◌<◌, ◌≡◌, refl, ◌∙◌, ap, ◌==◌, ltb, if◌then◌else◌, Bool-cases,
  inl, inr, Option, none, some, ◌>>=◌, get_elem?, arith,
}
use usc_cs.Common.Masks.{and-ones, and-shifted, and-power, or-disjoint}
use usc_cs.Mips.Decode.{
  OpCode, OpInfo, Format, ifmt, jfmt, rfmt, special, bcond, op_bltz, op_bgez, op_bltzal, op_bgezal,
  op_unimp, Instruction, fields_of, op_table, special_table, extra_of, branch_code, final_code,
  decode,
}
use Prim.Native.Nat.{bit_and, bit_or}

-- The six fields of an instruction word.
pub record Fields : Type 0 where
  pub op : ℕ
  pub rs : ℕ
  pub rt : ℕ
  pub rd : ℕ
  pub shamt : ℕ
  pub funct : ℕ

pub record Fit (f : Fields) : Type 0 where
  pub op_bits : f.op < 64
  pub rs_bits : f.rs < 32
  pub rt_bits : f.rt < 32
  pub rd_bits : f.rd < 32
  pub shamt_bits : f.shamt < 32
  pub funct_bits : f.funct < 64

-- The low 16 bits.
abbrev pub half_word : Fields → ℕ
half_word f = f.rd * 2 ^ 11 + f.shamt * 2 ^ 6 + f.funct

-- The low 26 bits.
abbrev pub target : Fields → ℕ
target f = f.rs * 2 ^ 21 + f.rt * 2 ^ 16 + half_word f

abbrev pub assemble : Fields → ℕ
assemble f = f.op * 2 ^ 26 + target f

-- A number of 16 bits as an int.
abbrev pub signed_half : ℕ → ℕ
signed_half n = if ltb n (2 ^ 15) then n else n + (2 ^ 32 - 2 ^ 16)

abbrev pub operand : Format → Fields → ℕ
operand ifmt f = signed_half (half_word f)
operand jfmt f = target f
operand rfmt f = f.shamt

abbrev pub branch_on : ℕ → OpCode
branch_on rt =
    if rt == 0
    then op_bltz
    else if rt == 1
    then op_bgez
    else if rt == 16
    then op_bltzal
    else if rt == 17
    then op_bgezal
    else op_unimp

abbrev pub code_of : OpCode → Fields → Option OpCode
code_of special f = get_elem? special_table f.funct
code_of bcond f = some (branch_on f.rt)
code_of op f = some op

abbrev pub instruction_of : OpInfo → Fields → OpCode → Instruction
instruction_of info f op = record {
  op_code = op;
  rs = f.rs;
  rt = f.rt;
  rd = f.rd;
  extra = operand info.format f;
}

-- The instruction that the fields stand for.
abbrev pub meaning : Fields → Option Instruction
meaning f = do
  info ← get_elem? op_table f.op
  op ← code_of info.op_code f
  some (instruction_of info f op)

module _ (f : Fields) (fit : Fit f) where
  branch_code-on : branch_code (f.rt * 2 ^ 16) ≡ branch_on f.rt
  branch_code-on = ground arith

  final_code-of : (op : OpCode) → final_code op (assemble f) ≡ code_of op f
  final_code-of special =
      let low : bit_and (assemble f) 63 ≡ f.funct = and-ones 6 (assemble f) ∙ omega arith in
      ap (get_elem? special_table) low
  final_code-of bcond =
      let low : bit_and (assemble f) 2031616 ≡ f.rt * 2 ^ 16 =
        and-shifted 16 (assemble f) 31 ∙ omega (arith, and-ones 5 (assemble f / 2 ^ 16)) in
      ap some (ap branch_code low ∙ branch_code-on)
  final_code-of op = refl

  extra_of-operand : (format : Format) → extra_of format (assemble f) ≡ operand format f
  extra_of-operand ifmt =
      let low : bit_and (assemble f) 65535 ≡ half_word f = and-ones 16 (assemble f) ∙ omega arith in
      let top = and-power 15 (half_word f) in
      let filled : bit_or (half_word f) 4294901760 ≡ half_word f + 4294901760 =
        or-disjoint 16 (half_word f) 65535 (omega arith) in
      rw (low, filled)
        (elim (Bool-cases (ltb (half_word f) (2 ^ 15))) [
          | inl small ↦
              let clear : bit_and (half_word f) 32768 ≡ 0 = ground arith in rw (small, clear) refl
          | inr big ↦
              let set_bit : bit_and (half_word f) 32768 ≡ 32768 = ground arith in
              rw (big, set_bit) refl
        ])
  extra_of-operand rfmt = and-ones 5 (assemble f / 2 ^ 6) ∙ omega arith
  extra_of-operand jfmt = and-ones 26 (assemble f) ∙ omega arith

  register : (n r : ℕ) → assemble f / 2 ^ n % 32 ≡ r → bit_and (assemble f / 2 ^ n) 31 ≡ r
  register n r e = and-ones 5 (assemble f / 2 ^ n) ∙ e

  -- Decoding the word of six fields, each within its bits, gives the operation that the tables name for
  -- the fields, the three registers, and the operand of the format: 16 bits with their sign, the 5 bits
  -- of a shift, or the 26 bits of a jump.
  pub decode-assemble : decode (assemble f) ≡ meaning f
  unfolding decode
  decode-assemble =
      let op : bit_and (assemble f / 2 ^ 26) 63 ≡ f.op =
        and-ones 6 (assemble f / 2 ^ 26) ∙ omega arith in
      rw op (with_info (get_elem? op_table f.op))
    where
      with_info :
          (o : Option OpInfo)
          → (do
            info ← o
            op ← final_code info.op_code (assemble f)
            some (fields_of info (assemble f) op))
            ≡ (do info ← o; op ← code_of info.op_code f; some (instruction_of info f op))
      with_info none = refl
      with_info (some info) =
          rw
            (
              final_code-of info.op_code,
              extra_of-operand info.format,
              register 21 f.rs (omega arith),
              register 16 f.rt (omega arith),
              register 11 f.rd (omega arith),
            )
            refl
