-- ===== src/Mips/Decode.antt =====
-- Instruction::Decode (code/machine/mipssim.cc) with the tables of code/machine/mipssim.h.
pub mod Formats
pub mod Fields
use usc_cs.Common.{
  ℕ, ◌+◌, ◌*◌, ◌/◌, ◌%◌, ◌^◌, Bool, not, if◌then◌else◌, ltb, ◌==◌, List, [], ◌∷◌, Option, none,
  some, ◌>>=◌, get_elem?,
}
use Prim.Native.Nat.{bit_and, bit_or}

pub data OpCode : Type 0 where
  op_add op_addi op_addiu op_addu op_and op_andi op_beq op_bgez op_bgezal op_bgtz op_blez op_bltz
        op_bltzal op_bne op_div op_divu op_j op_jal op_jalr op_jr op_lb op_lbu op_lh op_lhu op_lui
        op_lw op_lwl op_lwr op_mfhi op_mflo op_mthi op_mtlo op_mult op_multu op_nor op_or op_ori
        op_rfe op_sb op_sh op_sll op_sllv op_slt op_slti op_sltiu op_sltu op_sra op_srav op_srl
        op_srlv op_sub op_subu op_sw op_swl op_swr op_xor op_xori op_syscall op_unimp op_res special
        bcond :
      OpCode

pub data Format : Type 0 where
  ifmt jfmt rfmt : Format

pub record OpInfo : Type 0 where
  pub op_code : OpCode
  pub format : Format

pub record Instruction : Type 0 where
  pub op_code : OpCode
  pub rs : ℕ
  pub rt : ℕ
  pub rd : ℕ
  pub extra : ℕ

abbrev immediate : OpCode → OpInfo
immediate op = record { op_code = op; format = ifmt }

abbrev pub op_table : List OpInfo
op_table =
    record { op_code = special; format = rfmt }
    ∷ immediate bcond
    ∷ record { op_code = op_j; format = jfmt }
    ∷ record { op_code = op_jal; format = jfmt }
    ∷ immediate op_beq
    ∷ immediate op_bne
    ∷ immediate op_blez
    ∷ immediate op_bgtz
    ∷ immediate op_addi
    ∷ immediate op_addiu
    ∷ immediate op_slti
    ∷ immediate op_sltiu
    ∷ immediate op_andi
    ∷ immediate op_ori
    ∷ immediate op_xori
    ∷ immediate op_lui
    ∷ immediate op_unimp
    ∷ immediate op_unimp
    ∷ immediate op_unimp
    ∷ immediate op_unimp
    ∷ immediate op_res
    ∷ immediate op_res
    ∷ immediate op_res
    ∷ immediate op_res
    ∷ immediate op_res
    ∷ immediate op_res
    ∷ immediate op_res
    ∷ immediate op_res
    ∷ immediate op_res
    ∷ immediate op_res
    ∷ immediate op_res
    ∷ immediate op_res
    ∷ immediate op_lb
    ∷ immediate op_lh
    ∷ immediate op_lwl
    ∷ immediate op_lw
    ∷ immediate op_lbu
    ∷ immediate op_lhu
    ∷ immediate op_lwr
    ∷ immediate op_res
    ∷ immediate op_sb
    ∷ immediate op_sh
    ∷ immediate op_swl
    ∷ immediate op_sw
    ∷ immediate op_res
    ∷ immediate op_res
    ∷ immediate op_swr
    ∷ immediate op_res
    ∷ immediate op_unimp
    ∷ immediate op_unimp
    ∷ immediate op_unimp
    ∷ immediate op_unimp
    ∷ immediate op_res
    ∷ immediate op_res
    ∷ immediate op_res
    ∷ immediate op_res
    ∷ immediate op_unimp
    ∷ immediate op_unimp
    ∷ immediate op_unimp
    ∷ immediate op_unimp
    ∷ immediate op_res
    ∷ immediate op_res
    ∷ immediate op_res
    ∷ immediate op_res
    ∷ []

abbrev pub special_table : List OpCode
special_table =
    op_sll ∷ op_res ∷ op_srl ∷ op_sra ∷ op_sllv ∷ op_res ∷ op_srlv ∷ op_srav ∷ op_jr ∷ op_jalr
    ∷ op_res ∷ op_res ∷ op_syscall ∷ op_unimp ∷ op_res ∷ op_res ∷ op_mfhi ∷ op_mthi ∷ op_mflo
    ∷ op_mtlo ∷ op_res ∷ op_res ∷ op_res ∷ op_res ∷ op_mult ∷ op_multu ∷ op_div ∷ op_divu ∷ op_res
    ∷ op_res ∷ op_res ∷ op_res ∷ op_add ∷ op_addu ∷ op_sub ∷ op_subu ∷ op_and ∷ op_or ∷ op_xor
    ∷ op_nor ∷ op_res ∷ op_res ∷ op_slt ∷ op_sltu ∷ op_res ∷ op_res ∷ op_res ∷ op_res ∷ op_res
    ∷ op_res ∷ op_res ∷ op_res ∷ op_res ∷ op_res ∷ op_res ∷ op_res ∷ op_res ∷ op_res ∷ op_res
    ∷ op_res ∷ op_res ∷ op_res ∷ op_res ∷ op_res ∷ []

-- `extra`, by the format of the instruction
abbrev pub extra_of : Format → ℕ → ℕ
extra_of ifmt value =
    let extra = bit_and value 65535 in
    if not (bit_and extra 32768 == 0) then bit_or extra 4294901760 else extra
extra_of rfmt value = bit_and (value / 2 ^ 6) 31
extra_of jfmt value = bit_and value 67108863

-- The operation of a BCOND instruction.
abbrev pub branch_code : ℕ → OpCode
branch_code i =
    if i == 0
    then op_bltz
    else if i == 65536
    then op_bgez
    else if i == 1048576
    then op_bltzal
    else if i == 1114112
    then op_bgezal
    else op_unimp

abbrev pub final_code : OpCode → ℕ → Option OpCode
final_code special value = get_elem? special_table (bit_and value 63)
final_code bcond value = some (branch_code (bit_and value 2031616))
final_code op value = some op

-- The fields that Decode assigns.
abbrev pub fields_of : OpInfo → ℕ → OpCode → Instruction
fields_of info value op = record {
  op_code = op;
  rs = bit_and (value / 2 ^ 21) 31;
  rt = bit_and (value / 2 ^ 16) 31;
  rd = bit_and (value / 2 ^ 11) 31;
  extra = extra_of info.format value;
}

-- Instruction::Decode; `none` is a read outside one of the tables.
unfoldable pub decode : ℕ → Option Instruction
decode value = do
  info ← get_elem? op_table (bit_and (value / 2 ^ 26) 63)
  op ← final_code info.op_code value
  some (fields_of info value op)
