-- ===== src/Mips/Execute.antt =====
-- Machine::OneInstruction (code/machine/mipssim.cc): one instruction of a user program. `none` is an
-- ASSERT that fails, or a division that the host refuses.
mod Transfers
pub mod Running
pub mod Steps
pub mod Transitions
pub mod Invariant
pub mod Precise
pub mod Overflow
pub mod Alike
use usc_cs.Common.{
  ℕ, ◌+◌, ◌-◌, ◌*◌, ◌/◌, ◌%◌, ◌^◌, Bool, true, false, not, ◌&&◌, ◌||◌, if◌then◌else◌, ltb, ◌==◌,
  Option, none, some, assert, ◌>>=◌,
}
use usc_cs.Memory.{
  Machine, ExceptionType, overflow_exception, syscall_exception, illegal_instr_exception, Access,
  raised, done, read_mem,
}
use usc_cs.Mips.{
  Cpu, Outcome, set, raise_exception, complete, r31, hi_reg, lo_reg, pc_reg, next_pc_reg,
}
use usc_cs.Mips.Words.{
  plus, minus, negate, complement, shift_left, shift_right, has_sign, less, index_to_addr, sign_bit,
  magnitude, with_sign,
}
use usc_cs.Mips.Decode.{
  OpCode, Instruction, decode, op_add, op_addi, op_addiu, op_addu, op_and, op_andi, op_beq, op_bgez,
  op_bgezal, op_bgtz, op_blez, op_bltz, op_bltzal, op_bne, op_div, op_divu, op_j, op_jal, op_jalr,
  op_jr, op_lb, op_lbu, op_lh, op_lhu, op_lui, op_lw, op_lwl, op_lwr, op_mfhi, op_mflo, op_mthi,
  op_mtlo, op_mult, op_multu, op_nor, op_or, op_ori, op_rfe, op_sb, op_sh, op_sll, op_sllv, op_slt,
  op_slti, op_sltiu, op_sltu, op_sra, op_srav, op_srl, op_srlv, op_sub, op_subu, op_sw, op_swl,
  op_swr, op_xor, op_xori, op_syscall, op_unimp, op_res,
}
use usc_cs.Mips.Multiply.{Pair, mult, differ}
use Prim.Native.Nat.{bit_and, bit_or, bit_xor}
pub use Transfers.*

-- `registers[r] = v; break;`
abbrev pub write : ℕ → ℕ → ℕ → Cpu → Option Outcome
write r v pc_after c = complete pc_after 0 0 (set r v c)

abbrev pub overflow : Cpu → Option Outcome
overflow c = some (raise_exception overflow_exception 0 c)

-- OP_ADD
abbrev pub execute_add : Instruction → ℕ → Cpu → Option Outcome
execute_add i pc_after c =
    let a = c.registers i.rs in
    let b = c.registers i.rt in
    let sum = plus a b in
    if not (has_sign (bit_xor a b)) && has_sign (bit_xor a sum)
    then overflow c
    else write i.rd sum pc_after c

-- OP_ADDI
abbrev pub execute_addi : Instruction → ℕ → Cpu → Option Outcome
execute_addi i pc_after c =
    let a = c.registers i.rs in
    let sum = plus a i.extra in
    if not (has_sign (bit_xor a i.extra)) && has_sign (bit_xor i.extra sum)
    then overflow c
    else write i.rt sum pc_after c

-- OP_SUB
abbrev pub execute_sub : Instruction → ℕ → Cpu → Option Outcome
execute_sub i pc_after c =
    let a = c.registers i.rs in
    let b = c.registers i.rt in
    let diff = minus a b in
    if has_sign (bit_xor a b) && has_sign (bit_xor a diff)
    then overflow c
    else write i.rd diff pc_after c

-- A branch, taken or not.
abbrev pub branch : Bool → Instruction → ℕ → Cpu → Option Outcome
branch taken i pc_after c =
    complete (if taken then plus (c.registers next_pc_reg) (index_to_addr i.extra) else pc_after) 0
      0 c

-- `registers[r] = registers[NextPCReg] + 4;`
abbrev pub link : ℕ → Cpu → Cpu
link r c = set r (plus (c.registers next_pc_reg) 4) c

-- `registers[LoReg] = lo; registers[HiReg] = hi;`
abbrev pub write_pair : ℕ → ℕ → ℕ → Cpu → Option Outcome
write_pair hi lo pc_after c = complete pc_after 0 0 (set hi_reg hi (set lo_reg lo c))

-- OP_DIV; the quotient of the least int by -1 does not fit, and the host traps.
abbrev pub execute_div : Instruction → ℕ → Cpu → Option Outcome
execute_div i pc_after c =
    let a = c.registers i.rs in
    let b = c.registers i.rt in
    let quotient = with_sign (differ (has_sign a) (has_sign b)) (magnitude a / magnitude b) in
    let remainder = with_sign (has_sign a) (magnitude a % magnitude b) in
    if b == 0
    then write_pair 0 0 pc_after c
    else if (a == sign_bit) && (b == 4294967295)
    then none
    else write_pair remainder quotient pc_after c

-- OP_DIVU
abbrev pub execute_divu : Instruction → ℕ → Cpu → Option Outcome
execute_divu i pc_after c =
    let rs = c.registers i.rs in
    let rt = c.registers i.rt in
    if rt == 0 then write_pair 0 0 pc_after c else write_pair (rs % rt) (rs / rt) pc_after c

-- OP_MULT and OP_MULTU
abbrev pub execute_mult : Bool → Instruction → ℕ → Cpu → Option Outcome
execute_mult signed i pc_after c =
    let r = mult (c.registers i.rs) (c.registers i.rt) signed in write_pair r.0 r.1 pc_after c

-- `pcAfter = (pcAfter & 0xf0000000) | IndexToAddr(instr->extra);`
abbrev pub jump : Instruction → ℕ → Cpu → Option Outcome
jump i pc_after c = complete (bit_or (bit_and pc_after 4026531840) (index_to_addr i.extra)) 0 0 c

abbrev pub flag : Bool → ℕ
flag b = if b then 1 else 0

-- The `switch (instr->opCode)` and what follows it.
unfoldable pub execute : OpCode → Instruction → ℕ → Cpu → Option Outcome
execute op_add i pc c = execute_add i pc c
execute op_addi i pc c = execute_addi i pc c
execute op_addiu i pc c = write i.rt (plus (c.registers i.rs) i.extra) pc c
execute op_addu i pc c = write i.rd (plus (c.registers i.rs) (c.registers i.rt)) pc c
execute op_and i pc c = write i.rd (bit_and (c.registers i.rs) (c.registers i.rt)) pc c
execute op_andi i pc c = write i.rt (bit_and (c.registers i.rs) (bit_and i.extra 65535)) pc c
execute op_beq i pc c = branch (c.registers i.rs == c.registers i.rt) i pc c
execute op_bgezal i pc c = let c = link r31 c in branch (not (has_sign (c.registers i.rs))) i pc c
execute op_bgez i pc c = branch (not (has_sign (c.registers i.rs))) i pc c
execute op_bgtz i pc c = branch (less 0 (c.registers i.rs)) i pc c
execute op_blez i pc c = branch (not (less 0 (c.registers i.rs))) i pc c
execute op_bltzal i pc c = let c = link r31 c in branch (has_sign (c.registers i.rs)) i pc c
execute op_bltz i pc c = branch (has_sign (c.registers i.rs)) i pc c
execute op_bne i pc c = branch (not (c.registers i.rs == c.registers i.rt)) i pc c
execute op_div i pc c = execute_div i pc c
execute op_divu i pc c = execute_divu i pc c
execute op_jal i pc c = jump i pc (link r31 c)
execute op_j i pc c = jump i pc c
execute op_jalr i pc c = let c = link i.rd c in complete (c.registers i.rs) 0 0 c
execute op_jr i pc c = complete (c.registers i.rs) 0 0 c
execute op_lb i pc c = load_byte true i pc c
execute op_lbu i pc c = load_byte false i pc c
execute op_lh i pc c = load_half true i pc c
execute op_lhu i pc c = load_half false i pc c
execute op_lui i pc c = write i.rt (shift_left i.extra 16) pc c
execute op_lw i pc c = load_word i pc c
execute op_lwl i pc c = load_word_left i pc c
execute op_lwr i pc c = load_word_right i pc c
execute op_mfhi i pc c = write i.rd (c.registers hi_reg) pc c
execute op_mflo i pc c = write i.rd (c.registers lo_reg) pc c
execute op_mthi i pc c = write hi_reg (c.registers i.rs) pc c
execute op_mtlo i pc c = write lo_reg (c.registers i.rs) pc c
execute op_mult i pc c = execute_mult true i pc c
execute op_multu i pc c = execute_mult false i pc c
execute op_nor i pc c = write i.rd (complement (bit_or (c.registers i.rs) (c.registers i.rt))) pc c
execute op_or i pc c = write i.rd (bit_or (c.registers i.rs) (c.registers i.rs)) pc c
execute op_ori i pc c = write i.rt (bit_or (c.registers i.rs) (bit_and i.extra 65535)) pc c
execute op_sb i pc c = store_value 1 i pc c
execute op_sh i pc c = store_value 2 i pc c
execute op_sll i pc c = write i.rd (shift_left (c.registers i.rt) i.extra) pc c
execute op_sllv i pc c =
    write i.rd (shift_left (c.registers i.rt) (bit_and (c.registers i.rs) 31)) pc c
execute op_slt i pc c = write i.rd (flag (less (c.registers i.rs) (c.registers i.rt))) pc c
execute op_slti i pc c = write i.rt (flag (less (c.registers i.rs) i.extra)) pc c
execute op_sltiu i pc c = write i.rt (flag (ltb (c.registers i.rs) i.extra)) pc c
execute op_sltu i pc c = write i.rd (flag (ltb (c.registers i.rs) (c.registers i.rt))) pc c
execute op_sra i pc c = write i.rd (shift_right (c.registers i.rt) i.extra) pc c
execute op_srav i pc c =
    write i.rd (shift_right (c.registers i.rt) (bit_and (c.registers i.rs) 31)) pc c
execute op_srl i pc c = let tmp = c.registers i.rt in write i.rd (shift_right tmp i.extra) pc c
execute op_srlv i pc c =
    let tmp = c.registers i.rt in write i.rd (shift_right tmp (bit_and (c.registers i.rs) 31)) pc c
execute op_sub i pc c = execute_sub i pc c
execute op_subu i pc c = write i.rd (minus (c.registers i.rs) (c.registers i.rt)) pc c
execute op_sw i pc c = store_value 4 i pc c
execute op_swl i pc c = store_word_left i pc c
execute op_swr i pc c = store_word_right i pc c
execute op_syscall i pc c = some (raise_exception syscall_exception 0 c)
execute op_xor i pc c = write i.rd (bit_xor (c.registers i.rs) (c.registers i.rt)) pc c
execute op_xori i pc c = write i.rt (bit_xor (c.registers i.rs) (bit_and i.extra 65535)) pc c
execute op_res i pc c = some (raise_exception illegal_instr_exception 0 c)
execute op_unimp i pc c = some (raise_exception illegal_instr_exception 0 c)
execute op i pc c = none

-- The fetched word is decoded and executed.
abbrev pub dispatch : Option Instruction → Cpu → Option Outcome
dispatch none c = none
dispatch (some i) c = execute i.op_code i (plus (c.registers next_pc_reg) 4) c

-- Machine::OneInstruction
unfoldable pub one_instruction : Cpu → Option Outcome
one_instruction c = with_read (c.registers pc_reg) 4 c λ raw c. dispatch (decode raw) c
