-- ===== src/Mips/Tests.antt =====
-- Tests of the processor (code/machine/mipssim.cc) and concrete runs of its theorems.
use usc_cs.Common.{
  ℕ, ◌+◌, ◌*◌, ◌^◌, ◌<◌, ◌≤◌, ◌≡◌, ◌⊎◌, refl, true, false, ◌==◌, if◌then◌else◌, none, some, put,
  arith,
}
use usc_cs.Memory.{
  Machine, TranslationEntry, ExceptionType, overflow_exception, read_mem, translate, stamp,
  write_table, touch,
}
use usc_cs.Mips.{Cpu, finished, trapped, pc_reg, next_pc_reg, prev_pc_reg, load_reg, load_value_reg}
use usc_cs.Mips.Words.{plus, minus, biased}
use usc_cs.Mips.Decode.{Instruction, decode, op_add, op_srl, op_srlv, op_or}
use usc_cs.Mips.Decode.Formats.{Fields, Fit, assemble, meaning, decode-assemble}
use usc_cs.Mips.Multiply.{mult, multiply_loop}
use usc_cs.Mips.Multiply.Product.{Holds, widen, mult-Holds}
use usc_cs.Mips.Execute.{execute, execute_add, execute_addi, execute_sub, write, one_instruction}
use usc_cs.Mips.Execute.Running.{WellFormed, Loaded}
use usc_cs.Mips.Execute.Invariant.{one_instruction-WellFormed}
use usc_cs.Mips.Execute.Precise.{at_trap, one_instruction_precise}
use usc_cs.Mips.Execute.Overflow.{Checked, execute_add_exact}
use usc_cs.Mips.Execute.Alike.{CopiesSign, execute_alike}

-- One page, mapped to itself.
abbrev page : ℕ → TranslationEntry
page n = record {
  virtual_page = n;
  physical_page = n;
  valid = true;
  read_only = false;
  used = false;
  dirty = false;
}

-- ADD r3,r1,r2 at address 0.
abbrev add_word : ℕ → ℕ
add_word a = if a == 0 then 32 else if a == 1 then 24 else if a == 2 then 34 else 0

abbrev machine : Machine
machine = record {
  main_memory = add_word;
  tlb = none;
  page_table = some page;
  page_table_size = 1;
  last_used = λ p. 0;
  total_ticks = 9;
}

-- r2 is 1, NextPC is 4, and a load of 99 into r4 is pending.
abbrev registers : ℕ → ℕ → ℕ
registers r1 r =
    if r == 1
    then r1
    else if r == 2
    then 1
    else if r == next_pc_reg
    then 4
    else if r == load_reg
    then 4
    else if r == load_value_reg
    then 99
    else 0

abbrev cpu : ℕ → Cpu
cpu r1 = record { registers = registers r1; machine = machine }

abbrev after_fetch : Machine
after_fetch = stamp 0 (write_table machine page 0 (touch false (page 0)))

registers-word : (r1 : ℕ) → r1 < 2 ^ 32 → (r : ℕ) → registers r1 r < 2 ^ 32
registers-word r1 h r = ground arith

cpu-WellFormed : (r1 : ℕ) → r1 < 2 ^ 32 → WellFormed (cpu r1)
cpu-WellFormed r1 h = record {
  zero_register = refl;
  words = registers-word r1 h;
  load_target = omega arith;
  bytes = λ a. ground arith;
}

one_instruction-WellFormed_example :
    (one_instruction (cpu 5) ≡ none)
    ⊎ ((d : Cpu) × (one_instruction (cpu 5) ≡ some (finished d))
        × WellFormed d
        × (d.registers pc_reg ≡ registers 5 next_pc_reg)
        × (d.registers prev_pc_reg ≡ registers 5 pc_reg)
        × Loaded (cpu 5) d)
    ⊎ ((e : ExceptionType) × (d : Cpu) × (one_instruction (cpu 5) ≡ some (trapped e d))
        × WellFormed d
        × (d.registers pc_reg ≡ registers 5 pc_reg)
        × (d.registers next_pc_reg ≡ registers 5 next_pc_reg)
        × Loaded (cpu 5) d)
one_instruction-WellFormed_example =
    one_instruction-WellFormed (cpu 5) (cpu-WellFormed 5 (omega arith))

overflow_test :
    one_instruction (cpu 2147483647)
    ≡ some (trapped overflow_exception (at_trap 0 (registers 2147483647) after_fetch))
unfolding one_instruction read_mem translate decode execute
overflow_test = refl

one_instruction_precise_example :
    (bad_vaddr : ℕ) × (m : Machine) × (at_trap 0 (registers 2147483647) after_fetch
      ≡ at_trap bad_vaddr (registers 2147483647) m)
    × (m.main_memory ≡ add_word)
one_instruction_precise_example =
    one_instruction_precise (cpu 2147483647) (at_trap 0 (registers 2147483647) after_fetch)
      overflow_exception overflow_test

abbrev add_fields : Fields
add_fields = record { op = 0; rs = 1; rt = 2; rd = 3; shamt = 0; funct = 32 }

add_fields-Fit : Fit add_fields
add_fields-Fit = record {
  op_bits = omega arith;
  rs_bits = omega arith;
  rt_bits = omega arith;
  rd_bits = omega arith;
  shamt_bits = omega arith;
  funct_bits = omega arith;
}

decode-assemble_example : decode (assemble add_fields) ≡ meaning add_fields
decode-assemble_example = decode-assemble add_fields add_fields-Fit

abbrev add_instruction : Instruction
add_instruction = record { op_code = op_add; rs = 1; rt = 2; rd = 3; extra = 0 }

decode_test : decode (assemble add_fields) ≡ some add_instruction
unfolding decode
decode_test = refl

-- -3 times 7.
mult-Holds_example : Holds (mult 4294967293 7 true) (widen true 4294967293 * widen true 7)
mult-Holds_example = mult-Holds 4294967293 7 true (omega arith) (omega arith)

mult_test : mult 4294967293 7 true ≡ (4294967295, 4294967275)
unfolding mult multiply_loop
mult_test = refl

execute_add_exact_example :
    Checked
      (execute_add add_instruction 8 (cpu 5))
      (write 3 (plus 5 1) 8 (cpu 5))
      (cpu 5)
      (biased (plus 5 1) + 2 ^ 31 ≡ biased 5 + biased 1)
      ((biased 5 + biased 1 < 2 ^ 31) ⊎ (3 * 2 ^ 31 ≤ biased 5 + biased 1))
    × Checked
        (execute_addi add_instruction 8 (cpu 5))
        (write 2 (plus 5 0) 8 (cpu 5))
        (cpu 5)
        (biased (plus 5 0) + 2 ^ 31 ≡ biased 5 + biased 0)
        ((biased 5 + biased 0 < 2 ^ 31) ⊎ (3 * 2 ^ 31 ≤ biased 5 + biased 0))
    × Checked
        (execute_sub add_instruction 8 (cpu 5))
        (write 3 (minus 5 1) 8 (cpu 5))
        (cpu 5)
        (biased (minus 5 1) + biased 1 ≡ biased 5 + 2 ^ 31)
        ((biased 5 + 2 ^ 31 < biased 1) ⊎ (biased 1 + 2 ^ 31 ≤ biased 5))
execute_add_exact_example =
    execute_add_exact add_instruction 8 (cpu 5) (omega arith) (omega arith) (omega arith)

-- Register 2 holds the least int.
abbrev least : Cpu
least = record (cpu 5) { registers = put (registers 5) 2 (2 ^ 31) }

srl_least :
    execute op_srl (record add_instruction { extra = 1 }) 8 least
    ≡ write 3 (2 ^ 31 + 2 ^ 30) 8 least
unfolding execute
srl_least = refl

execute_alike_example :
    CopiesSign op_srl 1 (record add_instruction { extra = 1 }) 8 least
    × CopiesSign op_srlv 5 (record add_instruction { extra = 1 }) 8 least
    × (execute op_or (record add_instruction { extra = 1 }) 8 least ≡ write 3 5 8 least)
execute_alike_example = execute_alike (record add_instruction { extra = 1 }) 8 least
