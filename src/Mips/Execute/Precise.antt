-- ===== src/Mips/Execute/Precise.antt =====
-- The state in which Machine::OneInstruction (code/machine/mipssim.cc) enters the kernel.
use usc_cs.Common.{
  ℕ, ◌≡◌, refl, ◌∙◌, ap, subst, true, false, not, ◌&&◌, ◌==◌, Option, none, some, if-either, ◌>>=◌,
}
use usc_cs.Memory.{
  Machine, ExceptionType, overflow_exception, address_error_exception, syscall_exception,
  illegal_instr_exception, Access, raised, done, read_mem, write_mem,
}
use usc_cs.Memory.Contents.{ReadKeeps, read_mem-Keeps}
use usc_cs.Mips.{
  Cpu, Outcome, finished, trapped, set, delayed_load, raise_exception, complete, bad_vaddr_reg,
  pc_reg,
}
use usc_cs.Mips.Words.{sign_bit}
use usc_cs.Mips.Decode.{
  special, bcond, OpCode, Instruction, decode, op_add, op_addi, op_div, op_divu, op_lb, op_lbu,
  op_lh, op_lhu, op_lw, op_lwl, op_lwr, op_rfe, op_sb, op_sh, op_sub, op_sw, op_swl, op_swr,
  op_syscall, op_unimp, op_res,
}
use usc_cs.Mips.Execute.{
  left_loaded, right_loaded, left_stored, right_stored, after_access, with_read, with_write,
  address, byte_value, half_value, pending, store_value, merge_store, execute, dispatch,
  one_instruction,
}
use Prim.Native.Nat.{bit_and}

-- The state that the kernel finds: the registers as before the instruction, with the bad address and
-- the pending load put in.
abbrev pub at_trap : ℕ → (ℕ → ℕ) → Machine → Cpu
at_trap bad_vaddr registers m =
    delayed_load 0 0 (set bad_vaddr_reg bad_vaddr (record { registers = registers; machine = m }))

-- A trap finds these registers and this memory.
Precise : (ℕ → ℕ) → (ℕ → ℕ) → Option Outcome → Type 0
Precise registers memory none = Unit
Precise registers memory (some (finished c)) = Unit
Precise registers memory (some (trapped e c)) =
    (bad_vaddr : ℕ) × (m : Machine) × (c ≡ at_trap bad_vaddr registers m) × (m.main_memory ≡ memory)

module _ (registers memory : ℕ → ℕ) where
  after_read :
      (addr : ℕ) (c : Cpu) (k : ℕ → Cpu → Option Outcome) (r : Option (Access ℕ))
      → c.registers ≡ registers
      → c.machine.main_memory ≡ memory
      → ReadKeeps c.machine.main_memory r
      → ((v : ℕ) (d : Cpu)
          → d.registers ≡ registers
          → d.machine.main_memory ≡ memory
          → Precise registers memory (k v d))
      → Precise registers memory (do a ← r; after_access addr c k a)
  unfolding Precise ReadKeeps
  after_read addr c k none same kept reads go = tt
  after_read addr c k (some (raised e)) same kept reads go =
      (addr, c.machine, ap (λ r. at_trap addr r c.machine) same, kept)
  after_read addr c k (some (done v m)) same kept reads go =
      go v (record { registers = c.registers; machine = m }) same (reads ∙ kept)

  after_write :
      (addr size value : ℕ) (c : Cpu) (k : Unit {0} → Cpu → Option Outcome)
      → c.registers ≡ registers
      → c.machine.main_memory ≡ memory
      → ((u : Unit {0}) (d : Cpu) → Precise registers memory (k u d))
      → Precise registers memory (with_write addr size value c k)
  unfolding Precise
  after_write addr size value c k same kept go = run (write_mem addr size value c.machine)
    where
      run :
          (r : Option (Access (Unit {0})))
          → Precise registers memory (do a ← r; after_access addr c k a)
      run none = tt
      run (some (raised e)) = (addr, c.machine, ap (λ r. at_trap addr r c.machine) same, kept)
      run (some (done v m)) = go v (record { registers = c.registers; machine = m })

  trap_here :
      (e : ExceptionType) (bad : ℕ) (c : Cpu)
      → c.registers ≡ registers
      → c.machine.main_memory ≡ memory
      → Precise registers memory (some (raise_exception e bad c))
  unfolding Precise
  trap_here e bad c same kept = (bad, c.machine, ap (λ r. at_trap bad r c.machine) same, kept)

  done_here : (c : Cpu) → Precise registers memory (some (finished c))
  unfolding Precise
  done_here c = tt

  fails : Precise registers memory none
  unfolding Precise
  fails = tt

  load_done :
      (addr size r pc : ℕ) (c : Cpu) (f : ℕ → Cpu → ℕ)
      → c.registers ≡ registers
      → c.machine.main_memory ≡ memory
      → Precise registers memory (with_read addr size c λ v d. complete pc r (f v d) d)
  load_done addr size r pc c f same kept =
      after_read addr c (λ v d. complete pc r (f v d) d) (read_mem addr size c.machine) same kept
        (read_mem-Keeps addr size c.machine) λ v d s k. done_here _

  store_done :
      (size : ℕ) (i : Instruction) (pc : ℕ) (c : Cpu)
      → c.registers ≡ registers
      → c.machine.main_memory ≡ memory
      → Precise registers memory (store_value size i pc c)
  store_done size i pc c same kept =
      after_write (address i c) size (c.registers i.rt) c (λ u d. complete pc 0 0 d) same kept
        λ u d. done_here _

  -- The read is done only where the address passes a test.
  merge_store-Precise :
      (merge : ℕ → ℕ → ℕ) (i : Instruction) (pc : ℕ) (c : Cpu)
      → c.registers ≡ registers
      → c.machine.main_memory ≡ memory
      → Precise registers memory (merge_store merge i pc c)
  merge_store-Precise merge i pc c same kept =
      if-either (Precise registers memory) (bit_and (address i c) 3 == 0)
        (after_read word c store (read_mem word 4 c.machine) same kept
          (read_mem-Keeps word 4 c.machine)
          λ v d s k. after_write word 4 (merge v (d.registers i.rt)) d last s k λ u e. done_here _)
        fails
    where
      word : ℕ
      word = bit_and (address i c) 4294967292

      last : Unit {0} → Cpu → Option Outcome
      last u e = complete pc 0 0 e

      store : ℕ → Cpu → Option Outcome
      store v d = with_write word 4 (merge v (d.registers i.rt)) d last

  execute-Precise :
      (op : OpCode) (i : Instruction) (pc : ℕ) (c : Cpu)
      → c.registers ≡ registers
      → c.machine.main_memory ≡ memory
      → Precise registers memory (execute op i pc c)
  unfolding execute
  execute-Precise op_add i pc c same kept =
      if-either (Precise registers memory) _ (trap_here overflow_exception 0 c same kept)
        (done_here _)
  execute-Precise op_addi i pc c same kept =
      if-either (Precise registers memory) _ (trap_here overflow_exception 0 c same kept)
        (done_here _)
  execute-Precise op_sub i pc c same kept =
      if-either (Precise registers memory) _ (trap_here overflow_exception 0 c same kept)
        (done_here _)
  execute-Precise op_div i pc c same kept =
      if-either (Precise registers memory) (c.registers i.rt == 0) (done_here _) (
        if-either (Precise registers memory)
          ((c.registers i.rs == sign_bit) && (c.registers i.rt == 4294967295)) fails (done_here _))
  execute-Precise op_divu i pc c same kept =
      if-either (Precise registers memory) (c.registers i.rt == 0) (done_here _) (done_here _)
  execute-Precise op_lb i pc c same kept =
      load_done (address i c) 1 i.rt pc c (λ v d. byte_value true v) same kept
  execute-Precise op_lbu i pc c same kept =
      load_done (address i c) 1 i.rt pc c (λ v d. byte_value false v) same kept
  execute-Precise op_lh i pc c same kept =
      if-either (Precise registers memory) (not (bit_and (address i c) 1 == 0))
        (trap_here address_error_exception (address i c) c same kept)
        (load_done (address i c) 2 i.rt pc c (λ v d. half_value true v) same kept)
  execute-Precise op_lhu i pc c same kept =
      if-either (Precise registers memory) (not (bit_and (address i c) 1 == 0))
        (trap_here address_error_exception (address i c) c same kept)
        (load_done (address i c) 2 i.rt pc c (λ v d. half_value false v) same kept)
  execute-Precise op_lw i pc c same kept =
      if-either (Precise registers memory) (not (bit_and (address i c) 3 == 0))
        (trap_here address_error_exception (address i c) c same kept)
        (load_done (address i c) 4 i.rt pc c (λ v d. v) same kept)
  execute-Precise op_lwl i pc c same kept =
      if-either (Precise registers memory) (bit_and (address i c) 3 == 0)
        (load_done (address i c) 4 i.rt pc c
          (λ v d. left_loaded (bit_and (address i c) 3) v (pending i d)) same kept)
        fails
  execute-Precise op_lwr i pc c same kept =
      if-either (Precise registers memory) (bit_and (address i c) 3 == 0)
        (load_done (address i c) 4 i.rt pc c
          (λ v d. right_loaded (bit_and (address i c) 3) v (pending i d)) same kept)
        fails
  execute-Precise op_sb i pc c same kept = store_done 1 i pc c same kept
  execute-Precise op_sh i pc c same kept = store_done 2 i pc c same kept
  execute-Precise op_sw i pc c same kept = store_done 4 i pc c same kept
  execute-Precise op_swl i pc c same kept =
      merge_store-Precise (left_stored (bit_and (address i c) 3)) i pc c same kept
  execute-Precise op_swr i pc c same kept =
      merge_store-Precise (right_stored (bit_and (address i c) 3)) i pc c same kept
  execute-Precise op_syscall i pc c same kept = trap_here syscall_exception 0 c same kept
  execute-Precise op_res i pc c same kept = trap_here illegal_instr_exception 0 c same kept
  execute-Precise op_unimp i pc c same kept = trap_here illegal_instr_exception 0 c same kept
  execute-Precise op_rfe i pc c same kept = fails
  execute-Precise special i pc c same kept = fails
  execute-Precise bcond i pc c same kept = fails
  execute-Precise op i pc c same kept = done_here _

-- Where an instruction raises an exception, the kernel is entered with the memory and all registers,
-- the program counters among them, as they were before the instruction: only BadVAddr is set, and the
-- pending load is done. So the instruction can be run again from its beginning.
pub one_instruction_precise :
    (c c' : Cpu) (e : ExceptionType)
    → one_instruction c ≡ some (trapped e c')
    → (bad_vaddr : ℕ) × (m : Machine) × (c' ≡ at_trap bad_vaddr c.registers m)
      × (m.main_memory ≡ c.machine.main_memory)
unfolding one_instruction Precise
one_instruction_precise c c' e run = subst (Precise c.registers c.machine.main_memory) run whole
  where
    go :
        (o : Option Instruction) (d : Cpu)
        → d.registers ≡ c.registers
        → d.machine.main_memory ≡ c.machine.main_memory
        → Precise c.registers c.machine.main_memory (dispatch o d)
    go none d s k = tt
    go (some i) d s k = execute-Precise c.registers c.machine.main_memory i.op_code i _ d s k

    whole : Precise c.registers c.machine.main_memory (one_instruction c)
    whole =
        after_read c.registers c.machine.main_memory (c.registers pc_reg) c _
          (read_mem (c.registers pc_reg) 4 c.machine) refl refl
          (read_mem-Keeps (c.registers pc_reg) 4 c.machine) λ raw d s k. go (decode raw) d s k
