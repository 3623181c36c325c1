-- ===== src/Mips/Execute/Invariant.antt =====
-- The registers that Machine::OneInstruction (code/machine/mipssim.cc) keeps in order.
use usc_cs.Common.{
  ◌⊎◌, inl, inr, ℕ, ◌^◌, ◌<◌, ◌≡◌, refl, true, false, ◌==◌, Option, none, some, arith,
}
use usc_cs.Memory.{ExceptionType, syscall_exception, illegal_instr_exception}
use usc_cs.Mips.{
  Cpu, Outcome, finished, trapped, pc_reg, next_pc_reg, prev_pc_reg, hi_reg, lo_reg, r31,
}
use usc_cs.Mips.Words.{plus}
use usc_cs.Mips.Words.Bounds.{and-word, or-word, xor-word, shift_right-word}
use usc_cs.Mips.Decode.{
  special, bcond, OpCode, Instruction, decode, op_add, op_addi, op_addiu, op_addu, op_and, op_andi,
  op_beq, op_bgez, op_bgezal, op_bgtz, op_blez, op_bltz, op_bltzal, op_bne, op_div, op_divu, op_j,
  op_jal, op_jalr, op_jr, op_lb, op_lbu, op_lh, op_lhu, op_lui, op_lw, op_lwl, op_lwr, op_mfhi,
  op_mflo, op_mthi, op_mtlo, op_mult, op_multu, op_nor, op_or, op_ori, op_rfe, op_sb, op_sh, op_sll,
  op_sllv, op_slt, op_slti, op_sltiu, op_sltu, op_sra, op_srav, op_srl, op_srlv, op_sub, op_subu,
  op_sw, op_swl, op_swr, op_xor, op_xori, op_syscall, op_unimp, op_res,
}
use usc_cs.Mips.Execute.{
  left_loaded, right_loaded, left_stored, right_stored, address, byte_value, half_value, pending,
  write, overflow, link, execute, dispatch, one_instruction,
}
use usc_cs.Mips.Execute.Running.{
  WellFormed, Loaded, Running, Stepped, complete-Stepped, raise-Stepped,
}
use usc_cs.Mips.Execute.Steps.{
  left_loaded-word, right_loaded-word, byte_value-word, half_value-word, flag-word, write-Stepped,
  branch-Stepped, link-Running, fails, read-Stepped, write_mem-Stepped,
}
use usc_cs.Mips.Execute.Transitions.{
  either, write_rd, write_rt, overflow-Stepped, load-Stepped, aligned-Stepped, pending-word,
  merge_store-Stepped, div-Stepped, divu-Stepped, mult-Stepped, jump-Stepped,
}
use usc_cs.Mips.Decode.Fields.{IsInstruction, decode-IsInstruction}
use Prim.Native.Nat.{bit_and}

module _ (start : Cpu) (i : Instruction) (f : IsInstruction i) (after : ℕ)
    (word : after < 2 ^ 32) where
  execute-Stepped : (op : OpCode) (c : Cpu) → Running start c → Stepped start (execute op i after c)
  unfolding execute
  execute-Stepped op_add c h =
      either start _ (overflow c) (write i.rd _ after c) (overflow-Stepped start i f after word c h)
        (write_rd start i f after word _ c (omega arith) h)
  execute-Stepped op_sub c h =
      either start _ (overflow c) (write i.rd _ after c) (overflow-Stepped start i f after word c h)
        (write_rd start i f after word _ c (omega arith) h)
  execute-Stepped op_addi c h =
      either start _ (overflow c) (write i.rt _ after c) (overflow-Stepped start i f after word c h)
        (write_rt start i f after word _ c (omega arith) h)
  execute-Stepped op_addiu c h = write_rt start i f after word _ c (omega arith) h
  execute-Stepped op_addu c h = write_rd start i f after word _ c (omega arith) h
  execute-Stepped op_and c h = write_rd start i f after word _ c (and-word _ _ (h.words i.rs)) h
  execute-Stepped op_andi c h = write_rt start i f after word _ c (and-word _ _ (h.words i.rs)) h
  execute-Stepped op_beq c h = branch-Stepped start _ i after c word h
  execute-Stepped op_bgez c h = branch-Stepped start _ i after c word h
  execute-Stepped op_bgtz c h = branch-Stepped start _ i after c word h
  execute-Stepped op_blez c h = branch-Stepped start _ i after c word h
  execute-Stepped op_bltz c h = branch-Stepped start _ i after c word h
  execute-Stepped op_bne c h = branch-Stepped start _ i after c word h
  execute-Stepped op_bgezal c h =
      branch-Stepped start _ i after (link r31 c) word (link-Running start r31 c (omega arith) h)
  execute-Stepped op_bltzal c h =
      branch-Stepped start _ i after (link r31 c) word (link-Running start r31 c (omega arith) h)
  execute-Stepped op_div c h = div-Stepped start i f after word c h
  execute-Stepped op_divu c h = divu-Stepped start i f after word c h
  execute-Stepped op_jal c h =
      jump-Stepped start i f after word (link r31 c) (link-Running start r31 c (omega arith) h)
  execute-Stepped op_j c h = jump-Stepped start i f after word c h
  execute-Stepped op_jalr c h =
      let low = f.rd_bound in
      let h' = link-Running start i.rd c (omega arith) h in
      complete-Stepped start _ 0 0 (link i.rd c) (h'.words i.rs) (omega arith) (omega arith) h'
  execute-Stepped op_jr c h =
      complete-Stepped start _ 0 0 c (h.words i.rs) (omega arith) (omega arith) h
  execute-Stepped op_lb c h =
      load-Stepped start i f after word (address i c) 1 (λ v d. byte_value true v) c (omega arith)
        (λ v d k r. byte_value-word true v k) h
  execute-Stepped op_lbu c h =
      load-Stepped start i f after word (address i c) 1 (λ v d. byte_value false v) c (omega arith)
        (λ v d k r. byte_value-word false v k) h
  execute-Stepped op_lh c h =
      aligned-Stepped start i f after word 1 2 (λ v d. half_value true v) c
        (λ v d k r. half_value-word true v k) h
  execute-Stepped op_lhu c h =
      aligned-Stepped start i f after word 1 2 (λ v d. half_value false v) c
        (λ v d k r. half_value-word false v k) h
  execute-Stepped op_lui c h = write_rt start i f after word _ c (omega arith) h
  execute-Stepped op_lw c h = aligned-Stepped start i f after word 3 4 (λ v d. v) c (λ v d k r. k) h
  execute-Stepped op_lwl c h =
      either start (bit_and (address i c) 3 == 0) _ none
        (load-Stepped start i f after word (address i c) 4
          (λ v d. left_loaded (bit_and (address i c) 3) v (pending i d)) c (omega arith)
          (λ v d k r.
            left_loaded-word (bit_and (address i c) 3) v (pending i d) k
              (pending-word start i f after word d r))
          h)
        (fails start)
  execute-Stepped op_lwr c h =
      either start (bit_and (address i c) 3 == 0) _ none
        (load-Stepped start i f after word (address i c) 4
          (λ v d. right_loaded (bit_and (address i c) 3) v (pending i d)) c (omega arith)
          (λ v d k r.
            right_loaded-word (bit_and (address i c) 3) v (pending i d) k
              (pending-word start i f after word d r))
          h)
        (fails start)
  execute-Stepped op_mfhi c h = write_rd start i f after word _ c (h.words hi_reg) h
  execute-Stepped op_mflo c h = write_rd start i f after word _ c (h.words lo_reg) h
  execute-Stepped op_mthi c h =
      write-Stepped start hi_reg _ after c word (omega arith) (h.words i.rs) h
  execute-Stepped op_mtlo c h =
      write-Stepped start lo_reg _ after c word (omega arith) (h.words i.rs) h
  execute-Stepped op_mult c h = mult-Stepped start i f after word true c h
  execute-Stepped op_multu c h = mult-Stepped start i f after word false c h
  execute-Stepped op_nor c h = write_rd start i f after word _ c (omega arith) h
  execute-Stepped op_or c h =
      write_rd start i f after word _ c (or-word _ _ (h.words i.rs) (h.words i.rs)) h
  execute-Stepped op_ori c h =
      write_rt start i f after word _ c
        (or-word _ _ (h.words i.rs) (and-word i.extra 65535 f.extra_word)) h
  execute-Stepped op_sb c h =
      write_mem-Stepped start (address i c) 1 (c.registers i.rt) after c (omega arith) word h
  execute-Stepped op_sh c h =
      write_mem-Stepped start (address i c) 2 (c.registers i.rt) after c (omega arith) word h
  execute-Stepped op_sw c h =
      write_mem-Stepped start (address i c) 4 (c.registers i.rt) after c (omega arith) word h
  execute-Stepped op_sll c h = write_rd start i f after word _ c (omega arith) h
  execute-Stepped op_sllv c h = write_rd start i f after word _ c (omega arith) h
  execute-Stepped op_slt c h = write_rd start i f after word _ c (flag-word _) h
  execute-Stepped op_slti c h = write_rt start i f after word _ c (flag-word _) h
  execute-Stepped op_sltiu c h = write_rt start i f after word _ c (flag-word _) h
  execute-Stepped op_sltu c h = write_rd start i f after word _ c (flag-word _) h
  execute-Stepped op_sra c h =
      write_rd start i f after word _ c (shift_right-word _ _ (h.words i.rt)) h
  execute-Stepped op_srav c h =
      write_rd start i f after word _ c (shift_right-word _ _ (h.words i.rt)) h
  execute-Stepped op_srl c h =
      write_rd start i f after word _ c (shift_right-word _ _ (h.words i.rt)) h
  execute-Stepped op_srlv c h =
      write_rd start i f after word _ c (shift_right-word _ _ (h.words i.rt)) h
  execute-Stepped op_subu c h = write_rd start i f after word _ c (omega arith) h
  execute-Stepped op_swl c h =
      merge_store-Stepped start i f after word (left_stored (bit_and (address i c) 3)) c h
  execute-Stepped op_swr c h =
      merge_store-Stepped start i f after word (right_stored (bit_and (address i c) 3)) c h
  execute-Stepped op_syscall c h = raise-Stepped start syscall_exception 0 c (omega arith) h
  execute-Stepped op_xor c h =
      write_rd start i f after word _ c (xor-word _ _ (h.words i.rs) (h.words i.rt)) h
  execute-Stepped op_xori c h =
      write_rt start i f after word _ c
        (xor-word _ _ (h.words i.rs) (and-word i.extra 65535 f.extra_word)) h
  execute-Stepped op_res c h = raise-Stepped start illegal_instr_exception 0 c (omega arith) h
  execute-Stepped op_unimp c h = raise-Stepped start illegal_instr_exception 0 c (omega arith) h
  execute-Stepped op_rfe c h = fails start
  execute-Stepped special c h = fails start
  execute-Stepped bcond c h = fails start

-- An instruction keeps R0 at 0, all registers within 32 bits, the pending load on a general register
-- and bytes in memory, unless an ASSERT fails or the host refuses a division. One that is finished
-- moves PC to NextPC; one that raises an exception leaves both counters. In both cases the pending load
-- of the instruction before has then reached its register, also where the instruction wrote it.
pub one_instruction-WellFormed :
    (c : Cpu)
    → WellFormed c
    → (one_instruction c ≡ none)
      ⊎ ((d : Cpu) × (one_instruction c ≡ some (finished d))
          × WellFormed d
          × (d.registers pc_reg ≡ c.registers next_pc_reg)
          × (d.registers prev_pc_reg ≡ c.registers pc_reg)
          × Loaded c d)
      ⊎ ((e : ExceptionType) × (d : Cpu) × (one_instruction c ≡ some (trapped e d))
          × WellFormed d
          × (d.registers pc_reg ≡ c.registers pc_reg)
          × (d.registers next_pc_reg ≡ c.registers next_pc_reg)
          × Loaded c d)
unfolding one_instruction Stepped
one_instruction-WellFormed c h = sort (one_instruction c) whole
  where
    begin : Running c c
    begin = record {
      words = h.words;
      load_target = h.load_target;
      bytes = h.bytes;
      kept = λ r high. refl;
    }

    go :
        (o : Option Instruction) (d : Cpu)
        → ((i : Instruction) → o ≡ some i → IsInstruction i)
        → Running c d
        → Stepped c (dispatch o d)
    go none d valid r = tt
    go (some i) d valid r =
        execute-Stepped c i (valid i refl) (plus (d.registers next_pc_reg) 4) (omega arith)
          i.op_code d r

    whole : Stepped c (one_instruction c)
    whole =
        read-Stepped c (c.registers pc_reg) 4 c (λ raw d. dispatch (decode raw) d) (h.words pc_reg)
          begin λ raw d k r. go (decode raw) d (λ i e. decode-IsInstruction raw i k e) r

    sort :
        (o : Option Outcome)
        → Stepped c o
        → (o ≡ none)
          ⊎ ((d : Cpu) × (o ≡ some (finished d))
              × WellFormed d
              × (d.registers pc_reg ≡ c.registers next_pc_reg)
              × (d.registers prev_pc_reg ≡ c.registers pc_reg)
              × Loaded c d)
          ⊎ ((e : ExceptionType) × (d : Cpu) × (o ≡ some (trapped e d))
              × WellFormed d
              × (d.registers pc_reg ≡ c.registers pc_reg)
              × (d.registers next_pc_reg ≡ c.registers next_pc_reg)
              × Loaded c d)
    sort none s = inl refl
    sort (some (finished d)) (w, p, q, l) = inr (inl (d, refl, w, p, q, l))
    sort (some (trapped e d)) (w, p, q, l) = inr (inr (e, d, refl, w, p, q, l))
