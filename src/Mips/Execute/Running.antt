-- ===== src/Mips/Execute/Running.antt =====
-- The registers in the middle and at the end of Machine::OneInstruction (code/machine/mipssim.cc).
use usc_cs.Common.{
  ℕ, ◌^◌, ◌<◌, ◌≤◌, ◌≡◌, refl, ◌==◌, Option, none, some, if◌then◌else◌, if-either, put, arith,
}
use usc_cs.Memory.{ExceptionType}
use usc_cs.Memory.Bytes.{IsBytes}
use usc_cs.Mips.{
  Cpu, Outcome, finished, trapped, set, delayed_load, raise_exception, complete, bad_vaddr_reg,
  pc_reg, next_pc_reg, prev_pc_reg, load_reg, load_value_reg,
}

-- R0 is 0, every register is a word, the pending load goes to a general register, and the memory
-- holds bytes.
pub record WellFormed (c : Cpu) : Type 0 where
  pub zero_register : c.registers 0 ≡ 0
  pub words : (r : ℕ) → c.registers r < 2 ^ 32
  pub load_target : c.registers load_reg < 32
  pub bytes : IsBytes c.machine.main_memory

-- The processor in the middle of an instruction that began in `start`: R0 may have been written, the
-- program counters and the pending load have not.
pub record Running (start c : Cpu) : Type 0 where
  pub words : (r : ℕ) → c.registers r < 2 ^ 32
  pub load_target : c.registers load_reg < 32
  pub bytes : IsBytes c.machine.main_memory
  pub kept : (r : ℕ) → 34 ≤ r → c.registers r ≡ start.registers r

-- The register that the pending load fills has its value; R0 stays 0.
abbrev pub Loaded : Cpu → Cpu → Type 0
Loaded start c =
    c.registers (start.registers load_reg)
    ≡ (if start.registers load_reg == 0 then 0 else start.registers load_value_reg)

-- A finished instruction has moved the program counters on; one that trapped has not.
unfoldable pub Stepped : Cpu → Option Outcome → Type 0
Stepped start none = Unit
Stepped start (some (finished c)) =
    WellFormed c
    × (c.registers pc_reg ≡ start.registers next_pc_reg)
    × (c.registers prev_pc_reg ≡ start.registers pc_reg)
    × Loaded start c
Stepped start (some (trapped e c)) =
    WellFormed c
    × (c.registers pc_reg ≡ start.registers pc_reg)
    × (c.registers next_pc_reg ≡ start.registers next_pc_reg)
    × Loaded start c

put-word :
    (f : ℕ → ℕ) (r v : ℕ) → ((s : ℕ) → f s < 2 ^ 32) → v < 2 ^ 32 → (s : ℕ) → put f r v s < 2 ^ 32
put-word f r v h k s = if-either (λ x. x < 2 ^ 32) (r == s) k (h s)

delayed_load-word :
    (r v : ℕ) (c : Cpu)
    → r < 2 ^ 32
    → v < 2 ^ 32
    → ((s : ℕ) → c.registers s < 2 ^ 32)
    → (s : ℕ) → (delayed_load r v c).registers s < 2 ^ 32
delayed_load-word r v c low word h =
    put-word _ 0 0
      (put-word _ load_value_reg v
        (put-word _ load_reg r
          (put-word c.registers (c.registers load_reg) (c.registers load_value_reg) h
            (h load_value_reg))
          low)
        word)
      (omega arith)

module _ (start : Cpu) where
  pub set-Running :
      (r v : ℕ) (c : Cpu) → r < 34 → v < 2 ^ 32 → Running start c → Running start (set r v c)
  set-Running r v c low word h =
      let w = h.load_target in
      let p = h.kept pc_reg (omega arith) in
      let n = h.kept next_pc_reg (omega arith) in
      let l = h.kept load_reg (omega arith) in
      let m = h.kept load_value_reg (omega arith) in
      record {
        words = put-word c.registers r v h.words word;
        load_target = ground arith;
        bytes = h.bytes;
        kept = λ s high. ground (arith, h.kept s);
      }

  pub complete-Stepped :
      (pc_after r v : ℕ) (c : Cpu)
      → pc_after < 2 ^ 32
      → r < 32
      → v < 2 ^ 32
      → Running start c
      → Stepped start (complete pc_after r v c)
  unfolding Stepped
  complete-Stepped pc_after r v c after low word h =
      let w = h.load_target in
      let p = h.kept pc_reg (omega arith) in
      let n = h.kept next_pc_reg (omega arith) in
      let l = h.kept load_reg (omega arith) in
      let m = h.kept load_value_reg (omega arith) in
      let d = delayed_load r v c in
      let words = delayed_load-word r v c (omega arith) word h.words in
      (
        record {
          zero_register = refl;
          words =
              put-word _ next_pc_reg pc_after
                (put-word _ pc_reg (d.registers next_pc_reg)
                  (put-word d.registers prev_pc_reg (d.registers pc_reg) words (words pc_reg))
                  (words next_pc_reg))
                after;
          load_target = low;
          bytes = h.bytes;
        },
        ground arith,
        ground arith,
        ground arith,
      )

  pub raise-Stepped :
      (e : ExceptionType) (bad : ℕ) (c : Cpu)
      → bad < 2 ^ 32
      → Running start c
      → Stepped start (some (raise_exception e bad c))
  unfolding Stepped
  raise-Stepped e bad c word h =
      let w = h.load_target in
      let p = h.kept pc_reg (omega arith) in
      let n = h.kept next_pc_reg (omega arith) in
      let l = h.kept load_reg (omega arith) in
      let m = h.kept load_value_reg (omega arith) in
      (
        record {
          zero_register = refl;
          words =
              delayed_load-word 0 0 (set bad_vaddr_reg bad c) (omega arith) (omega arith)
                (put-word c.registers bad_vaddr_reg bad h.words word);
          load_target = omega arith;
          bytes = h.bytes;
        },
        ground arith,
        ground arith,
        ground arith,
      )
