-- ===== src/Mips/Execute/Transitions.antt =====
-- What the kinds of instructions of Machine::OneInstruction (code/machine/mipssim.cc) do to the
-- registers.
use usc_cs.Common.{
  ℕ, ◌/◌, ◌%◌, ◌^◌, ◌<◌, Bool, not, ◌&&◌, ◌==◌, Option, none, some, if◌then◌else◌, if-either, arith,
}
use usc_cs.Memory.{overflow_exception, address_error_exception}
use usc_cs.Mips.{Cpu, Outcome, raise_exception, complete, load_reg, load_value_reg}
use usc_cs.Mips.Words.{has_sign, sign_bit, magnitude, index_to_addr}
use usc_cs.Mips.Words.Bounds.{and-word, with_sign-word, magnitude-word}
use usc_cs.Mips.Multiply.{differ}
use usc_cs.Mips.Multiply.Product.{mult-Holds}
use usc_cs.Mips.Decode.{Instruction}
use usc_cs.Mips.Execute.{
  with_read, with_write, address, pending, merge_store, write, overflow, execute_div, execute_divu,
  execute_mult, jump,
}
use usc_cs.Mips.Execute.Running.{Running, Stepped, complete-Stepped, raise-Stepped}
use usc_cs.Mips.Execute.Steps.{
  mask-word, write-Stepped, write_pair-Stepped, fails, read-Stepped, write_mem-Stepped,
}
use usc_cs.Mips.Decode.Fields.{IsInstruction}
use Prim.Native.Nat.{bit_and}
use native.Mathlib.Nat.{div-le_self, mod-le}

-- Branches of a test that both step.
pub either :
    (start : Cpu) (b : Bool) (x y : Option Outcome)
    → Stepped start x
    → Stepped start y
    → Stepped start (if b then x else y)
either start b x y p q = if-either (Stepped start) b p q

module _ (start : Cpu) (i : Instruction) (f : IsInstruction i) (after : ℕ)
    (word : after < 2 ^ 32) where
  pub write_rd :
      (v : ℕ) (c : Cpu) → v < 2 ^ 32 → Running start c → Stepped start (write i.rd v after c)
  write_rd v c value h =
      let low = f.rd_bound in write-Stepped start i.rd v after c word (omega arith) value h

  pub write_rt :
      (v : ℕ) (c : Cpu) → v < 2 ^ 32 → Running start c → Stepped start (write i.rt v after c)
  write_rt v c value h =
      let low = f.rt_bound in write-Stepped start i.rt v after c word (omega arith) value h

  pub overflow-Stepped : (c : Cpu) → Running start c → Stepped start (overflow c)
  overflow-Stepped c h = raise-Stepped start overflow_exception 0 c (omega arith) h

  pub load-Stepped :
      (addr size : ℕ) (g : ℕ → Cpu → ℕ) (c : Cpu)
      → addr < 2 ^ 32
      → ((v : ℕ) (d : Cpu) → v < 2 ^ 32 → Running start d → g v d < 2 ^ 32)
      → Running start c
      → Stepped start (with_read addr size c λ v d. complete after i.rt (g v d) d)
  load-Stepped addr size g c small bound h =
      read-Stepped start addr size c (λ v d. complete after i.rt (g v d) d) small h
        λ v d k r. complete-Stepped start after i.rt (g v d) d word f.rt_bound (bound v d k r) r

  pub aligned-Stepped :
      (mask size : ℕ) (g : ℕ → Cpu → ℕ) (c : Cpu)
      → ((v : ℕ) (d : Cpu) → v < 2 ^ 32 → Running start d → g v d < 2 ^ 32)
      → Running start c
      → Stepped start (
          if not (bit_and (address i c) mask == 0)
          then some (raise_exception address_error_exception (address i c) c)
          else with_read (address i c) size c λ v d. complete after i.rt (g v d) d)
  aligned-Stepped mask size g c bound h =
      either start (not (bit_and (address i c) mask == 0)) _ _
        (raise-Stepped start address_error_exception (address i c) c (omega arith) h)
        (load-Stepped (address i c) size g c (omega arith) bound h)

  pub pending-word : (d : Cpu) → Running start d → pending i d < 2 ^ 32
  pending-word d r =
      if-either (λ x. x < 2 ^ 32) (d.registers load_reg == i.rt) (r.words load_value_reg)
        (r.words i.rt)

  pub merge_store-Stepped :
      (merge : ℕ → ℕ → ℕ) (c : Cpu) → Running start c → Stepped start (merge_store merge i after c)
  merge_store-Stepped merge c h =
      let small = and-word (address i c) 4294967292 (omega arith) in
      either start (bit_and (address i c) 3 == 0) _ none
        (read-Stepped start (bit_and (address i c) 4294967292) 4 c
          (λ v d.
            with_write (bit_and (address i c) 4294967292) 4 (merge v (d.registers i.rt)) d
              λ u e. complete after 0 0 e)
          small h
          λ v d k r.
            write_mem-Stepped start (bit_and (address i c) 4294967292) 4
              (merge v (d.registers i.rt)) after d small word r)
        (fails start)

  pub div-Stepped : (c : Cpu) → Running start c → Stepped start (execute_div i after c)
  div-Stepped c h =
      let a = c.registers i.rs in
      let b = c.registers i.rt in
      let big = magnitude-word a (h.words i.rs) in
      let quotient =
        with_sign-word (differ (has_sign a) (has_sign b)) (magnitude a / magnitude b)
          (omega (arith, div-le_self (magnitude a) (magnitude b))) in
      let remainder =
        with_sign-word (has_sign a) (magnitude a % magnitude b)
          (omega (arith, mod-le (magnitude a) (magnitude b))) in
      either start (b == 0) _ _
        (write_pair-Stepped start 0 0 after c word (omega arith) (omega arith) h)
        (either start ((a == sign_bit) && (b == 4294967295)) none _ (fails start)
          (write_pair-Stepped start _ _ after c word remainder quotient h))

  pub divu-Stepped : (c : Cpu) → Running start c → Stepped start (execute_divu i after c)
  divu-Stepped c h =
      let a = c.registers i.rs in
      let b = c.registers i.rt in
      let w = h.words i.rs in
      either start (b == 0) _ _
        (write_pair-Stepped start 0 0 after c word (omega arith) (omega arith) h)
        (write_pair-Stepped start _ _ after c word (omega (arith, mod-le a b))
          (omega (arith, div-le_self a b)) h)

  pub mult-Stepped :
      (signed : Bool) (c : Cpu) → Running start c → Stepped start (execute_mult signed i after c)
  mult-Stepped signed c h =
      let product =
        mult-Holds (c.registers i.rs) (c.registers i.rt) signed (h.words i.rs) (h.words i.rt) in
      write_pair-Stepped start _ _ after c word product.hi_word product.lo_word h

  pub jump-Stepped : (c : Cpu) → Running start c → Stepped start (jump i after c)
  jump-Stepped c h =
      complete-Stepped start _ 0 0 c
        (mask-word after 4026531840 (index_to_addr i.extra) word (omega arith)) (omega arith)
        (omega arith) h
