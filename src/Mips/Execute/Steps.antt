-- ===== src/Mips/Execute/Steps.antt =====
-- What the parts of Machine::OneInstruction (code/machine/mipssim.cc) do to the registers.
use usc_cs.Common.{
  ℕ, ◌^◌, ◌<◌, Bool, true, false, not, ◌&&◌, ◌==◌, Option, none, some, if-either, ◌>>=◌, arith,
}
use usc_cs.Memory.{Access, raised, done, read_mem, write_mem}
use usc_cs.Memory.Bytes.{ReadBytes, read_mem-Bytes, WriteBytes, write_mem-Bytes}
use usc_cs.Mips.{Cpu, Outcome, set, complete, hi_reg, lo_reg}
use usc_cs.Mips.Words.{shift_right}
use usc_cs.Mips.Words.Bounds.{and-word, or-word, shift_right-word}
use usc_cs.Mips.Decode.{Instruction}
use usc_cs.Mips.Execute.{
  left_loaded, right_loaded, after_access, with_read, with_write, byte_value, half_value, by_offset,
  write, branch, link, write_pair, flag,
}
use usc_cs.Mips.Execute.Running.{Running, Stepped, set-Running, complete-Stepped, raise-Stepped}
use Prim.Native.Nat.{bit_and, bit_or}

-- The words of the loads and stores.
pub by_offset-word :
    (o a b c d : ℕ)
    → a < 2 ^ 32
    → b < 2 ^ 32
    → c < 2 ^ 32
    → d < 2 ^ 32
    → by_offset o a b c d < 2 ^ 32
by_offset-word o a b c d p q r s =
    if-either (λ x. x < 2 ^ 32) (o == 0) p
      (if-either (λ x. x < 2 ^ 32) (o == 1) q (if-either (λ x. x < 2 ^ 32) (o == 2) r s))

-- Bits of one word put beside a word.
pub mask-word : (a m b : ℕ) → a < 2 ^ 32 → b < 2 ^ 32 → bit_or (bit_and a m) b < 2 ^ 32
mask-word a m b h k = or-word (bit_and a m) b (and-word a m h) k

pub left_loaded-word : (o v old : ℕ) → v < 2 ^ 32 → old < 2 ^ 32 → left_loaded o v old < 2 ^ 32
left_loaded-word o v old h k =
    by_offset-word o _ _ _ _ h (mask-word old 255 _ k (omega arith))
      (mask-word old 65535 _ k (omega arith)) (mask-word old 16777215 _ k (omega arith))

pub right_loaded-word : (o v old : ℕ) → v < 2 ^ 32 → old < 2 ^ 32 → right_loaded o v old < 2 ^ 32
right_loaded-word o v old h k =
    by_offset-word o _ _ _ _
      (mask-word old 4294967040 _ k (and-word (shift_right v 24) 255 (shift_right-word v 24 h)))
      (mask-word old 4294901760 _ k (and-word (shift_right v 16) 65535 (shift_right-word v 16 h)))
      (mask-word old 4278190080 _ k (and-word (shift_right v 8) 16777215 (shift_right-word v 8 h)))
      h

pub byte_value-word : (signed : Bool) (v : ℕ) → v < 2 ^ 32 → byte_value signed v < 2 ^ 32
byte_value-word signed v h =
    if-either (λ x. x < 2 ^ 32) (not (bit_and v 128 == 0) && signed)
      (or-word v 4294967040 h (omega arith)) (and-word v 255 h)

pub half_value-word : (signed : Bool) (v : ℕ) → v < 2 ^ 32 → half_value signed v < 2 ^ 32
half_value-word signed v h =
    if-either (λ x. x < 2 ^ 32) (not (bit_and v 32768 == 0) && signed)
      (or-word v 4294901760 h (omega arith)) (and-word v 65535 h)

pub flag-word : (b : Bool) → flag b < 2 ^ 32
flag-word true = omega arith
flag-word false = omega arith

module _ (start : Cpu) where
  pub write-Stepped :
      (r v after : ℕ) (c : Cpu)
      → after < 2 ^ 32
      → r < 34
      → v < 2 ^ 32
      → Running start c
      → Stepped start (write r v after c)
  write-Stepped r v after c word low value h =
      complete-Stepped start after 0 0 (set r v c) word (omega arith) (omega arith)
        (set-Running start r v c low value h)

  pub write_pair-Stepped :
      (hi lo after : ℕ) (c : Cpu)
      → after < 2 ^ 32
      → hi < 2 ^ 32
      → lo < 2 ^ 32
      → Running start c
      → Stepped start (write_pair hi lo after c)
  write_pair-Stepped hi lo after c word p q h =
      write-Stepped hi_reg hi after (set lo_reg lo c) word (omega arith) p
        (set-Running start lo_reg lo c (omega arith) q h)

  pub branch-Stepped :
      (taken : Bool) (i : Instruction) (after : ℕ) (c : Cpu)
      → after < 2 ^ 32
      → Running start c
      → Stepped start (branch taken i after c)
  branch-Stepped taken i after c word h =
      complete-Stepped start _ 0 0 c (if-either (λ x. x < 2 ^ 32) taken (omega arith) word)
        (omega arith) (omega arith) h

  pub link-Running : (r : ℕ) (c : Cpu) → r < 34 → Running start c → Running start (link r c)
  link-Running r c low h = set-Running start r _ c low (omega arith) h

  pub fails : Stepped start none
  unfolding Stepped
  fails = tt

  -- What follows a read, and the read itself.
  pub read-Stepped :
      (addr size : ℕ) (c : Cpu) (k : ℕ → Cpu → Option Outcome)
      → addr < 2 ^ 32
      → Running start c
      → ((v : ℕ) (d : Cpu) → v < 2 ^ 32 → Running start d → Stepped start (k v d))
      → Stepped start (with_read addr size c k)
  unfolding ReadBytes
  read-Stepped addr size c k word h go =
      run (read_mem addr size c.machine) (read_mem-Bytes addr size c.machine h.bytes)
    where
      run :
          (r : Option (Access ℕ)) → ReadBytes r → Stepped start (do a ← r; after_access addr c k a)
      run none b = fails
      run (some (raised e)) b = raise-Stepped start e addr c word h
      run (some (done v m)) (w, b) =
          go v (record { registers = c.registers; machine = m }) w
            (record { words = h.words; load_target = h.load_target; bytes = b; kept = h.kept })

  pub write_mem-Stepped :
      (addr size value after : ℕ) (c : Cpu)
      → addr < 2 ^ 32
      → after < 2 ^ 32
      → Running start c
      → Stepped start (with_write addr size value c λ u d. complete after 0 0 d)
  unfolding WriteBytes
  write_mem-Stepped addr size value after c word next_word h =
      run (write_mem addr size value c.machine) (write_mem-Bytes addr size value c.machine h.bytes)
    where
      run :
          (r : Option (Access (Unit {0})))
          → WriteBytes r
          → Stepped start (do a ← r; after_access addr c (λ u d. complete after 0 0 d) a)
      run none b = fails
      run (some (raised e)) b = raise-Stepped start e addr c word h
      run (some (done v m)) b =
          complete-Stepped start after 0 0 (record { registers = c.registers; machine = m })
            next_word (omega arith) (omega arith)
            (record { words = h.words; load_target = h.load_target; bytes = b; kept = h.kept })
