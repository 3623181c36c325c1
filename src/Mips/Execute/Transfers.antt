-- ===== src/Mips/Execute/Transfers.antt =====
-- The loads and stores of Machine::OneInstruction (code/machine/mipssim.cc).
use usc_cs.Common.{ℕ, Bool, not, ◌&&◌, if◌then◌else◌, ◌==◌, Option, none, some, ◌>>=◌}
use usc_cs.Memory.{address_error_exception, Access, raised, done, read_mem, write_mem}
use usc_cs.Mips.{Cpu, Outcome, raise_exception, complete, load_reg, load_value_reg}
use usc_cs.Mips.Words.{plus, shift_left, shift_right}
use usc_cs.Mips.Decode.{Instruction}
use Prim.Native.Nat.{bit_and, bit_or}

-- What follows a ReadMem or WriteMem at `addr`, which raises its exception itself.
abbrev pub after_access {ℓ} :
    {A : Type ℓ} → ℕ → Cpu → (A → Cpu → Option Outcome) → Access A → Option Outcome
after_access addr c k (raised e) = some (raise_exception e addr c)
after_access addr c k (done v m) = k v (record { registers = c.registers; machine = m })

-- `if (!machine->ReadMem(addr, size, &value)) return;`
abbrev pub with_read : ℕ → ℕ → Cpu → (ℕ → Cpu → Option Outcome) → Option Outcome
with_read addr size c k = do r ← read_mem addr size c.machine; after_access addr c k r

-- `if (!machine->WriteMem(addr, size, value)) return;`
abbrev pub with_write : ℕ → ℕ → ℕ → Cpu → (Unit {0} → Cpu → Option Outcome) → Option Outcome
with_write addr size value c k = do r ← write_mem addr size value c.machine; after_access addr c k r

-- `registers[(int)instr->rs] + instr->extra`
abbrev pub address : Instruction → Cpu → ℕ
address i c = plus (c.registers i.rs) i.extra

-- The value of OP_LB and OP_LBU.
abbrev pub byte_value : Bool → ℕ → ℕ
byte_value signed value =
    if not (bit_and value 128 == 0) && signed then bit_or value 4294967040 else bit_and value 255

-- OP_LB and OP_LBU
abbrev pub load_byte : Bool → Instruction → ℕ → Cpu → Option Outcome
load_byte signed i pc_after c =
    with_read (address i c) 1 c λ value c. complete pc_after i.rt (byte_value signed value) c

-- The value of OP_LH and OP_LHU.
abbrev pub half_value : Bool → ℕ → ℕ
half_value signed value =
    if not (bit_and value 32768 == 0) && signed
    then bit_or value 4294901760
    else bit_and value 65535

-- OP_LH and OP_LHU
abbrev pub load_half : Bool → Instruction → ℕ → Cpu → Option Outcome
load_half signed i pc_after c =
    let tmp = address i c in
    if not (bit_and tmp 1 == 0)
    then some (raise_exception address_error_exception tmp c)
    else with_read tmp 2 c λ value c. complete pc_after i.rt (half_value signed value) c

-- OP_LW
abbrev pub load_word : Instruction → ℕ → Cpu → Option Outcome
load_word i pc_after c =
    let tmp = address i c in
    if not (bit_and tmp 3 == 0)
    then some (raise_exception address_error_exception tmp c)
    else with_read tmp 4 c λ value c. complete pc_after i.rt value c

-- The value that the register has once the pending load is done.
abbrev pub pending : Instruction → Cpu → ℕ
pending i c = if c.registers load_reg == i.rt then c.registers load_value_reg else c.registers i.rt

-- The four cases of a `switch (tmp & 0x3)`.
abbrev pub by_offset : ℕ → ℕ → ℕ → ℕ → ℕ → ℕ
by_offset offset a b c d =
    if offset == 0 then a else if offset == 1 then b else if offset == 2 then c else d

-- The switch of OP_LWL: the word read, merged with the old value.
abbrev pub left_loaded : ℕ → ℕ → ℕ → ℕ
left_loaded offset value old =
    by_offset offset value (bit_or (bit_and old 255) (shift_left value 8))
      (bit_or (bit_and old 65535) (shift_left value 16))
      (bit_or (bit_and old 16777215) (shift_left value 24))

-- OP_LWL
abbrev pub load_word_left : Instruction → ℕ → Cpu → Option Outcome
load_word_left i pc_after c =
    let tmp = address i c in
    if bit_and tmp 3 == 0
    then with_read tmp 4 c
        (λ value c. complete pc_after i.rt (left_loaded (bit_and tmp 3) value (pending i c)) c)
    else none

-- The switch of OP_LWR.
abbrev pub right_loaded : ℕ → ℕ → ℕ → ℕ
right_loaded offset value old =
    by_offset offset (bit_or (bit_and old 4294967040) (bit_and (shift_right value 24) 255))
      (bit_or (bit_and old 4294901760) (bit_and (shift_right value 16) 65535))
      (bit_or (bit_and old 4278190080) (bit_and (shift_right value 8) 16777215)) value

-- OP_LWR
abbrev pub load_word_right : Instruction → ℕ → Cpu → Option Outcome
load_word_right i pc_after c =
    let tmp = address i c in
    if bit_and tmp 3 == 0
    then with_read tmp 4 c
        (λ value c. complete pc_after i.rt (right_loaded (bit_and tmp 3) value (pending i c)) c)
    else none

-- OP_SB, OP_SH and OP_SW
abbrev pub store_value : ℕ → Instruction → ℕ → Cpu → Option Outcome
store_value size i pc_after c =
    with_write (address i c) size (c.registers i.rt) c λ _ c. complete pc_after 0 0 c

-- The end of OP_SWL and OP_SWR: the word at `tmp & ~0x3` is read, merged with the register, and
-- written.
abbrev pub merge_store : (ℕ → ℕ → ℕ) → Instruction → ℕ → Cpu → Option Outcome
merge_store merge i pc_after c =
    let tmp = address i c in
    let word = bit_and tmp 4294967292 in
    if bit_and tmp 3 == 0
    then with_read word 4 c (λ value c.
      with_write word 4 (merge value (c.registers i.rt)) c λ _ c. complete pc_after 0 0 c)
    else none

-- The switch of OP_SWL: the word in memory, merged with the register.
abbrev pub left_stored : ℕ → ℕ → ℕ → ℕ
left_stored offset value r =
    by_offset offset r (bit_or (bit_and value 4278190080) (bit_and (shift_right r 8) 16777215))
      (bit_or (bit_and value 4294901760) (bit_and (shift_right r 16) 65535))
      (bit_or (bit_and value 4294967040) (bit_and (shift_right r 24) 255))

-- OP_SWL
abbrev pub store_word_left : Instruction → ℕ → Cpu → Option Outcome
store_word_left i pc_after c = merge_store (left_stored (bit_and (address i c) 3)) i pc_after c

-- The switch of OP_SWR.
abbrev pub right_stored : ℕ → ℕ → ℕ → ℕ
right_stored offset value r =
    by_offset offset (bit_or (bit_and value 16777215) (shift_left r 24))
      (bit_or (bit_and value 65535) (shift_left r 16)) (bit_or (bit_and value 255) (shift_left r 8))
      r

-- OP_SWR
abbrev pub store_word_right : Instruction → ℕ → Cpu → Option Outcome
store_word_right i pc_after c = merge_store (right_stored (bit_and (address i c) 3)) i pc_after c
