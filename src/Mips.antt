-- ===== src/Mips.antt =====
-- The simulated processor of code/machine/mipssim.cc and code/machine/machine.cc: its registers, the
-- delayed load and the way into the kernel. An int is its pattern of 32 bits, and signed arithmetic
-- wraps as it does on the host.
pub mod Words
pub mod Masks
pub mod Decode
pub mod Multiply
pub mod Execute
mod Tests
use usc_cs.Common.{
  ℕ, ◌+◌, ◌-◌, ◌*◌, ◌/◌, ◌%◌, ◌^◌, Bool, not, if◌then◌else◌, ltb, ◌==◌, put, Option, some,
}
use usc_cs.Memory.{Machine, ExceptionType}
use Prim.Native.Nat.{bit_and}

abbrev pub r31 : ℕ
r31 = 31

abbrev pub hi_reg : ℕ
hi_reg = 32

abbrev pub lo_reg : ℕ
lo_reg = 33

abbrev pub pc_reg : ℕ
pc_reg = 34

abbrev pub next_pc_reg : ℕ
next_pc_reg = 35

abbrev pub prev_pc_reg : ℕ
prev_pc_reg = 36

abbrev pub load_reg : ℕ
load_reg = 37

abbrev pub load_value_reg : ℕ
load_value_reg = 38

abbrev pub bad_vaddr_reg : ℕ
bad_vaddr_reg = 39

pub record Cpu : Type 0 where
  pub registers : ℕ → ℕ
  pub machine : Machine

-- The instruction is done, or the kernel's ExceptionHandler is entered in this state.
pub data Outcome : Type 0 where
  finished : Cpu → Outcome
  trapped : ExceptionType → Cpu → Outcome

-- `registers[r] = v;`
abbrev pub set : ℕ → ℕ → Cpu → Cpu
set r v c = record { registers = put c.registers r v; machine = c.machine }

-- Machine::DelayedLoad
abbrev pub delayed_load : ℕ → ℕ → Cpu → Cpu
delayed_load next_reg next_value c =
    let loaded = set (c.registers load_reg) (c.registers load_value_reg) c in
    set 0 0 (set load_value_reg next_value (set load_reg next_reg loaded))

-- Machine::RaiseException, up to the call of the handler
abbrev pub raise_exception : ExceptionType → ℕ → Cpu → Outcome
raise_exception which bad_vaddr c = trapped which (delayed_load 0 0 (set bad_vaddr_reg bad_vaddr c))

-- The end of Machine::OneInstruction: the delayed load, then the program counters.
abbrev pub advance : ℕ → Cpu → Cpu
advance pc_after c =
    let c = set prev_pc_reg (c.registers pc_reg) c in
    let c = set pc_reg (c.registers next_pc_reg) c in set next_pc_reg pc_after c

abbrev pub complete : ℕ → ℕ → ℕ → Cpu → Option Outcome
complete pc_after next_load_reg next_load_value c =
    some (finished (advance pc_after (delayed_load next_load_reg next_load_value c)))
