-- ===== src/Memory.antt =====
-- code/machine/translate.cc: virtual memory behind a TLB or a page table, on a little-endian host whose
-- `char` is signed. An address or a value is a 32-bit word; an operation that returns `none` has failed
-- an ASSERT.
pub mod Translation
pub mod Again
pub mod Transfer
pub mod Contents
pub mod Bytes
mod Tests
use usc_cs.Common.{
  ℕ, zero, suc, ◌+◌, ◌*◌, ◌/◌, ◌%◌, ◌^◌, ◌-◌, Bool, true, false, not, ◌&&◌, ◌||◌, Option, none,
  some, ltb, leb, ◌==◌, if◌then◌else◌, ◌>>=◌, put, assert,
}

abbrev pub page_size : ℕ
page_size = 128

abbrev pub num_phys_pages : ℕ
num_phys_pages = 4096

abbrev pub memory_size : ℕ
memory_size = 524288

abbrev pub tlb_size : ℕ
tlb_size = 4

pub data ExceptionType : Type 0 where
  no_exception syscall_exception page_fault_exception read_only_exception bus_error_exception
        address_error_exception overflow_exception illegal_instr_exception num_exception_types :
      ExceptionType

-- The page numbers as unsigned words.
pub record TranslationEntry : Type 0 where
  pub virtual_page : ℕ
  pub physical_page : ℕ
  pub valid : Bool
  pub read_only : Bool
  pub used : Bool
  pub dirty : Bool

pub record Machine : Type 0 where
  pub main_memory : ℕ → ℕ
  -- NULL pointers are `none`.
  pub tlb : Option (ℕ → TranslationEntry)
  pub page_table : Option (ℕ → TranslationEntry)
  pub page_table_size : ℕ
  pub last_used : ℕ → ℕ
  -- stats->totalTicks
  pub total_ticks : ℕ

pub data Translated : Type 0 where
  refused : ExceptionType → Translated
  physical : ℕ → Machine → Translated

abbrev pub misaligned : ℕ → ℕ → Bool
misaligned size addr = ((size == 4) && not (addr % 4 == 0)) || ((size == 2) && not (addr % 2 == 0))

-- The first entry of the TLB from `i` on that is valid for the page.
unfoldable pub find_entry : ℕ → ℕ → ℕ → (ℕ → TranslationEntry) → Option ℕ
find_entry zero i vpn tlb = none
find_entry (suc rounds) i vpn tlb =
    let rest = find_entry rounds (i + 1) vpn tlb in
    if (tlb i).valid && ((tlb i).virtual_page == vpn) then some i else rest

-- `entry->use = TRUE; if (writing) entry->dirty = TRUE;`
abbrev pub touch : Bool → TranslationEntry → TranslationEntry
touch writing e = record e { used = true; dirty = e.dirty || writing }

-- What Translate does with the entry it found; `store` writes the entry back.
abbrev pub through :
    TranslationEntry → (TranslationEntry → Machine) → ℕ → ℕ → Bool → Option Translated
through e store offset size writing =
    if e.read_only && writing
    then some (refused read_only_exception)
    else if leb num_phys_pages e.physical_page
    then some (refused bus_error_exception)
    else (let p = e.physical_page * page_size + offset in
        assert (leb (p + size) memory_size) (physical p (store (touch writing e))))

-- The entry `e` written back to where it came from.
abbrev pub write_table : Machine → (ℕ → TranslationEntry) → ℕ → TranslationEntry → Machine
write_table m table vpn e = record m { page_table = some (put table vpn e) }

abbrev pub write_tlb : Machine → (ℕ → TranslationEntry) → ℕ → TranslationEntry → Machine
write_tlb m tlb i e = record m { tlb = some (put tlb i e) }

-- `if (!pageTable[vpn].valid) return PageFaultException;`
abbrev pub present : Bool → Option Translated → Option Translated
present true r = r
present false r = some (refused page_fault_exception)

abbrev pub by_table : (ℕ → TranslationEntry) → ℕ → ℕ → Bool → Machine → Option Translated
by_table table addr size writing m =
    let vpn = addr / page_size in
    if leb m.page_table_size vpn
    then some (refused address_error_exception)
    else present (table vpn).valid
        (through (table vpn) (write_table m table vpn) (addr % page_size) size writing)

abbrev pub by_entry : (ℕ → TranslationEntry) → Option ℕ → ℕ → ℕ → Bool → Machine → Option Translated
by_entry tlb none addr size writing m = some (refused page_fault_exception)
by_entry tlb (some i) addr size writing m =
    through (tlb i) (write_tlb m tlb i) (addr % page_size) size writing

-- There must be either a TLB or a page table, but not both.
abbrev pub look_up :
    Option (ℕ → TranslationEntry)
    → Option (ℕ → TranslationEntry)
    → ℕ
    → ℕ
    → Bool
    → Machine
    → Option Translated
look_up none none addr size writing m = none
look_up (some tlb) (some table) addr size writing m = none
look_up none (some table) addr size writing m = by_table table addr size writing m
look_up (some tlb) none addr size writing m =
    by_entry tlb (find_entry tlb_size 0 (addr / page_size) tlb) addr size writing m

-- Machine::Translate
unfoldable pub translate : ℕ → ℕ → Bool → Machine → Option Translated
translate addr size writing m =
    if misaligned size addr
    then some (refused address_error_exception)
    else look_up m.tlb m.page_table addr size writing m

-- The `n` bytes from `p` on, the first one the least significant.
abbrev pub load : ℕ → ℕ → (ℕ → ℕ) → ℕ
load zero p memory = 0
load (suc n) p memory = memory p + 256 * load n (p + 1) memory

abbrev pub store : ℕ → ℕ → ℕ → (ℕ → ℕ) → ℕ → ℕ
store zero p value memory = memory
store (suc n) p value memory = store n (p + 1) (value / 256) (put memory p (value % 256))

-- A byte as an int.
abbrev pub sign_extend : ℕ → ℕ
sign_extend b = if ltb b 128 then b else b + (2 ^ 32 - 256)

-- The `switch (size)`
abbrev pub read_value : ℕ → ℕ → (ℕ → ℕ) → Option ℕ
read_value size p memory =
    if size == 1
    then some (sign_extend (load 1 p memory))
    else assert ((size == 2) || (size == 4)) (load size p memory)

abbrev pub write_value : ℕ → ℕ → ℕ → (ℕ → ℕ) → Option (ℕ → ℕ)
write_value size p value memory =
    assert ((size == 1) || (size == 2) || (size == 4)) (store size p value memory)

-- An access succeeds, or raises an exception and returns FALSE.
pub data Access {ℓ} (A : Type ℓ) : Type ℓ where
  raised : ExceptionType → Access A
  done : A → Machine → Access A

abbrev pub stamp : ℕ → Machine → Machine
stamp p m = record m { last_used = put m.last_used (p / page_size) m.total_ticks }

abbrev pub read_at : ℕ → Translated → Option (Access ℕ)
read_at size (refused e) = some (raised e)
read_at size (physical p m) = do v ← read_value size p m.main_memory; some (done v (stamp p m))

-- Machine::ReadMem
unfoldable pub read_mem : ℕ → ℕ → Machine → Option (Access ℕ)
read_mem addr size m = do t ← translate addr size false m; read_at size t

abbrev pub write_at : ℕ → ℕ → Translated → Option (Access (Unit {0}))
write_at size value (refused e) = some (raised e)
write_at size value (physical p m) = do
  memory ← write_value size p value m.main_memory
  some (done tt (stamp p (record m { main_memory = memory })))

-- Machine::WriteMem
unfoldable pub write_mem : ℕ → ℕ → ℕ → Machine → Option (Access (Unit {0}))
write_mem addr size value m = do t ← translate addr size true m; write_at size value t
