-- ===== src/Memory/Contents.antt =====
-- What Machine::Translate and Machine::ReadMem (code/machine/translate.cc) leave in memory: they only
-- mark the entry of the page and the time of its use.
use usc_cs.Common.{
  ℕ, ◌≡◌, refl, Bool, true, false, Option, none, some, ◌&&◌, leb, ◌+◌, ◌*◌, ◌%◌, ◌/◌, assert,
  if-either, ◌>>=◌,
}
use usc_cs.Memory.{
  Machine, TranslationEntry, Translated, refused, physical, translate, through, by_entry, look_up,
  present, misaligned, read_mem, read_at, read_value, Access, raised, done, find_entry, page_size,
  num_phys_pages, tlb_size, touch, memory_size, write_tlb, write_table, stamp,
}

-- A translation that leaves the contents of memory as they are.
unfoldable pub Keeps : (ℕ → ℕ) → Option Translated → Type 0
Keeps memory none = Unit
Keeps memory (some (refused e)) = Unit
Keeps memory (some (physical p m)) = m.main_memory ≡ memory

through-Keeps :
    (memory : ℕ → ℕ) (e : TranslationEntry) (store : TranslationEntry → Machine) (offset size : ℕ)
    (w : Bool)
    → ((e : TranslationEntry) → (store e).main_memory ≡ memory)
    → Keeps memory (through e store offset size w)
unfolding Keeps
through-Keeps memory e store offset size w keeps = if-either (Keeps memory) (e.read_only && w) tt (
    if-either (Keeps memory) (leb num_phys_pages e.physical_page) tt
      (checked (leb (e.physical_page * page_size + offset + size) memory_size)))
  where
    checked :
        (b : Bool)
        → Keeps memory
            (assert b (physical (e.physical_page * page_size + offset) (store (touch w e))))
    checked true = keeps (touch w e)
    checked false = tt

present-Keeps :
    (memory : ℕ → ℕ) (b : Bool) (r : Option Translated)
    → Keeps memory r
    → Keeps memory (present b r)
unfolding Keeps
present-Keeps memory true r h = h
present-Keeps memory false r h = tt

look_up-Keeps :
    (tlb table : Option (ℕ → TranslationEntry)) (addr size : ℕ) (w : Bool) (m : Machine)
    → Keeps m.main_memory (look_up tlb table addr size w m)
unfolding Keeps
look_up-Keeps none none addr size w m = tt
look_up-Keeps (some tlb) (some table) addr size w m = tt
look_up-Keeps none (some table) addr size w m =
    if-either (Keeps m.main_memory) (leb m.page_table_size (addr / page_size)) tt (
      present-Keeps m.main_memory (table (addr / page_size)).valid
        (through (table (addr / page_size)) (write_table m table (addr / page_size))
          (addr % page_size) size w)
        (through-Keeps m.main_memory (table (addr / page_size))
          (write_table m table (addr / page_size)) (addr % page_size) size w λ e. refl))
look_up-Keeps (some tlb) none addr size w m = found (find_entry tlb_size 0 (addr / page_size) tlb)
  where
    found : (o : Option ℕ) → Keeps m.main_memory (by_entry tlb o addr size w m)
    found none = tt
    found (some i) =
        through-Keeps m.main_memory (tlb i) (write_tlb m tlb i) (addr % page_size) size w λ e. refl

pub translate-Keeps :
    (addr size : ℕ) (w : Bool) (m : Machine) → Keeps m.main_memory (translate addr size w m)
unfolding translate Keeps
translate-Keeps addr size w m =
    if-either (Keeps m.main_memory) (misaligned size addr) tt
      (look_up-Keeps m.tlb m.page_table addr size w m)

-- A read that leaves the contents of memory as they are.
unfoldable pub ReadKeeps : (ℕ → ℕ) → Option (Access ℕ) → Type 0
ReadKeeps memory none = Unit
ReadKeeps memory (some (raised e)) = Unit
ReadKeeps memory (some (done v m)) = m.main_memory ≡ memory

pub read_mem-Keeps : (addr size : ℕ) (m : Machine) → ReadKeeps m.main_memory (read_mem addr size m)
unfolding read_mem ReadKeeps Keeps
read_mem-Keeps addr size m = go (translate addr size false m) (translate-Keeps addr size false m)
  where
    stored :
        (n : Machine) (o : Option ℕ)
        → n.main_memory ≡ m.main_memory
        → ReadKeeps m.main_memory (do v ← o; some (done v n))
    stored n none h = tt
    stored n (some v) h = h

    go :
        (t : Option Translated)
        → Keeps m.main_memory t
        → ReadKeeps m.main_memory (do r ← t; read_at size r)
    go none h = tt
    go (some (refused e)) h = tt
    go (some (physical p n)) h = stored (stamp p n) (read_value size p n.main_memory) h
