-- ===== src/Memory/Translation.antt =====
-- What Machine::Translate (code/machine/translate.cc) answers.
use usc_cs.Common.{
  ℕ, ◌+◌, ◌*◌, ◌/◌, ◌%◌, ◌≤◌, ◌≡◌, ◌⊎◌, inl, inr, refl, ◌∙◌, sym, ap, Bool, true, false, ◌&&◌,
  Option, none, some, leb, subst, Bool-cases, arith,
}
use usc_cs.Memory.{
  TranslationEntry, Machine, ExceptionType, page_fault_exception, read_only_exception,
  bus_error_exception, address_error_exception, Translated, refused, physical, page_size,
  num_phys_pages, memory_size, misaligned, touch, through, by_table, by_entry, look_up, translate,
  write_table, present, write_tlb,
}

-- Machine::Machine allocates one of the two tables.
pub data OneTable : Machine → Type 0 where
  has_table :
      {m : Machine} (table : ℕ → TranslationEntry)
      → m.tlb ≡ none
      → m.page_table ≡ some table
      → OneTable m
  has_tlb :
      {m : Machine} (tlb : ℕ → TranslationEntry)
      → m.tlb ≡ some tlb
      → m.page_table ≡ none
      → OneTable m

-- The sizes that the machine reads and writes.
abbrev pub IsSize : ℕ → Type 0
IsSize size = (size ≡ 1) ⊎ (size ≡ 2) ⊎ (size ≡ 4)

-- What a physical address that Translate answers is.
pub record Located (m : Machine) (addr size p : ℕ) (m' : Machine) : Type 0 where
  pub inside : p + size ≤ memory_size
  pub offset : p % page_size ≡ addr % page_size
  pub memory : m'.main_memory ≡ m.main_memory

pub Ends : Machine → ℕ → ℕ → Option Translated → Type 0
Ends m addr size r =
    ((e : ExceptionType) × (r ≡ some (refused e)))
    ⊎ ((p : ℕ) × (m' : Machine) × (r ≡ some (physical p m')) × Located m addr size p m')

through-Ends :
    (m : Machine) (addr size : ℕ) (e : TranslationEntry) (store : TranslationEntry → Machine)
    (w : Bool)
    → IsSize size
    → misaligned size addr ≡ false
    → ((e : TranslationEntry) → (store e).main_memory ≡ m.main_memory)
    → Ends m addr size (through e store (addr % page_size) size w)
unfolding Ends
through-Ends m addr size e store w sizes aligned keeps = elim (Bool-cases (e.read_only && w)) [
  | inl protected ↦ inl (read_only_exception, rw protected refl)
  | inr may ↦ elim (Bool-cases (leb num_phys_pages e.physical_page)) [
    | inl big ↦ inl (bus_error_exception, rw (may, big) refl)
    | inr small ↦
        let p = e.physical_page * page_size + addr % page_size in
        let bound : p + size ≤ memory_size = ground arith in
        let test : leb (p + size) memory_size ≡ true = ground arith in
        inr (
          p,
          store (touch w e),
          rw (may, small, test) refl,
          record { inside = bound; offset = omega arith; memory = keeps _ },
        )
  ]
]

present-Ends :
    (m : Machine) (addr size : ℕ) (valid : Bool) (r : Option Translated)
    → Ends m addr size r
    → Ends m addr size (present valid r)
unfolding Ends
present-Ends m addr size true r h = h
present-Ends m addr size false r h = inl (page_fault_exception, refl)

by_table-Ends :
    (m : Machine) (addr size : ℕ) (table : ℕ → TranslationEntry) (w : Bool)
    → IsSize size
    → misaligned size addr ≡ false
    → Ends m addr size (by_table table addr size w m)
unfolding Ends
by_table-Ends m addr size table w sizes aligned =
    elim (Bool-cases (leb m.page_table_size (addr / page_size))) [
      | inl outside ↦ inl (address_error_exception, rw outside refl)
      | inr inside ↦ rw inside (
          present-Ends m addr size (table (addr / page_size)).valid _ (
            through-Ends m addr size (table (addr / page_size))
              (write_table m table (addr / page_size)) w sizes aligned (λ e. refl)))
    ]

by_entry-Ends :
    (m : Machine) (addr size : ℕ) (tlb : ℕ → TranslationEntry) (i : Option ℕ) (w : Bool)
    → IsSize size
    → misaligned size addr ≡ false
    → Ends m addr size (by_entry tlb i addr size w m)
unfolding Ends
by_entry-Ends m addr size tlb none w sizes aligned = inl (page_fault_exception, refl)
by_entry-Ends m addr size tlb (some i) w sizes aligned =
    through-Ends m addr size (tlb i) (write_tlb m tlb i) w sizes aligned (λ e. refl)

-- With a TLB or a page table, and for a size of 1, 2 or 4, Translate fails no ASSERT: it refuses the
-- access with an exception, or answers a physical address that is inside the memory with all `size`
-- bytes, at the offset of the virtual address in its page, and leaves the memory alone.
pub translate_lem :
    (m : Machine) (addr size : ℕ) (w : Bool)
    → OneTable m
    → IsSize size
    → ((e : ExceptionType) × (translate addr size w m ≡ some (refused e)))
      ⊎ ((p : ℕ) × (m' : Machine) × (translate addr size w m ≡ some (physical p m'))
          × Located m addr size p m')
unfolding translate Ends
translate_lem m addr size w one sizes = elim (Bool-cases (misaligned size addr)) [
  | inl odd ↦ inl (address_error_exception, rw odd refl)
  | inr aligned ↦ rw aligned (go one aligned)
]
  where
    go :
        OneTable m
        → misaligned size addr ≡ false
        → Ends m addr size (look_up m.tlb m.page_table addr size w m)
    go (has_table table no_tlb e) aligned =
        subst (Ends m addr size)
          (sym (
            ap (λ t. look_up t m.page_table addr size w m) no_tlb
            ∙ ap (λ t. look_up none t addr size w m) e))
          (by_table-Ends m addr size table w sizes aligned)
    go (has_tlb tlb e no_table) aligned =
        subst (Ends m addr size)
          (sym (
            ap (λ t. look_up t m.page_table addr size w m) e
            ∙ ap (λ t. look_up (some tlb) t addr size w m) no_table))
          (by_entry-Ends m addr size tlb _ w sizes aligned)
