-- ===== src/Memory/Again.antt =====
-- A second translation of the same address, by Machine::Translate (code/machine/translate.cc).
use usc_cs.Common.{
  ℕ, zero, suc, ◌+◌, ◌/◌, ◌%◌, ◌≡◌, inl, inr, refl, ◌∙◌, sym, ap, Bool, true, false, Option, none,
  some, leb, if◌then◌else◌, put, Bool-cases, arith,
}
use usc_cs.Memory.{
  TranslationEntry, Machine, Translated, refused, address_error_exception, physical, page_size,
  tlb_size, misaligned, find_entry, touch, through, by_table, by_entry, look_up, translate,
  write_table, write_tlb, present,
}
use usc_cs.Memory.Translation.{OneTable, has_table, has_tlb}

-- An entry that let a write through lets the next read through, to the same address.
through_again :
    (e : TranslationEntry) (s t : TranslationEntry → Machine) (offset size p : ℕ) (m : Machine)
    → through e s offset size true ≡ some (physical p m)
    → (m ≡ s (touch true e))
      × (through (touch true e) t offset size false
          ≡ some (physical p (t (touch false (touch true e)))))
through_again e s t offset size p m h = ground arith

present_inv :
    (valid : Bool) (r : Option Translated) (p : ℕ) (m : Machine)
    → present valid r ≡ some (physical p m)
    → (valid ≡ true) × (r ≡ some (physical p m))
present_inv true r p m h = (refl, h)
present_inv false r p m h = cc

-- The tables of the second machine are those that the first translation left.
pub record SameTables (m n : Machine) : Type 0 where
  pub tlb : n.tlb ≡ m.tlb
  pub page_table : n.page_table ≡ m.page_table
  pub size : n.page_table_size ≡ m.page_table_size

table_read :
    (t : ℕ → TranslationEntry) (e : TranslationEntry) (addr size : ℕ) (n : Machine)
    (r : Option Translated)
    → t (addr / page_size) ≡ e
    → leb n.page_table_size (addr / page_size) ≡ false
    → e.valid ≡ true
    → through e (write_table n t (addr / page_size)) (addr % page_size) size false ≡ r
    → by_table t addr size false n ≡ r
table_read t e addr size n r at inside valid run = rw inside (
    ap
      (λ e.
        present e.valid
          (through e (write_table n t (addr / page_size)) (addr % page_size) size false))
      at
    ∙ ap
        (λ b.
          present b (through e (write_table n t (addr / page_size)) (addr % page_size) size false))
        valid
    ∙ run)

table_again :
    (table : ℕ → TranslationEntry) (addr size p : ℕ) (m m' n : Machine)
    → by_table table addr size true m ≡ some (physical p m')
    → (m' ≡ write_table m table (addr / page_size) (touch true (table (addr / page_size))))
      × (n.page_table_size ≡ m.page_table_size
          → (n' : Machine) × (n'.main_memory ≡ n.main_memory)
            × (by_table
                  (put table (addr / page_size) (touch true (table (addr / page_size))))
                  addr
                  size
                  false
                  n
                ≡ some (physical p n')))
table_again table addr size p m m' n h =
    elim (Bool-cases (leb m.page_table_size (addr / page_size))) [
      | inl out ↦ let never = rw out at h in absurd cc
      | inr inside ↦
          let vpn = addr / page_size in
          let e = touch true (table vpn) in
          let (valid, run) = present_inv (table vpn).valid _ p m' (rw inside at h) in
          let (same, again) =
            through_again (table vpn) (write_table m table vpn)
              (write_table n (put table vpn e) vpn) (addr % page_size) size p m' run in
          (
            same,
            λ sizes. (
              write_table n (put table vpn e) vpn (touch false e),
              refl,
              table_read (put table vpn e) e addr size n _ (ground arith) (rw sizes inside) valid
                  again,
            ),
          )
    ]

find_entry-same :
    (rounds i vpn : ℕ) (t u : ℕ → TranslationEntry)
    → ((j : ℕ) → ((u j).valid ≡ (t j).valid) × ((u j).virtual_page ≡ (t j).virtual_page))
    → find_entry rounds i vpn u ≡ find_entry rounds i vpn t
unfolding find_entry
find_entry-same zero i vpn t u h = refl
find_entry-same (suc rounds) i vpn t u h =
    rw ((h i).0, (h i).1, find_entry-same rounds (i + 1) vpn t u h) refl

entry_again :
    (tlb : ℕ → TranslationEntry) (i : ℕ) (addr size p : ℕ) (m m' n : Machine)
    → by_entry tlb (some i) addr size true m ≡ some (physical p m')
    → (m' ≡ write_tlb m tlb i (touch true (tlb i)))
      × ((n' : Machine) × (n'.main_memory ≡ n.main_memory)
          × (by_entry (put tlb i (touch true (tlb i))) (some i) addr size false n
              ≡ some (physical p n')))
entry_again tlb i addr size p m m' n h =
    let e = touch true (tlb i) in
    let u = put tlb i e in
    let (same, again) =
      through_again (tlb i) (write_tlb m tlb i) (write_tlb n u i) (addr % page_size) size p m' h in
    let at : u i ≡ e = ground arith in
    (
      same,
      (
        write_tlb n u i (touch false e),
        refl,
        ap (λ e. through e (write_tlb n u i) (addr % page_size) size false) at ∙ again,
      ),
    )

tlb_again :
    (tlb : ℕ → TranslationEntry) (r : Option ℕ) (addr size p : ℕ) (m m' n : Machine)
    → find_entry tlb_size 0 (addr / page_size) tlb ≡ r
    → by_entry tlb r addr size true m ≡ some (physical p m')
    → (u : ℕ → TranslationEntry) × (m'.tlb ≡ some u)
      × (m'.page_table ≡ m.page_table)
      × (n' : Machine) × (n'.main_memory ≡ n.main_memory)
      × (look_up (some u) none addr size false n ≡ some (physical p n'))
tlb_again tlb none addr size p m m' n found h = cc
tlb_again tlb (some i) addr size p m m' n found h =
    let (same, (n', memory, run)) = entry_again tlb i addr size p m m' n h in
    let u = put tlb i (touch true (tlb i)) in
    let there : find_entry tlb_size 0 (addr / page_size) u ≡ some i =
      find_entry-same tlb_size 0 (addr / page_size) tlb u (λ j. (ground arith, ground arith))
      ∙ found in
    (
      u,
      ap (λ m. m.tlb) same,
      ap (λ m. m.page_table) same,
      n',
      memory,
      ap (λ r. by_entry u r addr size false n) there ∙ run,
    )

refuse_odd :
    (b : Bool)
    → b ≡ false
    → (r r' : Option Translated) → r ≡ r'
    → (if b then some (refused address_error_exception) else r) ≡ r'
refuse_odd b e r r' h = rw e h

-- After a write went through, a read of the same address goes to the same physical address.
pub translate_again :
    (addr size p : ℕ) (m m' n : Machine)
    → OneTable m
    → translate addr size true m ≡ some (physical p m')
    → SameTables m' n
    → (n' : Machine) × (n'.main_memory ≡ n.main_memory)
      × (translate addr size false n ≡ some (physical p n'))
unfolding translate
translate_again addr size p m m' n one h same = elim (Bool-cases (misaligned size addr)) [
  | inl odd ↦ let never = rw odd at h in absurd cc
  | inr aligned ↦
      let (n', memory, run) = go one (rw aligned at h) in
      (n', memory, refuse_odd (misaligned size addr) aligned _ _ run)
]
  where
    vpn : ℕ
    vpn = addr / page_size

    go :
        OneTable m
        → look_up m.tlb m.page_table addr size true m ≡ some (physical p m')
        → (n' : Machine) × (n'.main_memory ≡ n.main_memory)
          × (look_up n.tlb n.page_table addr size false n ≡ some (physical p n'))
    go (has_table table no_tlb e) run =
        let run' =
          ap (λ t. look_up none t addr size true m) (sym e)
          ∙ ap (λ t. look_up t m.page_table addr size true m) (sym no_tlb)
          ∙ run in
        let (eq, again) = table_again table addr size p m m' n run' in
        let (n', memory, read) = again (same.size ∙ ap (λ m. m.page_table_size) eq) in
        (
          n',
          memory,
          ap (λ t. look_up t n.page_table addr size false n)
                (same.tlb ∙ ap (λ m. m.tlb) eq ∙ no_tlb)
              ∙ ap (λ t. look_up none t addr size false n)
                  (same.page_table ∙ ap (λ m. m.page_table) eq)
              ∙ read,
        )
    go (has_tlb tlb e no_table) run =
        let run' =
          ap (λ t. look_up (some tlb) t addr size true m) (sym no_table)
          ∙ ap (λ t. look_up t m.page_table addr size true m) (sym e)
          ∙ run in
        let (u, has_u, kept, n', memory, read) = tlb_again tlb _ addr size p m m' n refl run' in
        (
          n',
          memory,
          ap (λ t. look_up t n.page_table addr size false n) (same.tlb ∙ has_u)
              ∙ ap (λ t. look_up (some u) t addr size false n) (same.page_table ∙ kept ∙ no_table)
              ∙ read,
        )
