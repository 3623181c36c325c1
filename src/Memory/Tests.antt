-- ===== src/Memory/Tests.antt =====
-- A machine of code/machine/translate.cc with one page.
use usc_cs.Common.{ℕ, ◌+◌, ◌≤◌, ◌<◌, ◌≡◌, ◌⊎◌, inr, refl, true, false, none, some}
use usc_cs.Memory.{
  Machine, TranslationEntry, ExceptionType, refused, physical, memory_size, translate, read_mem,
  write_mem, raised, done, address_error_exception,
}
use usc_cs.Memory.Translation.{OneTable, has_table, Located, translate_lem}
use usc_cs.Memory.Transfer.{write_then_read}

-- Page 0 is at frame 2.
abbrev entry : TranslationEntry
entry = record {
  virtual_page = 0;
  physical_page = 2;
  valid = true;
  read_only = false;
  used = false;
  dirty = false;
}

abbrev machine : Machine
machine = record {
  main_memory = λ _. 0;
  tlb = none;
  page_table = some (λ _. entry);
  page_table_size = 1;
  last_used = λ _. 0;
  total_ticks = 70;
}

machine-OneTable : OneTable machine
machine-OneTable = has_table (λ _. entry) refl refl

translate_example :
    ((e : ExceptionType) × (translate 12 4 true machine ≡ some (refused e)))
    ⊎ ((p : ℕ) × (m' : Machine) × (translate 12 4 true machine ≡ some (physical p m'))
        × Located machine 12 4 p m')
translate_example = translate_lem machine 12 4 true machine-OneTable (inr (inr refl))

write_then_read_example :
    ((e : ExceptionType) × (write_mem 12 4 70000 machine ≡ some (raised e)))
    ⊎ ((p : ℕ) × (m' m'' : Machine) × (write_mem 12 4 70000 machine ≡ some (done tt m'))
        × (p + 4 ≤ memory_size)
        × ((a : ℕ) → (a < p) ⊎ (p + 4 ≤ a) → m'.main_memory a ≡ machine.main_memory a)
        × (read_mem 12 4 m' ≡ some (done 70000 m''))
        × (m''.main_memory ≡ m'.main_memory))
write_then_read_example = write_then_read machine 12 4 70000 machine-OneTable (inr (inr refl))

-- A word at an odd address is refused.
odd_test : translate 13 4 true machine ≡ some (refused address_error_exception)
unfolding translate
odd_test = refl
