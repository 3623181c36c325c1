-- ===== src/Syscalls/Creation.antt =====
-- The life of a lock behind its index starts in CreateLock_Syscall of code/userprog/exception.cc.
use usc_cs.Common.{
  ℕ, ◌<◌, ◌≤◌, ◌≡◌, ◌≢◌, ◌⊎◌, refl, ◌∙◌, sym, ap, inl, inr, true, false, List, length, ◌==◌,
  Bool-cases, Option-cases, arith,
}
use usc_cs.Common.Int.{pos}
use usc_cs.BitMap.{BitMap, div_round_up, bits_in_word}
use usc_cs.BitMap.Bits.{IsValid, Sets, used, find_lem, AllWords}
use usc_cs.BitMap.Lifetime.{new_lem}
use usc_cs.Synch.{is_busy, new_lock}
use usc_cs.Syscalls.{ok, halted, Tables, max_locks_conditions}
use usc_cs.Syscalls.Create.{allocate, create_lock_syscall, lock_created}
use usc_cs.Syscalls.Validity.{MapOk}
use usc_cs.Syscalls.Deletion.{Mine}

allocate_lem :
    (map : BitMap) (size : ℕ) (memory : List ℕ)
    → MapOk map size
    → length memory ≡ div_round_up max_locks_conditions bits_in_word
    → AllWords memory
    → (m : BitMap) × (n : ℕ) × (allocate map size memory ≡ ok (m, n))
      × IsValid m
      × (m.num_bits ≡ n)
      × (0 < n)
      × (((size ≡ 0) × ((i : ℕ) → i < n → used m i ≡ false)) ⊎ ((size ≡ n) × (map ≡ m)))
allocate_lem map size memory h words fit = elim (Bool-cases (size == 0)) [
  | inl fresh ↦
      let (m, run, valid, bits, clear) = new_lem max_locks_conditions memory words fit in
      (
        m,
        max_locks_conditions,
        rw (fresh, run) refl,
        valid,
        bits,
        omega arith,
        inl (ground arith, λ i small. clear i small),
      )
  | inr old ↦ elim h [
    | inl zero_size ↦ absurd (ground arith)
    | inr (valid, bits) ↦ (map, size, rw old refl, valid, bits, ground arith, inr (refl, refl))
  ]
]

-- What CreateLock leaves behind when it answers the index `n`.
pub record Creates (k : Tables) (n : ℕ) (k' : Tables) : Type 0 where
  pub mine : Mine k' n
  pub lock_free : is_busy (k'.lock_table n).lock k'.sys ≡ false
  pub uncounted : (k'.lock_table n).acquire_count ≡ pos 0
  -- The table is new, or the entry was free and the others are as before.
  pub others :
      (k.lock_array_size ≡ 0)
      ⊎ ((used k.lock_map n ≡ false)
          × ((i : ℕ)
              → i ≢ n
              → (used k'.lock_map i ≡ used k.lock_map i) × (k'.lock_table i ≡ k.lock_table i)))

abbrev Before : Tables → BitMap → ℕ → Type 0
Before k m n =
    ((k.lock_array_size ≡ 0) × ((i : ℕ) → i < n → used m i ≡ false))
    ⊎ ((k.lock_array_size ≡ n) × (k.lock_map ≡ m))

full_table :
    (k : Tables) (m : BitMap) (size : ℕ)
    → m.num_bits ≡ size
    → 0 < size
    → Before k m size
    → ((j : ℕ) → 0 ≤ j → j < m.num_bits → used m j ≡ true)
    → (0 < k.lock_array_size) × ((i : ℕ) → i < k.lock_array_size → used k.lock_map i ≡ true)
full_table k m size bits some_bits (inl (fresh, clear)) all =
    let on = all 0 (omega arith) (omega arith) in let off = clear 0 some_bits in absurd cc
full_table k m size bits some_bits (inr (old, eq)) all =
    (omega arith, λ i small. ap (λ m. used m i) eq ∙ all i (omega arith) (omega arith))

created-Creates :
    (k : Tables) (n : ℕ) (m c : BitMap) (size : ℕ)
    → m.num_bits ≡ size
    → n < m.num_bits
    → used m n ≡ false
    → Before k m size
    → Sets m n true c
    → Creates k n (lock_created n c size k)
unfolding new_lock
created-Creates k n m c size bits small clear before sets =
    let size_c = sets.bits in
    record {
      mine = record {
        valid = sets.valid;
        size = size_c ∙ bits;
        bound = omega arith;
        marked = ground (arith, sets.at n);
        space = ground arith;
      };
      lock_free = ground arith;
      uncounted = ground arith;
      others = elim before [
        | inl (none_yet, _) ↦ inl none_yet
        | inr (_, eq) ↦ inr (
          ap (λ m. used m n) eq ∙ clear,
          λ i other.
              let kept : used m i ≡ used k.lock_map i = ap (λ m. used m i) (sym eq) in
              (ground (arith, sets.at i), ground arith),
        )
      ];
    }

-- CreateLock halts the machine exactly where the table has been allocated and every bit of it is
-- marked; otherwise it answers an index of the table that was free and now passes the caller's tests,
-- with a free lock and no Acquire counted, and the other entries stay as they are.
pub create_lock_lem :
    (memory : List ℕ) (k : Tables)
    → MapOk k.lock_map k.lock_array_size
    → length memory ≡ div_round_up max_locks_conditions bits_in_word
    → AllWords memory
    → ((create_lock_syscall memory k ≡ halted)
        × (0 < k.lock_array_size)
        × ((i : ℕ) → i < k.lock_array_size → used k.lock_map i ≡ true))
      ⊎ ((n : ℕ) × (k' : Tables) × (create_lock_syscall memory k ≡ ok (n, k')) × Creates k n k')
unfolding create_lock_syscall new_lock
create_lock_lem memory k h words fit =
    let (m, size, run, valid, bits, some_bits, before) =
      allocate_lem k.lock_map k.lock_array_size memory h words fit in
    let (c, r, found, finds) = find_lem m valid in
    elim (Option-cases r) [
      | inl e ↦
          let (unchanged, all) = finds.full e in
          let (old, marked) = full_table k m size bits some_bits before all in
          inl (rw (run, found, e) refl, old, marked)
      | inr (n, e) ↦
          let (small, free_before, earlier, sets) = finds.got n e in
          inr (
            n,
            lock_created n c size k,
            rw (run, found, e) refl,
            created-Creates k n m c size bits small free_before before sets,
          )
    ]
