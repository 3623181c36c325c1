-- ===== src/Syscalls/Create.antt =====
-- CreateLock_Syscall and CreateCondition_Syscall of code/userprog/exception.cc, without NETWORK.
use usc_cs.Common.{ℕ, ◌+◌, false, none, some, List, ◌==◌, if◌then◌else◌, put}
use usc_cs.Common.Int.{pos}
use usc_cs.BitMap.{BitMap}
use usc_cs.BitMap
use usc_cs.Synch.{new_lock, new_condition}
use usc_cs.Syscalls.{Outcome, ok, halted, ◌>>=◌, asserted, Tables, my_space, max_locks_conditions}

-- A table that its first use allocates. `memory` is what the new words of the map hold.
abbrev pub allocate : BitMap → ℕ → List ℕ → Outcome (BitMap × ℕ)
allocate map size memory =
    if size == 0
    then (do m ← asserted (BitMap.new max_locks_conditions memory); ok (m, max_locks_conditions))
    else ok (map, size)

-- Find a free entry; a full table shuts the machine down.
abbrev pub free_entry : BitMap → Outcome (BitMap × ℕ)
free_entry map = do
  (m, r) ← asserted (BitMap.find map)
  elim r [ none ↦ halted | some n ↦ ok (m, n) ]

-- The entry that CreateLock_Syscall fills, for the caller's address space.
abbrev pub lock_created : ℕ → BitMap → ℕ → Tables → Tables
lock_created n map size k = record k {
  sys = new_lock k.next_object (k.holds k.next_object) k.sys;
  lock_map = map;
  lock_table = put k.lock_table n (record {
    lock = k.next_object;
    lock_space = some (my_space k);
    is_to_be_deleted = false;
    acquire_count = pos 0;
  });
  lock_array_size = size;
  next_object = k.next_object + 1;
}

-- CreateLock_Syscall: the index of the new lock.
unfoldable pub create_lock_syscall : List ℕ → Tables → Outcome (ℕ × Tables)
create_lock_syscall memory k = do
  (map, size) ← allocate k.lock_map k.lock_array_size memory
  (map, n) ← free_entry map
  ok (n, lock_created n map size k)

-- CreateCondition_Syscall
unfoldable pub create_condition_syscall : List ℕ → Tables → Outcome (ℕ × Tables)
create_condition_syscall memory k = do
  (map, size) ← allocate k.condition_map k.condition_array_size memory
  (map, n) ← free_entry map
  ok (
    n,
    record k {
      sys = new_condition k.next_object (k.holds k.next_object) k.sys;
      condition_map = map;
      condition_table = put k.condition_table n (record {
        condition = k.next_object;
        condition_space = some (my_space k);
        is_to_be_deleted = false;
      });
      condition_array_size = size;
      next_object = k.next_object + 1;
    },
  )
