-- ===== src/Syscalls/Deletion.antt =====
-- How DestroyLock_Syscall and Release_Syscall of code/userprog/exception.cc delete a lock.
use usc_cs.Common.{
  ℕ, ◌<◌, ◌≡◌, ◌⊎◌, refl, inl, inr, true, false, ◌&&◌, none, some, [], ltb, lt→ltb, ◌==◌, same,
  Bool-cases, arith,
}
use usc_cs.Common.Int.{pos}
use usc_cs.BitMap.{BitMap, clear}
use usc_cs.BitMap.Bits.{IsValid, Sets, used, test-used, clear_lem}
use usc_cs.Kernel.{put, busy, QueueId, of_lock, same_queue}
use usc_cs.Synch.{release, is_busy, lock_destructor}
use usc_cs.Syscalls.{
  ok, Tables, my_space, check_lock, acquire_syscall, release_at, release_syscall, destroy_lock_at,
  destroy_lock_syscall, is_zero,
}

-- The index passes the three tests of the caller.
pub record Mine (k : Tables) (n : ℕ) : Type 0 where
  pub valid : IsValid k.lock_map
  pub size : k.lock_map.num_bits ≡ k.lock_array_size
  pub bound : n < k.lock_array_size
  pub marked : used k.lock_map n ≡ true
  pub space : (k.lock_table n).lock_space ≡ some (my_space k)

same_refl : (n : ℕ) → same (some n) (some n) ≡ true
same_refl n = ground arith

check_lock-Mine : (k : Tables) (n : ℕ) → Mine k n → check_lock (pos n) k ≡ ok (some n)
unfolding check_lock
check_lock-Mine k n m =
    let t = test-used k.lock_map n (rw m.size m.bound) in
    let e = m.marked in
    let p = m.space in rw (lt→ltb _ _ m.bound, t, e) (rw p (rw (same_refl (my_space k)) refl))

check_lock-gone :
    (k : Tables) (n : ℕ)
    → n < k.lock_map.num_bits
    → used k.lock_map n ≡ false
    → check_lock (pos n) k ≡ ok none
unfolding check_lock
check_lock-gone k n h e = elim (Bool-cases (ltb n k.lock_array_size)) [
  | inl inside ↦ rw (inside, test-used k.lock_map n h, e) refl
  | inr outside ↦ rw outside refl
]

-- DestroyLock on a lock of the caller: where it is busy and its acquireCount is 0 the entry is only
-- marked for deletion; in every other case its bit is cleared at once, and the other bits and the
-- entries stay as they are, and those that wait for the lock are taken off its queue.
pub destroy_lock_lem :
    (k : Tables) (n : ℕ)
    → Mine k n
    → ((is_busy (k.lock_table n).lock k.sys && is_zero (k.lock_table n).acquire_count ≡ true)
        × (destroy_lock_syscall (pos n) k
            ≡ ok (record k {
              lock_table = put k.lock_table n (record (k.lock_table n) { is_to_be_deleted = true });
            })))
      ⊎ ((is_busy (k.lock_table n).lock k.sys && is_zero (k.lock_table n).acquire_count ≡ false)
          × (map : BitMap) × (destroy_lock_syscall (pos n) k
              ≡ ok (record k { lock_map = map; sys = lock_destructor (k.lock_table n).lock k.sys }))
          × Sets k.lock_map n false map)
unfolding destroy_lock_syscall destroy_lock_at
destroy_lock_lem k n m =
    let e = k.lock_table n in
    let run = check_lock-Mine k n m in
    elim (Bool-cases (is_busy e.lock k.sys && is_zero e.acquire_count)) [
      | inl later ↦ inl (later, rw (run, later) refl)
      | inr now ↦
          let (map, clear, sets) = clear_lem k.lock_map n m.valid (rw m.size m.bound) in
          inr (now, map, rw (run, now, clear) refl, sets)
    ]

-- DestroyLock deletes a lock that a thread holds, whenever its acquireCount is not 0: the index is
-- freed, and all that wait for the lock are taken off its queue and stand in no other one for it, while
-- no thread is made ready. In every later state in which the bit of the index is clear, a Release and an
-- Acquire of it are refused and change nothing.
pub destroy_in_use :
    (k : Tables) (n : ℕ)
    → Mine k n
    → k.sys.state (k.lock_table n).lock ≡ busy
    → is_zero (k.lock_table n).acquire_count ≡ false
    → (k' : Tables) × (destroy_lock_syscall (pos n) k ≡ ok k')
      × (used k'.lock_map n ≡ false)
      × (k'.sys.queues (of_lock (k.lock_table n).lock) ≡ [])
      × ((q : QueueId)
          → same_queue (of_lock (k.lock_table n).lock) q ≡ false
          → k'.sys.queues q ≡ k.sys.queues q)
      × (k'.sys.status ≡ k.sys.status)
      × ((later : Tables)
          → n < later.lock_map.num_bits
          → used later.lock_map n ≡ false
          → (release_syscall (pos n) later ≡ ok later) × (acquire_syscall (pos n) later ≡ ok later))
unfolding release_syscall acquire_syscall lock_destructor
destroy_in_use k n m held counted = elim (destroy_lock_lem k n m) [
  | inl (later, run) ↦ absurd (ground arith)
  | inr (now, map, run, sets) ↦ (
    record k { lock_map = map; sys = lock_destructor (k.lock_table n).lock k.sys },
    run,
    ground (arith, sets.at n),
    ground arith,
    λ q other. simp other refl,
    refl,
    λ later bound clear.
        let gone = check_lock-gone later n bound clear in (rw gone refl, rw gone refl),
  )
]

-- The last Release deletes a lock that was marked for deletion: where the count goes to 0 and the
-- lock is free afterwards, its bit is cleared and the index names no lock any more.
pub release_deletes :
    (k : Tables) (n : ℕ)
    → Mine k n
    → (k.lock_table n).is_to_be_deleted ≡ true
    → (k.lock_table n).acquire_count ≡ pos 1
    → is_busy (k.lock_table n).lock (release (k.lock_table n).lock k.sys) ≡ false
    → (k' : Tables) × (release_syscall (pos n) k ≡ ok k')
      × (k'.sys ≡ lock_destructor (k.lock_table n).lock (release (k.lock_table n).lock k.sys))
      × Sets k.lock_map n false k'.lock_map
      × (check_lock (pos n) k' ≡ ok none)
unfolding release_syscall release_at
release_deletes k n m marked one idle =
    let (map, clear, sets) = clear_lem k.lock_map n m.valid (rw m.size m.bound) in
    let size = m.size in
    let e = k.lock_table n in
    let itself : (n == n) ≡ true = ground arith in
    let k' = record k {
      lock_table = put k.lock_table n (record e { acquire_count = pos 0 });
      sys = lock_destructor e.lock (release e.lock k.sys);
      lock_map = map;
    } in
    (
      k',
      rw (check_lock-Mine k n m, marked, one, idle, clear, itself) refl,
      refl,
      sets,
      check_lock-gone k' n (rw (sets.bits, size) m.bound) (ground (arith, sets.at n)),
    )
