-- ===== src/Syscalls/Isolation.antt =====
-- What keeps one process away from the locks and conditions of another, in code/userprog/exception.cc.
use usc_cs.Common.{ℕ, ◌≡◌, refl, Option, none, some}
use usc_cs.Common.Int.{ℤ}
use usc_cs.BitMap.{BitMap}
use usc_cs.Syscalls.{
  Outcome, ok, Tables, my_space, check, check_lock, check_condition, at_valid, on_lock,
  on_condition, on_both, acquire_syscall, release_syscall, destroy_lock_syscall,
  destroy_condition_syscall, signal_syscall, broadcast_syscall, wait_syscall,
}
use usc_cs.Syscalls.Validity.{Maps, MapOk, Valid, check_lem}

-- An index that names no lock of the caller: below 0, past the table, not created, or created by
-- another address space.
abbrev pub NotMyLock : Tables → ℤ → Type 0
NotMyLock k i =
    (n : ℕ)
    → ¬ Valid k.lock_map k.lock_array_size (some (my_space k)) i (λ n. (k.lock_table n).lock_space)
        n

abbrev pub NotMyCondition : Tables → ℤ → Type 0
NotMyCondition k i =
    (n : ℕ)
    → ¬ Valid k.condition_map k.condition_array_size (some (my_space k)) i
        (λ n. (k.condition_table n).condition_space) n

refused_check :
    (map : BitMap) (size : ℕ) (me : Option ℕ) (i : ℤ) (space_of : ℕ → Option ℕ)
    → MapOk map size
    → ((n : ℕ) → ¬ Valid map size me i space_of n)
    → check map size me i space_of ≡ ok none
refused_check map size me i space_of h mine =
    let (r, run, valid) = check_lem map size me i space_of h in go r run valid
  where
    go :
        (r : Option ℕ)
        → check map size me i space_of ≡ ok r
        → ((n : ℕ) → r ≡ some n → Valid map size me i space_of n)
        → check map size me i space_of ≡ ok none
    go none run valid = run
    go (some n) run valid = absurd (mine n (valid n refl))

module _ (k : Tables) (i : ℤ) (h : Maps k) where
  refused_lock : NotMyLock k i → (f : ℕ → Outcome Tables) → on_lock i f k ≡ ok k
  unfolding check_lock
  refused_lock mine f = rw (refused_check _ _ _ i _ h.locks mine)

  refused_condition : NotMyCondition k i → (f : ℕ → Outcome Tables) → on_condition i f k ≡ ok k
  unfolding check_condition
  refused_condition mine f = rw (refused_check _ _ _ i _ h.conditions mine)

  -- The condition is tested before the lock.
  refused_second : NotMyLock k i → (c : ℤ) (f : ℕ → ℕ → Outcome Tables) → on_both c i f k ≡ ok k
  unfolding check_condition
  refused_second mine c f =
      let (r, run, valid) =
        check_lem k.condition_map k.condition_array_size (some (my_space k)) c
          (λ n. (k.condition_table n).condition_space) h.conditions in
      rw run (go r)
    where
      go : (r : Option ℕ) → at_valid k (λ n. on_lock i (f n) k) r ≡ ok k
      go none = refl
      go (some n) = refused_lock mine (f n)

  -- A call on a lock index that names no lock of the caller's address space changes nothing, neither
  -- the lock nor any table; so a process cannot take, release or destroy the lock of another.
  pub foreign_lock :
      NotMyLock k i
      → (acquire_syscall i k ≡ ok k)
        × (release_syscall i k ≡ ok k)
        × (destroy_lock_syscall i k ≡ ok k)
        × ((c : ℤ)
            → (signal_syscall c i k ≡ ok k)
              × (broadcast_syscall c i k ≡ ok k)
              × (wait_syscall c i k ≡ ok k))
  unfolding acquire_syscall release_syscall destroy_lock_syscall signal_syscall broadcast_syscall
      wait_syscall
  foreign_lock mine = (
    refused_lock mine _,
    refused_lock mine _,
    refused_lock mine _,
    λ c. (refused_second mine c _, refused_second mine c _, refused_second mine c _),
  )

  -- A call on a condition index that names no condition of the caller's address space changes nothing.
  pub foreign_condition :
      NotMyCondition k i
      → (destroy_condition_syscall i k ≡ ok k)
        × ((l : ℤ)
            → (signal_syscall i l k ≡ ok k)
              × (broadcast_syscall i l k ≡ ok k)
              × (wait_syscall i l k ≡ ok k))
  unfolding destroy_condition_syscall signal_syscall broadcast_syscall wait_syscall
  foreign_condition mine = (
    refused_condition mine _,
    λ l. (refused_condition mine _, refused_condition mine _, refused_condition mine _),
  )
