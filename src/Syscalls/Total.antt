-- ===== src/Syscalls/Total.antt =====
-- The lock and condition calls of code/userprog/exception.cc never fail an ASSERT of the bit map.
use usc_cs.Common.{ℕ, ◌<◌, ◌≡◌, refl, inl, inr, Bool, some, true, false, not, ◌&&◌, Bool-cases}
use usc_cs.Common.Int.{ℤ}
use usc_cs.Kernel.{put}
use usc_cs.Synch.{lock_destructor, condition_destructor, release, wait, is_busy, has_waiting}
use usc_cs.Synch.Awake.{StaysOn, signal-StaysOn, broadcast-StaysOn}
use usc_cs.Syscalls.{
  Outcome, ok, check_lock, check_condition, Tables, on_lock, delete_lock, delete_condition,
  acquire_at, acquire_syscall, release_at, release_syscall, destroy_lock_at, destroy_lock_syscall,
  destroy_condition_at, destroy_condition_syscall, signal_at, signal_syscall, broadcast_at,
  broadcast_syscall, after_wait, wait_at, wait_syscall, decrease, is_zero, runs_on,
}
use usc_cs.Syscalls.Keeps.{
  Keeps, Keeps-ok, at_valid-Keeps, release_at-Keeps, destroy_lock_at-Keeps,
  destroy_condition_at-Keeps,
}
use usc_cs.Syscalls.Validity.{Maps, Ends, on_lock-Ends, on_condition-Ends, clear-MapOk}

delete_lock-Ends :
    (n : ℕ) (k : Tables) → Maps k → n < k.lock_array_size → Ends k Maps (delete_lock n k)
delete_lock-Ends n k h b =
    let (m, run, valid, off) = clear-MapOk k.lock_map k.lock_array_size n h.locks b in
    (
      record k { lock_map = m; sys = lock_destructor (k.lock_table n).lock k.sys },
      rw run,
      record { locks = valid; conditions = h.conditions },
    )

delete_condition-Ends :
    (n : ℕ) (k : Tables) → Maps k → n < k.condition_array_size → Ends k Maps (delete_condition n k)
delete_condition-Ends n k h b =
    let (m, run, valid, off) =
      clear-MapOk k.condition_map k.condition_array_size n h.conditions b in
    (
      record k {
        condition_map = m;
        sys = condition_destructor (k.condition_table n).condition k.sys;
      },
      rw run,
      record { locks = h.locks; conditions = valid },
    )

same-Maps :
    (k k' : Tables)
    → Maps k
    → k'.lock_map ≡ k.lock_map
    → k'.lock_array_size ≡ k.lock_array_size
    → k'.condition_map ≡ k.condition_map
    → k'.condition_array_size ≡ k.condition_array_size
    → Maps k'
same-Maps k k' h a b c d = record { locks = rw (a, b) h.locks; conditions = rw (c, d) h.conditions }

acquire_at-Ends : (k : Tables) (n : ℕ) → Maps k → Ends k Maps (acquire_at k n)
unfolding acquire_at
acquire_at-Ends k n h = (_, refl, same-Maps k _ h refl refl refl refl)

release_at-Ends :
    (k : Tables) (n : ℕ) → Maps k → n < k.lock_array_size → Ends k Maps (release_at k n)
unfolding release_at
release_at-Ends k n h b =
    let e = k.lock_table n in
    let s = release e.lock k.sys in
    let count = decrease e.acquire_count in
    let k' = record k {
      lock_table = put k.lock_table n (record e { acquire_count = count });
      sys = s;
    } in
    let h' = same-Maps k k' h refl refl refl refl in
    elim (Bool-cases (e.is_to_be_deleted && is_zero count && not (is_busy e.lock s))) [
      | inl gone ↦ rw gone (delete_lock-Ends n k' h' b)
      | inr stays ↦ rw stays (k', refl, h')
    ]

destroy_lock_at-Ends :
    (k : Tables) (n : ℕ) → Maps k → n < k.lock_array_size → Ends k Maps (destroy_lock_at k n)
unfolding destroy_lock_at
destroy_lock_at-Ends k n h b =
    let e = k.lock_table n in
    elim (Bool-cases (is_busy e.lock k.sys && is_zero e.acquire_count)) [
      | inr gone ↦ rw gone (delete_lock-Ends n k h b)
      | inl stays ↦ rw stays (_, refl, same-Maps k _ h refl refl refl refl)
    ]

destroy_condition_at-Ends :
    (k : Tables) (n : ℕ)
    → Maps k
    → n < k.condition_array_size
    → Ends k Maps (destroy_condition_at k n)
unfolding destroy_condition_at
destroy_condition_at-Ends k n h b =
    elim (Bool-cases (has_waiting (k.condition_table n).condition k.sys)) [
      | inr gone ↦ rw gone (delete_condition-Ends n k h b)
      | inl stays ↦ rw stays (_, refl, same-Maps k _ h refl refl refl refl)
    ]

pub after_wait-Ends :
    (k : Tables) (n : ℕ) → Maps k → n < k.condition_array_size → Ends k Maps (after_wait n k)
unfolding after_wait
after_wait-Ends k n h b =
    let e = k.condition_table n in
    elim (Bool-cases (e.is_to_be_deleted && not (has_waiting e.condition k.sys))) [
      | inl gone ↦ rw gone (delete_condition-Ends n k h b)
      | inr stays ↦ rw stays (k, refl, h)
    ]

wait_at-Ends :
    (k : Tables) (n m : ℕ) → Maps k → n < k.condition_array_size → Ends k Maps (wait_at k n m)
unfolding wait_at
wait_at-Ends k n m h b =
    let s = wait (k.condition_table n).condition (some (k.lock_table m).lock) k.sys in
    let k' = record k { sys = s } in
    let h' = same-Maps k k' h refl refl refl refl in
    elim (Bool-cases (runs_on (s.resume k.sys.current))) [
      | inl awake ↦ rw awake (after_wait-Ends k' n h' b)
      | inr asleep ↦ rw asleep (k', refl, h')
    ]

-- The calls that do not create anything.
pub data Syscall : Type 0 where
  acquires releases destroys_lock destroys_condition : ℤ → Syscall
  signals broadcasts waits : ℤ → ℤ → Syscall

pub perform : Syscall → Tables → Outcome Tables
perform (acquires i) k = acquire_syscall i k
perform (releases i) k = release_syscall i k
perform (destroys_lock i) k = destroy_lock_syscall i k
perform (destroys_condition i) k = destroy_condition_syscall i k
perform (signals c l) k = signal_syscall c l k
perform (broadcasts c l) k = broadcast_syscall c l k
perform (waits c l) k = wait_syscall c l k

-- The caller of these calls never sleeps.
pub is_awake : Syscall → Bool
is_awake (acquires i) = false
is_awake (waits c l) = false
is_awake (releases i) = true
is_awake (destroys_lock i) = true
is_awake (destroys_condition i) = true
is_awake (signals c l) = true
is_awake (broadcasts c l) = true

perform-Keeps : (k : Tables) (c : Syscall) → is_awake c ≡ true → Keeps k (perform c k)
unfolding is_awake perform release_syscall destroy_lock_syscall destroy_condition_syscall
    signal_syscall broadcast_syscall signal_at broadcast_at
perform-Keeps k (acquires i) a = cc
perform-Keeps k (waits c l) a = cc
perform-Keeps k (releases i) a =
    at_valid-Keeps k (release_at k) (check_lock i k) (release_at-Keeps k)
perform-Keeps k (destroys_lock i) a =
    at_valid-Keeps k (destroy_lock_at k) (check_lock i k) (destroy_lock_at-Keeps k)
perform-Keeps k (destroys_condition i) a =
    at_valid-Keeps k (destroy_condition_at k) (check_condition i k) (destroy_condition_at-Keeps k)
perform-Keeps k (signals c l) a =
    at_valid-Keeps k (λ n. on_lock l (signal_at k n) k) (check_condition c k)
      λ n.
        at_valid-Keeps k (signal_at k n) (check_lock l k)
          λ m. Keeps-ok k _ (signal-StaysOn _ _ k.sys)
perform-Keeps k (broadcasts c l) a =
    at_valid-Keeps k (λ n. on_lock l (broadcast_at k n) k) (check_condition c k)
      λ n.
        at_valid-Keeps k (broadcast_at k n) (check_lock l k)
          λ m. Keeps-ok k _ (broadcast-StaysOn _ _ k.sys)

perform-Ends : (k : Tables) (c : Syscall) → Maps k → Ends k Maps (perform c k)
unfolding perform acquire_syscall release_syscall destroy_lock_syscall destroy_condition_syscall
    signal_syscall broadcast_syscall wait_syscall signal_at broadcast_at
perform-Ends k (acquires i) h = on_lock-Ends i (acquire_at k) k h λ n b. acquire_at-Ends k n h
perform-Ends k (releases i) h = on_lock-Ends i (release_at k) k h λ n b. release_at-Ends k n h b
perform-Ends k (destroys_lock i) h =
    on_lock-Ends i (destroy_lock_at k) k h λ n b. destroy_lock_at-Ends k n h b
perform-Ends k (destroys_condition i) h =
    on_condition-Ends i (destroy_condition_at k) k h λ n b. destroy_condition_at-Ends k n h b
perform-Ends k (signals c l) h =
    on_condition-Ends c (λ n. on_lock l (signal_at k n) k) k h
      λ n b.
        on_lock-Ends l (signal_at k n) k h λ m d. (_, refl, same-Maps k _ h refl refl refl refl)
perform-Ends k (broadcasts c l) h =
    on_condition-Ends c (λ n. on_lock l (broadcast_at k n) k) k h
      λ n b.
        on_lock-Ends l (broadcast_at k n) k h λ m d. (_, refl, same-Maps k _ h refl refl refl refl)
perform-Ends k (waits c l) h =
    on_condition-Ends c (λ n. on_lock l (wait_at k n) k) k h
      λ n b. on_lock-Ends l (wait_at k n) k h λ m d. wait_at-Ends k n m h b

-- Whatever indices a user program passes, each of these calls fails no ASSERT of the bit maps, and the
-- maps fit their tables in the state in which it ends. After an Acquire or a Wait the caller may be
-- asleep there; after every other call it still has the processor, and the machine does not idle if it
-- did not before.
pub perform_total :
    (k : Tables) (c : Syscall)
    → Maps k
    → (k' : Tables) × (perform c k ≡ ok k') × Maps k' × (is_awake c ≡ true → StaysOn k.sys k'.sys)
perform_total k c h =
    let (k', run, fits) = perform-Ends k c h in (k', run, fits, λ a. perform-Keeps k c a k' run)
