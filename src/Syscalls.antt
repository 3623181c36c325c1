-- ===== src/Syscalls.antt =====
-- The lock and condition system calls of code/userprog/exception.cc, in the configuration with
-- USER_PROGRAM and without NETWORK. A call runs with interrupts disabled, or under the table's own
-- lock; the messages it prints are left out.
pub mod Keeps
pub mod Total
pub mod Validity
pub mod Isolation
pub mod Deletion
pub mod Create
pub mod Creation
mod Tests
use usc_cs.Common.{
  ℕ, zero, suc, ◌+◌, Bool, true, false, not, ◌&&◌, Option, none, some, List, ltb, ◌==◌, same,
  if◌then◌else◌,
}
use usc_cs.Common.Int.{ℤ, pos, negsuc}
use usc_cs.BitMap.{BitMap}
use usc_cs.BitMap
use usc_cs.Kernel.{System, Resume, returns, put}
use usc_cs.Synch.{
  acquire, release, wait, signal, broadcast, new_lock, new_condition, lock_destructor,
  condition_destructor, is_busy, has_waiting,
}

-- A call ends in a new state, shuts the machine down by Halt, or fails an ASSERT.
pub data Outcome {ℓ} (A : Type ℓ) : Type ℓ where
  ok : A → Outcome A
  halted aborted : Outcome A

infixl 5 ◌>>=◌
abbrev pub ◌>>=◌ {ℓ κ} : {A : Type ℓ} {B : Type κ} → Outcome A → (A → Outcome B) → Outcome B
ok a >>= f = f a
halted >>= f = halted
aborted >>= f = aborted

abbrev pub asserted {ℓ} : {A : Type ℓ} → Option A → Outcome A
asserted none = aborted
asserted (some a) = ok a

abbrev pub max_locks_conditions : ℕ
max_locks_conditions = 500

-- `lock` names the Lock object; acquireCount is an int that Release may take below 0.
pub record LockEntry : Type 0 where
  pub lock : ℕ
  pub lock_space : Option ℕ
  pub is_to_be_deleted : Bool
  pub acquire_count : ℤ

pub record ConditionEntry : Type 0 where
  pub condition : ℕ
  pub condition_space : Option ℕ
  pub is_to_be_deleted : Bool

pub record Tables : Type 0 where
  pub sys : System
  -- The AddrSpace of each thread.
  pub space : ℕ → ℕ
  pub lock_map : BitMap
  pub lock_table : ℕ → LockEntry
  pub lock_array_size : ℕ
  pub condition_map : BitMap
  pub condition_table : ℕ → ConditionEntry
  pub condition_array_size : ℕ
  -- The next Lock and Condition objects that `new` returns, and what their memory holds.
  pub next_object : ℕ
  pub holds : ℕ → Option ℕ

abbrev pub increase : ℤ → ℤ
increase (pos n) = pos (suc n)
increase (negsuc zero) = pos 0
increase (negsuc (suc n)) = negsuc n

abbrev pub decrease : ℤ → ℤ
decrease (pos zero) = negsuc 0
decrease (pos (suc n)) = pos n
decrease (negsuc n) = negsuc (suc n)

abbrev pub is_zero : ℤ → Bool
is_zero (pos n) = n == 0
is_zero (negsuc n) = false

-- The AddrSpace of the current thread.
abbrev pub my_space : Tables → ℕ
my_space k = k.space k.sys.current

-- The three tests that every call makes of an index: its bounds, its bit in the map, and the space of
-- its entry. The answer is the index, or `none` where the call prints a message and returns.
abbrev pub check : BitMap → ℕ → Option ℕ → ℤ → (ℕ → Option ℕ) → Outcome (Option ℕ)
check map size me (negsuc n) space_of = ok none
check map size me (pos n) space_of =
    if ltb n size
    then (do
      t ← asserted (BitMap.test map n)
      ok (if t && same (space_of n) me then some n else none))
    else ok none

unfoldable pub check_lock : ℤ → Tables → Outcome (Option ℕ)
check_lock i k =
    check k.lock_map k.lock_array_size (some (my_space k)) i (λ n. (k.lock_table n).lock_space)

unfoldable pub check_condition : ℤ → Tables → Outcome (Option ℕ)
check_condition i k =
    check k.condition_map k.condition_array_size (some (my_space k)) i
      (λ n. (k.condition_table n).condition_space)

abbrev pub at_valid : Tables → (ℕ → Outcome Tables) → Option ℕ → Outcome Tables
at_valid k f none = ok k
at_valid k f (some n) = f n

-- What a call does to a valid lock, or to a valid condition and lock.
abbrev pub on_lock : ℤ → (ℕ → Outcome Tables) → Tables → Outcome Tables
on_lock i f k = do r ← check_lock i k; at_valid k f r

abbrev pub on_condition : ℤ → (ℕ → Outcome Tables) → Tables → Outcome Tables
on_condition i f k = do r ← check_condition i k; at_valid k f r

abbrev pub set_lock : ℕ → LockEntry → Tables → Tables
set_lock n e k = record k { lock_table = put k.lock_table n e }

abbrev pub set_condition : ℕ → ConditionEntry → Tables → Tables
set_condition n e k = record k { condition_table = put k.condition_table n e }

-- `delete lockTable[n].lock; lockMap->Clear(n);`
abbrev pub delete_lock : ℕ → Tables → Outcome Tables
delete_lock n k = do
  m ← asserted (BitMap.clear k.lock_map n)
  ok (record k { lock_map = m; sys = lock_destructor (k.lock_table n).lock k.sys })

abbrev pub delete_condition : ℕ → Tables → Outcome Tables
delete_condition n k = do
  m ← asserted (BitMap.clear k.condition_map n)
  ok (record k {
    condition_map = m;
    sys = condition_destructor (k.condition_table n).condition k.sys;
  })

-- Acquire_Syscall
acquire_at : Tables → ℕ → Outcome Tables
acquire_at k n =
    let e = k.lock_table n in
    let k' = set_lock n (record e { acquire_count = increase e.acquire_count }) k in
    ok (record k' { sys = acquire e.lock k'.sys })

unfoldable pub acquire_syscall : ℤ → Tables → Outcome Tables
unfolding acquire_at
acquire_syscall i k = on_lock i (acquire_at k) k

-- Release_Syscall
pub release_at : Tables → ℕ → Outcome Tables
release_at k n =
    let e = k.lock_table n in
    let count = decrease e.acquire_count in
    let s = release e.lock k.sys in
    let k' = record k {
      lock_table = put k.lock_table n (record e { acquire_count = count });
      sys = s;
    } in
    if e.is_to_be_deleted && is_zero count && not (is_busy e.lock s)
    then delete_lock n k'
    else ok k'

unfoldable pub release_syscall : ℤ → Tables → Outcome Tables
unfolding release_at
release_syscall i k = on_lock i (release_at k) k

-- DestroyLock_Syscall
pub destroy_lock_at : Tables → ℕ → Outcome Tables
destroy_lock_at k n =
    let e = k.lock_table n in
    if not (is_busy e.lock k.sys && is_zero e.acquire_count)
    then delete_lock n k
    else ok (set_lock n (record e { is_to_be_deleted = true }) k)

unfoldable pub destroy_lock_syscall : ℤ → Tables → Outcome Tables
unfolding destroy_lock_at
destroy_lock_syscall i k = on_lock i (destroy_lock_at k) k

-- DestroyCondition_Syscall
pub destroy_condition_at : Tables → ℕ → Outcome Tables
destroy_condition_at k n =
    let e = k.condition_table n in
    if not (has_waiting e.condition k.sys)
    then delete_condition n k
    else ok (set_condition n (record e { is_to_be_deleted = true }) k)

unfoldable pub destroy_condition_syscall : ℤ → Tables → Outcome Tables
unfolding destroy_condition_at
destroy_condition_syscall i k = on_condition i (destroy_condition_at k) k

-- Signal_Syscall, Broadcast_Syscall: the condition is checked first, then the lock.
abbrev on_both : ℤ → ℤ → (ℕ → ℕ → Outcome Tables) → Tables → Outcome Tables
on_both c l f k = on_condition c (λ n. on_lock l (f n) k) k

signal_at : Tables → ℕ → ℕ → Outcome Tables
signal_at k n m =
    ok
      (record k { sys = signal (k.condition_table n).condition (some (k.lock_table m).lock) k.sys })

unfoldable pub signal_syscall : ℤ → ℤ → Tables → Outcome Tables
unfolding signal_at
signal_syscall c l k = on_both c l (signal_at k) k

broadcast_at : Tables → ℕ → ℕ → Outcome Tables
broadcast_at k n m = ok (record k {
  sys = broadcast (k.condition_table n).condition (some (k.lock_table m).lock) k.sys;
})

unfoldable pub broadcast_syscall : ℤ → ℤ → Tables → Outcome Tables
unfolding broadcast_at
broadcast_syscall c l k = on_both c l (broadcast_at k) k

-- Wait_Syscall behind the return of Condition::Wait: a condition marked for deletion is deleted
-- once nobody waits on it.
unfoldable pub after_wait : ℕ → Tables → Outcome Tables
after_wait n k =
    let e = k.condition_table n in
    if e.is_to_be_deleted && not (has_waiting e.condition k.sys) then delete_condition n k else ok k

-- Condition::Wait returns at once where it refuses the call; otherwise the caller is asleep, and its
-- `after_wait` is a later step.
abbrev runs_on : Resume → Bool
runs_on returns = true
runs_on _ = false

wait_at : Tables → ℕ → ℕ → Outcome Tables
unfolding after_wait
wait_at k n m =
    let k' = record k {
      sys = wait (k.condition_table n).condition (some (k.lock_table m).lock) k.sys;
    } in
    if runs_on (k'.sys.resume k.sys.current) then after_wait n k' else ok k'

unfoldable pub wait_syscall : ℤ → ℤ → Tables → Outcome Tables
unfolding wait_at
wait_syscall c l k = on_both c l (wait_at k) k
