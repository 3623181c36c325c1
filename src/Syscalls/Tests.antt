-- ===== src/Syscalls/Tests.antt =====
-- A table of 40 locks in code/userprog/exception.cc, with one of the current process.
use usc_cs.Common.{
  true, ◌<◌, ℕ, zero, suc, ◌≡◌, refl, inr, Bool, false, none, some, [], ◌∷◌, replicate, put, arith,
}
use usc_cs.Common.Int.{ℤ, pos, negsuc}
use usc_cs.Common.Bits.{bit}
use usc_cs.BitMap.{BitMap}
use usc_cs.BitMap.Bits.{IsValid, used, AllWords}
use usc_cs.Kernel.{QueueId, of_lock, same_queue, System, busy, free, just_created, returns}
use usc_cs.Syscalls.{
  ok, Tables, LockEntry, acquire_syscall, release_syscall, destroy_lock_syscall, signal_syscall,
  broadcast_syscall, wait_syscall,
}
use usc_cs.Synch.Awake.{StaysOn}
use usc_cs.Syscalls.Total.{is_awake, perform, perform_total, releases}
use usc_cs.Syscalls.Validity.{Maps}
use usc_cs.Syscalls.Isolation.{NotMyLock, NotMyCondition, foreign_lock}
use usc_cs.Syscalls.Deletion.{Mine, destroy_in_use}

-- Lock 0 is taken by thread 0.
abbrev system : System
system = record {
  current = 0;
  idling = false;
  halted = false;
  status = λ _. just_created;
  resume = λ _. returns;
  queues = λ _. [];
  value = λ _. 0;
  state = put (λ _. free) 0 busy;
  owner = put (λ _. none) 0 (some 0);
  waiting_lock = λ _. none;
}

abbrev forty : BitMap
forty = record { num_bits = 40; num_words = 2; map = 1 ∷ 0 ∷ [] }

abbrev entry : Bool → LockEntry
entry dying = record {
  lock = 0;
  lock_space = some 7;
  is_to_be_deleted = dying;
  acquire_count = pos 1;
}

-- The process 7 runs; it has lock 0 and condition 0.
abbrev tables : Bool → Tables
tables dying = record {
  sys = system;
  space = λ _. 7;
  lock_map = forty;
  lock_table = λ _. entry dying;
  lock_array_size = 40;
  condition_map = forty;
  condition_table =
      λ _. record { condition = 0; condition_space = some 7; is_to_be_deleted = false };
  condition_array_size = 40;
  next_object = 1;
  holds = λ _. none;
}

forty-IsValid : IsValid forty
forty-IsValid = record { words = refl; room = omega arith; fits = (omega arith, (omega arith, tt)) }

tables-Maps : Maps (tables false)
tables-Maps = record { locks = inr (forty-IsValid, refl); conditions = inr (forty-IsValid, refl) }

tables-Mine : (dying : Bool) → Mine (tables dying) 0
unfolding used bit
tables-Mine dying = record {
  valid = forty-IsValid;
  size = refl;
  bound = omega arith;
  marked = refl;
  space = refl;
}

perform_total_example :
    (k' : Tables) × (perform (releases (pos 0)) (tables false) ≡ ok k')
    × Maps k'
    × (is_awake (releases (pos 0)) ≡ true → StaysOn (tables false).sys k'.sys)
perform_total_example = perform_total (tables false) (releases (pos 0)) tables-Maps

below-NotMyLock : NotMyLock (tables false) (negsuc 0)
below-NotMyLock n v = let e = v.index in cc

below-NotMyCondition : NotMyCondition (tables false) (negsuc 0)
below-NotMyCondition n v = let e = v.index in cc

foreign_lock_example :
    (acquire_syscall (negsuc 0) (tables false) ≡ ok (tables false))
    × (release_syscall (negsuc 0) (tables false) ≡ ok (tables false))
    × (destroy_lock_syscall (negsuc 0) (tables false) ≡ ok (tables false))
    × ((c : ℤ)
        → (signal_syscall c (negsuc 0) (tables false) ≡ ok (tables false))
          × (broadcast_syscall c (negsuc 0) (tables false) ≡ ok (tables false))
          × (wait_syscall c (negsuc 0) (tables false) ≡ ok (tables false)))
foreign_lock_example = foreign_lock (tables false) (negsuc 0) tables-Maps below-NotMyLock

destroy_in_use_example :
    (k' : Tables) × (destroy_lock_syscall (pos 0) (tables false) ≡ ok k')
    × (used k'.lock_map 0 ≡ false)
    × (k'.sys.queues (of_lock 0) ≡ [])
    × ((q : QueueId) → same_queue (of_lock 0) q ≡ false → k'.sys.queues q ≡ system.queues q)
    × (k'.sys.status ≡ system.status)
    × ((later : Tables)
        → 0 < later.lock_map.num_bits
        → used later.lock_map 0 ≡ false
        → (release_syscall (pos 0) later ≡ ok later) × (acquire_syscall (pos 0) later ≡ ok later))
destroy_in_use_example = destroy_in_use (tables false) 0 (tables-Mine false) refl refl

zeros-AllWords : (n : ℕ) → AllWords (replicate n 0)
zeros-AllWords zero = tt
zeros-AllWords (suc n) = (omega arith, zeros-AllWords n)
