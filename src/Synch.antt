-- ===== src/Synch.antt =====
-- code/threads/synch.cc: Semaphore, Lock and Condition. Each operation runs with interrupts disabled;
-- one that blocks ends with the switch to the next thread, and `resume_current` is what the blocked
-- thread does when it is run again.
pub mod Awake
pub mod Invariant
pub mod Locks
pub mod Conditions
pub mod Semaphores
pub mod Signals
pub mod Waits
pub mod Values
mod Tests
pub mod Run
use usc_cs.Common.{
  ℕ, zero, suc, ◌+◌, ◌-◌, Bool, true, false, not, ◌&&◌, Option, none, some, List, [], ◌∷◌, ◌++◌,
  ◌==◌, same, if◌then◌else◌, length,
}
use usc_cs.Kernel.{
  System, QueueId, ready_list, of_semaphore, of_lock, of_condition, LockStatus, busy, free, Resume,
  returns, tests_again, acquired, reacquires, put, put_queue, append, remove, ready_to_run, sleep,
  yield,
}

-- The current thread joins the queue `q` and sleeps; `r` is what it does when it runs again.
abbrev pub block : QueueId → Resume → System → System
block q r s = sleep (append q s.current (record s { resume = put s.resume s.current r }))

-- The current thread goes on in its caller.
abbrev pub return : System → System
return s = record s { resume = put s.resume s.current returns }

-- Semaphore::Semaphore
unfoldable pub new_semaphore : ℕ → ℕ → System → System
new_semaphore i initial s = record s {
  value = put s.value i initial;
  queues = put_queue s.queues (of_semaphore i) [];
}

-- Semaphore::P, from the test of the loop on.
unfoldable pub semaphore_p : ℕ → System → System
semaphore_p i s =
    if s.value i == 0
    then block (of_semaphore i) (tests_again i) s
    else return (record s { value = put s.value i (s.value i - 1) })

abbrev pub wake_waiter : Option ℕ × System → System
wake_waiter (none, s) = s
wake_waiter (some t, s) = ready_to_run t s

-- Semaphore::V
unfoldable pub semaphore_v : ℕ → System → System
semaphore_v i s =
    let s' = wake_waiter (remove (of_semaphore i) s) in
    record s' { value = put s'.value i (s'.value i + 1) }

-- Lock::Lock. It does not set threadWithPossession, which starts as what the memory `holds`.
unfoldable pub new_lock : ℕ → Option ℕ → System → System
new_lock l holds s = record s {
  state = put s.state l free;
  owner = put s.owner l holds;
  queues = put_queue s.queues (of_lock l) [];
}

-- Lock::~Lock deletes the queue, and with it List::~List takes all waiters off, who stay blocked. The
-- other fields are freed memory from then on, and stand here as they were.
unfoldable pub lock_destructor : ℕ → System → System
lock_destructor l s = record s { queues = put_queue s.queues (of_lock l) [] }

-- Lock::isHeldByCurrentThread
abbrev pub is_held : ℕ → System → Bool
is_held l s = same (some s.current) (s.owner l)

-- Lock::isBusy
abbrev pub is_busy : ℕ → System → Bool
is_busy l s = elim (s.state l) [ busy ↦ true | free ↦ false ]

-- Lock::Acquire
unfoldable pub acquire : ℕ → System → System
acquire l s =
    if is_held l s
    then return s
    else if is_busy l s
    then block (of_lock l) (acquired l) s
    else return (record s { state = put s.state l busy; owner = put s.owner l (some s.current) })

abbrev pub hand_over : ℕ → Option ℕ × System → System
hand_over l (none, s) = record s { state = put s.state l free; owner = put s.owner l none }
hand_over l (some t, s) = ready_to_run t (record s { owner = put s.owner l (some t) })

-- Lock::Release
unfoldable pub release : ℕ → System → System
release l s = if is_held l s then hand_over l (remove (of_lock l) s) else s

-- Condition::Condition. It does not set waitingLock, which starts as what the memory `holds`.
unfoldable pub new_condition : ℕ → Option ℕ → System → System
new_condition c holds s = record s {
  waiting_lock = put s.waiting_lock c holds;
  queues = put_queue s.queues (of_condition c) [];
}

-- Condition::~Condition
unfoldable pub condition_destructor : ℕ → System → System
condition_destructor c s = record s { queues = put_queue s.queues (of_condition c) [] }

-- `if (waitingLock == NULL) waitingLock = conditionLock;`
abbrev pub remember : ℕ → ℕ → Option ℕ → System → System
remember c l none s = record s { waiting_lock = put s.waiting_lock c (some l) }
remember c l (some k) s = s

abbrev pub wait_with : ℕ → ℕ → System → System
wait_with c l s =
    if same (some l) (s.waiting_lock c)
    then if is_held l s then block (of_condition c) (reacquires l) (release l s) else s
    else s

-- Condition::Wait, up to the Sleep; the Acquire behind it is in `resume_current`.
unfoldable pub wait : ℕ → Option ℕ → System → System
wait c none s = s
wait c (some l) s = wait_with c l (remember c l (s.waiting_lock c) s)

-- Condition::hasWaiting
abbrev pub has_waiting : ℕ → System → Bool
has_waiting c s = elim (s.queues (of_condition c)) [ [] ↦ false | t ∷ ts ↦ true ]

-- `if (queue->IsEmpty()) waitingLock = NULL;`
abbrev pub forget : ℕ → Bool → System → System
forget c true s = s
forget c false s = record s { waiting_lock = put s.waiting_lock c none }

abbrev pub wake_front : ℕ → Option ℕ × System → System
wake_front c (none, s) = s
wake_front c (some t, s) = let s' = ready_to_run t s in forget c (has_waiting c s') s'

-- The tests that Signal and Broadcast make before they wake anybody.
abbrev pub may_signal : ℕ → ℕ → System → Bool
may_signal c l s = has_waiting c s && same (s.waiting_lock c) (some l) && is_held l s

-- Condition::Signal
unfoldable pub signal : ℕ → Option ℕ → System → System
signal c none s = s
signal c (some l) s = if may_signal c l s then wake_front c (remove (of_condition c) s) else s

-- `while (!queue->IsEmpty()) Signal(conditionLock);` for a number of rounds.
broadcast_loop : ℕ → ℕ → ℕ → System → System
broadcast_loop zero c l s = s
broadcast_loop (suc rounds) c l s =
    let rest = broadcast_loop rounds c l (signal c (some l) s) in
    if has_waiting c s then rest else s

-- Condition::Broadcast. Each Signal takes one thread off the queue, so its length bounds the loop.
unfoldable pub broadcast : ℕ → Option ℕ → System → System
unfolding broadcast_loop
broadcast c none s = s
broadcast c (some l) s =
    if may_signal c l s then broadcast_loop (length (s.queues (of_condition c))) c l s else s

abbrev pub resume_with : Resume → System → System
resume_with returns s = s
resume_with (tests_again i) s = semaphore_p i s
resume_with (acquired l) s = return s
resume_with (reacquires l) s = acquire l (return s)

-- The current thread has just been switched to: it goes on behind its Sleep.
unfoldable pub resume_current : System → System
resume_current s = resume_with (s.resume s.current) s
