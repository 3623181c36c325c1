-- ===== src/Kernel.antt =====
-- code/threads/scheduler.cc and the scheduling calls of code/threads/thread.cc, on one store of
-- queues: the ready list, and the List that each semaphore, lock and condition points to.
-- Every operation here runs with interrupts disabled, so nothing comes between its steps.
pub mod Homes
pub use usc_cs.Common.{put}
use usc_cs.Common.{
  ℕ, Bool, true, false, Option, none, some, List, [], ◌∷◌, ◌++◌, ◌==◌, if◌then◌else◌, ◌≡◌, ◌↔◌,
  arith,
}

pub data ThreadStatus : Type 0 where
  just_created running ready blocked : ThreadStatus

-- Which List: the scheduler's, or that of the n-th semaphore, lock or condition.
pub data QueueId : Type 0 where
  ready_list : QueueId
  of_semaphore of_lock of_condition : ℕ → QueueId

pub data LockStatus : Type 0 where
  busy free : LockStatus

-- What a thread that was switched out does when it runs again.
pub data Resume : Type 0 where
  -- It returns to its caller.
  returns : Resume
  -- It tests the value of the semaphore again, in Semaphore::P.
  tests_again : ℕ → Resume
  -- It returns from Lock::Acquire.
  acquired : ℕ → Resume
  -- It takes the lock again, in Condition::Wait.
  reacquires : ℕ → Resume

pub record System : Type 0 where
  -- currentThread
  pub current : ℕ
  -- Is it in the loop of Thread::Sleep that waits for an interrupt?
  pub idling : Bool
  -- Has Interrupt::Halt shut the machine down?
  pub halted : Bool
  pub status : ℕ → ThreadStatus
  pub resume : ℕ → Resume
  pub queues : QueueId → List ℕ
  -- Semaphore::value
  pub value : ℕ → ℕ
  -- Lock::state and Lock::threadWithPossession
  pub state : ℕ → LockStatus
  pub owner : ℕ → Option ℕ
  -- Condition::waitingLock
  pub waiting_lock : ℕ → Option ℕ

abbrev pub same_queue : QueueId → QueueId → Bool
same_queue ready_list ready_list = true
same_queue (of_semaphore i) (of_semaphore j) = i == j
same_queue (of_lock i) (of_lock j) = i == j
same_queue (of_condition i) (of_condition j) = i == j
same_queue _ _ = false

abbrev pub put_queue : (QueueId → List ℕ) → QueueId → List ℕ → QueueId → List ℕ
put_queue f q l p = if same_queue q p then l else f p

-- List::Append and List::Remove on the queue `q`.
abbrev pub append : QueueId → ℕ → System → System
append q t s = record s { queues = put_queue s.queues q (s.queues q ++ t ∷ []) }

abbrev pub remove_front : QueueId → List ℕ → System → Option ℕ × System
remove_front q [] s = (none, s)
remove_front q (t ∷ rest) s = (some t, record s { queues = put_queue s.queues q rest })

abbrev pub remove : QueueId → System → Option ℕ × System
remove q s = remove_front q (s.queues q) s

abbrev pub ready_to_run : ℕ → System → System
ready_to_run t s = append ready_list t (record s { status = put s.status t ready })

abbrev pub find_next_to_run : System → Option ℕ × System
find_next_to_run s = remove ready_list s

abbrev pub run : ℕ → System → System
run t s = record s { current = t; status = put s.status t running }

-- The switch of Yield, once the next thread is known.
abbrev pub yield_to : Option ℕ × System → System
yield_to (none, s) = s
yield_to (some t, s) = run t (ready_to_run s.current s)

unfoldable pub yield : System → System
yield s = yield_to (find_next_to_run s)

-- One round of `while ((nextThread = FindNextToRun()) == NULL) Idle();` and the Run behind it. With
-- nothing to run the thread is in Idle: what comes next is `wake`, or `halt` where nothing is pending.
abbrev pub sleep_to : Option ℕ × System → System
sleep_to (none, s) = record s { idling = true }
sleep_to (some t, s) = run t (record s { idling = false })

unfoldable pub sleep : System → System
sleep s = sleep_to (find_next_to_run (record s { status = put s.status s.current blocked }))

-- Interrupt::Idle in that loop, where no interrupt is pending: the machine halts.
unfoldable pub halt : System → System
halt s = if s.idling then record s { halted = true } else s

-- The next round of that loop, after Interrupt::Idle has run the handlers of an interrupt.
unfoldable pub wake : System → System
wake s = if s.idling then sleep_to (find_next_to_run s) else s

-- Thread::Fork, behind StackAllocate.
unfoldable pub fork : ℕ → System → System
fork t s = ready_to_run t s
