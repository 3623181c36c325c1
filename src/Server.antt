-- ===== src/Server.antt =====
-- ServerLock and ServerCondition of code/threads/synch.cc, and the locks, conditions and monitor
-- variables that the server of code/network/server.cc keeps for its clients. A ClientRequest is a
-- value here, the address of a client; its `respond` goes with it in an answer. A name stands for the
-- text of its string. A condition remembers a lock number, -1 for none.
pub mod Operations
pub mod Conditions
pub mod Variables
pub mod Objects
pub mod Names
pub mod Creation
pub mod Broadcasts
pub mod Index
mod Tests
use usc_cs.Common.{
  ℕ, Bool, true, false, not, ◌&&◌, Option, none, some, List, [], ◌∷◌, ◌++◌, ◌==◌, if◌then◌else◌,
}
use usc_cs.Common.Int.{ℤ, pos, negsuc, minus_one}
use usc_cs.Kernel.{LockStatus, busy, free}

pub record ClientRequest : Type 0 where
  pub machine_id : ℕ
  pub mailbox_number : ℕ

-- A request that an operation returns, with its `respond`.
pub record Answer : Type 0 where
  pub to : ClientRequest
  pub respond : Bool

abbrev pub same_int : ℤ → ℤ → Bool
same_int (pos n) (pos m) = n == m
same_int (negsuc n) (negsuc m) = n == m
same_int _ _ = false

pub record ServerLock : Type 0 where
  pub name : ℕ
  pub state : LockStatus
  pub queue : List ClientRequest
  pub current_client_request : Option ClientRequest

pub record ServerCondition : Type 0 where
  pub name : ℕ
  pub queue : List ClientRequest
  pub waiting_lock : ℤ

-- ServerLock::ServerLock, ServerCondition::ServerCondition
abbrev pub new_server_lock : ℕ → ServerLock
new_server_lock name = record {
  name = name;
  state = free;
  queue = [];
  current_client_request = none;
}

abbrev pub new_server_condition : ℕ → ServerCondition
new_server_condition name = record { name = name; queue = []; waiting_lock = minus_one }

-- ServerLock::isHeldByRequester
abbrev pub is_held_by : Option ClientRequest → ClientRequest → Bool
is_held_by none cr = false
is_held_by (some o) cr = (cr.machine_id == o.machine_id) && (cr.mailbox_number == o.mailbox_number)

-- ServerLock::isBusy
abbrev pub is_taken : LockStatus → Bool
is_taken busy = true
is_taken free = false

-- ServerLock::Acquire
unfoldable pub lock_acquire : ClientRequest → ServerLock → Answer × ServerLock
lock_acquire cr l =
    if is_held_by l.current_client_request cr
    then (record { to = cr; respond = true }, l)
    else if is_taken l.state
    then (record { to = cr; respond = false }, record l { queue = l.queue ++ cr ∷ [] })
    else (
      record { to = cr; respond = true },
      record l { state = busy; current_client_request = some cr },
    )

abbrev pub pass_on : ClientRequest → List ClientRequest → ServerLock → Answer × ServerLock
pass_on cr [] l =
    (record { to = cr; respond = false }, record l { state = free; current_client_request = none })
pass_on cr (next ∷ rest) l = (
  record { to = next; respond = true },
  record l { queue = rest; current_client_request = some next },
)

-- ServerLock::Release
unfoldable pub lock_release : ClientRequest → ServerLock → Answer × ServerLock
lock_release cr l =
    if is_held_by l.current_client_request cr
    then pass_on cr l.queue l
    else (record { to = cr; respond = false }, l)

abbrev pub wait_with_lock : ℤ → ClientRequest → ServerCondition → Answer × ServerCondition
wait_with_lock k cr c =
    if same_int k c.waiting_lock
    then (record { to = cr; respond = false }, record c { queue = c.queue ++ cr ∷ [] })
    else (record { to = cr; respond = true }, c)

-- ServerCondition::Wait
unfoldable pub condition_wait : ℤ → ClientRequest → ServerCondition → Answer × ServerCondition
condition_wait k cr c =
    wait_with_lock k cr
      (record c { waiting_lock = if same_int c.waiting_lock minus_one then k else c.waiting_lock })

-- ServerCondition::hasWaiting
abbrev pub some_waiting : List ClientRequest → Bool
some_waiting [] = false
some_waiting (cr ∷ rest) = true

abbrev pub take_first :
    ℤ → ClientRequest → List ClientRequest → ServerCondition → Answer × ServerCondition
take_first k cr [] c = (record { to = cr; respond = false }, c)
take_first k cr (next ∷ rest) c =
    if same_int c.waiting_lock k
    then (
      record { to = next; respond = true },
      record c {
        queue = rest;
        waiting_lock = if some_waiting rest then c.waiting_lock else minus_one;
      },
    )
    else (record { to = cr; respond = false }, c)

-- ServerCondition::Signal
unfoldable pub condition_signal : ℤ → ClientRequest → ServerCondition → Answer × ServerCondition
condition_signal k cr c = take_first k cr c.queue c
