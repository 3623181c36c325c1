-- ===== src/Clients.antt =====
-- Server() of code/network/server.cc on the messages of clients about locks and variables that they name
-- by number. An answer is one int; a message about an object of another server goes to mailbox 1 of this
-- machine, where the Peers modules handle it.
pub mod Numbers
pub mod Entries
pub mod Handover
mod Tests
use usc_cs.Common.{
  ℕ, ◌+◌, ◌-◌, ◌*◌, ◌/◌, ◌%◌, ◌^◌, Bool, true, false, Option, none, some, List, [], ◌∷◌, ◌++◌, ltb,
  ◌==◌, if◌then◌else◌, ◌>>=◌,
}
use usc_cs.Common.Int.{ℤ, pos, negsuc, minus_one}
use usc_cs.Server.{ClientRequest, Answer}
use usc_cs.Server.Index.{decode_index, decode_machine_id}
use usc_cs.Server.Operations.{
  Server, max_server_locks, server_acquire, server_release, server_destroy_lock,
}
use usc_cs.Server.Variables.{Variables, server_get_mv, server_set_mv, server_destroy_mv}
use usc_cs.Peers.Messages.{result, Packet, int_at, put_int}

-- The int that a word stands for, and the word of an int.
abbrev pub to_int : ℕ → ℤ
to_int w = if ltb w (2 ^ 31) then pos w else negsuc (2 ^ 32 - 1 - w)

abbrev pub of_int : ℤ → ℕ
of_int (pos n) = n % 2 ^ 32
of_int (negsuc n) = 2 ^ 32 - 1 - n % 2 ^ 32

-- decodeIndex on an int
abbrev pub internal_index : ℕ → ℤ → ℤ
internal_index me (pos n) = decode_index me n
internal_index me (negsuc n) = negsuc (n + me * max_server_locks)

-- `decodeMachineIDFromLockNumber(number) == myMachineID`; the division of an int rounds towards 0.
abbrev pub is_mine : ℕ → ℤ → Bool
is_mine me (pos n) = decode_machine_id n == me
is_mine me (negsuc n) = if ltb (n + 1) max_server_locks then 0 == me else false

-- The tables of a server, with its number.
pub record Host : Type 0 where
  pub my_machine_id : ℕ
  pub server : Server
  pub variables : Variables

-- `extractInt(messageData + k)`
abbrev pub arg : ℕ → Packet → ℤ
arg k p = to_int (int_at k p.bytes)

abbrev pub client : Packet → ClientRequest
client p = record { machine_id = p.from_machine; mailbox_number = p.from_mailbox }

-- A round of `while(!necessaryResponses.empty())`; `blank` is what the buffer held.
abbrev pub response : ℕ → (ℕ → ℕ) → ClientRequest → ℤ → Packet
response me blank to value = record {
  from_machine = me;
  from_mailbox = 0;
  to_machine = to.machine_id;
  to_mailbox = to.mailbox_number;
  kind = result;
  bytes = put_int 0 (of_int value) blank;
}

-- `sendMessageWithData(messageFromMachineID, messageFromMailbox, myMachineID, 1, ...)`
abbrev pub hand_to_peers : ℕ → Packet → Packet
hand_to_peers me p = record p { to_machine = me; to_mailbox = 1 }

-- Messages that go out, and the tables after them; `none` is a failed ASSERT or a use of deleted memory.
abbrev pub Round : Type 0
Round = Option (List Packet × Host)

abbrev pub if_mine : Packet → Host → Round → Round
if_mine p h here =
    if is_mine h.my_machine_id (arg 1 p)
    then here
    else some (hand_to_peers h.my_machine_id p ∷ [], h)

abbrev pub with_server : Server → Host → Host
with_server s h = record h { server = s }

abbrev pub with_variables : Variables → Host → Host
with_variables v h = record h { variables = v }

-- The answers that wait in necessaryResponses; each of them is -1.
abbrev pub drain : ℕ → (ℕ → ℕ) → List ClientRequest → List Packet
drain me blank [] = []
drain me blank (to ∷ rest) = response me blank to minus_one ∷ drain me blank rest

abbrev pub answered : Host → Host
answered h = record h { server = record h.server { responses = [] } }

-- `if(respond)`, after the answers `new` have been pushed
abbrev pub send_all : (ℕ → ℕ) → List Packet → Host → Round
send_all blank new h = some (drain h.my_machine_id blank h.server.responses ++ new, answered h)

-- ACQUIRE: NULL is answered to the sender, any other request to the one who asked.
abbrev pub acquire_answer : (ℕ → ℕ) → Packet → Option Answer → Host → Round
acquire_answer blank p none h =
    send_all blank (response h.my_machine_id blank (client p) minus_one ∷ []) h
acquire_answer blank p (some a) h =
    if a.respond
    then send_all blank (response h.my_machine_id blank a.to minus_one ∷ []) h
    else some ([], h)

unfoldable pub on_acquire : Packet → (ℕ → ℕ) → Host → Round
on_acquire p blank h = if_mine p h do
  (s, answer) ← server_acquire (client p) (internal_index h.my_machine_id (arg 1 p)) h.server
  acquire_answer blank p answer (with_server s h)

-- RELEASE: the sender is answered, and then the client that gets the lock.
abbrev pub release_answer : ℕ → (ℕ → ℕ) → Packet → Option Answer → List Packet
release_answer me blank p none = response me blank (client p) minus_one ∷ []
release_answer me blank p (some a) =
    response me blank (client p) minus_one
    ∷ (if a.respond then response me blank a.to minus_one ∷ [] else [])

unfoldable pub on_release : Packet → (ℕ → ℕ) → Host → Round
on_release p blank h = if_mine p h do
  (s, answer) ← server_release (client p) (internal_index h.my_machine_id (arg 1 p)) h.server
  send_all blank (release_answer h.my_machine_id blank p answer) (with_server s h)

-- DESTROY_LOCK
unfoldable pub on_destroy_lock : Packet → Host → Round
on_destroy_lock p h = if_mine p h do
  s ← server_destroy_lock (internal_index h.my_machine_id (arg 1 p)) h.server
  some ([], with_server s h)

-- DESTROY_MV
unfoldable pub on_destroy_mv : Packet → Host → Round
on_destroy_mv p h = if_mine p h do
  v ← server_destroy_mv (internal_index h.my_machine_id (arg 1 p)) h.variables
  some ([], with_variables v h)

-- GET_MV
unfoldable pub on_get_mv : Packet → (ℕ → ℕ) → Host → Round
on_get_mv p blank h = if_mine p h do
  value ← server_get_mv (internal_index h.my_machine_id (arg 1 p)) (arg 5 p) h.variables
  send_all blank (response h.my_machine_id blank (client p) value ∷ []) h

-- SET_MV
unfoldable pub on_set_mv : Packet → (ℕ → ℕ) → Host → Round
on_set_mv p blank h = if_mine p h do
  v ← server_set_mv (internal_index h.my_machine_id (arg 1 p)) (arg 5 p) (arg 9 p) h.variables
  send_all blank (response h.my_machine_id blank (client p) minus_one ∷ []) (with_variables v h)
