-- ===== src/Peers/Pending.antt =====
-- PendingCreate and determineResponseToCreateRequest (code/network/server.cc).
use usc_cs.Common.{
  ℕ, Bool, true, false, ◌&&◌, if◌then◌else◌, ltb, List, [], ◌∷◌, ◌++◌, Option, none, some, put,
}
use usc_cs.Peers.Messages.{
  StructureType, have_name, result, same_type, same_name, Packet, int_at, put_int,
}

pub record ResponseQueueEntry : Type 0 where
  pub reply_machine : ℕ
  pub reply_mailbox : ℕ
  pub reply_message_id : ℕ

-- A QueryStatus that waits in a PendingCreate, with the message of the client.
pub record QueryStatus : Type 0 where
  pub message : Packet
  pub num_responses_received : ℕ
  pub id : ℕ

-- QueryStatus::QueryStatus
abbrev pub new_query : Packet → ℕ → QueryStatus
new_query p id = record { message = p; num_responses_received = 0; id = id }

pub record PendingCreate : Type 0 where
  pub name : List ℕ
  pub type : StructureType
  pub response_tracker : ℕ → Bool
  pub waiting_clients : List QueryStatus
  pub server_response_queue : List ResponseQueueEntry
  pub num_responses : ℕ
  pub id : ℕ

-- PendingCreate::PendingCreate
abbrev pub new_pending : ℕ → List ℕ → StructureType → ℕ → PendingCreate
new_pending my_machine_id name type id = record {
  name = name;
  type = type;
  response_tracker = put (λ i. false) my_machine_id true;
  waiting_clients = [];
  server_response_queue = [];
  num_responses = 0;
  id = id;
}

-- PendingCreate::isAMatch
abbrev pub is_a_match : List ℕ → StructureType → PendingCreate → Bool
is_a_match name type pc = same_name pc.name name && same_type type pc.type

-- PendingCreate::forwardWaitingClientMessagesToServer
abbrev pub forward_waiting : ℕ → List QueryStatus → List Packet
forward_waiting recipient [] = []
forward_waiting recipient (q ∷ rest) =
    record {
      from_machine = q.message.from_machine;
      from_mailbox = q.message.from_mailbox;
      to_machine = recipient;
      to_mailbox = 1;
      kind = q.message.kind;
      bytes = q.message.bytes;
    }
    ∷ forward_waiting recipient rest

-- PendingCreate::messageBackClients
abbrev pub message_back_clients : ℕ → ℕ → List QueryStatus → List Packet
message_back_clients my_machine_id encoded_index [] = []
message_back_clients my_machine_id encoded_index (q ∷ rest) =
    record {
      from_machine = my_machine_id;
      from_mailbox = 1;
      to_machine = q.message.from_machine;
      to_mailbox = q.message.from_mailbox;
      kind = result;
      bytes = put_int 0 encoded_index q.message.bytes;
    }
    ∷ message_back_clients my_machine_id encoded_index rest

-- PendingCreate::notifyServersOfCreation
abbrev pub notify_servers : ℕ → StructureType → (ℕ → ℕ) → List ResponseQueueEntry → List Packet
notify_servers my_machine_id type out_data [] = []
notify_servers my_machine_id type out_data (e ∷ rest) =
    record {
      from_machine = my_machine_id;
      from_mailbox = 1;
      to_machine = e.reply_machine;
      to_mailbox = e.reply_mailbox;
      kind = have_name type;
      bytes = put_int 1 e.reply_message_id out_data;
    }
    ∷ notify_servers my_machine_id type out_data rest

-- `pc->serverResponseQueue.push_back(entry);`
abbrev pub push_response : ResponseQueueEntry → PendingCreate → PendingCreate
push_response e pc = record pc { server_response_queue = pc.server_response_queue ++ e ∷ [] }

-- `new ResponseQueueEntry(packetHeader->from, mailHeader->from, extractInt(inData + 1))`
abbrev pub response_entry : Packet → ResponseQueueEntry
response_entry p = record {
  reply_machine = p.from_machine;
  reply_mailbox = p.from_mailbox;
  reply_message_id = int_at 1 p.bytes;
}

-- A change of one element of a list, where there is such an element.
abbrev pub or_later : PendingCreate → Option (List PendingCreate) → Option (List PendingCreate)
or_later pc none = none
or_later pc (some rest) = some (pc ∷ rest)

-- The loop: the request is put on the queue of the first match that the requesting server has answered.
unfoldable pub defer_answered :
    List ℕ → StructureType → Packet → List PendingCreate → Option (List PendingCreate)
defer_answered name type p [] = none
defer_answered name type p (pc ∷ rest) =
    let later = or_later pc (defer_answered name type p rest) in
    if is_a_match name type pc && pc.response_tracker p.from_machine
    then some (push_response (response_entry p) pc ∷ rest)
    else later

abbrev pub or_here :
    Bool
    → Packet
    → PendingCreate
    → List PendingCreate
    → Option (List PendingCreate)
    → Option (List PendingCreate)
or_here here p pc rest (some later) = some (pc ∷ later)
or_here true p pc rest none = some (push_response (response_entry p) pc ∷ rest)
or_here false p pc rest none = none

-- The request on the queue of the last match, where `pc` stands after the loop; `none` is NULL.
unfoldable pub defer_last :
    List ℕ → StructureType → Packet → List PendingCreate → Option (List PendingCreate)
defer_last name type p [] = none
defer_last name type p (pc ∷ rest) =
    or_here (is_a_match name type pc) p pc rest (defer_last name type p rest)

-- What determineResponseToCreateRequest decides: the request waits, or is answered DO_NOT_HAVE.
pub data Response : Type 0 where
  deferred : List PendingCreate → Response
  refused : Response

-- The server with the lower number makes the object.
abbrev pub by_number : ℕ → Packet → Option (List PendingCreate) → Response
by_number my_machine_id p none = refused
by_number my_machine_id p (some pending) =
    if ltb my_machine_id p.from_machine then deferred pending else refused

abbrev pub unless_answered : Option (List PendingCreate) → Response → Response
unless_answered (some pending) r = deferred pending
unless_answered none r = r

-- determineResponseToCreateRequest
unfoldable pub determine_response :
    ℕ → List ℕ → StructureType → Packet → List PendingCreate → Response
determine_response my_machine_id name type p pending =
    unless_answered (defer_answered name type p pending)
      (by_number my_machine_id p (defer_last name type p pending))
