-- ===== src/Peers/Store.antt =====
-- The state of a server between messages, and the messages that it sends (code/network/server.cc).
use usc_cs.Common.{
  ℕ, zero, suc, ◌+◌, ◌-◌, ◌%◌, ◌^◌, Bool, if◌then◌else◌, ◌==◌, List, [], ◌∷◌, Option, none, some,
}
use usc_cs.Server.Index.{encode_index}
use usc_cs.Peers.Messages.{
  StructureType, mv_type, MessageType, result, Packet, int_at, put_int, text_at, put_text, put_byte,
}
use usc_cs.Peers.Pending.{PendingCreate, QueryStatus}

-- checkIfLockExists and ServerCreateLock, and their like for conditions and variables: the index of an
-- object, `none` for -1. A creation also takes the number of entries and the initial value. `size` is
-- the size of a table, and `test` the bit of its map.
pub record ObjectStore (Objects : Type 0) : Type 0 where
  pub size : StructureType → Objects → ℕ
  pub test : StructureType → ℕ → Objects → Bool
  pub check_exists : StructureType → List ℕ → Objects → Option ℕ
  pub create : StructureType → List ℕ → ℕ → ℕ → Objects → Option ℕ × Objects

-- The handler's part of the state of a server.
pub record Peer (Objects : Type 0) : Type 0 where
  pub my_machine_id : ℕ
  pub total_num_servers : ℕ
  pub next_query_id : ℕ
  pub pending_creates : List PendingCreate
  pub query_queue : List QueryStatus
  pub objects : Objects

-- encodeIndex of the result of a creation
abbrev pub encode_result : ℕ → Option ℕ → ℕ
encode_result my_machine_id none = (encode_index my_machine_id 0 + (2 ^ 32 - 1)) % 2 ^ 32
encode_result my_machine_id (some n) = encode_index my_machine_id n % 2 ^ 32

-- Where the length and the text of the name stand in the message of a client.
abbrev pub length_byte : StructureType → ℕ
length_byte mv_type = 9
length_byte _ = 1

abbrev pub client_name : StructureType → (ℕ → ℕ) → List ℕ
client_name type bytes = text_at (bytes (length_byte type)) (length_byte type + 1) bytes

-- The queries of `case Create_Query:` to the servers from `i` on.
abbrev pub query_from : ℕ → ℕ → ℕ → MessageType → (ℕ → ℕ) → List Packet
query_from zero i my_machine_id kind bytes = []
query_from (suc rounds) i my_machine_id kind bytes =
    let rest = query_from rounds (i + 1) my_machine_id kind bytes in
    if i == my_machine_id
    then rest
    else record {
      from_machine = my_machine_id;
      from_mailbox = 1;
      to_machine = i;
      to_mailbox = 1;
      kind = kind;
      bytes = bytes;
    }
      ∷ rest

-- Messages that go out, and the state after them.
abbrev pub Turn : Type 0 → Type 0
Turn Objects = List Packet × Peer Objects

-- `case Respond_Once_To_Server:`
abbrev pub respond_to_server : ℕ → MessageType → Packet → (ℕ → ℕ) → Packet
respond_to_server my_machine_id kind p blank = record {
  from_machine = my_machine_id;
  from_mailbox = p.to_mailbox;
  to_machine = p.from_machine;
  to_mailbox = p.from_mailbox;
  kind = kind;
  bytes = put_int 1 (int_at 1 p.bytes) blank;
}

-- `case Respond_Once_To_Client:`
abbrev pub respond_to_client : ℕ → ℕ → Packet → (ℕ → ℕ) → Packet
respond_to_client my_machine_id index p blank = record {
  from_machine = my_machine_id;
  from_mailbox = 1;
  to_machine = p.from_machine;
  to_mailbox = p.from_mailbox;
  kind = result;
  bytes = put_int 0 (encode_result my_machine_id (some index)) blank;
}

-- The bytes of a query; the name is copied from byte 2 of the message of the client.
abbrev pub query_bytes : StructureType → Packet → (ℕ → ℕ) → ℕ → ℕ
query_bytes type p blank =
    let n = p.bytes (length_byte type) in put_text 6 n (text_at n 2 p.bytes) (put_byte 5 n blank)

abbrev pub with_pending : {Objects : Type 0} → List PendingCreate → Peer Objects → Peer Objects
with_pending pending s = record s { pending_creates = pending }
