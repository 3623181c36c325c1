-- ===== src/Peers/Queries.antt =====
-- ServerToServerMessageHandler (code/network/server.cc) on the messages about the index of an object.
use usc_cs.Common.{
  ℕ, ◌+◌, Bool, false, ◌&&◌, if◌then◌else◌, ltb, ◌==◌, List, [], ◌∷◌, ◌++◌, Option, none, some,
}
use usc_cs.Common.Int.{ℤ, pos, negsuc}
use usc_cs.Server.Index.{decode_index}
use usc_cs.Peers.Messages.{
  StructureType, lock_type, cv_type, mv_type, Operation, ask_acquire, ask_release, ask_destroy_lock,
  ask_destroy_cv, ask_signal, ask_wait, ask_broadcast, ask_destroy_mv, ask_get_mv, ask_set_mv,
  do_you_have, have, do_not_have, Packet, int_at, put_int,
}
use usc_cs.Peers.Pending.{QueryStatus, new_query}
use usc_cs.Peers.Store.{ObjectStore, Peer, Turn, query_from, respond_to_server}

-- The kind of object that is queried about.
abbrev pub queried_type : Operation → StructureType
queried_type ask_acquire = lock_type
queried_type ask_release = lock_type
queried_type ask_destroy_lock = lock_type
queried_type ask_destroy_cv = cv_type
queried_type ask_signal = cv_type
queried_type ask_wait = cv_type
queried_type ask_broadcast = cv_type
queried_type ask_destroy_mv = mv_type
queried_type ask_get_mv = mv_type
queried_type ask_set_mv = mv_type

-- The query with the number, and the queue without it.
abbrev pub or_after :
    QueryStatus → Option (QueryStatus × List QueryStatus) → Option (QueryStatus × List QueryStatus)
or_after q none = none
or_after q (some (found, rest)) = some (found, q ∷ rest)

unfoldable pub take_query : ℕ → List QueryStatus → Option (QueryStatus × List QueryStatus)
take_query id [] = none
take_query id (q ∷ rest) =
    let later = or_after q (take_query id rest) in if q.id == id then some (q, rest) else later

-- `numResponsesReceived++` of the first query, if it has the number: the loop ends with its first round.
abbrev pub count_first : ℕ → List QueryStatus → List QueryStatus
count_first id [] = []
count_first id (q ∷ rest) =
    (if q.id == id then record q { num_responses_received = q.num_responses_received + 1 } else q)
    ∷ rest

abbrev pub with_queries : {Objects : Type 0} → List QueryStatus → Peer Objects → Peer Objects
with_queries queue s = record s { query_queue = queue }

-- The message of the client, on its way to the machine with the object.
abbrev pub passed_on : ℕ → Packet → Packet
passed_on machine p = record p { to_machine = machine; to_mailbox = 0 }

-- HAVE_LOCK, HAVE_CV and HAVE_MV
abbrev pub pass_on_found :
    {Objects : Type 0}
    → Packet
    → Option (QueryStatus × List QueryStatus)
    → Peer Objects
    → Turn Objects
pass_on_found p none s = ([], s)
pass_on_found p (some (q, rest)) s = (passed_on p.from_machine q.message ∷ [], with_queries rest s)

unfoldable pub on_have : {Objects : Type 0} → Packet → Peer Objects → Turn Objects
on_have p s = pass_on_found p (take_query (int_at 1 p.bytes) s.query_queue) s

-- DO_NOT_HAVE_LOCK, DO_NOT_HAVE_CV and DO_NOT_HAVE_MV
unfoldable pub on_do_not_have : {Objects : Type 0} → Packet → Peer Objects → Turn Objects
on_do_not_have p s = ([], with_queries (count_first (int_at 1 p.bytes) s.query_queue) s)

-- `outData` of the cases of the operations, and its number in `case Query_All_Servers:`
abbrev pub index_query : ℕ → Packet → (ℕ → ℕ) → ℕ → ℕ
index_query id p blank = put_int 1 id (put_int 5 (int_at 1 p.bytes) blank)

-- The operations of clients, and `case Query_All_Servers:`
unfoldable pub on_operation :
    {Objects : Type 0} → Operation → Packet → (ℕ → ℕ) → Peer Objects → Turn Objects
on_operation op p blank s =
    let id = s.next_query_id in
    (
      query_from s.total_num_servers 0 s.my_machine_id (do_you_have (queried_type op))
          (index_query id p blank),
      record s { query_queue = s.query_queue ++ new_query p id ∷ []; next_query_id = id + 2 },
    )

module _ {Objects : Type 0} (store : ObjectStore Objects) where
  -- `index > 0 && index < serverLockArraySize`, and the bit. A word from 2 ^ 31 on, which is an int
  -- below 0, is past the size of every table and is refused as well.
  abbrev pub holds : StructureType → ℤ → Objects → Bool
  holds type (negsuc n) objects = false
  holds type (pos index) objects =
      (ltb 0 index && ltb index (store.size type objects)) && store.test type index objects

  abbrev pub has_index : StructureType → ℕ → Peer Objects → Bool
  has_index type encoded s = holds type (decode_index s.my_machine_id encoded) s.objects

  -- DO_YOU_HAVE_LOCK, DO_YOU_HAVE_CV and DO_YOU_HAVE_MV
  unfoldable pub on_do_you_have : StructureType → Packet → (ℕ → ℕ) → Peer Objects → Turn Objects
  on_do_you_have type p blank s =
      let kind = if has_index type (int_at 5 p.bytes) s then have type else do_not_have type in
      (respond_to_server s.my_machine_id kind p blank ∷ [], s)
