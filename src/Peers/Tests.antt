-- ===== src/Peers/Tests.antt =====
-- The messages between servers (code/network/server.cc) on two servers.
use usc_cs.Common.{
  ℕ, zero, suc, ◌+◌, ◌≡◌, ◌≢◌, refl, inl, true, List, [], ◌∷◌, ◌++◌, none, some, arith, ◌<◌, ◌⊎◌,
}
use usc_cs.Peers.Messages.{
  lock_type, MessageType, ask_acquire, operate, have, do_not_have, create_object, do_you_have_name,
  have_name, do_not_have_name, Packet, int_at,
}
use usc_cs.Peers.Pending.{
  PendingCreate, new_query, new_pending, forward_waiting, determine_response, deferred, refused,
}
use usc_cs.Peers.Turns.{one_gives_way, Queued}
use usc_cs.Peers.Store.{ObjectStore, Peer, client_name, encode_result, with_pending}
use usc_cs.Peers.Handler.{
  take_pending, update_pending, count_response, join_pending, on_have_name, on_do_not_have_name,
  on_create,
}
use usc_cs.Peers.Queries.{count_first, with_queries, passed_on}
use usc_cs.Peers.Loop.{handle_message}
use usc_cs.Peers.Lookups.{handle_all, lookup_found, lookup_lost}
use usc_cs.Peers.Creation.{All, Reaches, Asks, asked_name, on_create-Asks}
use usc_cs.Peers.Answers.{ServersTold, ClientsTold, on_do_not_have_name_lem}
use usc_cs.Peers.Invariant.{WellNumbered, handle_message-WellNumbered}
use usc_cs.Peers.Late.{on_do_not_have_name_late}

-- A store that knows no name, counts what it makes and holds everything.
abbrev counter : ObjectStore ℕ
counter = record {
  size = λ type n. 500;
  test = λ type index n. true;
  check_exists = λ type name n. none;
  create = λ type name entries value n. (some n, n + 1);
}

-- "a" with its length
abbrev letter : ℕ → ℕ
letter (suc zero) = 1
letter (suc (suc zero)) = 97
letter _ = 0

abbrev no_bytes : ℕ → ℕ
no_bytes i = 0

abbrev message : ℕ → MessageType → (ℕ → ℕ) → Packet
message from kind bytes = record {
  from_machine = from;
  from_mailbox = 1;
  to_machine = 0;
  to_mailbox = 1;
  kind = kind;
  bytes = bytes;
}

abbrev asked : Packet
asked = message 5 (create_object lock_type) letter

abbrev lock_a : ℕ → ℕ → PendingCreate
lock_a me id = record (new_pending me (97 ∷ []) lock_type id) {
  waiting_clients = new_query asked (id + 1) ∷ [];
  server_response_queue =
      record { reply_machine = 1; reply_mailbox = 1; reply_message_id = 7 } ∷ [];
}

abbrev server : List PendingCreate → Peer ℕ
server pending = record {
  my_machine_id = 0;
  total_num_servers = 2;
  next_query_id = 2;
  pending_creates = pending;
  query_queue = [];
  objects = 3;
}

one_gives_way_example :
    ((after : List PendingCreate) × (determine_response 0
          (97 ∷ [])
          lock_type
          (message 1 (do_you_have_name lock_type) letter)
          (lock_a 0 0 ∷ [])
        ≡ deferred after)
      × Queued
          (97 ∷ [])
          lock_type
          (message 1 (do_you_have_name lock_type) letter)
          (lock_a 0 0 ∷ [])
          after)
    × (determine_response 1
          (97 ∷ [])
          lock_type
          (message 0 (do_you_have_name lock_type) letter)
          (lock_a 1 4 ∷ [])
        ≡ refused)
one_gives_way_example =
    one_gives_way 0 1 (97 ∷ []) lock_type (message 1 (do_you_have_name lock_type) letter)
      (message 0 (do_you_have_name lock_type) letter) (lock_a 0 0 ∷ []) (lock_a 1 4 ∷ [])
      (omega arith) refl refl (inl refl) (refl, tt) (inl refl) (refl, tt)

nothing_joined : join_pending (client_name lock_type letter) lock_type (new_query asked 2) [] ≡ none
unfolding join_pending
nothing_joined = refl

on_create-Asks_example :
    let (out, s') = on_create counter lock_type asked no_bytes (server []) in
    All (Asks 2 0 lock_type 2 (asked_name lock_type asked)) out
    × ((j : ℕ) → j < 2 → j ≢ 0 → Reaches j out)
    × (s'.pending_creates
        ≡ []
          ++ record (new_pending 0 (client_name lock_type letter) lock_type 2) {
            waiting_clients = new_query asked 3 ∷ [];
          }
            ∷ [])
on_create-Asks_example =
    on_create-Asks counter lock_type asked no_bytes (server []) refl nothing_joined (omega arith)

taken : take_pending (int_at 1 no_bytes) (lock_a 0 0 ∷ []) ≡ some (lock_a 0 0, [])
unfolding take_pending usc_cs.Wire.extract_int
taken = refl

on_do_not_have_name_lem_example :
    (((lock_a 0 0).num_responses + 2 ≢ 2)
      × (on_do_not_have_name counter
            (message 1 (do_not_have_name lock_type) no_bytes)
            no_bytes
            (server (lock_a 0 0 ∷ []))
          ≡ some (
            [],
            with_pending
                (update_pending (int_at 1 no_bytes) (count_response 1) (lock_a 0 0 ∷ []))
                (server (lock_a 0 0 ∷ [])),
          )))
    ⊎ (((lock_a 0 0).num_responses + 2 ≡ 2)
        × ((told answers : List Packet) × (on_do_not_have_name counter
                (message 1 (do_not_have_name lock_type) no_bytes)
                no_bytes
                (server (lock_a 0 0 ∷ []))
              ≡ some (told ++ answers, record (server []) { objects = 4 }))
            × ServersTold lock_type
                (record { reply_machine = 1; reply_mailbox = 1; reply_message_id = 7 } ∷ [])
                told
            × ClientsTold (encode_result 0 (some 3)) (new_query asked 1 ∷ []) answers))
on_do_not_have_name_lem_example =
    on_do_not_have_name_lem counter (message 1 (do_not_have_name lock_type) no_bytes) no_bytes
      (server (lock_a 0 0 ∷ [])) (lock_a 0 0) [] (new_query asked 1) [] taken refl (omega arith, tt)

found :
    handle_message counter
      (message 1 (have_name lock_type) no_bytes)
      no_bytes
      (server (lock_a 0 0 ∷ []))
    ≡ some (forward_waiting 1 (new_query asked 1 ∷ []), server [])
unfolding handle_message on_have_name take_pending usc_cs.Wire.extract_int
found = refl

handle_message-WellNumbered_example : WellNumbered (server [])
handle_message-WellNumbered_example =
    handle_message-WellNumbered counter (message 1 (have_name lock_type) no_bytes) no_bytes
      (server (lock_a 0 0 ∷ [])) (server []) (forward_waiting 1 (new_query asked 1 ∷ []))
      ((omega arith, tt, tt), tt) found

on_do_not_have_name_late_example :
    let (out, s') =
      on_have_name counter (message 1 (have_name lock_type) no_bytes) (server (lock_a 0 0 ∷ [])) in
    on_do_not_have_name counter (message 2 (do_not_have_name lock_type) no_bytes) no_bytes s' ≡ none
on_do_not_have_name_late_example =
    on_do_not_have_name_late counter (message 1 (have_name lock_type) no_bytes)
      (message 2 (do_not_have_name lock_type) no_bytes) no_bytes (server (lock_a 0 0 ∷ []))
      ((omega arith, tt, tt), tt) refl

-- The number 2 of a query
abbrev two : ℕ → ℕ
two (suc (suc (suc (suc zero)))) = 2
two _ = 0

-- The number of entry 3 of server 1
abbrev entry : ℕ → ℕ
entry (suc (suc (suc zero))) = 1
entry (suc (suc (suc (suc zero)))) = 247
entry _ = 0

abbrev wanted : Packet
wanted = message 5 (operate ask_acquire) entry

abbrev owner : Peer ℕ
owner = record (server []) { my_machine_id = 1 }

abbrev waiting : Peer ℕ
waiting = with_queries (new_query wanted 2 ∷ []) (record (server []) { next_query_id = 4 })

lookup_found_example :
    (asked : List Packet) × ((handle_message counter wanted no_bytes (server [])
        ≡ some (asked, waiting))
      × ((j : ℕ) → j < 2 → j ≢ 0 → Reaches j asked)
      × All
          (λ m.
            (m.to_machine < 2)
            × (m.to_machine ≢ 0)
            × ((answer : Packet) × (handle_message counter m no_bytes owner
                  ≡ some (answer ∷ [], owner))
                × (answer.to_machine ≡ 0)
                × (((3 ≢ zero)
                      × (answer.kind ≡ have lock_type)
                      × (handle_message counter answer no_bytes waiting
                          ≡ some (passed_on 1 wanted ∷ [], with_queries [] waiting)))
                    ⊎ ((3 ≡ zero)
                        × (answer.kind ≡ do_not_have lock_type)
                        × (handle_message counter answer no_bytes waiting
                            ≡ some (
                              [],
                              with_queries (count_first 2 (new_query wanted 2 ∷ [])) waiting,
                            ))))))
          asked)
unfolding usc_cs.Wire.extract_int
lookup_found_example =
    lookup_found counter ask_acquire wanted no_bytes no_bytes (server []) owner 3 refl (tt, tt)
      (omega arith) refl (omega arith) refl

lookup_lost_example :
    handle_all counter no_bytes (message 1 (do_not_have lock_type) two ∷ []) waiting
    ≡ some
        ([], with_queries (record (new_query wanted 2) { num_responses_received = 1 } ∷ []) waiting)
unfolding usc_cs.Wire.extract_int
lookup_lost_example =
    lookup_lost counter no_bytes (message 1 (do_not_have lock_type) two ∷ []) waiting
      (new_query wanted 2) [] refl ((lock_type, refl, refl), tt)
