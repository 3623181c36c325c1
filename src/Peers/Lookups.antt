-- ===== src/Peers/Lookups.antt =====
-- How the servers find the one that has an object (code/network/server.cc), from the request of a client
-- to the server that handles it.
use usc_cs.Server.Index.{encode_index, decode_index}
use usc_cs.Common.Int.{pos}
use usc_cs.Common.{
  sym, ap, false, Bool-cases, ◌⊎◌, inl, inr, ℕ, ◌+◌, ◌^◌, ◌<◌, ◌≡◌, ◌≢◌, refl, ◌∙◌, true, List, [],
  ◌∷◌, ◌++◌, length, suc, ◌==◌, Option, none, some, arith,
}
use usc_cs.Peers.Messages.{
  StructureType, MessageType, Operation, do_you_have, have, do_not_have, operate, Packet, int_at,
  put_int,
}
use usc_cs.Peers.Bytes.{int_at-word, int_at-put_int, int_at-behind}
use usc_cs.Peers.Pending.{new_query, QueryStatus}
use usc_cs.Peers.Store.{ObjectStore, Peer, Turn, query_from, respond_to_server}
use usc_cs.Peers.Queries.{
  queried_type, count_first, with_queries, passed_on, on_have, on_do_not_have, index_query,
  on_operation, has_index, holds, on_do_you_have,
}
use usc_cs.Peers.Loop.{handle_message}
use usc_cs.Peers.Numbers.{NotIn-below}
use usc_cs.Peers.Queues.{query_ids, take_query-last}
use usc_cs.Peers.Creation.{All, Reaches, query_from-All, query_from-Reaches}
use usc_cs.Peers.Invariant.{WellNumbered}

-- The rounds of the loop for a sequence of messages.
abbrev pub and_more :
    {Objects : Type 0} → List Packet → Option (Turn Objects) → Option (Turn Objects)
and_more out none = none
and_more out (some (more, s)) = some (out ++ more, s)

abbrev pub and_then :
    {Objects : Type 0}
    → Option (Turn Objects)
    → (Peer Objects → Option (Turn Objects))
    → Option (Turn Objects)
and_then none f = none
and_then (some (out, s)) f = and_more out (f s)

pub handle_all :
    {Objects : Type 0}
    → ObjectStore Objects
    → (ℕ → ℕ)
    → List Packet
    → Peer Objects
    → Option (Turn Objects)
handle_all store blank [] s = some ([], s)
handle_all store blank (m ∷ rest) s =
    and_then (handle_message store m blank s) (handle_all store blank rest)

module _ {Objects : Type 0} (store : ObjectStore Objects) where
  -- The operation of a client on an object of another server, under the number that this server gave
  -- for entry `n` of its table: all the other servers of the system are asked, and nobody else. The
  -- server of the entry answers with HAVE, and the answer makes the server that asked pass the message
  -- of the client on to it, to be handled there, and forget the query. Only for entry 0 does it answer
  -- with DO_NOT_HAVE, and nothing is passed on.
  pub lookup_found :
      (op : Operation) (p : Packet) (blank blank' : ℕ → ℕ) (s t : Peer Objects) (n : ℕ)
      → p.kind ≡ operate op
      → WellNumbered s
      → s.next_query_id < 2 ^ 32
      → int_at 1 p.bytes ≡ encode_index t.my_machine_id n
      → n < store.size (queried_type op) t.objects
      → store.test (queried_type op) n t.objects ≡ true
      → (asked : List Packet) × (let waiting =
            with_queries
              (s.query_queue ++ new_query p s.next_query_id ∷ [])
              (record s { next_query_id = s.next_query_id + 2 }) in
          (handle_message store p blank s ≡ some (asked, waiting))
          × ((j : ℕ) → j < s.total_num_servers → j ≢ s.my_machine_id → Reaches j asked)
          × All
              (λ m.
                (m.to_machine < s.total_num_servers)
                × (m.to_machine ≢ s.my_machine_id)
                × ((answer : Packet) × (handle_message store m blank' t ≡ some (answer ∷ [], t))
                    × (answer.to_machine ≡ s.my_machine_id)
                    × (((n ≢ 0)
                          × (answer.kind ≡ have (queried_type op))
                          × (handle_message store answer blank waiting
                              ≡ some (
                                passed_on t.my_machine_id p ∷ [],
                                with_queries s.query_queue waiting,
                              )))
                        ⊎ ((n ≡ 0)
                            × (answer.kind ≡ do_not_have (queried_type op))
                            × (handle_message store answer blank waiting
                                ≡ some (
                                  [],
                                  with_queries
                                      (count_first s.next_query_id waiting.query_queue)
                                      waiting,
                                ))))))
              asked)
  unfolding handle_message on_operation on_do_you_have on_have on_do_not_have
  lookup_found op p blank blank' s t n kind w h encoded small tested =
      let id = s.next_query_id in
      let type = queried_type op in
      let bytes = index_query id p blank in
      let ask = do_you_have type in
      let number : int_at 1 bytes ≡ id =
        int_at-put_int 1 id (put_int 5 (int_at 1 p.bytes) blank) h in
      let index : int_at 5 bytes ≡ int_at 1 p.bytes =
        int_at-behind id (int_at 1 p.bytes) blank h (int_at-word 1 p.bytes) in
      let same_number : int_at 1 (put_int 1 (int_at 1 bytes) blank') ≡ id =
        int_at-put_int 1 (int_at 1 bytes) blank' (int_at-word 1 bytes) ∙ number in
      let back : decode_index t.my_machine_id (encode_index t.my_machine_id n) ≡ pos n =
        ground arith in
      let decoded : decode_index t.my_machine_id (int_at 5 bytes) ≡ pos n =
        ap (decode_index t.my_machine_id) (index ∙ encoded) ∙ back in
      let here : has_index store type (int_at 5 bytes) t ≡ holds store type (pos n) t.objects =
        ap (λ z. holds store type z t.objects) decoded in
      (
        query_from s.total_num_servers 0 s.my_machine_id ask bytes,
        (
          simp kind refl,
          λ j l other.
              query_from-Reaches s.total_num_servers 0 s.my_machine_id j ask bytes (omega arith)
                (omega arith) other,
          query_from-All _ s.total_num_servers 0 s.my_machine_id ask bytes λ j low high other.
              elim (Bool-cases (n == 0)) [
                | inr positive ↦
                    let yes : has_index store type (int_at 5 bytes) t ≡ true =
                      here ∙ ground arith in
                    (
                      omega arith,
                      other,
                      (
                        answer_to j bytes (have type),
                        simp yes refl,
                        refl,
                        inl (
                          ground arith,
                          refl,
                          simp
                              (
                                same_number,
                                take_query-last id s.query_queue (new_query p id)
                                    (NotIn-below id (query_ids s.query_queue) w.1) refl,
                              )
                              refl,
                        ),
                      ),
                    )
                | inl nothing ↦
                    let no : has_index store type (int_at 5 bytes) t ≡ false =
                      here ∙ ground arith in
                    (
                      omega arith,
                      other,
                      (
                        answer_to j bytes (do_not_have type),
                        simp no refl,
                        refl,
                        inr (ground arith, refl, simp same_number refl),
                      ),
                    )
              ],
        ),
      )
    where
      answer_to : ℕ → (ℕ → ℕ) → MessageType → Packet
      answer_to j bytes reply =
          respond_to_server t.my_machine_id reply
            (record {
              from_machine = s.my_machine_id;
              from_mailbox = 1;
              to_machine = j;
              to_mailbox = 1;
              kind = do_you_have (queried_type op);
              bytes = bytes;
            })
            blank'

  -- The answers of servers that do not have the object are counted in the first query of the queue, if
  -- they bear its number, and that is all: however many they are, also when all servers have answered,
  -- nobody is sent anything, and the query stays in the queue.
  pub lookup_lost :
      (blank : ℕ → ℕ) (answers : List Packet) (s : Peer Objects) (q : QueryStatus)
      (others : List QueryStatus)
      → s.query_queue ≡ q ∷ others
      → All
          (λ m. (type : StructureType) × (m.kind ≡ do_not_have type) × (int_at 1 m.bytes ≡ q.id))
          answers
      → handle_all store blank answers s
        ≡ some (
          [],
          with_queries
              (record q { num_responses_received = q.num_responses_received + length answers }
                ∷ others)
              s,
        )
  unfolding handle_all handle_message on_do_not_have
  lookup_lost blank [] s q others queue a =
      let none_more : q.num_responses_received + 0 ≡ q.num_responses_received = omega arith in
      rw (none_more, sym queue) refl
  lookup_lost blank (m ∷ rest) s q others queue ((type, kind, number), a) =
      let counted = record q { num_responses_received = q.num_responses_received + 1 } in
      let known : (q.id == int_at 1 m.bytes) ≡ true = ground arith in
      let later =
        lookup_lost blank rest (with_queries (counted ∷ others) s) counted others refl a in
      let sum : q.num_responses_received + 1 + length rest
          ≡ q.num_responses_received + suc (length rest) =
        omega arith in
      simp (kind, queue, known, later, sum) refl
