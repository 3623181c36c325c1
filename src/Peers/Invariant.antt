-- ===== src/Peers/Invariant.antt =====
-- The numbers of the pending creates and of the queries of a server (code/network/server.cc) stay
-- different.
use usc_cs.Common.{
  ℕ, ◌+◌, ◌≡◌, sym, subst, ◌==◌, ltb, if-either, List, [], ◌∷◌, Option, none, some, arith,
}
use usc_cs.Peers.Messages.{
  StructureType, MessageType, Operation, do_you_have, have, do_not_have, operate, do_you_have_name,
  have_name, do_not_have_name, create_object, result, Packet, int_at, text_at,
}
use usc_cs.Peers.Pending.{
  PendingCreate, QueryStatus, new_query, Response, deferred, refused, by_number, unless_answered,
  determine_response, defer_answered, defer_last,
}
use usc_cs.Peers.Numbers.{
  ids, Numbered, SameIds, defer_answered-SameIds, defer_last-SameIds, join_pending-SameIds,
  update_pending-ids, Numbered-mono, Numbered-last, ids-last, Leaves, take_pending-Leaves,
}
use usc_cs.Peers.Store.{ObjectStore, Peer, Turn, client_name}
use usc_cs.Peers.Handler.{
  take_pending, count_response, create_for, after_count, unless_existing, respond_to_request,
  forward_found, unless_made, or_start, on_do_you_have_name, on_have_name, on_do_not_have_name,
  on_create,
}
use usc_cs.Peers.Queries.{
  take_query, pass_on_found, on_do_you_have, on_have, on_do_not_have, on_operation,
}
use usc_cs.Peers.Loop.{by_kind, handle_message}
use usc_cs.Peers.Queues.{
  query_ids, query_ids-last, count_first-ids, StayNumbered, take_query-StayNumbered,
}

-- The pending creates have different numbers, all of which have been given out, and so have the queries.
abbrev pub WellNumbered : {Objects : Type 0} → Peer Objects → Type 0
WellNumbered s =
    Numbered s.next_query_id (ids s.pending_creates)
    × Numbered s.next_query_id (query_ids s.query_queue)

Kept : {Objects : Type 0} → Option (Turn Objects) → Type 0
Kept none = Unit
Kept (some (out, s)) = WellNumbered s

-- A response that leaves the numbers alone.
KeepsIds : List PendingCreate → Response → Type 0
KeepsIds before (deferred after) = ids after ≡ ids before
KeepsIds before refused = Unit

determine_response-KeepsIds :
    (me : ℕ) (name : List ℕ) (type : StructureType) (p : Packet) (l : List PendingCreate)
    → KeepsIds l (determine_response me name type p l)
unfolding determine_response KeepsIds SameIds
determine_response-KeepsIds me name type p l =
    first (defer_answered name type p l) (by_number me p (defer_last name type p l))
      (defer_answered-SameIds name type p l)
      (second (defer_last name type p l) (defer_last-SameIds name type p l))
  where
    second : (o : Option (List PendingCreate)) → SameIds l o → KeepsIds l (by_number me p o)
    second none h = tt
    second (some after) h = if-either (KeepsIds l) (ltb me p.from_machine) h tt

    first :
        (o : Option (List PendingCreate)) (r : Response)
        → SameIds l o
        → KeepsIds l r
        → KeepsIds l (unless_answered o r)
    first none r h k = k
    first (some after) r h k = h

module _ {Objects : Type 0} (store : ObjectStore Objects) where
  on_do_you_have_name-Kept :
      (type : StructureType) (p : Packet) (blank : ℕ → ℕ) (s : Peer Objects)
      → WellNumbered s
      → Kept (some (on_do_you_have_name store type p blank s))
  unfolding on_do_you_have_name Kept KeepsIds
  on_do_you_have_name-Kept type p blank s w =
      go (store.check_exists type (text_at (p.bytes 5) 6 p.bytes) s.objects)
    where
      answered :
          (r : Response)
          → KeepsIds s.pending_creates r
          → Kept (some (respond_to_request store type p blank r s))
      answered (deferred after) e = (subst (Numbered s.next_query_id) (sym e) w.0, w.1)
      answered refused e = w

      go :
          (o : Option ℕ)
          → Kept (some (unless_existing store type (text_at (p.bytes 5) 6 p.bytes) p blank o s))
      go (some index) = w
      go none = answered _ (determine_response-KeepsIds s.my_machine_id _ type p s.pending_creates)

  on_have_name-Kept :
      (p : Packet) (s : Peer Objects) → WellNumbered s → Kept (some (on_have_name store p s))
  unfolding on_have_name Kept Leaves
  on_have_name-Kept p s w =
      go (take_pending (int_at 1 p.bytes) s.pending_creates)
        (take_pending-Leaves s.next_query_id (int_at 1 p.bytes) s.pending_creates w.0)
    where
      go :
          (o : Option (PendingCreate × List PendingCreate))
          → Leaves s.next_query_id (int_at 1 p.bytes) o
          → Kept (some (forward_found store p o s))
      go none h = w
      go (some (pc, rest)) (v, n) = (v, w.1)

  on_do_not_have_name-Kept :
      (p : Packet) (blank : ℕ → ℕ) (s : Peer Objects)
      → WellNumbered s
      → Kept (on_do_not_have_name store p blank s)
  unfolding on_do_not_have_name Kept Leaves
  on_do_not_have_name-Kept p blank s w =
      go (take_pending (int_at 1 p.bytes) s.pending_creates)
        (take_pending-Leaves s.next_query_id (int_at 1 p.bytes) s.pending_creates w.0)
    where
      made :
          (pc : PendingCreate) (rest : List PendingCreate) (clients : List QueryStatus)
          → Numbered s.next_query_id (ids rest)
          → Kept (create_for store blank pc rest clients s)
      made pc rest [] v = tt
      made pc rest (first ∷ others) v = (v, w.1)

      go :
          (o : Option (PendingCreate × List PendingCreate))
          → Leaves s.next_query_id (int_at 1 p.bytes) o
          → Kept (after_count store p blank o s)
      go none h = tt
      go (some (pc, rest)) (v, n) =
          if-either Kept (pc.num_responses + 1 + 1 == s.total_num_servers)
            (made (count_response p.from_machine pc) rest pc.waiting_clients v)
            (
              subst (Numbered s.next_query_id)
                  (sym (update_pending-ids (int_at 1 p.bytes) p.from_machine s.pending_creates))
                  w.0,
              w.1,
            )

  on_create-Kept :
      (type : StructureType) (p : Packet) (blank : ℕ → ℕ) (s : Peer Objects)
      → WellNumbered s
      → Kept (some (on_create store type p blank s))
  unfolding on_create Kept SameIds
  on_create-Kept type p blank s w =
      go (store.check_exists type (client_name type p.bytes) s.objects)
    where
      joined :
          (o : Option (List PendingCreate))
          → SameIds s.pending_creates o
          → Kept (some (or_start store type (client_name type p.bytes) p blank o s))
      joined (some after) e = (
        subst (Numbered (s.next_query_id + 1)) (sym e) (
            Numbered-mono s.next_query_id (s.next_query_id + 1) (ids s.pending_creates)
              (omega arith) w.0),
        Numbered-mono s.next_query_id (s.next_query_id + 1) (query_ids s.query_queue) (omega arith)
            w.1,
      )
      joined none e = (
        subst (Numbered (s.next_query_id + 2)) (sym (ids-last s.pending_creates _)) (
            Numbered-last s.next_query_id (s.next_query_id + 2) (ids s.pending_creates) w.0
              (omega arith)),
        Numbered-mono s.next_query_id (s.next_query_id + 2) (query_ids s.query_queue) (omega arith)
            w.1,
      )

      go :
          (o : Option ℕ)
          → Kept (some (unless_made store type (client_name type p.bytes) p blank o s))
      go (some index) = w
      go none = joined _ (
          join_pending-SameIds (client_name type p.bytes) type (new_query p s.next_query_id)
            s.pending_creates)

  on_have-Kept : (p : Packet) (s : Peer Objects) → WellNumbered s → Kept (some (on_have p s))
  unfolding on_have Kept StayNumbered
  on_have-Kept p s w =
      go (take_query (int_at 1 p.bytes) s.query_queue)
        (take_query-StayNumbered s.next_query_id (int_at 1 p.bytes) s.query_queue w.1)
    where
      go :
          (o : Option (QueryStatus × List QueryStatus))
          → StayNumbered s.next_query_id o
          → Kept (some (pass_on_found p o s))
      go none h = w
      go (some (q, rest)) v = (w.0, v)

  on_operation-Kept :
      (op : Operation) (p : Packet) (blank : ℕ → ℕ) (s : Peer Objects)
      → WellNumbered s
      → Kept (some (on_operation op p blank s))
  unfolding on_operation Kept
  on_operation-Kept op p blank s w = (
    Numbered-mono s.next_query_id (s.next_query_id + 2) (ids s.pending_creates) (omega arith) w.0,
    subst (Numbered (s.next_query_id + 2)) (sym (query_ids-last s.query_queue _)) (
        Numbered-last s.next_query_id (s.next_query_id + 2) (query_ids s.query_queue) w.1
          (omega arith)),
  )

  -- A server gives each of its pending creates a number that no other one has, and each of its queries
  -- one that no other query has, and each message that it handles keeps that.
  pub handle_message-WellNumbered :
      (p : Packet) (blank : ℕ → ℕ) (s s' : Peer Objects) (out : List Packet)
      → WellNumbered s
      → handle_message store p blank s ≡ some (out, s')
      → WellNumbered s'
  unfolding handle_message on_do_you_have on_do_not_have Kept
  handle_message-WellNumbered p blank s s' out w run = subst Kept run (go p.kind)
    where
      go : (kind : MessageType) → Kept (by_kind store kind p blank s)
      go (do_you_have type) = w
      go (have type) = on_have-Kept p s w
      go (do_not_have type) = (
        w.0,
        subst (Numbered s.next_query_id) (sym (count_first-ids (int_at 1 p.bytes) s.query_queue))
            w.1,
      )
      go (do_you_have_name type) = on_do_you_have_name-Kept type p blank s w
      go (have_name type) = on_have_name-Kept p s w
      go (do_not_have_name type) = on_do_not_have_name-Kept p blank s w
      go (operate op) = on_operation-Kept op p blank s w
      go (create_object type) = on_create-Kept type p blank s w
      go result = tt
