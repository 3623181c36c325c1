-- ===== src/Peers/Handler.antt =====
-- ServerToServerMessageHandler (code/network/server.cc) on the messages about names and creations.
use usc_cs.Common.{ℕ, ◌+◌, true, if◌then◌else◌, ◌==◌, List, [], ◌∷◌, ◌++◌, Option, none, some, put}
use usc_cs.Peers.Messages.{
  StructureType, do_you_have_name, have_name, do_not_have_name, Packet, int_at, put_int, text_at,
}
use usc_cs.Peers.Pending.{
  PendingCreate, QueryStatus, new_query, new_pending, is_a_match, forward_waiting,
  message_back_clients, notify_servers, Response, deferred, refused, determine_response,
}
use usc_cs.Peers.Store.{
  ObjectStore, Peer, encode_result, client_name, query_from, Turn, respond_to_server,
  respond_to_client, query_bytes, with_pending,
}

-- The pending create with the number, and the list without it.
abbrev pub or_behind :
    PendingCreate
    → Option (PendingCreate × List PendingCreate)
    → Option (PendingCreate × List PendingCreate)
or_behind pc none = none
or_behind pc (some (found, rest)) = some (found, pc ∷ rest)

unfoldable pub take_pending : ℕ → List PendingCreate → Option (PendingCreate × List PendingCreate)
take_pending id [] = none
take_pending id (pc ∷ rest) =
    let later = or_behind pc (take_pending id rest) in
    if pc.id == id then some (pc, rest) else later

-- `numResponses++; responseTracker[from] = true;`
abbrev pub count_response : ℕ → PendingCreate → PendingCreate
count_response from pc = record pc {
  num_responses = pc.num_responses + 1;
  response_tracker = put pc.response_tracker from true;
}

-- The change of the first pending create with the number.
unfoldable pub update_pending :
    ℕ → (PendingCreate → PendingCreate) → List PendingCreate → List PendingCreate
update_pending id f [] = []
update_pending id f (pc ∷ rest) =
    let later = update_pending id f rest in if pc.id == id then f pc ∷ rest else pc ∷ later

-- The client's QueryStatus joins the first pending create for the same object.
abbrev pub or_joined : PendingCreate → Option (List PendingCreate) → Option (List PendingCreate)
or_joined pc none = none
or_joined pc (some rest) = some (pc ∷ rest)

unfoldable pub join_pending :
    List ℕ → StructureType → QueryStatus → List PendingCreate → Option (List PendingCreate)
join_pending name type q [] = none
join_pending name type q (pc ∷ rest) =
    let later = or_joined pc (join_pending name type q rest) in
    if is_a_match name type pc
    then some (record pc { waiting_clients = pc.waiting_clients ++ q ∷ [] } ∷ rest)
    else later

module _ {Objects : Type 0} (store : ObjectStore Objects) where
  -- DO_YOU_HAVE_LOCK_NAME, DO_YOU_HAVE_CV_NAME and DO_YOU_HAVE_MV_NAME
  abbrev pub respond_to_request :
      StructureType → Packet → (ℕ → ℕ) → Response → Peer Objects → Turn Objects
  respond_to_request type p blank (deferred pending) s = ([], with_pending pending s)
  respond_to_request type p blank refused s =
      (respond_to_server s.my_machine_id (do_not_have_name type) p blank ∷ [], s)

  abbrev pub unless_existing :
      StructureType → List ℕ → Packet → (ℕ → ℕ) → Option ℕ → Peer Objects → Turn Objects
  unless_existing type name p blank (some index) s =
      (respond_to_server s.my_machine_id (have_name type) p blank ∷ [], s)
  unless_existing type name p blank none s =
      respond_to_request type p blank
        (determine_response s.my_machine_id name type p s.pending_creates) s

  unfoldable pub on_do_you_have_name :
      StructureType → Packet → (ℕ → ℕ) → Peer Objects → Turn Objects
  on_do_you_have_name type p blank s =
      let name = text_at (p.bytes 5) 6 p.bytes in
      unless_existing type name p blank (store.check_exists type name s.objects) s

  -- HAVE_LOCK_NAME, HAVE_CV_NAME and HAVE_MV_NAME
  abbrev pub forward_found :
      Packet → Option (PendingCreate × List PendingCreate) → Peer Objects → Turn Objects
  forward_found p none s = ([], s)
  forward_found p (some (pc, rest)) s =
      (forward_waiting p.from_machine pc.waiting_clients, with_pending rest s)

  unfoldable pub on_have_name : Packet → Peer Objects → Turn Objects
  on_have_name p s = forward_found p (take_pending (int_at 1 p.bytes) s.pending_creates) s

  -- The object is made for the first client that waits, and everybody who waits is told.
  abbrev pub create_for :
      (ℕ → ℕ)
      → PendingCreate
      → List PendingCreate
      → List QueryStatus
      → Peer Objects
      → Option (Turn Objects)
  create_for blank pc rest [] s = none
  create_for blank pc rest (first ∷ others) s =
      let bytes = first.message.bytes in
      let (made, objects) =
        store.create pc.type (client_name pc.type bytes) (int_at 1 bytes) (int_at 5 bytes)
          s.objects in
      some (
        notify_servers s.my_machine_id pc.type blank pc.server_response_queue
            ++ message_back_clients s.my_machine_id (encode_result s.my_machine_id made)
                (first ∷ others),
        record s { pending_creates = rest; objects = objects },
      )

  -- DO_NOT_HAVE_LOCK_NAME, DO_NOT_HAVE_CV_NAME and DO_NOT_HAVE_MV_NAME. Where no pending create has the
  -- number, `temp` is used without a value: that is `none`.
  abbrev pub after_count :
      Packet
      → (ℕ → ℕ)
      → Option (PendingCreate × List PendingCreate)
      → Peer Objects
      → Option (Turn Objects)
  after_count p blank none s = none
  after_count p blank (some (found, rest)) s =
      let pc = count_response p.from_machine found in
      if pc.num_responses + 1 == s.total_num_servers
      then create_for blank pc rest pc.waiting_clients s
      else some (
        [],
        with_pending
            (update_pending (int_at 1 p.bytes) (count_response p.from_machine) s.pending_creates) s,
      )

  unfoldable pub on_do_not_have_name : Packet → (ℕ → ℕ) → Peer Objects → Option (Turn Objects)
  on_do_not_have_name p blank s =
      after_count p blank (take_pending (int_at 1 p.bytes) s.pending_creates) s

  abbrev pub start_query : StructureType → List ℕ → Packet → (ℕ → ℕ) → Peer Objects → Turn Objects
  start_query type name p blank s =
      let id = s.next_query_id in
      let q = new_query p (id + 1) in
      let pc = record (new_pending s.my_machine_id name type id) { waiting_clients = q ∷ [] } in
      (
        query_from s.total_num_servers 0 s.my_machine_id (do_you_have_name type)
            (put_int 1 id (query_bytes type p blank)),
        record s { pending_creates = s.pending_creates ++ pc ∷ []; next_query_id = id + 2 },
      )

  abbrev pub or_start :
      StructureType
      → List ℕ
      → Packet
      → (ℕ → ℕ)
      → Option (List PendingCreate)
      → Peer Objects
      → Turn Objects
  or_start type name p blank (some pending) s =
      ([], record s { pending_creates = pending; next_query_id = s.next_query_id + 1 })
  or_start type name p blank none s = start_query type name p blank s

  abbrev pub unless_made :
      StructureType → List ℕ → Packet → (ℕ → ℕ) → Option ℕ → Peer Objects → Turn Objects
  unless_made type name p blank (some index) s =
      (respond_to_client s.my_machine_id index p blank ∷ [], s)
  unless_made type name p blank none s =
      let q = new_query p s.next_query_id in
      or_start type name p blank (join_pending name type q s.pending_creates) s

  -- CREATE_LOCK, CREATE_CV and CREATE_MV
  unfoldable pub on_create : StructureType → Packet → (ℕ → ℕ) → Peer Objects → Turn Objects
  on_create type p blank s =
      let name = client_name type p.bytes in
      unless_made type name p blank (store.check_exists type name s.objects) s
