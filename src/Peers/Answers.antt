-- ===== src/Peers/Answers.antt =====
-- The answers DO_NOT_HAVE_..._NAME (code/network/server.cc): the last one makes the object.
use usc_cs.Common.{
  ℕ, ◌+◌, ◌^◌, ◌<◌, ◌≡◌, ◌≢◌, ◌⊎◌, inl, inr, refl, true, false, ◌==◌, List, [], ◌∷◌, ◌++◌, Option,
  none, some, Bool-cases, arith,
}
use usc_cs.Peers.Messages.{StructureType, have_name, result, Packet, int_at}
use usc_cs.Peers.Bytes.{int_at-put_int}
use usc_cs.Peers.Pending.{
  PendingCreate, QueryStatus, ResponseQueueEntry, message_back_clients, notify_servers,
}
use usc_cs.Peers.Store.{ObjectStore, Peer, encode_result, client_name, with_pending}
use usc_cs.Peers.Handler.{take_pending, update_pending, count_response, on_do_not_have_name}

-- Each server whose request waited gets HAVE under the number of its own request, in order.
pub ServersTold : StructureType → List ResponseQueueEntry → List Packet → Type 0
ServersTold type [] [] = Unit
ServersTold type [] (m ∷ out) = (true ≡ false)
ServersTold type (e ∷ queue) [] = (true ≡ false)
ServersTold type (e ∷ queue) (m ∷ out) =
    ((m.to_machine ≡ e.reply_machine)
      × (m.to_mailbox ≡ e.reply_mailbox)
      × (m.kind ≡ have_name type)
      × (int_at 1 m.bytes ≡ e.reply_message_id))
    × ServersTold type queue out

-- Each client gets the index at its own address, in order.
pub ClientsTold : ℕ → List QueryStatus → List Packet → Type 0
ClientsTold index [] [] = Unit
ClientsTold index [] (m ∷ out) = (true ≡ false)
ClientsTold index (q ∷ clients) [] = (true ≡ false)
ClientsTold index (q ∷ clients) (m ∷ out) =
    ((m.to_machine ≡ q.message.from_machine)
      × (m.to_mailbox ≡ q.message.from_mailbox)
      × (m.kind ≡ result)
      × (int_at 0 m.bytes ≡ index))
    × ClientsTold index clients out

-- The numbers in the queue are ints.
abbrev pub AllWords : List ResponseQueueEntry → Type 0
AllWords [] = Unit
AllWords (e ∷ queue) = (e.reply_message_id < 2 ^ 32) × AllWords queue

notify_servers-Told :
    (me : ℕ) (type : StructureType) (blank : ℕ → ℕ) (queue : List ResponseQueueEntry)
    → AllWords queue
    → ServersTold type queue (notify_servers me type blank queue)
unfolding ServersTold
notify_servers-Told me type blank [] w = tt
notify_servers-Told me type blank (e ∷ queue) (h, w) = (
  (refl, refl, refl, int_at-put_int 1 e.reply_message_id blank h),
  notify_servers-Told me type blank queue w,
)

message_back-Told :
    (me index : ℕ) (clients : List QueryStatus)
    → index < 2 ^ 32
    → ClientsTold index clients (message_back_clients me index clients)
unfolding ClientsTold
message_back-Told me index [] h = tt
message_back-Told me index (q ∷ clients) h = (
  (refl, refl, refl, int_at-put_int 0 index q.message.bytes h),
  message_back-Told me index clients h,
)

encode_result-word : (me : ℕ) (o : Option ℕ) → encode_result me o < 2 ^ 32
encode_result-word me none = omega arith
encode_result-word me (some n) = omega arith

module _ {Objects : Type 0} (store : ObjectStore Objects) where
  -- A DO_NOT_HAVE under the number of a pending create for which clients wait is counted, and does
  -- nothing more where answers of other servers are missing. The last answer makes the object: the
  -- pending create is gone, each server whose request waited is told HAVE under the number of its
  -- request, and each client that waited gets the encoded index of the object.
  pub on_do_not_have_name_lem :
      (p : Packet) (blank : ℕ → ℕ) (s : Peer Objects) (pc : PendingCreate)
      (rest : List PendingCreate) (first : QueryStatus) (others : List QueryStatus)
      → take_pending (int_at 1 p.bytes) s.pending_creates ≡ some (pc, rest)
      → pc.waiting_clients ≡ first ∷ others
      → AllWords pc.server_response_queue
      → ((pc.num_responses + 2 ≢ s.total_num_servers)
          × (on_do_not_have_name store p blank s
              ≡ some (
                [],
                with_pending
                    (update_pending
                      (int_at 1 p.bytes)
                      (count_response p.from_machine)
                      s.pending_creates)
                    s,
              )))
        ⊎ ((pc.num_responses + 2 ≡ s.total_num_servers)
            × (let bytes = first.message.bytes in
                let (made, objects) =
                  store.create pc.type
                    (client_name pc.type bytes)
                    (int_at 1 bytes)
                    (int_at 5 bytes)
                    s.objects in
                (told answers : List Packet) × (on_do_not_have_name store p blank s
                  ≡ some (told ++ answers, record s { pending_creates = rest; objects = objects }))
                × ServersTold pc.type pc.server_response_queue told
                × ClientsTold (encode_result s.my_machine_id made) (first ∷ others) answers))
  unfolding on_do_not_have_name
  on_do_not_have_name_lem p blank s pc rest first others taken clients words =
      elim (Bool-cases (pc.num_responses + 1 + 1 == s.total_num_servers)) [
        | inr missing ↦ inl (ground arith, simp (taken, missing) refl)
        | inl all ↦
            let made =
              (store.create pc.type (client_name pc.type first.message.bytes)
                (int_at 1 first.message.bytes) (int_at 5 first.message.bytes) s.objects).0 in
            let index = encode_result s.my_machine_id made in
            inr (
              ground arith,
              (
                notify_servers s.my_machine_id pc.type blank pc.server_response_queue,
                message_back_clients s.my_machine_id index (first ∷ others),
                simp (taken, all, clients) refl,
                notify_servers-Told s.my_machine_id pc.type blank pc.server_response_queue words,
                message_back-Told s.my_machine_id index (first ∷ others)
                    (encode_result-word s.my_machine_id made),
              ),
            )
      ]
