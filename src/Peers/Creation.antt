-- ===== src/Peers/Creation.antt =====
-- Who is told what about a creation (code/network/server.cc): the queries at its start, and the answers
-- at its end.
use usc_cs.Common.{
  ℕ, zero, suc, ◌+◌, ◌^◌, ◌<◌, ◌≤◌, ◌≡◌, ◌≢◌, ◌⊎◌, inl, inr, refl, ◌∙◌, true, false, ◌==◌, List, [],
  ◌∷◌, ◌++◌, none, Bool-cases, arith,
}
use usc_cs.Peers.Messages.{
  StructureType, lock_type, cv_type, mv_type, MessageType, do_you_have_name, Packet, int_at,
  put_int, text_at, put_byte,
}
use usc_cs.Peers.Bytes.{int_at-put_int, put_int-behind, copied_text}
use usc_cs.Peers.Pending.{new_query, new_pending}
use usc_cs.Peers.Store.{ObjectStore, Peer, length_byte, client_name, query_from, query_bytes}
use usc_cs.Peers.Handler.{on_create, join_pending}

abbrev pub All : (Packet → Type 0) → List Packet → Type 0
All P [] = Unit
All P (m ∷ rest) = P m × All P rest

abbrev pub Reaches : ℕ → List Packet → Type 0
Reaches server [] = (true ≡ false)
Reaches server (m ∷ rest) = (m.to_machine ≡ server) ⊎ Reaches server rest

-- A message that asks another server for the name, with the number of the pending create.
pub record Asks (servers my_machine_id : ℕ) (type : StructureType) (id : ℕ) (name : List ℕ)
    (m : Packet) : Type 0 where
  pub to_handler : m.to_mailbox ≡ 1
  pub to_server : m.to_machine < servers
  pub to_other : m.to_machine ≢ my_machine_id
  pub asks : m.kind ≡ do_you_have_name type
  pub number : int_at 1 m.bytes ≡ id
  pub same_text : text_at (m.bytes 5) 6 m.bytes ≡ name

-- The name that the queries carry: for a variable it is not the name of the client's message.
abbrev pub asked_name : StructureType → Packet → List ℕ
asked_name lock_type p = client_name lock_type p.bytes
asked_name cv_type p = client_name cv_type p.bytes
asked_name mv_type p = text_at (p.bytes 9) 2 p.bytes

asked_name_lem :
    (type : StructureType) (p : Packet)
    → text_at (p.bytes (length_byte type)) 2 p.bytes ≡ asked_name type p
asked_name_lem lock_type p = refl
asked_name_lem cv_type p = refl
asked_name_lem mv_type p = refl

query_bytes_lem :
    (type : StructureType) (p : Packet) (blank : ℕ → ℕ) (id : ℕ)
    → id < 2 ^ 32
    → let bytes = put_int 1 id (query_bytes type p blank) in
      (int_at 1 bytes ≡ id) × (text_at (bytes 5) 6 bytes ≡ asked_name type p)
query_bytes_lem type p blank id h =
    let n = p.bytes (length_byte type) in
    let length_kept : put_int 1 id (query_bytes type p blank) 5 ≡ n =
      put_int-behind 1 id 5 (query_bytes type p blank) h (omega arith) in
    (
      int_at-put_int 1 id (query_bytes type p blank) h,
      rw length_kept (copied_text n 6 id 2 p.bytes (put_byte 5 n blank) h (omega arith))
          ∙ asked_name_lem type p,
    )

-- Each query is one to another server, one of those in the range.
pub query_from-All :
    (P : Packet → Type 0) (rounds i my_machine_id : ℕ) (kind : MessageType) (bytes : ℕ → ℕ)
    → ((j : ℕ)
        → i ≤ j
        → j < i + rounds
        → j ≢ my_machine_id
        → P (record {
          from_machine = my_machine_id;
          from_mailbox = 1;
          to_machine = j;
          to_mailbox = 1;
          kind = kind;
          bytes = bytes;
        }))
    → All P (query_from rounds i my_machine_id kind bytes)
query_from-All P zero i me kind bytes h = tt
query_from-All P (suc rounds) i me kind bytes h =
    let rest =
      query_from-All P rounds (i + 1) me kind bytes λ j low high. h j (omega arith) (omega arith) in
    elim (Bool-cases (i == me)) [
      | inl mine ↦ rw mine rest
      | inr other ↦ rw other (h i (omega arith) (omega arith) (ground arith), rest)
    ]

pub query_from-Reaches :
    (rounds i my_machine_id j : ℕ) (kind : MessageType) (bytes : ℕ → ℕ)
    → i ≤ j
    → j < i + rounds
    → j ≢ my_machine_id
    → Reaches j (query_from rounds i my_machine_id kind bytes)
query_from-Reaches zero i me j kind bytes low high other = absurd (omega arith)
query_from-Reaches (suc rounds) i me j kind bytes low high other = elim (Bool-cases (i == j)) [
  | inl now ↦ let not_me : (i == me) ≡ false = ground arith in rw not_me (inl (ground arith))
  | inr not_now ↦
      let rest =
        query_from-Reaches rounds (i + 1) me j kind bytes (ground arith) (omega arith) other in
      elim (Bool-cases (i == me)) [ inl mine ↦ rw mine rest | inr others ↦ rw others (inr rest) ]
]

module _ {Objects : Type 0} (store : ObjectStore Objects) where
  -- A client's request to create an object of which the server knows nothing starts a pending create
  -- under the next number: every other server, and nobody else, is asked for the name under that number.
  -- The name is that of the request for a lock and a condition; for a variable it is the text at byte 2.
  pub on_create-Asks :
      (type : StructureType) (p : Packet) (blank : ℕ → ℕ) (s : Peer Objects)
      → store.check_exists type (client_name type p.bytes) s.objects ≡ none
      → join_pending (client_name type p.bytes) type (new_query p s.next_query_id) s.pending_creates
        ≡ none
      → s.next_query_id < 2 ^ 32
      → let (out, s') = on_create store type p blank s in
        All (Asks s.total_num_servers s.my_machine_id type s.next_query_id (asked_name type p)) out
        × ((j : ℕ) → j < s.total_num_servers → j ≢ s.my_machine_id → Reaches j out)
        × (s'.pending_creates
            ≡ s.pending_creates
              ++ record (new_pending s.my_machine_id
                  (client_name type p.bytes)
                  type
                  s.next_query_id) { waiting_clients = new_query p (s.next_query_id + 1) ∷ [] }
                ∷ [])
  unfolding on_create
  on_create-Asks type p blank s unknown fresh h =
      let (number, text) = query_bytes_lem type p blank s.next_query_id h in
      simp (unknown, fresh)
        (
          query_from-All
              (Asks s.total_num_servers s.my_machine_id type s.next_query_id (asked_name type p))
              s.total_num_servers 0 s.my_machine_id _ _
              λ j low high other. record {
                to_handler = refl;
                to_server = omega arith;
                to_other = other;
                asks = refl;
                number = number;
                same_text = text;
              },
          λ j l other.
              query_from-Reaches s.total_num_servers 0 s.my_machine_id j (do_you_have_name type) _
                (omega arith) (omega arith) other,
          refl,
        )
