-- ===== src/Clients/Handover.antt =====
-- A RELEASE message (code/network/server.cc) for a lock that others wait for.
use usc_cs.Common.{
  ℕ, ◌≡◌, ◌≢◌, inl, inr, refl, ◌∙◌, ap, true, false, ◌&&◌, not, some, List, [], ◌∷◌, ◌++◌, put,
  ◌==◌, arith,
}
use usc_cs.Common.Int.{minus_one}
use usc_cs.Syscalls.{decrease, is_zero}
use usc_cs.Server.{ClientRequest, ServerLock, is_held_by, is_taken, lock_release}
use usc_cs.Server.Operations.{Server, check_index, server_release}
use usc_cs.Server.Objects.{LockOk, held_refl, owned_busy, lock_release_lem}
use usc_cs.Peers.Messages.{Packet}
use usc_cs.Clients.{
  Host, arg, client, internal_index, is_mine, response, with_server, drain, on_release,
}

released :
    (cr next : ClientRequest) (rest : List ClientRequest) (l : ServerLock)
    → LockOk l
    → is_held_by l.current_client_request cr ≡ true
    → l.queue ≡ next ∷ rest
    → let (answer, l') = lock_release cr l in
      (answer.to ≡ next)
      × (answer.respond ≡ true)
      × (l'.queue ≡ rest)
      × (l'.current_client_request ≡ some next)
      × (is_taken l'.state ≡ true)
released cr next rest l ok held waiting =
    let (ok', cases) = lock_release_lem cr l ok in
    elim cases [
      | inl (other, _, _) ↦ absurd (ground arith)
      | inr (_, by_queue) ↦ elim by_queue [
        | inl (empty, _, _) ↦ absurd cc
        | inr (first, others, queue, to, respond, left, owner) ↦
            let same_first : first ≡ next = cc in
            let same_others : others ≡ rest = cc in
            let held_by : is_held_by (lock_release cr l).1.current_client_request first ≡ true =
              rw owner (held_refl first) in
            (
              to ∙ same_first,
              respond,
              left ∙ same_others,
              owner ∙ ap some same_first,
              owned_busy (lock_release cr l).1 first ok' held_by,
            )
      ]
    ]

-- The owner of a lock of this server releases it while others wait: the sender and the client that has
-- waited longest are answered, in this order, behind the answers that were still to be sent; that client is the new owner, and it has left the
-- queue. The lock is not deleted, even if that was asked for, and the other locks stay as they were.
pub release_hands_over :
    (h : Host) (p : Packet) (blank : ℕ → ℕ) (n : ℕ) (next : ClientRequest)
    (rest : List ClientRequest)
    → is_mine h.my_machine_id (arg 1 p) ≡ true
    → check_index h.server.lock_map h.server.lock_array_size
        (internal_index h.my_machine_id (arg 1 p))
      ≡ some (some n)
    → LockOk (h.server.lock_table n).lock
    → is_held_by (h.server.lock_table n).lock.current_client_request (client p) ≡ true
    → (h.server.lock_table n).lock.queue ≡ next ∷ rest
    → (s : Server) × (on_release p blank h
        ≡ some (
          drain h.my_machine_id blank h.server.responses
              ++ response h.my_machine_id blank (client p) minus_one
                ∷ response h.my_machine_id blank next minus_one
                ∷ [],
          with_server s h,
        ))
      × ((s.lock_table n).lock.current_client_request ≡ some next)
      × ((s.lock_table n).lock.queue ≡ rest)
      × (s.lock_map ≡ h.server.lock_map)
      × ((m : ℕ) → m ≢ n → s.lock_table m ≡ h.server.lock_table m)
unfolding on_release server_release
release_hands_over h p blank n next rest mine valid ok held waiting =
    let e = h.server.lock_table n in
    let (to, respond, queue, owner, taken) = released (client p) next rest e.lock ok held waiting in
    let same : (n == n) ≡ true = ground arith in
    let kept : e.is_to_be_deleted
          && is_zero (decrease e.acquire_count)
          && not (is_taken (lock_release (client p) e.lock).1.state)
        ≡ false =
      ground arith in
    (
      record h.server {
        lock_table = put h.server.lock_table n (record e {
          lock = (lock_release (client p) e.lock).1;
          acquire_count = decrease e.acquire_count;
        });
        responses = [];
      },
      simp (mine, valid, kept, respond, to) refl,
      rw same owner,
      rw same queue,
      refl,
      λ m other. let elsewhere : (n == m) ≡ false = ground arith in rw elsewhere refl,
    )
