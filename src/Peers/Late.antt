-- ===== src/Peers/Late.antt =====
-- An answer to a pending create that is gone (code/network/server.cc).
use usc_cs.Common.{ℕ, ◌≡◌, refl, List, Option, none, some}
use usc_cs.Peers.Messages.{Packet, int_at}
use usc_cs.Peers.Pending.{PendingCreate}
use usc_cs.Peers.Numbers.{Leaves, take_pending-Leaves, take_pending-none}
use usc_cs.Peers.Store.{ObjectStore, Peer}
use usc_cs.Peers.Handler.{take_pending, forward_found, on_have_name, on_do_not_have_name}
use usc_cs.Peers.Invariant.{WellNumbered}

module _ {Objects : Type 0} (store : ObjectStore Objects) where
  -- After a HAVE has ended a pending create, a DO_NOT_HAVE of another server under the same number finds
  -- nothing, and the handler goes on with a pointer that has no value.
  pub on_do_not_have_name_late :
      (p q : Packet) (blank : ℕ → ℕ) (s : Peer Objects)
      → WellNumbered s
      → int_at 1 q.bytes ≡ int_at 1 p.bytes
      → let (out, s') = on_have_name store p s in on_do_not_have_name store q blank s' ≡ none
  unfolding on_have_name on_do_not_have_name Leaves
  on_do_not_have_name_late p q blank s w same =
      go (take_pending (int_at 1 p.bytes) s.pending_creates)
        (take_pending-Leaves s.next_query_id (int_at 1 p.bytes) s.pending_creates w.0) refl
    where
      go :
          (o : Option (PendingCreate × List PendingCreate))
          → Leaves s.next_query_id (int_at 1 p.bytes) o
          → take_pending (int_at 1 p.bytes) s.pending_creates ≡ o
          → on_do_not_have_name store q blank (forward_found store p o s).1 ≡ none
      go none h e = simp (same, e) refl
      go (some (pc, rest)) (v, n) e = simp (same, take_pending-none (int_at 1 p.bytes) rest n) refl
