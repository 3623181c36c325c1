-- ===== src/Peers/Loop.antt =====
-- The loop of ServerToServerMessageHandler (code/network/server.cc).
use usc_cs.Common.{ℕ, Option, none, some}
use usc_cs.Peers.Messages.{
  MessageType, do_you_have, have, do_not_have, do_you_have_name, have_name, do_not_have_name,
  create_object, operate, result, Packet,
}
use usc_cs.Peers.Store.{ObjectStore, Peer, Turn}
use usc_cs.Peers.Handler.{on_do_you_have_name, on_have_name, on_do_not_have_name, on_create}
use usc_cs.Peers.Queries.{on_do_you_have, on_have, on_do_not_have, on_operation}

module _ {Objects : Type 0} (store : ObjectStore Objects) where
  -- `switch(messageType)`. An answer to a client has no type and does not come here.
  abbrev pub by_kind : MessageType → Packet → (ℕ → ℕ) → Peer Objects → Option (Turn Objects)
  by_kind (do_you_have type) p blank s = some (on_do_you_have store type p blank s)
  by_kind (have type) p blank s = some (on_have p s)
  by_kind (do_not_have type) p blank s = some (on_do_not_have p s)
  by_kind (do_you_have_name type) p blank s = some (on_do_you_have_name store type p blank s)
  by_kind (have_name type) p blank s = some (on_have_name store p s)
  by_kind (do_not_have_name type) p blank s = on_do_not_have_name store p blank s
  by_kind (create_object type) p blank s = some (on_create store type p blank s)
  by_kind (operate op) p blank s = some (on_operation op p blank s)
  by_kind result p blank s = none

  -- One round of the loop.
  unfoldable pub handle_message : Packet → (ℕ → ℕ) → Peer Objects → Option (Turn Objects)
  handle_message p blank s = by_kind p.kind p blank s
