-- ===== src/Daemon/Apply.antt =====
-- The functions that apply one received message to one book. Each returns the book afterwards and
-- what it learned.
pub mod Forged
use lightning_mesh.Prelude.{Option, none, some, if◌then◌else◌}
use lightning_mesh.Order.{Text, ◌==◌, text_ord}
use lightning_mesh.Book.{get, insert}
use lightning_mesh.Crdt.Entries.{
  PeerAddrEntry, AddrBook, UserEntry, UserBook, NodeNameEntry, NodeNameBook, ServiceEntry,
  ServiceBook,
}
use lightning_mesh.Crdt.Merge.{
  inserted, updated, merge_peer_addr, merge_node_name, merge_user, merge_service,
}
use lightning_mesh.Crdt.Gossip.{
  GossipMessage, peer_addr_update, user_update, node_name_announce, service_update,
}

module _ {Net : Type 0} where
  unfoldable pub apply_service_message :
      ServiceBook → GossipMessage Net → ServiceBook × Option (Text × ServiceEntry)
  unfolding merge_service
  apply_service_message book (service_update name entry) =
      elim (merge_service (get book name) entry) [
        | inserted ↦ (insert book name entry, some (name, entry))
        | updated ↦ (insert book name entry, some (name, entry))
        | _ ↦ (book, none)
      ]
  apply_service_message book _ = (book, none)

  unfoldable pub apply_user_message : UserBook → GossipMessage Net → UserBook × Option UserEntry
  unfolding merge_user
  apply_user_message book (user_update username entry) =
      elim (merge_user (get book username) entry) [
        | inserted ↦ (insert book username entry, some entry)
        | updated ↦ (insert book username entry, some entry)
        | _ ↦ (book, none)
      ]
  apply_user_message book _ = (book, none)

  unfoldable pub apply_node_name_message :
      NodeNameBook → GossipMessage Net → Text → NodeNameBook × Option NodeNameEntry
  unfolding merge_node_name
  apply_node_name_message book (node_name_announce node_id entry) self_id =
      if entry.node_id == node_id
      then if node_id == self_id
        then (book, none)
        else elim (merge_node_name (get book node_id) entry) [
          | inserted ↦ (insert book node_id entry, some entry)
          | updated ↦ (insert book node_id entry, some entry)
          | _ ↦ (book, none)
        ]
      else (book, none)
  apply_node_name_message book _ self_id = (book, none)

  unfoldable pub apply_peer_addr_message :
      AddrBook → GossipMessage Net → Text → AddrBook × Option PeerAddrEntry
  unfolding merge_peer_addr
  apply_peer_addr_message book (peer_addr_update node_id entry) self_id =
      if node_id == self_id then (book, none) else elim (merge_peer_addr (get book node_id) entry) [
        | inserted ↦ (insert book node_id entry, some entry)
        | updated ↦ (insert book node_id entry, some entry)
        | _ ↦ (book, none)
      ]
  apply_peer_addr_message book _ self_id = (book, none)
