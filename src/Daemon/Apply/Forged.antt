-- ===== src/Daemon/Apply/Forged.antt =====
-- Whether the subject of an announcement is checked.
use lightning_mesh.Prelude.{none, some, ◌≡◌, ◌≢◌, arith, gt}
use lightning_mesh.Order.{Text, text_ord, text_cmp-IsTotalOrder}
use lightning_mesh.Book.{get, insert, get-insert_self}
use lightning_mesh.Crdt.Hlc.{hlc_cmp, hlc_cmp-IsTotalOrder}
use lightning_mesh.Crdt.Entries.{PeerAddrEntry, AddrBook, NodeNameEntry, NodeNameBook}
use lightning_mesh.Crdt.Merge.{merge_peer_addr, merge_node_name}
use lightning_mesh.Crdt.Gossip.{peer_addr_update, node_name_announce}
use lightning_mesh.Daemon.Apply.{apply_node_name_message, apply_peer_addr_message}

module _ (Net : Type 0) (self_id : Text) where
  -- The address book after an announcement under an id.
  abbrev pub hear_addr : AddrBook → Text → PeerAddrEntry → AddrBook
  hear_addr book k e = (apply_peer_addr_message {Net = Net} book (peer_addr_update k e) self_id).0

  abbrev pub hear_name : NodeNameBook → Text → NodeNameEntry → NodeNameBook
  hear_name book k e = (apply_node_name_message {Net = Net} book (node_name_announce k e) self_id).0

  -- Two announcements arrive under the id of an unknown node, which is not this node's: a genuine one with an entry
  -- about that id, and a forged one with an entry about another id and a later stamp. Whichever comes first, the
  -- address book ends with the forged addresses under the id, and the book of node names with the genuine name.
  pub forged_addr_displaces :
      (addrs : AddrBook) (names : NodeNameBook) (k : Text) (addr forged_addr : PeerAddrEntry)
      (name forged_name : NodeNameEntry)
      → k ≢ self_id
      → get addrs k ≡ none
      → get names k ≡ none
      → addr.node_id ≡ k
      → name.node_id ≡ k
      → forged_addr.node_id ≢ k
      → forged_name.node_id ≢ k
      → hlc_cmp forged_addr.announced_at addr.announced_at ≡ gt
      → hlc_cmp forged_name.announced_at name.announced_at ≡ gt
      → (get (hear_addr (hear_addr addrs k addr) k forged_addr) k ≡ some forged_addr)
        × (get (hear_addr (hear_addr addrs k forged_addr) k addr) k ≡ some forged_addr)
        × (get (hear_name (hear_name names k name) k forged_name) k ≡ some name)
        × (get (hear_name (hear_name names k forged_name) k name) k ≡ some name)
  unfolding apply_peer_addr_message apply_node_name_message merge_peer_addr merge_node_name
  forged_addr_displaces addrs names k addr forged_addr name forged_name ne va vn ga gn fa fn la ln =
      let other = text_cmp-IsTotalOrder.same_of_eq k self_id in
      let forged = text_cmp-IsTotalOrder.same_of_eq forged_name.node_id k in
      let own = text_cmp-IsTotalOrder.cmp_self k in
      (
        ground (
          arith,
          other,
          get-insert_self addrs k addr,
          get-insert_self (insert addrs k addr) k forged_addr,
        ),
        ground (
          arith,
          other,
          get-insert_self addrs k forged_addr,
          hlc_cmp-IsTotalOrder.below_of_gt forged_addr.announced_at addr.announced_at,
        ),
        ground (arith, other, forged, own, get-insert_self names k name),
        ground (arith, other, forged, own, get-insert_self names k name),
      )
