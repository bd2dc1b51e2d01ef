-- ===== src/Daemon/Dispatch/Converge/Lanes.antt =====
-- The four lanes of the daemon in which the newer entry wins.
use lightning_mesh.Prelude.{Option, none, some, ◌&&◌, not, if◌then◌else◌, ◌≡◌, ◌≢◌, refl, arith}
use lightning_mesh.Order.{Text, ◌==◌, text_ord, text_cmp-IsTotalOrder}
use lightning_mesh.Book.{get, get-insert}
use lightning_mesh.Net.{Ipnet}
use lightning_mesh.Crdt.Entries.{PeerAddrEntry, UserEntry, NodeNameEntry, ServiceEntry}
use lightning_mesh.Crdt.Gossip.{
  GossipMessage, peer_addr_update, user_update, node_name_announce, service_update,
}
use lightning_mesh.Daemon.Apply.{
  apply_service_message, apply_user_message, apply_node_name_message, apply_peer_addr_message,
}
use lightning_mesh.Daemon.Dispatch.{
  Arrival, Node, dispatch, learn_peer_addr, learn_user, learn_node_name, learn_service, learn_claim,
}
use lightning_mesh.Daemon.Dispatch.Files.{node_of}
use lightning_mesh.Daemon.Dispatch.Converge.{Lane, offer_maybe}

module _ (i : Ipnet) where
  unfoldable pub user_offered : Text → Text → GossipMessage i.IpNet → Option UserEntry
  user_offered self k (user_update u e) = if u == k then some e else none
  user_offered self k _ = none

  pub user_step :
      (n : Node i) (now : Arrival) (msg : GossipMessage i.IpNet) (k : Text)
      → get (node_of i (dispatch i n now msg)).user_book k
        ≡ offer_maybe i
            (λ (e : UserEntry). e.updated_at)
            (get n.user_book k)
            (user_offered n.self_id k msg)
  unfolding dispatch learn_user apply_user_message user_offered learn_claim learn_peer_addr
      learn_node_name learn_service
  user_step n now (user_update u e) k =
      ground (arith, get-insert n.user_book u k e, text_cmp-IsTotalOrder.same_of_eq u k)
  user_step n now _ k = ground arith

  unfoldable pub service_offered : Text → Text → GossipMessage i.IpNet → Option ServiceEntry
  service_offered self k (service_update u e) = if u == k then some e else none
  service_offered self k _ = none

  pub service_step :
      (n : Node i) (now : Arrival) (msg : GossipMessage i.IpNet) (k : Text)
      → get (node_of i (dispatch i n now msg)).service_book k
        ≡ offer_maybe i
            (λ (e : ServiceEntry). e.updated_at)
            (get n.service_book k)
            (service_offered n.self_id k msg)
  unfolding dispatch learn_service apply_service_message service_offered learn_claim learn_peer_addr
      learn_node_name learn_user
  service_step n now (service_update u e) k =
      ground (arith, get-insert n.service_book u k e, text_cmp-IsTotalOrder.same_of_eq u k)
  service_step n now _ k = ground arith

  -- A node name is taken from its own subject alone, and never one's own.
  unfoldable pub node_name_offered : Text → Text → GossipMessage i.IpNet → Option NodeNameEntry
  node_name_offered self k (node_name_announce u e) =
      if u == k && (e.node_id == u && not (u == self)) then some e else none
  node_name_offered self k _ = none

  pub node_name_step :
      (n : Node i) (now : Arrival) (msg : GossipMessage i.IpNet) (k : Text)
      → get (node_of i (dispatch i n now msg)).node_name_book k
        ≡ offer_maybe i
            (λ (e : NodeNameEntry). e.announced_at)
            (get n.node_name_book k)
            (node_name_offered n.self_id k msg)
  unfolding dispatch learn_node_name apply_node_name_message node_name_offered learn_claim
      learn_peer_addr learn_service learn_user
  node_name_step n now (node_name_announce u e) k =
      ground (arith, get-insert n.node_name_book u k e, text_cmp-IsTotalOrder.same_of_eq u k)
  node_name_step n now _ k = ground arith

  -- A peer's addresses are never taken for oneself.
  unfoldable pub peer_addr_offered : Text → Text → GossipMessage i.IpNet → Option PeerAddrEntry
  peer_addr_offered self k (peer_addr_update u e) =
      if u == k && not (u == self) then some e else none
  peer_addr_offered self k _ = none

  pub peer_addr_step :
      (n : Node i) (now : Arrival) (msg : GossipMessage i.IpNet) (k : Text)
      → get (node_of i (dispatch i n now msg)).addr_book k
        ≡ offer_maybe i
            (λ (e : PeerAddrEntry). e.announced_at)
            (get n.addr_book k)
            (peer_addr_offered n.self_id k msg)
  unfolding dispatch learn_peer_addr apply_peer_addr_message peer_addr_offered learn_claim
      learn_node_name learn_service learn_user
  peer_addr_step n now (peer_addr_update u e) k =
      ground (arith, get-insert n.addr_book u k e, text_cmp-IsTotalOrder.same_of_eq u k)
  peer_addr_step n now _ k = ground arith

  pub user_impartial :
      (self self' k : Text) (msg : GossipMessage i.IpNet)
      → k ≢ self
      → k ≢ self'
      → user_offered self k msg ≡ user_offered self' k msg
  unfolding user_offered
  user_impartial self self' k (user_update u e) ne ne' = refl
  user_impartial self self' k _ ne ne' = refl

  pub service_impartial :
      (self self' k : Text) (msg : GossipMessage i.IpNet)
      → k ≢ self
      → k ≢ self'
      → service_offered self k msg ≡ service_offered self' k msg
  unfolding service_offered
  service_impartial self self' k (service_update u e) ne ne' = refl
  service_impartial self self' k _ ne ne' = refl

  pub node_name_impartial :
      (self self' k : Text) (msg : GossipMessage i.IpNet)
      → k ≢ self
      → k ≢ self'
      → node_name_offered self k msg ≡ node_name_offered self' k msg
  unfolding node_name_offered
  node_name_impartial self self' k (node_name_announce u e) ne ne' = ground (
    arith,
    text_cmp-IsTotalOrder.same_of_eq u k,
    text_cmp-IsTotalOrder.same_of_eq u self,
    text_cmp-IsTotalOrder.same_of_eq u self',
  )
  node_name_impartial self self' k _ ne ne' = refl

  pub peer_addr_impartial :
      (self self' k : Text) (msg : GossipMessage i.IpNet)
      → k ≢ self
      → k ≢ self'
      → peer_addr_offered self k msg ≡ peer_addr_offered self' k msg
  unfolding peer_addr_offered
  peer_addr_impartial self self' k (peer_addr_update u e) ne ne' = ground (
    arith,
    text_cmp-IsTotalOrder.same_of_eq u k,
    text_cmp-IsTotalOrder.same_of_eq u self,
    text_cmp-IsTotalOrder.same_of_eq u self',
  )
  peer_addr_impartial self self' k _ ne ne' = refl

  abbrev pub users : Lane i UserEntry
  users = record {
    book = λ n. n.user_book;
    stamp = λ e. e.updated_at;
    offered = user_offered;
    step = user_step;
    impartial = user_impartial;
  }

  abbrev pub services : Lane i ServiceEntry
  services = record {
    book = λ n. n.service_book;
    stamp = λ e. e.updated_at;
    offered = service_offered;
    step = service_step;
    impartial = service_impartial;
  }

  abbrev pub node_names : Lane i NodeNameEntry
  node_names = record {
    book = λ n. n.node_name_book;
    stamp = λ e. e.announced_at;
    offered = node_name_offered;
    step = node_name_step;
    impartial = node_name_impartial;
  }

  abbrev pub peer_addrs : Lane i PeerAddrEntry
  peer_addrs = record {
    book = λ n. n.addr_book;
    stamp = λ e. e.announced_at;
    offered = peer_addr_offered;
    step = peer_addr_step;
    impartial = peer_addr_impartial;
  }
