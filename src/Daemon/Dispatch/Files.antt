-- ===== src/Daemon/Dispatch/Files.antt =====
-- What the files hold: every lane that is persisted as it changes is on disk as it is in memory.
use lightning_mesh.Prelude.{
  Bool, true, List, [], ◌∷◌, ◌++◌, ◌≡◌, refl, ap, ◌∙◌, arith, ◌⊎◌, inl, inr, All,
}
use lightning_mesh.Net.{Ipnet}
use lightning_mesh.Crdt.Gossip.{
  GossipMessage, lease_update, lease_release, dns_update, subnet_claim_update, subnet_claim_release,
  liveness_beacon, peer_addr_update, user_update, node_name_announce, service_update,
  service_publish_v2, service_unpublish_v2, leased_name_publish,
}
use lightning_mesh.Daemon.Apply.{
  apply_service_message, apply_user_message, apply_node_name_message, apply_peer_addr_message,
}
use lightning_mesh.Daemon.Dispatch.{
  Arrival, Node, Step, running, exited, learn_peer_addr, learn_user, learn_node_name, learn_service,
  learn_claim, dispatch, deliver, deliver_all,
}

module _ (i : Ipnet) where
  pub record IsMirrored (n : Node i) : Type 0 where
    pub addr_book : n.disk.addr_book ≡ n.addr_book
    pub user_book : n.disk.user_book ≡ n.user_book
    pub node_name_book : n.disk.node_name_book ≡ n.node_name_book
    pub service_book : n.disk.service_book ≡ n.service_book
    pub service_v2 : n.disk.service_v2 ≡ n.service_v2
    pub leased_names : n.disk.leased_names ≡ n.leased_names

  -- The node of a step, whether it goes on or has exited.
  abbrev pub node_of : Step i → Node i
  node_of (running n) = n
  node_of (exited n) = n

  pub Step-cases : (s : Step i) → ((n : Node i) × (s ≡ running n)) ⊎ ((n : Node i) × (s ≡ exited n))
  Step-cases (running n) = inl (n, refl)
  Step-cases (exited n) = inr (n, refl)

  learn_user-IsMirrored :
      (n : Node i) (written : Bool)
      → written ≡ true
      → (msg : GossipMessage i.IpNet) → IsMirrored n
      → IsMirrored (learn_user i n written msg)
  unfolding learn_user apply_user_message
  learn_user-IsMirrored n written w msg m = ground arith

  learn_peer_addr-IsMirrored :
      (n : Node i) (written : Bool)
      → written ≡ true
      → (msg : GossipMessage i.IpNet) → IsMirrored n
      → IsMirrored (learn_peer_addr i n written msg)
  unfolding learn_peer_addr apply_peer_addr_message
  learn_peer_addr-IsMirrored n written w msg m = ground arith

  learn_node_name-IsMirrored :
      (n : Node i) (written : Bool)
      → written ≡ true
      → (msg : GossipMessage i.IpNet) → IsMirrored n
      → IsMirrored (learn_node_name i n written msg)
  unfolding learn_node_name apply_node_name_message
  learn_node_name-IsMirrored n written w msg m = ground arith

  learn_service-IsMirrored :
      (n : Node i) (written : Bool)
      → written ≡ true
      → (msg : GossipMessage i.IpNet) → IsMirrored n
      → IsMirrored (learn_service i n written msg)
  unfolding learn_service apply_service_message
  learn_service-IsMirrored n written w msg m = ground arith

  learn_claim-IsMirrored :
      (n : Node i) (written : Bool)
      → written ≡ true
      → (msg : GossipMessage i.IpNet) → IsMirrored n
      → IsMirrored (node_of (learn_claim i n written msg))
  unfolding learn_claim
  learn_claim-IsMirrored n written w msg m = ground arith

  dispatch-IsMirrored :
      (n : Node i) (at : Arrival)
      → at.written ≡ true
      → (msg : GossipMessage i.IpNet) → IsMirrored n
      → IsMirrored (node_of (dispatch i n at msg))
  unfolding dispatch
  dispatch-IsMirrored n at w (lease_update e) m =
      learn_claim-IsMirrored n at.written w (lease_update e) m
  dispatch-IsMirrored n at w (lease_release a h) m =
      learn_claim-IsMirrored n at.written w (lease_release a h) m
  dispatch-IsMirrored n at w (dns_update h e) m =
      learn_claim-IsMirrored n at.written w (dns_update h e) m
  dispatch-IsMirrored n at w (service_update k e) m =
      learn_service-IsMirrored n at.written w (service_update k e) m
  dispatch-IsMirrored n at w (subnet_claim_update c e) m =
      learn_claim-IsMirrored n at.written w (subnet_claim_update c e) m
  dispatch-IsMirrored n at w (subnet_claim_release c h) m =
      learn_claim-IsMirrored n at.written w (subnet_claim_release c h) m
  dispatch-IsMirrored n at w (peer_addr_update k e) m =
      learn_peer_addr-IsMirrored n at.written w (peer_addr_update k e) m
  dispatch-IsMirrored n at w (user_update k e) m =
      learn_user-IsMirrored n at.written w (user_update k e) m
  dispatch-IsMirrored n at w (service_publish_v2 k e) m = ground arith
  dispatch-IsMirrored n at w (service_unpublish_v2 k o h) m = ground arith
  dispatch-IsMirrored n at w (liveness_beacon k a b e) m = ground arith
  dispatch-IsMirrored n at w (node_name_announce k e) m =
      learn_node_name-IsMirrored n at.written w (node_name_announce k e) m
  dispatch-IsMirrored n at w (leased_name_publish k e) m = ground arith

  -- A message never changes who the node is.
  pub dispatch-self_id :
      (n : Node i) (at : Arrival) (msg : GossipMessage i.IpNet)
      → (node_of (dispatch i n at msg)).self_id ≡ n.self_id
  unfolding dispatch learn_claim learn_user learn_peer_addr learn_node_name learn_service
  dispatch-self_id n at msg = ground arith

  deliver-IsMirrored :
      (s : Step i) (m : Arrival × GossipMessage i.IpNet)
      → m.0.written ≡ true
      → IsMirrored (node_of s)
      → IsMirrored (node_of (deliver i s m))
  unfolding deliver
  deliver-IsMirrored (running n) (at, msg) w h = dispatch-IsMirrored n at w msg h
  deliver-IsMirrored (exited n) (at, msg) w h = h

  -- Where every write succeeds, the files hold what memory holds.
  written-IsMirrored :
      (msgs : List (Arrival × GossipMessage i.IpNet)) (s : Step i)
      → All (λ m. m.0.written ≡ true) msgs
      → IsMirrored (node_of s)
      → IsMirrored (node_of (deliver_all i s msgs))
  unfolding deliver_all
  written-IsMirrored [] s w h = h
  written-IsMirrored (m ∷ msgs) s (w, ws) h =
      written-IsMirrored msgs (deliver i s m) ws (deliver-IsMirrored s m w h)

  -- A file that a message leaves as it was, or brings to what memory holds after the message.
  abbrev Follows : {B : Type 0} → (Node i → B) → (Node i → B) → Type 0
  Follows file memory =
      (n : Node i) (at : Arrival) (msg : GossipMessage i.IpNet)
      → let n' = node_of (dispatch i n at msg) in (file n' ≡ file n) ⊎ (file n' ≡ memory n')

  -- At the end of a run the file holds what memory held after some of its messages, the first ones.
  abbrev pub IsSnapshot :
      {B : Type 0}
      → (Node i → B)
      → (Node i → B)
      → Step i
      → List (Arrival × GossipMessage i.IpNet)
      → Type 0
  IsSnapshot file memory s msgs =
      (done : List (Arrival × GossipMessage i.IpNet)) × (rest : List
        (Arrival × GossipMessage i.IpNet))
      × (done ++ rest ≡ msgs)
      × (file (node_of (deliver_all i s msgs)) ≡ memory (node_of (deliver_all i s done)))

  module _ {B : Type 0} (file memory : Node i → B) (follows : Follows file memory) where
    deliver-Follows :
        (s : Step i) (m : Arrival × GossipMessage i.IpNet)
        → let n' = node_of (deliver i s m) in (file n' ≡ file (node_of s)) ⊎ (file n' ≡ memory n')
    unfolding deliver
    deliver-Follows (running n) (at, msg) = follows n at msg
    deliver-Follows (exited n) (at, msg) = inl refl

    file_of_run :
        (msgs : List (Arrival × GossipMessage i.IpNet)) (s : Step i)
        → (file (node_of (deliver_all i s msgs)) ≡ file (node_of s)) ⊎ IsSnapshot file memory s msgs
    unfolding deliver_all
    file_of_run [] s = inl refl
    file_of_run (m ∷ msgs) s = elim (file_of_run msgs (deliver i s m)) [
      | inl same ↦ elim (deliver-Follows s m) [
        | inl kept ↦ inl (same ∙ kept)
        | inr brought ↦ inr (m ∷ [], msgs, refl, same ∙ brought)
      ]
      | inr (done, rest, split, held) ↦ inr (m ∷ done, rest, ap (λ ms. m ∷ ms) split, held)
    ]

    run-IsSnapshot :
        (msgs : List (Arrival × GossipMessage i.IpNet)) (s : Step i)
        → file (node_of s) ≡ memory (node_of s)
        → IsSnapshot file memory s msgs
    unfolding deliver_all
    run-IsSnapshot msgs s h = elim (file_of_run msgs s) [
      | inl same ↦ ([], msgs, refl, same ∙ h)
      | inr w ↦ w
    ]

  addr_book-Follows : Follows (λ n. n.disk.addr_book) (λ n. n.addr_book)
  unfolding dispatch learn_claim learn_user learn_peer_addr learn_node_name learn_service
  addr_book-Follows n at msg = ground arith

  user_book-Follows : Follows (λ n. n.disk.user_book) (λ n. n.user_book)
  unfolding dispatch learn_claim learn_user learn_peer_addr learn_node_name learn_service
  user_book-Follows n at msg = ground arith

  node_name_book-Follows : Follows (λ n. n.disk.node_name_book) (λ n. n.node_name_book)
  unfolding dispatch learn_claim learn_user learn_peer_addr learn_node_name learn_service
  node_name_book-Follows n at msg = ground arith

  service_book-Follows : Follows (λ n. n.disk.service_book) (λ n. n.service_book)
  unfolding dispatch learn_claim learn_user learn_peer_addr learn_node_name learn_service
  service_book-Follows n at msg = ground arith

  service_v2-Follows : Follows (λ n. n.disk.service_v2) (λ n. n.service_v2)
  unfolding dispatch learn_claim learn_user learn_peer_addr learn_node_name learn_service
  service_v2-Follows n at msg = ground arith

  leased_names-Follows : Follows (λ n. n.disk.leased_names) (λ n. n.leased_names)
  unfolding dispatch learn_claim learn_user learn_peer_addr learn_node_name learn_service
  leased_names-Follows n at msg = ground arith

  -- Every file that is persisted as its lane changes holds what memory held after some of the messages.
  pub record IsBehind (s : Step i) (msgs : List (Arrival × GossipMessage i.IpNet)) : Type 0 where
    pub addr_book : IsSnapshot (λ n. n.disk.addr_book) (λ n. n.addr_book) s msgs
    pub user_book : IsSnapshot (λ n. n.disk.user_book) (λ n. n.user_book) s msgs
    pub node_name_book : IsSnapshot (λ n. n.disk.node_name_book) (λ n. n.node_name_book) s msgs
    pub service_book : IsSnapshot (λ n. n.disk.service_book) (λ n. n.service_book) s msgs
    pub service_v2 : IsSnapshot (λ n. n.disk.service_v2) (λ n. n.service_v2) s msgs
    pub leased_names : IsSnapshot (λ n. n.disk.leased_names) (λ n. n.leased_names) s msgs

  -- Start from files of the address book, the users, the node names, both service lanes and the leased names that
  -- hold what memory holds. Whatever messages arrive, whichever writes of files succeed, and whether the process goes
  -- on or exits, each of these files holds at the end what memory held after some of the messages, the first ones; and
  -- where every write succeeds, each of them holds what memory holds.
  pub deliver_all-IsMirrored :
      (msgs : List (Arrival × GossipMessage i.IpNet)) (s : Step i)
      → IsMirrored (node_of s)
      → IsBehind s msgs
        × (All (λ m. m.0.written ≡ true) msgs → IsMirrored (node_of (deliver_all i s msgs)))
  deliver_all-IsMirrored msgs s h = (
    record {
      addr_book =
          run-IsSnapshot (λ n. n.disk.addr_book) (λ n. n.addr_book) addr_book-Follows msgs s
            h.addr_book;
      user_book =
          run-IsSnapshot (λ n. n.disk.user_book) (λ n. n.user_book) user_book-Follows msgs s
            h.user_book;
      node_name_book =
          run-IsSnapshot (λ n. n.disk.node_name_book) (λ n. n.node_name_book) node_name_book-Follows
            msgs s h.node_name_book;
      service_book =
          run-IsSnapshot (λ n. n.disk.service_book) (λ n. n.service_book) service_book-Follows msgs
            s h.service_book;
      service_v2 =
          run-IsSnapshot (λ n. n.disk.service_v2) (λ n. n.service_v2) service_v2-Follows msgs s
            h.service_v2;
      leased_names =
          run-IsSnapshot (λ n. n.disk.leased_names) (λ n. n.leased_names) leased_names-Follows msgs
            s h.leased_names;
    },
    λ w. written-IsMirrored msgs s w h,
  )
