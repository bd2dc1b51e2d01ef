-- ===== src/Daemon/Dispatch.antt =====
-- The dispatch of the gossip loop (the handler that `run_mesh` gives to `GossipSync::run`). A node is
-- its books, what its files hold, and what it has handed to other tasks.
pub mod Files
pub mod Converge
pub mod Losses
use lightning_mesh.Prelude.{
  ℕ, Option, none, some, Bool, true, false, if◌then◌else◌, List, [], ◌∷◌, ◌++◌,
}
use lightning_mesh.Order.{Text}
use lightning_mesh.Net.{Ipnet, in_backhaul_block}
use lightning_mesh.Crdt.Liveness.{LivenessTracker, observe_with_egress}
use lightning_mesh.Crdt.Entries.{
  PeerAddrEntry, AddrBook, UserBook, NodeNameBook, ServiceBook, ServiceBookV2, ServiceTombstoneBook,
  LostNameMap, LeasedNameBook,
}
use lightning_mesh.Crdt.Merge.{ok, reserved_service_name}
use lightning_mesh.Crdt.LeasedName.{apply_leased_name}
use lightning_mesh.Crdt.ServiceApply.{
  apply_service_publish_v2_tracking_loss, apply_service_unpublish_v2,
}
use lightning_mesh.Crdt.Gossip.{
  GossipMessage, liveness_beacon, peer_addr_update, user_update, node_name_announce, service_update,
  service_publish_v2, service_unpublish_v2, leased_name_publish,
}
use lightning_mesh.Daemon.Apply.{
  apply_service_message, apply_user_message, apply_node_name_message, apply_peer_addr_message,
}
use lightning_mesh.Daemon.Claims.{ClaimStore, apply_subnet_message}

-- The arrival of a message: its time, and whether the write of a file succeeds that the daemon tries for it, at
-- most one.
pub record Arrival : Type 0 where
  pub now_ms : ℕ
  pub written : Bool

-- The contents of a file after `persist_*` of a snapshot. Where the encoding, the directory, the write of the
-- temporary file or the renaming fails, the file is left as it was, and the daemon goes on.
abbrev pub persist {ℓ} : {A : Type ℓ} → Bool → A → A → A
persist written file snapshot = if written then snapshot else file

-- `ServiceStateV2`
pub record ServiceStateV2 : Type 0 where
  pub book : ServiceBookV2
  pub tombstones : ServiceTombstoneBook
  pub lost_names : LostNameMap

module _ (i : Ipnet) where
  -- The contents of the files that the daemon persists.
  pub record Disk : Type 0 where
    pub addr_book : AddrBook
    pub user_book : UserBook
    pub node_name_book : NodeNameBook
    pub service_book : ServiceBook
    pub service_v2 : ServiceStateV2
    pub leased_names : LeasedNameBook
    pub claims : ClaimStore i

  pub record Node : Type 0 where
    pub self_id : Text
    pub liveness : LivenessTracker
    pub addr_book : AddrBook
    pub user_book : UserBook
    pub node_name_book : NodeNameBook
    pub service_book : ServiceBook
    pub service_v2 : ServiceStateV2
    pub leased_names : LeasedNameBook
    pub claims : ClaimStore i
    pub disk : Disk
    -- Whether the daemon has a `MemoryLookup`, and the entries fed into it.
    pub has_lookup : Bool
    pub fed : List PeerAddrEntry
    -- The channel of the nets to claim anew.
    pub reclaims : List i.Ipv4Net

  -- The daemon goes on, or has left the process after a lost backhaul address.
  pub data Step : Type 0 where
    running : Node → Step
    exited : Node → Step

  -- The arm for a peer's addresses.
  unfoldable pub learn_peer_addr : Node → Bool → GossipMessage i.IpNet → Node
  learn_peer_addr n written msg =
      let (book, learned) = apply_peer_addr_message n.addr_book msg n.self_id in
      elim learned [
        | none ↦ record n { addr_book = book }
        | some entry ↦ record n {
          addr_book = book;
          disk = record (n.disk) { addr_book = persist written n.disk.addr_book book };
          fed = if n.has_lookup then n.fed ++ entry ∷ [] else n.fed;
        }
      ]

  unfoldable pub learn_user : Node → Bool → GossipMessage i.IpNet → Node
  learn_user n written msg =
      let (book, learned) = apply_user_message n.user_book msg in
      elim learned [
        | none ↦ record n { user_book = book }
        | some _ ↦ record n {
          user_book = book;
          disk = record (n.disk) { user_book = persist written n.disk.user_book book };
        }
      ]

  unfoldable pub learn_node_name : Node → Bool → GossipMessage i.IpNet → Node
  learn_node_name n written msg =
      let (book, learned) = apply_node_name_message n.node_name_book msg n.self_id in
      elim learned [
        | none ↦ record n { node_name_book = book }
        | some _ ↦ record n {
          node_name_book = book;
          disk = record (n.disk) { node_name_book = persist written n.disk.node_name_book book };
        }
      ]

  unfoldable pub learn_service : Node → Bool → GossipMessage i.IpNet → Node
  learn_service n written msg =
      let (book, learned) = apply_service_message n.service_book msg in
      elim learned [
        | none ↦ record n { service_book = book }
        | some _ ↦ record n {
          service_book = book;
          disk = record (n.disk) { service_book = persist written n.disk.service_book book };
        }
      ]

  -- The state of the second service lane, in memory and persisted.
  abbrev pub with_service_v2 : Node → Bool → ServiceStateV2 → Node
  with_service_v2 n written s = record n {
    service_v2 = s;
    disk = record (n.disk) { service_v2 = persist written n.disk.service_v2 s };
  }

  -- The last arm, for claims on subnets and every message that no arm above takes.
  unfoldable pub learn_claim : Node → Bool → GossipMessage i.IpNet → Step
  learn_claim n written msg =
      let (store, lost) = apply_subnet_message i n.claims msg n.self_id in
      elim lost [
        | none ↦ running (record n { claims = store })
        | some net ↦
            if in_backhaul_block i net
            then exited (record n {
              claims = store;
              disk = record (n.disk) { claims = persist written n.disk.claims store };
            })
            else running (record n { claims = store; reclaims = n.reclaims ++ net ∷ [] })
      ]

  unfoldable pub dispatch : Node → Arrival → GossipMessage i.IpNet → Step
  dispatch n at (liveness_beacon node_id incarnation counter egress) = running (record n {
    liveness = (observe_with_egress n.liveness node_id incarnation counter egress at.now_ms).0;
  })
  dispatch n at (peer_addr_update node_id entry) =
      running (learn_peer_addr n at.written (peer_addr_update node_id entry))
  dispatch n at (user_update username entry) =
      running (learn_user n at.written (user_update username entry))
  dispatch n at (node_name_announce node_id entry) =
      running (learn_node_name n at.written (node_name_announce node_id entry))
  dispatch n at (service_update name entry) =
      running (learn_service n at.written (service_update name entry))
  dispatch n at (service_publish_v2 name entry) = running (
      with_service_v2 n at.written
        (elim (apply_service_publish_v2_tracking_loss n.service_v2.book n.service_v2.tombstones
          n.service_v2.lost_names n.self_id name entry) [
            | ok (book, lost, _) ↦ record (n.service_v2) { book = book; lost_names = lost }
            | reserved_service_name _ ↦ n.service_v2
          ]))
  dispatch n at (service_unpublish_v2 name owner hlc) =
      let (book, tombstones, _) =
        apply_service_unpublish_v2 n.service_v2.book n.service_v2.tombstones name owner hlc in
      running (
        with_service_v2 n at.written
          (record (n.service_v2) { book = book; tombstones = tombstones }))
  dispatch n at (leased_name_publish name entry) =
      let (book, _) = apply_leased_name n.leased_names name entry in
      running (record n {
        leased_names = book;
        disk = record (n.disk) { leased_names = persist at.written n.disk.leased_names book };
      })
  dispatch n at msg = learn_claim n at.written msg

  -- One more message, with its arrival. A process that has ended handles none.
  unfoldable pub deliver : Step → Arrival × GossipMessage i.IpNet → Step
  deliver (running n) (at, msg) = dispatch n at msg
  deliver (exited n) (at, msg) = exited n

  -- The messages that the loop delivers, in their order.
  unfoldable pub deliver_all : Step → List (Arrival × GossipMessage i.IpNet) → Step
  deliver_all s [] = s
  deliver_all s (m ∷ msgs) = deliver_all (deliver s m) msgs
