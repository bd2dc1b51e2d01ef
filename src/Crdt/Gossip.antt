-- ===== src/Crdt/Gossip.antt =====
-- The messages of the gossip overlay (crdt/gossip.rs).
use lightning_mesh.Prelude.{ℕ, Option}
use lightning_mesh.Order.{Text}
use lightning_mesh.Crdt.Hlc.{Hlc}
use lightning_mesh.Crdt.Egress.{EgressAd}
use lightning_mesh.Crdt.Entries.{
  Mac, LeaseEntry, DnsEntry, SubnetClaim, PeerAddrEntry, UserEntry, NodeNameEntry, ServiceEntry,
  ServiceEntryV2, LeasedName,
}

-- `Net` stands for `ipnet::IpNet`. The arguments of a constructor are the fields of the variant, in
-- their order.
pub data GossipMessage (Net : Type 0) : Type 0 where
  lease_update : LeaseEntry → GossipMessage Net
  -- mac, hlc
  lease_release : Mac → Hlc → GossipMessage Net
  -- hostname, entry
  dns_update : Text → DnsEntry → GossipMessage Net
  -- name, entry
  service_update : Text → ServiceEntry → GossipMessage Net
  -- cidr, entry
  subnet_claim_update : Text → SubnetClaim Net → GossipMessage Net
  -- cidr, hlc
  subnet_claim_release : Text → Hlc → GossipMessage Net
  -- node_id, entry
  peer_addr_update : Text → PeerAddrEntry → GossipMessage Net
  -- username, entry
  user_update : Text → UserEntry → GossipMessage Net
  -- name, entry
  service_publish_v2 : Text → ServiceEntryV2 → GossipMessage Net
  -- name, owner_node_id, hlc
  service_unpublish_v2 : Text → Text → Hlc → GossipMessage Net
  -- node_id, incarnation, counter, egress
  liveness_beacon : Text → ℕ → ℕ → Option EgressAd → GossipMessage Net
  -- node_id, entry
  node_name_announce : Text → NodeNameEntry → GossipMessage Net
  -- name, entry
  leased_name_publish : Text → LeasedName → GossipMessage Net
