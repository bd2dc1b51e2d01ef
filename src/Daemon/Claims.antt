-- ===== src/Daemon/Claims.antt =====
-- The claims on subnets: `apply_subnet_message` of meshd.
pub mod Own
pub mod Order
pub mod Partition
pub mod Fresh
pub mod Laws
use lightning_mesh.Prelude.{Option, none, some, ◌&&◌, not, if◌then◌else◌}
use lightning_mesh.Order.{Text, ◌==◌, leb, text_ord}
use lightning_mesh.Book.{Book, get, insert, remove}
use lightning_mesh.Net.{Ipnet}
use lightning_mesh.Crdt.Hlc.{hlc_ord}
use lightning_mesh.Crdt.Entries.{SubnetClaim}
use lightning_mesh.Crdt.Merge.{inserted, updated, unchanged, conflict, merge_subnet_claim}
use lightning_mesh.Crdt.Gossip.{GossipMessage, subnet_claim_update, subnet_claim_release}

module _ (i : Ipnet) where
  abbrev pub Claim : Type 0
  Claim = SubnetClaim i.IpNet

  -- The claims by the text of their net.
  abbrev pub ClaimStore : Type 0
  ClaimStore = Book Text Claim

  -- The /24 that this node lost, if it lost one.
  abbrev pub lost_net : Text → Claim → Claim → Option i.Ipv4Net
  lost_net self_id winner loser =
      if loser.owner_node_id == self_id && not (winner.owner_node_id == self_id)
      then i.as_v4 loser.cidr
      else none

  -- The store afterwards, and the net that this node lost in a conflict.
  unfoldable pub apply_subnet_message :
      ClaimStore → GossipMessage i.IpNet → Text → ClaimStore × Option i.Ipv4Net
  unfolding merge_subnet_claim
  apply_subnet_message store (subnet_claim_update cidr entry) self_id =
      elim (merge_subnet_claim (get store cidr) entry) [
        | inserted ↦ (insert store cidr entry, none)
        | updated ↦ (insert store cidr entry, none)
        | unchanged ↦ (store, none)
        | conflict winner loser ↦ (insert store cidr winner, lost_net self_id winner loser)
      ]
  apply_subnet_message store (subnet_claim_release cidr hlc) self_id = elim (get store cidr) [
    | none ↦ (store, none)
    | some existing ↦
        if leb existing.claimed_at hlc then (remove store cidr, none) else (store, none)
  ]
  apply_subnet_message store _ self_id = (store, none)
