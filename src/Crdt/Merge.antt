-- ===== src/Crdt/Merge.antt =====
-- The merge functions (crdt/merge.rs).
use lightning_mesh.Prelude.{
  Bool, ◌||◌, Option, none, some, lt, eq, gt, if◌then◌else◌, ◌+◌, map, ◌&&◌,
}
use lightning_mesh.Order.{Text, bytes, ◌==◌, leb, nat_ord, text_ord}
use lightning_mesh.Crdt.Hlc.{Hlc, hlc_cmp, hlc_ord}
use lightning_mesh.Crdt.Entries.{
  SubnetClaim, PeerAddrEntry, UserEntry, NodeNameEntry, ServiceEntry, ServiceEntryV2,
}

pub data MergeResult {ℓ} (T : Type ℓ) : Type ℓ where
  inserted : MergeResult T
  updated : MergeResult T
  unchanged : MergeResult T
  -- winner, then loser
  conflict : T → T → MergeResult T

-- The common arms of the merges with no conflict: the entry with the newer stamp wins outright.
abbrev merge_newer {ℓ} : {T : Type ℓ} → (T → Hlc) → Option T → T → MergeResult T
merge_newer stamp none incoming = inserted
merge_newer stamp (some existing) incoming = elim (hlc_cmp (stamp incoming) (stamp existing)) [
  | gt ↦ updated
  | _ ↦ unchanged
]

unfoldable pub merge_peer_addr : Option PeerAddrEntry → PeerAddrEntry → MergeResult PeerAddrEntry
merge_peer_addr local incoming = merge_newer (λ e. e.announced_at) local incoming

unfoldable pub merge_node_name : Option NodeNameEntry → NodeNameEntry → MergeResult NodeNameEntry
merge_node_name local incoming = merge_newer (λ e. e.announced_at) local incoming

unfoldable pub merge_user : Option UserEntry → UserEntry → MergeResult UserEntry
merge_user local incoming = merge_newer (λ e. e.updated_at) local incoming

unfoldable pub merge_service : Option ServiceEntry → ServiceEntry → MergeResult ServiceEntry
merge_service local incoming = merge_newer (λ e. e.updated_at) local incoming

module _ {Net : Type 0} where
  -- The winner and the loser: the lower stamp wins, and at equal stamps the lower owner.
  unfoldable pub resolve_subnet_conflict :
      SubnetClaim Net → SubnetClaim Net → SubnetClaim Net × SubnetClaim Net
  resolve_subnet_conflict a b = elim (hlc_cmp a.claimed_at b.claimed_at) [
    | lt ↦ (a, b)
    | gt ↦ (b, a)
    | eq ↦ if leb a.owner_node_id b.owner_node_id then (a, b) else (b, a)
  ]

  unfoldable pub merge_subnet_claim :
      Option (SubnetClaim Net) → SubnetClaim Net → MergeResult (SubnetClaim Net)
  unfolding resolve_subnet_conflict
  merge_subnet_claim none incoming = inserted
  merge_subnet_claim (some existing) incoming =
      if existing.owner_node_id == incoming.owner_node_id
      then elim (hlc_cmp incoming.claimed_at existing.claimed_at) [ gt ↦ updated | _ ↦ unchanged ]
      else let (winner, loser) = resolve_subnet_conflict existing incoming in conflict winner loser

-- `str::to_ascii_lowercase`
abbrev pub lowercase : Text → Text
lowercase = map (λ c. if leb b'A' c && leb c b'Z' then c + 32 else c)

-- `RESERVED_SERVICE_NAMES` and its test (crdt/service.rs).
unfoldable pub is_reserved_service_name : Text → Bool
is_reserved_service_name name =
    let lower = lowercase name in bytes "hello" == lower || bytes "id" == lower

unfoldable pub resolve_service_conflict_v2 :
    ServiceEntryV2 → ServiceEntryV2 → ServiceEntryV2 × ServiceEntryV2
resolve_service_conflict_v2 a b = elim (hlc_cmp a.first_claimed_at b.first_claimed_at) [
  | lt ↦ (a, b)
  | gt ↦ (b, a)
  | eq ↦ if leb a.owner_node_id b.owner_node_id then (a, b) else (b, a)
]

unfoldable pub merge_unreserved :
    Option ServiceEntryV2 → ServiceEntryV2 → MergeResult ServiceEntryV2
unfolding resolve_service_conflict_v2
merge_unreserved none incoming = inserted
merge_unreserved (some existing) incoming =
    if existing.owner_node_id == incoming.owner_node_id
    then elim (hlc_cmp incoming.updated_at existing.updated_at) [ gt ↦ updated | _ ↦ unchanged ]
    else let (winner, loser) = resolve_service_conflict_v2 existing incoming in
      conflict winner loser

-- `Result<_, ReservedServiceName>`
pub data Checked {ℓ} (A : Type ℓ) : Type ℓ where
  ok : A → Checked A
  reserved_service_name : Text → Checked A

unfoldable pub merge_service_v2 :
    Text → Option ServiceEntryV2 → ServiceEntryV2 → Checked (MergeResult ServiceEntryV2)
unfolding merge_unreserved
merge_service_v2 name local incoming =
    if is_reserved_service_name name
    then reserved_service_name name
    else ok (merge_unreserved local incoming)
