-- ===== src/Crdt/ServiceApply/Laws.antt =====
-- What publishing and unpublishing do to the book, the tombstones and the lost names.
use lightning_mesh.Prelude.{false, none, some, ◌≡◌, ◌≢◌, ◌⊎◌, inl, inr, arith, lt, gt}
use lightning_mesh.Order.{Text, text_cmp-IsTotalOrder, text_ord}
use lightning_mesh.Book.{get, insert, get-insert, get-insert_self, get-remove}
use lightning_mesh.Crdt.Hlc.{Hlc, hlc_cmp, hlc_cmp-IsTotalOrder}
use lightning_mesh.Crdt.Entries.{
  ServiceEntryV2, ServiceBookV2, ServiceTombstone, ServiceTombstoneBook, LostName, LostNameMap,
}
use lightning_mesh.Crdt.Merge.{
  conflict, ok, is_reserved_service_name, merge_service_v2, resolve_service_conflict_v2,
}
use lightning_mesh.Crdt.ServiceApply.{
  merged, revived, rejected_by_tombstone, ignored_not_owner, apply_service_publish_v2,
  apply_service_publish_v2_tracking_loss, lost_to_peer, publish_service_v2,
  apply_service_unpublish_v2,
}

-- The verdict on two services of different owners does not depend on which of them is local.
pub resolve_service_conflict_v2_symm :
    (a b : ServiceEntryV2)
    → a.owner_node_id ≢ b.owner_node_id
    → resolve_service_conflict_v2 a b ≡ resolve_service_conflict_v2 b a
unfolding resolve_service_conflict_v2
resolve_service_conflict_v2_symm a b ne = ground (
  arith,
  hlc_cmp-IsTotalOrder.same_of_eq a.first_claimed_at b.first_claimed_at,
  hlc_cmp-IsTotalOrder.below_of_gt a.first_claimed_at b.first_claimed_at,
  hlc_cmp-IsTotalOrder.above_of_lt a.first_claimed_at b.first_claimed_at,
  hlc_cmp-IsTotalOrder.cmp_self a.first_claimed_at,
  text_cmp-IsTotalOrder.same_of_eq a.owner_node_id b.owner_node_id,
  text_cmp-IsTotalOrder.below_of_gt a.owner_node_id b.owner_node_id,
  text_cmp-IsTotalOrder.above_of_lt a.owner_node_id b.owner_node_id,
)

-- An owner unpublishes its live service at a stamp. A publish of the name that comes next brings
-- the service back if it is the owner's and bears a newer stamp; any other publish is rejected and
-- the name stays vacant.
pub publish-unpublish :
    (book : ServiceBookV2) (tombstones : ServiceTombstoneBook) (name : Text) (at : Hlc)
    (live incoming : ServiceEntryV2)
    → get book name ≡ some live
    → let (book', tombstones', _) =
        apply_service_unpublish_v2 book tombstones name live.owner_node_id at in
      (incoming.owner_node_id ≡ live.owner_node_id
        → hlc_cmp incoming.updated_at at ≡ gt
        → apply_service_publish_v2 book' tombstones' name incoming
          ≡ ok (insert book' name incoming, revived))
      × ((incoming.owner_node_id ≢ live.owner_node_id) ⊎ (hlc_cmp incoming.updated_at at ≢ gt)
          → (apply_service_publish_v2 book' tombstones' name incoming
              ≡ ok (book', rejected_by_tombstone))
            × (get book' name ≡ none))
unfolding apply_service_unpublish_v2 apply_service_publish_v2
publish-unpublish book tombstones name at live incoming held = (
  λ same newer. ground (
    arith,
    text_cmp-IsTotalOrder.cmp_self live.owner_node_id,
    text_cmp-IsTotalOrder.cmp_self name,
    get-remove book name name,
    get-insert tombstones name name (record { owner_node_id = live.owner_node_id; hlc = at }),
  ),
  λ barred. ground (
    arith,
    text_cmp-IsTotalOrder.cmp_self live.owner_node_id,
    text_cmp-IsTotalOrder.cmp_self name,
    text_cmp-IsTotalOrder.same_of_eq incoming.owner_node_id live.owner_node_id,
    get-remove book name name,
    get-insert tombstones name name (record { owner_node_id = live.owner_node_id; hlc = at }),
  ),
)

-- A message to unpublish changes nothing where another node owns the live service, or, at a vacant
-- name, the tombstone.
pub unpublish_not_owner :
    (book : ServiceBookV2) (tombstones : ServiceTombstoneBook) (name owner : Text) (at : Hlc)
    → ((live : ServiceEntryV2) × (get book name ≡ some live) × (live.owner_node_id ≢ owner))
      ⊎ ((t : ServiceTombstone) × (get book name ≡ none)
          × (get tombstones name ≡ some t)
          × (t.owner_node_id ≢ owner))
    → apply_service_unpublish_v2 book tombstones name owner at
      ≡ (book, tombstones, ignored_not_owner)
unfolding apply_service_unpublish_v2
unpublish_not_owner book tombstones name owner at (inl (live, held, ne)) =
    ground (arith, text_cmp-IsTotalOrder.same_of_eq live.owner_node_id owner)
unpublish_not_owner book tombstones name owner at (inr (t, vacant, grave, ne)) =
    ground (arith, text_cmp-IsTotalOrder.same_of_eq t.owner_node_id owner)

-- Where this node holds a name that is not reserved and a peer's earlier claim on it arrives, the peer's entry takes
-- the name, and a local publish of the name that comes next fails and names the peer.
pub publish-after_loss :
    (book : ServiceBookV2) (tombstones : ServiceTombstoneBook) (lost : LostNameMap) (name : Text)
    (ours theirs again : ServiceEntryV2)
    → is_reserved_service_name name ≡ false
    → get book name ≡ some ours
    → ours.owner_node_id ≢ theirs.owner_node_id
    → hlc_cmp theirs.first_claimed_at ours.first_claimed_at ≡ lt
    → (book' : ServiceBookV2) × (lost' : LostNameMap) × (apply_service_publish_v2_tracking_loss book
          tombstones lost ours.owner_node_id name theirs
        ≡ ok (book', lost', merged (conflict theirs ours)))
      × (get book' name ≡ some theirs)
      × (publish_service_v2 book' tombstones lost' ours.owner_node_id name again
          ≡ lost_to_peer theirs.owner_node_id)
unfolding apply_service_publish_v2_tracking_loss apply_service_publish_v2 merge_service_v2
    publish_service_v2
publish-after_loss book tombstones lost name ours theirs again free held ne earlier =
    let entry : LostName = record {
      winner_node_id = theirs.owner_node_id;
      hlc = theirs.first_claimed_at;
    } in
    (
      insert book name theirs,
      insert lost name entry,
      ground (
        arith,
        text_cmp-IsTotalOrder.same_of_eq ours.owner_node_id theirs.owner_node_id,
        text_cmp-IsTotalOrder.cmp_self ours.owner_node_id,
        hlc_cmp-IsTotalOrder.above_of_lt theirs.first_claimed_at ours.first_claimed_at,
      ),
      get-insert_self book name theirs,
      ground (arith, get-insert_self lost name entry),
    )
