-- ===== src/Crdt/ServiceApply/Losses.antt =====
-- What the tracking of lost names (crdt/service_apply.rs) leaves of a loss.
use lightning_mesh.Prelude.{
  Option, none, some, ◌≡◌, ◌≢◌, ◌⊎◌, inl, inr, refl, arith, sym, ◌∙◌, Bool-cases,
}
use lightning_mesh.Order.{Text, ◌==◌, text_ord, eq_of_==, ==_of_eq, text_cmp-IsTotalOrder}
use lightning_mesh.Book.{get, get-insert}
use lightning_mesh.Crdt.Entries.{
  ServiceEntryV2, ServiceBookV2, ServiceTombstoneBook, LostName, LostNameMap,
}
use lightning_mesh.Crdt.Merge.{
  inserted, updated, unchanged, conflict, ok, merge_service_v2, merge_unreserved,
  resolve_service_conflict_v2,
}
use lightning_mesh.Crdt.ServiceApply.{
  PublishOutcome, merged, revived, rejected_by_tombstone, apply_service_publish_v2,
  track_conflict_loss,
}

-- The name is recorded as lost, and to another node.
abbrev pub IsLost : LostNameMap → Text → Text → Type 0
IsLost lost self_id name = (l : LostName) × (get lost name ≡ some l) × (l.winner_node_id ≢ self_id)

-- The two sides of a conflict are of different owners.
merge_unreserved_apart :
    (local : Option ServiceEntryV2) (incoming winner loser : ServiceEntryV2)
    → merge_unreserved local incoming ≡ conflict winner loser
    → winner.owner_node_id ≢ loser.owner_node_id
unfolding merge_unreserved resolve_service_conflict_v2
merge_unreserved_apart none incoming winner loser h same = cc
merge_unreserved_apart (some x) incoming winner loser h same = ground (
  arith,
  text_cmp-IsTotalOrder.same_of_eq x.owner_node_id incoming.owner_node_id,
  text_cmp-IsTotalOrder.cmp_self x.owner_node_id,
)

publish_apart :
    (book book' : ServiceBookV2) (tombstones : ServiceTombstoneBook) (name : Text)
    (incoming winner loser : ServiceEntryV2)
    → apply_service_publish_v2 book tombstones name incoming
      ≡ ok (book', merged (conflict winner loser))
    → winner.owner_node_id ≢ loser.owner_node_id
unfolding apply_service_publish_v2 merge_service_v2
publish_apart book book' tombstones name incoming winner loser h =
    ground (arith, merge_unreserved_apart (get book name) incoming winner loser)

Outcome-cases :
    (self_id : Text) (lost : LostNameMap) (name : Text) (outcome : PublishOutcome)
    → (track_conflict_loss lost self_id name outcome ≡ lost)
      ⊎ ((winner : ServiceEntryV2) × (loser : ServiceEntryV2) × (outcome
            ≡ merged (conflict winner loser))
          × (loser.owner_node_id ≡ self_id))
unfolding track_conflict_loss
Outcome-cases self_id lost name (merged (conflict winner loser)) =
    elim (Bool-cases (loser.owner_node_id == self_id)) [
      | inl e ↦ inr (winner, loser, refl, eq_of_== loser.owner_node_id self_id e)
      | inr e ↦ inl (ground arith)
    ]
Outcome-cases self_id lost name (merged inserted) = inl refl
Outcome-cases self_id lost name (merged updated) = inl refl
Outcome-cases self_id lost name (merged unchanged) = inl refl
Outcome-cases self_id lost name revived = inl refl
Outcome-cases self_id lost name rejected_by_tombstone = inl refl

-- What the tracking of a publish under some name leaves of a loss.
pub track-IsLost :
    (book book' : ServiceBookV2) (tombstones : ServiceTombstoneBook) (lost : LostNameMap)
    (self_id name q : Text) (incoming : ServiceEntryV2) (outcome : PublishOutcome)
    → apply_service_publish_v2 book tombstones name incoming ≡ ok (book', outcome)
    → IsLost lost self_id q
    → IsLost (track_conflict_loss lost self_id name outcome) self_id q
track-IsLost book book' tombstones lost self_id name q incoming outcome p (l, held, ne) =
    elim (Outcome-cases self_id lost name outcome) [
      | inl same ↦ (l, rw same held, ne)
      | inr (winner, loser, is_conflict, own) ↦
          let apart : winner.owner_node_id ≢ self_id = (λ e.
            publish_apart book book' tombstones name incoming winner loser (rw is_conflict at p)
              (e ∙ sym own)) in
          let entry : LostName = record {
            winner_node_id = winner.owner_node_id;
            hlc = winner.first_claimed_at;
          } in
          elim (Bool-cases (name == q)) [
            | inl e ↦ (
              entry,
              unfold track_conflict_loss in
                  ground (
                    arith,
                    get-insert lost name q entry,
                    is_conflict,
                    own,
                    ==_of_eq loser.owner_node_id self_id own,
                  ),
              apart,
            )
            | inr e ↦ (
              l,
              unfold track_conflict_loss in
                  ground (
                    arith,
                    get-insert lost name q entry,
                    is_conflict,
                    own,
                    ==_of_eq loser.owner_node_id self_id own,
                  ),
              ne,
            )
          ]
    ]
