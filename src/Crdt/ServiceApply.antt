-- ===== src/Crdt/ServiceApply.antt =====
-- Publishing and unpublishing owner-bound services (crdt/service_apply.rs).
pub mod Laws
pub mod Owners
pub mod Losses
use lightning_mesh.Prelude.{Bool, true, false, ◌&&◌, Option, none, some, if◌then◌else◌}
use lightning_mesh.Order.{Text, ◌==◌, gtb, text_ord}
use lightning_mesh.Book.{get, insert, remove}
use lightning_mesh.Crdt.Hlc.{Hlc, hlc_ord}
use lightning_mesh.Crdt.Entries.{
  ServiceEntryV2, ServiceBookV2, ServiceTombstone, ServiceTombstoneBook, LostName, LostNameMap,
}
use lightning_mesh.Crdt.Merge.{
  MergeResult, inserted, updated, unchanged, conflict, Checked, ok, reserved_service_name,
  is_reserved_service_name, merge_service_v2,
}

pub data PublishOutcome : Type 0 where
  merged : MergeResult ServiceEntryV2 → PublishOutcome
  revived : PublishOutcome
  rejected_by_tombstone : PublishOutcome

pub data UnpublishOutcome : Type 0 where
  unpublished tombstone_recorded not_changed ignored_not_owner : UnpublishOutcome

-- `?` on a `Result<_, ReservedServiceName>`
infixl 5 ◌>>=◌
abbrev pub ◌>>=◌ {ℓ κ} : {A : Type ℓ} {B : Type κ} → Checked A → (A → Checked B) → Checked B
ok a >>= f = f a
reserved_service_name n >>= f = reserved_service_name n

unfoldable pub apply_merge_result :
    ServiceBookV2 → Text → ServiceEntryV2 → MergeResult ServiceEntryV2 → ServiceBookV2
apply_merge_result book name incoming inserted = insert book name incoming
apply_merge_result book name incoming updated = insert book name incoming
apply_merge_result book name incoming (conflict winner loser) = insert book name winner
apply_merge_result book name incoming unchanged = book

-- The book afterwards and the outcome. An error leaves the book as it was.
unfoldable pub apply_service_publish_v2 :
    ServiceBookV2
    → ServiceTombstoneBook
    → Text
    → ServiceEntryV2
    → Checked (ServiceBookV2 × PublishOutcome)
unfolding apply_merge_result
apply_service_publish_v2 book tombstones name incoming = elim (get book name) [
  | some local ↦ do
    result ← merge_service_v2 name (some local) incoming
    ok (apply_merge_result book name incoming result, merged result)
  | none ↦ elim (get tombstones name) [
    | none ↦ do
      result ← merge_service_v2 name none incoming
      ok (apply_merge_result book name incoming result, merged result)
    | some tombstone ↦
        if incoming.owner_node_id == tombstone.owner_node_id
          && gtb incoming.updated_at tombstone.hlc
        then ok (insert book name incoming, revived)
        else ok (book, rejected_by_tombstone)
  ]
]

unfoldable pub track_conflict_loss : LostNameMap → Text → Text → PublishOutcome → LostNameMap
track_conflict_loss lost_names self_id name (merged (conflict winner loser)) =
    if loser.owner_node_id == self_id
    then insert lost_names name
        (record { winner_node_id = winner.owner_node_id; hlc = winner.first_claimed_at })
    else lost_names
track_conflict_loss lost_names self_id name _ = lost_names

-- The book and the lost names afterwards, and the outcome.
unfoldable pub apply_service_publish_v2_tracking_loss :
    ServiceBookV2
    → ServiceTombstoneBook
    → LostNameMap
    → Text
    → Text
    → ServiceEntryV2
    → Checked (ServiceBookV2 × LostNameMap × PublishOutcome)
unfolding track_conflict_loss
apply_service_publish_v2_tracking_loss book tombstones lost_names self_id name incoming = do
  (book', outcome) ← apply_service_publish_v2 book tombstones name incoming
  ok (book', track_conflict_loss lost_names self_id name outcome, outcome)

-- `Result<_, ServicePublishError>`
pub data Published {ℓ} (A : Type ℓ) : Type ℓ where
  done : A → Published A
  reserved : Text → Published A
  lost_to_peer : Text → Published A

-- `map_err`
abbrev pub map_reserved {ℓ} : {A : Type ℓ} → Checked A → Published A
map_reserved (ok a) = done a
map_reserved (reserved_service_name n) = reserved n

unfoldable pub publish_service_v2 :
    ServiceBookV2
    → ServiceTombstoneBook
    → LostNameMap
    → Text
    → Text
    → ServiceEntryV2
    → Published (ServiceBookV2 × LostNameMap × PublishOutcome)
publish_service_v2 book tombstones lost_names self_id name incoming =
    if is_reserved_service_name name then reserved name else elim (get lost_names name) [
      | some lost ↦ lost_to_peer lost.winner_node_id
      | none ↦
          map_reserved (
            apply_service_publish_v2_tracking_loss book tombstones lost_names self_id name incoming)
    ]

-- The book and the tombstones afterwards, and the outcome.
unfoldable pub apply_service_unpublish_v2 :
    ServiceBookV2
    → ServiceTombstoneBook
    → Text
    → Text
    → Hlc
    → ServiceBookV2 × ServiceTombstoneBook × UnpublishOutcome
apply_service_unpublish_v2 book tombstones name owner_node_id hlc =
    let tombstone : ServiceTombstone = record { owner_node_id = owner_node_id; hlc = hlc } in
    elim (get book name) [
      | some local ↦
          if local.owner_node_id == owner_node_id
          then (remove book name, insert tombstones name tombstone, unpublished)
          else (book, tombstones, ignored_not_owner)
      | none ↦ elim (get tombstones name) [
        | none ↦ (book, insert tombstones name tombstone, tombstone_recorded)
        | some existing ↦
            if existing.owner_node_id == owner_node_id
            then if gtb hlc existing.hlc
              then (book, insert tombstones name tombstone, tombstone_recorded)
              else (book, tombstones, not_changed)
            else (book, tombstones, ignored_not_owner)
      ]
    ]
