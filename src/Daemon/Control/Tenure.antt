-- ===== src/Daemon/Control/Tenure.antt =====
-- What a second publish of a name costs: the entry that it makes is first claimed at the time of that
-- publish.
use lightning_mesh.Prelude.{false, none, some, refl, [], ◌≡◌, ◌≢◌, arith, lt, gt, ℕ, Option}
use lightning_mesh.Order.{Text, ◌==◌, text_ord, text_cmp-IsTotalOrder}
use lightning_mesh.Book.{get, insert, get-insert_self}
use lightning_mesh.Crdt.Hlc.{Hlc, hlc_cmp, hlc_cmp-IsTotalOrder}
use lightning_mesh.Crdt.Entries.{IpAddr, Mac, ServiceEntryV2}
use lightning_mesh.Crdt.Merge.{conflict, ok, is_reserved_service_name, merge_service_v2}
use lightning_mesh.Crdt.ServiceApply.{
  merged, publish_service_v2, apply_service_publish_v2, apply_service_publish_v2_tracking_loss,
}
use lightning_mesh.Daemon.Control.{
  ControlApiPublishRequest, Effects, Lane, publish_service, publish_response, publish_entry,
  publish_target, target, handle_publish_request,
}
use lightning_mesh.Daemon.Control.Publish.{handle_publish_request_target}

module _ {Net : Type 0} where
  service_forfeits :
      (io : Effects) (lane : Lane Net) (self_id key : Text) (again ours theirs : ServiceEntryV2)
      → is_reserved_service_name key ≡ false
      → get lane.service_v2.lost_names key ≡ none
      → get lane.service_v2.book key ≡ some ours
      → ours.owner_node_id ≡ self_id
      → again.owner_node_id ≡ self_id
      → theirs.owner_node_id ≢ self_id
      → hlc_cmp again.updated_at ours.updated_at ≡ gt
      → hlc_cmp ours.first_claimed_at theirs.first_claimed_at ≡ lt
      → hlc_cmp theirs.first_claimed_at again.first_claimed_at ≡ lt
      → let (lane', outcome) = publish_service io lane self_id key again in
        ((publish_response lane' self_id key again outcome).0 ≡ 200)
        × (apply_service_publish_v2 lane.service_v2.book lane.service_v2.tombstones key theirs
            ≡ ok (insert lane.service_v2.book key ours, merged (conflict ours theirs)))
        × (apply_service_publish_v2 lane'.service_v2.book lane'.service_v2.tombstones key theirs
            ≡ ok (insert lane'.service_v2.book key theirs, merged (conflict theirs again)))
  unfolding publish_service publish_response publish_service_v2
      apply_service_publish_v2_tracking_loss apply_service_publish_v2 merge_service_v2
  service_forfeits io lane self_id key again ours theirs free kept held own own' ne newer before
        after =
      (
        ground (arith, text_cmp-IsTotalOrder.cmp_self self_id),
        ground (arith, text_cmp-IsTotalOrder.same_of_eq ours.owner_node_id theirs.owner_node_id),
        ground (
          arith,
          text_cmp-IsTotalOrder.cmp_self self_id,
          text_cmp-IsTotalOrder.same_of_eq self_id theirs.owner_node_id,
          get-insert_self lane.service_v2.book key again,
          hlc_cmp-IsTotalOrder.above_of_lt theirs.first_claimed_at again.first_claimed_at,
        ),
      )

  -- This node holds a name, and publishes it again through the control API at a later time. A peer's
  -- claim that is later than this node's first claim and earlier than the second publish would have
  -- lost the name before that publish, which the API answers by 200, and takes the name after it.
  pub republish-forfeits_tenure :
      (digest : Text → ℕ) (self_id : Text) (gateway : Option ℕ) (now : Hlc) (io : Effects)
      (lane : Lane Net) (req : ControlApiPublishRequest) (key : Text) (ip : IpAddr)
      (mac : Option Mac) (ours theirs : ServiceEntryV2)
      → (req.name == []) ≡ false
      → publish_target digest self_id gateway req ≡ target key ip mac
      → is_reserved_service_name key ≡ false
      → get lane.service_v2.lost_names key ≡ none
      → get lane.service_v2.book key ≡ some ours
      → ours.owner_node_id ≡ self_id
      → theirs.owner_node_id ≢ self_id
      → hlc_cmp now ours.updated_at ≡ gt
      → hlc_cmp ours.first_claimed_at theirs.first_claimed_at ≡ lt
      → hlc_cmp theirs.first_claimed_at now ≡ lt
      → let (lane', response) = handle_publish_request digest self_id gateway now io lane req in
        (response.0 ≡ 200)
        × (apply_service_publish_v2 lane.service_v2.book lane.service_v2.tombstones key theirs
            ≡ ok (insert lane.service_v2.book key ours, merged (conflict ours theirs)))
        × (apply_service_publish_v2 lane'.service_v2.book lane'.service_v2.tombstones key theirs
            ≡ ok (
              insert lane'.service_v2.book key theirs,
              merged (conflict theirs (publish_entry self_id now req ip mac)),
            ))
  unfolding publish_entry
  republish-forfeits_tenure digest self_id gateway now io lane req key ip mac ours theirs n t free
        kept held own ne newer before after =
      rw (handle_publish_request_target digest self_id gateway now io lane req key ip mac n t) (
        service_forfeits io lane self_id key (publish_entry self_id now req ip mac) ours theirs free
          kept held own refl ne newer before after)
