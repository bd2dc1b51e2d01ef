-- ===== src/Daemon/Control/Unpublish.antt =====
-- Unpublishing what was published through the control API.
use lightning_mesh.Prelude.{
  true, false, Option, none, some, [], ◌≡◌, arith, ℕ, if◌then◌else◌, inl, inr, Bool-cases,
}
use lightning_mesh.Order.{Text, bytes, ◌==◌, text_ord, text_cmp-IsTotalOrder}
use lightning_mesh.Book.{get, get-insert_self, get-remove}
use lightning_mesh.Crdt.Hlc.{Hlc}
use lightning_mesh.Crdt.Entries.{IpAddr, Mac, ServiceTombstone}
use lightning_mesh.Crdt.ServiceApply.{apply_service_unpublish_v2}
use lightning_mesh.Crdt.DeviceNames.{valid, device_service_key}
use lightning_mesh.Dns.{is_some}
use lightning_mesh.Daemon.Control.{
  ControlApiPublishRequest, ControlApiUnpublishRequest, Effects, Lane, status_body, publish_target,
  device_target, target, handle_publish_request, unpublish_service, unpublish_response,
  unpublish_key, handle_unpublish_request,
}
use lightning_mesh.Daemon.Control.Publish.{handle_publish_request_lem, owned_by}

-- The request that takes a published name back.
abbrev pub release_of : ControlApiPublishRequest → ControlApiUnpublishRequest
release_of req = record { name = req.name; device = is_some req.ip }

-- The key of a request to unpublish.
target_key :
    (digest : Text → ℕ) (self_id : Text) (gateway : Option ℕ) (req : ControlApiPublishRequest)
    (key : Text) (ip : IpAddr) (mac : Option Mac)
    → publish_target digest self_id gateway req ≡ target key ip mac
    → (if is_some req.ip then device_service_key digest req.name self_id else valid req.name)
      ≡ valid key
unfolding publish_target device_target
target_key digest self_id gateway req key ip mac t = ground arith

module _ {Net : Type 0} where
  release_key :
      (self_id : Text) (now : Hlc) (io : Effects) (lane : Lane Net) (key : Text)
      → owned_by self_id (get lane.service_v2.book key) ≡ true
      → let (lane', response) = unpublish_key self_id now io lane key in
        (response ≡ (200, status_body (bytes "unpublished")))
        × (get lane'.service_v2.book key ≡ none)
        × (get lane'.service_v2.tombstones key
            ≡ some (record { owner_node_id = self_id; hlc = now }))
  unfolding unpublish_key unpublish_service apply_service_unpublish_v2 unpublish_response
  release_key self_id now io lane key h =
      let grave : ServiceTombstone = record { owner_node_id = self_id; hlc = now } in
      let own = text_cmp-IsTotalOrder.cmp_self key in
      (
        ground arith,
        ground (arith, get-remove lane.service_v2.book key key, own),
        ground (arith, get-insert_self lane.service_v2.tombstones key grave),
      )

  release_runs :
      (digest : Text → ℕ) (self_id : Text) (now : Hlc) (io : Effects) (lane : Lane Net)
      (req : ControlApiPublishRequest) (key : Text)
      → (req.name == []) ≡ false
      → (if is_some req.ip then device_service_key digest req.name self_id else valid req.name)
        ≡ valid key
      → handle_unpublish_request digest self_id now io lane (release_of req)
        ≡ unpublish_key self_id now io lane key
  unfolding handle_unpublish_request
  release_runs digest self_id now io lane req key n k = elim (Bool-cases (is_some req.ip)) [
    | inl d ↦ ground arith
    | inr d ↦ ground arith
  ]

  -- Where a publish through the control API is answered by 200, the request that comes next to
  -- unpublish the same name, as a device if the publish was of a device, is answered by 200; then
  -- the book has no service under the key of the publish, and the tombstone there is this node's and
  -- bears the time of the release. All this is so whether broadcasts and writes of files succeed or not.
  pub unpublish-publish :
      (digest : Text → ℕ) (self_id : Text) (gateway : Option ℕ) (now later : Hlc) (io io' : Effects)
      (lane : Lane Net) (req : ControlApiPublishRequest)
      → let (lane', response) = handle_publish_request digest self_id gateway now io lane req in
        response.0 ≡ 200
        → let (lane'', answer) =
            handle_unpublish_request digest self_id later io' lane' (release_of req) in
          (key : Text) × (ip : IpAddr) × (mac : Option Mac) × (publish_target digest self_id gateway
              req
            ≡ target key ip mac)
          × (answer ≡ (200, status_body (bytes "unpublished")))
          × (get lane''.service_v2.book key ≡ none)
          × (get lane''.service_v2.tombstones key
              ≡ some (record { owner_node_id = self_id; hlc = later }))
  unfolding handle_publish_request
  unpublish-publish digest self_id gateway now later io io' lane req ok =
      elim (Bool-cases (req.name == [])) [
        | inl n ↦ ground arith
        | inr n ↦ elim (handle_publish_request_lem digest self_id gateway now io lane req) [
          | inl (st, _) ↦ ground arith
          | inr (key, ip, mac, t, inr (st, _)) ↦ ground arith
          | inr (key, ip, mac, t, inl (st, w)) ↦
              let lane' = (handle_publish_request digest self_id gateway now io lane req).0 in
              let run =
                release_runs digest self_id later io' lane' req key n
                  (target_key digest self_id gateway req key ip mac t) in
              let gone = release_key self_id later io' lane' key w.held in
              (key, ip, mac, t, rw run gone.0, rw run gone.1, rw run gone.2)
        ]
      ]
