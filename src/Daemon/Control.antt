-- ===== src/Daemon/Control.antt =====
-- The control API of the daemon (meshd, `control_api_*`): publishing and unpublishing a service on
-- behalf of this node. What serde_json reads of a body is a parameter; a body that is written is the
-- value that is encoded.
pub mod Publish
pub mod Tenure
pub mod Unpublish
use lightning_mesh.Prelude.{
  ℕ, Bool, true, false, Option, none, some, List, [], ◌∷◌, ◌++◌, if◌then◌else◌,
}
use lightning_mesh.Order.{Text, bytes, ◌==◌, text_ord}
use lightning_mesh.Book.{Book, get}
use lightning_mesh.Crdt.Hlc.{Hlc}
use lightning_mesh.Crdt.Entries.{IpAddr, v4, Mac, ServiceEntryV2}
use lightning_mesh.Crdt.Merge.{MergeResult, inserted, updated, unchanged, conflict}
use lightning_mesh.Crdt.ServiceApply.{
  PublishOutcome, merged, revived, rejected_by_tombstone, UnpublishOutcome, unpublished,
  tombstone_recorded, not_changed, ignored_not_owner, Published, done, reserved, lost_to_peer,
  publish_service_v2, apply_service_unpublish_v2,
}
use lightning_mesh.Crdt.DeviceNames.{valid, refused, device_service_key, parse_host_mac}
use lightning_mesh.Crdt.Gossip.{GossipMessage, service_publish_v2, service_unpublish_v2}
use lightning_mesh.Daemon.Dispatch.{ServiceStateV2, persist}
use lightning_mesh.Dns.{pre_claim_gateway}

pub record ControlApiPublishRequest : Type 0 where
  pub name : Text
  pub port : Option ℕ
  pub ip : Option IpAddr
  pub mac : Option Text
  pub txt : Book Text Text
  pub protocol : Text

pub record ControlApiUnpublishRequest : Type 0 where
  pub name : Text
  pub device : Bool

-- The value that a response encodes.
pub data Body : Type 0 where
  error_body : Text → Body
  owned_by_other_body : Text → Body
  entry_body : Text → ServiceEntryV2 → Body
  status_body : Text → Body

abbrev pub Response : Type 0
Response = ℕ × Body

-- `Option::unwrap_or`
abbrev pub unwrap_or {ℓ} : {A : Type ℓ} → Option A → A → A
unwrap_or none d = d
unwrap_or (some a) d = a

-- Where a publish goes: the key, the address and the MAC.
pub data Target : Type 0 where
  target : Text → IpAddr → Option Mac → Target
  bad_request : Text → Target

unfoldable pub device_target : (Text → ℕ) → Text → ControlApiPublishRequest → IpAddr → Target
device_target digest self_id req device_ip = elim (device_service_key digest req.name self_id) [
  | refused _ ↦ bad_request (bytes "invalid_device_name")
  | valid key ↦ elim req.mac [
    | none ↦ target key device_ip none
    | some m ↦ elim (parse_host_mac m) [
      | some mac ↦ target key device_ip (some mac)
      | none ↦ bad_request (bytes "invalid_mac")
    ]
  ]
]

unfoldable pub publish_target : (Text → ℕ) → Text → Option ℕ → ControlApiPublishRequest → Target
unfolding device_target
publish_target digest self_id gateway req = elim req.ip [
  | some device_ip ↦ device_target digest self_id req device_ip
  | none ↦ target req.name (v4 (unwrap_or gateway pre_claim_gateway)) none
]

-- The entry that a publish at the time `now` makes.
unfoldable pub publish_entry :
    Text → Hlc → ControlApiPublishRequest → IpAddr → Option Mac → ServiceEntryV2
publish_entry self_id now req ip host_mac = record {
  owner_node_id = self_id;
  first_claimed_at = now;
  updated_at = now;
  ip = ip;
  port = unwrap_or req.port 0;
  protocol = req.protocol;
  txt = req.txt;
  host_mac = host_mac;
}

unfoldable pub unpublish_response : UnpublishOutcome → Response
unpublish_response unpublished = (200, status_body (bytes "unpublished"))
unpublish_response tombstone_recorded = (200, status_body (bytes "tombstone_recorded"))
unpublish_response not_changed = (200, status_body (bytes "unchanged"))
unpublish_response ignored_not_owner = (409, error_body (bytes "not_owner"))

-- Whether the broadcast of a message succeeds, and the write of the file. The daemon only warns of a failure.
pub record Effects : Type 0 where
  pub broadcast : Bool
  pub written : Bool

-- The second service lane of this node, the messages it has broadcast, and its file.
pub record Lane (Net : Type 0) : Type 0 where
  pub service_v2 : ServiceStateV2
  pub sent : List (GossipMessage Net)
  pub file : ServiceStateV2

module _ {Net : Type 0} where
  unfoldable pub publish_service :
      Effects → Lane Net → Text → Text → ServiceEntryV2 → Lane Net × Published PublishOutcome
  publish_service io lane self_id name entry =
      let s = lane.service_v2 in
      elim (publish_service_v2 s.book s.tombstones s.lost_names self_id name entry) [
        | reserved n ↦ (lane, reserved n)
        | lost_to_peer winner ↦ (lane, lost_to_peer winner)
        | done (book, lost_names, outcome) ↦
            let s' : ServiceStateV2 = record s { book = book; lost_names = lost_names } in
            (
              record {
                service_v2 = s';
                sent =
                    if io.broadcast
                    then lane.sent ++ service_publish_v2 name entry ∷ []
                    else lane.sent;
                file = persist io.written lane.file s';
              },
              done outcome,
            )
      ]

  unfoldable pub unpublish_service :
      Effects → Lane Net → Text → Text → Hlc → Lane Net × UnpublishOutcome
  unpublish_service io lane name owner_node_id hlc =
      let s = lane.service_v2 in
      let (book, tombstones, outcome) =
        apply_service_unpublish_v2 s.book s.tombstones name owner_node_id hlc in
      let s' : ServiceStateV2 = record s { book = book; tombstones = tombstones } in
      (
        record {
          service_v2 = s';
          sent =
              if io.broadcast
              then lane.sent ++ service_unpublish_v2 name owner_node_id hlc ∷ []
              else lane.sent;
          file = persist io.written lane.file s';
        },
        outcome,
      )

  abbrev pub tombstone_owner : Lane Net → Text → Text
  tombstone_owner lane key = elim (get lane.service_v2.tombstones key) [
    | none ↦ []
    | some t ↦ t.owner_node_id
  ]

  -- The response to a publish, from the lane afterwards and the outcome.
  unfoldable pub publish_response :
      Lane Net → Text → Text → ServiceEntryV2 → Published PublishOutcome → Response
  publish_response lane self_id key e (reserved n) = (400, error_body (bytes "reserved"))
  publish_response lane self_id key e (lost_to_peer winner) = (409, owned_by_other_body winner)
  publish_response lane self_id key e (done (merged (conflict winner loser))) =
      if loser.owner_node_id == self_id
      then (409, owned_by_other_body winner.owner_node_id)
      else (200, entry_body key winner)
  publish_response lane self_id key e (done (merged inserted)) = (200, entry_body key e)
  publish_response lane self_id key e (done (merged updated)) = (200, entry_body key e)
  publish_response lane self_id key e (done (merged unchanged)) = (200, entry_body key e)
  publish_response lane self_id key e (done revived) = (200, entry_body key e)
  publish_response lane self_id key e (done rejected_by_tombstone) =
      (409, owned_by_other_body (tombstone_owner lane key))

  -- The handler, after the request is read.
  unfoldable pub handle_publish_request :
      (Text → ℕ)
      → Text
      → Option ℕ
      → Hlc
      → Effects
      → Lane Net
      → ControlApiPublishRequest
      → Lane Net × Response
  unfolding publish_target publish_entry publish_service publish_response
  handle_publish_request digest self_id gateway now io lane req =
      if req.name == []
      then (lane, (400, error_body (bytes "malformed_body")))
      else elim (publish_target digest self_id gateway req) [
        | bad_request kind ↦ (lane, (400, error_body kind))
        | target key ip host_mac ↦
            let e = publish_entry self_id now req ip host_mac in
            let (lane', outcome) = publish_service io lane self_id key e in
            (lane', publish_response lane' self_id key e outcome)
      ]

  unfoldable pub control_api_handle_publish :
      (Text → Option ControlApiPublishRequest)
      → (Text → ℕ)
      → Text
      → Option ℕ
      → Hlc
      → Effects
      → Lane Net
      → Text
      → Lane Net × Response
  control_api_handle_publish from_slice digest self_id gateway now io lane body =
      elim (from_slice body) [
        | none ↦ (lane, (400, error_body (bytes "malformed_body")))
        | some req ↦ handle_publish_request digest self_id gateway now io lane req
      ]

  -- The release of a key.
  unfoldable pub unpublish_key : Text → Hlc → Effects → Lane Net → Text → Lane Net × Response
  unfolding unpublish_service unpublish_response
  unpublish_key self_id now io lane key =
      let (lane', outcome) = unpublish_service io lane key self_id now in
      (lane', unpublish_response outcome)

  unfoldable pub handle_unpublish_request :
      (Text → ℕ)
      → Text
      → Hlc
      → Effects
      → Lane Net
      → ControlApiUnpublishRequest
      → Lane Net × Response
  handle_unpublish_request digest self_id now io lane req =
      if req.name == []
      then (lane, (400, error_body (bytes "malformed_body")))
      else if req.device
      then elim (device_service_key digest req.name self_id) [
        | refused _ ↦ (lane, (400, error_body (bytes "invalid_device_name")))
        | valid key ↦ unpublish_key self_id now io lane key
      ]
      else unpublish_key self_id now io lane req.name

  unfoldable pub control_api_handle_unpublish :
      (Text → Option ControlApiUnpublishRequest)
      → (Text → ℕ)
      → Text
      → Hlc
      → Effects
      → Lane Net
      → Text
      → Lane Net × Response
  control_api_handle_unpublish from_slice digest self_id now io lane body = elim (from_slice body) [
    | none ↦ (lane, (400, error_body (bytes "malformed_body")))
    | some req ↦ handle_unpublish_request digest self_id now io lane req
  ]
