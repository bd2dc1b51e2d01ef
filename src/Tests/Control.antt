-- ===== src/Tests/Control.antt =====
-- The control API at concrete inputs.
use lightning_mesh.Prelude.{ℕ, true, false, none, some, Option, [], ◌∷◌, ◌≡◌, ◌≢◌, refl, lt, gt}
use lightning_mesh.Order.{Text, bytes, ◌==◌, text_cmp, text_ord}
use lightning_mesh.Book.{get, insert}
use lightning_mesh.Crdt.Hlc.{hlc_cmp}
use lightning_mesh.Crdt.Entries.{IpAddr, v4, Mac, ServiceEntryV2}
use lightning_mesh.Crdt.Merge.{conflict, ok, is_reserved_service_name}
use lightning_mesh.Crdt.ServiceApply.{merged, apply_service_publish_v2}
use lightning_mesh.Daemon.Dispatch.{ServiceStateV2}
use lightning_mesh.Dns.{pre_claim_gateway}
use lightning_mesh.Daemon.Control.{
  ControlApiPublishRequest, Effects, Lane, status_body, publish_entry, publish_target, target,
  handle_publish_request, handle_unpublish_request,
}
use lightning_mesh.Daemon.Control.Tenure.{republish-forfeits_tenure}
use lightning_mesh.Daemon.Control.Unpublish.{release_of, unpublish-publish}
use lightning_mesh.Tests.Common.{stamp, service_of, alpha, beta, wiki, alpha_ne_beta}

abbrev digest : Text → ℕ
digest s = 5

abbrev asked_for : ControlApiPublishRequest
asked_for = record {
  name = wiki;
  port = some 80;
  ip = none;
  mac = none;
  txt = [];
  protocol = bytes "_tcp";
}

abbrev ours : ServiceEntryV2
ours = service_of alpha 10 10

abbrev theirs : ServiceEntryV2
theirs = service_of beta 20 20

abbrev state : ServiceStateV2
state = record { book = (wiki, ours) ∷ []; tombstones = []; lost_names = [] }

abbrev lane : Lane ℕ
lane = record { service_v2 = state; sent = []; file = state }

abbrev works : Effects
works = record { broadcast = true; written = true }

-- The broadcast succeeds and the write fails.
abbrev fails : Effects
fails = record { broadcast = true; written = false }

named : (wiki == []) ≡ false
unfolding text_cmp
named = refl

aimed : publish_target digest alpha none asked_for ≡ target wiki (v4 pre_claim_gateway) none
unfolding publish_target
aimed = refl

wiki_free : is_reserved_service_name wiki ≡ false
unfolding is_reserved_service_name text_cmp
wiki_free = refl

not_lost : get lane.service_v2.lost_names wiki ≡ none
unfolding get
not_lost = refl

held : get lane.service_v2.book wiki ≡ some ours
unfolding get text_cmp
held = refl

newer : hlc_cmp (stamp 30) ours.updated_at ≡ gt
unfolding hlc_cmp
newer = refl

before : hlc_cmp ours.first_claimed_at theirs.first_claimed_at ≡ lt
unfolding hlc_cmp
before = refl

after : hlc_cmp theirs.first_claimed_at (stamp 30) ≡ lt
unfolding hlc_cmp
after = refl

beta_ne_alpha : theirs.owner_node_id ≢ alpha
beta_ne_alpha e = alpha_ne_beta (cc e)

republish-forfeits_tenure_example :
    let (lane', response) =
      handle_publish_request digest alpha none (stamp 30) fails lane asked_for in
    (response.0 ≡ 200)
    × (apply_service_publish_v2 lane.service_v2.book lane.service_v2.tombstones wiki theirs
        ≡ ok (insert lane.service_v2.book wiki ours, merged (conflict ours theirs)))
    × (apply_service_publish_v2 lane'.service_v2.book lane'.service_v2.tombstones wiki theirs
        ≡ ok (
          insert lane'.service_v2.book wiki theirs,
          merged (
              conflict theirs
                (publish_entry alpha (stamp 30) asked_for (v4 pre_claim_gateway) none)),
        ))
republish-forfeits_tenure_example =
    republish-forfeits_tenure digest alpha none (stamp 30) fails lane asked_for wiki
      (v4 pre_claim_gateway) none ours theirs named aimed wiki_free not_lost held refl beta_ne_alpha
      newer before after

published : (handle_publish_request digest alpha none (stamp 30) fails lane asked_for).1.0 ≡ 200
published =
    (republish-forfeits_tenure digest alpha none (stamp 30) fails lane asked_for wiki
      (v4 pre_claim_gateway) none ours theirs named aimed wiki_free not_lost held refl beta_ne_alpha
      newer before after).0

unpublish-publish_example :
    let (lane', response) =
      handle_publish_request digest alpha none (stamp 30) fails lane asked_for in
    let (lane'', answer) =
      handle_unpublish_request digest alpha (stamp 40) works lane' (release_of asked_for) in
    (key : Text) × (ip : IpAddr) × (mac : Option Mac) × (publish_target digest alpha none asked_for
      ≡ target key ip mac)
    × (answer ≡ (200, status_body (bytes "unpublished")))
    × (get lane''.service_v2.book key ≡ none)
    × (get lane''.service_v2.tombstones key
        ≡ some (record { owner_node_id = alpha; hlc = stamp 40 }))
unpublish-publish_example =
    unpublish-publish digest alpha none (stamp 30) (stamp 40) fails works lane asked_for published
