-- ===== src/Daemon/Control/Publish.antt =====
-- What a publish through the control API leaves behind, by the status of its response.
use lightning_mesh.Prelude.{
  ℕ, Bool, true, false, not, Option, none, some, [], ◌∷◌, ◌++◌, ◌≡◌, refl, arith, inl, inr, ◌⊎◌,
  if◌then◌else◌, Bool-cases, Option-cases,
}
use lightning_mesh.Order.{Text, ◌==◌, text_ord, text_cmp-IsTotalOrder}
use lightning_mesh.Book.{get, get-insert_self}
use lightning_mesh.Crdt.Hlc.{Hlc}
use lightning_mesh.Crdt.Entries.{
  IpAddr, Mac, ServiceEntryV2, ServiceBookV2, ServiceTombstoneBook, LostNameMap,
}
use lightning_mesh.Crdt.Merge.{
  inserted, updated, unchanged, conflict, merge_unreserved, merge_service_v2,
  resolve_service_conflict_v2,
}
use lightning_mesh.Crdt.ServiceApply.{
  PublishOutcome, merged, revived, rejected_by_tombstone, Published, done, reserved, lost_to_peer,
  publish_service_v2, apply_service_publish_v2, apply_service_publish_v2_tracking_loss,
  apply_merge_result,
}
use lightning_mesh.Crdt.Gossip.{service_publish_v2}
use lightning_mesh.Daemon.Control.{
  ControlApiPublishRequest, Effects, Lane, publish_service, publish_response, publish_entry,
  publish_target, Target, target, bad_request, handle_publish_request,
}

-- Whether a node owns the entry of a name.
abbrev pub owned_by : Text → Option ServiceEntryV2 → Bool
owned_by node none = false
owned_by node (some live) = live.owner_node_id == node

-- The outcomes of a publish that the API answers by 200.
abbrev is_accepted : Text → PublishOutcome → Bool
is_accepted self_id (merged (conflict winner loser)) = not (loser.owner_node_id == self_id)
is_accepted self_id (merged inserted) = true
is_accepted self_id (merged updated) = true
is_accepted self_id (merged unchanged) = true
is_accepted self_id revived = true
is_accepted self_id rejected_by_tombstone = false

merge_owned :
    (book : ServiceBookV2) (self_id key : Text) (e : ServiceEntryV2)
    → e.owner_node_id ≡ self_id
    → is_accepted self_id (merged (merge_unreserved (get book key) e)) ≡ true
    → owned_by self_id (get (apply_merge_result book key e (merge_unreserved (get book key) e)) key)
      ≡ true
unfolding merge_unreserved apply_merge_result resolve_service_conflict_v2
merge_owned book self_id key e own h = elim (Option-cases (get book key)) [
  | inl n ↦ ground (arith, get-insert_self book key e, text_cmp-IsTotalOrder.cmp_self self_id)
  | inr (x, g) ↦ ground (
    arith,
    get-insert_self book key e,
    get-insert_self book key x,
    text_cmp-IsTotalOrder.cmp_self self_id,
    text_cmp-IsTotalOrder.same_of_eq x.owner_node_id e.owner_node_id,
  )
]

-- What an accepted publish makes of the book.
publish_owned :
    (book book' : ServiceBookV2) (tombstones : ServiceTombstoneBook) (lost lost' : LostNameMap)
    (self_id key : Text) (e : ServiceEntryV2) (outcome : PublishOutcome)
    → e.owner_node_id ≡ self_id
    → publish_service_v2 book tombstones lost self_id key e ≡ done (book', lost', outcome)
    → is_accepted self_id outcome ≡ true
    → owned_by self_id (get book' key) ≡ true
unfolding publish_service_v2 apply_service_publish_v2_tracking_loss apply_service_publish_v2
    merge_service_v2
publish_owned book book' tombstones lost lost' self_id key e outcome own p h = ground (
  arith,
  merge_owned book self_id key e own,
  get-insert_self book key e,
  text_cmp-IsTotalOrder.cmp_self self_id,
)

-- A publish that is not accepted leaves the name with another node, or vacant.
merge_not_owned :
    (book : ServiceBookV2) (self_id key : Text) (e : ServiceEntryV2)
    → e.owner_node_id ≡ self_id
    → is_accepted self_id (merged (merge_unreserved (get book key) e)) ≡ false
    → owned_by self_id (get (apply_merge_result book key e (merge_unreserved (get book key) e)) key)
      ≡ false
unfolding merge_unreserved apply_merge_result resolve_service_conflict_v2
merge_not_owned book self_id key e own h = elim (Option-cases (get book key)) [
  | inl n ↦ ground arith
  | inr (x, g) ↦ ground (
    arith,
    get-insert_self book key e,
    get-insert_self book key x,
    text_cmp-IsTotalOrder.cmp_self self_id,
    text_cmp-IsTotalOrder.same_of_eq x.owner_node_id e.owner_node_id,
  )
]

publish_not_owned :
    (book book' : ServiceBookV2) (tombstones : ServiceTombstoneBook) (lost lost' : LostNameMap)
    (self_id key : Text) (e : ServiceEntryV2) (outcome : PublishOutcome)
    → e.owner_node_id ≡ self_id
    → publish_service_v2 book tombstones lost self_id key e ≡ done (book', lost', outcome)
    → is_accepted self_id outcome ≡ false
    → owned_by self_id (get book' key) ≡ false
unfolding publish_service_v2 apply_service_publish_v2_tracking_loss apply_service_publish_v2
    merge_service_v2
publish_not_owned book book' tombstones lost lost' self_id key e outcome own p h =
    ground (arith, merge_not_owned book self_id key e own)

response_status :
    {Net : Type 0} (lane : Lane Net) (self_id key : Text) (e : ServiceEntryV2)
    (outcome : PublishOutcome)
    → (publish_response lane self_id key e (done outcome)).0
      ≡ (if is_accepted self_id outcome then 200 else 409)
unfolding publish_response
response_status lane self_id key e (merged inserted) = refl
response_status lane self_id key e (merged updated) = refl
response_status lane self_id key e (merged unchanged) = refl
response_status lane self_id key e (merged (conflict winner loser)) = ground arith
response_status lane self_id key e revived = refl
response_status lane self_id key e rejected_by_tombstone = refl

-- The lane after a publish that was answered by 200.
pub record IsPublished {Net : Type 0} (io : Effects) (lane lane' : Lane Net) (self_id key : Text)
    (e : ServiceEntryV2) : Type 0 where
  -- This node owns the key in the book.
  pub held : owned_by self_id (get lane'.service_v2.book key) ≡ true
  -- The message of the entry is broadcast, and the file holds the lane, where that succeeds; else nothing more is
  -- broadcast, and the file is as it was.
  pub told :
      lane'.sent ≡ (if io.broadcast then lane.sent ++ service_publish_v2 key e ∷ [] else lane.sent)
  pub kept : lane'.file ≡ (if io.written then lane'.service_v2 else lane.file)

Published-cases :
    {A : Type 0} (r : Published A)
    → ((a : A) × (r ≡ done a))
      ⊎ ((n : Text) × (r ≡ reserved n))
      ⊎ ((w : Text) × (r ≡ lost_to_peer w))
Published-cases (done a) = inl (a, refl)
Published-cases (reserved n) = inr (inl (n, refl))
Published-cases (lost_to_peer w) = inr (inr (w, refl))

Target-cases :
    (r : Target)
    → ((kind : Text) × (r ≡ bad_request kind))
      ⊎ ((key : Text) × (ip : IpAddr) × (mac : Option Mac) × (r ≡ target key ip mac))
Target-cases (bad_request kind) = inl (kind, refl)
Target-cases (target key ip mac) = inr (key, ip, mac, refl)

own_entry :
    (self_id : Text) (now : Hlc) (req : ControlApiPublishRequest) (ip : IpAddr) (mac : Option Mac)
    → (publish_entry self_id now req ip mac).owner_node_id ≡ self_id
unfolding publish_entry
own_entry self_id now req ip mac = refl

module _ {Net : Type 0} where
  abbrev status_of : Effects → Lane Net → Text → Text → ServiceEntryV2 → ℕ
  status_of io lane self_id key e =
      let (lane', outcome) = publish_service io lane self_id key e in
      (publish_response lane' self_id key e outcome).0

  publish_service_lem :
      (io : Effects) (lane : Lane Net) (self_id key : Text) (e : ServiceEntryV2)
      → e.owner_node_id ≡ self_id
      → let (lane', _) = publish_service io lane self_id key e in
        ((status_of io lane self_id key e ≡ 200) × IsPublished io lane lane' self_id key e)
        ⊎ ((status_of io lane self_id key e ≡ 400) × (lane' ≡ lane))
        ⊎ ((status_of io lane self_id key e ≡ 409)
            × ((lane' ≡ lane) ⊎ (owned_by self_id (get lane'.service_v2.book key) ≡ false)))
  unfolding publish_service publish_response
  publish_service_lem io lane self_id key e own =
      let s = lane.service_v2 in
      let lane' = (publish_service io lane self_id key e).0 in
      elim (Published-cases (publish_service_v2 s.book s.tombstones s.lost_names self_id key e)) [
        | inl ((book, lost, outcome), p) ↦ elim (Bool-cases (is_accepted self_id outcome)) [
          | inl a ↦ inl (
            ground (arith, response_status lane' self_id key e outcome),
            record {
              held = ground (
                arith,
                publish_owned s.book book s.tombstones s.lost_names lost self_id key e outcome own p
                    a,
              );
              told = ground arith;
              kept = ground arith;
            },
          )
          | inr a ↦ inr (
              inr (
                ground (arith, response_status lane' self_id key e outcome),
                inr (
                    ground (
                      arith,
                      publish_not_owned s.book book s.tombstones s.lost_names lost self_id key e
                          outcome own p a,
                    )),
              ))
        ]
        | inr (inl (n, p)) ↦ inr (inl (ground arith, ground arith))
        | inr (inr (w, p)) ↦ inr (inr (ground arith, inl (ground arith)))
      ]

  -- A request with a name and a target is a publish of its entry.
  pub handle_publish_request_target :
      (digest : Text → ℕ) (self_id : Text) (gateway : Option ℕ) (now : Hlc) (io : Effects)
      (lane : Lane Net) (req : ControlApiPublishRequest) (key : Text) (ip : IpAddr)
      (mac : Option Mac)
      → (req.name == []) ≡ false
      → publish_target digest self_id gateway req ≡ target key ip mac
      → let e = publish_entry self_id now req ip mac in
        handle_publish_request digest self_id gateway now io lane req ≡ (
          (publish_service io lane self_id key e).0,
          publish_response
              (publish_service io lane self_id key e).0
              self_id
              key
              e
              (publish_service io lane self_id key e).1,
        )
  unfolding handle_publish_request
  handle_publish_request_target digest self_id gateway now io lane req key ip mac n t =
      rw (handle_publish_request, n, t) refl

  pub handle_publish_request_lem :
      (digest : Text → ℕ) (self_id : Text) (gateway : Option ℕ) (now : Hlc) (io : Effects)
      (lane : Lane Net) (req : ControlApiPublishRequest)
      → let (lane', response) = handle_publish_request digest self_id gateway now io lane req in
        ((response.0 ≡ 400) × (lane' ≡ lane))
        ⊎ ((key : Text) × (ip : IpAddr) × (mac : Option Mac) × (publish_target digest self_id
                gateway req
              ≡ target key ip mac)
            × (((response.0 ≡ 200)
                  × IsPublished io lane lane' self_id key (publish_entry self_id now req ip mac))
                ⊎ ((response.0 ≡ 409)
                    × ((lane' ≡ lane)
                        ⊎ (owned_by self_id (get lane'.service_v2.book key) ≡ false)))))
  unfolding handle_publish_request
  handle_publish_request_lem digest self_id gateway now io lane req =
      elim (Bool-cases (req.name == [])) [
        | inl n ↦ inl (ground arith, ground arith)
        | inr n ↦ elim (Target-cases (publish_target digest self_id gateway req)) [
          | inl (kind, t) ↦ inl (ground arith, ground arith)
          | inr (key, ip, mac, t) ↦
              let e = publish_entry self_id now req ip mac in
              let run =
                handle_publish_request_target digest self_id gateway now io lane req key ip mac n
                  t in
              elim (publish_service_lem io lane self_id key e (own_entry self_id now req ip mac)) [
                | inl (st, w) ↦ inr (key, ip, mac, t, inl (rw run st, rw run w))
                | inr (inl (st, same)) ↦ inl (rw run st, rw run same)
                | inr (inr (st, w)) ↦ inr (key, ip, mac, t, inr (rw run st, rw run w))
              ]
        ]
      ]
