-- ===== src/Dns/Fade.antt =====
-- The names of a node that falls silent, and of one that is heard from again.
use lightning_mesh.Prelude.{
  ℕ, true, false, Option, none, some, [], ◌∷◌, ◌≡◌, refl, arith, inl, inr, ◌≤◌, ◌<◌, ◌-◌,
}
use lightning_mesh.Order.{Text, nat_ord, text_ord}
use lightning_mesh.Book.{get, get-insert_self}
use lightning_mesh.Crdt.Egress.{EgressAd}
use lightning_mesh.Crdt.Entries.{v4, ServiceEntryV2, ServiceBookV2, LeasedNameBook}
use lightning_mesh.Crdt.Liveness.{LivenessTracker, Seen, is_stale, age_ms, observe_with_egress}
use lightning_mesh.Crdt.Merge.{lowercase, is_reserved_service_name}
use lightning_mesh.Dns.{mesh_table}
use lightning_mesh.Dns.Names.{mesh_name, asked, mesh_table_known, service_address}
use lightning_mesh.Dns.Handle.{
  SimpleDns, Qtype, qtype_a, no_error, name_error, reply_to, answers_of, rdata_a, Rcode,
}

fresh_beacon_not_stale :
    (t : LivenessTracker) (owner : Text) (incarnation counter : ℕ) (ad : Option EgressAd)
    (then_ms now_ms : ℕ)
    → (observe_with_egress t owner incarnation counter ad then_ms).1 ≡ true
    → now_ms - then_ms ≤ t.stale_threshold_ms
    → is_stale (observe_with_egress t owner incarnation counter ad then_ms).0 owner now_ms ≡ false
unfolding observe_with_egress is_stale age_ms
fresh_beacon_not_stale t owner incarnation counter ad then_ms now_ms h soon =
    let fresh : Seen = record {
      incarnation = incarnation;
      counter = counter;
      received_at_ms = then_ms;
      egress = ad;
    } in
    ground (arith, get-insert_self t.seen owner fresh)

rcode_not_fine : (r : Rcode) → (r ≡ no_error → ⊥) → r ≡ name_error
rcode_not_fine no_error h = elim (h refl) [ ]
rcode_not_fine name_error h = refl

module _ (gateway : Option ℕ) (services : ServiceBookV2) (t : LivenessTracker) (now_ms : ℕ)
    (leased : LeasedNameBook) (wall_ms : ℕ) (key : Text) where
  -- A name under .mesh that is not reserved and has no lease renewed within 90 seconds gets NXDOMAIN
  -- once the last beacon of the owner of its service is older than the threshold of staleness.
  pub service_fades :
      (dns : SimpleDns) (id : ℕ) (kind : Qtype) (e : ServiceEntryV2) (s : Seen)
      → is_reserved_service_name (lowercase key) ≡ false
      → get services key ≡ some e
      → get leased key ≡ none
      → get t.seen e.owner_node_id ≡ some s
      → t.stale_threshold_ms < now_ms - s.received_at_ms
      → (reply_to dns
          (mesh_table gateway services t now_ms leased wall_ms)
          (asked (mesh_name key) id kind)).rcode
        ≡ name_error
  unfolding is_stale age_ms
  service_fades dns id kind e s free held vacant heard old = rcode_not_fine _ (λ ok.
      elim ((mesh_table_known gateway services t now_ms leased wall_ms key dns id kind).0 ok) [
        | inl r ↦ cc
        | inr (inl (x, g, a)) ↦ ground arith
        | inr (inr (x, g, a)) ↦ cc
      ])

  -- The book holds a service with an IPv4 address under a name that is not reserved in any spelling of its letters'
  -- case. A beacon of the owner that the tracker takes as newer than what it holds makes the name under .mesh resolve to
  -- that address, until the threshold of staleness has passed since the beacon.
  pub service_returns :
      (dns : SimpleDns) (e : ServiceEntryV2) (addr incarnation counter then_ms : ℕ)
      (ad : Option EgressAd)
      → is_reserved_service_name (lowercase key) ≡ false
      → get services key ≡ some e
      → e.ip ≡ v4 addr
      → (observe_with_egress t e.owner_node_id incarnation counter ad then_ms).1 ≡ true
      → now_ms - then_ms ≤ t.stale_threshold_ms
      → answers_of dns
          (mesh_table gateway services
            (observe_with_egress t e.owner_node_id incarnation counter ad then_ms).0
            now_ms
            leased
            wall_ms)
          (record { qname = mesh_name key; qtype = qtype_a })
        ≡ some (record { name = mesh_name key; ttl = 30; rdata = rdata_a addr } ∷ [])
  service_returns dns e addr incarnation counter then_ms ad free held ip newer soon =
      service_address gateway services _ now_ms leased wall_ms key dns e addr free held
        (fresh_beacon_not_stale t e.owner_node_id incarnation counter ad then_ms now_ms newer soon)
        ip
