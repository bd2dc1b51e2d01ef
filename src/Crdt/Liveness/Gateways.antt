-- ===== src/Crdt/Liveness/Gateways.antt =====
-- Which nodes count as live gateways.
use lightning_mesh.Prelude.{
  ℕ, true, false, Option, none, some, ◌≡◌, ◌↔◌, inl, inr, ap, arith, ◌≤◌, ◌-◌, [], ◌∷◌, In,
  Option-cases, Bool-cases,
}
use mathlib.Core.Option
use lightning_mesh.Order.{Text, text_ord, nat_ord}
use lightning_mesh.Book.{Book, get, get-insert_self}
use lightning_mesh.Book.Sorted.{IsSorted, In-get, get-In}
use lightning_mesh.Crdt.Egress.{EgressAd}
use lightning_mesh.Crdt.Liveness.{
  Seen, LivenessTracker, observe_with_egress, is_stale, healthy_ad, gateways_among, live_gateways,
}
use lightning_mesh.Crdt.Liveness.Laws.{observe-IsSorted}

abbrev Entry : Type 0
Entry = Text × Seen

abbrev Gateway : Type 0
Gateway = Text × EgressAd

-- An entry of the tracker that the loop lists.
abbrev IsListed : LivenessTracker → ℕ → Book Text Seen → Text → EgressAd → Type 0
IsListed t now m id ad =
    (s : Seen) × In {A = Entry} (id, s) m × (healthy_ad s ≡ some ad) × (is_stale t id now ≡ false)

IsListed-later :
    (t : LivenessTracker) (now : ℕ) (e : Entry) (m : Book Text Seen) (id : Text) (ad : EgressAd)
    → IsListed t now m id ad
    → IsListed t now (e ∷ m) id ad
IsListed-later t now e m id ad (s, i, h, fresh) = (s, inr i, h, fresh)

gateways_among_sound :
    (t : LivenessTracker) (now : ℕ) (m : Book Text Seen) (id : Text) (ad : EgressAd)
    → In {A = Gateway} (id, ad) (gateways_among t now m)
    → IsListed t now m id ad
unfolding gateways_among
gateways_among_sound t now [] id ad i = elim i [ ]
gateways_among_sound t now ((j, w) ∷ m) id ad i =
    let rest = gateways_among_sound t now m id ad in
    let later = IsListed-later t now (j, w) m id ad in
    elim (Bool-cases (is_stale t j now)) [
      | inl stale ↦ later (rest (rw stale at i))
      | inr fresh ↦ elim (Option-cases (healthy_ad w)) [
        | inl sick ↦ later (rest (rw (fresh, sick) at i))
        | inr (found, well) ↦ here rest fresh found well (rw (fresh, well) at i)
      ]
    ]
  where
    here :
        (In {A = Gateway} (id, ad) (gateways_among t now m) → IsListed t now m id ad)
        → is_stale t j now ≡ false
        → (found : EgressAd) → healthy_ad w ≡ some found
        → In {A = Gateway} (id, ad) ((j, found) ∷ gateways_among t now m)
        → IsListed t now ((j, w) ∷ m) id ad
    here rest fresh found well (inl e) = (w, inl (ground arith), ground arith, ground arith)
    here rest fresh found well (inr i) = IsListed-later t now (j, w) m id ad (rest i)

gateways_among_complete :
    (t : LivenessTracker) (now : ℕ) (m : Book Text Seen) (id : Text) (ad : EgressAd)
    → IsListed t now m id ad
    → In {A = Gateway} (id, ad) (gateways_among t now m)
unfolding gateways_among
gateways_among_complete t now [] id ad (s, i, h, fresh) = elim i [ ]
gateways_among_complete t now ((j, w) ∷ m) id ad (s, inl e, h, fresh) =
    let same_id : id ≡ j = ap (λ (p : Entry). p.0) e in
    let same : s ≡ w = ap (λ (p : Entry). p.1) e in
    rw (← same_id, fresh, ← same, h) (inl (ap (λ (x : Text). (x, ad)) same_id))
gateways_among_complete t now ((j, w) ∷ m) id ad (s, inr i, h, fresh) =
    let rest = gateways_among_complete t now m id ad (s, i, h, fresh) in
    elim (Bool-cases (is_stale t j now)) [
      | inl stale ↦ rw stale rest
      | inr live ↦ elim (Option-cases (healthy_ad w)) [
        | inl sick ↦ rw (live, sick) rest
        | inr (found, well) ↦ rw (live, well) (inr rest)
      ]
    ]

-- In a tracker whose ids ascend, the live gateways are exactly the nodes whose last accepted beacon
-- advertised a healthy uplink and arrived no longer ago than the staleness threshold, each with
-- that advertisement.
pub live_gateways_iff :
    (t : LivenessTracker) (now : ℕ) (id : Text) (ad : EgressAd)
    → IsSorted t.seen
    → In {A = Text × EgressAd} (id, ad) (live_gateways t now) ↔ (
        (s : Seen) × (get t.seen id ≡ some s)
        × (s.egress ≡ some ad)
        × (ad.healthy ≡ true)
        × (now - s.received_at_ms ≤ t.stale_threshold_ms))
unfolding live_gateways healthy_ad is_stale
live_gateways_iff t now id ad sorted = (
  λ i.
      let (s, there, h, fresh) = gateways_among_sound t now t.seen id ad i in
      let held = get-In t.seen id s sorted there in
      (s, held, ground arith, ground arith, ground arith),
  λ (s, held, shown, well, recent).
      gateways_among_complete t now t.seen id ad
        (s, In-get t.seen id s held, ground arith, ground arith),
)

observe-stores :
    (t : LivenessTracker) (id : Text) (inc ctr : ℕ) (shown : Option EgressAd) (now : ℕ)
    → (observe_with_egress t id inc ctr shown now).1 ≡ true
    → Option.map
        (λ (s : Seen). s.egress)
        (get (observe_with_egress t id inc ctr shown now).0.seen id)
      ≡ some shown
unfolding observe_with_egress
observe-stores t id inc ctr shown now accepted = ground (
  arith,
  get-insert_self t.seen id
      (record { incarnation = inc; counter = ctr; received_at_ms = now; egress = shown }),
)

-- A node whose newer beacon advertises no uplink is no gateway at any time, for as long as that
-- beacon is the one on record.
pub withdrawn_gateway :
    (t : LivenessTracker) (id : Text) (inc ctr : ℕ) (now later : ℕ) (ad : EgressAd)
    → IsSorted t.seen
    → (observe_with_egress t id inc ctr none now).1 ≡ true
    → ¬ In {A = Text × EgressAd}
        (id, ad)
        (live_gateways (observe_with_egress t id inc ctr none now).0 later)
withdrawn_gateway t id inc ctr now later ad sorted accepted i =
    let t' = (observe_with_egress t id inc ctr none now).0 in
    let (s, held, shown, _, _) =
      (live_gateways_iff t' later id ad (observe-IsSorted t id inc ctr none now sorted)).0 i in
    cc (observe-stores t id inc ctr none now accepted, held, shown)
