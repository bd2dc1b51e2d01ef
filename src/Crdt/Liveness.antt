-- ===== src/Crdt/Liveness.antt =====
-- Who is alive (crdt/liveness.rs). The clock of the caller is an argument.
pub mod Laws
pub mod Gateways
use lightning_mesh.Prelude.{
  ℕ, Bool, true, false, ◌&&◌, ◌||◌, not, Option, none, some, List, [], ◌∷◌, if◌then◌else◌, ◌-◌,
}
use mathlib.Core.Option
use lightning_mesh.Order.{Text, ◌==◌, gtb, nat_ord, text_ord}
use lightning_mesh.Book.{Book, get, insert, remove}
use lightning_mesh.Crdt.Egress.{EgressAd}

pub record Seen : Type 0 where
  pub incarnation : ℕ
  pub counter : ℕ
  pub received_at_ms : ℕ
  pub egress : Option EgressAd

unfoldable pub superseded_by : Seen → ℕ → ℕ → Bool
superseded_by s incarnation counter =
    gtb incarnation s.incarnation || incarnation == s.incarnation && gtb counter s.counter

pub record LivenessTracker : Type 0 where
  pub seen : Book Text Seen
  pub stale_threshold_ms : ℕ
  pub hard_expiry_ms : ℕ

unfoldable pub new_tracker : ℕ → ℕ → LivenessTracker
new_tracker stale hard = record { seen = []; stale_threshold_ms = stale; hard_expiry_ms = hard }

-- The tracker afterwards, and whether the beacon was newer.
unfoldable pub observe_with_egress :
    LivenessTracker → Text → ℕ → ℕ → Option EgressAd → ℕ → LivenessTracker × Bool
unfolding superseded_by
observe_with_egress t node_id incarnation counter egress now_ms =
    let fresh : Seen = record {
      incarnation = incarnation;
      counter = counter;
      received_at_ms = now_ms;
      egress = egress;
    } in
    elim (get t.seen node_id) [
      | some prev ↦
          if not (superseded_by prev incarnation counter)
          then (t, false)
          else (record t { seen = insert t.seen node_id fresh }, true)
      | none ↦ (record t { seen = insert t.seen node_id fresh }, true)
    ]

unfoldable pub observe : LivenessTracker → Text → ℕ → ℕ → ℕ → LivenessTracker × Bool
unfolding observe_with_egress
observe t node_id incarnation counter now_ms =
    observe_with_egress t node_id incarnation counter none now_ms

unfoldable pub touch : LivenessTracker → Text → ℕ → LivenessTracker
touch t node_id now_ms =
    let start : Seen = record {
      incarnation = 0;
      counter = 0;
      received_at_ms = now_ms;
      egress = none;
    } in
    elim (get t.seen node_id) [
      | some prev ↦ record t {
        seen = insert t.seen node_id (record prev { received_at_ms = now_ms });
      }
      | none ↦ record t { seen = insert t.seen node_id start }
    ]

-- `saturating_sub` is the truncated subtraction.
unfoldable pub age_ms : LivenessTracker → Text → ℕ → Option ℕ
age_ms t node_id now_ms = Option.map (λ s. now_ms - s.received_at_ms) (get t.seen node_id)

unfoldable pub last_seen_ms : LivenessTracker → Text → Option ℕ
last_seen_ms t node_id = Option.map (λ s. s.received_at_ms) (get t.seen node_id)

unfoldable pub is_stale : LivenessTracker → Text → ℕ → Bool
unfolding age_ms
is_stale t node_id now_ms = elim (age_ms t node_id now_ms) [
  | none ↦ true
  | some age ↦ gtb age t.stale_threshold_ms
]

unfoldable pub is_hard_expired : LivenessTracker → Text → ℕ → Bool
unfolding age_ms
is_hard_expired t node_id now_ms = elim (age_ms t node_id now_ms) [
  | none ↦ false
  | some age ↦ gtb age t.hard_expiry_ms
]

unfoldable pub forget : LivenessTracker → Text → LivenessTracker
forget t node_id = record t { seen = remove t.seen node_id }

-- The healthy advertisement of a record.
unfoldable pub healthy_ad : Seen → Option EgressAd
healthy_ad s = elim s.egress [ none ↦ none | some ad ↦ if ad.healthy then some ad else none ]

-- The loop of `live_gateways` over the entries of the tracker.
unfoldable pub gateways_among : LivenessTracker → ℕ → Book Text Seen → List (Text × EgressAd)
gateways_among t now_ms [] = []
gateways_among t now_ms ((id, s) ∷ m) =
    let rest = gateways_among t now_ms m in
    if not (is_stale t id now_ms)
    then elim (healthy_ad s) [ none ↦ rest | some ad ↦ (id, ad) ∷ rest ]
    else rest

unfoldable pub live_gateways : LivenessTracker → ℕ → List (Text × EgressAd)
unfolding gateways_among
live_gateways t now_ms = gateways_among t now_ms t.seen
