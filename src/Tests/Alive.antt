-- ===== src/Tests/Alive.antt =====
-- Liveness and uplinks at concrete inputs.
use lightning_mesh.Prelude.{
  Bool, true, false, not, Option, none, some, List, [], ◌∷◌, ◌≡◌, ◌↔◌, inl, inr, refl, ◌≤◌, ◌-◌,
  arith, In,
}
use Prim.Native.Nat.{max}
use lightning_mesh.Order.{Text, text_ord, text_cmp, leb, nat_ord, bytes}
use lightning_mesh.Book.{get}
use lightning_mesh.Crdt.Egress.{EgressAd, DefaultRoute, new_probe, observe_all}
use lightning_mesh.Crdt.Egress.Laws.{failures_from, probe_verdict}
use lightning_mesh.Crdt.Liveness.{Seen, LivenessTracker, observe_with_egress, live_gateways}
use lightning_mesh.Crdt.Liveness.Laws.{IsNewer}
use lightning_mesh.Crdt.Liveness.Gateways.{live_gateways_iff}
use lightning_mesh.Tests.Common.{alpha}

abbrev ad : EgressAd
ad = record { healthy = true; cost_hint = 0 }

abbrev heard : Seen
heard = record { incarnation = 5; counter = 8; received_at_ms = 1000; egress = some ad }

abbrev tracker : LivenessTracker
tracker = record { seen = (alpha, heard) ∷ []; stale_threshold_ms = 30; hard_expiry_ms = 300 }

abbrev seen_now : Seen
seen_now = record { incarnation = 5; counter = 9; received_at_ms = 2000; egress = none }

accepted : (observe_with_egress tracker alpha 5 9 none 2000).1 ≡ true
unfolding observe_with_egress get text_cmp
accepted = refl

not-IsNewer : ¬ IsNewer 5 9 5 9
not-IsNewer (inl h) = absurd (omega arith)
not-IsNewer (inr (_, h)) = absurd (omega arith)

live_gateways_iff_example : In {A = Text × EgressAd} (alpha, ad) (live_gateways tracker 1010) ↔ (
    (s : Seen) × (get tracker.seen alpha ≡ some s)
    × (s.egress ≡ some ad)
    × (true ≡ true)
    × (1010 - s.received_at_ms ≤ 30))
live_gateways_iff_example = live_gateways_iff tracker 1010 alpha ad (tt, tt)

abbrev routes : List DefaultRoute
routes =
    record { oif = bytes "br-mesh"; proto_babel = false }
    ∷ record { oif = bytes "wan"; proto_babel = false }
    ∷ []

abbrev outcomes : List (Option Bool)
outcomes = some true ∷ some false ∷ none ∷ some false ∷ []

probe_verdict_example :
    (observe_all (new_probe 2) outcomes).healthy ≡ not (leb (max 2 1) (failures_from 0 outcomes))
probe_verdict_example = probe_verdict 2 outcomes (omega arith)
