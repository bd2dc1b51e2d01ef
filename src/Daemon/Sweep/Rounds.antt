-- ===== src/Daemon/Sweep/Rounds.antt =====
-- Sweeps one after another, with messages between them.
use lightning_mesh.Prelude.{ℕ, Bool, true, List, [], ◌∷◌, ◌≡◌, ◌≤◌, ◌-◌}
use lightning_mesh.Order.{Text, nat_ord, text_ord}
use lightning_mesh.Crdt.Liveness.{LivenessTracker}
use lightning_mesh.Daemon.Dispatch.{ServiceStateV2}
use lightning_mesh.Daemon.Sweep.{has, Swept, sweep_stale_lanes}

-- A sweep, and the lane that it finds: since the sweep before, messages may have changed all of it.
pub record Round : Type 0 where
  pub lane : ServiceStateV2
  pub liveness : LivenessTracker
  pub written : Bool
  pub now_ms : ℕ

-- The state with another lane.
abbrev pub with_lane : Swept → ServiceStateV2 → Swept
with_lane s lane = record { lane = lane; tombstone_observed = s.tombstone_observed; file = s.file }

abbrev pub sweep_round : ℕ → Swept → Round → Swept
sweep_round retention_ms s r =
    sweep_stale_lanes (with_lane s r.lane) r.liveness r.written r.now_ms retention_ms

unfoldable pub sweep_rounds : ℕ → Swept → List Round → Swept
sweep_rounds retention_ms s [] = s
sweep_rounds retention_ms s (r ∷ rs) = sweep_rounds retention_ms (sweep_round retention_ms s r) rs

-- The sweep finds a tombstone on the name, no later than the retention after a time.
abbrev pub FindsTombstone : ℕ → ℕ → Text → Round → Type 0
FindsTombstone since retention_ms q r =
    (has r.lane.tombstones q ≡ true) × (r.now_ms - since ≤ retention_ms)
