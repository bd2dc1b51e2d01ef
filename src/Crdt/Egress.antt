-- ===== src/Crdt/Egress.antt =====
-- The advertisement of an internet uplink (crdt/egress.rs).
pub mod Laws
use lightning_mesh.Prelude.{
  ℕ, Bool, true, false, ◌&&◌, ◌||◌, not, Option, none, some, List, [], ◌∷◌, if◌then◌else◌, ◌+◌, ◌-◌,
  ◌^◌,
}
use Prim.Native.Nat.{min, max}
use lightning_mesh.Order.{Text, bytes, ◌==◌, leb, nat_ord, text_ord}

abbrev pub excluded_egress_ifaces : List Text
excluded_egress_ifaces = bytes "br-mesh" ∷ bytes "mjolnir0" ∷ []

pub record EgressAd : Type 0 where
  pub healthy : Bool
  pub cost_hint : ℕ

pub record DefaultRoute : Type 0 where
  pub oif : Text
  pub proto_babel : Bool

-- `slice::contains`
unfoldable pub contains : List Text → Text → Bool
contains [] x = false
contains (y ∷ ys) x = y == x || contains ys x

abbrev pub qualifies : List Text → DefaultRoute → Bool
qualifies excluded r = not r.proto_babel && not (contains excluded r.oif)

-- `Iterator::any` over the candidates.
unfoldable pub any_qualifies : List DefaultRoute → List Text → Bool
any_qualifies [] excluded = false
any_qualifies (r ∷ rs) excluded = qualifies excluded r || any_qualifies rs excluded

unfoldable pub classify_egress : List DefaultRoute → List Text → Bool → Option EgressAd
classify_egress candidates excluded probe_healthy =
    if any_qualifies candidates excluded
    then some (record { healthy = probe_healthy; cost_hint = 0 })
    else none

pub record ProbeHysteresis : Type 0 where
  pub healthy : Bool
  pub consecutive_fail : ℕ
  pub demote_after : ℕ

unfoldable pub new_probe : ℕ → ProbeHysteresis
new_probe demote_after = record {
  healthy = true;
  consecutive_fail = 0;
  demote_after = max demote_after 1;
}

-- `u32::saturating_add`
abbrev pub saturating_add32 : ℕ → ℕ → ℕ
saturating_add32 a b = min (a + b) (2 ^ 32 - 1)

-- The probe afterwards; the verdict is its `healthy`.
unfoldable pub observe : ProbeHysteresis → Option Bool → ProbeHysteresis
observe p (some true) = record p { consecutive_fail = 0; healthy = true }
observe p (some false) =
    let fails = saturating_add32 p.consecutive_fail 1 in
    record p {
      consecutive_fail = fails;
      healthy = if leb p.demote_after fails then false else p.healthy;
    }
observe p none = p

unfoldable pub observe_all : ProbeHysteresis → List (Option Bool) → ProbeHysteresis
unfolding observe
observe_all p [] = p
observe_all p (o ∷ os) = observe_all (observe p o) os
