-- ===== src/Alloc/Cooldown.antt =====
-- The wait before a first claim of a subnet (claim_cooldown.rs). The clock is an argument, in milliseconds; the time that has
-- elapsed is 0 where the clock stands before the start.
use lightning_mesh.Prelude.{ℕ, Bool, true, false, not, ◌&&◌, ◌≡◌, ◌-◌, refl, arith}
use lightning_mesh.Order.{leb, nat_ord}

-- `DEFAULT_COOLDOWN`
abbrev pub default_duration : ℕ
default_duration = 10000

pub record ClaimCooldown : Type 0 where
  pub started_at : ℕ
  pub duration : ℕ
  pub peer_detected : Bool

abbrev pub new_cooldown : ℕ → ℕ → ClaimCooldown
new_cooldown now duration = record { started_at = now; duration = duration; peer_detected = false }

abbrev pub default_cooldown : ℕ → ClaimCooldown
default_cooldown now = new_cooldown now default_duration

unfoldable pub note_peer_detected : ClaimCooldown → ClaimCooldown
note_peer_detected cd = record {
  started_at = cd.started_at;
  duration = cd.duration;
  peer_detected = true;
}

unfoldable pub should_publish : ClaimCooldown → ℕ → Bool
should_publish cd now = not cd.peer_detected && leb cd.duration (now - cd.started_at)

unfoldable pub should_abort : ClaimCooldown → Bool
should_abort cd = cd.peer_detected

-- A claim that is due is not given up.
due-not_aborted :
    (cd : ClaimCooldown) (now : ℕ) → should_publish cd now ≡ true → should_abort cd ≡ false
unfolding should_publish should_abort
due-not_aborted cd now h = ground arith

-- Once a peer was detected no claim is due.
peer_stops_claim :
    (cd : ClaimCooldown) (now : ℕ) → should_publish (note_peer_detected cd) now ≡ false
unfolding should_publish note_peer_detected
peer_stops_claim cd now = refl
