-- ===== src/Crdt/Liveness/Laws.antt =====
-- When a beacon counts, and what the age of the last one decides.
use lightning_mesh.Prelude.{
  ℕ, true, false, Option, none, some, ◌≡◌, ◌≢◌, ◌⊎◌, inl, inr, arith, ◌≤◌, ◌<◌, ◌-◌, Option-cases,
}
use lightning_mesh.Order.{Text, text_cmp-IsTotalOrder, text_ord, nat_ord, gtb}
use lightning_mesh.Book.{get, get-insert, get-insert_self}
use lightning_mesh.Book.Sorted.{IsSorted, insert-IsSorted, remove-IsSorted}
use lightning_mesh.Crdt.Egress.{EgressAd}
use lightning_mesh.Crdt.Liveness.{
  Seen, LivenessTracker, observe_with_egress, touch, is_stale, is_hard_expired, forget,
}

-- A beacon is newer by its incarnation, or by its counter within one incarnation.
abbrev pub IsNewer : ℕ → ℕ → ℕ → ℕ → Type 0
IsNewer incarnation counter incarnation' counter' =
    (incarnation < incarnation') ⊎ ((incarnation ≡ incarnation') × (counter < counter'))

-- A beacon is accepted exactly if none is on record or the one on record is older. An accepted
-- beacon is put on record with the local time of its arrival; a rejected one changes nothing.
pub observe_iff :
    (t : LivenessTracker) (id : Text) (inc ctr : ℕ) (ad : Option EgressAd) (now : ℕ)
    → ((get t.seen id ≡ none)
          ⊎ ((s : Seen) × (get t.seen id ≡ some s) × IsNewer s.incarnation s.counter inc ctr)
        → (observe_with_egress t id inc ctr ad now).1 ≡ true
          × (get (observe_with_egress t id inc ctr ad now).0.seen id
              ≡ some
                  (record { incarnation = inc; counter = ctr; received_at_ms = now; egress = ad })))
      × ((s : Seen)
          → get t.seen id ≡ some s
          → ¬ IsNewer s.incarnation s.counter inc ctr
          → observe_with_egress t id inc ctr ad now ≡ (t, false))
unfolding observe_with_egress
observe_iff t id inc ctr ad now = (accepted, λ s held old. ground arith)
  where
    fresh : Seen
    fresh = record { incarnation = inc; counter = ctr; received_at_ms = now; egress = ad }

    accepted :
        (get t.seen id ≡ none)
          ⊎ ((s : Seen) × (get t.seen id ≡ some s) × IsNewer s.incarnation s.counter inc ctr)
        → (observe_with_egress t id inc ctr ad now).1 ≡ true
          × (get (observe_with_egress t id inc ctr ad now).0.seen id ≡ some fresh)
    accepted (inl vacant) = ground (arith, get-insert_self t.seen id fresh)
    accepted (inr (s, held, newer)) = ground (arith, get-insert_self t.seen id fresh)

-- Once a beacon has been observed, one that is not newer than it is rejected and changes nothing,
-- whatever it advertises and whenever it arrives: a replay neither refreshes a node nor restores a
-- gateway that was withdrawn.
pub beacon_replay :
    (t : LivenessTracker) (id : Text) (inc ctr inc' ctr' : ℕ) (ad ad' : Option EgressAd)
    (now now' : ℕ)
    → ¬ IsNewer inc ctr inc' ctr'
    → observe_with_egress (observe_with_egress t id inc ctr ad now).0 id inc' ctr' ad' now'
      ≡ ((observe_with_egress t id inc ctr ad now).0, false)
unfolding observe_with_egress
beacon_replay t id inc ctr inc' ctr' ad ad' now now' old = ground (
  arith,
  get-insert_self t.seen id
      (record { incarnation = inc; counter = ctr; received_at_ms = now; egress = ad }),
)

-- Freshness is a matter of the local clock alone. After an accepted beacon the node is stale exactly
-- when more than the threshold has passed since it arrived, and no other node's staleness changes.
pub staleness_after_beacon :
    (t : LivenessTracker) (id : Text) (inc ctr : ℕ) (ad : Option EgressAd) (now later : ℕ)
    → (observe_with_egress t id inc ctr ad now).1 ≡ true
    → (is_stale (observe_with_egress t id inc ctr ad now).0 id later
        ≡ gtb (later - now) t.stale_threshold_ms)
      × ((q : Text)
          → id ≢ q
          → is_stale (observe_with_egress t id inc ctr ad now).0 q later ≡ is_stale t q later)
unfolding observe_with_egress is_stale
staleness_after_beacon t id inc ctr ad now later accepted =
    let fresh : Seen = record {
      incarnation = inc;
      counter = ctr;
      received_at_ms = now;
      egress = ad;
    } in
    (
      ground (arith, get-insert_self t.seen id fresh),
      λ q ne. ground (arith, get-insert t.seen id q fresh, text_cmp-IsTotalOrder.same_of_eq id q),
    )

-- A node whose records may be dropped no longer resolves, if the hard expiry is no shorter than the
-- staleness threshold. A node that was never heard does not resolve, and its records are kept.
pub hard_expired-stale :
    (t : LivenessTracker) (id : Text) (now : ℕ)
    → t.stale_threshold_ms ≤ t.hard_expiry_ms
    → (is_hard_expired t id now ≡ true → is_stale t id now ≡ true)
      × (get t.seen id ≡ none → (is_stale t id now ≡ true) × (is_hard_expired t id now ≡ false))
unfolding is_hard_expired is_stale
hard_expired-stale t id now sized = (λ h. ground arith, λ never. ground arith)

pub observe-IsSorted :
    (t : LivenessTracker) (id : Text) (inc ctr : ℕ) (ad : Option EgressAd) (now : ℕ)
    → IsSorted t.seen
    → IsSorted (observe_with_egress t id inc ctr ad now).0.seen
unfolding observe_with_egress
observe-IsSorted t id inc ctr ad now s = ground (
  arith,
  insert-IsSorted t.seen id
      (record { incarnation = inc; counter = ctr; received_at_ms = now; egress = ad }) s,
)

pub touch-IsSorted :
    (t : LivenessTracker) (id : Text) (now : ℕ) → IsSorted t.seen → IsSorted (touch t id now).seen
unfolding touch
touch-IsSorted t id now s = elim (Option-cases (get t.seen id)) [
  | inl vacant ↦ rw (vacant, touch) (insert-IsSorted t.seen id _ s)
  | inr (prev, held) ↦ rw (held, touch) (insert-IsSorted t.seen id _ s)
]

pub forget-IsSorted :
    (t : LivenessTracker) (id : Text) → IsSorted t.seen → IsSorted (forget t id).seen
unfolding forget
forget-IsSorted t id s = remove-IsSorted t.seen id s
