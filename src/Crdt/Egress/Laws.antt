-- ===== src/Crdt/Egress/Laws.antt =====
-- When a node advertises an uplink, and when the probe calls it healthy.
use lightning_mesh.Prelude.{
  ℕ, Bool, true, false, not, Option, none, some, List, [], ◌∷◌, ◌+◌, ◌-◌, ◌^◌, ◌≡◌, inl, inr, refl,
  ap, arith, In, ◌<◌, Bool-cases,
}
use Prim.Native.Nat.{min, max}
use lightning_mesh.Order.{Text, leb, nat_ord, text_ord, text_cmp-IsTotalOrder}
use lightning_mesh.Crdt.Egress.{
  DefaultRoute, contains, any_qualifies, classify_egress, ProbeHysteresis, new_probe, observe_all,
}

contains_sound : (xs : List Text) (x : Text) → contains xs x ≡ true → In x xs
unfolding contains
contains_sound [] x h = cc
contains_sound (y ∷ ys) x h =
    ground (arith, contains_sound ys x, text_cmp-IsTotalOrder.same_of_eq y x)

contains_complete : (xs : List Text) (x : Text) → In x xs → contains xs x ≡ true
unfolding contains
contains_complete [] x i = elim i [ ]
contains_complete (y ∷ ys) x (inl e) = rw e (ground (arith, text_cmp-IsTotalOrder.cmp_self y))
contains_complete (y ∷ ys) x (inr i) = ground (arith, contains_complete ys x i)

-- A route of the node's own: not learned from babel, and out of no excluded interface.
abbrev pub IsUplink : List Text → DefaultRoute → Type 0
IsUplink excluded r = (r.proto_babel ≡ false) × (¬ In r.oif excluded)

any_qualifies_sound :
    (rs : List DefaultRoute) (excluded : List Text)
    → any_qualifies rs excluded ≡ true
    → (r : DefaultRoute) × In r rs × IsUplink excluded r
unfolding any_qualifies
any_qualifies_sound [] excluded h = absurd (cc)
any_qualifies_sound (r ∷ rs) excluded h = elim (Bool-cases (any_qualifies rs excluded)) [
  | inl later ↦ let (x, i, u) = any_qualifies_sound rs excluded later in (x, inr i, u)
  | inr none_later ↦
      (r, inl refl, (ground arith, λ i. ground (arith, contains_complete excluded r.oif i)))
]

any_qualifies_complete :
    (rs : List DefaultRoute) (excluded : List Text) (r : DefaultRoute)
    → In r rs
    → IsUplink excluded r
    → any_qualifies rs excluded ≡ true
unfolding any_qualifies
any_qualifies_complete [] excluded r i u = elim i [ ]
any_qualifies_complete (x ∷ rs) excluded r (inl e) u = elim (Bool-cases (contains excluded x.oif)) [
  | inl bad ↦ absurd (u.1 (rw e (contains_sound excluded x.oif bad)))
  | inr good ↦ ground (arith, ap (λ (d : DefaultRoute). d.proto_babel) e)
]
any_qualifies_complete (x ∷ rs) excluded r (inr i) u =
    ground (arith, any_qualifies_complete rs excluded r i u)

-- A node advertises exactly if one of its default routes is an uplink of its own, and then with the
-- probe's verdict; a route learned from babel or out of an excluded interface never counts.
pub classify_egress_iff :
    (rs : List DefaultRoute) (excluded : List Text) (probe : Bool)
    → (((r : DefaultRoute) × In r rs × IsUplink excluded r)
        → classify_egress rs excluded probe ≡ some (record { healthy = probe; cost_hint = 0 }))
      × (((r : DefaultRoute) → In r rs → ¬ IsUplink excluded r)
          → classify_egress rs excluded probe ≡ none)
unfolding classify_egress
classify_egress_iff rs excluded probe = (
  λ found. rw (any_qualifies_complete rs excluded found.0 found.1 found.2),
  λ nowhere. elim (Bool-cases (any_qualifies rs excluded)) [
    | inl yes_ ↦ let (r, i, u) = any_qualifies_sound rs excluded yes_ in absurd (nowhere r i u)
    | inr no_ ↦ rw no_
  ],
)

-- The confirmed failures since the last success, counted over a history from `n`; an outcome that
-- could not be had counts for nothing.
abbrev pub failures_from : ℕ → List (Option Bool) → ℕ
failures_from n [] = n
failures_from n (some true ∷ os) = failures_from 0 os
failures_from n (some false ∷ os) = failures_from (n + 1) os
failures_from n (none ∷ os) = failures_from n os

-- The counter follows the failures up to its ceiling, and the verdict follows the counter.
record Follows (p : ProbeHysteresis) (n : ℕ) : Type 0 where
  counted : p.consecutive_fail ≡ min n (2 ^ 32 - 1)
  verdict : p.healthy ≡ not (leb p.demote_after n)
  positive : 0 < p.demote_after
  bounded : p.demote_after < 2 ^ 32

observe_all-Follows :
    (os : List (Option Bool)) (p : ProbeHysteresis) (n : ℕ)
    → Follows p n
    → (observe_all p os).healthy ≡ not (leb p.demote_after (failures_from n os))
unfolding observe_all
observe_all-Follows [] p n f = f.verdict
observe_all-Follows (some true ∷ os) p n f = observe_all-Follows os _ 0 (ground arith)
observe_all-Follows (some false ∷ os) p n f = observe_all-Follows os _ (n + 1) (ground arith)
observe_all-Follows (none ∷ os) p n f = observe_all-Follows os p n f

-- From a new probe, after any history the uplink is healthy exactly if fewer than `demote_after`
-- confirmed failures (at least one) stand since the last success: one success restores it, and an
-- outcome that could not be had changes nothing.
pub probe_verdict :
    (demote_after : ℕ) (os : List (Option Bool))
    → demote_after < 2 ^ 32
    → (observe_all (new_probe demote_after) os).healthy
      ≡ not (leb (max demote_after 1) (failures_from 0 os))
unfolding new_probe
probe_verdict demote_after os small =
    observe_all-Follows os (new_probe demote_after) 0 (ground arith)
