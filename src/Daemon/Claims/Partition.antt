-- ===== src/Daemon/Claims/Partition.antt =====
-- What `partition_claims` finds, and what a new claim is worth.
use lightning_mesh.Prelude.{
  Option, none, some, true, List, [], ◌∷◌, ◌≡◌, ◌≢◌, inl, inr, refl, sym, ap, ◌∙◌, subst, In,
  some≢none, List-cases, Bool-cases, Option-cases, gt,
}
use lightning_mesh.Order.{Text, ◌==◌, text_ord, nat_ord, eq_of_==, ==_of_eq, ==-false_of_ne}
use lightning_mesh.Net.{Ipnet}
use lightning_mesh.Crdt.Hlc.{hlc_cmp}
use lightning_mesh.Daemon.Claims.Order.{HeadIsLeast, sort_by-HeadIsLeast, In-sort_by}
use lightning_mesh.Daemon.Claims.{Claim, ClaimStore}
use lightning_mesh.Daemon.Claims.Own.{
  sort_by, client_net, owned, foreign, claimed_at, partition_claims,
}

module _ (i : Ipnet) where
  open i use {Ipv4Net}

  abbrev Own : Type 0
  Own = Ipv4Net × Claim i

  -- A claim of the store that the filter takes, and whose owner is as asked.
  abbrev IsClaimed : (Claim i → Option Ipv4Net) → ClaimStore i → Ipv4Net → Claim i → Type 0
  IsClaimed net_of store n c =
      ((k : Text) × In {A = Text × Claim i} (k, c) store) × (net_of c ≡ some n)

  IsClaimed-later :
      (net_of : Claim i → Option Ipv4Net) (e : Text × Claim i) (store : ClaimStore i) (n : Ipv4Net)
      (c : Claim i)
      → IsClaimed net_of store n c
      → IsClaimed net_of (e ∷ store) n c
  IsClaimed-later net_of e store n c ((k, there), net) = ((k, inr there), net)

  owned_sound :
      (net_of : Claim i → Option Ipv4Net) (store : ClaimStore i) (owner : Text) (n : Ipv4Net)
      (c : Claim i)
      → In {A = Own} (n, c) (owned i net_of store owner)
      → IsClaimed net_of store n c × (c.owner_node_id ≡ owner)
  unfolding owned
  owned_sound net_of [] owner n c h = elim h [ ]
  owned_sound net_of ((k, d) ∷ store) owner n c h =
      let rest = owned_sound net_of store owner n c in
      let later = IsClaimed-later net_of (k, d) store n c in
      elim (Bool-cases (d.owner_node_id == owner)) [
        | inr other ↦ let (there, o) = rest (rw (owned, other) at h) in (later there, o)
        | inl same ↦ elim (Option-cases (net_of d)) [
          | inl skip ↦ let (there, o) = rest (rw (owned, same, skip) at h) in (later there, o)
          | inr (m, net) ↦ elim (rw (owned, same, net) at h) [
            | inl e ↦
                let at : c ≡ d = ap (λ (p : Own). p.1) e in
                let on : n ≡ m = ap (λ (p : Own). p.0) e in
                (
                  (
                    (k, inl (ap (λ (x : Claim i). (k, x)) at)),
                    ap net_of at ∙ net ∙ ap some (sym on),
                  ),
                  ap (λ (x : Claim i). x.owner_node_id) at ∙ eq_of_== d.owner_node_id owner same,
                )
            | inr j ↦ let (there, o) = rest j in (later there, o)
          ]
        ]
      ]

  owned_complete :
      (net_of : Claim i → Option Ipv4Net) (store : ClaimStore i) (owner : Text) (n : Ipv4Net)
      (c : Claim i) (k : Text)
      → In {A = Text × Claim i} (k, c) store
      → net_of c ≡ some n
      → c.owner_node_id ≡ owner
      → In {A = Own} (n, c) (owned i net_of store owner)
  unfolding owned
  owned_complete net_of [] owner n c k there net o = elim there [ ]
  owned_complete net_of ((j, d) ∷ store) owner n c k (inl e) net o =
      let at : c ≡ d = ap (λ (p : Text × Claim i). p.1) e in
      let own : (d.owner_node_id == owner) ≡ true =
        ==_of_eq d.owner_node_id owner (ap (λ (x : Claim i). x.owner_node_id) (sym at) ∙ o) in
      let held : net_of d ≡ some n = ap net_of (sym at) ∙ net in
      rw (owned, own, held) (inl (ap (λ (x : Claim i). (n, x)) at))
  owned_complete net_of ((j, d) ∷ store) owner n c k (inr there) net o =
      let rest = owned_complete net_of store owner n c k there net o in
      elim (Bool-cases (d.owner_node_id == owner)) [
        | inr other ↦ rw (owned, other) rest
        | inl same ↦ elim (Option-cases (net_of d)) [
          | inl skip ↦ rw (owned, same, skip) rest
          | inr (m, held) ↦ rw (owned, same, held) (inr rest)
        ]
      ]

  foreign_complete :
      (net_of : Claim i → Option Ipv4Net) (store : ClaimStore i) (self_id : Text) (n : Ipv4Net)
      (c : Claim i) (k : Text)
      → In {A = Text × Claim i} (k, c) store
      → net_of c ≡ some n
      → c.owner_node_id ≢ self_id
      → In n (foreign i net_of store self_id)
  unfolding foreign
  foreign_complete net_of [] self_id n c k there net o = elim there [ ]
  foreign_complete net_of ((j, d) ∷ store) self_id n c k (inl e) net o =
      let at : c ≡ d = ap (λ (p : Text × Claim i). p.1) e in
      rw (← at, ==-false_of_ne c.owner_node_id self_id o, net) (inl refl)
  foreign_complete net_of ((j, d) ∷ store) self_id n c k (inr there) net o =
      let rest = foreign_complete net_of store self_id n c k there net o in
      elim (Bool-cases (d.owner_node_id == self_id)) [
        | inl own ↦ rw (foreign, own) rest
        | inr other ↦ elim (Option-cases (net_of d)) [
          | inl skip ↦ rw (foreign, other, skip) rest
          | inr (m, held) ↦ rw (foreign, other, held) (inr rest)
        ]
      ]

  abbrev sorted : ClaimStore i → Text → List Own
  sorted store self_id = sort_by (claimed_at i) (owned i (client_net i) store self_id)

  In-sorted :
      (store : ClaimStore i) (self_id k : Text) (d : Claim i) (m : Ipv4Net)
      → In {A = Text × Claim i} (k, d) store
      → d.owner_node_id ≡ self_id
      → client_net i d ≡ some m
      → In {A = Own} (m, d) (sorted store self_id)
  In-sorted store self_id k d m there own net =
      (In-sort_by (claimed_at i) (m, d) (owned i (client_net i) store self_id)).1
        (owned_complete (client_net i) store self_id m d k there net own)

  -- Where the first part of `partition_claims` is a net and a claim, the claim is one of this node's
  -- claims on client subnets in the store, on that net, and none of them bears an earlier stamp. Where
  -- there is none, this node claims no client subnet.
  pub partition_claims_senior :
      (store : ClaimStore i) (self_id : Text)
      → ((n : Ipv4Net) (c : Claim i)
          → (partition_claims i store self_id).0 ≡ some (n, c)
          → ((k : Text) × In {A = Text × Claim i} (k, c) store)
            × (c.owner_node_id ≡ self_id)
            × (client_net i c ≡ some n)
            × ((k : Text) (d : Claim i) (m : Ipv4Net)
                → In {A = Text × Claim i} (k, d) store
                → d.owner_node_id ≡ self_id
                → client_net i d ≡ some m
                → hlc_cmp c.claimed_at d.claimed_at ≢ gt))
        × ((partition_claims i store self_id).0 ≡ none
            → (k : Text) (d : Claim i) → In {A = Text × Claim i} (k, d) store
            → d.owner_node_id ≡ self_id
            → client_net i d ≡ none)
  unfolding partition_claims
  partition_claims_senior store self_id = elim (List-cases (sorted store self_id)) [
    | inl empty ↦ (
      λ n c h.
          let nothing : none ≡ some (n, c) = rw (partition_claims, empty) at h in
          absurd (some≢none (sym nothing)),
      λ h k d there own. elim (Option-cases (client_net i d)) [
        | inl skip ↦ skip
        | inr (m, net) ↦ absurd (
            elim (subst (In {A = Own} (m, d)) empty
              (In-sorted store self_id k d m there own net)) [ ])
      ],
    )
    | inr (x, rest, e) ↦ (
      λ n c h.
          let picked : some x ≡ some (n, c) = rw (partition_claims, e) at h in
          let same : x ≡ (n, c) = cc in
          let least =
            subst (HeadIsLeast (claimed_at i)) e
              (sort_by-HeadIsLeast (claimed_at i) (owned i (client_net i) store self_id)) in
          let first : In {A = Own} (n, c) (sorted store self_id) =
            subst (In {A = Own} (n, c)) (sym e) (inl (sym same)) in
          let ((there, net), own) =
            owned_sound (client_net i) store self_id n c
              ((In-sort_by (claimed_at i) (n, c) (owned i (client_net i) store self_id)).0 first) in
          (
            there,
            own,
            net,
            λ k d m at mine held.
                subst (λ (y : Own). hlc_cmp (claimed_at i y) d.claimed_at ≢ gt) same
                  (least (m, d)
                    (subst (In {A = Own} (m, d)) e (In-sorted store self_id k d m at mine held))),
          ),
      λ h.
          let nothing : some x ≡ none = rw (partition_claims, e) at h in absurd (some≢none nothing),
    )
  ]

  -- Where another node claims a client subnet, the third part of `partition_claims` has its net.
  pub partition_claims_foreign :
      (store : ClaimStore i) (self_id k : Text) (c : Claim i) (n : Ipv4Net)
      → In {A = Text × Claim i} (k, c) store
      → c.owner_node_id ≢ self_id
      → client_net i c ≡ some n
      → In n (partition_claims i store self_id).2
  unfolding partition_claims
  partition_claims_foreign store self_id k c n there other net =
      let found = foreign_complete (client_net i) store self_id n c k there net other in
      elim (List-cases (sorted store self_id)) [
        | inl empty ↦ rw (partition_claims, empty) found
        | inr (x, rest, e) ↦ rw (partition_claims, e) found
      ]
