-- ===== src/Daemon/Claims/Fresh.antt =====
-- What a new claim is worth.
use lightning_mesh.Prelude.{
  ℕ, none, some, List, [], ◌∷◌, ◌++◌, ◌≡◌, ◌≢◌, ◌⊎◌, inl, inr, refl, ap, ◌∙◌, arith, In, some≢none,
  List-cases, Option-cases, ◌≤◌, ◌<◌,
}
use lightning_mesh.Order.{Text, text_ord, nat_ord}
use lightning_mesh.Book.{get, insert, get-insert_self}
use lightning_mesh.Net.{Ipnet, IsIpnet}
use lightning_mesh.Net.Blocks.{AreDisjoint, net_end}
use lightning_mesh.Alloc.{returned, pick_subnet_or_smaller}
use lightning_mesh.Alloc.Fallback.{pick_subnet_or_smaller-returns, pick_subnet_or_smaller_sound}
use lightning_mesh.Crdt.Hlc.{Hlc}
use lightning_mesh.Daemon.Claims.Partition.{partition_claims_foreign}
use lightning_mesh.Daemon.Claims.{Claim, ClaimStore}
use lightning_mesh.Daemon.Claims.Own.{
  sort_by, client_net, owned, claimed_at, partition_claims, Claiming, claim_and_publish, claim_with,
  client_prefix_len, fresh_claim, announce,
}

module _ (i : Ipnet) (spec : IsIpnet i) where
  open i use {Ipv4Net, prefix_len, network, to_text, from_v4}

  -- Where this node holds no client subnet there is nothing to release.
  extras_none :
      (store : ClaimStore i) (self_id : Text)
      → (partition_claims i store self_id).0 ≡ none
      → (partition_claims i store self_id).1 ≡ []
  unfolding partition_claims
  extras_none store self_id h =
      elim (List-cases (sort_by (claimed_at i) (owned i (client_net i) store self_id))) [
        | inl empty ↦ rw (partition_claims, empty) refl
        | inr (x, rest, e) ↦
            let nothing : some x ≡ none = rw (partition_claims, e) at h in
            absurd (some≢none nothing)
      ]

  claims_from_none :
      (hash : Text → ℕ) (base : Ipv4Net) (self_id : Text) (now : Hlc) (s : Claiming i)
      → (partition_claims i s.store self_id).0 ≡ none
      → claim_and_publish i hash base self_id now s
        ≡ claim_with i hash base self_id now s none [] (partition_claims i s.store self_id).2
  unfolding claim_and_publish
  claims_from_none hash base self_id now s vacant =
      let parts = partition_claims i s.store self_id in
      ap (λ keep. claim_with i hash base self_id now s keep parts.1 parts.2) vacant
      ∙ ap (λ extras. claim_with i hash base self_id now s none extras parts.2)
          (extras_none s.store self_id vacant)

  claims_nothing :
      (hash : Text → ℕ) (base : Ipv4Net) (self_id : Text) (now : Hlc) (s : Claiming i)
      (taken : List Ipv4Net)
      → pick_subnet_or_smaller i hash self_id taken base (client_prefix_len i) ≡ returned none
      → claim_with i hash base self_id now s none [] taken ≡ returned s
  unfolding claim_with
  claims_nothing hash base self_id now s taken ran = rw (claim_with, ran) refl

  claims_net :
      (hash : Text → ℕ) (base : Ipv4Net) (self_id : Text) (now : Hlc) (s : Claiming i)
      (taken : List Ipv4Net) (net : Ipv4Net)
      → pick_subnet_or_smaller i hash self_id taken base (client_prefix_len i) ≡ returned (some net)
      → let claim = fresh_claim i self_id net now in
        claim_with i hash base self_id now s none [] taken
        ≡ returned (
            announce i
              (record s { store = insert s.store (to_text (from_v4 net)) claim })
              net
              claim)
  unfolding claim_with
  claims_net hash base self_id now s taken net ran = rw (claim_with, ran) refl

  -- A net that shares no address with the client subnets of others in a store, and lies inside a base.
  abbrev pub IsFree : ClaimStore i → Text → Ipv4Net → Ipv4Net → Type 0
  IsFree store self_id base net =
      (network base ≤ network net)
      × (net_end i net ≤ net_end i base)
      × ((k : Text) (c : Claim i) (m : Ipv4Net)
          → In {A = Text × Claim i} (k, c) store
          → c.owner_node_id ≢ self_id
          → client_net i c ≡ some m
          → AreDisjoint i net m)

  -- A node that holds no client subnet claims one without panicking, in a mesh space of one to 24 bits:
  -- either the allocation grants no net and nothing changes, or it puts a net on its interface that lies
  -- inside the mesh space and shares no address with a client subnet that another node holds in the
  -- store, and its store holds its claim on it.
  pub claim_and_publish_fresh :
      (hash : Text → ℕ) (base : Ipv4Net) (self_id : Text) (now : Hlc) (s : Claiming i)
      → 0 < prefix_len base
      → prefix_len base ≤ client_prefix_len i
      → (partition_claims i s.store self_id).0 ≡ none
      → ((claim_and_publish i hash base self_id now s ≡ returned s)
          × (pick_subnet_or_smaller i hash self_id
                (partition_claims i s.store self_id).2
                base
                (client_prefix_len i)
              ≡ returned none))
        ⊎ ((net : Ipv4Net) × (after : Claiming i) × (claim_and_publish i hash base self_id now s
              ≡ returned after)
            × IsFree s.store self_id base net
            × (after.assigned ≡ s.assigned ++ net ∷ [])
            × (get after.store (to_text (from_v4 net)) ≡ some (fresh_claim i self_id net now)))
  unfolding announce
  claim_and_publish_fresh hash base self_id now s pos deep vacant =
      let taken = (partition_claims i s.store self_id).2 in
      let step = claims_from_none hash base self_id now s vacant in
      let (result, ran) =
        pick_subnet_or_smaller-returns i spec hash self_id taken base pos (client_prefix_len i) deep
          (omega arith) in
      elim (Option-cases result) [
        | inl nothing ↦
            let ran' = ran ∙ ap returned nothing in
            inl (step ∙ claims_nothing hash base self_id now s taken ran', ran')
        | inr (net, found) ↦
            let ran' = ran ∙ ap returned found in
            let claim = fresh_claim i self_id net now in
            let key = to_text (from_v4 net) in
            let (_, low, high, free, _) =
              pick_subnet_or_smaller_sound i spec hash self_id taken base pos (client_prefix_len i)
                deep (omega arith) net ran' in
            inr (
              net,
              announce i (record s { store = insert s.store key claim }) net claim,
              step ∙ claims_net hash base self_id now s taken net ran',
              (
                low,
                high,
                λ k c m there other held.
                    free m (partition_claims_foreign i s.store self_id k c m there other held),
              ),
              refl,
              get-insert_self s.store key claim,
            )
      ]
