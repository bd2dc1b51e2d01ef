-- ===== src/Daemon/Claims/Own.antt =====
-- Whose claims are whose (meshd's `partition_claims`, `pick_backhaul_addr`, `peer_backhaul_hint`,
-- `owned_client_subnet`, `client_gateway_addr`), and what `claim_and_publish` does with them.
use lightning_mesh.Prelude.{
  ℕ, zero, suc, Option, none, some, Bool, true, false, not, if◌then◌else◌, List, [], ◌∷◌, ◌++◌, map,
  ◌+◌, ◌%◌, ◌^◌, gt,
}
use lightning_mesh.Order.{Text, ◌==◌, text_ord, nat_ord}
use lightning_mesh.Book.{insert, remove}
use lightning_mesh.Net.{Ipnet, in_backhaul_block}
use lightning_mesh.Alloc.{Asserted, panicked, returned, pick_subnet_or_smaller}
use lightning_mesh.Crdt.Hlc.{Hlc, hlc_cmp}
use lightning_mesh.Crdt.Gossip.{GossipMessage, subnet_claim_update, subnet_claim_release}
use lightning_mesh.Daemon.Claims.{Claim, ClaimStore}

-- `sort_by` on a stamp: a stable sort.
module _ {A : Type 0} (stamp : A → Hlc) where
  unfoldable pub insert_by : A → List A → List A
  insert_by x [] = x ∷ []
  insert_by x (y ∷ ys) =
      let rest = insert_by x ys in
      elim (hlc_cmp (stamp x) (stamp y)) [ gt ↦ y ∷ rest | _ ↦ x ∷ y ∷ ys ]

  unfoldable pub sort_by : List A → List A
  unfolding insert_by
  sort_by [] = []
  sort_by (x ∷ xs) = insert_by x (sort_by xs)

module _ (i : Ipnet) where
  open i use {Ipv4Net, as_v4, from_v4, to_text, network, prefix_len, addr}

  -- The net of a claim on a client subnet, and of a claim on a backhaul address.
  unfoldable pub client_net : Claim i → Option Ipv4Net
  client_net c = elim (as_v4 c.cidr) [
    | none ↦ none
    | some n ↦ if in_backhaul_block i n then none else some n
  ]

  unfoldable pub backhaul_net : Claim i → Option Ipv4Net
  backhaul_net c = elim (as_v4 c.cidr) [
    | none ↦ none
    | some n ↦ if in_backhaul_block i n then some n else none
  ]

  -- The claims of one owner, with the net that the filter takes from each.
  unfoldable pub owned : (Claim i → Option Ipv4Net) → ClaimStore i → Text → List (Ipv4Net × Claim i)
  owned net_of [] owner = []
  owned net_of ((_, c) ∷ store) owner =
      let rest = owned net_of store owner in
      if c.owner_node_id == owner
      then elim (net_of c) [ none ↦ rest | some n ↦ (n, c) ∷ rest ]
      else rest

  -- The nets that others claim.
  unfoldable pub foreign : (Claim i → Option Ipv4Net) → ClaimStore i → Text → List Ipv4Net
  foreign net_of [] self_id = []
  foreign net_of ((_, c) ∷ store) self_id =
      let rest = foreign net_of store self_id in
      if not (c.owner_node_id == self_id)
      then elim (net_of c) [ none ↦ rest | some n ↦ n ∷ rest ]
      else rest

  abbrev pub claimed_at : Ipv4Net × Claim i → Hlc
  claimed_at (n, c) = c.claimed_at

  -- The senior claim of this node, its other nets, and the nets of others.
  unfoldable pub partition_claims :
      ClaimStore i → Text → Option (Ipv4Net × Claim i) × List Ipv4Net × List Ipv4Net
  unfolding client_net owned foreign
  partition_claims store self_id =
      let taken = foreign client_net store self_id in
      elim (sort_by claimed_at (owned client_net store self_id)) [
        | [] ↦ (none, [], taken)
        | keep ∷ extras ↦ (some keep, map (λ e. e.0) extras, taken)
      ]

  abbrev pub backhaul_pick_attempts : ℕ
  backhaul_pick_attempts = 64

  -- The address of a /32 that another node claims.
  abbrev pub host_net : Claim i → Option Ipv4Net
  host_net c = elim (backhaul_net c) [
    | none ↦ none
    | some n ↦ if prefix_len n == 32 then some n else none
  ]

  unfoldable pub is_taken : List Ipv4Net → ℕ → Bool
  is_taken [] a = false
  is_taken (n ∷ ns) a = if addr n == a then true else is_taken ns a

  -- The loop of `pick_backhaul_addr` over the attempts that are left.
  unfoldable pub next_free : (ℕ → ℕ) → List Ipv4Net → ℕ → ℕ → Option ℕ
  unfolding is_taken
  next_free salted taken zero attempt = none
  next_free salted taken (suc left) attempt =
      let later = next_free salted taken left (attempt + 1) in
      if not (is_taken taken (salted attempt)) then some (salted attempt) else later

  -- `salted` is `backhaul_addr_salted` of this node.
  unfoldable pub pick_backhaul_addr : (ℕ → ℕ) → ClaimStore i → Text → ℕ
  unfolding next_free owned foreign backhaul_net
  pick_backhaul_addr salted store self_id =
      elim (sort_by claimed_at (owned backhaul_net store self_id)) [
        | (n, _) ∷ _ ↦ addr n
        | [] ↦ elim (next_free salted (foreign host_net store self_id) backhaul_pick_attempts 0) [
          | some a ↦ a
          | none ↦ salted 0
        ]
      ]

  -- `derived` is `backhaul_addr` of the peer.
  unfoldable pub peer_backhaul_hint : ℕ → ClaimStore i → Text → ℕ
  unfolding owned backhaul_net
  peer_backhaul_hint derived store peer_id =
      elim (sort_by claimed_at (owned backhaul_net store peer_id)) [
        | (n, _) ∷ _ ↦ addr n
        | [] ↦ derived
      ]

  -- The first address after that of the network, in `u32` arithmetic.
  unfoldable pub client_gateway_addr : Ipv4Net → ℕ
  client_gateway_addr subnet = (network subnet + 1) % 2 ^ 32

  -- What claiming changes: the store, the messages handed to gossip, the addresses put on the client
  -- interface and taken off it, and the address that the DNS responder answers with.
  pub record Claiming : Type 0 where
    pub store : ClaimStore i
    pub published : List (GossipMessage i.IpNet)
    pub assigned : List Ipv4Net
    pub retracted : List Ipv4Net
    pub gateway : Option ℕ

  -- `now` is the clock of this node when the release is stamped.
  unfoldable pub release_claim : Claiming → Ipv4Net → Hlc → Claiming
  release_claim s net now =
      let cidr_key = to_text (from_v4 net) in
      record s {
        store = remove s.store cidr_key;
        published = s.published ++ subnet_claim_release cidr_key now ∷ [];
        retracted = s.retracted ++ net ∷ [];
      }

  unfoldable pub release_all : Claiming → List Ipv4Net → Hlc → Claiming
  unfolding release_claim
  release_all s [] now = s
  release_all s (net ∷ extras) now = release_all (release_claim s net now) extras now

  -- The gossip of a claim, then its address on the interface and in the responder.
  unfoldable pub announce : Claiming → Ipv4Net → Claim i → Claiming
  unfolding client_gateway_addr
  announce s net claim = record s {
    published = s.published ++ subnet_claim_update (to_text (from_v4 net)) claim ∷ [];
    assigned = s.assigned ++ net ∷ [];
    gateway = some (client_gateway_addr net);
  }

  abbrev pub client_prefix_len : ℕ
  client_prefix_len = 24

  abbrev pub fresh_claim : Text → Ipv4Net → Hlc → Claim i
  fresh_claim self_id net now = record {
    cidr = from_v4 net;
    owner_node_id = self_id;
    site_name = none;
    claimed_at = now;
  }

  -- What follows the partition. `base` is `DEFAULT_MESH_SPACE`, and `hash` that of the allocation. One
  -- clock stamps the releases and the claim.
  unfoldable pub claim_with :
      (Text → ℕ)
      → Ipv4Net
      → Text
      → Hlc
      → Claiming
      → Option (Ipv4Net × Claim i)
      → List Ipv4Net
      → List Ipv4Net
      → Asserted Claiming
  unfolding release_all announce
  claim_with hash base self_id now s (some (net, claim)) extras taken =
      returned (announce (release_all s extras now) net claim)
  claim_with hash base self_id now s none extras taken =
      let left = release_all s extras now in
      elim (pick_subnet_or_smaller i hash self_id taken base client_prefix_len) [
        | panicked ↦ panicked
        | returned none ↦ returned left
        | returned (some net) ↦
            let claim = fresh_claim self_id net now in
            let key = to_text (from_v4 net) in
            returned (announce (record left { store = insert left.store key claim }) net claim)
      ]

  unfoldable pub claim_and_publish :
      (Text → ℕ) → Ipv4Net → Text → Hlc → Claiming → Asserted Claiming
  unfolding claim_with
  claim_and_publish hash base self_id now s =
      let (keep, extras, taken) = partition_claims s.store self_id in
      claim_with hash base self_id now s keep extras taken
