-- ===== src/Alloc/Fallback.antt =====
-- What `pick_subnet_or_smaller` grants: the largest net at or below the request that fits.
use lightning_mesh.Prelude.{
  ℕ, zero, suc, Option, none, some, List, ◌+◌, ◌-◌, ◌*◌, ◌^◌, ◌≤◌, ◌<◌, ◌≡◌, ◌⊎◌, inl, inr, refl,
  sym, ap, ◌∙◌, arith, In,
}
use native.Mathlib.Decide.{dec_le}
use lightning_mesh.Order.{Text, nat_ord}
use lightning_mesh.Net.{Ipnet, IsIpnet, block_size}
use lightning_mesh.Net.Blocks.{AreDisjoint, net_end}
use lightning_mesh.Alloc.{
  Asserted, returned, pick_subnet, pick_from, pick_subnet_or_smaller, bump_smaller_subnet,
  smallest_device_prefix,
}
use lightning_mesh.Alloc.Bounds.{pick_subnet-returns, pick_subnet_sound, pick_subnet_complete}

module _ (i : Ipnet) (spec : IsIpnet i) (hash : Text → ℕ) (node_id : Text)
    (claimed : List i.Ipv4Net) (base : i.Ipv4Net) (pos : 0 < i.prefix_len base) where
  open i use {Ipv4Net, prefix_len, network}

  -- The slot `s` of the nets of length `p` in the base shares an address with a claimed net.
  abbrev pub IsTaken : ℕ → ℕ → Type 0
  IsTaken p s =
      (net c : Ipv4Net) × (prefix_len net ≡ p)
      × (network net ≡ network base + s * block_size p)
      × In c claimed
      × (¬ AreDisjoint i net c)

  abbrev asked : ℕ → Asserted (Option Ipv4Net)
  asked p = pick_subnet i hash node_id claimed base p

  abbrev DidFind : ℕ → Asserted (Option Ipv4Net) → Type 0
  DidFind prefix result =
      (q : ℕ) × (net : Ipv4Net) × (result ≡ returned (some net))
      × (asked q ≡ returned (some net))
      × (prefix ≤ q)
      × (q ≤ 32)
      × ((p : ℕ) → prefix ≤ p → p < q → asked p ≡ returned none)

  abbrev DidMiss : ℕ → Asserted (Option Ipv4Net) → Type 0
  DidMiss prefix result =
      (result ≡ returned none)
      × ((p : ℕ) → prefix ≤ p → p ≤ smallest_device_prefix → asked p ≡ returned none)

  from_next :
      (prefix p : ℕ)
      → asked prefix ≡ returned none
      → prefix ≤ p
      → (prefix + 1 ≤ p → asked p ≡ returned none)
      → asked p ≡ returned none
  from_next prefix p now low later = elim (dec_le (prefix + 1) p) [
    | yes up ↦ later up
    | no here ↦ ap asked (omega arith) ∙ now
  ]

  pick_from_cases :
      (fuel prefix : ℕ)
      → prefix_len base ≤ prefix
      → prefix ≤ 32
      → 33 ≤ fuel + prefix
      → DidFind prefix (pick_from i hash node_id claimed base fuel prefix)
        ⊎ DidMiss prefix (pick_from i hash node_id claimed base fuel prefix)
  unfolding pick_from bump_smaller_subnet
  pick_from_cases zero prefix deep valid enough = absurd (omega arith)
  pick_from_cases (suc fuel) prefix deep valid enough =
      elim (pick_subnet-returns i spec base prefix pos deep valid hash node_id claimed) [
        | inr (net, e) ↦ inl (
          prefix,
          net,
          rw (pick_from, e) refl,
          e,
          omega arith,
          valid,
          λ p low high. absurd (omega arith),
        )
        | inl e ↦ elim (dec_le smallest_device_prefix prefix) [
          | yes last ↦ inr (ground (arith, e), λ p low high. ap asked (omega arith) ∙ e)
          | no more ↦
              elim (pick_from_cases fuel (prefix + 1) (omega arith) (omega arith) (omega arith)) [
                | inl (q, net, r, f, low, high, before) ↦ inl (
                  q,
                  net,
                  ground (arith, e, r),
                  f,
                  omega arith,
                  high,
                  λ p at under. from_next prefix p e at (λ up. before p up under),
                )
                | inr (r, before) ↦ inr (
                  ground (arith, e, r),
                  λ p at under. from_next prefix p e at (λ up. before p up under),
                )
              ]
        ]
      ]

  module _ (target : ℕ) (deep : prefix_len base ≤ target) (valid : target ≤ 32) where
    fallback_cases :
        DidFind target (pick_subnet_or_smaller i hash node_id claimed base target)
        ⊎ DidMiss target (pick_subnet_or_smaller i hash node_id claimed base target)
    unfolding pick_subnet_or_smaller
    fallback_cases = pick_from_cases 32 target deep valid (omega arith)

    -- In a base of at least one bit, `pick_subnet_or_smaller` panics on no request from the length of the
    -- base to 32, and its loop ends.
    pub pick_subnet_or_smaller-returns :
        (result : Option Ipv4Net) × (pick_subnet_or_smaller i hash node_id claimed base target
          ≡ returned result)
    pick_subnet_or_smaller-returns = elim fallback_cases [
      | inl (q, net, r, f, low, high, before) ↦ (some net, r)
      | inr (r, before) ↦ (none, r)
    ]

    -- In a base of at least one bit, for a length from that of the base to 32: a net that
    -- `pick_subnet_or_smaller` returns is not larger than the one asked for, lies inside the
    -- base and shares no address with a claimed net; and it is the largest that fits: for every length
    -- from the one asked for up to its own, every slot of the base shares an address with a claimed
    -- net.
    pub pick_subnet_or_smaller_sound :
        (net : Ipv4Net)
        → pick_subnet_or_smaller i hash node_id claimed base target ≡ returned (some net)
        → (target ≤ prefix_len net)
          × (network base ≤ network net)
          × (net_end i net ≤ net_end i base)
          × ((c : Ipv4Net) → In c claimed → AreDisjoint i net c)
          × ((p s : ℕ)
              → target ≤ p
              → p < prefix_len net
              → s < 2 ^ (p - prefix_len base)
              → IsTaken p s)
    pick_subnet_or_smaller_sound net h = elim fallback_cases [
      | inl (q, found, r, f, low, high, before) ↦
          let same : returned (some found) ≡ returned (some net) = sym r ∙ h in
          let f' : asked q ≡ returned (some net) = f ∙ same in
          let (len, inside, end, free) =
            pick_subnet_sound i spec base q pos (omega arith) high hash node_id claimed net f' in
          (
            omega arith,
            inside,
            end,
            free,
            λ p s at under slot.
                pick_subnet_complete i spec base p pos (omega arith) (omega arith) hash node_id
                  claimed s (before p at (omega arith)) slot,
          )
      | inr (r, before) ↦ let clash : returned none ≡ returned (some net) = sym r ∙ h in absurd (cc)
    ]

    -- In a base of at least one bit, for a length from that of the base to 32: where
    -- `pick_subnet_or_smaller` returns no net, every slot of every length from the one asked for
    -- to the smallest that a device gets shares an address with a claimed net.
    pub pick_subnet_or_smaller_complete :
        (p s : ℕ)
        → pick_subnet_or_smaller i hash node_id claimed base target ≡ returned none
        → target ≤ p
        → p ≤ smallest_device_prefix
        → s < 2 ^ (p - prefix_len base)
        → IsTaken p s
    pick_subnet_or_smaller_complete p s h at last slot = elim fallback_cases [
      | inl (q, found, r, f, low, high, before) ↦
          let clash : returned none ≡ returned (some found) = sym h ∙ r in absurd (cc)
      | inr (r, before) ↦
          pick_subnet_complete i spec base p pos (omega arith) (omega arith) hash node_id claimed s
            (before p at last) slot
    ]
