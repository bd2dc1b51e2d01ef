-- ===== src/Alloc/Slots.antt =====
-- The walk over the slots: what it returns, and what it has tried where it returns nothing.
use lightning_mesh.Prelude.{
  ℕ, zero, suc, true, false, none, some, List, [], ◌∷◌, ◌+◌, ◌-◌, ◌%◌, ◌≤◌, ◌<◌, ◌≡◌, inl, inr,
  refl, sym, ap, ◌∙◌, arith, In, some≢none, Bool-cases,
}
use native.Mathlib.Nat.{mod-eq_of_lt, mod-lt, add-mod_right}
use native.Mathlib.Decide.{dec_le}
use lightning_mesh.Order.{nat_ord}
use lightning_mesh.Net.{Ipnet, IsIpnet}
use lightning_mesh.Net.Blocks.{AreDisjoint, disjoint_of_not-contains, contains-shares}
use lightning_mesh.Alloc.{overlaps_any, slot_addr, walk}

module _ (i : Ipnet) (spec : IsIpnet i) where
  open i use {Ipv4Net, new_net, prefix_len, network, contains, addr}

  not-contains_of_free :
      (n c : Ipv4Net) (claimed : List Ipv4Net)
      → overlaps_any i n claimed ≡ false
      → In c claimed
      → (contains c n ≡ false) × (contains n c ≡ false)
  unfolding overlaps_any
  not-contains_of_free n c [] h there = elim there [ ]
  not-contains_of_free n c (x ∷ claimed) h (inl e) = rw e (ground arith)
  not-contains_of_free n c (x ∷ claimed) h (inr there) =
      not-contains_of_free n c claimed (ground arith) there

  -- A candidate that overlaps no claim shares no address with any.
  pub overlaps_none :
      (n c : Ipv4Net) (claimed : List Ipv4Net)
      → overlaps_any i n claimed ≡ false
      → In c claimed
      → AreDisjoint i n c
  overlaps_none n c claimed h there =
      let (out, over) = not-contains_of_free n c claimed h there in
      disjoint_of_not-contains i spec n c over out

  disjoint_symm : (n c : Ipv4Net) → AreDisjoint i n c → AreDisjoint i c n
  disjoint_symm n c (inl h) = inr h
  disjoint_symm n c (inr h) = inl h

  pub overlaps_some :
      (n : Ipv4Net) (claimed : List Ipv4Net)
      → overlaps_any i n claimed ≡ true
      → (c : Ipv4Net) × In c claimed × (¬ AreDisjoint i n c)
  unfolding overlaps_any
  overlaps_some n [] h = absurd (cc)
  overlaps_some n (c ∷ claimed) h = elim (Bool-cases (contains c n)) [
    | inl out ↦ (c, inl refl, λ d. contains-shares i spec c n out (disjoint_symm n c d))
    | inr apart ↦ elim (Bool-cases (contains n c)) [
      | inl over ↦ (c, inl refl, contains-shares i spec n c over)
      | inr clear ↦
          let (x, there, shared) = overlaps_some n claimed (ground arith) in (x, inr there, shared)
    ]
  ]

  abbrev pub slot_of : ℕ → ℕ → ℕ → ℕ
  slot_of preferred num offset = (preferred + offset) % num

  module _ (claimed : List Ipv4Net) (base_addr target num preferred : ℕ) (valid : target ≤ 32) where
    pub walk_sound :
        (rounds offset : ℕ) (net : Ipv4Net)
        → walk i claimed base_addr target num preferred rounds offset ≡ some net
        → (o : ℕ) × (addr net ≡ slot_addr base_addr target (slot_of preferred num o))
          × (prefix_len net ≡ target)
          × (overlaps_any i net claimed ≡ false)
    unfolding walk
    walk_sound zero offset net h = absurd (cc)
    walk_sound (suc rounds) offset net h =
        let (c, made, at, len) =
          spec.new_net_some (slot_addr base_addr target (slot_of preferred num offset)) target
            (mod-lt _ (omega arith)) valid in
        elim (Bool-cases (overlaps_any i c claimed)) [
          | inl taken ↦ walk_sound rounds (offset + 1) net (rw (walk, made, taken) at h)
          | inr free ↦
              let found : some c ≡ some net = rw (walk, made, free) at h in
              let same : c ≡ net = cc in
              (
                offset,
                ap addr (sym same) ∙ at,
                ap prefix_len (sym same) ∙ len,
                ap (λ n. overlaps_any i n claimed) (sym same) ∙ free,
              )
        ]

    -- Where nothing is returned every slot of the walk overlaps a claim.
    pub walk_complete :
        (rounds offset o : ℕ)
        → walk i claimed base_addr target num preferred rounds offset ≡ none
        → offset ≤ o
        → o < offset + rounds
        → (net : Ipv4Net) × (addr net ≡ slot_addr base_addr target (slot_of preferred num o))
          × (prefix_len net ≡ target)
          × (overlaps_any i net claimed ≡ true)
    unfolding walk
    walk_complete zero offset o h low high = absurd (omega arith)
    walk_complete (suc rounds) offset o h low high =
        let (c, made, at, len) =
          spec.new_net_some (slot_addr base_addr target (slot_of preferred num offset)) target
            (mod-lt _ (omega arith)) valid in
        elim (Bool-cases (overlaps_any i c claimed)) [
          | inl taken ↦ elim (dec_le (offset + 1) o) [
            | yes later ↦
                walk_complete rounds (offset + 1) o (rw (walk, made, taken) at h) later
                  (omega arith)
            | no now ↦
                let here : offset ≡ o = omega arith in
                (
                  c,
                  at ∙ ap (λ (t : ℕ). slot_addr base_addr target (slot_of preferred num t)) here,
                  len,
                  taken,
                )
          ]
          | inr free ↦ absurd (some≢none (rw (walk, made, free) at h))
        ]

-- Every slot is met by the walk.
pub slot_met :
    (s num preferred : ℕ)
    → s < num
    → preferred < num
    → (o : ℕ) × (o < num) × ((preferred + o) % num ≡ s)
slot_met s num preferred hs hp = elim (dec_le preferred s) [
  | yes up ↦ (s - preferred, omega arith, ap (λ (t : ℕ). t % num) (omega arith) ∙ mod-eq_of_lt hs)
  | no down ↦ (
    s + num - preferred,
    omega arith,
    ap (λ (t : ℕ). t % num) (omega arith) ∙ add-mod_right s num ∙ mod-eq_of_lt hs,
  )
]
