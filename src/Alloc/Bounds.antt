-- ===== src/Alloc/Bounds.antt =====
-- What `pick_subnet` grants and refuses: a net of the asked size inside the base that is free, and
-- nothing only where every slot is taken.
use lightning_mesh.Prelude.{
  ℕ, suc, false, Option, none, some, List, ◌+◌, ◌-◌, ◌*◌, ◌%◌, ◌/◌, ◌^◌, ◌≤◌, ◌<◌, ◌≡◌, ◌⊎◌, inl,
  inr, refl, sym, ap, ◌∙◌, arith, In, Option-cases,
}
use native.Mathlib.Nat.{
  mod-eq_of_lt, mod-lt, mul-div_cancel, one-le-pow, mul-le-mul_right, div-mul-le_self,
}
use native.Mathlib.Decide.{dec_le}
use lightning_mesh.Order.{Text, nat_ord, ◌==◌, ==-false_of_ne}
use lightning_mesh.Net.{Ipnet, IsIpnet, block_size}
use lightning_mesh.Net.Blocks.{AreDisjoint, net_end, block_size_pos, block_size_split, lt_of_mul-lt}
use lightning_mesh.Alloc.{returned, slot_size, slot_addr, walk, pick_subnet}
use lightning_mesh.Alloc.Slots.{
  walk_sound, walk_complete, slot_met, slot_of, overlaps_none, overlaps_some,
}

slot_size_lem : (target : ℕ) → 0 < target → target ≤ 32 → slot_size target ≡ block_size target
slot_size_lem target pos valid = elim (dec_le 32 target) [
  | yes big ↦ let e : target ≡ 32 = omega arith in rw (e) refl
  | no small ↦
      let near : (32 - target) % 32 ≡ 32 - target = mod-eq_of_lt (omega arith) in
      let differs : (target == 32) ≡ false = ==-false_of_ne target 32 (λ e. small (omega arith)) in
      rw (differs) (ap (λ (n : ℕ). 2 ^ n) near)
]

-- The net of slot `s` of a base at `b * (k * size)`: no address wraps, and it stands inside the base.
slot_in_base :
    (b k size s : ℕ)
    → b * (k * size) + k * size ≤ 2 ^ 32
    → s < k
    → 0 < size
    → let at = b * (k * size) + s * size in
      ((at % 2 ^ 32) ≡ at) × (at / size * size ≡ at) × (at + size ≤ b * (k * size) + k * size)
slot_in_base b k size s fits low pos =
    let room : suc s * size ≤ k * size = mul-le-mul_right size low in
    let whole : b * (k * size) + s * size ≡ (b * k + s) * size = omega arith in
    (mod-eq_of_lt (omega arith), rw (whole, mul-div_cancel (b * k + s) pos) refl, omega arith)

module _ (i : Ipnet) (spec : IsIpnet i) where
  open i use {Ipv4Net, new_net, prefix_len, network, contains, addr}

  -- A net does not pass the end of the address space.
  net_end_le : (n : Ipv4Net) → net_end i n ≤ 2 ^ 32
  net_end_le n =
      let s = block_size (prefix_len n) in
      let a = addr n / s in
      let whole : block_size 0 ≡ 2 ^ (prefix_len n - 0) * s =
        block_size_split 0 (prefix_len n) (omega arith) (spec.prefix_len_le n) in
      let low : a < 2 ^ (prefix_len n - 0) =
        lt_of_mul-lt a (2 ^ (prefix_len n - 0)) s
          (omega (arith, div-mul-le_self (addr n) s, spec.addr_lt n, whole)) in
      omega (arith, spec.network_lem n, mul-le-mul_right s low, whole)

  module _ (base : Ipv4Net) (target : ℕ) (pos : 0 < prefix_len base)
      (deep : prefix_len base ≤ target) (valid : target ≤ 32) where
    abbrev pub slots : ℕ
    slots = 2 ^ (target - prefix_len base)

    -- A net made for a slot stands at its place inside the base.
    net_of_slot :
        (s : ℕ) (net : Ipv4Net)
        → s < slots
        → addr net ≡ slot_addr (network base) target s
        → prefix_len net ≡ target
        → (network net ≡ network base + s * block_size target) × (net_end i net ≤ net_end i base)
    net_of_slot s net low at len =
        let size = block_size target in
        let b = addr base / block_size (prefix_len base) in
        let split : block_size (prefix_len base) ≡ slots * size =
          block_size_split (prefix_len base) target deep valid in
        let at_base : network base ≡ b * (slots * size) =
          spec.network_lem base ∙ ap (λ (t : ℕ). b * t) split in
        let (near, aligned, inside) =
          slot_in_base b slots size s (omega (arith, net_end_le base)) low
            (block_size_pos target) in
        let here : addr net ≡ b * (slots * size) + s * size =
          at
          ∙ ap (λ (t : ℕ). (network base + s * t) % 2 ^ 32)
              (slot_size_lem target (omega arith) valid)
          ∙ ap (λ (t : ℕ). (t + s * size) % 2 ^ 32) at_base
          ∙ near in
        let there : network net ≡ b * (slots * size) + s * size =
          spec.network_lem net
          ∙ ap (λ (t : ℕ). addr net / block_size t * block_size t) len
          ∙ ap (λ (t : ℕ). t / size * size) here
          ∙ aligned in
        let end : block_size (prefix_len net) ≡ size = ap block_size len in
        (omega arith, omega arith)

    module _ (hash : Text → ℕ) (node_id : Text) (claimed : List Ipv4Net) where
      abbrev walked : Option Ipv4Net
      walked = walk i claimed (network base) target slots (hash node_id % slots) slots 0

      pick_subnet_lem : pick_subnet i hash node_id claimed base target ≡ returned walked
      unfolding pick_subnet
      pick_subnet_lem = ground arith

      -- With a valid prefix length nothing panics.
      pub pick_subnet-returns :
          (pick_subnet i hash node_id claimed base target ≡ returned none)
          ⊎ ((net : Ipv4Net) × (pick_subnet i hash node_id claimed base target
                ≡ returned (some net)))
      pick_subnet-returns = elim (Option-cases walked) [
        | inl e ↦ inl (pick_subnet_lem ∙ ap returned e)
        | inr (net, e) ↦ inr (net, pick_subnet_lem ∙ ap returned e)
      ]

      slots_pos : 0 < slots
      slots_pos = one-le-pow (target - prefix_len base) 2 (omega arith)

      -- In a base of at least one bit, for a length from that of the base to 32: a net that `pick_subnet`
      -- returns has the length asked for, lies inside the base and shares no address with a claimed net.
      pub pick_subnet_sound :
          (net : Ipv4Net)
          → pick_subnet i hash node_id claimed base target ≡ returned (some net)
          → (prefix_len net ≡ target)
            × (network base ≤ network net)
            × (net_end i net ≤ net_end i base)
            × ((c : Ipv4Net) → In c claimed → AreDisjoint i net c)
      pick_subnet_sound net h =
          let found : returned walked ≡ returned (some net) = sym pick_subnet_lem ∙ h in
          let (o, at, len, free) =
            walk_sound i spec claimed (network base) target slots (hash node_id % slots) valid slots
              0 net (cc) in
          let (here, inside) =
            net_of_slot (slot_of i spec (hash node_id % slots) slots o) net (mod-lt _ slots_pos) at
              len in
          (len, omega arith, inside, λ c there. overlaps_none i spec net c claimed free there)

      -- In a base of at least one bit, for a length from that of the base to 32: where `pick_subnet`
      -- returns no net, every slot of the length asked for shares an address with a claimed net.
      pub pick_subnet_complete :
          (s : ℕ)
          → pick_subnet i hash node_id claimed base target ≡ returned none
          → s < slots
          → (net c : Ipv4Net) × (prefix_len net ≡ target)
            × (network net ≡ network base + s * block_size target)
            × In c claimed
            × (¬ AreDisjoint i net c)
      pick_subnet_complete s h low =
          let missed : returned walked ≡ returned none = sym pick_subnet_lem ∙ h in
          let preferred = hash node_id % slots in
          let (o, near, met) = slot_met s slots preferred low (mod-lt _ slots_pos) in
          let (net, at, len, taken) =
            walk_complete i spec claimed (network base) target slots preferred valid slots 0 o (cc)
              (omega arith) (omega arith) in
          let (here, inside) =
            net_of_slot s net low (at ∙ ap (λ (t : ℕ). slot_addr (network base) target t) met)
              len in
          let (c, there, shared) = overlaps_some i spec net claimed taken in
          (net, c, len, here, there, shared)
