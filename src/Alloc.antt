-- ===== src/Alloc.antt =====
-- The allocation of subnets (alloc.rs). `hash` stands for the first eight bytes of blake3 over a node
-- id, read as a little-endian number. A set of nets is a list in any order.
pub mod Slots
pub mod Bounds
pub mod Fallback
pub mod Cooldown
use lightning_mesh.Prelude.{
  ℕ, zero, suc, Bool, true, false, ◌||◌, Option, none, some, if◌then◌else◌, List, [], ◌∷◌, ◌+◌, ◌-◌,
  ◌*◌, ◌%◌, ◌^◌,
}
use lightning_mesh.Order.{Text, ◌==◌, leb, ltb, nat_ord}
use lightning_mesh.Net.{Ipnet}

abbrev pub smallest_device_prefix : ℕ
smallest_device_prefix = 30

-- Results that an assertion may end.
pub data Asserted {ℓ} (A : Type ℓ) : Type ℓ where
  panicked : Asserted A
  returned : A → Asserted A

-- `1u32 << n` of a release build, which takes the low five bits of the distance.
abbrev pub shl_one : ℕ → ℕ
shl_one n = 2 ^ (n % 32)

unfoldable pub usable_hosts : ℕ → ℕ
usable_hosts p =
    if p == 32
    then 1
    else if p == 31
    then 2
    else if leb p 30
    then (shl_one (32 - p) + 2 ^ 32 - 2) % 2 ^ 32
    else 0

unfoldable pub total_addresses : ℕ → ℕ
total_addresses p = if leb 32 p then 1 else shl_one (32 - p)

unfoldable pub bump_larger_subnet : ℕ → ℕ → Option ℕ
bump_larger_subnet prefix_len min_prefix =
    if leb prefix_len min_prefix then none else some (prefix_len - 1)

unfoldable pub bump_smaller_subnet : ℕ → Option ℕ
bump_smaller_subnet prefix_len =
    if leb smallest_device_prefix prefix_len then none else some (prefix_len + 1)

-- `slot_size_addrs`
abbrev pub slot_size : ℕ → ℕ
slot_size target = if target == 32 then 1 else shl_one (32 - target)

-- The net of a slot: `u32` arithmetic wraps.
abbrev pub slot_addr : ℕ → ℕ → ℕ → ℕ
slot_addr base_addr target slot_idx = (base_addr + slot_idx * slot_size target) % 2 ^ 32

module _ (i : Ipnet) where
  open i use {Ipv4Net, new_net, prefix_len, network, contains}

  unfoldable pub overlaps_any : Ipv4Net → List Ipv4Net → Bool
  overlaps_any candidate [] = false
  overlaps_any candidate (c ∷ claimed) =
      contains c candidate || contains candidate c || overlaps_any candidate claimed

  -- The loop of `pick_subnet`, with the number of rounds left before the current offset.
  unfoldable pub walk : List Ipv4Net → ℕ → ℕ → ℕ → ℕ → ℕ → ℕ → Option Ipv4Net
  walk claimed base_addr target num_slots preferred zero offset = none
  walk claimed base_addr target num_slots preferred (suc rounds) offset =
      let next = walk claimed base_addr target num_slots preferred rounds (offset + 1) in
      elim (new_net (slot_addr base_addr target ((preferred + offset) % num_slots)) target) [
        | none ↦ none
        | some candidate ↦ if overlaps_any candidate claimed then next else some candidate
      ]

  unfoldable pub pick_subnet :
      (Text → ℕ) → Text → List Ipv4Net → Ipv4Net → ℕ → Asserted (Option Ipv4Net)
  pick_subnet hash node_id claimed base target =
      if ltb target (prefix_len base)
      then panicked
      else if ltb 32 target
      then panicked
      else let num_slots = 2 ^ (target - prefix_len base) in
        returned
          (walk claimed (network base) target num_slots (hash node_id % num_slots) num_slots 0)

  -- The loop of `pick_subnet_or_smaller`, on fuel: a prefix is left at most 31 times.
  unfoldable pub pick_from :
      (Text → ℕ) → Text → List Ipv4Net → Ipv4Net → ℕ → ℕ → Asserted (Option Ipv4Net)
  pick_from hash node_id claimed base zero prefix = panicked
  pick_from hash node_id claimed base (suc fuel) prefix =
      elim (pick_subnet hash node_id claimed base prefix) [
        | panicked ↦ panicked
        | returned (some net) ↦ returned (some net)
        | returned none ↦ elim (bump_smaller_subnet prefix) [
          | some next ↦ pick_from hash node_id claimed base fuel next
          | none ↦ returned none
        ]
      ]

  unfoldable pub pick_subnet_or_smaller :
      (Text → ℕ) → Text → List Ipv4Net → Ipv4Net → ℕ → Asserted (Option Ipv4Net)
  unfolding pick_from
  pick_subnet_or_smaller hash node_id claimed base target =
      pick_from hash node_id claimed base 32 target
