-- ===== src/Tests/Nets.antt =====
-- The allocation of subnets at concrete inputs.
use lightning_mesh.Prelude.{
  ℕ, Option, none, some, List, [], ◌∷◌, ◌≡◌, refl, ◌≤◌, ◌<◌, ◌-◌, ◌^◌, arith, In,
}
use lightning_mesh.Order.{Text, nat_ord}
use lightning_mesh.Net.Blocks.{AreDisjoint, net_end}
use lightning_mesh.Alloc.{
  returned, pick_subnet, pick_subnet_or_smaller, walk, overlaps_any, pick_from, bump_smaller_subnet,
}
use lightning_mesh.Alloc.Fallback.{
  IsTaken, pick_subnet_or_smaller-returns, pick_subnet_or_smaller_sound,
  pick_subnet_or_smaller_complete,
}
use lightning_mesh.Tests.Common.{nets, nets-IsIpnet, alpha}

-- 10.42.1.0/28
abbrev base : ℕ × ℕ
base = (170524928, 28)

abbrev half : ℕ × ℕ
half = (170524928, 29)

abbrev other_half : ℕ × ℕ
other_half = (170524936, 29)

abbrev hash : Text → ℕ
hash t = 6

abbrev claimed : List (ℕ × ℕ)
claimed = half ∷ []

picked : pick_subnet nets hash alpha claimed base 29 ≡ returned (some other_half)
unfolding pick_subnet walk overlaps_any
picked = refl

abbrev all_claimed : List (ℕ × ℕ)
all_claimed = half ∷ other_half ∷ []

nothing_picked : pick_subnet nets hash alpha all_claimed base 29 ≡ returned none
unfolding pick_subnet walk overlaps_any
nothing_picked = refl

granted : pick_subnet_or_smaller nets hash alpha claimed base 28 ≡ returned (some other_half)
unfolding pick_subnet_or_smaller pick_from bump_smaller_subnet pick_subnet walk overlaps_any
granted = refl

pick_subnet_or_smaller-returns_example :
    (result : Option (ℕ × ℕ)) × (pick_subnet_or_smaller nets hash alpha claimed base 28
      ≡ returned result)
pick_subnet_or_smaller-returns_example =
    pick_subnet_or_smaller-returns nets nets-IsIpnet hash alpha claimed base (omega arith) 28
      (omega arith) (omega arith)

pick_subnet_or_smaller_sound_example :
    (28 ≤ nets.prefix_len other_half)
    × (nets.network base ≤ nets.network other_half)
    × (net_end nets other_half ≤ net_end nets base)
    × ((c : ℕ × ℕ) → In c claimed → AreDisjoint nets other_half c)
    × ((p s : ℕ)
        → 28 ≤ p
        → p < nets.prefix_len other_half
        → s < 2 ^ (p - nets.prefix_len base)
        → IsTaken nets nets-IsIpnet hash alpha claimed base (omega arith) p s)
pick_subnet_or_smaller_sound_example =
    pick_subnet_or_smaller_sound nets nets-IsIpnet hash alpha claimed base (omega arith) 28
      (omega arith) (omega arith) other_half granted

refused : pick_subnet_or_smaller nets hash alpha all_claimed base 28 ≡ returned none
unfolding pick_subnet_or_smaller pick_from bump_smaller_subnet pick_subnet walk overlaps_any
refused = refl

pick_subnet_or_smaller_complete_example :
    IsTaken nets nets-IsIpnet hash alpha all_claimed base (omega arith) 30 2
pick_subnet_or_smaller_complete_example =
    pick_subnet_or_smaller_complete nets nets-IsIpnet hash alpha all_claimed base (omega arith) 28
      (omega arith) (omega arith) 30 2 refused (omega arith) (omega arith) (omega arith)
