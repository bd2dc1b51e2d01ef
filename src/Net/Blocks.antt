-- ===== src/Net/Blocks.antt =====
-- Aligned blocks of addresses: two blocks nest or share no address.
use lightning_mesh.Prelude.{
  ℕ, zero, suc, true, false, ◌≡◌, ◌⊎◌, inl, inr, ap, ◌∙◌, arith, ◌+◌, ◌*◌, ◌-◌, ◌/◌, ◌^◌, ◌≤◌, ◌<◌,
}
use native.Mathlib.Nat.{
  mul_assoc, pow-suc, pow-zero, mul-one, add-zero, add-suc, one-le-pow, mul-le-mul_right,
}
use native.Mathlib.Decide.{dec_le, dec_lt}
use lightning_mesh.Net.{Ipnet, IsIpnet, block_size}

pub pow_add : (a b c : ℕ) → a ^ (b + c) ≡ a ^ b * a ^ c
pow_add a b zero = simp (add-zero, pow-zero, mul-one)
pow_add a b (suc c) = simp (add-suc, pow-suc, pow_add a b c, mul_assoc)

pub block_size_pos : (p : ℕ) → 0 < block_size p
block_size_pos p = one-le-pow (32 - p) 2 (omega arith)

-- A block is the product of its number of sub-blocks and their size.
pub block_size_split : (p q : ℕ) → p ≤ q → q ≤ 32 → block_size p ≡ 2 ^ (q - p) * block_size q
block_size_split p q h k = ap (λ (n : ℕ). 2 ^ n) (omega arith) ∙ pow_add 2 (q - p) (32 - q)

pub lt_of_mul-lt : (x y s : ℕ) → x * s < y * s → x < y
lt_of_mul-lt x y s h = elim (dec_lt x y) [
  | yes p ↦ p
  | no p ↦ let le : y ≤ x = omega arith in absurd (omega (arith, mul-le-mul_right s le))
]

-- A block of size `k * s` at `a * (k * s)` and one of size `s` at `b * s` that share an address: the
-- smaller lies inside the larger.
nested :
    (a b k s : ℕ)
    → a * (k * s) < b * s + s
    → b * s < a * (k * s) + k * s
    → (a * (k * s) ≤ b * s) × (b * s + s ≤ a * (k * s) + k * s)
nested a b k s h g =
    let low : a * k < b + 1 = lt_of_mul-lt (a * k) (b + 1) s (omega arith) in
    let high : b < a * k + k = lt_of_mul-lt b (a * k + k) s (omega arith) in
    let low_le : a * k ≤ b = omega arith in
    let high_le : b + 1 ≤ a * k + k = omega arith in
    (omega (arith, mul-le-mul_right s low_le), omega (arith, mul-le-mul_right s high_le))

module _ (i : Ipnet) where
  open i use {Ipv4Net, prefix_len, network}

  -- The first address after a net.
  abbrev pub net_end : Ipv4Net → ℕ
  net_end n = network n + block_size (prefix_len n)

  abbrev pub AreDisjoint : Ipv4Net → Ipv4Net → Type 0
  AreDisjoint n m = (net_end n ≤ network m) ⊎ (net_end m ≤ network n)

module _ (i : Ipnet) (spec : IsIpnet i) where
  open i use {Ipv4Net, prefix_len, network, contains}

  -- Where a net of the longer prefix shares an address with one of the shorter, the latter contains
  -- the former.
  contains_of_shared :
      (n m : Ipv4Net)
      → prefix_len n ≤ prefix_len m
      → network n < net_end i m
      → network m < net_end i n
      → contains n m ≡ true
  contains_of_shared n m shorter h g =
      let k = 2 ^ (prefix_len m - prefix_len n) in
      let s = block_size (prefix_len m) in
      let a = i.addr n / block_size (prefix_len n) in
      let b = i.addr m / s in
      let split : block_size (prefix_len n) ≡ k * s =
        block_size_split (prefix_len n) (prefix_len m) shorter (spec.prefix_len_le m) in
      let at_n : network n ≡ a * (k * s) =
        spec.network_lem n ∙ ap (λ (t : ℕ). i.addr n / block_size (prefix_len n) * t) split in
      let at_m : network m ≡ b * s = spec.network_lem m in
      let inside = nested a b k s (omega arith) (omega arith) in
      (spec.contains_iff n m).1 (omega arith, omega arith)

  -- Nets of which neither contains the other share no address.
  pub disjoint_of_not-contains :
      (n m : Ipv4Net) → contains n m ≡ false → contains m n ≡ false → AreDisjoint i n m
  disjoint_of_not-contains n m h g = elim (dec_le (net_end i n) (network m)) [
    | yes p ↦ inl p
    | no p ↦ elim (dec_le (net_end i m) (network n)) [
      | yes q ↦ inr q
      | no q ↦ elim (dec_le (prefix_len n) (prefix_len m)) [
        | yes shorter ↦ cc (contains_of_shared n m shorter (omega arith) (omega arith))
        | no longer ↦ cc (contains_of_shared m n (omega arith) (omega arith) (omega arith))
      ]
    ]
  ]

  -- A net that contains another shares its addresses.
  pub contains-shares : (n m : Ipv4Net) → contains n m ≡ true → ¬ AreDisjoint i n m
  contains-shares n m h d =
      let inside = (spec.contains_iff n m).0 h in
      let size_n = block_size_pos (prefix_len n) in
      let size_m = block_size_pos (prefix_len m) in ground arith
