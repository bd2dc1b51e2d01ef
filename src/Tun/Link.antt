-- ===== src/Tun/Link.antt =====
-- The addresses that a node derives from ids (tun/link.rs). `hash16` stands for the first two bytes of
-- blake3, read in big-endian order, and `decimal` for the `Display` of a number.
use lightning_mesh.Prelude.{
  ℕ, true, false, ◌∷◌, ◌++◌, ◌≡◌, ◌≢◌, ◌+◌, ◌-◌, ◌*◌, ◌/◌, ◌%◌, ◌^◌, ◌<◌, arith, if◌then◌else◌,
}
use native.Mathlib.Nat.{mod-lt}
use lightning_mesh.Order.{Text, bytes, text_ord, nat_ord, ◌==◌, leb, text_cmp-IsTotalOrder}

-- `Ipv4Addr::new`
abbrev pub ipv4 : ℕ → ℕ → ℕ → ℕ → ℕ
ipv4 a b c d = a * 2 ^ 24 + b * 2 ^ 16 + c * 2 ^ 8 + d

-- The host part, kept off the network and the broadcast address.
abbrev pub clamp_host : ℕ → ℕ
clamp_host host = if host == 0 then 1 else if host == 2 ^ 16 - 1 then 2 ^ 16 - 2 else host

module _ (hash16 : Text → ℕ) (decimal : ℕ → Text) where
  unfoldable pub backhaul_addr_salted : Text → ℕ → ℕ
  backhaul_addr_salted node_id attempt =
      let host = clamp_host (
        if attempt == 0
        then hash16 node_id
        else hash16 (node_id ++ bytes "#backhaul-" ++ decimal attempt)) in
      ipv4 10 254 (host / 2 ^ 8) (host % 2 ^ 8)

  unfoldable pub backhaul_addr : Text → ℕ
  unfolding backhaul_addr_salted
  backhaul_addr node_id = backhaul_addr_salted node_id 0

-- The offset of a pair of ids: fifteen bits of the hash of the pair in order.
abbrev pub link_offset : (Text → ℕ) → Text → Text → ℕ
link_offset hash16 self_id peer_id =
    (if leb self_id peer_id
      then hash16 (self_id ++ 0 ∷ peer_id)
      else hash16 (peer_id ++ 0 ∷ self_id))
    % 2 ^ 15

-- The lower address of the /31 of an offset.
abbrev pub lower_ip : ℕ → ℕ
lower_ip offset = ipv4 10 255 (offset / 2 ^ 7 % 2 ^ 8) (offset % 2 ^ 7 * 2)

abbrev pub upper_ip : ℕ → ℕ
upper_ip offset = ipv4 10 255 (offset / 2 ^ 7 % 2 ^ 8) (offset % 2 ^ 7 * 2 + 1)

-- The address of this node and that of the peer.
unfoldable pub pick_link_31 : (Text → ℕ) → Text → Text → ℕ × ℕ
pick_link_31 hash16 self_id peer_id =
    let offset = link_offset hash16 self_id peer_id in
    if leb self_id peer_id
    then (lower_ip offset, upper_ip offset)
    else (upper_ip offset, lower_ip offset)

-- Every derived address of the backhaul is a host address of 10.254.0.0/16, whatever the attempt.
pub backhaul_addr_salted_bounds :
    (hash16 : Text → ℕ) (decimal : ℕ → Text) (node_id : Text) (attempt : ℕ)
    → ((t : Text) → hash16 t < 2 ^ 16)
    → (ipv4 10 254 0 0 < backhaul_addr_salted hash16 decimal node_id attempt)
      × (backhaul_addr_salted hash16 decimal node_id attempt < ipv4 10 254 255 255)
unfolding backhaul_addr_salted
backhaul_addr_salted_bounds hash16 decimal node_id attempt small =
    ground (arith, small node_id, small (node_id ++ bytes "#backhaul-" ++ decimal attempt))

lower_ip_lem : (offset : ℕ) → offset < 2 ^ 15 → lower_ip offset ≡ ipv4 10 255 0 0 + 2 * offset
lower_ip_lem offset small = ground arith

-- The two ends of a link derive the same pair of addresses, each with its own first.
pub pick_link_31_symm :
    (hash16 : Text → ℕ) (a b : Text)
    → a ≢ b
    → (pick_link_31 hash16 a b).0 ≡ (pick_link_31 hash16 b a).1
      × (pick_link_31 hash16 a b).1 ≡ (pick_link_31 hash16 b a).0
unfolding pick_link_31
pick_link_31_symm hash16 a b ne = ground (
  arith,
  text_cmp-IsTotalOrder.same_of_eq a b,
  text_cmp-IsTotalOrder.below_of_gt a b,
  text_cmp-IsTotalOrder.above_of_lt a b,
)

-- The addresses of a link are the two of one /31 inside 10.255.0.0/16: the even one, at twice the offset
-- of the pair, for the end with the lower id, and the next one for the other. So links of different
-- offsets share no address.
pub pick_link_31_block :
    (hash16 : Text → ℕ) (a b : Text)
    → let offset = link_offset hash16 a b in
      let even = ipv4 10 255 0 0 + 2 * offset in
      (offset < 2 ^ 15)
      × (leb a b ≡ true → pick_link_31 hash16 a b ≡ (even, even + 1))
      × (leb a b ≡ false → pick_link_31 hash16 a b ≡ (even + 1, even))
unfolding pick_link_31
pick_link_31_block hash16 a b =
    let small : link_offset hash16 a b < 2 ^ 15 = mod-lt _ (omega arith) in
    let low = lower_ip_lem (link_offset hash16 a b) small in
    (small, λ below. ground (arith, below, low), λ above. ground (arith, above, low))
