-- ===== src/Net.antt =====
-- What the daemon relies on of the crate ipnet, and the blocks of addresses that the mesh uses. An
-- IPv4 address is its number.
pub mod Blocks
use lightning_mesh.Prelude.{
  ℕ, Bool, true, false, Option, none, some, ◌≡◌, ◌↔◌, ◌+◌, ◌*◌, ◌-◌, ◌/◌, ◌^◌, ◌≤◌, ◌<◌, ◌&&◌,
}
use lightning_mesh.Order.{◌==◌, leb, nat_ord, Text}

-- The types and functions of ipnet that the program calls.
pub record Ipnet : Type 1 where
  pub IpNet : Type 0
  pub Ipv4Net : Type 0
  -- The net in `IpNet::V4`, and that constructor.
  pub as_v4 : IpNet → Option Ipv4Net
  pub from_v4 : Ipv4Net → IpNet
  -- `Ipv4Net::new(addr, prefix_len)`
  pub new_net : ℕ → ℕ → Option Ipv4Net
  pub addr : Ipv4Net → ℕ
  pub prefix_len : Ipv4Net → ℕ
  pub network : Ipv4Net → ℕ
  pub contains : Ipv4Net → Ipv4Net → Bool
  -- `Display`
  pub to_text : IpNet → Text

-- The number of addresses under a prefix length.
abbrev pub block_size : ℕ → ℕ
block_size p = 2 ^ (32 - p)

-- The documented behaviour of ipnet.
pub record IsIpnet (i : Ipnet) : Type 0 where
  pub as_v4-from_v4 : (n : i.Ipv4Net) → i.as_v4 (i.from_v4 n) ≡ some n
  pub new_net_some :
      (a p : ℕ)
      → a < 2 ^ 32
      → p ≤ 32
      → (n : i.Ipv4Net) × (i.new_net a p ≡ some n) × (i.addr n ≡ a) × (i.prefix_len n ≡ p)
  pub prefix_len_le : (n : i.Ipv4Net) → i.prefix_len n ≤ 32
  pub addr_lt : (n : i.Ipv4Net) → i.addr n < 2 ^ 32
  pub network_lem :
      (n : i.Ipv4Net)
      → i.network n ≡ i.addr n / block_size (i.prefix_len n) * block_size (i.prefix_len n)
  pub contains_iff :
      (n m : i.Ipv4Net)
      → (i.contains n m ≡ true) ↔ (
          (i.network n ≤ i.network m)
          × (i.network m + block_size (i.prefix_len m) ≤ i.network n + block_size (i.prefix_len n)))

-- `in_backhaul_block` (tun/link.rs): a net inside 10.254.0.0/16.
unfoldable pub in_backhaul_block : (i : Ipnet) → i.Ipv4Net → Bool
in_backhaul_block i net = leb 16 (i.prefix_len net) && i.network net / 2 ^ 16 == 10 * 256 + 254
