-- ===== src/Tests/Common.antt =====
-- Data that the tests share, and an instance of what the daemon relies on of ipnet.
use lightning_mesh.Prelude.{
  ℕ, ◌&&◌, Option, none, some, [], ◌∷◌, ◌≢◌, refl, ap, ◌+◌, ◌*◌, ◌/◌, ◌%◌, ◌^◌, arith,
  if◌then◌else◌,
}
use Prim.Native.Nat.{min}
use native.Mathlib.Nat.{mod-eq_of_lt, mod-lt}
use lightning_mesh.Order.{Text, leb, nat_ord}
use lightning_mesh.Net.{Ipnet, IsIpnet, block_size}
use lightning_mesh.Crdt.Hlc.{Hlc}
use lightning_mesh.Crdt.Entries.{v4, ServiceEntryV2, LeasedName, UserEntry}

-- A net is an address and a length; `none` stands for a net of IPv6.
abbrev pub nets : Ipnet
nets = record {
  IpNet = Option (ℕ × ℕ);
  Ipv4Net = ℕ × ℕ;
  as_v4 = λ n. n;
  from_v4 = λ n. some n;
  new_net = λ a p. if leb p 32 then some (a, p) else none;
  addr = λ n. n.0 % 2 ^ 32;
  prefix_len = λ n. min n.1 32;
  network = λ n. n.0 % 2 ^ 32 / block_size (min n.1 32) * block_size (min n.1 32);
  contains = λ n m.
      leb (n.0 % 2 ^ 32 / block_size (min n.1 32) * block_size (min n.1 32))
        (m.0 % 2 ^ 32 / block_size (min m.1 32) * block_size (min m.1 32))
      && leb
          (m.0 % 2 ^ 32 / block_size (min m.1 32) * block_size (min m.1 32)
            + block_size (min m.1 32))
          (n.0 % 2 ^ 32 / block_size (min n.1 32) * block_size (min n.1 32)
            + block_size (min n.1 32));
  to_text = λ n. elim n [ none ↦ [] | some (a, p) ↦ a ∷ p ∷ [] ];
}

pub nets-IsIpnet : IsIpnet nets
nets-IsIpnet = record {
  as_v4-from_v4 = λ n. refl;
  new_net_some = λ a p low valid. ((a, p), ground arith, mod-eq_of_lt low, ground arith);
  prefix_len_le = λ n. ground arith;
  addr_lt = λ n. mod-lt n.0 (omega arith);
  network_lem = λ n. refl;
  contains_iff = λ n m. (λ h. ground arith, λ h. ground arith);
}

abbrev pub stamp : ℕ → Hlc
stamp t = record { wall_clock = t; counter = 0; node_id = [] }

abbrev pub service_of : Text → ℕ → ℕ → ServiceEntryV2
service_of owner claimed updated = record {
  owner_node_id = owner;
  first_claimed_at = stamp claimed;
  updated_at = stamp updated;
  ip = v4 7;
  port = 80;
  protocol = [];
  txt = [];
  host_mac = none;
}

abbrev pub name_of : Text → ℕ → ℕ → LeasedName
name_of key claimed renewed = record {
  owner_pubkey = key;
  sig = [];
  challenge = [];
  ip = v4 7;
  port = 80;
  scheme = none;
  first_claimed_at = stamp claimed;
  renewed_at = stamp renewed;
}

abbrev pub user_of : Text → ℕ → UserEntry
user_of name at = record {
  username = name;
  display_name = name;
  registered_by = 9 ∷ [];
  attrs = [];
  updated_at = stamp at;
}

-- Node ids and names.
abbrev pub alpha : Text
alpha = 97 ∷ []

abbrev pub beta : Text
beta = 98 ∷ []

abbrev pub gamma : Text
gamma = 99 ∷ []

first_byte : Text → ℕ
first_byte [] = 0
first_byte (b ∷ bs) = b

pub alpha_ne_beta : alpha ≢ beta
unfolding first_byte
alpha_ne_beta e = omega (arith, ap first_byte e)

pub beta_ne_gamma : beta ≢ gamma
unfolding first_byte
beta_ne_gamma e = omega (arith, ap first_byte e)

pub alpha_ne_gamma : alpha ≢ gamma
unfolding first_byte
alpha_ne_gamma e = omega (arith, ap first_byte e)

-- The name of a service.
abbrev pub wiki : Text
wiki = 119 ∷ []
