-- ===== src/Crdt/Entries.antt =====
-- The records of the replicated books: crdt/lease.rs, dns.rs, subnet.rs, peer_addr.rs, users.rs,
-- node_name.rs, service.rs and leased_name.rs. A map of texts is a book, and `IpNet` of the crate
-- ipnet is a type parameter.
use lightning_mesh.Prelude.{ℕ, Option, List}
use lightning_mesh.Order.{Text}
use lightning_mesh.Book.{Book}
use lightning_mesh.Crdt.Hlc.{Hlc}

-- `std::net::IpAddr`: an address is its number.
pub data IpAddr : Type 0 where
  v4 : ℕ → IpAddr
  v6 : ℕ → IpAddr

-- `std::net::SocketAddr`
pub record SocketAddr : Type 0 where
  pub ip : IpAddr
  pub port : ℕ

-- `[u8; 6]`
pub record Mac : Type 0 where
  pub octet0 : ℕ
  pub octet1 : ℕ
  pub octet2 : ℕ
  pub octet3 : ℕ
  pub octet4 : ℕ
  pub octet5 : ℕ

pub record LeaseEntry : Type 0 where
  pub mac : Mac
  pub ip : IpAddr
  pub hostname : Option Text
  pub router_id : Text
  pub expiry : ℕ
  pub hlc : Hlc

pub record DnsEntry : Type 0 where
  pub ip : IpAddr
  pub mac : Mac

pub record SubnetClaim (Net : Type 0) : Type 0 where
  pub cidr : Net
  pub owner_node_id : Text
  pub site_name : Option Text
  pub claimed_at : Hlc

pub record PeerAddrEntry : Type 0 where
  pub node_id : Text
  pub direct_addrs : List SocketAddr
  pub relay_url : Option Text
  pub announced_at : Hlc

pub record UserEntry : Type 0 where
  pub username : Text
  pub display_name : Text
  pub registered_by : Text
  pub attrs : Book Text Text
  pub updated_at : Hlc

pub record NodeNameEntry : Type 0 where
  pub node_id : Text
  pub name : Text
  pub announced_at : Hlc

pub record ServiceEntry : Type 0 where
  pub hostname : Text
  pub ip : IpAddr
  pub port : ℕ
  pub protocol : Text
  pub txt : Book Text Text
  pub host_mac : Mac
  pub updated_at : Hlc

pub record ServiceEntryV2 : Type 0 where
  pub owner_node_id : Text
  pub first_claimed_at : Hlc
  pub updated_at : Hlc
  pub ip : IpAddr
  pub port : ℕ
  pub protocol : Text
  pub txt : Book Text Text
  pub host_mac : Option Mac

pub record ServiceTombstone : Type 0 where
  pub owner_node_id : Text
  pub hlc : Hlc

pub record LostName : Type 0 where
  pub winner_node_id : Text
  pub hlc : Hlc

pub record LeasedName : Type 0 where
  pub owner_pubkey : Text
  pub sig : Text
  pub challenge : Text
  pub ip : IpAddr
  pub port : ℕ
  pub scheme : Option Text
  pub first_claimed_at : Hlc
  pub renewed_at : Hlc

abbrev pub AddrBook : Type 0
AddrBook = Book Text PeerAddrEntry

abbrev pub UserBook : Type 0
UserBook = Book Text UserEntry

abbrev pub NodeNameBook : Type 0
NodeNameBook = Book Text NodeNameEntry

abbrev pub ServiceBook : Type 0
ServiceBook = Book Text ServiceEntry

abbrev pub ServiceBookV2 : Type 0
ServiceBookV2 = Book Text ServiceEntryV2

abbrev pub ServiceTombstoneBook : Type 0
ServiceTombstoneBook = Book Text ServiceTombstone

abbrev pub LostNameMap : Type 0
LostNameMap = Book Text LostName

abbrev pub LeasedNameBook : Type 0
LeasedNameBook = Book Text LeasedName
