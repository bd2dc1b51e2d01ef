-- ===== src/Daemon/Overlay.antt =====
-- The overlay's data plane (meshd): the connections by peer and by address, the router, and the reader
-- of mjolnir0. A connection is of any type, and an `EndpointId` is its text. The order in which a
-- `HashMap` gives its values is that of the peers.
pub mod Index
pub mod Routes
use lightning_mesh.Prelude.{
  ℕ, Bool, true, false, ◌&&◌, Option, none, some, ◌>>=◌, List, [], ◌∷◌, ◌++◌, ◌+◌, ◌*◌, ◌/◌, ◌%◌,
  ◌^◌, if◌then◌else◌,
}
use lightning_mesh.Order.{Text, ◌==◌, nat_ord, text_ord}
use lightning_mesh.Book.{Book, get, insert, remove}
use lightning_mesh.Tun.Link.{ipv4, backhaul_addr}
use lightning_mesh.Tun.Fib.{Fib, lookup}
use lightning_mesh.Tun.Mcast.{first, slice, multicast, unicast, classify}
use lightning_mesh.Tun.Overlay.{Sent, UnicastRouter, send_all}

-- `overlay_link_local` (tun/iface.rs), in bytes.
unfoldable pub overlay_link_local : ℕ → Text
overlay_link_local self_addr =
    0xfe
    ∷ 0x80
    ∷ 0
    ∷ 0
    ∷ 0
    ∷ 0
    ∷ 0
    ∷ 0
    ∷ 0
    ∷ 0
    ∷ 0
    ∷ 0
    ∷ 0
    ∷ 0
    ∷ self_addr / 2 ^ 8 % 2 ^ 8
    ∷ self_addr % 2 ^ 8
    ∷ []

-- The next hop of a destination of version 4, from its four bytes.
abbrev pub next_hop_v4 : Fib → Text → Option ℕ
next_hop_v4 fib (a ∷ b ∷ c ∷ d ∷ []) =
    if a == 10 && b == 254 then none else lookup fib (ipv4 a b c d)
next_hop_v4 fib _ = none

-- The next hop of a destination of version 6, from its sixteen bytes.
abbrev pub next_hop_v6 : Text → Option ℕ
next_hop_v6 (a ∷ b ∷ _ ∷ _ ∷ _ ∷ _ ∷ _ ∷ _ ∷ _ ∷ _ ∷ _ ∷ _ ∷ _ ∷ _ ∷ o ∷ p ∷ []) =
    if a * 2 ^ 8 + b == 0xfe80
    then (let host = o * 2 ^ 8 + p in some (ipv4 10 254 (host / 2 ^ 8) (host % 2 ^ 8)))
    else none
next_hop_v6 _ = none

unfoldable pub next_hop : Fib → Text → Option ℕ
next_hop fib packet = elim (first packet) [
  | none ↦ none
  | some b ↦
      if b / 2 ^ 4 == 4
      then elim (slice 16 4 packet) [ none ↦ none | some d ↦ next_hop_v4 fib d ]
      else if b / 2 ^ 4 == 6
      then elim (slice 24 16 packet) [ none ↦ none | some d ↦ next_hop_v6 d ]
      else none
]

-- `ConnManagerInner`
pub record ConnManager (C : Type 0) : Type 0 where
  pub by_peer : Book Text C
  pub by_addr : Book ℕ C

unfoldable pub new_manager : {C : Type 0} → ConnManager C
new_manager = record { by_peer = []; by_addr = [] }

module _ {C : Type 0} where
  -- `ConnManager::by_addr`
  unfoldable pub conn_at : ConnManager C → ℕ → Option C
  conn_at m addr = get m.by_addr addr

  abbrev pub values : Book Text C → List C
  values [] = []
  values ((peer, conn) ∷ m) = conn ∷ values m

  unfoldable pub all : ConnManager C → List C
  all m = values m.by_peer

  -- `OverlayRouter::resolve`
  unfoldable pub resolve : Fib → ConnManager C → UnicastRouter C
  unfolding next_hop conn_at
  resolve fib m packet = elim (next_hop fib packet) [ none ↦ none | some nh ↦ conn_at m nh ]

  -- One round of the reader, with the table and the connections of that time.
  unfoldable pub read_packet : ConnManager C → Fib → Text → Sent C
  unfolding all resolve
  read_packet m fib pkt = elim (classify pkt) [
    | none ↦ []
    | some multicast ↦ send_all (all m) pkt
    | some unicast ↦ elim (resolve fib m pkt) [ none ↦ [] | some conn ↦ (conn, pkt) ∷ [] ]
  ]

  -- The reader, over the packets with what holds when each is read, until the TUN is closed.
  unfoldable pub overlay_reader : List (ConnManager C × Fib × Text) → Sent C
  unfolding read_packet
  overlay_reader [] = []
  overlay_reader ((m, fib, pkt) ∷ reads) = read_packet m fib pkt ++ overlay_reader reads

abbrev pub addr_of : (Text → ℕ) → (ℕ → Text) → Text → ℕ
addr_of hash16 decimal peer = backhaul_addr hash16 decimal peer

module _ (hash16 : Text → ℕ) (decimal : ℕ → Text) {C : Type 0} where
  -- The manager afterwards, and whether the connection was taken.
  unfoldable pub register : ConnManager C → Text → C → ConnManager C × Bool
  register m peer conn = elim (get m.by_peer peer) [
    | some _ ↦ (m, false)
    | none ↦ (
      record {
        by_peer = insert m.by_peer peer conn;
        by_addr = insert m.by_addr (addr_of hash16 decimal peer) conn;
      },
      true,
    )
  ]

  unfoldable pub deregister : ConnManager C → Text → ConnManager C
  deregister m peer = record {
    by_peer = remove m.by_peer peer;
    by_addr = remove m.by_addr (addr_of hash16 decimal peer);
  }
