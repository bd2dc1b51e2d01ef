-- ===== src/Daemon/Overlay/Routes.antt =====
-- Where the reader of mjolnir0 sends a packet.
use lightning_mesh.Prelude.{
  ℕ, suc, none, some, List, [], ◌∷◌, ◌++◌, length, ◌≡◌, refl, ap, sym, arith, inl, inr, ◌⊎◌, ◌/◌,
  ◌^◌, ◌≤◌, ◌<◌, Option-cases,
}
use lightning_mesh.Order.{Text, text_cmp, nat_ord, text_ord}
use lightning_mesh.Book.{get}
use lightning_mesh.Tun.Link.{ipv4, backhaul_addr, backhaul_addr_salted_bounds}
use lightning_mesh.Tun.Fib.{Fib}
use lightning_mesh.Tun.Mcast.{slice, prefix_of, unicast, classify}
use lightning_mesh.Tun.Overlay.{route_packet, spawn_overlay_routed}
use lightning_mesh.Daemon.Overlay.{
  ConnManager, addr_of, conn_at, all, resolve, next_hop, read_packet, overlay_reader,
  overlay_link_local,
}
use lightning_mesh.Daemon.Overlay.Index.{IsIndexed}

prefix_of-append : (p s : Text) → prefix_of (length p) (p ++ s) ≡ some p
unfolding prefix_of
prefix_of-append [] s = refl
prefix_of-append (b ∷ p) s = rw (prefix_of, prefix_of-append p s) refl

slice-append : (h p s : Text) → slice (length h) (length p) (h ++ (p ++ s)) ≡ some p
unfolding slice
slice-append [] p s = prefix_of-append p s
slice-append (b ∷ h) p s = slice-append h p s

slice_at :
    (h p s : Text) (n k : ℕ) → length h ≡ n → length p ≡ k → slice n k (h ++ (p ++ s)) ≡ some p
slice_at h p s n k e f = rw (sym e, sym f) (slice-append h p s)

-- The addresses of the backhaul's block, 10.254.0.0/16.
abbrev pub InBackhaul : ℕ → Type 0
InBackhaul a = (ipv4 10 254 0 0 ≤ a) × (a ≤ ipv4 10 254 255 255)

-- A packet to a node's link-local address has the node's overlay address as its next hop, whatever the routes are.
pub next_hop-overlay_link_local :
    (fib : Fib) (b : ℕ) (rest_of_header : Text) (a : ℕ) (payload : Text)
    → b / 2 ^ 4 ≡ 6
    → length rest_of_header ≡ 23
    → InBackhaul a
    → next_hop fib (b ∷ rest_of_header ++ (overlay_link_local a ++ payload)) ≡ some a
unfolding next_hop overlay_link_local
next_hop-overlay_link_local fib b header a payload six long inside =
    let found : slice 24 16 (b ∷ header ++ (overlay_link_local a ++ payload))
        ≡ some (overlay_link_local a) =
      slice_at (b ∷ header) (overlay_link_local a) payload 24 16 (ap suc long) refl in
    rw (six, found) (ap some (omega arith))

module _ {C : Type 0} (m : ConnManager C) (fib : Fib) where
  -- Each packet at the manager and the table.
  abbrev pub reads : List Text → List (ConnManager C × Fib × Text)
  reads [] = []
  reads (pkt ∷ pkts) = (m, fib, pkt) ∷ reads pkts

  -- While no peer joins or leaves and no route changes, the daemon's reader sends what the library's
  -- routed overlay sends with the daemon's router and all connections to flood.
  pub overlay_reader-routed :
      (pkts : List Text)
      → overlay_reader (reads pkts) ≡ spawn_overlay_routed (all m) (resolve fib m) pkts
  unfolding overlay_reader spawn_overlay_routed read_packet route_packet
  overlay_reader-routed [] = refl
  overlay_reader-routed (pkt ∷ pkts) =
      ap (λ t. route_packet (all m) (resolve fib m) pkt ++ t) (overlay_reader-routed pkts)

  -- A unicast packet is sent on one connection at most: the one found at its next hop. It is dropped
  -- where it has no next hop, or no connection is found there.
  pub read_packet_unicast :
      (pkt : Text)
      → classify pkt ≡ some unicast
      → ((read_packet m fib pkt ≡ [])
          × ((nh : ℕ) → next_hop fib pkt ≡ some nh → conn_at m nh ≡ none))
        ⊎ ((nh : ℕ) × (conn : C) × (next_hop fib pkt ≡ some nh)
            × (conn_at m nh ≡ some conn)
            × (read_packet m fib pkt ≡ (conn, pkt) ∷ []))
  unfolding read_packet resolve
  read_packet_unicast pkt u = elim (Option-cases (next_hop fib pkt)) [
    | inl e ↦ inl (ground arith, λ nh h. ground arith)
    | inr (nh, e) ↦ elim (Option-cases (conn_at m nh)) [
      | inl f ↦ inl (ground arith, λ nh' h. ground arith)
      | inr (conn, f) ↦ inr (nh, conn, e, f, ground arith)
    ]
  ]

  -- A packet of IPv4 to an address of the backhaul's block is sent on no connection.
  pub read_packet_backhaul :
      (b : ℕ) (rest_of_header payload : Text) (x y : ℕ)
      → b / 2 ^ 4 ≡ 4
      → length rest_of_header ≡ 15
      → let pkt = b ∷ rest_of_header ++ (10 ∷ 254 ∷ x ∷ y ∷ payload) in read_packet m fib pkt ≡ []
  unfolding read_packet resolve next_hop classify text_cmp
  read_packet_backhaul b header payload x y four long =
      let found : slice 16 4 (b ∷ header ++ (10 ∷ 254 ∷ x ∷ y ∷ payload))
          ≡ some (10 ∷ 254 ∷ x ∷ y ∷ []) =
        slice_at (b ∷ header) (10 ∷ 254 ∷ x ∷ y ∷ []) payload 16 4 (ap suc long) refl in
      rw (read_packet, classify, four, found, resolve, next_hop, four, found) refl

backhaul_addr_inside :
    (hash16 : Text → ℕ) (decimal : ℕ → Text) (peer : Text)
    → ((t : Text) → hash16 t < 2 ^ 16)
    → InBackhaul (addr_of hash16 decimal peer)
unfolding backhaul_addr
backhaul_addr_inside hash16 decimal peer small =
    let (low, high) = backhaul_addr_salted_bounds hash16 decimal peer 0 small in
    (omega arith, omega arith)

-- A connected peer's link-local address, by which babel speaks to it: a packet to it of IPv6 is sent on
-- that peer's connection and no other, while the indexes of the manager are in step.
pub read_packet-overlay_link_local :
    (hash16 : Text → ℕ) (decimal : ℕ → Text) {C : Type 0} (m : ConnManager C) (fib : Fib)
    (peer : Text) (conn : C) (b : ℕ) (rest_of_header payload : Text)
    → ((t : Text) → hash16 t < 2 ^ 16)
    → IsIndexed hash16 decimal m
    → get m.by_peer peer ≡ some conn
    → b / 2 ^ 4 ≡ 6
    → length rest_of_header ≡ 23
    → let pkt =
        b ∷ rest_of_header ++ (overlay_link_local (addr_of hash16 decimal peer) ++ payload) in
      read_packet m fib pkt ≡ (conn, pkt) ∷ []
unfolding overlay_link_local read_packet resolve classify conn_at
read_packet-overlay_link_local hash16 decimal m fib peer conn b header payload small w held six
      long =
    let a = addr_of hash16 decimal peer in
    let bounds : InBackhaul a = backhaul_addr_inside hash16 decimal peer small in
    let nh = next_hop-overlay_link_local fib b header a payload six long bounds in
    let found : slice 24 16 (b ∷ header ++ (overlay_link_local a ++ payload))
        ≡ some (overlay_link_local a) =
      slice_at (b ∷ header) (overlay_link_local a) payload 24 16 (ap suc long) refl in
    rw (read_packet, classify, six, found, resolve, nh, conn_at, w.reachable peer conn held) refl
