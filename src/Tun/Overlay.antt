-- ===== src/Tun/Overlay.antt =====
-- The reader of the overlay TUN (tun/overlay.rs): which connections carry each packet that is read.
-- A send is best effort: what a failed send loses is not modelled.
use lightning_mesh.Prelude.{ℕ, Option, none, some, List, [], ◌∷◌, ◌++◌}
use lightning_mesh.Tun.Mcast.{multicast, unicast, classify}

-- A datagram on a connection.
abbrev pub Sent : Type 0 → Type 0
Sent C = List (C × List ℕ)

-- The trait `UnicastRouter`.
abbrev pub UnicastRouter : Type 0 → Type 0
UnicastRouter C = List ℕ → Option C

module _ {C : Type 0} where
  -- `for conn in conns`
  abbrev pub send_all : List C → List ℕ → Sent C
  send_all [] pkt = []
  send_all (conn ∷ conns) pkt = (conn, pkt) ∷ send_all conns pkt

  -- The packets that are read, until the TUN is closed.
  unfoldable pub spawn_overlay : List C → List (List ℕ) → Sent C
  spawn_overlay conns [] = []
  spawn_overlay conns (pkt ∷ pkts) =
      let rest = spawn_overlay conns pkts in
      elim (classify pkt) [ none ↦ rest | some _ ↦ send_all conns pkt ++ rest ]

  unfoldable pub route_packet : List C → UnicastRouter C → List ℕ → Sent C
  route_packet flood_conns router pkt = elim (classify pkt) [
    | none ↦ []
    | some multicast ↦ send_all flood_conns pkt
    | some unicast ↦ elim (router pkt) [ none ↦ [] | some conn ↦ (conn, pkt) ∷ [] ]
  ]

  unfoldable pub spawn_overlay_routed : List C → UnicastRouter C → List (List ℕ) → Sent C
  unfolding route_packet
  spawn_overlay_routed flood_conns router [] = []
  spawn_overlay_routed flood_conns router (pkt ∷ pkts) =
      route_packet flood_conns router pkt ++ spawn_overlay_routed flood_conns router pkts
