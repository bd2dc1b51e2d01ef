-- ===== src/Tests/Overlay.antt =====
-- The overlay's data plane and the ranking of candidates at concrete inputs.
use lightning_mesh.Prelude.{
  ℕ, true, false, none, some, [], ◌∷◌, ◌++◌, ◌≡◌, ◌⊎◌, refl, arith, ◌≤◌, length,
}
use lightning_mesh.Order.{Text, text_cmp, text_ord, nat_ord}
use lightning_mesh.Book.{get, insert}
use lightning_mesh.Crdt.Entries.{PeerAddrEntry, AddrBook}
use lightning_mesh.Tun.Link.{backhaul_addr}
use lightning_mesh.Tun.Fib.{Fib}
use lightning_mesh.Daemon.Overlay.{
  ConnManager, new_manager, addr_of, register, deregister, conn_at, read_packet, overlay_link_local,
}
use lightning_mesh.Daemon.Overlay.Index.{
  IsIndexed, new_manager-IsIndexed, register-IsIndexed, colliding_peer-cuts_off,
}
use lightning_mesh.Daemon.Overlay.Routes.{read_packet-overlay_link_local}
use lightning_mesh.Bootstrap.{has_id, rank_bootstrap_candidates}
use lightning_mesh.Bootstrap.Ranks.{Distinct}
use lightning_mesh.Bootstrap.Tiers.{is_candidate, rank_bootstrap_candidates_lem}
use lightning_mesh.Tests.Common.{stamp, alpha, beta, gamma}
use lightning_mesh.Tests.Dns.{tracker}

-- Every id has the same hash.
abbrev hash16 : Text → ℕ
hash16 s = 5

abbrev decimal : ℕ → Text
decimal n = []

-- A connection is its number.
abbrev empty : ConnManager ℕ
empty = new_manager

no_peers :
    (q : Text) (d : ℕ)
    → get empty.by_peer q ≡ some d
    → addr_of hash16 decimal alpha ≡ addr_of hash16 decimal q
    → alpha ≡ q
unfolding new_manager get
no_peers q d h e = absurd (cc h)

register-IsIndexed_example :
    let (m', taken) = register hash16 decimal empty alpha 1 in
    IsIndexed hash16 decimal m'
    × (((taken ≡ false) × (m' ≡ empty) × (held : ℕ) × (get empty.by_peer alpha ≡ some held))
        ⊎ ((taken ≡ true)
            × (get empty.by_peer alpha ≡ none)
            × (conn_at m' (addr_of hash16 decimal alpha) ≡ some 1)))
register-IsIndexed_example =
    register-IsIndexed hash16 decimal empty alpha 1 (new_manager-IsIndexed hash16 decimal) no_peers

abbrev joined : ConnManager ℕ
joined = (register hash16 decimal empty alpha 1).0

joined-IsIndexed : IsIndexed hash16 decimal joined
joined-IsIndexed =
    (register-IsIndexed hash16 decimal empty alpha 1 (new_manager-IsIndexed hash16 decimal)
      no_peers).0

on : get joined.by_peer alpha ≡ some 1
unfolding register new_manager get insert text_cmp
on = refl

off : get joined.by_peer beta ≡ none
unfolding register new_manager get insert text_cmp
off = refl

collide : addr_of hash16 decimal alpha ≡ addr_of hash16 decimal beta
unfolding backhaul_addr
collide = refl

colliding_peer-cuts_off_example :
    let m' = deregister hash16 decimal (register hash16 decimal joined beta 2).0 beta in
    (get m'.by_peer alpha ≡ some 1) × (conn_at m' (addr_of hash16 decimal alpha) ≡ none)
colliding_peer-cuts_off_example =
    colliding_peer-cuts_off hash16 decimal joined alpha beta 1 2 collide on off

abbrev no_routes : Fib
no_routes = []

abbrev header : Text
header =
    0 ∷ 0 ∷ 0 ∷ 0 ∷ 0 ∷ 0 ∷ 0 ∷ 0 ∷ 0 ∷ 0 ∷ 0 ∷ 0 ∷ 0 ∷ 0 ∷ 0 ∷ 0 ∷ 0 ∷ 0 ∷ 0 ∷ 0 ∷ 0 ∷ 0 ∷ 0 ∷ []

read_packet-overlay_link_local_example :
    let pkt = 0x60 ∷ header ++ (overlay_link_local (addr_of hash16 decimal alpha) ++ 1 ∷ []) in
    read_packet joined no_routes pkt ≡ (1, pkt) ∷ []
read_packet-overlay_link_local_example =
    read_packet-overlay_link_local hash16 decimal joined no_routes alpha 1 0x60 header (1 ∷ [])
      (λ t. omega arith) joined-IsIndexed on refl refl

abbrev entry : PeerAddrEntry
entry = record { node_id = beta; direct_addrs = []; relay_url = none; announced_at = stamp 5 }

abbrev addrs : AddrBook
addrs = (beta, entry) ∷ []

rank_bootstrap_candidates_lem_example :
    let ranked =
      rank_bootstrap_candidates
        (alpha ∷ gamma ∷ alpha ∷ [])
        addrs
        (beta ∷ [])
        tracker
        gamma
        120
        2 in
    (length ranked ≤ 2)
    × Distinct ranked
    × ((q : Text)
        → has_id q ranked ≡ true
        → is_candidate (alpha ∷ gamma ∷ alpha ∷ []) addrs (beta ∷ []) tracker gamma 120 q ≡ true)
    × ((q : Text)
        → is_candidate (alpha ∷ gamma ∷ alpha ∷ []) addrs (beta ∷ []) tracker gamma 120 q ≡ true
        → (has_id q ranked ≡ true) ⊎ (2 ≤ length ranked))
rank_bootstrap_candidates_lem_example =
    rank_bootstrap_candidates_lem (alpha ∷ gamma ∷ alpha ∷ []) addrs (beta ∷ []) tracker gamma 120 2
