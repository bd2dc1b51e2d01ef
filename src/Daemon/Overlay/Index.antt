-- ===== src/Daemon/Overlay/Index.antt =====
-- The two indexes of the connection manager.
use lightning_mesh.Prelude.{
  ℕ, true, false, none, some, ◌≡◌, refl, sym, arith, inl, inr, ◌⊎◌, Bool-cases, Option-cases,
}
use lightning_mesh.Order.{Text, ◌==◌, nat_ord, text_ord, eq_of_==, ==_of_eq, ==_refl}
use lightning_mesh.Book.{get, insert, get-insert, get-remove, get-insert_self}
use lightning_mesh.Daemon.Overlay.{ConnManager, new_manager, addr_of, register, deregister, conn_at}

module _ (hash16 : Text → ℕ) (decimal : ℕ → Text) where
  abbrev at : Text → ℕ
  at peer = addr_of hash16 decimal peer

module _ (hash16 : Text → ℕ) (decimal : ℕ → Text) {C : Type 0} where
  -- The two indexes hold the same connections, and the connected peers have distinct addresses.
  pub record IsIndexed (m : ConnManager C) : Type 0 where
    pub reachable :
        (peer : Text) (conn : C)
        → get m.by_peer peer ≡ some conn
        → get m.by_addr (at hash16 decimal peer) ≡ some conn
    pub owned :
        (addr : ℕ) (conn : C)
        → get m.by_addr addr ≡ some conn
        → (peer : Text) × (get m.by_peer peer ≡ some conn) × (at hash16 decimal peer ≡ addr)
    pub apart :
        (p q : Text) (c d : C)
        → get m.by_peer p ≡ some c
        → get m.by_peer q ≡ some d
        → at hash16 decimal p ≡ at hash16 decimal q
        → p ≡ q

  pub new_manager-IsIndexed : IsIndexed new_manager
  unfolding new_manager get
  new_manager-IsIndexed = record {
    reachable = λ peer conn h. cc;
    owned = λ addr conn h. absurd (cc h);
    apart = λ p q c d h k e. absurd (cc h);
  }

  -- No peer that is connected has the address of another one.
  abbrev NoCollision : ConnManager C → Text → Type 0
  NoCollision m peer =
      (q : Text) (d : C)
      → get m.by_peer q ≡ some d
      → at hash16 decimal peer ≡ at hash16 decimal q
      → peer ≡ q

  with_peer : ConnManager C → Text → C → ConnManager C
  with_peer m peer conn = record {
    by_peer = insert m.by_peer peer conn;
    by_addr = insert m.by_addr (at hash16 decimal peer) conn;
  }

  inserted-IsIndexed :
      (m : ConnManager C) (peer : Text) (conn : C)
      → IsIndexed m
      → get m.by_peer peer ≡ none
      → NoCollision m peer
      → IsIndexed (with_peer m peer conn)
  unfolding with_peer
  inserted-IsIndexed m peer conn w vacant free = record {
    reachable = λ q c h. ground (
      arith,
      get-insert m.by_peer peer q conn,
      get-insert m.by_addr (at hash16 decimal peer) (at hash16 decimal q) conn,
      w.reachable q c,
      free q c,
      eq_of_== peer q,
      eq_of_== (at hash16 decimal peer) (at hash16 decimal q),
      ==_refl q,
      ==_refl (at hash16 decimal q),
    );
    owned = λ addr c h. elim (Bool-cases (at hash16 decimal peer == addr)) [
      | inl e ↦ (
        peer,
        ground (
          arith,
          get-insert_self m.by_peer peer conn,
          get-insert m.by_addr (at hash16 decimal peer) addr conn,
        ),
        eq_of_== (at hash16 decimal peer) addr e,
      )
      | inr e ↦
          let old : get m.by_addr addr ≡ some c =
            ground (arith, get-insert m.by_addr (at hash16 decimal peer) addr conn) in
          let (q, held, a) = w.owned addr c old in
          (q, ground (arith, get-insert m.by_peer peer q conn, eq_of_== peer q), a)
    ];
    apart = λ p q c d h k e. ground (
      arith,
      get-insert m.by_peer peer p conn,
      get-insert m.by_peer peer q conn,
      eq_of_== peer p,
      eq_of_== peer q,
      free p c,
      free q d,
      w.apart p q c d,
    );
  }

  -- Registering a connection keeps the two indexes in step, if no connected peer has the address of the new
  -- one: the manager stays well formed. A second connection of a connected peer is refused and changes nothing; any other is
  -- taken, and is then the one that is found at the peer's address.
  pub register-IsIndexed :
      (m : ConnManager C) (peer : Text) (conn : C)
      → IsIndexed m
      → NoCollision m peer
      → let (m', taken) = register hash16 decimal m peer conn in
        IsIndexed m'
        × (((taken ≡ false) × (m' ≡ m) × (held : C) × (get m.by_peer peer ≡ some held))
            ⊎ ((taken ≡ true)
                × (get m.by_peer peer ≡ none)
                × (conn_at m' (addr_of hash16 decimal peer) ≡ some conn)))
  unfolding register with_peer conn_at
  register-IsIndexed m peer conn w free = elim (Option-cases (get m.by_peer peer)) [
    | inr (held, e) ↦ rw (register, e) (w, inl (refl, refl, held, refl))
    | inl e ↦
        rw (register, e)
          (
            inserted-IsIndexed m peer conn w e free,
            inr (refl, refl, get-insert_self m.by_addr (at hash16 decimal peer) conn),
          )
  ]

  -- Removing a connected peer keeps the two indexes in step.
  pub deregister-IsIndexed :
      (m : ConnManager C) (peer : Text) (c : C)
      → IsIndexed m
      → get m.by_peer peer ≡ some c
      → IsIndexed (deregister hash16 decimal m peer)
  unfolding deregister
  deregister-IsIndexed m peer c w held = record {
    reachable = λ q conn h. ground (
      arith,
      get-remove m.by_peer peer q,
      get-remove m.by_addr (at hash16 decimal peer) (at hash16 decimal q),
      w.reachable q conn,
      w.apart peer q c conn held,
      eq_of_== peer q,
      eq_of_== (at hash16 decimal peer) (at hash16 decimal q),
      ==_refl q,
    );
    owned = λ addr conn h.
        let old : get m.by_addr addr ≡ some conn =
          ground (arith, get-remove m.by_addr (at hash16 decimal peer) addr) in
        let (q, on, a) = w.owned addr conn old in
        (
          q,
          ground (
            arith,
            get-remove m.by_peer peer q,
            get-remove m.by_addr (at hash16 decimal peer) addr,
            eq_of_== peer q,
            ==_of_eq (at hash16 decimal q) addr a,
          ),
          a,
        );
    apart = λ p q c d h k e.
        w.apart p q c d (ground (arith, get-remove m.by_peer peer p))
          (ground (arith, get-remove m.by_peer peer q)) e;
  }

  -- Where a peer with the address of a connected one joins and leaves again, the first peer stays
  -- connected, but no connection is found at its address any more.
  pub colliding_peer-cuts_off :
      (m : ConnManager C) (p q : Text) (c d : C)
      → addr_of hash16 decimal p ≡ addr_of hash16 decimal q
      → get m.by_peer p ≡ some c
      → get m.by_peer q ≡ none
      → let m' = deregister hash16 decimal (register hash16 decimal m q d).0 q in
        (get m'.by_peer p ≡ some c) × (conn_at m' (addr_of hash16 decimal p) ≡ none)
  unfolding register deregister conn_at
  colliding_peer-cuts_off m p q c d same held vacant =
      let books = insert m.by_peer q d in
      let addrs = insert m.by_addr (addr_of hash16 decimal q) d in
      (
        ground (arith, get-remove books q p, get-insert m.by_peer q p d, eq_of_== q p),
        ground (
          arith,
          get-remove addrs (addr_of hash16 decimal q) (addr_of hash16 decimal p),
          ==_of_eq _ _ (sym same),
        ),
      )
