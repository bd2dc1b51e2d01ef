-- ===== src/Dns/Names.antt =====
-- Which names under .mesh resolve, and to what.
use lightning_mesh.Prelude.{
  ℕ, true, false, ◌||◌, Option, some, [], ◌∷◌, ◌++◌, ◌≡◌, refl, arith, ◌⊎◌, ◌↔◌, inl, inr, ◌≤◌, ◌-◌,
  Bool-cases, Option-cases,
}
use lightning_mesh.Order.{Text, bytes, nat_ord, text_ord}
use lightning_mesh.Book.{get}
use lightning_mesh.Crdt.Entries.{v4, ServiceEntryV2, ServiceBookV2, LeasedName, LeasedNameBook}
use lightning_mesh.Crdt.Liveness.{LivenessTracker, is_stale}
use lightning_mesh.Crdt.Merge.{lowercase, is_reserved_service_name}
use lightning_mesh.Dns.{
  NameTable, get_if_live, get_if_fresh, resolves, owner_stale, find_map, any, current_gateway,
  mesh_table, well_known_table, service_table, leased_name_table, composite_table, is_some,
}
use lightning_mesh.Dns.Keys.{book_key-name, is_well_known_name-name}
use lightning_mesh.Dns.Coherent.{mesh_table-IsCoherent, reply_to-nxdomain_iff}
use lightning_mesh.Dns.Handle.{
  SimpleDns, Query, Qtype, Rcode, qtype_a, no_error, name_error, reply_to, answers_of, rdata_a,
}

-- The owner of the service is heard from.
abbrev pub Alive : ServiceBookV2 → LivenessTracker → ℕ → Text → Type 0
Alive services liveness now_ms key =
    (e : ServiceEntryV2) × (get services key ≡ some e)
    × (is_stale liveness e.owner_node_id now_ms ≡ false)

-- The lease was renewed within 90 seconds.
abbrev pub Fresh : LeasedNameBook → ℕ → Text → Type 0
Fresh leased wall_ms key =
    (e : LeasedName) × (get leased key ≡ some e) × (wall_ms - e.renewed_at.wall_clock ≤ 90000)

-- The name of a key, without the final dot.
abbrev pub mesh_name : Text → Text
mesh_name key = key ++ bytes ".mesh"

-- A query of one question.
abbrev pub asked : Text → ℕ → Qtype → Query
asked name id kind = record { id = id; questions = record { qname = name; qtype = kind } ∷ [] }

rcode_not_error : (r : Rcode) → (r ≡ name_error → ⊥) → r ≡ no_error
rcode_not_error no_error h = refl
rcode_not_error name_error h = elim (h refl) [ ]

module _ (gateway : Option ℕ) (services : ServiceBookV2) (liveness : LivenessTracker) (now_ms : ℕ)
    (leased : LeasedNameBook) (wall_ms : ℕ) (key : Text) where
  abbrev table : NameTable
  table = mesh_table gateway services liveness now_ms leased wall_ms

  abbrev name : Text
  name = mesh_name key

  abbrev pub Known : Type 0
  Known =
      (is_reserved_service_name (lowercase key) ≡ true)
      ⊎ Alive services liveness now_ms key
      ⊎ Fresh leased wall_ms key

  live_service_found :
      Alive services liveness now_ms key
      → is_some (get_if_live services (some liveness) now_ms key (λ e. e)) ≡ true
  unfolding get_if_live owner_stale
  live_service_found (e, g, s) = ground arith

  found_service-Alive :
      is_some (get_if_live services (some liveness) now_ms key (λ e. e)) ≡ true
      → Alive services liveness now_ms key
  unfolding get_if_live owner_stale
  found_service-Alive h = elim (Option-cases (get services key)) [
    | inl n ↦ ground arith
    | inr (e, g) ↦ (e, g, ground arith)
  ]

  recent_lease_found :
      Fresh leased wall_ms key → is_some (get_if_fresh leased key wall_ms (λ e. e)) ≡ true
  unfolding get_if_fresh resolves
  recent_lease_found (e, g, s) = ground arith

  found_lease-Fresh :
      is_some (get_if_fresh leased key wall_ms (λ e. e)) ≡ true → Fresh leased wall_ms key
  unfolding get_if_fresh resolves
  found_lease-Fresh h = elim (Option-cases (get leased key)) [
    | inl n ↦ ground arith
    | inr (e, g) ↦ (e, g, ground arith)
  ]

  exists_lem :
      table.exists name
      ≡ is_reserved_service_name (lowercase key)
        || (is_some (get_if_live services (some liveness) now_ms key (λ e. e))
            || is_some (get_if_fresh leased key wall_ms (λ e. e)))
  unfolding mesh_table composite_table any well_known_table service_table leased_name_table
  exists_lem =
      rw
        (
          mesh_table,
          composite_table,
          any,
          well_known_table,
          service_table,
          leased_name_table,
          (is_well_known_name-name key).0,
          (book_key-name key).0,
        )
        (ground arith)

  known_iff : (table.exists name ≡ true) ↔ Known
  known_iff = (
    λ h. elim (Bool-cases (is_reserved_service_name (lowercase key))) [
      | inl r ↦ inl r
      | inr r ↦
          elim (Bool-cases (is_some (get_if_live services (some liveness) now_ms key (λ e. e)))) [
            | inl a ↦ inr (inl (found_service-Alive a))
            | inr a ↦ inr (inr (found_lease-Fresh (ground (arith, exists_lem))))
          ]
    ],
    λ k. elim k [
      | inl r ↦ ground (arith, exists_lem)
      | inr (inl a) ↦ ground (arith, exists_lem, live_service_found a)
      | inr (inr f) ↦ ground (arith, exists_lem, recent_lease_found f)
    ],
  )

  -- The daemon's responder replies to a query for a name under .mesh, of any type, without NXDOMAIN
  -- exactly when the name is reserved in some spelling of its letters' case, or a service of the book
  -- bears it whose owner is not stale, or the lease on it was renewed within 90 seconds.
  pub mesh_table_known :
      (dns : SimpleDns) (id : ℕ) (kind : Qtype)
      → ((reply_to dns table (asked name id kind)).rcode ≡ no_error) ↔ Known
  mesh_table_known dns id kind =
      let c = mesh_table-IsCoherent gateway services liveness now_ms leased wall_ms in
      let (_, r) = reply_to-nxdomain_iff dns table (asked name id kind) c in
      let (iff, _, _) = r (record { qname = name; qtype = kind }) [] refl in
      let both = known_iff in
      (
        λ h. both.0 (ground (arith, iff.1)),
        λ k.
            rcode_not_error (reply_to dns table (asked name id kind)).rcode
              (λ e. ground (arith, iff.0 e, both.1 k)),
      )

  -- The responder answers a query for the address of a reserved name by the gateway of this node,
  -- whatever the books hold.
  pub reserved_name_address :
      (dns : SimpleDns)
      → is_reserved_service_name (lowercase key) ≡ true
      → answers_of dns table (record { qname = name; qtype = qtype_a })
        ≡ some (record { name = name; ttl = 30; rdata = rdata_a (current_gateway gateway) } ∷ [])
  unfolding answers_of mesh_table composite_table find_map well_known_table
  reserved_name_address dns h = ground (arith, is_well_known_name-name key)

  -- The responder answers a query for the address of a name that is not reserved, and that a service
  -- of the book bears whose owner is not stale and whose address is of IPv4, by that address, whatever
  -- the leases are.
  pub service_address :
      (dns : SimpleDns) (e : ServiceEntryV2) (addr : ℕ)
      → is_reserved_service_name (lowercase key) ≡ false
      → get services key ≡ some e
      → is_stale liveness e.owner_node_id now_ms ≡ false
      → e.ip ≡ v4 addr
      → answers_of dns table (record { qname = name; qtype = qtype_a })
        ≡ some (record { name = name; ttl = 30; rdata = rdata_a addr } ∷ [])
  unfolding answers_of mesh_table composite_table find_map well_known_table service_table
      get_if_live owner_stale
  service_address dns e addr free held alive ip =
      ground (arith, is_well_known_name-name key, book_key-name key)
