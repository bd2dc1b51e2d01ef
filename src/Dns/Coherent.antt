-- ===== src/Dns/Coherent.antt =====
-- A table that answers a name also knows it, whatever the type of the record: what `handle_query`
-- relies on to tell a name without such a record from an unknown name.
use lightning_mesh.Prelude.{
  ℕ, true, false, Option, none, some, List, [], ◌∷◌, ◌≡◌, refl, arith, All, ◌↔◌,
}
use lightning_mesh.Order.{Text}
use lightning_mesh.Crdt.Entries.{ServiceBookV2, LeasedNameBook}
use lightning_mesh.Crdt.Liveness.{LivenessTracker}
use lightning_mesh.Dns.{
  NameTable, get_if_live, get_if_fresh, find_map, any, mesh_table, well_known_table, service_table,
  leased_name_table, composite_table,
}
use lightning_mesh.Dns.Handle.{
  SimpleDns, Query, Question, name_error, reply_to, answers_of, mesh_soa_record,
}

pub record IsCoherent (t : NameTable) : Type 0 where
  pub no_a : (name : Text) → t.exists name ≡ false → t.lookup_a name ≡ none
  pub no_srv : (name : Text) → t.exists name ≡ false → t.lookup_srv name ≡ none
  pub no_txt : (name : Text) → t.exists name ≡ false → t.lookup_txt name ≡ none

well_known_table-IsCoherent : (gateway : Option ℕ) → IsCoherent (well_known_table gateway)
unfolding well_known_table
well_known_table-IsCoherent gateway = record {
  no_a = λ name h. ground arith;
  no_srv = λ name h. refl;
  no_txt = λ name h. refl;
}

service_table-IsCoherent :
    (store : ServiceBookV2) (liveness : Option LivenessTracker) (now_ms : ℕ)
    → IsCoherent (service_table store liveness now_ms)
unfolding service_table get_if_live
service_table-IsCoherent store liveness now_ms = record {
  no_a = λ name h. ground arith;
  no_srv = λ name h. ground arith;
  no_txt = λ name h. ground arith;
}

leased_name_table-IsCoherent :
    (store : LeasedNameBook) (now_ms : ℕ) → IsCoherent (leased_name_table store now_ms)
unfolding leased_name_table get_if_fresh
leased_name_table-IsCoherent store now_ms = record {
  no_a = λ name h. ground arith;
  no_srv = λ name h. ground arith;
  no_txt = λ name h. refl;
}

composite_table-IsCoherent :
    (tables : List NameTable) → All IsCoherent tables → IsCoherent (composite_table tables)
unfolding composite_table find_map any
composite_table-IsCoherent [] a = record {
  no_a = λ name h. refl;
  no_srv = λ name h. refl;
  no_txt = λ name h. refl;
}
composite_table-IsCoherent (t ∷ tables) (c, a) =
    let ih = composite_table-IsCoherent tables a in
    record {
      no_a = λ name h. ground (arith, c.no_a name, ih.no_a name);
      no_srv = λ name h. ground (arith, c.no_srv name, ih.no_srv name);
      no_txt = λ name h. ground (arith, c.no_txt name, ih.no_txt name);
    }

pub mesh_table-IsCoherent :
    (gateway : Option ℕ) (services : ServiceBookV2) (liveness : LivenessTracker) (now_ms : ℕ)
    (leased : LeasedNameBook) (wall_ms : ℕ)
    → IsCoherent (mesh_table gateway services liveness now_ms leased wall_ms)
unfolding mesh_table
mesh_table-IsCoherent gateway services liveness now_ms leased wall_ms =
    composite_table-IsCoherent _ (
      well_known_table-IsCoherent gateway,
      (
        service_table-IsCoherent services (some liveness) now_ms,
        (leased_name_table-IsCoherent leased wall_ms, tt),
      ),
    )

answers_of-none :
    (dns : SimpleDns) (t : NameTable) (q : Question)
    → IsCoherent t
    → t.exists q.qname ≡ false
    → answers_of dns t q ≡ none
unfolding answers_of
answers_of-none dns t q c h = ground (arith, c.no_a q.qname, c.no_srv q.qname, c.no_txt q.qname)

-- From a table that answers only names it knows, the reply to a query with a question bears the code
-- NXDOMAIN exactly when the table does not know the name, whatever the type of the question; such a
-- reply has no answers and the record SOA of the zone, and a reply to a known name has no SOA. A query
-- with no question gets NXDOMAIN.
pub reply_to-nxdomain_iff :
    (dns : SimpleDns) (t : NameTable) (query : Query)
    → IsCoherent t
    → ((query.questions ≡ []) → (reply_to dns t query).rcode ≡ name_error)
      × ((q : Question) (rest : List Question)
          → query.questions ≡ q ∷ rest
          → (((reply_to dns t query).rcode ≡ name_error) ↔ (t.exists q.qname ≡ false))
            × (((reply_to dns t query).rcode ≡ name_error)
                → ((reply_to dns t query).answers ≡ [])
                  × ((reply_to dns t query).name_servers ≡ mesh_soa_record ∷ []))
            × (t.exists q.qname ≡ true → (reply_to dns t query).name_servers ≡ []))
unfolding reply_to
reply_to-nxdomain_iff dns t query c = (
  λ e. ground arith,
  λ q rest e. (
    ground (arith, answers_of-none dns t q c),
    λ h. ground (arith, answers_of-none dns t q c),
    λ h. ground arith,
  ),
)
