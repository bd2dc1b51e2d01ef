-- ===== src/Dns.antt =====
-- The DNS responder (dns_responder.rs). A table of names is what it answers at one time. A lock is
-- never poisoned, and the wire format of the crate simple_dns is a parameter.
pub mod Keys
pub mod Handle
pub mod Coherent
pub mod Names
pub mod Fade
use lightning_mesh.Prelude.{
  ℕ, Bool, true, false, ◌&&◌, ◌||◌, not, Option, none, some, ◌>>=◌, List, [], ◌∷◌, ◌++◌,
  if◌then◌else◌, ◌-◌, ◌*◌, ◌+◌, ◌^◌, map, length,
}
use lightning_mesh.Order.{Text, bytes, ◌==◌, leb, gtb, nat_ord, text_ord}
use lightning_mesh.Str.{trim_end_matches, strip_suffix}
use lightning_mesh.Book.{Book, get}
use lightning_mesh.Crdt.Entries.{
  IpAddr, v4, v6, ServiceEntryV2, ServiceBookV2, LeasedName, LeasedNameBook,
}
use lightning_mesh.Crdt.Liveness.{LivenessTracker, is_stale}
use lightning_mesh.Crdt.Merge.{lowercase, is_reserved_service_name}

-- The trait `NameTable`.
pub record NameTable : Type 0 where
  pub lookup_a : Text → Option (List ℕ)
  pub exists : Text → Bool
  pub lookup_srv : Text → Option ℕ
  pub lookup_txt : Text → Option (Book Text Text)

abbrev pub is_some {ℓ} : {A : Type ℓ} → Option A → Bool
is_some none = false
is_some (some _) = true

-- The trait's methods for a table that defines `lookup_a` alone.
abbrev pub a_only : (Text → Option (List ℕ)) → NameTable
a_only lookup = record {
  lookup_a = lookup;
  exists = λ name. is_some (lookup name);
  lookup_srv = λ name. none;
  lookup_txt = λ name. none;
}

unfoldable pub no_answers : NameTable
no_answers = a_only (λ name. none)

-- `PRE_CLAIM_GATEWAY`, 192.168.1.1
abbrev pub pre_claim_gateway : ℕ
pre_claim_gateway = 192 * 2 ^ 24 + 168 * 2 ^ 16 + 1 * 2 ^ 8 + 1

unfoldable pub current_gateway : Option ℕ → ℕ
current_gateway none = pre_claim_gateway
current_gateway (some addr) = addr

unfoldable pub is_well_known_name : Text → Bool
is_well_known_name name =
    elim (strip_suffix (bytes ".mesh") (lowercase (trim_end_matches b'.' name))) [
      | some label ↦ is_reserved_service_name label
      | none ↦ false
    ]

unfoldable pub well_known_table : Option ℕ → NameTable
well_known_table gateway =
    record (a_only
      (λ name. if is_well_known_name name then some (current_gateway gateway ∷ []) else none)) {
        exists = is_well_known_name;
      }

-- `Iterator::find_map`
unfoldable pub find_map {ℓ κ} : {A : Type ℓ} {B : Type κ} → (A → Option B) → List A → Option B
find_map f [] = none
find_map f (x ∷ xs) = let rest = find_map f xs in elim (f x) [ none ↦ rest | some b ↦ some b ]

-- `Iterator::any`
unfoldable pub any {ℓ} : {A : Type ℓ} → (A → Bool) → List A → Bool
any f [] = false
any f (x ∷ xs) = f x || any f xs

unfoldable pub composite_table : List NameTable → NameTable
composite_table tables = record {
  lookup_a = λ name. find_map (λ (t : NameTable). t.lookup_a name) tables;
  exists = λ name. any (λ (t : NameTable). t.exists name) tables;
  lookup_srv = λ name. find_map (λ (t : NameTable). t.lookup_srv name) tables;
  lookup_txt = λ name. find_map (λ (t : NameTable). t.lookup_txt name) tables;
}

unfoldable pub book_key : Text → Option Text
book_key name = strip_suffix (bytes ".mesh") (trim_end_matches b'.' name)

-- The table's `liveness`, and the reading of the monotonic clock.
unfoldable pub owner_stale : Option LivenessTracker → ℕ → Text → Bool
owner_stale none now_ms owner = false
owner_stale (some tracker) now_ms owner = is_stale tracker owner now_ms

unfoldable pub get_if_live {ℓ} :
    {T : Type ℓ}
    → ServiceBookV2
    → Option LivenessTracker
    → ℕ
    → Text
    → (ServiceEntryV2 → T)
    → Option T
get_if_live store liveness now_ms key extract = do
  entry ← get store key
  if owner_stale liveness now_ms entry.owner_node_id then none else some (extract entry)

-- The A records of an address.
abbrev pub a_records : IpAddr → Option (List ℕ)
a_records (v4 addr) = some (addr ∷ [])
a_records (v6 addr) = none

-- The filter on a port of SRV.
abbrev pub srv_port : ℕ → Option ℕ
srv_port port = if port == 0 then none else some port

unfoldable pub service_table : ServiceBookV2 → Option LivenessTracker → ℕ → NameTable
service_table store liveness now_ms = record {
  lookup_a = λ name. do
    key ← book_key name
    ip ← get_if_live store liveness now_ms key (λ e. e.ip)
    a_records ip;
  exists = λ name. elim (book_key name) [
    | some key ↦ is_some (get_if_live store liveness now_ms key (λ e. e))
    | none ↦ false
  ];
  lookup_srv = λ name. do
    key ← book_key name
    port ← get_if_live store liveness now_ms key (λ e. e.port)
    srv_port port;
  lookup_txt = λ name. do
    key ← book_key name
    get_if_live store liveness now_ms key (λ e. e.txt);
}

abbrev pub leased_name_resolve_stale_ms : ℕ
leased_name_resolve_stale_ms = 90000

unfoldable pub resolves : LeasedName → ℕ → Bool
resolves e now_ms = leb (now_ms - e.renewed_at.wall_clock) leased_name_resolve_stale_ms

unfoldable pub get_if_fresh {ℓ} :
    {T : Type ℓ} → LeasedNameBook → Text → ℕ → (LeasedName → T) → Option T
get_if_fresh store key now_ms extract = do
  e ← get store key
  if not (resolves e now_ms) then none else some (extract e)

unfoldable pub leased_name_table : LeasedNameBook → ℕ → NameTable
leased_name_table store now_ms = record {
  lookup_a = λ name. do
    key ← book_key name
    ip ← get_if_fresh store key now_ms (λ e. e.ip)
    a_records ip;
  exists = λ name. elim (book_key name) [
    | some key ↦ is_some (get_if_fresh store key now_ms (λ e. e))
    | none ↦ false
  ];
  lookup_srv = λ name. do
    key ← book_key name
    port ← get_if_fresh store key now_ms (λ e. e.port)
    srv_port port;
  lookup_txt = λ name. none;
}

-- The table that the daemon gives to the responder: the gateway of this node, its books, and the
-- readings of the monotonic clock and of the wall clock.
unfoldable pub mesh_table :
    Option ℕ → ServiceBookV2 → LivenessTracker → ℕ → LeasedNameBook → ℕ → NameTable
unfolding well_known_table service_table leased_name_table composite_table
mesh_table gateway services liveness now_ms leased wall_ms = composite_table (
    well_known_table gateway
    ∷ service_table services (some liveness) now_ms
    ∷ leased_name_table leased wall_ms
    ∷ [])
