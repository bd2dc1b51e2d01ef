-- ===== src/Meshctl/Inventory.antt =====
-- The inventory of routers (inventory.rs of meshctl): its defaults, its references, and the checks after a load. The
-- file in TOML is read by another crate. A result is none or the error.
pub mod Laws
use lightning_mesh.Prelude.{
  Bool, true, false, ◌||◌, Option, none, some, ◌>>=◌, List, [], ◌∷◌, ◌++◌, if◌then◌else◌,
}
use lightning_mesh.Order.{Text, ◌==◌, text_ord}

pub data Role : Type 0 where
  listener : Role
  connector : Role

pub record Router : Type 0 where
  pub name : Text
  pub address : Text
  pub user : Option Text
  pub role : Role
  pub subnet : Option Text
  pub tar : Option Text
  pub peer : Option Text
  pub peer_blob : Option Text

pub record Inventory : Type 0 where
  pub default_user : Text
  pub default_subnet : Text
  pub default_tar : Option Text
  pub routers : List Router

abbrev pub unwrap_or : Text → Option Text → Text
unwrap_or d none = d
unwrap_or d (some v) = v

abbrev pub ssh_user : Router → Inventory → Text
ssh_user r inv = unwrap_or inv.default_user r.user

abbrev pub ssh_target : Router → Inventory → Text
ssh_target r inv = ssh_user r inv ++ b'@' ∷ r.address

abbrev pub subnet_of : Router → Inventory → Text
subnet_of r inv = unwrap_or inv.default_subnet r.subnet

abbrev pub tar_of : Router → Inventory → Option Text
tar_of r inv = elim r.tar [ none ↦ inv.default_tar | some t ↦ some t ]

-- The first router with the name.
unfoldable pub find_router : List Router → Text → Option Router
find_router [] name = none
find_router (r ∷ rs) name =
    let rest = find_router rs name in if r.name == name then some r else rest

abbrev pub get_router : Inventory → Text → Option Router
get_router inv name = find_router inv.routers name

abbrev pub peer_of : Inventory → Router → Option Router
peer_of inv r = r.peer >>= λ p. get_router inv p

pub data InventoryError : Type 0 where
  duplicate_name : Text → InventoryError
  undefined_peer : Text → Text → InventoryError
  peer_is_self : Text → InventoryError

abbrev pub is_seen : Text → List Text → Bool
is_seen name [] = false
is_seen name (n ∷ ns) = n == name || is_seen name ns

-- The first loop, with the names seen.
unfoldable pub check_names : List Text → List Router → Option InventoryError
check_names seen [] = none
check_names seen (r ∷ rs) =
    let rest = check_names (r.name ∷ seen) rs in
    if is_seen r.name seen then some (duplicate_name r.name) else rest

abbrev pub check_peer : Inventory → Router → Option InventoryError
check_peer inv r = elim r.peer [
  | none ↦ none
  | some p ↦ elim (get_router inv p) [
    | none ↦ some (undefined_peer r.name p)
    | some q ↦ if p == r.name then some (peer_is_self r.name) else none
  ]
]

-- The second loop.
unfoldable pub check_peers : Inventory → List Router → Option InventoryError
check_peers inv [] = none
check_peers inv (r ∷ rs) =
    let rest = check_peers inv rs in elim (check_peer inv r) [ none ↦ rest | some e ↦ some e ]

unfoldable pub validate : Inventory → Option InventoryError
validate inv = elim (check_names [] inv.routers) [
  | none ↦ check_peers inv inv.routers
  | some e ↦ some e
]
