-- ===== src/Tests/Routers.antt =====
-- The reconciler at a concrete router, and a roster.
use lightning_mesh.Prelude.{
  false, Option, none, some, List, [], ◌∷◌, ◌≡◌, ◌⊎◌, ◌*◌, ◌+◌, ◌^◌, inl, inr, refl, if◌then◌else◌,
  All, In, map,
}
use lightning_mesh.Order.{Text, bytes, ◌==◌, text_ord, text_cmp}
use lightning_mesh.Book.{get}
use lightning_mesh.Meshctl.{
  Record, Desired, desired_resources, own_comment, own_prefix_re, find, add_args, field_keys,
  set_args, diffs, classify, digits,
}
use lightning_mesh.Meshctl.Inventory.{
  listener, Router, Inventory, peer_is_self, find_router, check_names, check_peers, validate,
}
use lightning_mesh.Meshctl.Inventory.Laws.{HasDistinctNames, HasPeer, validate_iff}
use lightning_mesh.Meshctl.Plan.{
  observe_router, prune_scan, insert_path, is_wanted, leftovers, kind_of, changes_of, add_of,
  plan_changes, owned_paths, observe_all,
}
use lightning_mesh.Meshctl.Changes.{IsAsWanted, HasNoLeftover, plan_changes_idle}
use lightning_mesh.Meshctl.Owned.{Converges, Prunes, IsOwnedPath, plan_changes_owned}
use lightning_mesh.Str.{join, split, trim, trim_start, trim_end, strip_all, strip_any, strip_prefix}
use lightning_mesh.Bootstrap.Roster.{take_line, load_lines, load_from_str, split_token}
use lightning_mesh.Tests.Common.{nets}

-- Every text stands for 172.20.0.0/24.
abbrev the_net : Text → Option nets.Ipv4Net
the_net s = some (172 * 2 ^ 24 + 20 * 2 ^ 16, 24)

abbrev wanted : List Desired
unfolding desired_resources
wanted = elim (desired_resources nets the_net []) [ none ↦ [] | some ds ↦ ds ]

wanted_fields :
    map (λ d. d.fields) wanted
    ≡ ((bytes "address", bytes "172.20.0.2/24") ∷ (bytes "gateway", bytes "172.20.0.1") ∷ [])
      ∷ []
      ∷ ((bytes "bridge", bytes "br-mesh") ∷ [])
      ∷ ((bytes "interface", bytes "br-mesh") ∷ [])
      ∷ ((bytes "chain", bytes "srcnat")
          ∷ (bytes "action", bytes "masquerade")
          ∷ (bytes "src-address", bytes "172.20.0.0/24")
          ∷ [])
      ∷ ((bytes "chain", bytes "forward")
          ∷ (bytes "action", bytes "accept")
          ∷ (bytes "src-address", bytes "172.20.0.0/24")
          ∷ [])
      ∷ []
unfolding desired_resources digits join
wanted_fields = refl

-- The items at a path of a router that has the resources.
abbrev items_at : List Desired → Text → List Record
items_at [] path = []
items_at (d ∷ ds) path =
    let rest = items_at ds path in if d.path == path then d.fields ∷ rest else rest

abbrev answer : List Desired → Text → Text → List Text → Option (List Record)
answer ds path filter fields =
    if filter == own_prefix_re
    then some (((bytes "comment", own_comment) ∷ []) ∷ [])
    else some (items_at ds path)

idle : plan_changes (answer wanted) wanted ≡ some ([], [])
unfolding desired_resources digits join plan_changes observe_router prune_scan insert_path is_wanted
    leftovers kind_of changes_of find field_keys diffs classify add_args set_args observe_all
    owned_paths text_cmp get
idle = refl

plan_changes_idle_example :
    All (IsAsWanted (answer wanted)) wanted
    × All (HasNoLeftover (answer wanted) wanted) (owned_paths wanted)
plan_changes_idle_example = (plan_changes_idle (answer wanted) wanted).0 idle

abbrev bridge : Desired
bridge = record {
  kind = bytes "bridge";
  path = bytes "/interface/bridge";
  id = bytes "br-mesh";
  identity = (bytes "name", bytes "br-mesh");
  fields = [];
  comment_owned = false;
}

bare : plan_changes (answer []) wanted ≡ some (map add_of wanted, [])
unfolding desired_resources digits join plan_changes observe_router prune_scan insert_path is_wanted
    leftovers kind_of changes_of find field_keys diffs classify add_args set_args observe_all
    owned_paths text_cmp get
bare = refl

bridge_added : In (add_of bridge) (map add_of wanted)
unfolding desired_resources add_args
bridge_added = inr (inl refl)

plan_changes_owned_example :
    ((d : Desired) × In d wanted × Converges (answer []) d (add_of bridge))
    ⊎ ((path : Text) × IsOwnedPath wanted path × Prunes (answer []) wanted path (add_of bridge))
plan_changes_owned_example =
    plan_changes_owned (answer []) wanted (map add_of wanted) [] (add_of bridge) bare bridge_added

abbrev router : Text → Option Text → Router
router name peer = record {
  name = name;
  address = bytes "10.0.0.1";
  user = none;
  role = listener;
  subnet = none;
  tar = none;
  peer = peer;
  peer_blob = none;
}

abbrev inventory : List Router → Inventory
inventory rs = record {
  default_user = bytes "admin";
  default_subnet = bytes "172.20.0.0/24";
  default_tar = none;
  routers = rs;
}

abbrev two_routers : Inventory
two_routers = inventory (router (bytes "r1") none ∷ router (bytes "r2") (some (bytes "r1")) ∷ [])

two_routers_pass : validate two_routers ≡ none
unfolding validate check_names check_peers find_router text_cmp
two_routers_pass = refl

self_peer :
    validate (inventory (router (bytes "r1") (some (bytes "r1")) ∷ []))
    ≡ some (peer_is_self (bytes "r1"))
unfolding validate check_names check_peers find_router text_cmp
self_peer = refl

validate_iff_example :
    HasDistinctNames two_routers.routers × All (HasPeer two_routers) two_routers.routers
validate_iff_example = (validate_iff two_routers).0 two_routers_pass

first_wins :
    load_from_str (bytes "# site\n aa\naa  label\n\nbb\tgate way \n")
    ≡ inr (
        record { token = bytes "aa"; label = none }
        ∷ record { token = bytes "bb"; label = some (bytes "gate way") }
        ∷ [])
unfolding load_from_str load_lines take_line split_token split trim trim_start trim_end strip_all
    strip_any strip_prefix text_cmp
first_wins = refl
