-- ===== src/Meshctl.antt =====
-- The operator's reconciler meshctl (crates/mjolnir-meshctl): what a router should have and how what it has
-- differs (plan.rs). Files: Plan, what is observed and the changes that apply makes of it; Changes, when
-- there are none; Owned, what is removed. The crate ipnet is a parameter, its parser too.
pub mod Plan
pub mod Changes
pub mod Owned
pub mod Inventory
use lightning_mesh.Prelude.{
  ℕ, Bool, true, false, Option, none, some, List, [], ◌∷◌, ◌++◌, if◌then◌else◌, length, map, ◌+◌,
  ◌%◌, ◌/◌, ◌^◌, zero, suc,
}
use lightning_mesh.Order.{Text, bytes, ◌==◌, ltb, nat_ord, text_ord}
use lightning_mesh.Book.{Book, get}
use lightning_mesh.Str.{join}
use lightning_mesh.Net.{Ipnet}

-- `Record` of routeros.rs: the fields of an item of the router.
abbrev pub Record : Type 0
Record = Book Text Text

abbrev pub own_comment : Text
own_comment = bytes "mjolnir container egress"

-- The filter of the prune scan.
abbrev pub own_prefix_re : Text
own_prefix_re = bytes "comment~\"^mjolnir\""

pub record Desired : Type 0 where
  pub kind : Text
  pub path : Text
  pub id : Text
  pub identity : Text × Text
  pub fields : List (Text × Text)
  pub comment_owned : Bool

-- `{k}="{v}"`
abbrev pub quoted_pair : Text × Text → Text
quoted_pair p = p.0 ++ (b'=' ∷ b'"' ∷ p.1 ++ (b'"' ∷ []))

unfoldable pub find : Desired → Text
find d = quoted_pair d.identity

unfoldable pub field_keys : Desired → List Text
field_keys d = map (λ f. f.0) d.fields

unfoldable pub add_args : Desired → Text
add_args d = join b' ' (map quoted_pair (d.identity ∷ d.fields))

unfoldable pub set_args : Desired → Text
set_args d = join b' ' (map quoted_pair d.fields)

-- A field whose value is not the one wanted.
pub record FieldDiff : Type 0 where
  pub field : Text
  pub want : Text
  pub got : Text

pub data Status : Type 0 where
  missing : Status
  converged : Status
  drifted : List FieldDiff → Status
  conflict : ℕ → Status

pub record Observed : Type 0 where
  pub desired : Desired
  pub status : Status

pub record PruneEntry : Type 0 where
  pub kind : Text
  pub path : Text
  pub comment : Text

-- The decimal digits of a number of at most `fuel` digits.
unfoldable pub digits : ℕ → ℕ → Text
digits zero n = []
digits (suc fuel) n =
    let rest = digits fuel (n / 10) in
    if ltb n 10 then (b'0' + n) ∷ [] else rest ++ ((b'0' + n % 10) ∷ [])

-- A number below 2 ^ 64, which has at most 20 digits.
abbrev pub decimal : ℕ → Text
unfolding digits
decimal n = digits 20 n

-- `Display` of an `Ipv4Addr`.
abbrev pub addr_text : ℕ → Text
addr_text a = join b'.' (
    decimal (a / 2 ^ 24 % 256)
    ∷ decimal (a / 2 ^ 16 % 256)
    ∷ decimal (a / 2 ^ 8 % 256)
    ∷ decimal (a % 256)
    ∷ [])

-- An address with a prefix length.
abbrev pub cidr_text : ℕ → ℕ → Text
cidr_text a p = addr_text a ++ b'/' ∷ decimal p

module _ (i : Ipnet) (parse : Text → Option i.Ipv4Net) where
  -- What a router with a subnet should have. The sums are of 32-bit words, with the wrap of a release build.
  unfoldable pub desired_resources : Text → Option (List Desired)
  desired_resources subnet = elim (parse subnet) [
    | none ↦ none
    | some net ↦
        let base = i.network net in
        let plen = i.prefix_len net in
        let gw = (base + 1) % 2 ^ 32 in
        let ct = (base + 2) % 2 ^ 32 in
        let gw_cidr = cidr_text gw plen in
        let src = cidr_text base plen in
        some (
          record {
            kind = bytes "veth";
            path = bytes "/interface/veth";
            id = bytes "veth-mesh";
            identity = (bytes "name", bytes "veth-mesh");
            fields = (bytes "address", cidr_text ct plen) ∷ (bytes "gateway", addr_text gw) ∷ [];
            comment_owned = false;
          }
          ∷ record {
            kind = bytes "bridge";
            path = bytes "/interface/bridge";
            id = bytes "br-mesh";
            identity = (bytes "name", bytes "br-mesh");
            fields = [];
            comment_owned = false;
          }
          ∷ record {
            kind = bytes "bridge-port";
            path = bytes "/interface/bridge/port";
            id = bytes "veth-mesh@br-mesh";
            identity = (bytes "interface", bytes "veth-mesh");
            fields = (bytes "bridge", bytes "br-mesh") ∷ [];
            comment_owned = false;
          }
          ∷ record {
            kind = bytes "ip-address";
            path = bytes "/ip/address";
            id = gw_cidr ++ bytes "@br-mesh";
            identity = (bytes "address", gw_cidr);
            fields = (bytes "interface", bytes "br-mesh") ∷ [];
            comment_owned = false;
          }
          ∷ record {
            kind = bytes "nat";
            path = bytes "/ip/firewall/nat";
            id = own_comment;
            identity = (bytes "comment", own_comment);
            fields =
                (bytes "chain", bytes "srcnat")
                ∷ (bytes "action", bytes "masquerade")
                ∷ (bytes "src-address", src)
                ∷ [];
            comment_owned = true;
          }
          ∷ record {
            kind = bytes "filter";
            path = bytes "/ip/firewall/filter";
            id = own_comment;
            identity = (bytes "comment", own_comment);
            fields =
                (bytes "chain", bytes "forward")
                ∷ (bytes "action", bytes "accept")
                ∷ (bytes "src-address", src)
                ∷ [];
            comment_owned = true;
          }
          ∷ [])
  ]

abbrev pub or_empty : Option Text → Text
or_empty none = []
or_empty (some v) = v

-- The fields that differ. A field the router does not report is empty.
unfoldable pub diffs : List (Text × Text) → Record → List FieldDiff
diffs [] obs = []
diffs (f ∷ fields) obs =
    let rest = diffs fields obs in
    let got = or_empty (get obs f.0) in
    if got == f.1 then rest else record { field = f.0; want = f.1; got = got } ∷ rest

unfoldable pub classify : List (Text × Text) → List Record → Status
classify fields [] = missing
classify fields (obs ∷ []) = elim (diffs fields obs) [ [] ↦ converged | d ∷ ds ↦ drifted (d ∷ ds) ]
classify fields (obs ∷ obs' ∷ recs) = conflict (length (obs ∷ obs' ∷ recs))
