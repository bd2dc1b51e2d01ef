-- ===== src/Crdt/DeviceNames.antt =====
-- Names of stationary devices (crdt/service.rs), and the hexadecimal form of a MAC address. `digest` stands
-- for the first 24 bits of blake3.
pub mod Laws
pub mod Macs
pub mod Keys
use lightning_mesh.Prelude.{
  ℕ, Bool, true, false, ◌&&◌, ◌||◌, Option, none, some, ◌>>=◌, List, [], ◌∷◌, ◌++◌, length, map,
  if◌then◌else◌, ◌+◌, ◌-◌, ◌*◌, ◌/◌, ◌%◌, ◌^◌,
}
use lightning_mesh.Order.{Text, ◌==◌, leb, ltb, gtb, nat_ord, text_ord}
use lightning_mesh.Str.{trim, lower_byte, starts_with, ends_with, all_bytes, split, join}
use lightning_mesh.Crdt.Entries.{Mac}

-- `SCOPE_BASE32_ALPHABET`
abbrev pub scope_letter : ℕ → ℕ
scope_letter i = if ltb i 26 then b'a' + i else b'2' + (i - 26)

unfoldable pub node_scope_label : (Text → ℕ) → Text → Text
node_scope_label digest node_id =
    let bits = digest node_id in
    scope_letter (bits / 2 ^ 19 % 2 ^ 5)
    ∷ scope_letter (bits / 2 ^ 14 % 2 ^ 5)
    ∷ scope_letter (bits / 2 ^ 9 % 2 ^ 5)
    ∷ scope_letter (bits / 2 ^ 4 % 2 ^ 5)
    ∷ []

pub data DeviceHostError : Type 0 where
  empty : DeviceHostError
  too_long : DeviceHostError
  invalid_char : DeviceHostError
  hyphen_boundary : DeviceHostError

-- `Result<T, DeviceHostError>`
pub data HostResult (A : Type 0) : Type 0 where
  valid : A → HostResult A
  refused : DeviceHostError → HostResult A

abbrev pub is_host_byte : ℕ → Bool
is_host_byte c = leb b'a' c && leb c b'z' || leb b'0' c && leb c b'9' || c == b'-'

-- The tests after the trimming.
unfoldable pub check_host : Text → HostResult Text
check_host host =
    let lower = map lower_byte host in
    if host == []
    then refused empty
    else if gtb (length host) 63
    then refused too_long
    else if all_bytes is_host_byte lower
    then if starts_with b'-' lower || ends_with b'-' lower
      then refused hyphen_boundary
      else valid lower
    else refused invalid_char

unfoldable pub normalize_device_host : Text → HostResult Text
normalize_device_host host = check_host (trim host)

unfoldable pub device_service_key : (Text → ℕ) → Text → Text → HostResult Text
device_service_key digest host node_id = elim (normalize_device_host host) [
  | valid h ↦ valid (h ++ b'.' ∷ node_scope_label digest node_id)
  | refused e ↦ refused e
]

-- A hexadecimal digit of either case.
abbrev pub digit_value : ℕ → Option ℕ
digit_value c =
    if leb b'0' c && leb c b'9'
    then some (c - b'0')
    else if leb b'a' c && leb c b'f'
    then some (c - b'a' + 10)
    else if leb b'A' c && leb c b'F'
    then some (c - b'A' + 10)
    else none

-- `u8::from_str_radix(_, 16)` of two bytes: a sign may stand before one digit.
abbrev pub parse_octet : Text → Option ℕ
parse_octet (a ∷ b ∷ []) = if a == b'+' then digit_value b else elim (digit_value a) [
  | none ↦ none
  | some x ↦ elim (digit_value b) [ none ↦ none | some y ↦ some (16 * x + y) ]
]
parse_octet _ = none

-- Six parts, each of two bytes; then no further part.
unfoldable pub octets_of : List Text → Option Mac
octets_of (a ∷ b ∷ c ∷ d ∷ e ∷ f ∷ []) = do
  a' ← parse_octet a
  b' ← parse_octet b
  c' ← parse_octet c
  d' ← parse_octet d
  e' ← parse_octet e
  f' ← parse_octet f
  some (record { octet0 = a'; octet1 = b'; octet2 = c'; octet3 = d'; octet4 = e'; octet5 = f' })
octets_of _ = none

unfoldable pub parse_host_mac : Text → Option Mac
parse_host_mac s = octets_of (split b':' s)

abbrev pub hex_digit : ℕ → ℕ
hex_digit d = if ltb d 10 then b'0' + d else b'a' + (d - 10)

-- `{b:02x}`
abbrev pub hex_octet : ℕ → Text
hex_octet b = hex_digit (b / 16) ∷ hex_digit (b % 16) ∷ []

-- `format_mac` of meshd.
unfoldable pub format_mac : Mac → Text
format_mac m = join b':' (
    hex_octet m.octet0
    ∷ hex_octet m.octet1
    ∷ hex_octet m.octet2
    ∷ hex_octet m.octet3
    ∷ hex_octet m.octet4
    ∷ hex_octet m.octet5
    ∷ [])
