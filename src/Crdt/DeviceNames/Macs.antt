-- ===== src/Crdt/DeviceNames/Macs.antt =====
-- MAC addresses in hexadecimal: format_mac of the daemon, parse_host_mac of crdt/service.rs.
use lightning_mesh.Prelude.{ℕ, false, some, [], ◌∷◌, ◌++◌, ◌+◌, ◌*◌, ◌/◌, ◌%◌, ◌<◌, ◌≡◌, arith}
use lightning_mesh.Order.{Text, ◌==◌, nat_ord, text_ord}
use lightning_mesh.Str.{split, join}
use lightning_mesh.Crdt.Entries.{Mac}
use lightning_mesh.Crdt.DeviceNames.{
  digit_value, hex_digit, hex_octet, parse_octet, octets_of, parse_host_mac, format_mac,
}

digit_value-hex_digit : (d : ℕ) → d < 16 → digit_value (hex_digit d) ≡ some d
digit_value-hex_digit d h = ground arith

hex_digit-ne_plus : (d : ℕ) → d < 16 → (hex_digit d == b'+') ≡ false
hex_digit-ne_plus d h = ground arith

hex_digit-ne_colon : (d : ℕ) → d < 16 → (hex_digit d == b':') ≡ false
hex_digit-ne_colon d h = ground arith

parse_octet-hex_octet : (b : ℕ) → b < 256 → parse_octet (hex_octet b) ≡ some b
parse_octet-hex_octet b h =
    let high : b / 16 < 16 = omega arith in
    let low : b % 16 < 16 = omega arith in
    let same : 16 * (b / 16) + b % 16 ≡ b = omega arith in
    rw (
      hex_digit-ne_plus (b / 16) high,
      digit_value-hex_digit (b / 16) high,
      digit_value-hex_digit (b % 16) low,
      same,
    )

-- The pieces of a text that begins with an octet.
split-octet_last : (b : ℕ) → b < 256 → split b':' (hex_octet b) ≡ hex_octet b ∷ []
unfolding split
split-octet_last b h =
    let high : b / 16 < 16 = omega arith in
    let low : b % 16 < 16 = omega arith in
    ground (arith, hex_digit-ne_colon (b / 16) high, hex_digit-ne_colon (b % 16) low)

split-octet :
    (b : ℕ) (s : Text) → b < 256 → split b':' (hex_octet b ++ b':' ∷ s) ≡ hex_octet b ∷ split b':' s
unfolding split
split-octet b s h =
    let high : b / 16 < 16 = omega arith in
    let low : b % 16 < 16 = omega arith in
    ground (arith, hex_digit-ne_colon (b / 16) high, hex_digit-ne_colon (b % 16) low)

-- The octets of an address are bytes.
pub record IsMac (m : Mac) : Type 0 where
  pub byte0 : m.octet0 < 256
  pub byte1 : m.octet1 < 256
  pub byte2 : m.octet2 < 256
  pub byte3 : m.octet3 < 256
  pub byte4 : m.octet4 < 256
  pub byte5 : m.octet5 < 256

split-format_mac :
    (m : Mac)
    → IsMac m
    → split b':' (format_mac m)
      ≡ hex_octet m.octet0
        ∷ hex_octet m.octet1
        ∷ hex_octet m.octet2
        ∷ hex_octet m.octet3
        ∷ hex_octet m.octet4
        ∷ hex_octet m.octet5
        ∷ []
unfolding format_mac join
split-format_mac m w = rw (
  split-octet m.octet0 _ w.byte0,
  split-octet m.octet1 _ w.byte1,
  split-octet m.octet2 _ w.byte2,
  split-octet m.octet3 _ w.byte3,
  split-octet m.octet4 _ w.byte4,
  split-octet_last m.octet5 w.byte5,
)

-- The text of an address reads back as that address.
pub parse_host_mac-format_mac : (m : Mac) → IsMac m → parse_host_mac (format_mac m) ≡ some m
unfolding parse_host_mac octets_of
parse_host_mac-format_mac m w = rw (
  split-format_mac m w,
  parse_octet-hex_octet m.octet0 w.byte0,
  parse_octet-hex_octet m.octet1 w.byte1,
  parse_octet-hex_octet m.octet2 w.byte2,
  parse_octet-hex_octet m.octet3 w.byte3,
  parse_octet-hex_octet m.octet4 w.byte4,
  parse_octet-hex_octet m.octet5 w.byte5,
)
