-- ===== src/Tests/Dns.antt =====
-- The DNS responder and device names at concrete inputs.
use lightning_mesh.Prelude.{true, false, none, some, [], ◌∷◌, ◌≡◌, ◌↔◌, refl, arith}
use lightning_mesh.Order.{bytes, text_cmp, text_ord}
use lightning_mesh.Book.{get}
use lightning_mesh.Crdt.Entries.{Mac, ServiceEntryV2, ServiceBookV2, LeasedNameBook}
use lightning_mesh.Crdt.Liveness.{LivenessTracker, Seen, observe_with_egress, superseded_by}
use lightning_mesh.Crdt.Merge.{is_reserved_service_name}
use lightning_mesh.Crdt.DeviceNames.{parse_host_mac, format_mac}
use lightning_mesh.Crdt.DeviceNames.Macs.{IsMac, parse_host_mac-format_mac}
use lightning_mesh.Dns.{mesh_table, current_gateway, resolves}
use lightning_mesh.Dns.Handle.{
  SimpleDns, qtype_a, qtype_srv, no_error, reply_to, answers_of, rdata_a,
}
use lightning_mesh.Dns.Names.{Known, mesh_name, asked, mesh_table_known, reserved_name_address}
use lightning_mesh.Dns.Fade.{service_returns}
use lightning_mesh.Tests.Common.{service_of, name_of, alpha, wiki}

abbrev dns : SimpleDns
dns = record { parse = λ b. none; build_bytes_vec = λ r. some []; is_char_string = λ s. true }

abbrev pub heard : Seen
heard = record { incarnation = 1; counter = 1; received_at_ms = 100; egress = none }

abbrev pub tracker : LivenessTracker
tracker = record { seen = (alpha, heard) ∷ []; stale_threshold_ms = 50; hard_expiry_ms = 500 }

abbrev page : ServiceEntryV2
page = service_of alpha 10 10

abbrev services : ServiceBookV2
services = (wiki, page) ∷ []

abbrev no_leases : LeasedNameBook
no_leases = []

mesh_table_known_example :
    ((reply_to dns
        (mesh_table none services tracker 120 no_leases 0)
        (asked (mesh_name wiki) 1 qtype_srv)).rcode
      ≡ no_error)
    ↔ Known none services tracker 120 no_leases 0 wiki
mesh_table_known_example =
    mesh_table_known none services tracker 120 no_leases 0 wiki dns 1 qtype_srv

wiki_free : is_reserved_service_name wiki ≡ false
unfolding is_reserved_service_name text_cmp
wiki_free = refl

hello_reserved : is_reserved_service_name (bytes "hello") ≡ true
unfolding is_reserved_service_name text_cmp
hello_reserved = refl

reserved_name_address_example :
    answers_of dns
      (mesh_table (some 9) services tracker 120 no_leases 0)
      (record { qname = mesh_name (bytes "HELLO"); qtype = qtype_a })
    ≡ some (
        record {
          name = mesh_name (bytes "HELLO");
          ttl = 30;
          rdata = rdata_a (current_gateway (some 9));
        }
        ∷ [])
reserved_name_address_example =
    reserved_name_address (some 9) services tracker 120 no_leases 0 (bytes "HELLO") dns
      hello_reserved

held : get services wiki ≡ some page
unfolding get text_cmp
held = refl

newer : (observe_with_egress tracker alpha 1 2 none 400).1 ≡ true
unfolding observe_with_egress superseded_by get text_cmp
newer = refl

service_returns_example :
    answers_of dns
      (mesh_table none services (observe_with_egress tracker alpha 1 2 none 400).0 430 no_leases 0)
      (record { qname = mesh_name wiki; qtype = qtype_a })
    ≡ some (record { name = mesh_name wiki; ttl = 30; rdata = rdata_a 7 } ∷ [])
service_returns_example =
    service_returns none services tracker 430 no_leases 0 wiki dns page 7 1 2 400 none wiki_free
      held refl newer (omega arith)

abbrev mac : Mac
mac = record { octet0 = 0; octet1 = 26; octet2 = 255; octet3 = 160; octet4 = 9; octet5 = 16 }

mac-IsMac : IsMac mac
mac-IsMac = record {
  byte0 = omega arith;
  byte1 = omega arith;
  byte2 = omega arith;
  byte3 = omega arith;
  byte4 = omega arith;
  byte5 = omega arith;
}

parse_host_mac-format_mac_example : parse_host_mac (format_mac mac) ≡ some mac
parse_host_mac-format_mac_example = parse_host_mac-format_mac mac mac-IsMac

-- A name whose lease was renewed 75 seconds ago resolves, and one renewed 91 seconds ago does not.
lease_at_75 : resolves (name_of alpha 10 1000) 76000 ≡ true
unfolding resolves
lease_at_75 = refl

lease_at_91 : resolves (name_of alpha 10 1000) 92000 ≡ false
unfolding resolves
lease_at_91 = refl
