-- ===== src/Lib.antt =====
-- Lightning Mesh: the replicated state of the router daemon `mjolnir-meshd`.
--
-- Every node of the mesh keeps books of records (peers' addresses, users, node names, services,
-- leased names, claims on subnets), hears gossip in any order, and merges what it hears. Its clients
-- ask it for names and publish names through it, and packets of the overlay pass through it. These
-- parts are modelled, all of crates/mjolnir-mesh/src, and the plan of the operator's tool meshctl.
--
-- The records and their merges (crdt/):
--   Crdt/Hlc            crdt/hlc.rs: the clock and its comparison.
--   Crdt/Entries        the records of the books: crdt/lease.rs, dns.rs, subnet.rs, peer_addr.rs, users.rs,
--                       node_name.rs, service.rs and leased_name.rs.
--   Crdt/Merge          crdt/merge.rs: the merge functions.
--   Crdt/Register       no code: a register that keeps the best value that it receives, the description
--                       against which the books are compared.
--   Crdt/DeviceNames    crdt/service.rs: labels of devices, the scope of a node, MAC addresses; and
--                       `format_mac` of the daemon.
--   Crdt/LeasedName     crdt/leased_name.rs: names owned by a key, on leases.
--   Crdt/ServiceApply   crdt/service_apply.rs: publish, unpublish, tombstones and lost names.
--   Crdt/Liveness       crdt/liveness.rs: beacons, staleness and live gateways.
--   Crdt/Egress         crdt/egress.rs: the advertisement of an uplink and its probe.
--   Crdt/Gossip         crdt/gossip.rs: the messages.
-- The allocation of subnets:
--   Net                 the crate ipnet as an interface with its documented behaviour, and
--                       `in_backhaul_block` of tun/link.rs.
--   Net/Blocks          no code: aligned blocks of addresses nest or are disjoint.
--   Alloc               alloc.rs.
--   Alloc/Cooldown      claim_cooldown.rs: the wait before a first claim.
-- The daemon (bin/mjolnir-meshd.rs):
--   Daemon/Apply        `apply_service_message`, `apply_user_message`, `apply_node_name_message` and
--                       `apply_peer_addr_message`.
--   Daemon/Claims       `apply_subnet_message` over the claim store.
--   Daemon/Claims/Own   `partition_claims`, `pick_backhaul_addr`, `peer_backhaul_hint`, `release_claim`,
--                       `claim_and_publish` and `client_gateway_addr`.
--   Daemon/Dispatch     the handler that `run_mesh` gives to `GossipSync::run` (crdt/sync.rs): one step
--                       of a node for each message, with what it writes to files, feeds to the address
--                       lookup and queues for reclaiming. A lost backhaul address ends the process.
--                       Whether the write of a file succeeds comes with the arrival of the message.
--   Daemon/Dispatch/Losses   a name lost to a peer, over later messages.
--   Daemon/Control      `control_api_handle_publish` and `control_api_handle_unpublish`, with
--                       `publish_service` and `unpublish_service`. Whether the broadcast and the
--                       write of the file succeed is an argument.
--   Daemon/Spool        `ingest_name_claim_spool` and `ingest_identity_spool`: the files that mjolnir-hello
--                       writes for the daemon.
--   Daemon/Sweep        `sweep_stale_lanes`, with Daemon/Sweep/Rounds for sweeps one after another.
--   Daemon/Overlay      `ConnManager`, `OverlayRouter` and `overlay_reader`, with `overlay_link_local` of
--                       tun/iface.rs.
--   Bootstrap           bootstrap.rs: the candidates for joining again.
--   Bootstrap/Roster    roster.rs: the parsing of the static roster.
-- The DNS responder (dns_responder.rs):
--   Dns                 the tables of names, and the one that `run_mesh` builds.
--   Dns/Handle          `handle_query`, over the packets of simple_dns.
-- The data plane (tun/):
--   Tun/Link            tun/link.rs: the addresses derived from ids.
--   Tun/Fib             tun/fib.rs: the forwarding table, `Fib::remove` as `remove_route`.
--   Tun/Mcast           tun/mcast.rs: which packets are multicast.
--   Tun/Overlay         tun/overlay.rs: which connections carry a packet that is read.
-- The operator's tool (crates/mjolnir-meshctl/src), from the desired resources of a router on:
--   Meshctl             plan.rs: the resources and how an answer differs.
--   Meshctl/Plan        `observe_router` of plan.rs, `plan_changes` of apply.rs. The router's answers
--                       are a function of the query, the same for the whole of an observation.
--   Meshctl/Inventory   inventory.rs: the inventory of routers and its checks.
--   Meshctl/Changes, Meshctl/Owned   the proofs.
-- Str is what the program uses of Rust's `str`.
-- Prelude, Order and Book are shared: names of the libraries, comparisons, and association lists in
-- the order of their keys for `BTreeMap` and `HashMap`. Tests holds runs at concrete inputs.
--
-- A text is the list of its bytes, an address of IPv4 its number, a time a number of milliseconds
-- that the caller passes. Numbers are natural; where the code's arithmetic wraps or saturates that is
-- written out. blake3, ipnet, simple_dns and serde_json are parameters. The shifts of alloc.rs and the
-- sums of plan.rs are those of a release build.
-- The loop of `pick_subnet` runs over its number of slots, and the loop of `pick_subnet_or_smaller` on
-- fuel 32, which is enough for a request of at least one bit, since the length grows with each round
-- and the last round is at 30 or above.
--
-- Fuel of `strip_all` of Str is the length of the text, and each round takes a byte at least.
--
-- Not modelled: the wire format (postcard), signatures, sockets, netlink, uci, files beyond their
-- contents (a write that fails leaves the file as it was, and is a Boolean argument), and the asynchronous tasks that call the functions above. Logging has no effect here. A
-- lock is never poisoned. A `HashMap` gives its values in the order of its keys.
-- The other parts of the repository (radio, babel's configuration, the overlay's devices,
-- mjolnir-hello) are not modelled.
pub mod Prelude
pub mod Order
pub mod Book
pub mod Str
pub mod Net
pub mod Alloc
pub mod Crdt
pub mod Tun
pub mod Dns
pub mod Bootstrap
pub mod Daemon
pub mod Meshctl
pub mod Tests
