-- ===== src/Tun.antt =====
-- The data plane of the tunnels (tun/): addresses of links, the forwarding table, and the
-- classification of packets.
pub mod Link
pub mod Fib
pub mod Mcast
pub mod Overlay
