-- ===== src/Tests.antt =====
-- The properties at concrete inputs.
pub mod Common
pub mod Names
pub mod Services
pub mod Alive
pub mod Nodes
pub mod Nets
pub mod Claims
pub mod Tunnels
pub mod Dns
pub mod Control
pub mod Overlay
pub mod Spools
pub mod Routers
