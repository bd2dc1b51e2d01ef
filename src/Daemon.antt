-- ===== src/Daemon.antt =====
-- The daemon (bin/mjolnir-meshd.rs): how a received message changes the books of a node.
pub mod Apply
pub mod Claims
pub mod Dispatch
pub mod Control
pub mod Overlay
pub mod Spool
pub mod Sweep
