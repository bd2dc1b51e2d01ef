-- ===== src/Crdt.antt =====
-- The replicated state of the mesh (crates/mjolnir-mesh/src/crdt): its clock, its records, the merge
-- functions and the functions that apply a received record to a book.
pub mod Hlc
pub mod Entries
pub mod Merge
pub mod DeviceNames
pub mod Register
pub mod LeasedName
pub mod Egress
pub mod Liveness
pub mod Gossip
pub mod ServiceApply
