-- ===== src/Control.antt =====
-- The controllers of controllers/: each handler as a program over the replies of what it calls.
pub mod Effects
pub mod Calls
pub mod Docker
pub mod Relationship
pub mod Machine
pub mod Request
pub mod Exclusive
pub mod Resource
pub mod Tiup
pub mod Topology
pub mod Workload
pub mod System
