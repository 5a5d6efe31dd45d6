-- ===== src/Tiup.antt =====
-- pkg/tiup and pkg/flink: how a cluster is described, and changed.
pub mod Specification
pub mod Build
pub mod Changes
pub mod Nodes
pub mod Dm
pub mod Flink
