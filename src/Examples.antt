-- ===== src/Examples.antt =====
-- Concrete machines, requests and environments, on which the theorems are applied.
pub mod Data
pub mod Clusters
mod Machines
mod Requests
pub mod Controllers
mod Docker
mod Webhooks
mod Workloads
mod Topologies
