-- ===== src/Core.antt =====
-- packages/nettwin_core: what the servers and the benchmark share.
pub mod Executor
pub mod Topology
pub mod Models
pub mod Attest
pub mod Policy
pub mod Ops
pub mod Snapshot
