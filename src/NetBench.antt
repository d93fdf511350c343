-- ===== src/NetBench.antt =====
-- packages/netbench: the agents that the benchmark runs, and what they may call.
pub mod Roles
pub mod Clients
pub mod Calls
pub mod Chat
pub mod Toolset
pub mod Loop
pub mod Runner
pub mod Harness
pub mod Local
pub mod Scoring
pub mod Reported
pub mod Stream
pub mod Timeline
pub mod Fake
pub mod Cli
