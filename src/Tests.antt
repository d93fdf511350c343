-- ===== src/Tests.antt =====
-- The operations on concrete values, and the theorems at them.
mod Chains
mod Commands
mod Network
mod Exports
mod Intents
mod Twins
mod Agents
mod Verdicts
mod Scores
mod Runs
