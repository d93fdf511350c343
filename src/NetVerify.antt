-- ===== src/NetVerify.antt =====
-- packages/netverify: judgement over the twin, with no way to change it.
pub mod ReadOnly
pub mod Probes
pub mod Intent
pub mod Converge
pub mod Rules
