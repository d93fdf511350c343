-- ===== src/TwinLab.antt =====
-- packages/twinlab: the server that owns the digital twin.
pub mod Export
pub mod Gate
pub mod Server
pub mod Apply
pub mod Restore
pub mod App
