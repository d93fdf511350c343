-- ===== src/Core/Snapshot.antt =====
-- packages/nettwin_core/src/nettwin_core/snapshot.py: capturing and storing the state of the twin.
pub mod Normal
pub mod State
pub mod Vlans
pub mod Read
pub mod Capture
pub mod Store
