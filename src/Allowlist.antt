-- ===== src/Allowlist.antt =====
-- nettwin_core/allowlist.py: which command texts of an agent become an argv to run.
pub mod Shlex
pub mod Ip
pub mod Kernel
pub mod Check
