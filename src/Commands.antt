-- ===== src/Commands.antt =====
-- cmd: the two programs.
pub mod UpboundAgent
pub mod Bootstrapper
