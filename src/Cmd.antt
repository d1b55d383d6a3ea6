-- ===== src/Cmd.antt =====
-- cmd: the two programs.
pub mod CsiDriver
pub mod ScSyncer
