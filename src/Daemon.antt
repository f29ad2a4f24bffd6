-- ===== src/Daemon.antt =====
-- src/evcollect/evcollectd.cc: `main` of the daemon.
pub mod Flags
pub mod PidFile
pub mod Setup
pub mod Main
