-- ===== src/Daemon.antt =====
-- common/daemon: how the parts of a program are found, started and stopped.
pub mod Dependencies
pub mod Supervision
