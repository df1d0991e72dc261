-- ===== src/Daemon.antt =====
-- The daemon (muxcore/daemon): which owners the reaper removes.
pub mod Duration
pub mod Eviction
mod Tests
