-- ===== src/Session.antt =====
-- muxcore/session: the manager of downstream sessions.
pub mod State
pub mod Admission
pub mod History
pub mod Reconnect
pub mod Inflight
pub mod World
mod Tests
