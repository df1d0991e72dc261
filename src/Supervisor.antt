-- ===== src/Supervisor.antt =====
-- muxcore/supervisor: the launcher's correlation of requests, progress tokens and tasks with the
-- generations of the engine process.
pub mod Scalar
pub mod Tombstones
pub mod Fences
pub mod Records
pub mod Numbers
pub mod Queue
pub mod Registry
pub mod Runner
mod Tests
mod RetireTests
mod RunnerTests
