-- ===== src/Status.antt =====
-- pkg/status: the counters of the servers and what the status files report.
pub mod ConnMetrics
pub mod MultiProvider
pub mod Writer
pub mod Atomic
pub mod Heartbeat
mod Tests
