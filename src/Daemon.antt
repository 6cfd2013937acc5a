-- ===== src/Daemon.antt =====
-- The parts of crates/vidcull-daemon that are modelled.
pub mod RateLimiter
pub mod Paths
pub mod Throttle
