-- ===== src/Ipc.antt =====
-- The parts of crates/vidcull-ipc that are modelled.
pub mod Backoff
