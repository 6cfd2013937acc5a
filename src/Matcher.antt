-- ===== src/Matcher.antt =====
-- The parts of crates/vidcull-matcher that are modelled.
pub mod Ranking
pub mod DisjointSet
pub mod Trust
pub mod Merge
pub mod Cluster
pub mod Exact
pub mod Mih
