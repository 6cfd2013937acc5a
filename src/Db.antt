-- ===== src/Db.antt =====
-- The parts of crates/vidcull-db that are modelled: tables as lists of rows, and each SQL statement
-- of a repository as a function on them.
pub mod TaskQueue
pub mod Groups
