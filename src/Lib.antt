-- ===== src/Lib.antt =====
-- Models and theorems for vidcull, a tool that finds duplicate videos on one machine. A daemon walks
-- the folders, reads the containers and the streams (crates/vidcull-parser), makes fingerprints, matches
-- them (crates/vidcull-matcher), and keeps files, groups and its task queue in SQLite
-- (crates/vidcull-db). The desktop application shows the groups and asks the daemon to delete.
--
-- The files and what they model:
--   * Prelude and the files under it: lists and integers over the native numbers, words that
--     saturate, the bits of words, results, ordered maps, sorting.
--   * Core: the value types of crates/vidcull-core/src/types, and TrustLevel of
--     crates/vidcull-db/src/repo/duplicate_groups.rs.
--   * Db/TaskQueue: `TaskQueueRepo` of crates/vidcull-db/src/repo/task_queue.rs. The table is a list of
--     rows by ascending id with the number that AUTOINCREMENT gives next; a statement is a function of
--     it. Queries has the reading statements, Order what `ORDER BY … LIMIT 1` finds, Dequeue and Next
--     the claim of a task, Lifecycle the invariant of the table, Recovery the restart after a crash.
--   * Daemon/RateLimiter, Daemon/Throttle: `RateLimiter`, `ThrottleControl` and `ThrottleConfig` of
--     crates/vidcull-daemon/src/throttle.rs. Throttle/Removal lets the critical sections of
--     `register_decode` and `mark_roots_removed` interleave; Throttle/Covered has the tokens of the
--     decodes. Daemon/Paths: `path_under_root` of crates/vidcull-daemon/src/bridge.rs.
--   * Matcher/Ranking: crates/vidcull-matcher/src/ranking.rs, the score and the choice, and in Assign,
--     Finalize, Assigned and Chosen the best copies over the tables. The decoding of the settings is a parameter.
--   * Matcher/DisjointSet, Matcher/Trust, Matcher/Merge, Matcher/Cluster: the union-find, the trust
--     levels, `merge_transitive`, and `cluster_components` with `summarize_clusters`, of
--     crates/vidcull-matcher/src/cluster.rs.
--   * Db/Groups: `DuplicateGroupsRepo` of crates/vidcull-db/src/repo/duplicate_groups.rs with the reads
--     of files.rs that the matchers use, over the tables of groups, members and files. Listing has the
--     joins, Joined what their loop makes of the rows, Active and Members the lemmas on the members.
--   * Matcher/Exact: crates/vidcull-matcher/src/exact.rs, the plan of the groups, and in Apply, Rebuild,
--     Buckets, Outcome and Whole what carrying it out does to the tables.
--   * Matcher/Mih: the multi-index hashing of crates/vidcull-matcher/src/partial/mih.rs, with
--     `hamming_distance` of crates/vidcull-fingerprint/src/tier1.rs.
--   * Parser/Ebsp, Parser/BitReader, Parser/Nal: crates/vidcull-parser/src/h264/bitstream.rs and nal.rs.
--   * Parser/Params: the parameter sets, crates/vidcull-parser/src/h264/params.rs. RoundTrip reads back
--     what a writer of the syntax of H.264 puts down; the writer sends no scaling matrices.
--   * Parser/Permits: the permits for decoding, crates/vidcull-parser/src/fallback/concurrency.rs. The
--     threads take turns step by step, and a condition variable may wake any waiter. Parser/FanOut:
--     `fan_out_indexed` there, with the turns of its workers in any order; a thread that panics is left
--     out.
--   * Ipc/Backoff: crates/vidcull-ipc/src/reconnect.rs, with the connection as a parameter.
--   * Tests: runs on small inputs.
--
-- How they meet: the daemon takes tasks from the queue, each under the worker budget, the cooldown and
-- the rate limiter of the throttle; the ranking picks the copy to keep in a group, and the clusters
-- join the groups for display; the rebuild of the exact groups writes the tables that the ranking
-- reads; the parser reads the parameter sets of the streams through the bit reader, and a thread that
-- decodes holds a permit.
--
-- Conventions. A number is a natural number or an integer; where the source saturates or wraps, the
-- model does so at the same width. `usize` is unbounded, since it counts what is in memory. A row id
-- is a natural number: SQLite gives ids from 1. A text is the list of its code points. An f64 and the
-- lower-casing of Unicode are parameters of the ranking. The u32 and i32
-- of the parameter sets wrap around, as in a release build. `LIMIT 1` without an order takes the
-- first row by group id. A hash map or a tree map is a list of pairs.
-- A panic is `none`, or the error `panic` in the parser.
--
-- Loops are recursions on the rest of the input. Those of `find` run on the sum of the set sizes as
-- fuel: every step up a tree goes to a larger set. That of `split_avcc` runs on the length of the
-- buffer: each turn takes at least the length field. `split_annex_b` runs on the length too: each turn
-- takes a byte. The enumeration of the masks of a chunk runs on its width and one, the doubling of the
-- number of chunks on six steps, enough for a number of chunks below 64.
--
-- Not modelled: errors of SQLite other than a violated key and a column of the groups or files that does
-- not convert, and poisoned locks (the source goes on with the inner value); the containers, slices and decoders, and HEVC; the fingerprints, and the near
-- and partial matchers that compare them; the file system, child processes, sockets and the interface.
-- Logging and metrics are left out.
pub mod Prelude
pub mod Core
pub mod Db
pub mod Daemon
pub mod Matcher
pub mod Parser
pub mod Ipc
mod Tests
