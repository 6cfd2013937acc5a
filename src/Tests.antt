-- ===== src/Tests.antt =====
-- Runs of the models on small inputs, and the theorems at inputs that meet their hypotheses.
mod RateLimiter
mod Throttle
mod Ranking
mod TaskQueue
mod Parser
mod Cluster
mod Backoff
mod Exact
mod Mih
mod Groups
mod Assign
mod Permits
mod FanOut
mod Params
