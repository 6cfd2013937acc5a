-- ===== src/Daemon/RateLimiter.antt =====
-- `RateLimiter` of crates/vidcull-daemon/src/throttle.rs: a token bucket on the disk bytes that the
-- daemon may read. Times are i64 nanoseconds, amounts u64 bytes, products u128.
pub mod Wait
pub mod Budget
use package.vidcull.Prelude.{
  ℕ, ◌+◌, ◌-◌, ◌*◌, ◌/◌, ◌%◌, ◌^◌, ◌≤◌, min, max, Bool, ◌||◌, leb, ◌==◌, if◌then◌else◌,
}
use package.vidcull.Prelude.Int.{ℤ, diff_ℕ}
use package.vidcull.Prelude.Word.{u64_max, u128_max, sat_add}

abbrev pub nanos_per_sec : ℕ
nanos_per_sec = 1_000_000_000

pub record RateLimiter : Type 0 where
  pub rate_per_sec : ℕ
  pub capacity : ℕ
  pub available : ℕ
  pub last_ns : ℤ

-- `u128::div_ceil`.
unfoldable pub div_ceil : ℕ → ℕ → ℕ
div_ceil a b = if (a % b) == 0 then a / b else a / b + 1

unfoldable pub new : ℕ → ℕ → ℤ → RateLimiter
new rate_per_sec capacity now_ns = record {
  rate_per_sec = max rate_per_sec 1;
  capacity = max capacity 1;
  available = max capacity 1;
  last_ns = now_ns;
}

-- `u128::try_from(now_ns.saturating_sub(last_ns)).unwrap_or(0)`: the difference is cut at the top
-- of i64, and is 0 where the clock went back.
unfoldable pub elapsed : ℤ → ℤ → ℕ
elapsed now_ns last_ns = min (diff_ℕ now_ns last_ns) (2 ^ 63 - 1)

unfoldable pub added : ℕ → ℕ → ℕ
added elapsed_ns rate = min (min (elapsed_ns * rate) u128_max / nanos_per_sec) u64_max

unfoldable pub refill : RateLimiter → ℤ → RateLimiter
unfolding elapsed added
refill r now_ns = record r {
  available =
      min (sat_add r.available (added (elapsed now_ns r.last_ns) r.rate_per_sec)) r.capacity;
  last_ns = now_ns;
}

-- Either the cost is there, or the bucket is full and the cost is larger than a full bucket.
abbrev pub admits : RateLimiter → ℕ → Bool
admits r cost = leb cost r.available || leb r.capacity r.available

unfoldable pub wait_ns : RateLimiter → ℕ → ℕ
unfolding div_ceil
wait_ns r cost = min (div_ceil ((cost - r.available) * nanos_per_sec) r.rate_per_sec) u64_max

-- Returns the nanoseconds to wait: 0 where the cost was taken.
unfoldable pub acquire : RateLimiter → ℕ → ℤ → RateLimiter × ℕ
acquire r cost now_ns =
    let f = refill r now_ns in
    if admits f cost then (record f { available = f.available - cost }, 0) else (f, wait_ns f cost)

-- What the constructor and the types give.
pub record IsValid (r : RateLimiter) : Type 0 where
  pub rate_pos : 1 ≤ r.rate_per_sec
  pub rate_u64 : r.rate_per_sec ≤ u64_max
  pub capacity_pos : 1 ≤ r.capacity
  pub capacity_u64 : r.capacity ≤ u64_max
  pub within : r.available ≤ r.capacity
