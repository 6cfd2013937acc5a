-- ===== src/Ipc/Backoff.antt =====
-- crates/vidcull-ipc/src/reconnect.rs: the delays between connection attempts, and the loop of the
-- attempts. The connection is a parameter: the outcome of each attempt.
pub mod Delays
pub mod Attempts
use package.vidcull.Prelude.{
  ℕ, zero, suc, ◌+◌, ◌-◌, ◌*◌, ◌/◌, ◌%◌, ◌^◌, ◌≤◌, min, max, Bool, true, false, Option, none, some,
  List, [], ◌∷◌, ltb, leb, if◌then◌else◌,
}
use package.vidcull.Prelude.Word.{u32_max, u64_max, u128_max}
use package.vidcull.Prelude.Result.{Result, ok, err}

-- A duration in nanoseconds.
abbrev pub Duration : Type 0
Duration = ℕ

abbrev pub nanos_per_sec : ℕ
nanos_per_sec = 1_000_000_000

-- The seconds are a u64.
abbrev pub IsDuration : Duration → Type 0
IsDuration d = d ≤ u64_max * nanos_per_sec + 999_999_999

-- `1u128.checked_shl(attempt).unwrap_or(u128::MAX)`.
unfoldable pub factor : ℕ → ℕ
factor attempt = if ltb attempt 128 then 2 ^ attempt else u128_max

-- `Duration::new(secs, nanos)` of the whole and the rest, with the check of `u64::try_from`.
unfoldable pub of_nanos : ℕ → Duration
of_nanos n =
    let secs = if leb (n / nanos_per_sec) u64_max then n / nanos_per_sec else u64_max in
    secs * nanos_per_sec + n % nanos_per_sec

unfoldable pub next_backoff : ℕ → Duration → Duration → Duration
unfolding factor of_nanos
next_backoff attempt base cap = of_nanos (min (min (base * factor attempt) u128_max) cap)

pub record BackoffPolicy : Type 0 where
  pub base : Duration
  pub cap : Duration
  pub attempt_timeout : Duration
  pub max_attempts : ℕ

-- `BackoffPolicy::default()`.
abbrev pub default : BackoffPolicy
default = record {
  base = 200_000_000;
  cap = 30_000_000_000;
  attempt_timeout = 500_000_000;
  max_attempts = u32_max;
}

-- What the loop gives: the outcome, how often it tried, and the delays it slept, in order.
pub record Attempted (E Client : Type 0) : Type 0 where
  pub outcome : Result E Client
  pub tries : ℕ
  pub slept : List Duration

module _ {E Client : Type 0} (dial : ℕ → Result E Client) where
  abbrev pub after : Duration → Attempted E Client → Attempted E Client
  after d r = record r { tries = r.tries + 1; slept = d ∷ r.slept }

  -- `for attempt in …`: this attempt and `more` after it.
  unfoldable pub attempt_loop : BackoffPolicy → ℕ → ℕ → Attempted E Client
  unfolding next_backoff
  attempt_loop policy attempt zero = record { outcome = dial attempt; tries = 1; slept = [] }
  attempt_loop policy attempt (suc more) = elim (dial attempt) [
    | ok client ↦ record { outcome = ok client; tries = 1; slept = [] }
    | err e ↦
        after (next_backoff attempt policy.base policy.cap) (attempt_loop policy (attempt + 1) more)
  ]

  unfoldable pub connect_with_backoff : BackoffPolicy → Attempted E Client
  unfolding attempt_loop
  connect_with_backoff policy = attempt_loop policy 0 (max policy.max_attempts 1 - 1)
