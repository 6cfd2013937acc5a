-- ===== src/Tests/Backoff.antt =====
-- A server that answers from the third attempt on.
use vidcull.Prelude.{
  ℕ, ◌+◌, ◌-◌, ◌*◌, ◌^◌, ◌≤◌, ◌<◌, ◌≡◌, refl, max, ltb, if◌then◌else◌, [], ◌∷◌, length, All, arith,
}
use vidcull.Prelude.Result.{Result, ok, err}
use vidcull.Ipc.Backoff.{
  default, next_backoff, factor, of_nanos, attempt_loop, connect_with_backoff,
}
use vidcull.Ipc.Backoff.Delays.{next_backoff_lem}
use vidcull.Ipc.Backoff.Attempts.{Fails, connect_with_backoff_lem}

abbrev dial : ℕ → Result ℕ ℕ
dial attempt = if ltb attempt 2 then err attempt else ok attempt

two_delays : (connect_with_backoff dial default).slept ≡ 200_000_000 ∷ 400_000_000 ∷ []
unfolding connect_with_backoff attempt_loop next_backoff factor of_nanos
two_delays = refl

next_backoff_lem_example :
    (next_backoff 3 200_000_000 30_000_000_000 ≤ next_backoff 9 200_000_000 30_000_000_000)
    × (next_backoff 9 200_000_000 30_000_000_000 ≤ 30_000_000_000)
    × (3 < 128
        → 200_000_000 * 2 ^ 3 ≤ 30_000_000_000
        → next_backoff 3 200_000_000 30_000_000_000 ≡ 200_000_000 * 2 ^ 3)
next_backoff_lem_example =
    next_backoff_lem 3 9 200_000_000 30_000_000_000 (omega arith) (omega arith)

connect_with_backoff_lem_example :
    (1 ≤ (connect_with_backoff dial default).tries)
    × ((connect_with_backoff dial default).tries ≤ max default.max_attempts 1)
    × ((connect_with_backoff dial default).outcome
        ≡ dial ((connect_with_backoff dial default).tries - 1))
    × ((j : ℕ) → j + 1 < (connect_with_backoff dial default).tries → Fails (dial j))
    × (Fails (connect_with_backoff dial default).outcome
        → (connect_with_backoff dial default).tries ≡ max default.max_attempts 1)
    × (length (connect_with_backoff dial default).slept + 1
        ≡ (connect_with_backoff dial default).tries)
    × All (λ d. d ≤ default.cap) (connect_with_backoff dial default).slept
connect_with_backoff_lem_example = connect_with_backoff_lem dial default (omega arith)
