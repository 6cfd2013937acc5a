-- ===== src/Tests/RateLimiter.antt =====
-- A bucket of 100 bytes that fills at 10 bytes a second.
use vidcull.Prelude.{◌+◌, ◌*◌, ◌≤◌, ◌≡◌, refl, [], ◌∷◌, arith}
use vidcull.Prelude.Int.{pos, diff_ℕ}
use vidcull.Daemon.RateLimiter.{RateLimiter, IsValid, acquire, refill, wait_ns, nanos_per_sec}
use vidcull.Daemon.RateLimiter.Wait.{acquire-IsValid, acquire_after_wait}
use vidcull.Daemon.RateLimiter.Budget.{Requests, served, last_clock, served_within_rate}

abbrev low : RateLimiter
low = record { rate_per_sec = 10; capacity = 100; available = 20; last_ns = pos 0 }

low-IsValid : IsValid low
low-IsValid = omega arith

told_to_wait : (acquire low 60 (pos 1_000_000_000)).1 ≡ 3_000_000_000
unfolding acquire refill wait_ns
told_to_wait = refl

acquire-IsValid_example : IsValid (acquire low 60 (pos 1_000_000_000)).0
acquire-IsValid_example = acquire-IsValid low 60 (pos 1_000_000_000) low-IsValid

acquire_after_wait_example :
    (acquire (acquire low 60 (pos 1_000_000_000)).0 60 (pos 4_000_000_000)).1 ≡ 0
acquire_after_wait_example =
    acquire_after_wait low 60 (pos 1_000_000_000) (pos 4_000_000_000) low-IsValid (omega arith)
      (omega (arith, told_to_wait)) (omega (arith, told_to_wait)) (omega arith)

abbrev two_requests : Requests
two_requests = (60, pos 1_000_000_000) ∷ (60, pos 4_000_000_000) ∷ []

served_within_rate_example :
    served low two_requests * nanos_per_sec
    ≤ low.available * nanos_per_sec
      + diff_ℕ (last_clock low.last_ns two_requests) low.last_ns * low.rate_per_sec
served_within_rate_example = served_within_rate low two_requests low-IsValid (omega arith)
