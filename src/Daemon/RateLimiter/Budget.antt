-- ===== src/Daemon/RateLimiter/Budget.antt =====
-- Sequences of calls of `RateLimiter::acquire` in crates/vidcull-daemon/src/throttle.rs.
use vidcull.Prelude.{
  ℕ, ◌+◌, ◌-◌, ◌*◌, ◌^◌, ◌≤◌, min, ◌≡◌, refl, ap, ◌∙◌, arith, List, [], ◌∷◌, ◌==◌, if◌then◌else◌,
}
use vidcull.Prelude.Int.{ℤ, diff_ℕ, ◌≤ℤ◌}
use native.Mathlib.Nat.{mul-le-mul_right}
use vidcull.Daemon.RateLimiter.{
  RateLimiter, IsValid, refill, acquire, elapsed, added, nanos_per_sec,
}
use vidcull.Daemon.RateLimiter.Wait.{acquire-IsValid, refill-IsValid, wait_ns_pos}

-- A caller's requests: a cost, and the clock at the call.
abbrev pub Requests : Type 0
Requests = List (ℕ × ℤ)

-- The bytes of the requests that are served at once.
unfoldable pub served : RateLimiter → Requests → ℕ
served r [] = 0
served r ((cost, now) ∷ rest) =
    (if (acquire r cost now).1 == 0 then cost else 0) + served (acquire r cost now).0 rest

-- The clock at the last call.
abbrev pub last_clock : ℤ → Requests → ℤ
last_clock t [] = t
last_clock t ((cost, now) ∷ rest) = last_clock now rest

-- No request is larger than a full bucket, and the clock does not go back.
abbrev pub IsSteady : ℕ → ℤ → Requests → Type 0
IsSteady cap t [] = Unit
IsSteady cap t ((cost, now) ∷ rest) = (cost ≤ cap) × (t ≤ℤ now) × IsSteady cap now rest

added-le : (e rate : ℕ) → added e rate * nanos_per_sec ≤ e * rate
unfolding added
added-le e rate = omega arith

acquire_keeps :
    (r : RateLimiter) (cost : ℕ) (now : ℤ)
    → ((acquire r cost now).0.rate_per_sec ≡ r.rate_per_sec)
      × ((acquire r cost now).0.capacity ≡ r.capacity)
      × ((acquire r cost now).0.last_ns ≡ now)
unfolding acquire refill
acquire_keeps r cost now = ground arith

-- One call: what is served and what stays is at most what was there and what came in.
acquire_spends :
    (r : RateLimiter) (cost : ℕ) (now : ℤ)
    → IsValid r
    → cost ≤ r.capacity
    → ((if (acquire r cost now).1 == 0 then cost else 0) + (acquire r cost now).0.available)
      ≤ r.available + added (elapsed now r.last_ns) r.rate_per_sec
unfolding acquire refill
acquire_spends r cost now v h =
    ground (arith, refill-IsValid r now v, wait_ns_pos (refill r now) cost)

-- The recursion: the rest of the run starts from the bucket that the first call leaves.
served_step :
    (t0 t1 t2 : ℤ) (rate gain : ℕ)
    → t0 ≤ℤ t1
    → t1 ≤ℤ t2
    → gain * nanos_per_sec ≤ elapsed t1 t0 * rate
    → gain * nanos_per_sec + diff_ℕ t2 t1 * rate ≤ diff_ℕ t2 t0 * rate
unfolding elapsed
served_step t0 t1 t2 rate gain h01 h12 hg =
    let all : diff_ℕ t2 t0 ≡ diff_ℕ t1 t0 + diff_ℕ t2 t1 = omega arith in
    let near : min (diff_ℕ t1 t0) (2 ^ 63 - 1) * rate ≤ diff_ℕ t1 t0 * rate =
      mul-le-mul_right rate (omega arith) in
    omega (arith, near, ap (λ (d : ℕ). d * rate) all)

last_clock-ge : (cap : ℕ) (t : ℤ) (q : Requests) → IsSteady cap t q → t ≤ℤ last_clock t q
last_clock-ge cap t [] s = omega arith
last_clock-ge cap t ((cost, now) ∷ rest) s = omega (arith, last_clock-ge cap now rest s.2)

-- The bound with the fixed fields and the clock at the start written out.
served_bound :
    (cap rate : ℕ) (t : ℤ) (r : RateLimiter) (q : Requests)
    → IsValid r
    → r.capacity ≡ cap
    → r.rate_per_sec ≡ rate
    → r.last_ns ≡ t
    → IsSteady cap t q
    → served r q * nanos_per_sec ≤ r.available * nanos_per_sec + diff_ℕ (last_clock t q) t * rate
unfolding served
served_bound cap rate t r [] v hc hr ht s = omega arith
served_bound cap rate t r ((cost, now) ∷ rest) v hc hr ht (fits, fwd, steady) =
    let (r1, c1, l1) = acquire_keeps r cost now in
    let one = acquire_spends r cost now v (omega arith) in
    let gain : ℕ = added (elapsed now r.last_ns) r.rate_per_sec in
    let later =
      served_bound cap rate now (acquire r cost now).0 rest (acquire-IsValid r cost now v) (c1 ∙ hc)
        (r1 ∙ hr) l1 steady in
    let time =
      served_step t now (last_clock now rest) rate gain fwd (last_clock-ge cap now rest steady)
        (rw (← hr, ← ht) (added-le _ _)) in
    omega (arith, one, later, time)

-- Over any run of requests, none larger than a full bucket and the clock never going back, the
-- bytes served are at most the bytes in the bucket at the start plus the rate times the time.
pub served_within_rate :
    (r : RateLimiter) (q : Requests)
    → IsValid r
    → IsSteady r.capacity r.last_ns q
    → served r q * nanos_per_sec
      ≤ r.available * nanos_per_sec + diff_ℕ (last_clock r.last_ns q) r.last_ns * r.rate_per_sec
served_within_rate r q v s = served_bound r.capacity r.rate_per_sec r.last_ns r q v refl refl refl s
