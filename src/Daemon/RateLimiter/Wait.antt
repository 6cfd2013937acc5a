-- ===== src/Daemon/RateLimiter/Wait.antt =====
-- The invariant of `RateLimiter` in crates/vidcull-daemon/src/throttle.rs, and the wait that `acquire`
-- returns.
use vidcull.Prelude.{
  ℕ, ◌-◌, ◌*◌, ◌%◌, ◌^◌, ◌≤◌, ◌<◌, min, ◌≡◌, refl, inl, inr, arith, true, false, ◌==◌, Bool-cases,
  ==→≡, ap,
}
use vidcull.Prelude.Int.{ℤ, diff_ℕ}
use vidcull.Prelude.Word.{u64_max}
use native.Mathlib.Nat.{lt-div-mul-add, mod-eq-sub-div-mul, mul-le-mul_right}
use vidcull.Daemon.RateLimiter.{
  RateLimiter, IsValid, new, refill, acquire, admits, wait_ns, elapsed, added, div_ceil,
  nanos_per_sec,
}

-- Every limiter that the constructor builds is valid, whatever rate and capacity are asked for.
pub new-IsValid :
    (rate cap : ℕ) (now : ℤ) → rate ≤ u64_max → cap ≤ u64_max → IsValid (new rate cap now)
unfolding new
new-IsValid rate cap now hr hc = omega arith

pub refill-IsValid : (r : RateLimiter) (now : ℤ) → IsValid r → IsValid (refill r now)
unfolding refill
refill-IsValid r now v = omega arith

pub acquire-IsValid :
    (r : RateLimiter) (cost : ℕ) (now : ℤ) → IsValid r → IsValid (acquire r cost now).0
unfolding acquire
acquire-IsValid r cost now v = ground (arith, refill-IsValid r now v)

-- `div_ceil` rounds up.
le-div_ceil : (a b : ℕ) → 1 ≤ b → a ≤ div_ceil a b * b
unfolding div_ceil
le-div_ceil a b h = elim (Bool-cases ((a % b) == 0)) [
  | inl exact ↦ rw exact (omega (arith, ==→≡ (a % b) 0 exact, mod-eq-sub-div-mul a b))
  | inr rest ↦ rw rest (omega (arith, lt-div-mul-add {a = a} {b = b} h))
]

le-added :
    (d e rate : ℕ)
    → d ≤ u64_max
    → d * nanos_per_sec ≤ e * rate
    → e < 2 ^ 63
    → rate ≤ u64_max
    → d ≤ added e rate
unfolding added
le-added d e rate hd h he hr =
    let wide : e * rate ≤ 2 ^ 63 * rate = mul-le-mul_right rate (omega arith) in omega arith

refused :
    (r : RateLimiter) (cost : ℕ) (now : ℤ)
    → 0 < (acquire r cost now).1
    → (admits (refill r now) cost ≡ false)
      × (acquire r cost now ≡ (refill r now, wait_ns (refill r now) cost))
unfolding acquire
refused r cost now h = ground arith

-- After the wait, the refilled bucket holds the cost or is full.
enough :
    (f : RateLimiter) (cost : ℕ) (later : ℤ)
    → IsValid f
    → cost ≤ u64_max
    → admits f cost ≡ false
    → wait_ns f cost ≤ diff_ℕ later f.last_ns
    → diff_ℕ later f.last_ns < 2 ^ 63
    → admits (refill f later) cost ≡ true
unfolding wait_ns refill elapsed
enough f cost later v hc low w near =
    let d : ℕ = cost - f.available in
    let e : ℕ = min (diff_ℕ later f.last_ns) (2 ^ 63 - 1) in
    let rate : ℕ = f.rate_per_sec in
    let ceil : ℕ = div_ceil (d * nanos_per_sec) rate in
    let paid : d * nanos_per_sec ≤ ceil * rate = le-div_ceil (d * nanos_per_sec) rate v.rate_pos in
    let longer : ceil * rate ≤ e * rate = mul-le-mul_right rate (omega arith) in
    let gain : d ≤ added e rate =
      le-added d e rate (omega arith) (omega arith) (omega arith) v.rate_u64 in
    ground (arith, gain)

taken :
    (f : RateLimiter) (cost : ℕ) (later : ℤ)
    → admits (refill f later) cost ≡ true
    → (acquire f cost later).1 ≡ 0
unfolding acquire
taken f cost later h = ground arith

-- A refusal asks for a wait.
pub wait_ns_pos :
    (f : RateLimiter) (cost : ℕ) → 1 ≤ f.rate_per_sec → admits f cost ≡ false → 0 < wait_ns f cost
unfolding wait_ns
wait_ns_pos f cost hr low =
    let a : ℕ = (cost - f.available) * nanos_per_sec in
    ground (arith, le-div_ceil a f.rate_per_sec hr)

last_ns-refill : (r : RateLimiter) (now : ℤ) → (refill r now).last_ns ≡ now
unfolding refill
last_ns-refill r now = refl

-- A caller that was told to wait, and that asks again for the same cost when that time has
-- passed (with the two clock readings less than 2 ^ 63 nanoseconds apart), is served.
pub acquire_after_wait :
    (r : RateLimiter) (cost : ℕ) (now later : ℤ)
    → IsValid r
    → cost ≤ u64_max
    → 0 < (acquire r cost now).1
    → (acquire r cost now).1 ≤ diff_ℕ later now
    → diff_ℕ later now < 2 ^ 63
    → (acquire (acquire r cost now).0 cost later).1 ≡ 0
acquire_after_wait r cost now later v hc h w near =
    let (low, same) = refused r cost now h in
    let at_now = ap (λ p. p.1) same in
    rw same (
      taken (refill r now) cost later (
        enough (refill r now) cost later (refill-IsValid r now v) hc low
          (simp last_ns-refill (omega (arith, at_now))) (simp last_ns-refill near)))
