-- ===== src/Ipc/Backoff/Delays.antt =====
-- The delays of `next_backoff` in crates/vidcull-ipc/src/reconnect.rs.
use vidcull.Prelude.{
  ℕ, ◌*◌, ◌/◌, ◌^◌, ◌≤◌, ◌<◌, ◌≡◌, ◌∙◌, inl, inr, min, true, ltb, leb, Bool-cases, ltb→lt, ltb→ge,
  le→leb, lt→ltb, arith,
}
use native.Mathlib.Nat.{pow-le-pow_right}
use vidcull.Prelude.Word.{u64_max, u128_max}
use vidcull.Ipc.Backoff.{Duration, IsDuration, nanos_per_sec, factor, of_nanos, next_backoff}

of_nanos_lem : (n : ℕ) → IsDuration n → of_nanos n ≡ n
unfolding of_nanos
of_nanos_lem n h =
    let fits : leb (n / nanos_per_sec) u64_max ≡ true = le→leb _ _ (omega arith) in
    rw fits (omega arith)

factor_mono : (a b : ℕ) → a ≤ b → factor a ≤ factor b
unfolding factor
factor_mono a b h = elim (Bool-cases (ltb a 128)) [
  | inl e ↦
      let top : 2 ^ a ≤ 2 ^ 127 =
        pow-le-pow_right (omega arith) {i = a} {j = 127} (omega (arith, ltb→lt a 128 e)) in
      elim (Bool-cases (ltb b 128)) [
        | inl f ↦ rw (e, f) (pow-le-pow_right (omega arith) {i = a} {j = b} h)
        | inr f ↦ rw (e, f) (omega (arith, top))
      ]
  | inr e ↦ elim (Bool-cases (ltb b 128)) [
    | inl f ↦ absurd (omega (arith, ltb→ge a 128 e, ltb→lt b 128 f))
    | inr f ↦ rw (e, f) (omega arith)
  ]
]

capped : Duration → ℕ → Duration → ℕ
capped base f cap = min (min (base * f) u128_max) cap

next_backoff-capped :
    (attempt : ℕ) (base cap : Duration)
    → IsDuration cap
    → next_backoff attempt base cap ≡ capped base (factor attempt) cap
unfolding next_backoff capped
next_backoff-capped attempt base cap h = of_nanos_lem _ (omega arith)

capped_mono : (base f g cap : ℕ) → f ≤ g → capped base f cap ≤ capped base g cap
unfolding capped
capped_mono base f g cap h = let grow : base * f ≤ base * g = grind arith in omega (arith, grow)

capped_le : (base f cap : ℕ) → capped base f cap ≤ cap
unfolding capped
capped_le base f cap = omega arith

exact_factor :
    (attempt : ℕ) (base cap : Duration)
    → IsDuration cap
    → attempt < 128
    → base * 2 ^ attempt ≤ cap
    → capped base (factor attempt) cap ≡ base * 2 ^ attempt
unfolding capped factor
exact_factor attempt base cap h low fits = rw (lt→ltb attempt 128 low) (omega arith)

-- The delay before the next attempt is the base doubled once for each attempt so far while that is
-- within the cap and there were fewer than 128 attempts, it is never above the cap, which is a
-- duration, and it does not shrink from one attempt to a later one.
pub next_backoff_lem :
    (a b : ℕ) (base cap : Duration)
    → IsDuration cap
    → a ≤ b
    → (next_backoff a base cap ≤ next_backoff b base cap)
      × (next_backoff b base cap ≤ cap)
      × (a < 128 → base * 2 ^ a ≤ cap → next_backoff a base cap ≡ base * 2 ^ a)
next_backoff_lem a b base cap h order =
    let at_a = next_backoff-capped a base cap h in
    let at_b = next_backoff-capped b base cap h in
    (
      rw (at_a, at_b) (capped_mono base (factor a) (factor b) cap (factor_mono a b order)),
      rw at_b (capped_le base (factor b) cap),
      λ low fits. at_a ∙ exact_factor a base cap h low fits,
    )
