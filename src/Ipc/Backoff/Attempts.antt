-- ===== src/Ipc/Backoff/Attempts.antt =====
-- The loop of `connect_with_backoff` in crates/vidcull-ipc/src/reconnect.rs.
use vidcull.Prelude.{
  ℕ, zero, suc, ◌+◌, ◌-◌, ◌≤◌, ◌<◌, ◌≡◌, sym, ap, ◌∙◌, inl, inr, max, length, All, arith,
  Bool-cases, ==→≡, ==→≢, ◌==◌,
}
use mathlib.Core.Path.{subst}
use vidcull.Prelude.Result.{Result, err, Result-cases}
use vidcull.Ipc.Backoff.{
  IsDuration, BackoffPolicy, Attempted, after, attempt_loop, connect_with_backoff, next_backoff,
}
use vidcull.Ipc.Backoff.Delays.{next_backoff_lem}

abbrev pub Fails : {E Client : Type 0} → Result E Client → Type 0
Fails {E = E} r = (e : E) × (r ≡ err e)

module _ {E Client : Type 0} (dial : ℕ → Result E Client) (policy : BackoffPolicy) where
  -- From attempt i on, with `more` attempts allowed after it.
  record Ran (i more : ℕ) (r : Attempted E Client) : Type 0 where
    tries_pos : 1 ≤ r.tries
    tries_max : r.tries ≤ more + 1
    outcome_last : r.outcome ≡ dial (i + (r.tries - 1))
    failed_before : (j : ℕ) → i ≤ j → j + 1 < i + r.tries → Fails (dial j)
    gave_up : Fails r.outcome → r.tries ≡ more + 1
    one_sleep_less : length r.slept + 1 ≡ r.tries
    short_sleeps : IsDuration policy.cap → All (λ d. d ≤ policy.cap) r.slept

  again :
      (more i : ℕ) (x : E) (r : Attempted E Client)
      → dial i ≡ err x
      → Ran (i + 1) more r
      → Ran i (suc more) (after dial (next_backoff i policy.base policy.cap) r)
  again more i x r e a = record {
    tries_pos = omega arith;
    tries_max = omega (arith, a.tries_max);
    outcome_last =
        a.outcome_last
        ∙ ap dial (
            let pos = a.tries_pos in
            let n : i + 1 + (r.tries - 1) ≡ i + (r.tries + 1 - 1) = omega arith in n);
    failed_before = λ j low high. elim (Bool-cases (i == j)) [
      | inl k ↦ subst (λ v. Fails (dial v)) (==→≡ i j k) (x, e)
      | inr k ↦ a.failed_before j (omega (arith, ==→≢ i j k)) (omega (arith, high))
    ];
    gave_up = λ h. omega (arith, a.gave_up h);
    one_sleep_less = omega (arith, a.one_sleep_less);
    short_sleeps =
        λ h. ((next_backoff_lem i i policy.base policy.cap h (omega arith)).1, a.short_sleeps h);
  }

  attempt_loop-Ran : (more i : ℕ) → Ran i more (attempt_loop dial policy i more)
  unfolding attempt_loop
  attempt_loop-Ran zero i = record {
    tries_pos = omega arith;
    tries_max = omega arith;
    outcome_last = ap dial (omega arith);
    failed_before = λ j low high. absurd (omega arith);
    gave_up = λ h. omega arith;
    one_sleep_less = omega arith;
    short_sleeps = λ h. tt;
  }
  attempt_loop-Ran (suc more) i = elim (Result-cases (dial i)) [
    | inl (client, e) ↦
        rw (e, attempt_loop)
          (record {
            tries_pos = omega arith;
            tries_max = omega arith;
            outcome_last = sym e ∙ ap dial (omega arith);
            failed_before = λ j low high. absurd (omega arith);
            gave_up = λ (x, h). cc;
            one_sleep_less = omega arith;
            short_sleeps = λ h. tt;
          })
    | inr (x, e) ↦
        rw (e, attempt_loop)
          (again more i x (attempt_loop dial policy (i + 1) more) e (attempt_loop-Ran more (i + 1)))
  ]

  -- The loop tries at least once and at most `max_attempts` times (once where that is 0); it
  -- stops at the first attempt that connects and returns its outcome, or the last error when all
  -- fail; between two attempts it sleeps once, never longer than the cap.
  pub connect_with_backoff_lem :
      IsDuration policy.cap
      → (1 ≤ (connect_with_backoff dial policy).tries)
        × ((connect_with_backoff dial policy).tries ≤ max policy.max_attempts 1)
        × ((connect_with_backoff dial policy).outcome
            ≡ dial ((connect_with_backoff dial policy).tries - 1))
        × ((j : ℕ) → j + 1 < (connect_with_backoff dial policy).tries → Fails (dial j))
        × (Fails (connect_with_backoff dial policy).outcome
            → (connect_with_backoff dial policy).tries ≡ max policy.max_attempts 1)
        × (length (connect_with_backoff dial policy).slept + 1
            ≡ (connect_with_backoff dial policy).tries)
        × All (λ d. d ≤ policy.cap) (connect_with_backoff dial policy).slept
  unfolding connect_with_backoff
  connect_with_backoff_lem h =
      let most = max policy.max_attempts 1 - 1 in
      let r = attempt_loop dial policy 0 most in
      let a = attempt_loop-Ran most 0 in
      let first : 0 + (r.tries - 1) ≡ r.tries - 1 = omega arith in
      (
        a.tries_pos,
        omega (arith, a.tries_max),
        a.outcome_last ∙ ap dial first,
        λ j low. a.failed_before j (omega arith) (omega (arith, low)),
        λ f. omega (arith, a.gave_up f),
        a.one_sleep_less,
        a.short_sleeps h,
      )
