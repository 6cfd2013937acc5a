-- ===== src/Daemon/Throttle/Levels.antt =====
-- The throttle levels of crates/vidcull-daemon/src/throttle.rs: what a level sets, and the worker
-- budget that it allows.
use vidcull.Prelude.{ℕ, ◌≤◌, ◌≡◌, ◌≢◌, arith, max}
use vidcull.Daemon.Throttle.{
  ThrottleControl, CpuThrottle, full, balanced, eco, set_level, level, effective_cooldown,
  cpu_throttle_cooldown, cpu_throttle_idle_budget, Duration,
}
use vidcull.Prelude.Word.{u64_max}

-- The level that is set reads back; the cooldown in force is then none at the full level, and the
-- larger of the activity's and the level's at the others.
pub set_level_lem :
    (l : CpuThrottle) (activity_cooldown : Duration) (c : ThrottleControl)
    → (level (set_level l c) ≡ l)
      × (l ≡ full → effective_cooldown activity_cooldown (set_level l c) ≡ 0)
      × (l ≢ full
          → effective_cooldown activity_cooldown (set_level l c)
            ≡ max activity_cooldown (cpu_throttle_cooldown l))
unfolding set_level level effective_cooldown
set_level_lem l a c = ground arith

-- The worker budget is at least 1 and does not grow from full to balanced to eco, where the
-- machine has as many cores as the base budget asks for.
pub idle_budget_order :
    (base_idle cores : ℕ)
    → max base_idle 1 ≤ cores
    → cores ≤ u64_max
    → (1 ≤ cpu_throttle_idle_budget eco base_idle cores)
      × (cpu_throttle_idle_budget eco base_idle cores
          ≤ cpu_throttle_idle_budget balanced base_idle cores)
      × (cpu_throttle_idle_budget balanced base_idle cores
          ≤ cpu_throttle_idle_budget full base_idle cores)
      × (cpu_throttle_idle_budget full base_idle cores ≤ cores)
unfolding cpu_throttle_idle_budget
idle_budget_order b n h k = omega arith
