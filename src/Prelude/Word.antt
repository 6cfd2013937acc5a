-- ===== src/Prelude/Word.antt =====
-- Unsigned machine words as native numbers, with Rust's saturating operations written out.
use vidcull.Prelude.{ℕ, ◌+◌, ◌-◌, ◌*◌, ◌^◌, min}

abbrev pub u32_max : ℕ
u32_max = 2 ^ 32 - 1

abbrev pub u64_max : ℕ
u64_max = 2 ^ 64 - 1

abbrev pub u128_max : ℕ
u128_max = 2 ^ 128 - 1

-- `u64::saturating_add` and `u64::saturating_mul`; `saturating_sub` is the `-` of ℕ.
abbrev pub sat_add : ℕ → ℕ → ℕ
sat_add a b = min (a + b) u64_max

abbrev pub sat_mul : ℕ → ℕ → ℕ
sat_mul a b = min (a * b) u64_max
