-- ===== src/Prelude/Bits.antt =====
-- The operations of the native numbers on binary digits, one digit at a time.
use Prim.Native.Nat.{
  ℕ, zero, suc, ◌+◌, ◌-◌, ◌*◌, ◌/◌, ◌%◌, ◌^◌, ◌≤◌, ◌<◌, min, bit_and, bit_xor, digits, differ,
  bitwise, bit_and-bitwise, bit_xor-bitwise,
}
use mathlib.Core.Path.{◌≡◌, refl, sym, ap, ◌∙◌}
use mathlib.Core.Logic.{◌≢◌, ◌⊎◌, inl, inr}
use native.Mathlib.Omega.{arith}
use native.Mathlib.Nat.{pow-suc}

-- A digit-wise operation, whose result is `z b` once the first number has run out.
module _ (z : ℕ → ℕ) (f : ℕ → ℕ → ℕ) where
  run_out : (count b : ℕ) → digits z f count 0 b ≡ z b
  run_out zero b = refl
  run_out (suc count) b = refl

  -- Any two counts that are large enough give the same digits.
  agree : (b a m n : ℕ) → a ≤ m → a ≤ n → digits z f m a b ≡ digits z f n a b
  agree b zero m n low high = run_out m b ∙ sym (run_out n b)
  agree b (suc a) zero n low high = absurd (omega arith)
  agree b (suc a) (suc m) zero low high = absurd (omega arith)
  agree b (suc a) (suc m) (suc n) low high =
      let rest = agree (b / 2) (suc a / 2) m n (omega arith) (omega arith) in
      ap (λ high_digits. high_digits * 2 + f (suc a % 2) (b % 2)) rest

  bitwise_step :
      ((b : ℕ) → z b ≡ z (b / 2) * 2 + f 0 (b % 2))
      → (a b : ℕ) → bitwise z f a b ≡ bitwise z f (a / 2) (b / 2) * 2 + f (a % 2) (b % 2)
  bitwise_step empty zero b = empty b
  bitwise_step empty (suc a) b =
      ap (λ high_digits. high_digits * 2 + f (suc a % 2) (b % 2))
        (agree (b / 2) (suc a / 2) a (suc a / 2) (omega arith) (omega arith))

pub bit_and_digit : (x y : ℕ) → bit_and x y ≡ bit_and (x / 2) (y / 2) * 2 + min (x % 2) (y % 2)
bit_and_digit a b =
    let step = bitwise_step (λ b. 0) min (λ b. omega arith) a b in
    omega (arith, step, bit_and-bitwise a b, bit_and-bitwise (a / 2) (b / 2))

pub bit_xor_digit : (a b : ℕ) → bit_xor a b ≡ bit_xor (a / 2) (b / 2) * 2 + differ (a % 2) (b % 2)
bit_xor_digit a b =
    let step = bitwise_step (λ b. b) differ (λ b. omega arith) a b in
    omega (arith, step, bit_xor-bitwise a b, bit_xor-bitwise (a / 2) (b / 2))

pub bit-cases : (a : ℕ) → (a % 2 ≡ 0) ⊎ (a % 2 ≡ 1)
bit-cases a = below (a % 2) (omega arith)
  where
    below : (x : ℕ) → x < 2 → (x ≡ 0) ⊎ (x ≡ 1)
    below zero h = inl refl
    below (suc zero) h = inr refl
    below (suc (suc x)) h = absurd (omega arith)

pub differ-cases :
    (a b : ℕ)
    → ((a % 2 ≡ b % 2) × (differ (a % 2) (b % 2) ≡ 0))
      ⊎ ((a % 2 ≢ b % 2) × (differ (a % 2) (b % 2) ≡ 1))
differ-cases a b = elim (bit-cases a) [
  | inl p ↦ elim (bit-cases b) [
    | inl q ↦ inl (p ∙ sym q, rw (p, q) refl)
    | inr q ↦ inr (λ e. omega arith, rw (p, q) refl)
  ]
  | inr p ↦ elim (bit-cases b) [
    | inl q ↦ inr (λ e. omega arith, rw (p, q) refl)
    | inr q ↦ inl (p ∙ sym q, rw (p, q) refl)
  ]
]

pub differ-zero : (x : ℕ) → differ x 0 ≡ x
differ-zero zero = refl
differ-zero (suc x) = refl

pub bit_xor-zero : (a : ℕ) → bit_xor a 0 ≡ a
bit_xor-zero a = fuelled a a (omega arith)
  where
    fuelled : (n a : ℕ) → a ≤ n → bit_xor a 0 ≡ a
    fuelled n zero h = bit_xor-bitwise 0 0
    fuelled zero (suc a) h = absurd (omega arith)
    fuelled (suc n) (suc a) h = omega (
      arith,
      bit_xor_digit (suc a) 0,
      fuelled n (suc a / 2) (omega arith),
      differ-zero (suc a % 2),
    )

pub two_pow_suc : (k : ℕ) → 2 ^ suc k ≡ 2 ^ k * 2
two_pow_suc k = pow-suc 2 k

pub one-le-two_pow : (k : ℕ) → 1 ≤ 2 ^ k
one-le-two_pow zero = omega arith
one-le-two_pow (suc k) = omega (arith, two_pow_suc k, one-le-two_pow k)

-- The mask of the k low digits leaves one number below 2 ^ k, whose digits are those of x.
pub mask_step : (k x : ℕ) → bit_and x (2 ^ suc k - 1) ≡ bit_and (x / 2) (2 ^ k - 1) * 2 + x % 2
mask_step k x =
    let m : ℕ = 2 ^ suc k - 1 in
    let e : (2 ^ suc k - 1) / 2 ≡ 2 ^ k - 1 = omega (arith, two_pow_suc k, one-le-two_pow k) in
    let o : (2 ^ suc k - 1) % 2 ≡ 1 = omega (arith, two_pow_suc k, one-le-two_pow k) in
    let low : min (x % 2) 1 ≡ x % 2 = omega arith in
    bit_and_digit x (2 ^ suc k - 1)
    ∙ (rw (e, o) (ap (λ v. bit_and (x / 2) (2 ^ k - 1) * 2 + v) low))

pub mask-lt : (k x : ℕ) → bit_and x (2 ^ k - 1) < 2 ^ k
mask-lt zero x = omega (arith, nothing x x (omega arith))
  where
    nothing : (n x : ℕ) → x ≤ n → bit_and x 0 ≡ 0
    nothing n zero h = bit_and-bitwise 0 0
    nothing zero (suc x) h = absurd (omega arith)
    nothing (suc n) (suc x) h =
        omega (arith, bit_and_digit (suc x) 0, nothing n (suc x / 2) (omega arith))
mask-lt (suc k) x = omega (arith, mask_step k x, mask-lt k (x / 2), two_pow_suc k)
