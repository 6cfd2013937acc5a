-- ===== src/Matcher/Mih/Distance.antt =====
-- The distance of two perceptual hashes by their digits and by their chunks: `chunk_value` of
-- crates/vidcull-matcher/src/partial/mih.rs and `hamming_distance` of
-- crates/vidcull-fingerprint/src/tier1.rs.
use Prim.Native.Nat.{bit_and, bit_xor, differ}
use native.Mathlib.Nat.{div-div-eq-div-mul, zero-mul, add-zero, zero-add}
use vidcull.Prelude.{
  ℕ, zero, suc, ◌+◌, ◌-◌, ◌*◌, ◌/◌, ◌%◌, ◌^◌, ◌≤◌, ◌<◌, ◌≡◌, refl, sym, ap, ◌∙◌, ◌⊎◌, inl, inr, leb,
  Bool-cases, leb→le, leb→gt, arith,
}
use vidcull.Prelude.Bits.{bit_xor_digit, differ-cases, two_pow_suc, mask_step, mask-lt}
use vidcull.Matcher.Mih.{count_ones, hamming_distance, chunk_value}

-- How many of the n low digits differ.
unfoldable pub distance : ℕ → ℕ → ℕ → ℕ
distance zero a b = 0
distance (suc n) a b = differ (a % 2) (b % 2) + distance n (a / 2) (b / 2)

count_ones-bit_xor : (n a b : ℕ) → count_ones n (bit_xor a b) ≡ distance n a b
unfolding count_ones distance
count_ones-bit_xor zero a b = refl
count_ones-bit_xor (suc n) a b =
    let d = differ (a % 2) (b % 2) in
    let small : d < 2 = elim (differ-cases a b) [
      | inl p ↦ omega (arith, p.1)
      | inr p ↦ omega (arith, p.1)
    ] in
    let step = bit_xor_digit a b in
    let low : bit_xor a b % 2 ≡ d = omega arith in
    let high : bit_xor a b / 2 ≡ bit_xor (a / 2) (b / 2) = omega arith in
    rw (low, high) (ap (λ v. d + v) (count_ones-bit_xor n (a / 2) (b / 2)))

pub hamming_distance_lem : (a b : ℕ) → hamming_distance a b ≡ distance 64 a b
unfolding hamming_distance
hamming_distance_lem a b = count_ones-bit_xor 64 a b

pub distance-le : (n a b : ℕ) → distance n a b ≤ n
unfolding distance
distance-le zero a b = omega arith
distance-le (suc n) a b = elim (differ-cases a b) [
  | inl p ↦ omega (arith, p.1, distance-le n (a / 2) (b / 2))
  | inr p ↦ omega (arith, p.1, distance-le n (a / 2) (b / 2))
]

halves : (a k : ℕ) → a / 2 / 2 ^ k ≡ a / 2 ^ suc k
halves a k =
    let twice : 2 * 2 ^ k ≡ 2 ^ suc k = omega (arith, two_pow_suc k) in
    div-div-eq-div-mul a 2 (2 ^ k) ∙ ap (λ v. a / v) twice

distance-add :
    (m n a b : ℕ) → distance (m + n) a b ≡ distance m a b + distance n (a / 2 ^ m) (b / 2 ^ m)
unfolding distance
distance-add zero n a b =
    let one_a : a / 2 ^ 0 ≡ a = omega arith in
    let one_b : b / 2 ^ 0 ≡ b = omega arith in
    rw (one_a, one_b, zero-add n) (sym (zero-add (distance n a b)))
distance-add (suc m) n a b =
    let over : suc m + n ≡ suc (m + n) = omega arith in
    let ih = distance-add m n (a / 2) (b / 2) in
    let ih' : distance (m + n) (a / 2) (b / 2)
        ≡ distance m (a / 2) (b / 2) + distance n (a / 2 ^ suc m) (b / 2 ^ suc m) =
      rw (halves a m, halves b m) at ih in
    rw over (omega (arith, ih'))

-- A mask that keeps the k low digits keeps their distance.
distance-mask :
    (k a b : ℕ) → distance k (bit_and a (2 ^ k - 1)) (bit_and b (2 ^ k - 1)) ≡ distance k a b
unfolding distance
distance-mask zero a b = refl
distance-mask (suc k) a b =
    let x = mask_step k a in
    let y = mask_step k b in
    let m : ℕ = 2 ^ suc k - 1 in
    let low_a : bit_and a (2 ^ suc k - 1) % 2 ≡ a % 2 = omega arith in
    let low_b : bit_and b (2 ^ suc k - 1) % 2 ≡ b % 2 = omega arith in
    let high_a : bit_and a (2 ^ suc k - 1) / 2 ≡ bit_and (a / 2) (2 ^ k - 1) = omega arith in
    let high_b : bit_and b (2 ^ suc k - 1) / 2 ≡ bit_and (b / 2) (2 ^ k - 1) = omega arith in
    rw (low_a, low_b, high_a, high_b)
      (ap (λ v. differ (a % 2) (b % 2) + v) (distance-mask k (a / 2) (b / 2)))

chunk_value_lem : (h c w : ℕ) → w ≤ 64 → chunk_value h c w ≡ bit_and (h / 2 ^ (w * c)) (2 ^ w - 1)
unfolding chunk_value
chunk_value_lem h c w small = elim (Bool-cases (leb 64 w)) [
  | inl e ↦ let top : w ≡ 64 = omega (arith, leb→le 64 w e) in rw (e, top) refl
  | inr e ↦ rw e refl
]

pub chunk_value-lt : (h c w : ℕ) → w ≤ 64 → chunk_value h c w < 2 ^ w
chunk_value-lt h c w small = rw (chunk_value_lem h c w small) (mask-lt w (h / 2 ^ (w * c)))

distance-chunk_value :
    (w c a b : ℕ)
    → w ≤ 64
    → distance w (chunk_value a c w) (chunk_value b c w)
      ≡ distance w (a / 2 ^ (w * c)) (b / 2 ^ (w * c))
distance-chunk_value w c a b small =
    rw (chunk_value_lem a c w small, chunk_value_lem b c w small)
      (distance-mask w (a / 2 ^ (w * c)) (b / 2 ^ (w * c)))

two_pow_add : (m n : ℕ) → 2 ^ (m + n) ≡ 2 ^ m * 2 ^ n
two_pow_add zero n = rw (zero-add n) (omega arith)
two_pow_add (suc m) n = grind (arith, two_pow_add m n, two_pow_suc m, two_pow_suc (m + n))

next_chunk : (a w c : ℕ) → a / 2 ^ (w * c) / 2 ^ w ≡ a / 2 ^ (w * (c + 1))
next_chunk a w c =
    let sum : w * c + w ≡ w * (c + 1) = grind arith in
    let e : 2 ^ (w * c) * 2 ^ w ≡ 2 ^ (w * (c + 1)) =
      sym (two_pow_add (w * c) w) ∙ ap (λ v. 2 ^ v) sum in
    div-div-eq-div-mul a (2 ^ (w * c)) (2 ^ w) ∙ ap (λ v. a / v) e

-- Either one of the n chunks from c on has a distance of at most r, or all of them together have
-- more than n times r.
pub close_chunk :
    (n c w r a b : ℕ)
    → w ≤ 64
    → ((i : ℕ) × (i < n) × (distance w (chunk_value a (c + i) w) (chunk_value b (c + i) w) ≤ r))
      ⊎ (n * (r + 1) ≤ distance (n * w) (a / 2 ^ (w * c)) (b / 2 ^ (w * c)))
close_chunk zero c w r a b small = inr (omega (arith, zero-mul (r + 1)))
close_chunk (suc n) c w r a b small =
    elim (Bool-cases (leb (distance w (chunk_value a c w) (chunk_value b c w)) r)) [
      | inl e ↦ inl (
        0,
        omega arith,
        rw (add-zero c) (leb→le (distance w (chunk_value a c w) (chunk_value b c w)) r e),
      )
      | inr e ↦ elim (close_chunk n (c + 1) w r a b small) [
        | inl (i, h, d) ↦
            let same : c + 1 + i ≡ c + suc i = omega arith in inl (suc i, omega arith, rw same at d)
        | inr h ↦
            let far = leb→gt (distance w (chunk_value a c w) (chunk_value b c w)) r e in
            let first = distance-chunk_value w c a b small in
            let split = distance-add w (n * w) (a / 2 ^ (w * c)) (b / 2 ^ (w * c)) in
            let split' : distance (w + n * w) (a / 2 ^ (w * c)) (b / 2 ^ (w * c))
                ≡ distance w (a / 2 ^ (w * c)) (b / 2 ^ (w * c))
                  + distance (n * w) (a / 2 ^ (w * (c + 1))) (b / 2 ^ (w * (c + 1))) =
              rw (next_chunk a w c, next_chunk b w c) at split in
            let len : w + n * w ≡ suc n * w = grind arith in
            let whole : distance (suc n * w) (a / 2 ^ (w * c)) (b / 2 ^ (w * c))
                ≡ distance w (a / 2 ^ (w * c)) (b / 2 ^ (w * c))
                  + distance (n * w) (a / 2 ^ (w * (c + 1))) (b / 2 ^ (w * (c + 1))) =
              rw len at split' in
            let bound : suc n * (r + 1) ≡ (r + 1) + n * (r + 1) = grind arith in
            inr (omega (arith, whole, bound, far, first, h))
      ]
    ]
