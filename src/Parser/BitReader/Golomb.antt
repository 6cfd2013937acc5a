-- ===== src/Parser/BitReader/Golomb.antt =====
-- Exp-Golomb codes: `ue` and `se` undo the encoding of the standard (clause 9.1).
use vidcull.Prelude.{
  ℕ, zero, suc, ◌+◌, ◌-◌, ◌*◌, ◌/◌, ◌%◌, ◌^◌, ◌≤◌, ◌<◌, ◌≡◌, refl, ap, ◌∙◌, inl, inr, List, [], ◌∷◌,
  ◌++◌, arith, leb, ◌==◌, length, length-replicate, replicate, All-append, false, if◌then◌else◌,
  length-append, Bool-cases, leb→le, leb→gt, ≢→==, gt→leb,
}
use mathlib.Core.List.{append_assoc}
use native.Mathlib.Nat.{add-zero, zero-add, pow-suc, pow-le-pow_right}
use vidcull.Prelude.Int.{ℤ, pos, negsuc}
use vidcull.Prelude.Result.{ok}
use vidcull.Parser.BitReader.{
  BitReader, pure, read_bit, read_bits, ue_prefix, ue_suffix, ue, se_of, se,
}
use vidcull.Parser.BitReader.Bits.{rest, advance, read_bit-rest, bind_ok}
use vidcull.Parser.BitReader.Fixed.{IsBits, value_of, value_of-lt, read_bits-rest}

-- The binary digits of n after its leading 1, the highest first, for a fuel of at least n.
tail_digits : ℕ → ℕ → List ℕ
tail_digits zero n = []
tail_digits (suc fuel) n = if leb n 1 then [] else tail_digits fuel (n / 2) ++ (n % 2) ∷ []

-- As many zeros as there are digits after the leading 1 of v + 1, and then v + 1 in binary.
unfoldable pub encode_ue : ℕ → List ℕ
unfolding tail_digits
encode_ue v = let digits = tail_digits (v + 1) (v + 1) in replicate (length digits) 0 ++ 1 ∷ digits

value_of-append :
    (acc : ℕ) (xs ys : List ℕ) → value_of acc (xs ++ ys) ≡ value_of (value_of acc xs) ys
value_of-append acc [] ys = refl
value_of-append acc (x ∷ xs) ys = value_of-append (acc * 2 + x) xs ys

tail_digits-value : (fuel n : ℕ) → 1 ≤ n → n ≤ fuel → value_of 1 (tail_digits fuel n) ≡ n
unfolding tail_digits
tail_digits-value zero n h k = absurd (omega arith)
tail_digits-value (suc fuel) n h k = elim (Bool-cases (leb n 1)) [
  | inl e ↦ rw e (ground arith)
  | inr e ↦ rw e (
      value_of-append 1 (tail_digits fuel (n / 2)) ((n % 2) ∷ [])
      ∙ ap (λ (x : ℕ). x * 2 + n % 2) (tail_digits-value fuel (n / 2) (ground arith) (omega arith))
      ∙ omega arith)
]

tail_digits-IsBits : (fuel n : ℕ) → IsBits (tail_digits fuel n)
unfolding tail_digits
tail_digits-IsBits zero n = tt
tail_digits-IsBits (suc fuel) n = elim (Bool-cases (leb n 1)) [
  | inl e ↦ rw e tt
  | inr e ↦ rw e (
      All-append (λ b. b < 2) (tail_digits fuel (n / 2)) _ (tail_digits-IsBits fuel (n / 2))
        (omega arith, tt))
]

-- A number with k digits after its leading 1 is at least 2 ^ k.
value_of-ge : (k acc : ℕ) (bs : List ℕ) → 2 ^ k ≤ acc → 2 ^ (k + length bs) ≤ value_of acc bs
value_of-ge k acc [] h = rw (add-zero k) h
value_of-ge k acc (b ∷ bs) h =
    let shift : k + suc (length bs) ≡ suc k + length bs = omega arith in
    rw shift (value_of-ge (suc k) (acc * 2 + b) bs (omega (arith, pow-suc 2 k)))

-- The leading 1 counts 2 ^ n for n digits after it.
value_of_shift :
    (c acc : ℕ) (bs : List ℕ) → value_of (c + acc) bs ≡ c * 2 ^ length bs + value_of acc bs
value_of_shift c acc [] = omega arith
value_of_shift c acc (b ∷ bs) =
    let regroup : (c + acc) * 2 + b ≡ c * 2 + (acc * 2 + b) = omega arith in
    rw regroup (
      value_of_shift (c * 2) (acc * 2 + b) bs
      ∙ omega (arith, ap (λ t. c * t) (pow-suc 2 (length bs))))

ue_prefix-rest :
    (n left leading : ℕ) (more : List ℕ) (r : BitReader)
    → rest r ≡ replicate n 0 ++ 1 ∷ more
    → n ≤ left
    → (ue_prefix left leading r ≡ ok (leading + n, advance r (n + 1)))
      × (rest (advance r (n + 1)) ≡ more)
unfolding ue_prefix
ue_prefix-rest zero zero leading more r e h =
    let (ran, left_over) = read_bit-rest r 1 more e in
    (bind_ok read_bit _ r (advance r 1) 1 ran ∙ rw (add-zero leading), left_over)
ue_prefix-rest zero (suc left) leading more r e h =
    let (ran, left_over) = read_bit-rest r 1 more e in
    (bind_ok read_bit _ r (advance r 1) 1 ran ∙ rw (add-zero leading), left_over)
ue_prefix-rest (suc n) zero leading more r e h = absurd (omega arith)
ue_prefix-rest (suc n) (suc left) leading more r e h =
    let (ran, left_over) = read_bit-rest r 0 (replicate n 0 ++ 1 ∷ more) e in
    let (tail, end) =
      ue_prefix-rest n left (leading + 1) more (advance r 1) left_over (omega arith) in
    let place : r.pos + (suc n + 1) ≡ r.pos + 1 + (n + 1) = omega arith in
    let total : leading + suc n ≡ leading + 1 + n = omega arith in
    rw (place, total) (bind_ok read_bit _ r (advance r 1) 0 ran ∙ tail, end)

ue_suffix-rest :
    (d more : List ℕ) (r : BitReader)
    → rest r ≡ d ++ more
    → IsBits d
    → length d ≤ 31
    → (ue_suffix (length d) r ≡ ok (value_of 1 d - 1, advance r (length d)))
      × (rest (advance r (length d)) ≡ more)
unfolding ue_suffix
ue_suffix-rest [] more r e t h = let here : r.pos + 0 ≡ r.pos = omega arith in rw here (refl, e)
ue_suffix-rest (b ∷ bs) more r e t h =
    let d = b ∷ bs in
    let (ran, end) = read_bits-rest d more r e t (omega arith) in
    let low = value_of-lt 1 1 d (omega arith) t in
    let top : 2 ^ (1 + length d) ≤ 2 ^ 32 =
      pow-le-pow_right (omega arith) {i = 1 + length d} {j = 32} (omega arith) in
    let split : value_of 1 d ≡ 1 * 2 ^ length d + value_of 0 d = value_of_shift 1 0 d in
    let one = pow-le-pow_right {n = 2} (omega arith) {i = 0} {j = length d} (omega arith) in
    let fits : (2 ^ length d - 1 + value_of 0 d) % 2 ^ 32 ≡ value_of 1 d - 1 = omega arith in
    let some_zeros : (length d == 0) ≡ false = ≢→== (length d) 0 (omega arith) in
    (
      rw some_zeros (
          bind_ok (read_bits (length d)) (λ suffix. pure ((2 ^ length d - 1 + suffix) % 2 ^ 32)) r
            (advance r (length d)) (value_of 0 d) ran
          ∙ ap (λ (v : ℕ). ok (v, advance r (length d))) fits),
      end,
    )

digits-short : (v : ℕ) → v + 1 < 2 ^ 32 → length (tail_digits (v + 1) (v + 1)) ≤ 31
digits-short v h =
    let d = tail_digits (v + 1) (v + 1) in
    let big : 2 ^ (0 + length d) ≤ value_of 1 d = value_of-ge 0 1 d (omega arith) in
    let same = tail_digits-value (v + 1) (v + 1) (omega arith) (omega arith) in
    elim (Bool-cases (leb (length d) 31)) [
      | inl e ↦ leb→le (length d) 31 e
      | inr e ↦
          let long : 2 ^ 32 ≤ 2 ^ (0 + length d) =
            pow-le-pow_right (omega arith) {i = 32} {j = 0 + length d}
              (omega (arith, leb→gt (length d) 31 e)) in
          absurd (omega (arith, big, same, long))
    ]

-- `ue` reads back every number below 2 ^ 32 - 1 from its code, and leaves the bits behind it.
pub ue-encode_ue :
    (v : ℕ) (more : List ℕ) (r : BitReader)
    → v < 2 ^ 32 - 1
    → rest r ≡ encode_ue v ++ more
    → (ue r ≡ ok (v, advance r (length (encode_ue v))))
      × (rest (advance r (length (encode_ue v))) ≡ more)
unfolding ue encode_ue
ue-encode_ue v more r h e =
    let d = tail_digits (v + 1) (v + 1) in
    let n = length d in
    let short = digits-short v (omega arith) in
    let (zeros_read, at) =
      ue_prefix-rest n 31 0 (d ++ more) r (e ∙ append_assoc (replicate n 0) (1 ∷ d) more) short in
    let (ran, end) =
      ue_suffix-rest d more (advance r (n + 1)) at (tail_digits-IsBits (v + 1) (v + 1)) short in
    let same = tail_digits-value (v + 1) (v + 1) (omega arith) (omega arith) in
    let back : value_of 1 d - 1 ≡ v = omega (arith, same) in
    let size : r.pos + length (replicate n 0 ++ 1 ∷ d) ≡ r.pos + (n + 1) + n =
      omega (arith, length-append (replicate n 0) (1 ∷ d), length-replicate {A = ℕ} n 0) in
    rw size (
      bind_ok (ue_prefix 31 0) ue_suffix r (advance r (n + 1)) n
            (zeros_read ∙ ap (λ (x : ℕ). ok (x, advance r (n + 1))) (zero-add n))
          ∙ ran
          ∙ ap (λ (x : ℕ). ok (x, advance (advance r (n + 1)) n)) back,
      end,
    )

-- Signed numbers as codes: 0, 1, -1, 2, -2, … in order.
unfoldable pub code_of : ℤ → ℕ
code_of (pos zero) = 0
code_of (pos (suc m)) = 2 * m + 1
code_of (negsuc m) = 2 * m + 2

se_of-code_of : (i : ℤ) (r : BitReader) → code_of i < 2 ^ 32 - 1 → se_of (code_of i) r ≡ ok (i, r)
unfolding se_of code_of
se_of-code_of (pos zero) r h = refl
se_of-code_of (pos (suc m)) r h =
    let half : (2 * m + 1 + 1) / 2 ≡ suc m = omega arith in
    let odd : (2 * m + 1) % 2 ≡ 1 = omega arith in
    let fits : leb (2 ^ 31) (suc m) ≡ false = gt→leb (2 ^ 31) (suc m) (omega arith) in
    rw (half, fits, odd)
se_of-code_of (negsuc m) r h =
    let half : (2 * m + 2 + 1) / 2 ≡ suc m = omega arith in
    let even : (2 * m + 2) % 2 ≡ 0 = omega arith in
    let fits : leb (2 ^ 31) (suc m) ≡ false = gt→leb (2 ^ 31) (suc m) (omega arith) in
    rw (half, fits, even)

-- `se` reads back every signed number whose code is below 2 ^ 32 - 1, that is from -(2 ^ 31 - 1) to
-- 2 ^ 31 - 1; its own range check never fails there.
pub se-encode_ue :
    (i : ℤ) (more : List ℕ) (r : BitReader)
    → code_of i < 2 ^ 32 - 1
    → rest r ≡ encode_ue (code_of i) ++ more
    → (se r ≡ ok (i, advance r (length (encode_ue (code_of i)))))
      × (rest (advance r (length (encode_ue (code_of i)))) ≡ more)
unfolding se
se-encode_ue i more r h e =
    let (ran, end) = ue-encode_ue (code_of i) more r h e in
    let after = advance r (length (encode_ue (code_of i))) in
    (bind_ok ue se_of r after (code_of i) ran ∙ se_of-code_of i after h, end)
