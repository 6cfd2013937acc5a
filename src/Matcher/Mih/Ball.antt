-- ===== src/Matcher/Mih/Ball.antt =====
-- Which values `hamming_ball` of crates/vidcull-matcher/src/partial/mih.rs emits.
use Prim.Native.Nat.{bit_xor}
use mathlib.Core.Path.{subst}
use vidcull.Prelude.{
  ℕ, zero, suc, ◌+◌, ◌-◌, ◌*◌, ◌/◌, ◌%◌, ◌^◌, ◌≤◌, ◌<◌, min, ◌≡◌, refl, sym, ap, ◌∙◌, inl, inr,
  true, false, List, [], ◌∷◌, ◌++◌, map, length, length-append, leb, ◌==◌, Bool-cases, ==→≡, ==→≢,
  le→leb, if◌then◌else◌, ◌∈◌, mem-append_left, mem-append_right, arith,
}
use vidcull.Prelude.Bits.{
  bit_xor_digit, bit_xor-zero, differ-cases, differ-zero, bit-cases, two_pow_suc,
}
use vidcull.Matcher.Mih.{combinations, flip_bits, ball_loop, hamming_ball}
use vidcull.Matcher.Mih.Distance.{distance}

-- The positions, from i on, of the digits that differ.
unfoldable positions : ℕ → ℕ → ℕ → ℕ → List ℕ
positions zero i a b = []
positions (suc n) i a b =
    if (a % 2) == (b % 2)
    then positions n (i + 1) (a / 2) (b / 2)
    else i ∷ positions n (i + 1) (a / 2) (b / 2)

length-positions : (n i a b : ℕ) → length (positions n i a b) ≡ distance n a b
unfolding positions distance
length-positions zero i a b = refl
length-positions (suc n) i a b = elim (differ-cases a b) [
  | inl (e, d) ↦
      let t : ((a % 2) == (b % 2)) ≡ true = ground arith in
      rw (t, d) (omega (arith, length-positions n (i + 1) (a / 2) (b / 2)))
  | inr (e, d) ↦
      let t : ((a % 2) == (b % 2)) ≡ false = ground arith in
      rw (t, d) (omega (arith, length-positions n (i + 1) (a / 2) (b / 2)))
]

length-positions-le : (n i a b : ℕ) → length (positions n i a b) ≤ n
unfolding positions
length-positions-le zero i a b = omega arith
length-positions-le (suc n) i a b = elim (Bool-cases ((a % 2) == (b % 2))) [
  | inl e ↦ rw e (omega (arith, length-positions-le n (i + 1) (a / 2) (b / 2)))
  | inr e ↦ rw e (omega (arith, length-positions-le n (i + 1) (a / 2) (b / 2)))
]

append-empty : (xs ys : List ℕ) → length ys ≡ 0 → xs ++ ys ≡ xs
append-empty [] [] h = refl
append-empty [] (y ∷ ys) h = absurd (omega arith)
append-empty (x ∷ xs) ys h = ap (λ v. x ∷ v) (append-empty xs ys h)

one_more : (xs : List ℕ) (y : ℕ) (ys : List ℕ) → (xs ++ (y ∷ [])) ++ ys ≡ xs ++ (y ∷ ys)
one_more [] y ys = refl
one_more (x ∷ xs) y ys = ap (λ v. x ∷ v) (one_more xs y ys)

-- The positions are a sequence that `combinations` emits, if its fuel reaches the width.
positions-combinations :
    (n fuel width k i a b : ℕ) (combo : List ℕ)
    → i + n ≡ width
    → n < fuel
    → length combo + length (positions n i a b) ≡ k
    → (combo ++ positions n i a b) ∈ combinations fuel width k i combo
unfolding combinations positions
positions-combinations n zero width k i a b combo at_width enough len = absurd (omega arith)
positions-combinations zero (suc fuel) width k i a b combo at_width enough len =
    let full : (length combo == k) ≡ true = ground arith in
    rw (full, combinations) (inl (append-empty combo [] refl))
positions-combinations (suc n) (suc fuel) width k i a b combo at_width enough len =
    elim (Bool-cases (length combo == k)) [
      | inl e ↦
          let none_left : length (positions (suc n) i a b) ≡ 0 =
            omega (arith, len, ==→≡ (length combo) k e) in
          rw (e, combinations) (inl (append-empty combo (positions (suc n) i a b) none_left))
      | inr e ↦
          let short = ==→≢ (length combo) k e in
          let fits : leb (i + (k - length combo)) width ≡ true =
            le→leb (i + (k - length combo)) width
              (omega (arith, length-positions-le (suc n) i a b)) in
          elim (Bool-cases ((a % 2) == (b % 2))) [
            | inl same ↦
                let len' : length combo + length (positions n (i + 1) (a / 2) (b / 2)) ≡ k =
                  rw same at len in
                rw (e, fits, same, combinations)
                  (mem-append_right (combinations fuel width k (i + 1) (combo ++ (i ∷ [])))
                    (combinations fuel width k (i + 1) combo)
                    (combo ++ positions n (i + 1) (a / 2) (b / 2))
                    (positions-combinations n fuel width k (i + 1) (a / 2) (b / 2) combo
                      (omega arith) (omega arith) len'))
            | inr other ↦
                let rest = positions n (i + 1) (a / 2) (b / 2) in
                let len' : length combo + suc (length rest) ≡ k = rw other at len in
                let m =
                  positions-combinations n fuel width k (i + 1) (a / 2) (b / 2) (combo ++ (i ∷ []))
                    (omega arith) (omega arith)
                    (omega (arith, len', length-append combo (i ∷ []))) in
                let joined : (combo ++ (i ∷ [])) ++ rest ≡ combo ++ (i ∷ rest) =
                  one_more combo i rest in
                rw (e, fits, other, combinations)
                  (mem-append_left (combinations fuel width k (i + 1) (combo ++ (i ∷ [])))
                    (combinations fuel width k (i + 1) combo) (combo ++ (i ∷ rest))
                    (subst (λ v. v ∈ combinations fuel width k (i + 1) (combo ++ (i ∷ []))) joined
                      m))
          ]
    ]

positions_suc : (n i a b : ℕ) → positions n (i + 1) a b ≡ map (λ v. v + 1) (positions n i a b)
unfolding positions
positions_suc zero i a b = refl
positions_suc (suc n) i a b = elim (Bool-cases ((a % 2) == (b % 2))) [
  | inl e ↦ rw e (positions_suc n (i + 1) (a / 2) (b / 2))
  | inr e ↦ rw e (ap (λ v. (i + 1) ∷ v) (positions_suc n (i + 1) (a / 2) (b / 2)))
]

-- A flip above the lowest digit is a flip of the half.
flip_bits_up :
    (v : ℕ) (bits : List ℕ)
    → flip_bits v (map (λ b. b + 1) bits) ≡ flip_bits (v / 2) bits * 2 + v % 2
unfolding flip_bits
flip_bits_up v [] = omega arith
flip_bits_up v (b ∷ bits) =
    let next : b + 1 ≡ suc b = omega arith in
    let half : 2 ^ (b + 1) / 2 ≡ 2 ^ b = rw next (omega (arith, two_pow_suc b)) in
    let even : 2 ^ (b + 1) % 2 ≡ 0 = rw next (omega (arith, two_pow_suc b)) in
    let step : bit_xor v (2 ^ (b + 1)) ≡ bit_xor (v / 2) (2 ^ b) * 2 + v % 2 =
      bit_xor_digit v (2 ^ (b + 1))
      ∙ (rw (half, even) (ap (λ x. bit_xor (v / 2) (2 ^ b) * 2 + x) (differ-zero (v % 2)))) in
    let high : bit_xor v (2 ^ (b + 1)) / 2 ≡ bit_xor (v / 2) (2 ^ b) = omega arith in
    let low : bit_xor v (2 ^ (b + 1)) % 2 ≡ v % 2 = omega arith in
    let ih = flip_bits_up (bit_xor v (2 ^ (b + 1))) bits in rw (high, low) at ih

-- Flipping the digits that differ turns one number into the other.
flip_bits-positions : (n a b : ℕ) → a < 2 ^ n → b < 2 ^ n → flip_bits a (positions n 0 a b) ≡ b
unfolding flip_bits positions
flip_bits-positions zero a b h k = omega arith
flip_bits-positions (suc n) a b h k =
    let p = two_pow_suc n in
    let ih = flip_bits-positions n (a / 2) (b / 2) (omega arith) (omega arith) in
    let up = positions_suc n 0 (a / 2) (b / 2) in
    let one : 0 + 1 ≡ 1 = omega arith in
    elim (Bool-cases ((a % 2) == (b % 2))) [
      | inl e ↦
          let whole = flip_bits_up a (positions n 0 (a / 2) (b / 2)) in
          let same = ==→≡ (a % 2) (b % 2) e in rw (e, up, whole, ih) (omega arith)
      | inr e ↦
          let other = ==→≢ (a % 2) (b % 2) e in
          let x : bit_xor a (2 ^ 0) ≡ (a / 2) * 2 + (1 - a % 2) = flip_low a in
          let high : bit_xor a (2 ^ 0) / 2 ≡ a / 2 = omega arith in
          let whole = flip_bits_up (bit_xor a (2 ^ 0)) (positions n 0 (a / 2) (b / 2)) in
          rw (e, up, whole, high, ih) (omega arith)
    ]
  where
    flip_low : (a : ℕ) → bit_xor a (2 ^ 0) ≡ (a / 2) * 2 + (1 - a % 2)
    flip_low a = elim (bit-cases a) [
      | inl z ↦ bit_xor_digit a 1 ∙ rw (z, bit_xor-zero (a / 2)) refl
      | inr o ↦ bit_xor_digit a 1 ∙ rw (o, bit_xor-zero (a / 2)) refl
    ]

no_flips : (v : ℕ) (bits : List ℕ) → length bits ≡ 0 → flip_bits v bits ≡ v
unfolding flip_bits
no_flips v [] h = refl
no_flips v (b ∷ bits) h = absurd (omega arith)

mem-map : (f : List ℕ → ℕ) (x : List ℕ) (xs : List (List ℕ)) → x ∈ xs → f x ∈ map f xs
mem-map f x [] m = absurd m
mem-map f x (y ∷ ys) (inl e) = inl (ap f e)
mem-map f x (y ∷ ys) (inr m) = inr (mem-map f x ys m)

mem-ball_loop :
    (value width k first n u : ℕ)
    → first ≤ k
    → k < first + n
    → u ∈ map (flip_bits value) (combinations (suc width) width k 0 [])
    → u ∈ ball_loop value width first n
unfolding ball_loop
mem-ball_loop value width k first zero u low high m = absurd (omega arith)
mem-ball_loop value width k first (suc n) u low high m =
    let here = map (flip_bits value) (combinations (suc width) width first 0 []) in
    elim (Bool-cases (first == k)) [
      | inl e ↦
          let same : k ≡ first = sym (==→≡ first k e) in
          mem-append_left here (ball_loop value width (first + 1) n) u
            (subst (λ v. u ∈ map (flip_bits value) (combinations (suc width) width v 0 [])) same m)
      | inr e ↦
          let other = ==→≢ first k e in
          mem-append_right here (ball_loop value width (first + 1) n) u
            (mem-ball_loop value width k (first + 1) n u (omega arith) (omega arith) m)
    ]

-- The ball has every value of the width at a distance of at most the radius.
pub mem-hamming_ball :
    (value width radius u : ℕ)
    → width ≤ 64
    → value < 2 ^ width
    → u < 2 ^ width
    → distance width value u ≤ radius
    → u ∈ hamming_ball value width radius
unfolding hamming_ball
mem-hamming_ball value width radius u small h k near =
    let all = flip_bits-positions width value u h k in
    let len = length-positions width 0 value u in
    let same : min width 64 ≡ width = omega arith in
    elim (Bool-cases (distance width value u == 0)) [
      | inl e ↦
          let z = ==→≡ (distance width value u) 0 e in
          inl (sym all ∙ no_flips value (positions width 0 value u) (omega arith))
      | inr e ↦
          let some_left = ==→≢ (distance width value u) 0 e in
          let m =
            positions-combinations width (suc width) width (distance width value u) 0 value u []
              (omega arith) (omega arith) (omega arith) in
          subst (λ w. u ∈ value ∷ ball_loop value w 1 radius) (sym same)
            (inr (
              mem-ball_loop value width (distance width value u) 1 radius u (omega arith)
                (omega arith)
                (subst
                  (λ v.
                    v
                    ∈ map (flip_bits value)
                        (combinations (suc width) width (distance width value u) 0 []))
                  all
                  (mem-map (flip_bits value) (positions width 0 value u)
                    (combinations (suc width) width (distance width value u) 0 []) m))))
    ]
