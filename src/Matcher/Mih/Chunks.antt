-- ===== src/Matcher/Mih/Chunks.antt =====
-- The chunks that `MultiIndexHash::new` of crates/vidcull-matcher/src/partial/mih.rs cuts a hash into.
use mathlib.Core.Path.{subst}
use native.Mathlib.Nat.{lt-div-mul-add, zero-add, mul-zero}
use vidcull.Prelude.{
  ℕ, zero, suc, ◌+◌, ◌*◌, ◌/◌, ◌^◌, ◌≤◌, ◌<◌, min, ◌≡◌, refl, inl, inr, Bool, true, false, ◌&&◌,
  leb, ◌==◌, if◌then◌else◌, Bool-cases, leb→gt, arith,
}
use vidcull.Matcher.Mih.{chunk_value, hamming_distance, normalize_chunks}
use vidcull.Matcher.Mih.Distance.{distance, hamming_distance_lem, close_chunk, distance-le}
use vidcull.Matcher.Mih.Index.{radius_of}

-- The chunk counts that `normalize_chunks` gives divide the 64 bits.
divides : ℕ → Bool
unfolding normalize_chunks
divides chunks =
    let n = normalize_chunks chunks in leb 1 n && (n * (64 / n) == 64 && leb (64 / n) 64)

failures : ℕ → ℕ
unfolding divides
failures zero = 0
failures (suc bound) = failures bound + (if divides bound then 0 else 1)

no_failure : failures 64 ≡ 0
unfolding failures
no_failure = refl

divides-under : (c bound : ℕ) → c < bound → failures bound ≡ 0 → divides c ≡ true
unfolding failures
divides-under c zero less none_failed = absurd (omega arith)
divides-under c (suc bound) less none_failed = elim (Bool-cases (c == bound)) [
  | inl last ↦ ground (arith, last, none_failed)
  | inr other ↦
      let earlier : c < bound = ground (arith, less, other) in
      divides-under c bound earlier (omega (arith, none_failed))
]

pub normalize_chunks_lem :
    (chunks : ℕ)
    → (1 ≤ normalize_chunks chunks)
      × (normalize_chunks chunks * (64 / normalize_chunks chunks) ≡ 64)
      × (64 / normalize_chunks chunks ≤ 64)
unfolding divides
normalize_chunks_lem chunks = elim (Bool-cases (leb 64 chunks)) [
  | inl e ↦ large chunks e
  | inr e ↦ of_test chunks (divides-under chunks 64 (leb→gt 64 chunks e) no_failure)
]
  where
    of_test :
        (c : ℕ)
        → divides c ≡ true
        → (1 ≤ normalize_chunks c)
          × (normalize_chunks c * (64 / normalize_chunks c) ≡ 64)
          × (64 / normalize_chunks c ≤ 64)
    of_test c h = ground arith

    large :
        (c : ℕ)
        → leb 64 c ≡ true
        → (1 ≤ normalize_chunks c)
          × (normalize_chunks c * (64 / normalize_chunks c) ≡ 64)
          × (64 / normalize_chunks c ≤ 64)
    large c h =
        let some_chunks : (c == 0) ≡ false = ground arith in
        rw (some_chunks, h) (omega arith, refl, omega arith)

-- Within the distance, one chunk of the hash lies in the ball of the same chunk of the query.
pub near_chunk :
    (chunks max_distance q h : ℕ)
    → q < 2 ^ 64
    → h < 2 ^ 64
    → hamming_distance q h ≤ max_distance
    → (i : ℕ) × (i < normalize_chunks chunks)
      × (distance
            (64 / normalize_chunks chunks)
            (chunk_value q i (64 / normalize_chunks chunks))
            (chunk_value h i (64 / normalize_chunks chunks))
          ≤ radius_of chunks max_distance)
near_chunk chunks max_distance q h small_q small_h near =
    let n = normalize_chunks chunks in
    let w = 64 / normalize_chunks chunks in
    let r = radius_of chunks max_distance in
    let (some_chunks, all, small) = normalize_chunks_lem chunks in
    elim (close_chunk n 0 w r q h small) [
      | inl (i, lt, d) ↦ (
        i,
        lt,
        subst
            (λ v.
              distance w (chunk_value q v w) (chunk_value h v w) ≤ radius_of chunks max_distance)
            (zero-add i) d,
      )
      | inr far ↦
          let q0 : q / 2 ^ (w * 0) ≡ q = whole q w in
          let h0 : h / 2 ^ (w * 0) ≡ h = whole h w in
          let far' : n * (r + 1) ≤ distance (n * w) q h = rw (q0, h0) at far in
          let far'' : n * (r + 1) ≤ distance 64 q h = rw all at far' in
          let short : distance 64 q h ≤ min max_distance 64 =
            omega (arith, distance-le 64 q h, hamming_distance_lem q h) in
          let over : min max_distance 64 < r * n + n =
            lt-div-mul-add {a = min max_distance 64} {b = n} some_chunks in
          let sum : n * (r + 1) ≡ r * n + n = grind arith in
          absurd (omega (arith, far'', short, over, sum))
    ]
  where
    whole : (x w : ℕ) → x / 2 ^ (w * 0) ≡ x
    whole x w = rw (mul-zero w) (omega arith)
