-- ===== src/Parser/Ebsp.antt =====
-- `rbsp_from_ebsp` and `rbsp_from_ebsp_tracked` of crates/vidcull-parser/src/h264/bitstream.rs: the
-- bytes of a NAL unit without its emulation prevention bytes. The loops over an index are
-- recursions on the bytes that are left.
use mathlib.Core.Path.{subst}
use vidcull.Prelude.{
  ℕ, ◌+◌, ◌≡◌, refl, sym, ap, ◌∙◌, inl, inr, Bool, true, false, ◌&&◌, List, [], ◌∷◌, arith, leb,
  ◌==◌, if◌then◌else◌, Bool-cases,
}

-- `ebsp.get(i + 1).is_some_and(|&n| n <= 0x03)`.
abbrev pub next_small : List ℕ → Bool
next_small [] = false
next_small (n ∷ rest) = leb n 3

abbrev pub is_prevention : ℕ → ℕ → List ℕ → Bool
is_prevention run b rest = leb 2 run && b == 3 && next_small rest

abbrev pub count_zero : ℕ → ℕ → ℕ
count_zero run b = if b == 0 then run + 1 else 0

unfoldable pub rbsp_loop : ℕ → List ℕ → List ℕ
rbsp_loop run [] = []
rbsp_loop run (b ∷ rest) = elim (is_prevention run b rest) [
  | true ↦ rbsp_loop 0 rest
  | false ↦ b ∷ rbsp_loop (count_zero run b) rest
]

unfoldable pub rbsp_from_ebsp : List ℕ → List ℕ
unfolding rbsp_loop
rbsp_from_ebsp ebsp = rbsp_loop 0 ebsp

-- With the index of each byte that is dropped.
unfoldable pub tracked_loop : ℕ → ℕ → List ℕ → List ℕ × List ℕ
tracked_loop i run [] = ([], [])
tracked_loop i run (b ∷ rest) = elim (is_prevention run b rest) [
  | true ↦ let (out, skipped) = tracked_loop (i + 1) 0 rest in (out, i ∷ skipped)
  | false ↦ let (out, skipped) = tracked_loop (i + 1) (count_zero run b) rest in (b ∷ out, skipped)
]

unfoldable pub rbsp_from_ebsp_tracked : List ℕ → List ℕ × List ℕ
unfolding tracked_loop
rbsp_from_ebsp_tracked ebsp = tracked_loop 0 0 ebsp

-- What an encoder does (clause 7.4.1 of the standard): after two zero bytes, a byte up to 3 is
-- preceded by a 3.
escape_loop : ℕ → List ℕ → List ℕ
escape_loop run [] = []
escape_loop run (b ∷ rest) =
    if leb 2 run && leb b 3
    then 3 ∷ b ∷ escape_loop (count_zero 0 b) rest
    else b ∷ escape_loop (count_zero run b) rest

pub escape : List ℕ → List ℕ
unfolding escape_loop
escape rbsp = escape_loop 0 rbsp

loop_end : (run : ℕ) → rbsp_loop run [] ≡ []
unfolding rbsp_loop
loop_end run = refl

loop_skip :
    (run b : ℕ) (rest : List ℕ)
    → is_prevention run b rest ≡ true
    → rbsp_loop run (b ∷ rest) ≡ rbsp_loop 0 rest
unfolding rbsp_loop
loop_skip run b rest e = rw (e, rbsp_loop)

loop_keep :
    (run b : ℕ) (rest : List ℕ)
    → is_prevention run b rest ≡ false
    → rbsp_loop run (b ∷ rest) ≡ b ∷ rbsp_loop (count_zero run b) rest
unfolding rbsp_loop
loop_keep run b rest e = rw (e, rbsp_loop)

not_prevention :
    (run b : ℕ) (rest : List ℕ) → (leb 2 run && leb b 3) ≡ false → is_prevention run b rest ≡ false
not_prevention run b rest e = ground arith

prevention :
    (run b : ℕ) (rest : List ℕ)
    → (leb 2 run && leb b 3) ≡ true
    → is_prevention run 3 (b ∷ rest) ≡ true
prevention run b rest e = ground arith

rbsp_loop-escape : (run : ℕ) (x : List ℕ) → rbsp_loop run (escape_loop run x) ≡ x
unfolding escape_loop
rbsp_loop-escape run [] = loop_end run
rbsp_loop-escape run (b ∷ rest) = elim (Bool-cases (leb 2 run && leb b 3)) [
  | inl e ↦ rw e (
      loop_skip run 3 (b ∷ escape_loop (count_zero 0 b) rest)
        (prevention run b (escape_loop (count_zero 0 b) rest) e)
      ∙ loop_keep 0 b (escape_loop (count_zero 0 b) rest) refl
      ∙ ap (λ t. b ∷ t) (rbsp_loop-escape (count_zero 0 b) rest))
  | inr e ↦ rw e (
      loop_keep run b (escape_loop (count_zero run b) rest)
        (not_prevention run b (escape_loop (count_zero run b) rest) e)
      ∙ ap (λ t. b ∷ t) (rbsp_loop-escape (count_zero run b) rest))
]

-- Unescaping undoes escaping, for every sequence of bytes.
pub rbsp_from_ebsp-escape : (x : List ℕ) → rbsp_from_ebsp (escape x) ≡ x
unfolding rbsp_from_ebsp escape
rbsp_from_ebsp-escape x = rbsp_loop-escape 0 x

-- `x`, which stands from the index `i` on, consists of the bytes `out` and of one byte 3 at each index
-- of `skipped`, in this order.
pub data Splits : ℕ → List ℕ → List ℕ → List ℕ → Type 0 where
  at_end : {i : ℕ} → Splits i [] [] []
  returned :
      {i b : ℕ} {x out skipped : List ℕ}
      → Splits (i + 1) x out skipped
      → Splits i (b ∷ x) (b ∷ out) skipped
  dropped :
      {i : ℕ} {x out skipped : List ℕ}
      → Splits (i + 1) x out skipped
      → Splits i (3 ∷ x) out (i ∷ skipped)

dropped_at :
    (i b : ℕ) (x out skipped : List ℕ)
    → b ≡ 3
    → Splits (i + 1) x out skipped
    → Splits i (b ∷ x) out (i ∷ skipped)
dropped_at i b x out skipped e h =
    subst (λ v. Splits i (v ∷ x) out (i ∷ skipped)) (sym e) (dropped h)

tracked_loop-Splits :
    (i run : ℕ) (x : List ℕ)
    → ((tracked_loop i run x).0 ≡ rbsp_loop run x)
      × Splits i x (rbsp_loop run x) (tracked_loop i run x).1
unfolding tracked_loop rbsp_loop
tracked_loop-Splits i run [] = (refl, at_end)
tracked_loop-Splits i run (b ∷ rest) = elim (Bool-cases (is_prevention run b rest)) [
  | inl e ↦
      let (same, ih) = tracked_loop-Splits (i + 1) 0 rest in
      let three : b ≡ 3 = ground (arith, e) in
      rw (tracked_loop, rbsp_loop, e)
        (same, dropped_at i b rest (rbsp_loop 0 rest) (tracked_loop (i + 1) 0 rest).1 three ih)
  | inr e ↦
      let (same, ih) = tracked_loop-Splits (i + 1) (count_zero run b) rest in
      rw (tracked_loop, rbsp_loop, e) (ap (λ v. b ∷ v) same, returned ih)
]

-- The tracked variant returns the same bytes, and the indices that it lists are exactly where the
-- input has the bytes 3 that are left out: the returned bytes, with a 3 at each of them, are the input.
pub rbsp_from_ebsp_tracked_lem :
    (x : List ℕ)
    → ((rbsp_from_ebsp_tracked x).0 ≡ rbsp_from_ebsp x)
      × Splits 0 x (rbsp_from_ebsp x) (rbsp_from_ebsp_tracked x).1
unfolding rbsp_from_ebsp rbsp_from_ebsp_tracked
rbsp_from_ebsp_tracked_lem x = tracked_loop-Splits 0 0 x
