-- ===== src/Matcher/Ranking/Modes.antt =====
-- The modes of `score_quality` in crates/vidcull-matcher/src/ranking.rs.
use Prim.Native.Nat.{compare}
use Prim.Native.Nat.Ordering.{gt}
use vidcull.Prelude.{ℕ, ◌-◌, ◌≤◌, ◌<◌, ◌≡◌, ◌≢◌, refl, arith, List, [], ◌∷◌}
use vidcull.Prelude.Word.{u64_max}
use vidcull.Core.{BestCopyMode, min_size}
use vidcull.Matcher.Ranking.{
  StdOps, MemberRecord, score_quality, lex, cmp, pixels_of, to_u64, encoder_score_of,
}

module _ (std : StdOps) where
  open std use {F64}

  size_of_score :
      (n m : ℕ)
      → n ≤ u64_max
      → m ≤ u64_max
      → lex
          (0 ∷ 0 ∷ 0 ∷ 0 ∷ 0 ∷ 0 ∷ (u64_max - n) ∷ [])
          (0 ∷ 0 ∷ 0 ∷ 0 ∷ 0 ∷ 0 ∷ (u64_max - m) ∷ [])
        ≡ compare m n
  unfolding lex
  size_of_score n m hn hm = ground arith

  -- In the mode for the smallest file, copies rank by size alone, the smaller first; sizes are
  -- i64, and a negative one counts as 0.
  pub min_size_ranks_by_size :
      (a b : MemberRecord F64)
      → to_u64 a.size_bytes ≤ u64_max
      → to_u64 b.size_bytes ≤ u64_max
      → cmp (score_quality std a min_size) (score_quality std b min_size)
        ≡ compare (to_u64 b.size_bytes) (to_u64 a.size_bytes)
  unfolding score_quality encoder_score_of
  min_size_ranks_by_size a b ha hb = size_of_score (to_u64 a.size_bytes) (to_u64 b.size_bytes) ha hb

  first_field : (x y : ℕ) (xs ys : List ℕ) → y < x → lex (x ∷ xs) (y ∷ ys) ≡ gt
  unfolding lex
  first_field x y xs ys h = ground arith

  pixels_first :
      (a : MemberRecord F64) (mode : BestCopyMode)
      → mode ≢ min_size
      → (score_quality std a mode).pixels ≡ pixels_of std a.resolution
  unfolding score_quality
  pixels_first a min_size ne = absurd (ne refl)
  pixels_first a _ ne = refl

  -- In every other mode, the compatible one too, a copy with more pixels ranks above, whatever its codec,
  -- container, rate and size; a resolution with a side of 0 counts as no pixels.
  pub more_pixels_win :
      (a b : MemberRecord F64) (mode : BestCopyMode)
      → mode ≢ min_size
      → pixels_of std b.resolution < pixels_of std a.resolution
      → cmp (score_quality std a mode) (score_quality std b mode) ≡ gt
  more_pixels_win a b mode ne h =
      first_field _ _ _ _ (omega (arith, pixels_first a mode ne, pixels_first b mode ne))
