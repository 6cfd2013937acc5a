-- ===== src/Tests/Ranking.antt =====
-- Three copies of one video.
use Prim.Native.Nat.Ordering.{gt}
use vidcull.Prelude.{ℕ, ◌≡◌, refl, ◌⊎◌, none, some, List, [], ◌∷◌, arith}
use vidcull.Prelude.Int.{pos}
use vidcull.Core.{h264, archival, codes}
use vidcull.Matcher.Ranking.{
  QualityScore, Candidate, StdOps, MemberRecord, lex, cmp, pick, pick_by, reduce, select_best,
  score_quality,
}
use vidcull.Matcher.Ranking.Best.{IsBest, select_best-IsBest, select_best_order}
use vidcull.Matcher.Ranking.Modes.{more_pixels_win}

abbrev score : ℕ → ℕ → QualityScore
score px size = record {
  pixels = px;
  encoder_score = 1;
  laplacian_variance = 0;
  dct_energy = 0;
  bpp_scaled = 0;
  effective_bitrate = 0;
  size_bytes = size;
}

abbrev copies : List Candidate
copies = (3, score 100 5) ∷ (1, score 100 5) ∷ (2, score 50 9) ∷ []

abbrev reordered : List Candidate
reordered = (2, score 50 9) ∷ (1, score 100 5) ∷ (3, score 100 5) ∷ []

smaller_id_on_a_tie : select_best copies ≡ some 1
unfolding select_best reduce pick pick_by lex
smaller_id_on_a_tie = refl

select_best-IsBest_example :
    ((copies ≡ []) × (select_best copies ≡ none))
    ⊎ ((w : Candidate) × (select_best copies ≡ some w.0) × IsBest w copies)
select_best-IsBest_example = select_best-IsBest copies

select_best_order_example : select_best copies ≡ select_best reordered
select_best_order_example = select_best_order copies reordered (λ c. (ground arith, ground arith))

-- Floats as numbers of thousandths.
abbrev std : StdOps
std = record { F64 = ℕ; scale = λ v factor. v; to_lowercase = λ t. t }

abbrev small : MemberRecord ℕ
small = record {
  file_id = 1;
  resolution = some (record { width = 640; height = 480 });
  bitrate_bps = none;
  codec = some h264;
  container = some (codes "mp4");
  size_bytes = pos 1000;
  laplacian_variance = none;
  dct_energy = none;
  bpp = none;
  encoder_tags = none;
}

abbrev large : MemberRecord ℕ
large = record small {
  file_id = 2;
  resolution = some (record { width = 1920; height = 1080 });
  size_bytes = pos 9000;
}

more_pixels_win_example :
    cmp (score_quality std large archival) (score_quality std small archival) ≡ gt
more_pixels_win_example = more_pixels_win std large small archival (λ e. cc) (omega arith)
