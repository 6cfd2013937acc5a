-- ===== src/Matcher/Ranking.antt =====
-- crates/vidcull-matcher/src/ranking.rs: the score of a copy, and the choice of the best copy of a
-- group. f64 values and Unicode lower-casing are parameters.
pub mod Order
pub mod Best
pub mod Modes
pub mod Assign
pub mod Finalize
pub mod Assigned
pub mod Chosen
use Prim.Native.Nat.{compare, Ordering}
use Prim.Native.Nat.Ordering.{lt, eq, gt}
use package.vidcull.Prelude.{
  ℕ, ◌+◌, ◌-◌, ◌*◌, ◌/◌, Bool, true, false, ◌||◌, ◌&&◌, not, Option, none, some, List, [], ◌∷◌, any,
  ltb, ◌==◌, if◌then◌else◌,
}
use package.vidcull.Prelude.Int.{ℤ, pos, negsuc}
use package.vidcull.Prelude.Word.{u64_max, sat_add, sat_mul}
use package.vidcull.Core.{
  FileId, Text, codes, Codec, h264, h265, av1, vp9, mpeg2, other, BestCopyMode, archival,
  space_saving, max_quality, min_size, compatible, max_resolution, Resolution, pixels, is_empty,
}

unfoldable pub codec_efficiency_of : Option Codec → ℕ
codec_efficiency_of none = 100
codec_efficiency_of (some av1) = 350
codec_efficiency_of (some h265) = 300
codec_efficiency_of (some vp9) = 260
codec_efficiency_of (some h264) = 200
codec_efficiency_of (some _) = 100

unfoldable pub codec_efficiency_x100 : Option Codec → BestCopyMode → ℕ
unfolding codec_efficiency_of
codec_efficiency_x100 codec space_saving = codec_efficiency_of codec
codec_efficiency_x100 codec max_quality = codec_efficiency_of codec
codec_efficiency_x100 codec _ = 100

pub record QualityScore : Type 0 where
  pub pixels : ℕ
  pub encoder_score : ℕ
  pub laplacian_variance : ℕ
  pub dct_energy : ℕ
  pub bpp_scaled : ℕ
  pub effective_bitrate : ℕ
  pub size_bytes : ℕ

-- `QualityScore::scalar`.
unfoldable pub scalar : QualityScore → ℕ
scalar q =
    sat_add
      (sat_add
        (sat_add
          (sat_add
            (sat_add (sat_add (sat_mul q.pixels 10_000_000) (sat_mul q.encoder_score 1_000_000))
              (sat_mul q.laplacian_variance 100))
            (sat_mul q.dct_energy 10))
          (q.bpp_scaled / 1000))
        (q.effective_bitrate / 1000))
      (q.size_bytes / 1_000_000)

-- The derived `Ord`: the fields in their order.
abbrev pub fields : QualityScore → List ℕ
fields q =
    q.pixels ∷ q.encoder_score ∷ q.laplacian_variance ∷ q.dct_energy ∷ q.bpp_scaled
    ∷ q.effective_bitrate ∷ q.size_bytes ∷ []

unfoldable pub lex : List ℕ → List ℕ → Ordering
lex [] [] = eq
lex [] (y ∷ ys) = lt
lex (x ∷ xs) [] = gt
lex (x ∷ xs) (y ∷ ys) = elim (compare x y) [ lt ↦ lt | eq ↦ lex xs ys | gt ↦ gt ]

abbrev pub cmp : QualityScore → QualityScore → Ordering
cmp a b = lex (fields a) (fields b)

abbrev pub Candidate : Type 0
Candidate = FileId × QualityScore

-- The closure of `reduce`: the higher score stays, and of equal scores the smaller id.
unfoldable pub pick_by : Ordering → Candidate → Candidate → Candidate
pick_by gt best cur = cur
pick_by lt best cur = best
pick_by eq best cur = if ltb cur.0 best.0 then cur else best

unfoldable pub pick : Candidate → Candidate → Candidate
pick best cur = pick_by (cmp cur.1 best.1) best cur

unfoldable pub reduce : Candidate → List Candidate → Candidate
reduce best [] = best
reduce best (cur ∷ rest) = reduce (pick best cur) rest

unfoldable pub select_best : List Candidate → Option FileId
select_best [] = none
select_best (first ∷ rest) = some (reduce first rest).0

abbrev pub is_mode : BestCopyMode → BestCopyMode → Bool
is_mode archival archival = true
is_mode space_saving space_saving = true
is_mode max_quality max_quality = true
is_mode min_size min_size = true
is_mode compatible compatible = true
is_mode max_resolution max_resolution = true
is_mode archival _ = false
is_mode space_saving _ = false
is_mode max_quality _ = false
is_mode min_size _ = false
is_mode compatible _ = false
is_mode max_resolution _ = false

unfoldable pub starts_with : Text → Text → Bool
starts_with text [] = true
starts_with [] (p ∷ ps) = false
starts_with (c ∷ cs) (p ∷ ps) = c == p && starts_with cs ps

-- `str::contains`.
unfoldable pub contains : Text → Text → Bool
unfolding starts_with
contains [] part = starts_with [] part
contains (c ∷ cs) part = starts_with (c ∷ cs) part || contains cs part

abbrev pub re_encode_keywords : List Text
re_encode_keywords =
    codes "handbrake"
    ∷ codes "svt-av1"
    ∷ codes "svtav1"
    ∷ codes "x264"
    ∷ codes "x265"
    ∷ codes "xvid"
    ∷ codes "divx"
    ∷ codes "lavc"
    ∷ codes "ffmpeg"
    ∷ []

abbrev pub is_h264 : Option Codec → Bool
is_h264 (some h264) = true
is_h264 _ = false

-- `u64::try_from(i).unwrap_or(0)` of an i64.
abbrev pub to_u64 : ℤ → ℕ
to_u64 (pos n) = n
to_u64 (negsuc n) = 0

abbrev pub to_u64_or_zero : Option ℤ → ℕ
to_u64_or_zero none = 0
to_u64_or_zero (some i) = to_u64 i

-- What `score_quality` takes of a member of a group.
pub record MemberRecord (F64 : Type 0) : Type 0 where
  pub file_id : FileId
  pub resolution : Option Resolution
  pub bitrate_bps : Option ℤ
  pub codec : Option Codec
  pub container : Option Text
  pub size_bytes : ℤ
  pub laplacian_variance : Option F64
  pub dct_energy : Option F64
  pub bpp : Option F64
  pub encoder_tags : Option Text

-- What the standard library does for floats and letters.
pub record StdOps : Type 1 where
  pub F64 : Type 0
  -- `(v * factor).max(0.0) as u64`; the cast saturates
  pub scale : F64 → ℕ → ℕ
  pub to_lowercase : Text → Text

module _ (std : StdOps) where
  open std use {F64, scale, to_lowercase}

  abbrev pub scaled : Option F64 → ℕ → ℕ
  scaled none factor = 0
  scaled (some v) factor = scale v factor

  abbrev pub pixels_of : Option Resolution → ℕ
  pixels_of none = 0
  pixels_of (some r) = if is_empty r then 0 else package.vidcull.Core.pixels r

  abbrev pub compatible_score : Option Codec → Option Text → ℕ
  compatible_score codec none = if is_h264 codec then 5 else 0
  compatible_score codec (some cont) =
      (if is_h264 codec then 5 else 0)
      + (if contains (to_lowercase cont) (codes "mp4") then 5 else 0)

  abbrev pub tags_score : Option Text → ℕ
  tags_score none = 1
  tags_score (some tags) =
      if any (λ k. contains (to_lowercase tags) k) re_encode_keywords then 0 else 1

  unfoldable pub encoder_score_of : BestCopyMode → Option Codec → Option Text → Option Text → ℕ
  encoder_score_of min_size codec container tags = 0
  encoder_score_of max_quality codec container tags = 1
  encoder_score_of max_resolution codec container tags = 1
  encoder_score_of compatible codec container tags = compatible_score codec container
  encoder_score_of archival codec container tags = tags_score tags
  encoder_score_of space_saving codec container tags = tags_score tags

  unfoldable pub score_quality : MemberRecord F64 → BestCopyMode → QualityScore
  unfolding encoder_score_of codec_efficiency_x100
  score_quality m mode =
      let small = is_mode mode min_size in
      record {
        pixels = if small then 0 else pixels_of m.resolution;
        encoder_score = encoder_score_of mode m.codec m.container m.encoder_tags;
        laplacian_variance = if small then 0 else scaled m.laplacian_variance 1000;
        dct_energy = if small then 0 else scaled m.dct_energy 1000;
        bpp_scaled = if small then 0 else scaled m.bpp 1_000_000;
        effective_bitrate =
            if small
            then 0
            else sat_mul (to_u64_or_zero m.bitrate_bps) (codec_efficiency_x100 m.codec mode);
        size_bytes = if small then u64_max - to_u64 m.size_bytes else to_u64 m.size_bytes;
      }
