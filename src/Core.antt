-- ===== src/Core.antt =====
-- The value types of crates/vidcull-core/src/types that the other parts share, and the `TrustLevel`
-- of crates/vidcull-db/src/repo/duplicate_groups.rs.
use Prim.Native.String.{String}
use Prim.Native.Char.{code}
use vidcull.Prelude.{ℕ, ◌*◌, Bool, true, false, ◌||◌, List, [], ◌∷◌, ◌==◌}

-- A row id of SQLite's AUTOINCREMENT tables: an i64 that starts at 1.
abbrev pub FileId : Type 0
FileId = ℕ

-- A text is the sequence of its characters' code points.
abbrev pub Text : Type 0
Text = List ℕ

-- The code points of a literal.
abbrev pub codes : String → Text
codes String.[] = []
codes (String.◌∷◌ c s) = code c ∷ codes s

pub data Codec : Type 0 where
  h264 h265 av1 vp9 mpeg2 : Codec
  other : Text → Codec

unfoldable pub is_fast_path_eligible : Codec → Bool
is_fast_path_eligible h264 = true
is_fast_path_eligible h265 = true
is_fast_path_eligible _ = false

pub data BestCopyMode : Type 0 where
  archival space_saving max_quality min_size compatible max_resolution : BestCopyMode

pub record Resolution : Type 0 where
  pub width : ℕ
  pub height : ℕ

-- The product of two u32 fits in a u64.
abbrev pub pixels : Resolution → ℕ
pixels r = r.width * r.height

abbrev pub is_empty : Resolution → Bool
is_empty r = r.width == 0 || r.height == 0

pub data TrustLevel : Type 0 where
  exact very_likely possible : TrustLevel
