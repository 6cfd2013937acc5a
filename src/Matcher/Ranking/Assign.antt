-- ===== src/Matcher/Ranking/Assign.antt =====
-- `assign_best_copies` of crates/vidcull-matcher/src/ranking.rs over the tables of the groups. The bytes
-- of the settings are an argument.
use vidcull.Prelude.{
  ℕ, ◌+◌, Bool, true, false, Option, none, some, List, [], ◌∷◌, ◌==◌, if◌then◌else◌,
}
use vidcull.Prelude.Int.{ℤ}
use vidcull.Prelude.Result.{Result, ok, ◌>>=◌}
use vidcull.Core.{FileId, Text, Codec, BestCopyMode, archival}
use vidcull.Db.Groups.{DbError, DuplicateGroup, GroupMemberRecord, Tables, set_best}
use vidcull.Db.Groups.Listing.{list_groups_with_member_records}
use vidcull.Matcher.Ranking.{MemberRecord, StdOps, Candidate, score_quality, select_best}

-- The columns of a file that the joins hand on to the ranking.
pub record Columns (F64 : Type 0) : Type 0 where
  pub bitrate_bps : Option ℤ
  pub codec : Option Codec
  pub container : Option Text
  pub laplacian_variance : Option F64
  pub dct_energy : Option F64
  pub bpp : Option F64
  pub encoder_tags : Option Text

pub record BestCopyOutcome : Type 0 where
  pub groups_updated : ℕ
  pub groups_unchanged : ℕ
  pub groups_without_active_members : ℕ

abbrev pub no_best_outcome : BestCopyOutcome
no_best_outcome = record {
  groups_updated = 0;
  groups_unchanged = 0;
  groups_without_active_members = 0;
}

abbrev pub same_best : Option FileId → Option FileId → Bool
same_best none none = true
same_best none (some b) = false
same_best (some a) none = false
same_best (some a) (some b) = a == b

abbrev pub count_missing : Option FileId → BestCopyOutcome → BestCopyOutcome
count_missing none o = record o {
  groups_without_active_members = o.groups_without_active_members + 1;
}
count_missing (some best) o = o

abbrev pub to_member : {F64 : Type 0} → GroupMemberRecord (Columns F64) → MemberRecord F64
to_member m = record {
  file_id = m.file_id;
  resolution = m.resolution;
  bitrate_bps = m.columns.bitrate_bps;
  codec = m.columns.codec;
  container = m.columns.container;
  size_bytes = m.size_bytes;
  laplacian_variance = m.columns.laplacian_variance;
  dct_energy = m.columns.dct_energy;
  bpp = m.columns.bpp;
  encoder_tags = m.columns.encoder_tags;
}

module _ {F : Type 0} where
  unfoldable pub finalize_group :
      DuplicateGroup
      → List Candidate
      → ℤ
      → Tables F × BestCopyOutcome
      → Result DbError (Tables F × BestCopyOutcome)
  finalize_group group scored now (t, outcome) =
      let best = select_best scored in
      let counted = count_missing best outcome in
      if same_best best group.best_file_id
      then ok (t, record counted { groups_unchanged = counted.groups_unchanged + 1 })
      else set_best group.id best now t >>= λ t'.
          ok (t', record counted { groups_updated = counted.groups_updated + 1 })

module _ (std : StdOps) (mode : BestCopyMode) where
  unfoldable pub score_members : List (GroupMemberRecord (Columns std.F64)) → List Candidate
  score_members [] = []
  score_members (m ∷ ms) = (m.file_id, score_quality std (to_member m) mode) ∷ score_members ms

  unfoldable pub assign_rows :
      List (DuplicateGroup × List (GroupMemberRecord (Columns std.F64)))
      → ℤ
      → Tables (Columns std.F64) × BestCopyOutcome
      → Result DbError (Tables (Columns std.F64) × BestCopyOutcome)
  unfolding score_members finalize_group
  assign_rows [] now s = ok s
  assign_rows ((group, members) ∷ rows) now s =
      finalize_group group (score_members members) now s >>= λ s'. assign_rows rows now s'

-- `from_bytes` decodes the stored settings, of which it keeps the mode.
abbrev pub load_best_copy_mode : (List ℕ → Option BestCopyMode) → Option (List ℕ) → BestCopyMode
load_best_copy_mode from_bytes none = archival
load_best_copy_mode from_bytes (some bytes) = elim (from_bytes bytes) [
  | none ↦ archival
  | some mode ↦ mode
]

module _ (std : StdOps) (from_bytes : List ℕ → Option BestCopyMode) where
  unfoldable pub assign_best_copies :
      Option (List ℕ)
      → ℤ
      → Tables (Columns std.F64)
      → Result DbError (Tables (Columns std.F64) × BestCopyOutcome)
  unfolding assign_rows
  assign_best_copies settings now t =
      let mode = load_best_copy_mode from_bytes settings in
      list_groups_with_member_records t >>= λ rows.
      assign_rows std mode rows now (t, no_best_outcome)
