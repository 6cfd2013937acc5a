-- ===== src/Tests/Assign.antt =====
-- Two groups: one of two copies, and one whose only copy is deleted.
use vidcull.Prelude.{
  ℕ, ◌≡◌, refl, sym, ap, ◌∙◌, inl, inr, false, Option, none, some, List, [], ◌∷◌, ◌∈◌, ◌==◌,
  if◌then◌else◌, arith,
}
use vidcull.Prelude.Int.{ℤ, pos}
use vidcull.Prelude.Result.{ok}
use vidcull.Core.{Resolution, BestCopyMode, max_quality, exact}
use vidcull.Db.Groups.{DuplicateGroup, FileRow, Tables}
use vidcull.Db.Groups.Active.{HasFileIds}
use vidcull.Db.Groups.Joined.{HasIds}
use vidcull.Matcher.Ranking.{StdOps}
use vidcull.Matcher.Ranking.Assign.{Columns, BestCopyOutcome, assign_best_copies}
use vidcull.Matcher.Ranking.Chosen.{stored, IsResolution, sized, Assigns, assign_best_copies_lem}

abbrev std : StdOps
std = record { F64 = ℕ; scale = λ v factor. v; to_lowercase = λ t. t }

-- Every stored setting decodes to one mode.
abbrev from_bytes : List ℕ → Option BestCopyMode
from_bytes bytes = some max_quality

abbrev columns : Columns ℕ
columns = record {
  bitrate_bps = none;
  codec = none;
  container = none;
  laplacian_variance = none;
  dct_energy = none;
  bpp = none;
  encoder_tags = none;
}

abbrev file : ℕ → ℕ → Option ℤ → FileRow (Columns ℕ)
file id height deleted = record {
  id = id;
  width_px = some (pos 640);
  height_px = some (pos height);
  size_bytes = pos 10;
  content_hash = none;
  deleted_at = deleted;
  columns = columns;
}

abbrev group : ℕ → DuplicateGroup
group id = record {
  id = id;
  trust_level = exact;
  best_file_id = some 3;
  created_at = pos 0;
  updated_at = pos 0;
  non_transitive = false;
}

abbrev tables : Tables (Columns ℕ)
tables = record {
  groups = group 1 ∷ group 2 ∷ [];
  next_id = 3;
  members = (1, 3) ∷ (1, 4) ∷ (2, 5) ∷ [];
  files = file 3 360 none ∷ file 4 480 none ∷ file 5 480 (some (pos 7)) ∷ [];
}

abbrev resolution_of : FileRow (Columns ℕ) → Option Resolution
resolution_of f =
    if f.id == 3
    then some (record { width = 640; height = 360 })
    else some (record { width = 640; height = 480 })

converts :
    (f : FileRow (Columns ℕ))
    → f ∈ tables.files
    → IsResolution f.width_px f.height_px (resolution_of f)
converts f (inl e) = rw e (sized 640 360 (omega arith) (omega arith))
converts f (inr (inl e)) = rw e (sized 640 480 (omega arith) (omega arith))
converts f (inr (inr (inl e))) = rw e (sized 640 480 (omega arith) (omega arith))
converts f (inr (inr (inr m))) = absurd m

known_files :
    (f : FileRow (Columns ℕ))
    → f ∈ tables.files
    → (f ≡ file f.id (if f.id == 3 then 360 else 480) (if f.id == 5 then some (pos 7) else none))
known_files f (inl e) = rw e refl
known_files f (inr (inl e)) = rw e refl
known_files f (inr (inr (inl e))) = rw e refl
known_files f (inr (inr (inr m))) = absurd m

distinct_files : HasFileIds tables.files
distinct_files f g m n e =
    known_files f m
    ∙ ap (λ id. file id (if id == 3 then 360 else 480) (if id == 5 then some (pos 7) else none)) e
    ∙ sym (known_files g n)

distinct : HasIds tables.groups
distinct = (((λ e. omega (arith, e)), tt), (tt, tt))

assign_best_copies_lem_example :
    (groups : List DuplicateGroup) × (o : BestCopyOutcome) × (assign_best_copies std from_bytes
        (some (1 ∷ []))
        (pos 9)
        tables
      ≡ ok (record tables { groups = groups }, o))
    × Assigns std max_quality resolution_of tables
        (pos 9)
        tables.groups
        groups
        (record { groups_updated = 0; groups_unchanged = 0; groups_without_active_members = 0 })
        o
assign_best_copies_lem_example =
    assign_best_copies_lem std from_bytes (some (1 ∷ [])) max_quality resolution_of (pos 9) tables
      (stored refl) distinct distinct_files converts
