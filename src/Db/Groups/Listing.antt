-- ===== src/Db/Groups/Listing.antt =====
-- The joins of crates/vidcull-db/src/repo/duplicate_groups.rs.
use vidcull.Prelude.{
  ℕ, Bool, true, ◌&&◌, not, Option, none, some, List, [], ◌∷◌, ◌++◌, map, any, retain, take, drop,
  length, leb, ◌==◌, if◌then◌else◌,
}
use vidcull.Prelude.Int.{ℤ, pos, negsuc}
use vidcull.Prelude.Result.{Result, ok, err, ◌>>=◌}
use vidcull.Prelude.Maps.{insert_id}
use vidcull.Prelude.Word.{u32_max}
use vidcull.Core.{FileId, Resolution, TrustLevel, exact}
use vidcull.Db.Groups.{
  DbError, bad_column, is_trust, DuplicateGroup, FileRow, GroupMemberRecord, Tables, has_group,
  is_member, is_some, list_members,
}

abbrev pub hash_len : ℕ
hash_len = 32

-- `u32::try_from`.
abbrev pub to_u32 : ℤ → Result DbError ℕ
to_u32 (pos n) = if leb n u32_max then ok n else err bad_column
to_u32 (negsuc n) = err bad_column

unfoldable pub combine_resolution : Option ℤ → Option ℤ → Result DbError (Option Resolution)
combine_resolution none none = ok none
combine_resolution (some w) (some h) = to_u32 w >>= λ width.
    to_u32 h >>= λ height. ok (some (record { width = width; height = height }))
combine_resolution none (some h) = err bad_column
combine_resolution (some w) none = err bad_column

abbrev pub opt_list : {A : Type 0} → Option A → List A
opt_list none = []
opt_list (some a) = a ∷ []

-- One row of a join after another: a row of the last group adds to it, another opens the next.
unfoldable pub push_row :
    {A : Type 0}
    → DuplicateGroup × Option A
    → List (DuplicateGroup × List A)
    → List (DuplicateGroup × List A)
push_row (g, m) [] = (g, opt_list m) ∷ []
push_row (g, m) ((last, ms) ∷ []) =
    if last.id == g.id then (last, ms ++ opt_list m) ∷ [] else (last, ms) ∷ (g, opt_list m) ∷ []
push_row row (x ∷ y ∷ out) = x ∷ push_row row (y ∷ out)

unfoldable pub fold_rows :
    {A : Type 0}
    → List (DuplicateGroup × Option A)
    → List (DuplicateGroup × List A)
    → List (DuplicateGroup × List A)
unfolding push_row
fold_rows [] out = out
fold_rows (row ∷ rows) out = fold_rows rows (push_row row out)

-- The rows of one group in a `LEFT JOIN`: one without a member if nothing matches.
abbrev pub left_join : {A : Type 0} → DuplicateGroup → List A → List (DuplicateGroup × Option A)
left_join g [] = (g, none) ∷ []
left_join g (a ∷ rest) = map (λ m. (g, some m)) (a ∷ rest)

abbrev pub collect_ids : (ℕ → Bool) → List (ℕ × FileId) → List FileId → List FileId
collect_ids p [] ids = ids
collect_ids p ((g, id) ∷ members) ids =
    collect_ids p members (if p g then insert_id id ids else ids)

module _ {F : Type 0} where
  abbrev pub file_at : FileId → List (FileRow F) → Option (FileRow F)
  file_at id [] = none
  file_at id (f ∷ fs) = if f.id == id then some f else file_at id fs

  -- `f.deleted_at IS NULL`, which holds too where the join found no file.
  abbrev pub not_deleted : Tables F → FileId → Bool
  not_deleted t id = elim (file_at id t.files) [ none ↦ true | some f ↦ not (is_some f.deleted_at) ]

  -- `m.file_id IS NULL OR f.deleted_at IS NULL`.
  abbrev pub row_shown : Tables F → DuplicateGroup × Option FileId → Bool
  row_shown t row = elim row.1 [ none ↦ true | some id ↦ not_deleted t id ]

  unfoldable pub joined_rows :
      Tables F → List DuplicateGroup → List (DuplicateGroup × Option FileId)
  unfolding list_members
  joined_rows t [] = []
  joined_rows t (g ∷ gs) =
      retain (row_shown t) (left_join g (list_members g.id t)) ++ joined_rows t gs

  unfoldable pub list_all_with_members : Tables F → List (DuplicateGroup × List FileId)
  unfolding joined_rows fold_rows
  list_all_with_members t = fold_rows (joined_rows t t.groups) []

  unfoldable pub row_to_group_member : FileRow F → Result DbError (GroupMemberRecord F)
  unfolding combine_resolution
  row_to_group_member f = combine_resolution f.width_px f.height_px >>= λ resolution. ok (record {
    file_id = f.id;
    resolution = resolution;
    size_bytes = f.size_bytes;
    columns = f.columns;
  })

  -- The members whose file exists and is not deleted.
  unfoldable pub live_files : Tables F → List FileId → List (FileRow F)
  live_files t [] = []
  live_files t (id ∷ ids) = elim (file_at id t.files) [
    | none ↦ live_files t ids
    | some f ↦ if is_some f.deleted_at then live_files t ids else f ∷ live_files t ids
  ]

  unfoldable pub record_rows :
      List (DuplicateGroup × Option (FileRow F))
      → Result DbError (List (DuplicateGroup × Option (GroupMemberRecord F)))
  unfolding row_to_group_member
  record_rows [] = ok []
  record_rows ((g, none) ∷ rows) = record_rows rows >>= λ rest. ok ((g, none) ∷ rest)
  record_rows ((g, some f) ∷ rows) =
      row_to_group_member f >>= λ m. record_rows rows >>= λ rest. ok ((g, some m) ∷ rest)

  unfoldable pub file_rows :
      Tables F → List DuplicateGroup → List (DuplicateGroup × Option (FileRow F))
  unfolding list_members live_files
  file_rows t [] = []
  file_rows t (g ∷ gs) = left_join g (live_files t (list_members g.id t)) ++ file_rows t gs

  unfoldable pub list_groups_with_member_records :
      Tables F → Result DbError (List (DuplicateGroup × List (GroupMemberRecord F)))
  unfolding file_rows record_rows fold_rows
  list_groups_with_member_records t =
      record_rows (file_rows t t.groups) >>= λ rows. ok (fold_rows rows [])

  unfoldable pub list_page : Option TrustLevel → ℕ → ℕ → Tables F → List DuplicateGroup
  list_page none limit offset t = take limit (drop offset t.groups)
  list_page (some trust) limit offset t =
      take limit (drop offset (retain (λ g. is_trust g.trust_level trust) t.groups))

  -- A group without members has no entry.
  unfoldable pub member_counts : List ℕ → Tables F → List (ℕ × ℕ)
  unfolding list_members
  member_counts [] t = []
  member_counts (id ∷ ids) t =
      let n = length (list_members id t) in
      let rest = member_counts ids t in if n == 0 then rest else (id, n) ∷ rest

  unfoldable pub sizes_of : List (FileRow F) → List (ℕ × FileId) → List (ℕ × FileId × ℤ)
  sizes_of files [] = []
  sizes_of files ((g, id) ∷ members) = elim (file_at id files) [
    | none ↦ sizes_of files members
    | some f ↦ (g, id, f.size_bytes) ∷ sizes_of files members
  ]

  unfoldable pub all_member_sizes : Tables F → List (ℕ × FileId × ℤ)
  unfolding sizes_of
  all_member_sizes t = sizes_of t.files t.members

  unfoldable pub find_groups_containing : FileId → Tables F → List DuplicateGroup
  find_groups_containing file_id t = retain (λ g. any (is_member g.id file_id) t.members) t.groups

  unfoldable pub list_exact_group_member_ids : Tables F → List FileId
  list_exact_group_member_ids t =
      collect_ids (λ id. any (λ g. has_group id g && is_trust g.trust_level exact) t.groups)
        t.members []

  -- A hash that has not its 32 bytes does not convert.
  unfoldable pub hashed_rows : List (FileRow F) → Result DbError (List (FileId × List ℕ))
  hashed_rows [] = ok []
  hashed_rows (f ∷ fs) =
      let rest = hashed_rows fs in
      elim f.content_hash [
        | none ↦ rest
        | some hash ↦
            if is_some f.deleted_at
            then rest
            else if length hash == hash_len
            then (rest >>= λ rows. ok ((f.id, hash) ∷ rows))
            else err bad_column
      ]

  -- `FilesRepo::list_hashed_active`.
  unfoldable pub list_hashed_active : Tables F → Result DbError (List (FileId × List ℕ))
  unfolding hashed_rows
  list_hashed_active t = hashed_rows t.files
