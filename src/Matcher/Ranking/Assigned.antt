-- ===== src/Matcher/Ranking/Assigned.antt =====
-- What `assign_best_copies` of crates/vidcull-matcher/src/ranking.rs leaves in the tables.
use mathlib.Core.List.{append_assoc}
use mathlib.Core.Option.{some-injective}
use vidcull.Prelude.{
  ℕ, ◌≡◌, ◌≢◌, refl, sym, ap, ◌∙◌, inl, inr, Option, some, List, [], ◌∷◌, ◌++◌, map, any-mem,
  ==_refl, ◌∈◌, All, All-append,
}
use vidcull.Prelude.Int.{ℤ}
use vidcull.Prelude.Result.{Result, Result-cases, ok, err, ◌>>=◌}
use vidcull.Core.{FileId, BestCopyMode}
use vidcull.Db.Groups.{
  DbError, DuplicateGroup, FileRow, GroupMemberRecord, Tables, has_file, list_members,
}
use vidcull.Db.Groups.Listing.{
  list_groups_with_member_records, combine_resolution, row_to_group_member,
}
use vidcull.Db.Groups.Joined.{
  HasIds, live_of, records_of, live_files_stored, list_groups_with_member_records_lem,
}
use vidcull.Matcher.Ranking.{StdOps, Candidate, select_best}
use vidcull.Matcher.Ranking.Best.{select_best-IsBest}
use vidcull.Matcher.Ranking.Assign.{
  Columns, BestCopyOutcome, no_best_outcome, score_members, assign_rows,
}
use vidcull.Matcher.Ranking.Finalize.{
  choose, choose-id, Changes, CountsMissing, Known, finalize_group_lem,
}

pub mem_of_map :
    {A B : Type 0} (f : A → B) (xs : List A) (b : B) → b ∈ map f xs → (a : A) × (a ∈ xs) × (b ≡ f a)
mem_of_map f [] b m = absurd m
mem_of_map f (x ∷ xs) b (inl e) = (x, inl refl, e)
mem_of_map f (x ∷ xs) b (inr m) = let (a, i, e) = mem_of_map f xs b m in (a, inr i, e)

module _ (std : StdOps) (mode : BestCopyMode) where
  -- The best copy among the members of a group.
  abbrev pub best_of : List (GroupMemberRecord (Columns std.F64)) → Option FileId
  best_of members = select_best (score_members std mode members)

  score_members-mem :
      (ms : List (GroupMemberRecord (Columns std.F64))) (c : Candidate)
      → c ∈ score_members std mode ms
      → (m : GroupMemberRecord (Columns std.F64)) × (m ∈ ms) × (c.0 ≡ m.file_id)
  unfolding score_members
  score_members-mem [] c i = absurd i
  score_members-mem (m ∷ ms) c (inl e) = (m, inl refl, ap (λ v. v.0) e)
  score_members-mem (m ∷ ms) c (inr i) = let (n, j, e) = score_members-mem ms c i in (n, inr j, e)

  best_of-mem :
      (ms : List (GroupMemberRecord (Columns std.F64))) (f : FileId)
      → best_of ms ≡ some f
      → (m : GroupMemberRecord (Columns std.F64)) × (m ∈ ms) × (f ≡ m.file_id)
  best_of-mem ms f h = elim (select_best-IsBest (score_members std mode ms)) [
    | inl (e, n) ↦ cc
    | inr (w, e, b) ↦
        let (m, i, same) = score_members-mem ms w b.among in
        let at : f ≡ w.0 = some-injective _ _ (sym h ∙ e) in (m, i, at ∙ same)
  ]

  -- The loop over the groups with the members `f g` of each, from the counters `o` to `o'`.
  abbrev pub Steps :
      (DuplicateGroup → List (GroupMemberRecord (Columns std.F64)))
      → ℤ
      → List DuplicateGroup
      → BestCopyOutcome
      → BestCopyOutcome
      → Type 0
  Steps f now [] o o' = o' ≡ o
  Steps f now (g ∷ gs) o o' =
      (o1 : BestCopyOutcome) × Changes (best_of (f g)) now g (choose (best_of (f g)) now g) o o1
      × CountsMissing (best_of (f g)) o o1
      × Steps f now gs o1 o'

  assign_rows_lem :
      (f : DuplicateGroup → List (GroupMemberRecord (Columns std.F64)))
      (gs before : List DuplicateGroup) (now : ℤ) (t : Tables (Columns std.F64))
      (o : BestCopyOutcome)
      → t.groups ≡ before ++ gs
      → HasIds gs
      → All (λ g. All (λ h. h.id ≢ g.id) before) gs
      → All (λ g. Known t (best_of (f g))) gs
      → (o' : BestCopyOutcome) × (assign_rows std mode (map (λ g. (g, f g)) gs) now (t, o)
          ≡ ok (record t { groups = before ++ map (λ g. choose (best_of (f g)) now g) gs }, o'))
        × Steps f now gs o o'
  unfolding assign_rows
  assign_rows_lem f [] before now t o rows ids apart known =
      (o, ap (λ v. ok (record t { groups = v }, o)) rows, refl)
  assign_rows_lem f (g ∷ gs) before now t o rows ids apart known =
      let scored = score_members std mode (f g) in
      let (o1, one, changes, missing) =
        finalize_group_lem g scored now t o before gs rows apart.0 ids.0 known.0 in
      let g' = choose (select_best scored) now g in
      let t1 : Tables (Columns std.F64) = record t { groups = before ++ (g' ∷ gs) } in
      let (o2, all, steps) =
        assign_rows_lem f gs (before ++ (g' ∷ [])) now t1 o1
          (sym (append_assoc before (g' ∷ []) gs)) ids.1 (next gs ids.0 apart.1) known.1 in
      let done = map (λ g. choose (best_of (f g)) now g) gs in
      (
        o2,
        rw one
            (all ∙ ap (λ v. ok (record t { groups = v }, o2)) (append_assoc before (g' ∷ []) done)),
        (o1, changes, missing, steps),
      )
    where
      next :
          (hs : List DuplicateGroup)
          → All (λ h. h.id ≢ g.id) hs
          → All (λ k. All (λ h. h.id ≢ k.id) before) hs
          → All (λ k. All (λ h. h.id ≢ k.id) (before ++ (choose (best_of (f g)) now g ∷ []))) hs
      next [] ne old = tt
      next (k ∷ hs) ne old = (
        All-append (λ h. h.id ≢ k.id) before (choose (best_of (f g)) now g ∷ []) old.0
            ((λ e. ne.0 (sym e ∙ choose-id (best_of (f g)) now g)), tt),
        next hs ne.1 old.1,
      )

  id_or_zero : Result DbError (GroupMemberRecord (Columns std.F64)) → ℕ
  id_or_zero (ok m) = m.file_id
  id_or_zero (err e) = 0

  member_id :
      (f : FileRow (Columns std.F64)) (m : GroupMemberRecord (Columns std.F64))
      → row_to_group_member f ≡ ok m
      → m.file_id ≡ f.id
  unfolding row_to_group_member id_or_zero
  member_id f m h = elim (Result-cases (combine_resolution f.width_px f.height_px)) [
    | inl (r, e) ↦
        let made : Result DbError (GroupMemberRecord (Columns std.F64)) = ok (record {
          file_id = f.id;
          resolution = r;
          size_bytes = f.size_bytes;
          columns = f.columns;
        }) in
        let h' : made ≡ ok m = rw e at h in sym (ap id_or_zero h')
    | inr (x, e) ↦ let h' : err x ≡ ok m = rw e at h in cc
  ]

  module _ (conv : FileRow (Columns std.F64) → GroupMemberRecord (Columns std.F64)) where
    pub all_assigned :
        (now : ℤ) (t : Tables (Columns std.F64))
        → HasIds t.groups
        → ((f : FileRow (Columns std.F64)) → f ∈ t.files → row_to_group_member f ≡ ok (conv f))
        → (o : BestCopyOutcome) × ((list_groups_with_member_records t >>= λ rows.
              assign_rows std mode rows now (t, no_best_outcome))
            ≡ ok (
              record t {
                groups = map (λ g. choose (best_of (records_of conv t g)) now g) t.groups;
              },
              o,
            ))
          × Steps (records_of conv t) now t.groups no_best_outcome o
    all_assigned now t ids each =
        let (o, e, steps) =
          assign_rows_lem (records_of conv t) t.groups [] now t no_best_outcome refl ids
            (apart t.groups) (known t.groups) in
        (o, rw (list_groups_with_member_records_lem conv t ids each) e, steps)
      where
        apart :
            (gs : List DuplicateGroup)
            → All (λ g. All {A = DuplicateGroup} (λ h. h.id ≢ g.id) []) gs
        apart [] = tt
        apart (g ∷ gs) = (tt, apart gs)

        stored : (g : DuplicateGroup) → Known t (best_of (records_of conv t g))
        stored g f h =
            let (m, i, same) = best_of-mem (records_of conv t g) f h in
            let (row, j, e) = mem_of_map conv (live_of t g) m i in
            let there = live_files_stored t (list_members g.id t) row j in
            let id = member_id row (conv row) (each row there) in
            let found : row.id ≡ f = sym (same ∙ (ap (λ v. v.file_id) e ∙ id)) in
            any-mem (has_file f) t.files row there (rw found (==_refl f))

        known : (gs : List DuplicateGroup) → All (λ g. Known t (best_of (records_of conv t g))) gs
        known [] = tt
        known (g ∷ gs) = (stored g, known gs)
