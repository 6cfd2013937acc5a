-- ===== src/Tests/Groups.antt =====
-- Tables with three files, two of the same bytes, of which one is in an exact group.
use vidcull.Prelude.{
  ℕ, zero, suc, ◌++◌, ◌⊎◌, ◌≡◌, refl, sym, ap, ◌∙◌, inl, inr, false, true, none, some, List, [],
  ◌∷◌, ◌∈◌, any, arith,
}
use vidcull.Prelude.Int.{pos}
use vidcull.Prelude.Result.{ok, err}
use vidcull.Prelude.Sort.{sort_by, insert_by}
use vidcull.Core.{exact}
use vidcull.Db.Groups.{
  bad_column, FileRow, DuplicateGroup, Tables, has_file, find_exact_group_containing, add_member,
  list_members,
}
use vidcull.Db.Groups.Listing.{list_hashed_active}
use vidcull.Matcher.Exact.{plan_exact_groups, by_hash, shared_hashes}
use vidcull.Matcher.Exact.Apply.{RebuildOutcome, no_outcome, apply_group, rebuild_exact_groups}
use vidcull.Matcher.Exact.Rebuild.{IsValid}
use vidcull.Matcher.Exact.Buckets.{IsApplied}
use vidcull.Matcher.Exact.Outcome.{apply_group_lem}
use vidcull.Matcher.Exact.Whole.{IsMalformed, rebuild_exact_groups-IsValid}

abbrev zeros : ℕ → List ℕ
zeros zero = []
zeros (suc n) = 0 ∷ zeros n

abbrev file : ℕ → List ℕ → FileRow Unit
file id hash = record {
  id = id;
  width_px = none;
  height_px = none;
  size_bytes = pos 10;
  content_hash = some (hash ++ zeros 31);
  deleted_at = none;
  columns = tt;
}

abbrev one_group : DuplicateGroup
one_group = record {
  id = 1;
  trust_level = exact;
  best_file_id = none;
  created_at = pos 0;
  updated_at = pos 0;
  non_transitive = false;
}

abbrev tables : Tables Unit
tables = record {
  groups = one_group ∷ [];
  next_id = 2;
  members = (1, 3) ∷ [];
  files = file 3 (5 ∷ []) ∷ file 4 (6 ∷ []) ∷ file 8 (5 ∷ []) ∷ [];
}

tables-IsValid : IsValid tables
tables-IsValid = record {
  single = λ f g g' m m' x x'. elim m [
    | inl e ↦ elim m' [ inl e' ↦ ap (λ v. v.0) e ∙ sym (ap (λ v. v.0) e') | inr k ↦ absurd k ]
    | inr k ↦ absurd k
  ];
  fresh = λ g f m. elim m [
    | inl e ↦ let id : g ≡ 1 = ap (λ v. v.0) e in omega arith
    | inr k ↦ absurd k
  ];
}

third_file_joins :
    rebuild_exact_groups (pos 9) tables
    ≡ ok (
      record tables { members = (1, 3) ∷ (1, 8) ∷ [] },
      record {
        groups_created = 0;
        groups_extended = 1;
        members_added = 1;
        buckets_skipped_ambiguous = 0;
      },
    )
unfolding rebuild_exact_groups list_hashed_active plan_exact_groups by_hash shared_hashes sort_by
    find_exact_group_containing add_member list_members insert_by
third_file_joins = refl

rebuild_exact_groups-IsValid_example :
    ((t' : Tables Unit) × (o : RebuildOutcome) × (rebuild_exact_groups (pos 9) tables ≡ ok (t', o))
      × IsValid t'
      × (t'.files ≡ tables.files)
      × ((f : FileRow Unit) → f ∈ tables.files → IsMalformed f → ⊥))
    ⊎ ((rebuild_exact_groups (pos 9) tables ≡ err bad_column)
        × ((f : FileRow Unit) × (f ∈ tables.files) × IsMalformed f))
rebuild_exact_groups-IsValid_example = rebuild_exact_groups-IsValid (pos 9) tables tables-IsValid

known : (f : ℕ) → f ∈ (3 ∷ 8 ∷ []) → any (has_file f) tables.files ≡ true
known f (inl e) = rw e refl
known f (inr (inl e)) = rw e refl
known f (inr (inr k)) = absurd k

apply_group_lem_example :
    (t' : Tables Unit) × (o' : RebuildOutcome) × (apply_group
        (record { hash = 5 ∷ []; members = 3 ∷ 8 ∷ [] })
        (pos 9)
        (tables, no_outcome)
      ≡ ok (t', o'))
    × IsApplied (3 ∷ 8 ∷ []) tables no_outcome t' o'
apply_group_lem_example =
    apply_group_lem (record { hash = 5 ∷ []; members = 3 ∷ 8 ∷ [] }) (pos 9) tables no_outcome
      tables-IsValid ((λ m. elim m [ inl e ↦ absurd (omega arith) | inr k ↦ k ]), ((λ m. m), tt))
      known
