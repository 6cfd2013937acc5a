-- ===== src/Matcher/Exact/Apply.antt =====
-- `rebuild_exact_groups` and `apply_group` of crates/vidcull-matcher/src/exact.rs over the tables of the
-- groups. The transaction is the result: an error leaves the tables as they were.
use vidcull.Prelude.{
  ℕ, ◌+◌, Bool, not, Option, none, some, List, [], ◌∷◌, any, length, ◌==◌, if◌then◌else◌,
}
use vidcull.Prelude.Int.{ℤ}
use vidcull.Prelude.Result.{Result, ok, ◌>>=◌}
use vidcull.Prelude.Maps.{insert_id}
use vidcull.Core.{FileId, exact}
use vidcull.Db.Groups.{
  DbError, Tables, create, add_member, list_members, find_exact_group_containing,
}
use vidcull.Db.Groups.Listing.{list_hashed_active}
use vidcull.Matcher.Exact.{ExactGroup, plan_exact_groups}

pub record RebuildOutcome : Type 0 where
  pub groups_created : ℕ
  pub groups_extended : ℕ
  pub members_added : ℕ
  pub buckets_skipped_ambiguous : ℕ

abbrev pub no_outcome : RebuildOutcome
no_outcome = record {
  groups_created = 0;
  groups_extended = 0;
  members_added = 0;
  buckets_skipped_ambiguous = 0;
}

abbrev pub skip_bucket : RebuildOutcome → RebuildOutcome
skip_bucket outcome = record outcome {
  buckets_skipped_ambiguous = outcome.buckets_skipped_ambiguous + 1;
}

abbrev pub is_foreign : List FileId → FileId → Bool
is_foreign bucket m = not (any (λ f. f == m) bucket)

abbrev pub note_member : Option ℕ → FileId → List ℕ × List FileId → List ℕ × List FileId
note_member (some gid) id (existing, unmapped) = (insert_id gid existing, unmapped)
note_member none id (existing, unmapped) = (existing, id ∷ unmapped)

module _ {F : Type 0} where
  -- The exact groups that have one of the members, and the members that are in none.
  unfoldable pub scan_members : Tables F → List FileId → List ℕ × List FileId
  scan_members t [] = ([], [])
  scan_members t (id ∷ ids) = note_member (find_exact_group_containing id t) id (scan_members t ids)

  unfoldable pub add_members : ℕ → List FileId → Tables F → Result DbError (Tables F)
  add_members gid [] t = ok t
  add_members gid (id ∷ ids) t = add_member gid id t >>= λ t'. add_members gid ids t'

  unfoldable pub create_new :
      ExactGroup → ℤ → Tables F × RebuildOutcome → Result DbError (Tables F × RebuildOutcome)
  unfolding add_members
  create_new group now (t, outcome) =
      let (t', gid) = create exact now t in
      add_members gid group.members t' >>= λ t''. ok (
        t'',
        record outcome {
          groups_created = outcome.groups_created + 1;
          members_added = outcome.members_added + length group.members;
        },
      )

  unfoldable pub extend_existing :
      ℕ
      → ExactGroup
      → List FileId
      → Tables F × RebuildOutcome
      → Result DbError (Tables F × RebuildOutcome)
  unfolding add_members
  extend_existing gid group unmapped (t, outcome) =
      if any (is_foreign group.members) (list_members gid t)
      then ok (t, skip_bucket outcome)
      else if length unmapped == 0
      then ok (t, outcome)
      else add_members gid unmapped t >>= λ t'. ok (
        t',
        record outcome {
          groups_extended = outcome.groups_extended + 1;
          members_added = outcome.members_added + length unmapped;
        },
      )

  abbrev pub by_count :
      List ℕ
      → ExactGroup
      → List FileId
      → ℤ
      → Tables F × RebuildOutcome
      → Result DbError (Tables F × RebuildOutcome)
  by_count [] group unmapped now s = create_new group now s
  by_count (gid ∷ []) group unmapped now s = extend_existing gid group unmapped s
  by_count (gid ∷ gid' ∷ gids) group unmapped now s = ok (s.0, skip_bucket s.1)

  unfoldable pub apply_group :
      ExactGroup → ℤ → Tables F × RebuildOutcome → Result DbError (Tables F × RebuildOutcome)
  unfolding scan_members create_new extend_existing
  apply_group group now s =
      let (existing, unmapped) = scan_members s.0 group.members in
      by_count existing group unmapped now s

  unfoldable pub apply_all :
      List ExactGroup → ℤ → Tables F × RebuildOutcome → Result DbError (Tables F × RebuildOutcome)
  unfolding apply_group
  apply_all [] now s = ok s
  apply_all (group ∷ groups) now s = apply_group group now s >>= λ s'. apply_all groups now s'

  unfoldable pub rebuild_exact_groups : ℤ → Tables F → Result DbError (Tables F × RebuildOutcome)
  unfolding apply_all
  rebuild_exact_groups now t =
      list_hashed_active t >>= λ hashed. apply_all (plan_exact_groups hashed) now (t, no_outcome)
