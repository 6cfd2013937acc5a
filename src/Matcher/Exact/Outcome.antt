-- ===== src/Matcher/Exact/Outcome.antt =====
-- Every bucket of `rebuild_exact_groups` in crates/vidcull-matcher/src/exact.rs, and the whole run.
use mathlib.Core.Path.{subst}
use vidcull.Prelude.{
  ℕ, ◌+◌, ◌<◌, ◌≡◌, ◌↔◌, refl, sym, ◌⊎◌, inl, inr, Bool, true, false, none, some, Option-cases,
  List, [], ◌∷◌, any, any-mem, length, ◌==◌, Bool-cases, ◌∈◌,
}
use vidcull.Prelude.Int.{ℤ}
use vidcull.Prelude.Result.{ok}
use vidcull.Core.{FileId}
use vidcull.Db.Groups.{Tables, has_file, list_members, find_exact_group_containing}
use vidcull.Db.Groups.Members.{IsExact, mem-list_members}
use vidcull.Matcher.Exact.{ExactGroup}
use vidcull.Matcher.Exact.Apply.{
  RebuildOutcome, scan_members, skip_bucket, is_foreign, extend_existing, by_count, apply_group,
}
use vidcull.Matcher.Exact.Rebuild.{
  Pair, IsDistinct, IsValid, add_members-ok, scan_members-mem, scan_members-unmapped,
}
use vidcull.Matcher.Exact.Buckets.{
  IsExact-group, not_foreign, no_length, Added-IsValid, find_none, find_some, IsApplied,
  create_new-IsApplied,
}

module _ {F : Type 0} where
  skipped :
      (ids : List FileId) (t : Tables F) (o : RebuildOutcome)
      → IsValid t
      → IsApplied ids t o t (skip_bucket o)
  skipped ids t o w = record { valid = w; files = refl; outcome = inl (refl, refl) }

  -- A bucket whose members are in one exact group or in none.
  extend_existing-IsApplied :
      (gid : ℕ) (group : ExactGroup) (unmapped : List FileId) (t : Tables F) (o : RebuildOutcome)
      → IsValid t
      → IsExact gid t.groups
      → gid < t.next_id
      → IsDistinct unmapped
      → ((f : FileId) → f ∈ group.members → any (has_file f) t.files ≡ true)
      → ((f : FileId)
          → (f ∈ unmapped) ↔ ((f ∈ group.members) × (find_exact_group_containing f t ≡ none)))
      → ((f : FileId) → f ∈ group.members → (f ∈ unmapped) ⊎ Pair gid f t.members)
      → (t' : Tables F) × (o' : RebuildOutcome) × (extend_existing gid group unmapped (t, o)
          ≡ ok (t', o'))
        × IsApplied group.members t o t' o'
  unfolding extend_existing
  extend_existing-IsApplied gid group unmapped t o w is_exact low d known un each =
      elim (Bool-cases (any (is_foreign group.members) (list_members gid t))) [
        | inl e ↦ (t, skip_bucket o, rw e refl, skipped group.members t o w)
        | inr e ↦
            let inside : (f : FileId) → f ∈ list_members gid t → f ∈ group.members = λ f m.
              not_foreign group.members f (elim (Bool-cases (is_foreign group.members f)) [
                | inl q ↦
                    let no = any-mem (is_foreign group.members) (list_members gid t) f m q in
                    absurd (clash _ e no)
                | inr q ↦ q
              ]) in
            elim (Bool-cases (length unmapped == 0)) [
              | inl z ↦ (
                t,
                o,
                rw (e, z) refl,
                record {
                  valid = w;
                  files = refl;
                  outcome = inr (
                    gid,
                    is_exact,
                    λ f. (
                      inside f,
                      λ i. elim (each f i) [
                        | inl j ↦ absurd (no_length unmapped f j z)
                        | inr p ↦ (mem-list_members gid f t).1 p
                      ],
                    ),
                  );
                },
              )
              | inr z ↦
                  let (t', ran, a) =
                    add_members-ok gid unmapped t d (IsExact-group gid t.groups is_exact)
                      (λ f j. known f ((un f).0 j).0)
                      (λ f j m. find_none t f gid ((un f).0 j).1 is_exact m) in
                  (
                    t',
                    record o {
                      groups_extended = o.groups_extended + 1;
                      members_added = o.members_added + length unmapped;
                    },
                    rw (e, z, ran) refl,
                    record {
                      valid =
                          Added-IsValid gid unmapped t t' a w low
                            (λ f g j x m. find_none t f g ((un f).0 j).1 x m);
                      files = a.files;
                      outcome = inr (
                        gid,
                        subst (λ v. IsExact gid v) (sym a.groups) is_exact,
                        λ f. (
                          λ m. elim ((a.members gid f).0 ((mem-list_members gid f t').0 m)) [
                            | inl p ↦ inside f ((mem-list_members gid f t).1 p)
                            | inr (q, j) ↦ ((un f).0 j).0
                          ],
                          λ i. (mem-list_members gid f t').1 (
                              (a.members gid f).1
                                (elim (each f i) [ inl j ↦ inr (refl, j) | inr p ↦ inl p ])),
                        ),
                      );
                    },
                  )
            ]
      ]
    where
      clash : (b : Bool) → b ≡ false → b ≡ true → ⊥
      clash b e h = cc

-- On valid tables a bucket of different files of the table never fails; it keeps the tables valid,
-- and it is skipped and counted as ambiguous, with nothing changed, or leaves an exact group whose
-- members are exactly the bucket's.
pub apply_group_lem :
    {F : Type 0} (group : ExactGroup) (now : ℤ) (t : Tables F) (o : RebuildOutcome)
    → IsValid t
    → IsDistinct group.members
    → ((f : FileId) → f ∈ group.members → any (has_file f) t.files ≡ true)
    → (t' : Tables F) × (o' : RebuildOutcome) × (apply_group group now (t, o) ≡ ok (t', o'))
      × IsApplied group.members t o t' o'
unfolding apply_group
apply_group_lem {F = F} group now t o w d known =
    by_cases (scan_members t group.members).0 (scan_members-mem t group.members)
  where
    by_cases :
        (existing : List ℕ)
        → ((g : ℕ)
            → (g ∈ existing)
              ↔ ((f : FileId) × (f ∈ group.members) × (find_exact_group_containing f t ≡ some g)))
        → (t' : Tables F) × (o' : RebuildOutcome) × (by_count existing group
              (scan_members t group.members).1
              now
              (t, o)
            ≡ ok (t', o'))
          × IsApplied group.members t o t' o'
    by_cases [] found = create_new-IsApplied group now t o w d known (λ f i.
        elim (Option-cases (find_exact_group_containing f t)) [
          | inl e ↦ e
          | inr (g, e) ↦ absurd ((found g).1 (f, i, e))
        ])
    by_cases (gid ∷ []) found =
        let (f0, i0, e0) = (found gid).0 (inl refl) in
        let (is_exact, m0) = find_some t f0 gid e0 in
        let (du, mem) = scan_members-unmapped t group.members d in
        extend_existing-IsApplied gid group (scan_members t group.members).1 t o w is_exact
          (w.fresh gid f0 m0) du known mem
          (λ f i. elim (Option-cases (find_exact_group_containing f t)) [
            | inl e ↦ inl ((mem f).1 (i, e))
            | inr (g, e) ↦ elim ((found g).1 (f, i, e)) [
              | inl same ↦ inr (subst (λ v. Pair v f t.members) same ((find_some t f g e).1))
              | inr j ↦ absurd j
            ]
          ])
    by_cases (gid ∷ gid' ∷ gids) found = (t, skip_bucket o, refl, skipped group.members t o w)
