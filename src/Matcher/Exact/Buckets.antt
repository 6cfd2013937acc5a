-- ===== src/Matcher/Exact/Buckets.antt =====
-- `apply_group` and `rebuild_exact_groups` of crates/vidcull-matcher/src/exact.rs on valid tables.
use mathlib.Core.Path.{subst}
use vidcull.Prelude.{
  ℕ, ◌+◌, ◌<◌, ◌≡◌, ◌↔◌, refl, sym, ap, ◌∙◌, ◌⊎◌, inl, inr, true, false, none, some, List, [], ◌∷◌,
  ◌++◌, any, any-mem, mem-any, length, ◌==◌, Bool-cases, ==→≡, ==_refl, ◌∈◌, mem-append_right,
  mem_of_append, arith,
}
use vidcull.Prelude.Int.{ℤ}
use vidcull.Prelude.Result.{ok, ◌>>=◌}
use vidcull.Core.{FileId, exact}
use vidcull.Db.Groups.{
  DuplicateGroup, Tables, has_group, has_file, new_group, create, list_members,
  find_exact_group_containing,
}
use vidcull.Db.Groups.Members.{
  IsExact, exact_group_of-some, exact_group_of-none, mem-list_members, Added,
}
use vidcull.Matcher.Exact.{ExactGroup}
use vidcull.Matcher.Exact.Apply.{RebuildOutcome, create_new, skip_bucket, is_foreign}
use vidcull.Matcher.Exact.Rebuild.{Pair, IsDistinct, IsValid, add_members-ok}

pub IsExact-group : (g : ℕ) (gs : List DuplicateGroup) → IsExact g gs → any (has_group g) gs ≡ true
IsExact-group g gs (row, i, same, level) = any-mem (has_group g) gs row i (rw same (==_refl g))

IsExact-append :
    (g : ℕ) (gs : List DuplicateGroup) (row : DuplicateGroup)
    → IsExact g (gs ++ (row ∷ []))
    → (g ≡ row.id) ⊎ IsExact g gs
IsExact-append g gs row (r, i, same, level) = elim (mem_of_append gs (row ∷ []) r i) [
  | inl j ↦ inr (r, j, same, level)
  | inr (inl e) ↦ inl (sym same ∙ ap (λ v. v.id) e)
  | inr (inr j) ↦ absurd j
]

pub not_foreign : (ids : List FileId) (f : FileId) → is_foreign ids f ≡ false → f ∈ ids
not_foreign ids f h = elim (Bool-cases (any (λ x. x == f) ids)) [
  | inl e ↦ let (x, i, same) = mem-any (λ x. x == f) ids e in subst (λ v. v ∈ ids) (==→≡ x f same) i
  | inr e ↦ let no : true ≡ false = rw e at h in cc
]

pub no_length : (l : List FileId) (f : FileId) → f ∈ l → (length l == 0) ≡ true → ⊥
no_length [] f m h = m
no_length (x ∷ l) f m h = absurd (omega (arith, ==→≡ (length (x ∷ l)) 0 h))

module _ {F : Type 0} where
  create-IsValid : (now : ℤ) (t : Tables F) → IsValid t → IsValid (create exact now t).0
  unfolding create
  create-IsValid now t w = record {
    single = λ f g g' m m' x x'. w.single f g g' m m' (old g f m x) (old g' f m' x');
    fresh = λ g f m. omega (arith, w.fresh g f m);
  }
    where
      old :
          (g : ℕ) (f : FileId)
          → Pair g f t.members
          → IsExact g (t.groups ++ (new_group exact false now t.next_id ∷ []))
          → IsExact g t.groups
      old g f m x = elim (IsExact-append g t.groups (new_group exact false now t.next_id) x) [
        | inl e ↦ absurd (omega (arith, w.fresh g f m, e))
        | inr y ↦ y
      ]

  pub Added-IsValid :
      (gid : ℕ) (ids : List FileId) (t t' : Tables F)
      → Added gid ids t t'
      → IsValid t
      → gid < t.next_id
      → ((f : FileId) (g : ℕ) → f ∈ ids → IsExact g t.groups → Pair g f t.members → ⊥)
      → IsValid t'
  Added-IsValid gid ids t t' a w low alone = record {
    single = λ f g g' m m' x x'.
        let y = subst (λ v. IsExact g v) a.groups x in
        let y' = subst (λ v. IsExact g' v) a.groups x' in
        elim ((a.members g f).0 m) [
          | inl i ↦ elim ((a.members g' f).0 m') [
            | inl i' ↦ w.single f g g' i i' y y'
            | inr (e', j') ↦ absurd (alone f g j' y i)
          ]
          | inr (e, j) ↦ elim ((a.members g' f).0 m') [
            | inl i' ↦ absurd (alone f g' j y' i')
            | inr (e', j') ↦ e ∙ sym e'
          ]
        ];
    fresh = λ g f m. elim ((a.members g f).0 m) [
      | inl i ↦ omega (arith, w.fresh g f i, a.next_id)
      | inr (e, j) ↦ omega (arith, e, low, a.next_id)
    ];
  }

  pub find_none :
      (t : Tables F) (f : FileId) (g : ℕ)
      → find_exact_group_containing f t ≡ none
      → IsExact g t.groups
      → Pair g f t.members
      → ⊥
  unfolding find_exact_group_containing
  find_none t f g e x m = exact_group_of-none f t.members t.groups g e x m

  pub find_some :
      (t : Tables F) (f : FileId) (g : ℕ)
      → find_exact_group_containing f t ≡ some g
      → IsExact g t.groups × Pair g f t.members
  unfolding find_exact_group_containing
  find_some t f g e = exact_group_of-some f t.members t.groups g e

  -- What a bucket leaves: it is skipped, or there is an exact group with just its members.
  pub record IsApplied (ids : List FileId) (t : Tables F) (o : RebuildOutcome) (t' : Tables F)
      (o' : RebuildOutcome) : Type 0 where
    pub valid : IsValid t'
    pub files : t'.files ≡ t.files
    pub outcome :
        ((t' ≡ t) × (o' ≡ skip_bucket o))
        ⊎ ((gid : ℕ) × IsExact gid t'.groups
            × ((f : FileId) → (f ∈ list_members gid t') ↔ (f ∈ ids)))

  -- A bucket none of whose members is in an exact group.
  pub create_new-IsApplied :
      (group : ExactGroup) (now : ℤ) (t : Tables F) (o : RebuildOutcome)
      → IsValid t
      → IsDistinct group.members
      → ((f : FileId) → f ∈ group.members → any (has_file f) t.files ≡ true)
      → ((f : FileId) → f ∈ group.members → find_exact_group_containing f t ≡ none)
      → (t' : Tables F) × (o' : RebuildOutcome) × (create_new group now (t, o) ≡ ok (t', o'))
        × IsApplied group.members t o t' o'
  unfolding create_new create
  create_new-IsApplied group now t o w d known nowhere =
      let gid = t.next_id in
      let t1 : Tables F = (create exact now t).0 in
      let row = new_group exact false now t.next_id in
      let w1 : IsValid t1 = create-IsValid now t w in
      let made : IsExact t.next_id t1.groups =
        (row, mem-append_right t.groups (row ∷ []) row (inl refl), refl, refl) in
      let not_yet : (f : FileId) → Pair t.next_id f t.members → ⊥ =
        λ f m. absurd (omega (arith, w.fresh t.next_id f m)) in
      let (t', ran, a) =
        add_members-ok t.next_id group.members t1 d (IsExact-group t.next_id t1.groups made) known
          (λ f i m. not_yet f m) in
      (
        t',
        record o {
          groups_created = o.groups_created + 1;
          members_added = o.members_added + length group.members;
        },
        ap
            (λ r. r >>= λ t''. ok (
              t'',
              record o {
                groups_created = o.groups_created + 1;
                members_added = o.members_added + length group.members;
              },
            ))
            ran,
        record {
          valid = Added-IsValid t.next_id group.members t1 t' a w1 (omega arith) (λ f g i x m.
              elim (IsExact-append g t.groups row x) [
                | inl e ↦ absurd (omega (arith, w.fresh g f m, e))
                | inr y ↦ find_none t f g (nowhere f i) y m
              ]);
          files = a.files;
          outcome = inr (
            t.next_id,
            subst (λ v. IsExact t.next_id v) (sym a.groups) made,
            λ f. (
              λ m. elim ((a.members t.next_id f).0 ((mem-list_members t.next_id f t').0 m)) [
                | inl i ↦ absurd (not_yet f i)
                | inr (e, j) ↦ j
              ],
              λ j. (mem-list_members t.next_id f t').1 ((a.members t.next_id f).1 (inr (refl, j))),
            ),
          );
        },
      )
