-- ===== src/Matcher/Exact/Rebuild.antt =====
-- One bucket of `rebuild_exact_groups` in crates/vidcull-matcher/src/exact.rs: which group it makes or
-- extends, and what the tables keep.
use mathlib.Core.Path.{subst}
use vidcull.Prelude.{
  ℕ, ◌<◌, ◌≡◌, ◌↔◌, refl, sym, ap, ◌∙◌, inl, inr, true, Option, none, some, Option-cases, List, [],
  ◌∷◌, any, ◌∈◌,
}
use vidcull.Prelude.Result.{ok, ◌>>=◌}
use vidcull.Core.{FileId}
use vidcull.Matcher.Merge.Ids.{mem-insert_id, mem_of_insert_id}
use vidcull.Db.Groups.{Tables, has_group, has_file, insert_member, find_exact_group_containing}
use vidcull.Db.Groups.Members.{IsExact, Added, add_member-ok, insert_member-mem}
use vidcull.Matcher.Exact.Apply.{note_member, scan_members, add_members}

abbrev pub Pair : ℕ → FileId → List (ℕ × FileId) → Type 0
Pair g f members = ◌∈◌ {A = ℕ × FileId} (g, f) members

-- No file twice in a list.
abbrev pub IsDistinct : List FileId → Type 0
IsDistinct [] = Unit
IsDistinct (x ∷ xs) = (x ∈ xs → ⊥) × IsDistinct xs

module _ {F : Type 0} where
  -- A file is in at most one exact group, and no group that is still to be made has a row or a member.
  pub record IsValid (t : Tables F) : Type 0 where
    pub single :
        (f : FileId) (g g' : ℕ)
        → ◌∈◌ {A = ℕ × FileId} (g, f) t.members
        → ◌∈◌ {A = ℕ × FileId} (g', f) t.members
        → IsExact g t.groups
        → IsExact g' t.groups
        → g ≡ g'
    pub fresh : (g : ℕ) (f : FileId) → ◌∈◌ {A = ℕ × FileId} (g, f) t.members → g < t.next_id

  pub add_members-ok :
      (gid : ℕ) (ids : List FileId) (t : Tables F)
      → IsDistinct ids
      → any (has_group gid) t.groups ≡ true
      → ((f : FileId) → f ∈ ids → any (has_file f) t.files ≡ true)
      → ((f : FileId) → f ∈ ids → Pair gid f t.members → ⊥)
      → (t' : Tables F) × (add_members gid ids t ≡ ok t') × Added gid ids t t'
  unfolding add_members
  add_members-ok gid [] t d group known fresh =
      let stays : Added gid [] t t = record {
        groups = refl;
        next_id = refl;
        files = refl;
        members = λ g f. (λ m. inl m, λ q. elim q [ inl m ↦ m | inr (e, m) ↦ absurd m ]);
      } in
      (t, refl, stays)
  add_members-ok gid (id ∷ ids) t d group known fresh =
      let one = add_member-ok gid id t group (known id (inl refl)) (fresh id (inl refl)) in
      let next = insert_member gid id t in
      let (t', ran, added) =
        add_members-ok gid ids next d.1 group (λ f m. known f (inr m))
          (λ f m held. elim ((insert_member-mem gid id t gid f).0 held) [
            | inl old ↦ fresh f (inr m) old
            | inr (e, same) ↦ d.0 (subst (λ v. v ∈ ids) same m)
          ]) in
      (
        t',
        ap (λ r. r >>= λ t'. add_members gid ids t') one ∙ ran,
        record {
          groups = added.groups;
          next_id = added.next_id;
          files = added.files;
          members = λ g f. (
            λ m. elim ((added.members g f).0 m) [
              | inl i ↦ elim ((insert_member-mem gid id t g f).0 i) [
                | inl old ↦ inl old
                | inr (e, same) ↦ inr (e, inl same)
              ]
              | inr (e, i) ↦ inr (e, inr i)
            ],
            λ q. (added.members g f).1 (elim q [
              | inl old ↦ inl ((insert_member-mem gid id t g f).1 (inl old))
              | inr (e, inl same) ↦ inl ((insert_member-mem gid id t g f).1 (inr (e, same)))
              | inr (e, inr i) ↦ inr (e, i)
            ]),
          );
        },
      )

  scan_step :
      (t : Tables F) (id : FileId) (ids : List FileId) (o : Option ℕ)
      → find_exact_group_containing id t ≡ o
      → scan_members t (id ∷ ids) ≡ note_member o id (scan_members t ids)
  unfolding scan_members
  scan_step t id ids o e = ap (λ v. note_member v id (scan_members t ids)) e

  -- What the scan of a bucket finds.
  pub scan_members-mem :
      (t : Tables F) (ids : List FileId) (g : ℕ)
      → (g ∈ (scan_members t ids).0)
        ↔ ((f : FileId) × (f ∈ ids) × (find_exact_group_containing f t ≡ some g))
  unfolding scan_members
  scan_members-mem t [] g = (λ m. absurd m, λ (f, m, e). absurd m)
  scan_members-mem t (id ∷ ids) g =
      let ih = scan_members-mem t ids g in
      elim (Option-cases (find_exact_group_containing id t)) [
        | inl e ↦
            subst
              (λ (s : List ℕ × List FileId).
                (g ∈ s.0)
                ↔ ((f : FileId) × (f ∈ (id ∷ ids)) × (find_exact_group_containing f t ≡ some g)))
              (sym (scan_step t id ids none e))
              (
                λ m. let (f, i, q) = ih.0 m in (f, inr i, q),
                λ (f, i, q). elim i [
                  | inl same ↦
                      let no : none ≡ some g =
                        sym e ∙ ap (λ v. find_exact_group_containing v t) (sym same) ∙ q in
                      cc
                  | inr j ↦ ih.1 (f, j, q)
                ],
              )
        | inr (g0, e) ↦
            subst
              (λ (s : List ℕ × List FileId).
                (g ∈ s.0)
                ↔ ((f : FileId) × (f ∈ (id ∷ ids)) × (find_exact_group_containing f t ≡ some g)))
              (sym (scan_step t id ids (some g0) e))
              (
                λ m. elim (mem_of_insert_id g0 g (scan_members t ids).0 m) [
                  | inl same ↦ (id, inl refl, e ∙ ap some (sym same))
                  | inr j ↦ let (f, i, q) = ih.0 j in (f, inr i, q)
                ],
                λ (f, i, q). mem-insert_id g0 g (scan_members t ids).0 (elim i [
                  | inl same ↦
                      let both : some g0 ≡ some g =
                        sym e ∙ ap (λ v. find_exact_group_containing v t) (sym same) ∙ q in
                      inl (cc)
                  | inr j ↦ inr (ih.1 (f, j, q))
                ]),
              )
      ]

  pub scan_members-unmapped :
      (t : Tables F) (ids : List FileId)
      → IsDistinct ids
      → IsDistinct (scan_members t ids).1
        × ((f : FileId)
            → (f ∈ (scan_members t ids).1) ↔ ((f ∈ ids) × (find_exact_group_containing f t ≡ none)))
  unfolding scan_members
  scan_members-unmapped t [] d = (tt, λ f. (λ m. absurd m, λ (m, e). m))
  scan_members-unmapped t (id ∷ ids) d =
      let (rest, ih) = scan_members-unmapped t ids d.1 in
      elim (Option-cases (find_exact_group_containing id t)) [
        | inl e ↦
            subst
              (λ (s : List ℕ × List FileId).
                IsDistinct s.1
                × ((f : FileId)
                    → (f ∈ s.1) ↔ ((f ∈ (id ∷ ids)) × (find_exact_group_containing f t ≡ none))))
              (sym (scan_step t id ids none e))
              (
                (λ m. d.0 ((ih id).0 m).0, rest),
                λ f. (
                  λ m. elim m [
                    | inl same ↦ (inl same, ap (λ v. find_exact_group_containing v t) same ∙ e)
                    | inr i ↦ let (j, q) = (ih f).0 i in (inr j, q)
                  ],
                  λ (m, q). elim m [ inl same ↦ inl same | inr i ↦ inr ((ih f).1 (i, q)) ],
                ),
              )
        | inr (g0, e) ↦
            subst
              (λ (s : List ℕ × List FileId).
                IsDistinct s.1
                × ((f : FileId)
                    → (f ∈ s.1) ↔ ((f ∈ (id ∷ ids)) × (find_exact_group_containing f t ≡ none))))
              (sym (scan_step t id ids (some g0) e))
              (
                rest,
                λ f. (
                  λ m. let (j, q) = (ih f).0 m in (inr j, q),
                  λ (m, q). elim m [
                    | inl same ↦
                        let no : some g0 ≡ none =
                          sym e ∙ ap (λ v. find_exact_group_containing v t) (sym same) ∙ q in
                        cc
                    | inr i ↦ (ih f).1 (i, q)
                  ],
                ),
              )
      ]
