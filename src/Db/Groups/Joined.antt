-- ===== src/Db/Groups/Joined.antt =====
-- What the loop over the rows of a join makes of them, in
-- crates/vidcull-db/src/repo/duplicate_groups.rs.
use mathlib.Core.Path.{subst}
use mathlib.Core.List.{append-nil, append_assoc}
use vidcull.Prelude.{
  ◌≡◌, ◌≢◌, refl, sym, ap, ◌∙◌, ◌⊎◌, inl, inr, Option, none, some, Option-cases, List, [], ◌∷◌,
  ◌++◌, map, ◌==◌, Bool-cases, ==_refl, ≢→==, ◌∈◌, All, All-append,
}
use vidcull.Prelude.Result.{ok}
use vidcull.Core.{FileId}
use vidcull.Db.Groups.{DuplicateGroup, FileRow, GroupMemberRecord, Tables, is_some, list_members}
use vidcull.Db.Groups.Listing.{
  opt_list, push_row, fold_rows, left_join, file_at, live_files, file_rows, record_rows,
  row_to_group_member, list_groups_with_member_records,
}

-- Different groups have different ids.
abbrev pub HasIds : List DuplicateGroup → Type 0
HasIds [] = Unit
HasIds (g ∷ gs) = All (λ h. h.id ≢ g.id) gs × HasIds gs

module _ {A : Type 0} where
  abbrev Fresh : DuplicateGroup → List (DuplicateGroup × List A) → Type 0
  Fresh g out = All (λ (e : DuplicateGroup × List A). e.0.id ≢ g.id) out

  push_row-Fresh :
      (g : DuplicateGroup) (m : Option A) (out : List (DuplicateGroup × List A))
      → Fresh g out
      → push_row (g, m) out ≡ out ++ ((g, opt_list m) ∷ [])
  unfolding push_row
  push_row-Fresh g m [] h = refl
  push_row-Fresh g m ((l, ms) ∷ []) h = rw (≢→== l.id g.id h.0) refl
  push_row-Fresh g m (x ∷ y ∷ out) h = ap (λ v. x ∷ v) (push_row-Fresh g m (y ∷ out) h.1)

  push_row_same :
      (g : DuplicateGroup) (a : A) (ms : List A) (out : List (DuplicateGroup × List A))
      → push_row (g, some a) (out ++ ((g, ms) ∷ [])) ≡ out ++ ((g, ms ++ (a ∷ [])) ∷ [])
  unfolding push_row
  push_row_same g a ms [] = rw (==_refl g.id) refl
  push_row_same g a ms (x ∷ []) = ap (λ v. x ∷ v) (push_row_same g a ms [])
  push_row_same g a ms (x ∷ y ∷ out) = ap (λ v. x ∷ v) (push_row_same g a ms (y ∷ out))

  fold_rows-append :
      (xs ys : List (DuplicateGroup × Option A)) (out : List (DuplicateGroup × List A))
      → fold_rows (xs ++ ys) out ≡ fold_rows ys (fold_rows xs out)
  unfolding fold_rows
  fold_rows-append [] ys out = refl
  fold_rows-append (x ∷ xs) ys out = fold_rows-append xs ys (push_row x out)

  fold_rows_same :
      (g : DuplicateGroup) (rest ms : List A) (out : List (DuplicateGroup × List A))
      → fold_rows (map (λ m. (g, some m)) rest) (out ++ ((g, ms) ∷ []))
        ≡ out ++ ((g, ms ++ rest) ∷ [])
  unfolding fold_rows
  fold_rows_same g [] ms out = ap (λ v. out ++ ((g, v) ∷ [])) (sym (append-nil ms))
  fold_rows_same g (a ∷ rest) ms out =
      ap (fold_rows (map (λ m. (g, some m)) rest)) (push_row_same g a ms out)
      ∙ (fold_rows_same g rest (ms ++ (a ∷ [])) out
          ∙ ap (λ v. out ++ ((g, v) ∷ [])) (append_assoc ms (a ∷ []) rest))

  fold_rows-left_join :
      (g : DuplicateGroup) (ms : List A) (out : List (DuplicateGroup × List A))
      → Fresh g out
      → fold_rows (left_join g ms) out ≡ out ++ ((g, ms) ∷ [])
  unfolding fold_rows
  fold_rows-left_join g [] out h = push_row-Fresh g none out h
  fold_rows-left_join g (a ∷ ms) out h =
      ap (fold_rows (map (λ m. (g, some m)) ms)) (push_row-Fresh g (some a) out h)
      ∙ fold_rows_same g ms (a ∷ []) out

  -- The join of the groups with a list for each.
  joined : (DuplicateGroup → List A) → List DuplicateGroup → List (DuplicateGroup × Option A)
  joined f [] = []
  joined f (g ∷ gs) = left_join g (f g) ++ joined f gs

  fold_rows-joined :
      (f : DuplicateGroup → List A) (gs : List DuplicateGroup)
      (out : List (DuplicateGroup × List A))
      → HasIds gs
      → All (λ g. Fresh g out) gs
      → fold_rows (joined f gs) out ≡ out ++ map (λ g. (g, f g)) gs
  unfolding joined fold_rows
  fold_rows-joined f [] out d h = sym (append-nil out)
  fold_rows-joined f (g ∷ gs) out d h =
      fold_rows-append (left_join g (f g)) (joined f gs) out
      ∙ (ap (fold_rows (joined f gs)) (fold_rows-left_join g (f g) out h.0)
          ∙ (fold_rows-joined f gs (out ++ ((g, f g) ∷ [])) d.1 (next gs d.0 h.1)
              ∙ append_assoc out ((g, f g) ∷ []) (map (λ g. (g, f g)) gs)))
    where
      next :
          (hs : List DuplicateGroup)
          → All (λ h. h.id ≢ g.id) hs
          → All (λ k. Fresh k out) hs
          → All (λ k. Fresh k (out ++ ((g, f g) ∷ []))) hs
      next [] ne fresh = tt
      next (k ∷ hs) ne fresh = (
        All-append (λ (e : DuplicateGroup × List A). e.0.id ≢ k.id) out ((g, f g) ∷ []) fresh.0
            ((λ e. ne.0 (sym e)), tt),
        next hs ne.1 fresh.1,
      )

module _ {F : Type 0} where
  abbrev pub live_of : Tables F → DuplicateGroup → List (FileRow F)
  live_of t g = live_files t (list_members g.id t)

  file_rows-joined :
      (t : Tables F) (gs : List DuplicateGroup) → file_rows t gs ≡ joined (live_of t) gs
  unfolding file_rows joined
  file_rows-joined t [] = refl
  file_rows-joined t (g ∷ gs) = ap (λ v. left_join g (live_of t g) ++ v) (file_rows-joined t gs)

  file_at-mem :
      (id : FileId) (fs : List (FileRow F)) (f : FileRow F) → file_at id fs ≡ some f → f ∈ fs
  file_at-mem id [] f h = cc
  file_at-mem id (x ∷ fs) f h = elim (Bool-cases (x.id == id)) [
    | inl e ↦ let h' : some x ≡ some f = rw e at h in inl (cc)
    | inr e ↦ inr (file_at-mem id fs f (rw e at h))
  ]

  pub live_files_stored :
      (t : Tables F) (ids : List FileId) (f : FileRow F) → f ∈ live_files t ids → f ∈ t.files
  unfolding live_files
  live_files_stored t [] f m = absurd m
  live_files_stored t (id ∷ ids) f m = elim (Option-cases (file_at id t.files)) [
    | inl e ↦ live_files_stored t ids f (rw (live_files, e) at m)
    | inr (x, e) ↦ elim (Bool-cases (is_some x.deleted_at)) [
      | inl d ↦ live_files_stored t ids f (rw (live_files, e, d) at m)
      | inr d ↦
          let m' : (f ≡ x) ⊎ (f ∈ live_files t ids) = rw (live_files, e, d) at m in
          elim m' [
            | inl same ↦ subst (λ v. v ∈ t.files) (sym same) (file_at-mem id t.files x e)
            | inr i ↦ live_files_stored t ids f i
          ]
    ]
  ]

  module _ (conv : FileRow F → GroupMemberRecord F) where
    -- The records of the members of a group that are not deleted.
    abbrev pub records_of : Tables F → DuplicateGroup → List (GroupMemberRecord F)
    records_of t g = map conv (live_of t g)

    record_rows-left_join :
        (g : DuplicateGroup) (fs : List (FileRow F))
        (rows : List (DuplicateGroup × Option (FileRow F)))
        (rest : List (DuplicateGroup × Option (GroupMemberRecord F)))
        → ((f : FileRow F) → f ∈ fs → row_to_group_member f ≡ ok (conv f))
        → record_rows rows ≡ ok rest
        → record_rows (map (λ m. (g, some m)) fs ++ rows)
          ≡ ok (map (λ m. (g, some m)) (map conv fs) ++ rest)
    unfolding record_rows
    record_rows-left_join g [] rows rest each h = h
    record_rows-left_join g (f ∷ fs) rows rest each h =
        let ih = record_rows-left_join g fs rows rest (λ x m. each x (inr m)) h in
        rw (each f (inl refl), ih) refl

    record_rows-joined :
        (t : Tables F) (gs : List DuplicateGroup)
        → ((f : FileRow F) → f ∈ t.files → row_to_group_member f ≡ ok (conv f))
        → record_rows (joined (live_of t) gs) ≡ ok (joined (λ g. map conv (live_of t g)) gs)
    unfolding joined record_rows
    record_rows-joined t [] each = refl
    record_rows-joined t (g ∷ gs) each =
        let ih = record_rows-joined t gs each in
        one (live_of t g) (λ f m. each f (live_files_stored t (list_members g.id t) f m)) ih
      where
        one :
            (fs : List (FileRow F))
            → ((f : FileRow F) → f ∈ fs → row_to_group_member f ≡ ok (conv f))
            → record_rows (joined (live_of t) gs) ≡ ok (joined (λ g. map conv (live_of t g)) gs)
            → record_rows (left_join g fs ++ joined (live_of t) gs)
              ≡ ok (left_join g (map conv fs) ++ joined (λ g. map conv (live_of t g)) gs)
        one [] known h = rw h refl
        one (f ∷ fs) known h =
            record_rows-left_join g (f ∷ fs) (joined (live_of t) gs)
              (joined (λ g. map conv (live_of t g)) gs) known h

    -- If the columns of every file convert, each group comes with the records of its live members.
    pub list_groups_with_member_records_lem :
        (t : Tables F)
        → HasIds t.groups
        → ((f : FileRow F) → f ∈ t.files → row_to_group_member f ≡ ok (conv f))
        → list_groups_with_member_records t ≡ ok (map (λ g. (g, records_of t g)) t.groups)
    unfolding list_groups_with_member_records
    list_groups_with_member_records_lem t d each =
        let rows =
          ap record_rows (file_rows-joined t t.groups) ∙ record_rows-joined t t.groups each in
        rw rows
          (ap ok (fold_rows-joined (λ g. map conv (live_of t g)) t.groups [] d (nothing t.groups)))
      where
        nothing : (gs : List DuplicateGroup) → All (λ g. Fresh {A = GroupMemberRecord F} g []) gs
        nothing [] = tt
        nothing (g ∷ gs) = (tt, nothing gs)
