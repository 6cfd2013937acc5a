-- ===== src/Db/Groups/Active.antt =====
-- The members of a group that are not deleted, against `live_files` of the joins in
-- crates/vidcull-db/src/repo/duplicate_groups.rs.
use mathlib.Core.Option.{some-injective}
use vidcull.Prelude.{
  ℕ, ◌≡◌, refl, sym, ap, ◌∙◌, ◌⊎◌, inl, inr, false, Option-cases, none, some, List, [], ◌∷◌, ◌==◌,
  Bool-cases, ==→≡, ==→≢, ◌∈◌,
}
use vidcull.Core.{FileId}
use vidcull.Db.Groups.{DuplicateGroup, FileRow, Tables, is_some, list_members}
use vidcull.Db.Groups.Listing.{file_at, live_files}
use vidcull.Db.Groups.Joined.{live_of, live_files_stored}
use vidcull.Db.Groups.Members.{mem-list_members}

-- A file that is a member of the group and is not deleted.
abbrev pub IsActive : {F : Type 0} → Tables F → DuplicateGroup → FileRow F → Type 0
IsActive t g f = ◌∈◌ {A = ℕ × FileId} (g.id, f.id) t.members × (f ∈ t.files) × (f.deleted_at ≡ none)

-- Different files have different ids.
abbrev pub HasFileIds : {F : Type 0} → List (FileRow F) → Type 0
HasFileIds {F} files = (f g : FileRow F) → f ∈ files → g ∈ files → f.id ≡ g.id → f ≡ g

module _ {F : Type 0} where
  file_at-id :
      (id : FileId) (fs : List (FileRow F)) (f : FileRow F) → file_at id fs ≡ some f → f.id ≡ id
  file_at-id id [] f h = cc
  file_at-id id (x ∷ fs) f h = elim (Bool-cases (x.id == id)) [
    | inl e ↦
        let h' : some x ≡ some f = rw e at h in
        ap (λ v. v.id) (sym (some-injective _ _ h')) ∙ ==→≡ x.id id e
    | inr e ↦ file_at-id id fs f (rw e at h)
  ]

  file_at_self :
      (fs : List (FileRow F)) (f : FileRow F) → HasFileIds fs → f ∈ fs → file_at f.id fs ≡ some f
  file_at_self [] f ids m = absurd m
  file_at_self (x ∷ fs) f ids m = elim (Bool-cases (x.id == f.id)) [
    | inl e ↦ rw e (ap some (ids x f (inl refl) m (==→≡ x.id f.id e)))
    | inr e ↦ elim m [
      | inl same ↦ absurd (==→≢ x.id f.id e (ap (λ v. v.id) (sym same)))
      | inr i ↦ rw e (file_at_self fs f (λ a b j k. ids a b (inr j) (inr k)) i)
    ]
  ]

  -- The rows that the join finds are those of the ids that are not deleted.
  mem_of_live_files :
      (t : Tables F) (ids : List FileId) (f : FileRow F)
      → f ∈ live_files t ids
      → (f.id ∈ ids) × (f.deleted_at ≡ none)
  unfolding live_files
  mem_of_live_files t [] f m = absurd m
  mem_of_live_files t (id ∷ ids) f m = elim (Option-cases (file_at id t.files)) [
    | inl e ↦ let (i, d) = mem_of_live_files t ids f (rw (live_files, e) at m) in (inr i, d)
    | inr (x, e) ↦ elim (Option-cases x.deleted_at) [
      | inr (time, d) ↦
          let (i, k) = mem_of_live_files t ids f (rw (live_files, e, d) at m) in (inr i, k)
      | inl d ↦
          let k : is_some x.deleted_at ≡ false = rw d refl in
          let m' : (f ≡ x) ⊎ (f ∈ live_files t ids) = rw (live_files, e, k) at m in
          elim m' [
            | inl same ↦ (
              inl (ap (λ v. v.id) same ∙ file_at-id id t.files x e),
              ap (λ v. v.deleted_at) same ∙ d,
            )
            | inr i ↦ let (j, k) = mem_of_live_files t ids f i in (inr j, k)
          ]
    ]
  ]

  mem-live_files :
      (t : Tables F) (ids : List FileId) (f : FileRow F)
      → HasFileIds t.files
      → f ∈ t.files
      → f.deleted_at ≡ none
      → f.id ∈ ids
      → f ∈ live_files t ids
  unfolding live_files
  mem-live_files t [] f known there active m = absurd m
  mem-live_files t (id ∷ ids) f known there active (inl e) =
      let at : file_at id t.files ≡ some f =
        ap (λ v. file_at v t.files) (sym e) ∙ file_at_self t.files f known there in
      rw (live_files, at, active) (inl refl)
  mem-live_files t (id ∷ ids) f known there active (inr m) =
      let rest = mem-live_files t ids f known there active m in
      elim (Option-cases (file_at id t.files)) [
        | inl e ↦ rw (live_files, e) rest
        | inr (x, e) ↦ elim (Option-cases x.deleted_at) [
          | inr (time, d) ↦ rw (live_files, e, d) rest
          | inl d ↦ rw (live_files, e, d) (inr rest)
        ]
      ]

  pub live_of-IsActive :
      (t : Tables F) (g : DuplicateGroup) (f : FileRow F) → f ∈ live_of t g → IsActive t g f
  live_of-IsActive t g f m =
      let (i, d) = mem_of_live_files t (list_members g.id t) f m in
      ((mem-list_members g.id f.id t).0 i, live_files_stored t (list_members g.id t) f m, d)

  pub IsActive-live_of :
      (t : Tables F) (g : DuplicateGroup) (f : FileRow F)
      → HasFileIds t.files
      → IsActive t g f
      → f ∈ live_of t g
  IsActive-live_of t g f known (member, there, active) =
      mem-live_files t (list_members g.id t) f known there active
        ((mem-list_members g.id f.id t).1 member)
