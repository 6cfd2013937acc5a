-- ===== src/Db/Groups/Members.antt =====
-- The members of a group in crates/vidcull-db/src/repo/duplicate_groups.rs after the statements that
-- `rebuild_exact_groups` makes.
use mathlib.Core.Path.{subst}
use mathlib.Core.Option.{some-injective}
use vidcull.Prelude.{
  ℕ, ◌≡◌, ◌↔◌, refl, sym, ap, ◌∙◌, ◌⊎◌, inl, inr, true, ◌&&◌, none, some, List, [], ◌∷◌, map, any,
  any-mem, mem-any, retain, ◌==◌, Bool-cases, ==→≡, ==_refl, ◌∈◌, arith,
}
use vidcull.Prelude.Sort.{mem-insert_by, mem_of_insert_by}
use vidcull.Prelude.Result.{ok}
use vidcull.Core.{FileId, TrustLevel, exact, very_likely, possible}
use vidcull.Db.Groups.{
  DuplicateGroup, Tables, is_trust, has_group, has_file, is_member, member_before, insert_member,
  add_member, list_members, exact_group_of,
}

pub is_trust-eq : (a b : TrustLevel) → is_trust a b ≡ true → a ≡ b
is_trust-eq exact exact h = refl
is_trust-eq exact very_likely h = cc
is_trust-eq exact possible h = cc
is_trust-eq very_likely exact h = cc
is_trust-eq very_likely very_likely h = refl
is_trust-eq very_likely possible h = cc
is_trust-eq possible exact h = cc
is_trust-eq possible very_likely h = cc
is_trust-eq possible possible h = refl

is_member-eq : (g : ℕ) (f : FileId) (m : ℕ × FileId) → is_member g f m ≡ true → m ≡ (g, f)
is_member-eq g f m h =
    let a : m.0 ≡ g = ground arith in
    let b : m.1 ≡ f = ground arith in ap (λ v. (v, m.1)) a ∙ ap (λ v. (g, v)) b

pub any-is_member :
    (g : ℕ) (f : FileId) (ms : List (ℕ × FileId))
    → (any (is_member g f) ms ≡ true) ↔ ◌∈◌ {A = ℕ × FileId} (g, f) ms
any-is_member g f ms = (
  λ h. let (m, i, e) = mem-any (is_member g f) ms h in subst (λ v. v ∈ ms) (is_member-eq g f m e) i,
  λ i. any-mem (is_member g f) ms (g, f) i (rw (==_refl g, ==_refl f) refl),
)

-- A row of the list has the id and the level EXACT.
abbrev pub IsExact : ℕ → List DuplicateGroup → Type 0
IsExact g groups =
    (row : DuplicateGroup) × (row ∈ groups) × (row.id ≡ g) × (row.trust_level ≡ exact)

pub exact_group_of-some :
    (f : FileId) (ms : List (ℕ × FileId)) (gs : List DuplicateGroup) (g : ℕ)
    → exact_group_of f ms gs ≡ some g
    → IsExact g gs × ◌∈◌ {A = ℕ × FileId} (g, f) ms
unfolding exact_group_of
exact_group_of-some f ms [] g h = cc
exact_group_of-some f ms (row ∷ gs) g h =
    elim (Bool-cases (is_trust row.trust_level exact && any (is_member row.id f) ms)) [
      | inl e ↦
          let same : row.id ≡ g = some-injective _ _ (rw e at h) in
          let level : is_trust row.trust_level exact ≡ true = ground arith in
          let held : any (is_member row.id f) ms ≡ true = ground arith in
          (
            (row, inl refl, same, is_trust-eq row.trust_level exact level),
            subst (λ v. ◌∈◌ {A = ℕ × FileId} (v, f) ms) same ((any-is_member row.id f ms).0 held),
          )
      | inr e ↦
          let ((row', i, same, level), m) = exact_group_of-some f ms gs g (rw e at h) in
          ((row', inr i, same, level), m)
    ]

pub exact_group_of-none :
    (f : FileId) (ms : List (ℕ × FileId)) (gs : List DuplicateGroup) (g : ℕ)
    → exact_group_of f ms gs ≡ none
    → IsExact g gs
    → ◌∈◌ {A = ℕ × FileId} (g, f) ms
    → ⊥
unfolding exact_group_of
exact_group_of-none f ms [] g h (row, i, same, level) m = absurd i
exact_group_of-none f ms (row0 ∷ gs) g h (row, i, same, level) m =
    elim (Bool-cases (is_trust row0.trust_level exact && any (is_member row0.id f) ms)) [
      | inl e ↦ let no : some row0.id ≡ none = rw e at h in cc
      | inr e ↦ elim i [
        | inl q ↦
            let id : row0.id ≡ g = ap (λ v. v.id) (sym q) ∙ same in
            let held : any (is_member row0.id f) ms ≡ true =
              (any-is_member row0.id f ms).1
                (subst (λ v. ◌∈◌ {A = ℕ × FileId} (v, f) ms) (sym id) m) in
            let lev : row0.trust_level ≡ exact = ap (λ v. v.trust_level) (sym q) ∙ level in
            let on : is_trust row0.trust_level exact ≡ true = rw lev refl in ground arith
        | inr t ↦ exact_group_of-none f ms gs g (rw e at h) (row, t, same, level) m
      ]
    ]

module _ {F : Type 0} where
  pub mem-list_members :
      (g : ℕ) (f : FileId) (t : Tables F)
      → (f ∈ list_members g t) ↔ ◌∈◌ {A = ℕ × FileId} (g, f) t.members
  unfolding list_members
  mem-list_members g f t = (λ m. of_map t.members (of_list t.members m), λ m. to_map t.members m)
    where
      of_list :
          (ms : List (ℕ × FileId))
          → f ∈ map (λ m. m.1) (retain (λ m. m.0 == g) ms)
          → (m : ℕ × FileId) × (m ∈ ms) × ((m.0 == g) ≡ true) × (f ≡ m.1)
      of_list [] i = absurd i
      of_list (m ∷ ms) i = elim (Bool-cases (m.0 == g)) [
        | inl e ↦
            let i' : (f ≡ m.1) ⊎ (f ∈ map (λ m. m.1) (retain (λ m. m.0 == g) ms)) = rw e at i in
            elim i' [
              | inl q ↦ (m, inl refl, e, q)
              | inr t ↦ let (m', j, k, q) = of_list ms t in (m', inr j, k, q)
            ]
        | inr e ↦ let (m', j, k, q) = of_list ms (rw e at i) in (m', inr j, k, q)
      ]

      of_map :
          (ms : List (ℕ × FileId))
          → (m : ℕ × FileId) × (m ∈ ms) × ((m.0 == g) ≡ true) × (f ≡ m.1)
          → ◌∈◌ {A = ℕ × FileId} (g, f) ms
      of_map ms (m, i, k, q) =
          let same : m ≡ (g, f) = ap (λ v. (v, m.1)) (==→≡ m.0 g k) ∙ ap (λ v. (g, v)) (sym q) in
          subst (λ v. v ∈ ms) same i

      to_map :
          (ms : List (ℕ × FileId))
          → ◌∈◌ {A = ℕ × FileId} (g, f) ms
          → f ∈ map (λ m. m.1) (retain (λ m. m.0 == g) ms)
      to_map [] i = absurd i
      to_map (m ∷ ms) (inl q) =
          let on : (m.0 == g) ≡ true = rw (ap (λ v. v.0) (sym q)) (==_refl g) in
          rw on (inl (ap (λ v. v.1) q))
      to_map (m ∷ ms) (inr i) = elim (Bool-cases (m.0 == g)) [
        | inl e ↦ rw e (inr (to_map ms i))
        | inr e ↦ rw e (to_map ms i)
      ]

  -- What stays and what is new after members are added to one group.
  pub record Added (gid : ℕ) (ids : List FileId) (t t' : Tables F) : Type 0 where
    pub groups : t'.groups ≡ t.groups
    pub next_id : t'.next_id ≡ t.next_id
    pub files : t'.files ≡ t.files
    pub members :
        (g : ℕ) (f : FileId)
        → ◌∈◌ {A = ℕ × FileId} (g, f) t'.members
          ↔ (◌∈◌ {A = ℕ × FileId} (g, f) t.members ⊎ ((g ≡ gid) × (f ∈ ids)))

  pub add_member-ok :
      (g : ℕ) (f : FileId) (t : Tables F)
      → any (has_group g) t.groups ≡ true
      → any (has_file f) t.files ≡ true
      → (◌∈◌ {A = ℕ × FileId} (g, f) t.members → ⊥)
      → add_member g f t ≡ ok (insert_member g f t)
  unfolding add_member
  add_member-ok g f t group file fresh = elim (Bool-cases (any (is_member g f) t.members)) [
    | inl e ↦ absurd (fresh ((any-is_member g f t.members).0 e))
    | inr e ↦ rw (e, group, file) refl
  ]

  pub insert_member-mem :
      (gid : ℕ) (id : FileId) (t : Tables F) (g : ℕ) (f : FileId)
      → ◌∈◌ {A = ℕ × FileId} (g, f) (insert_member gid id t).members
        ↔ (◌∈◌ {A = ℕ × FileId} (g, f) t.members ⊎ ((g ≡ gid) × (f ≡ id)))
  insert_member-mem gid id t g f = (
    λ m. elim (mem_of_insert_by member_before (g, f) (gid, id) t.members m) [
      | inl e ↦ inr (ap (λ v. v.0) e, ap (λ v. v.1) e)
      | inr i ↦ inl i
    ],
    λ q.
        mem-insert_by member_before (g, f) (gid, id) t.members
          (elim q [ inl i ↦ inr i | inr (a, b) ↦ inl (ap (λ v. (v, f)) a ∙ ap (λ v. (gid, v)) b) ]),
  )
