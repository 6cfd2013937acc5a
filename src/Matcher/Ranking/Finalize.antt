-- ===== src/Matcher/Ranking/Finalize.antt =====
-- What `finalize_group` of crates/vidcull-matcher/src/ranking.rs does to the row of a group.
use mathlib.Core.Option.{some-injective}
use vidcull.Prelude.{
  ℕ, ◌+◌, ◌≡◌, ◌≢◌, refl, ap, ◌∙◌, ◌⊎◌, inl, inr, true, false, Option, none, some, List, [], ◌∷◌,
  ◌++◌, any, Bool-cases, ==→≡, ==→≢, ==_refl, ≢→==, if◌then◌else◌, All,
}
use vidcull.Prelude.Int.{ℤ}
use vidcull.Prelude.Result.{ok}
use vidcull.Core.{FileId}
use vidcull.Db.Groups.{DuplicateGroup, Tables, has_group, has_file, update_best, set_best}
use vidcull.Matcher.Ranking.{Candidate, select_best}
use vidcull.Matcher.Ranking.Assign.{BestCopyOutcome, same_best, count_missing, finalize_group}

-- The row of a group whose best copy is to be `best`: the time changes with the copy only.
abbrev pub choose : Option FileId → ℤ → DuplicateGroup → DuplicateGroup
choose best now g =
    if same_best best g.best_file_id then g else record g { best_file_id = best; updated_at = now }

pub choose-id :
    (best : Option FileId) (now : ℤ) (g : DuplicateGroup) → (choose best now g).id ≡ g.id
choose-id best now g = elim (Bool-cases (same_best best g.best_file_id)) [
  | inl e ↦ rw e refl
  | inr e ↦ rw e refl
]

same_best-eq : (a b : Option FileId) → same_best a b ≡ true → a ≡ b
same_best-eq none none h = refl
same_best-eq none (some b) h = cc
same_best-eq (some a) none h = cc
same_best-eq (some a) (some b) h = ap some (==→≡ a b h)

same_best-ne : (a b : Option FileId) → same_best a b ≡ false → a ≢ b
same_best-ne none none h = cc
same_best-ne none (some b) h = λ e. cc
same_best-ne (some a) none h = λ e. cc
same_best-ne (some a) (some b) h = λ e. ==→≢ a b h (some-injective _ _ e)

-- What happens to the row of a group with the best copy `best`, and to the counters: the row changes
-- with its time, and counts as updated, exactly if the best copy is another one than before.
abbrev pub Changes :
    Option FileId → ℤ → DuplicateGroup → DuplicateGroup → BestCopyOutcome → BestCopyOutcome → Type 0
Changes best now g g' o o' =
    ((best ≡ g.best_file_id)
      × (g' ≡ g)
      × (o'.groups_updated ≡ o.groups_updated)
      × (o'.groups_unchanged ≡ o.groups_unchanged + 1))
    ⊎ ((best ≢ g.best_file_id)
        × (g' ≡ record g { best_file_id = best; updated_at = now })
        × (o'.groups_updated ≡ o.groups_updated + 1)
        × (o'.groups_unchanged ≡ o.groups_unchanged))

-- A group with no best copy counts as one without active members.
abbrev pub CountsMissing : Option FileId → BestCopyOutcome → BestCopyOutcome → Type 0
CountsMissing best o o' =
    ((best ≡ none) × (o'.groups_without_active_members ≡ o.groups_without_active_members + 1))
    ⊎ ((best ≢ none) × (o'.groups_without_active_members ≡ o.groups_without_active_members))

count_missing_lem :
    (best : Option FileId) (o : BestCopyOutcome)
    → ((count_missing best o).groups_updated ≡ o.groups_updated)
      × ((count_missing best o).groups_unchanged ≡ o.groups_unchanged)
      × CountsMissing best o (count_missing best o)
count_missing_lem none o = (refl, refl, inl (refl, refl))
count_missing_lem (some best) o = (refl, refl, inr ((λ e. cc), refl))

update_best_absent :
    (id : ℕ) (best : Option FileId) (now : ℤ) (gs : List DuplicateGroup)
    → All (λ h. h.id ≢ id) gs
    → update_best id best now gs ≡ gs
update_best_absent id best now [] h = refl
update_best_absent id best now (g ∷ gs) h =
    rw (≢→== g.id id h.0) (ap (λ v. g ∷ v) (update_best_absent id best now gs h.1))

update_best-append :
    (best : Option FileId) (now : ℤ) (before gs : List DuplicateGroup) (g : DuplicateGroup)
    → All (λ h. h.id ≢ g.id) before
    → All (λ h. h.id ≢ g.id) gs
    → update_best g.id best now (before ++ (g ∷ gs))
      ≡ before ++ (record g { best_file_id = best; updated_at = now } ∷ gs)
update_best-append best now [] gs g h k = rw (==_refl g.id) (
    ap (λ v. record g { best_file_id = best; updated_at = now } ∷ v)
      (update_best_absent g.id best now gs k))
update_best-append best now (x ∷ before) gs g h k =
    rw (≢→== x.id g.id h.0) (ap (λ v. x ∷ v) (update_best-append best now before gs g h.1 k))

module _ {F : Type 0} where
  -- A best copy that the tables know, or none.
  abbrev pub Known : Tables F → Option FileId → Type 0
  Known t best = (f : FileId) → best ≡ some f → any (has_file f) t.files ≡ true

  set_best-ok :
      (id : ℕ) (best : Option FileId) (now : ℤ) (t : Tables F)
      → Known t best
      → set_best id best now t ≡ ok (record t { groups = update_best id best now t.groups })
  unfolding set_best
  set_best-ok id none now t known = elim (Bool-cases (any (has_group id) t.groups)) [
    | inl e ↦ rw e refl
    | inr e ↦ rw e refl
  ]
  set_best-ok id (some f) now t known = elim (Bool-cases (any (has_group id) t.groups)) [
    | inl e ↦ rw (e, known f refl) refl
    | inr e ↦ rw e refl
  ]

  -- One group: its row becomes the chosen one, and it counts as updated or as unchanged.
  pub finalize_group_lem :
      (g : DuplicateGroup) (scored : List Candidate) (now : ℤ) (t : Tables F) (o : BestCopyOutcome)
      (before gs : List DuplicateGroup)
      → t.groups ≡ before ++ (g ∷ gs)
      → All (λ h. h.id ≢ g.id) before
      → All (λ h. h.id ≢ g.id) gs
      → Known t (select_best scored)
      → (o' : BestCopyOutcome) × (finalize_group g scored now (t, o)
          ≡ ok (record t { groups = before ++ (choose (select_best scored) now g ∷ gs) }, o'))
        × Changes (select_best scored) now g (choose (select_best scored) now g) o o'
        × CountsMissing (select_best scored) o o'
  unfolding finalize_group
  finalize_group_lem g scored now t o before gs rows h k known =
      let best = select_best scored in
      let c = count_missing best o in
      let (updated_kept, unchanged_kept, missing) = count_missing_lem best o in
      elim (Bool-cases (same_best best g.best_file_id)) [
        | inl e ↦ (
          record c { groups_unchanged = c.groups_unchanged + 1 },
          rw e (
              ap
                (λ v.
                  ok (
                    record t { groups = v },
                    record c { groups_unchanged = c.groups_unchanged + 1 },
                  ))
                rows),
          rw e (
              inl (
                same_best-eq best g.best_file_id e,
                refl,
                updated_kept,
                ap (λ v. v + 1) unchanged_kept,
              )),
          missing,
        )
        | inr e ↦
            let updated = set_best-ok g.id best now t known in
            let groups =
              ap (update_best g.id best now) rows ∙ update_best-append best now before gs g h k in
            (
              record c { groups_updated = c.groups_updated + 1 },
              rw (e, updated)
                  (ap
                    (λ v.
                      ok (
                        record t { groups = v },
                        record c { groups_updated = c.groups_updated + 1 },
                      ))
                    groups),
              rw e (
                  inr (
                    same_best-ne best g.best_file_id e,
                    refl,
                    ap (λ v. v + 1) updated_kept,
                    unchanged_kept,
                  )),
              missing,
            )
      ]
