-- ===== src/Matcher/Cluster/Inside.antt =====
-- `fully_inside_one_transitive_cluster` of crates/vidcull-matcher/src/cluster.rs.
use vidcull.Prelude.{
  ℕ, ◌≡◌, ◌↔◌, refl, sym, ◌∙◌, inl, inr, Bool, true, false, none, some, List, [], ◌∷◌, Option-cases,
  ==_refl, All, arith, length, ◌<◌,
}
use vidcull.Prelude.Maps.{lookup}
use vidcull.Core.{FileId}
use vidcull.Matcher.Cluster.{all_in, fully_inside_one_transitive_cluster}

abbrev pub In : List (FileId × ℕ) → ℕ → FileId → Type 0
In of idx m = lookup m of ≡ some idx

all_in_sound :
    (of : List (FileId × ℕ)) (prev : ℕ) (members : List FileId)
    → all_in of (some prev) members ≡ true
    → All (In of prev) members
unfolding all_in
all_in_sound of prev [] h = tt
all_in_sound of prev (m ∷ members) h = ground (arith, all_in_sound of prev members)

all_in_complete :
    (of : List (FileId × ℕ)) (prev : ℕ) (members : List FileId)
    → All (In of prev) members
    → all_in of (some prev) members ≡ true
unfolding all_in
all_in_complete of prev [] h = refl
all_in_complete of prev (m ∷ members) h =
    rw (h.0, ==_refl prev, all_in) (all_in_complete of prev members h.1)

clash : (b : Bool) → b ≡ false → b ≡ true → ⊥
clash b e h = cc

none_in :
    (of : List (FileId × ℕ)) (m : FileId) (members : List FileId)
    → lookup m of ≡ none
    → all_in of none (m ∷ members) ≡ false
unfolding all_in
none_in of m members e = rw (e, all_in) refl

some_in :
    (of : List (FileId × ℕ)) (idx : ℕ) (m : FileId) (members : List FileId)
    → lookup m of ≡ some idx
    → all_in of none (m ∷ members) ≡ all_in of (some idx) members
unfolding all_in
some_in of idx m members e = rw (e, all_in) refl

-- `fully_inside_one_transitive_cluster` answers true exactly if there is a member and one cluster
-- that every member is mapped to.
pub fully_inside_iff :
    (of : List (FileId × ℕ)) (members : List FileId)
    → (fully_inside_one_transitive_cluster members of ≡ true)
      ↔ ((idx : ℕ) × (0 < length members) × All (In of idx) members)
unfolding fully_inside_one_transitive_cluster all_in
fully_inside_iff of [] = (λ h. cc, λ (idx, h, all). absurd (omega arith))
fully_inside_iff of (m ∷ members) = (
  λ h. elim (Option-cases (lookup m of)) [
    | inl e ↦ absurd (clash _ (none_in of m members e) h)
    | inr (idx, e) ↦
        (idx, omega arith, (e, all_in_sound of idx members (sym (some_in of idx m members e) ∙ h)))
  ],
  λ (idx, h, all). some_in of idx m members all.0 ∙ all_in_complete of idx members all.1,
)
