-- ===== src/Tests/Exact.antt =====
-- Five files, of which two and two have the same bytes.
use vidcull.Prelude.{◌≤◌, ◌≡◌, ◌≢◌, ◌↔◌, refl, List, [], ◌∷◌, ◌∈◌, length}
use vidcull.Prelude.Sort.{sort_by}
use vidcull.Core.{FileId}
use vidcull.Matcher.Exact.{Hash, ExactGroup, plan_exact_groups, by_hash, shared_hashes}
use vidcull.Matcher.Exact.Plan.{plan_exact_groups_lem}

abbrev hashed : List (FileId × Hash)
hashed =
    (8, 1 ∷ 2 ∷ []) ∷ (5, 1 ∷ 1 ∷ []) ∷ (2, 1 ∷ 2 ∷ []) ∷ (9, 1 ∷ 1 ∷ []) ∷ (1, 7 ∷ 7 ∷ []) ∷ []

two_groups :
    plan_exact_groups hashed
    ≡ record { hash = 1 ∷ 2 ∷ []; members = 2 ∷ 8 ∷ [] }
      ∷ record { hash = 1 ∷ 1 ∷ []; members = 5 ∷ 9 ∷ [] }
      ∷ []
unfolding plan_exact_groups by_hash shared_hashes sort_by
two_groups = refl

plan_exact_groups_lem_example :
    ((g : ExactGroup)
      → g ∈ plan_exact_groups hashed
      → (2 ≤ length g.members) × ((f : FileId) → (f ∈ g.members) ↔ ((f, g.hash) ∈ hashed)))
    × ((f f' : FileId) (h : Hash)
        → f ≢ f'
        → (f, h) ∈ hashed
        → (f', h) ∈ hashed
        → (g : ExactGroup) × (g ∈ plan_exact_groups hashed) × (g.hash ≡ h))
plan_exact_groups_lem_example = plan_exact_groups_lem hashed
