-- ===== src/Matcher/Exact.antt =====
-- `plan_exact_groups` of crates/vidcull-matcher/src/exact.rs. A hash is the sequence of its bytes.
pub mod Plan
pub mod Apply
pub mod Rebuild
pub mod Buckets
pub mod Outcome
pub mod Whole
use package.vidcull.Prelude.{
  ℕ, ◌<◌, Bool, Option, none, some, List, [], ◌∷◌, ltb, length, if◌then◌else◌,
}
use package.vidcull.Prelude.Sort.{sort_by}
use package.vidcull.Prelude.Maps.{push, dedup, lex_before}
use package.vidcull.Core.{FileId}

abbrev pub Hash : Type 0
Hash = List ℕ

pub record ExactGroup : Type 0 where
  pub hash : Hash
  pub members : List FileId

-- `by_hash.entry(hash).or_default().push(file_id)` for each file.
unfoldable pub by_hash :
    List (FileId × Hash) → List (Hash × List FileId) → List (Hash × List FileId)
by_hash [] map = map
by_hash ((file_id, hash) ∷ hashed) map = by_hash hashed (push lex_before hash file_id map)

-- The groups of the hashes that two files have, in the order of the hashes.
unfoldable pub shared_hashes : List (Hash × List FileId) → List ExactGroup
shared_hashes [] = []
shared_hashes ((hash, members) ∷ map) =
    let ids = dedup (sort_by ltb members) in
    if ltb (length ids) 2
    then shared_hashes map
    else record { hash = hash; members = ids } ∷ shared_hashes map

-- `g.members[0]`, of a group that is not empty.
abbrev pub first_member : ExactGroup → FileId
first_member g = elim g.members [ [] ↦ 0 | id ∷ ids ↦ id ]

unfoldable pub plan_exact_groups : List (FileId × Hash) → List ExactGroup
unfolding by_hash shared_hashes
plan_exact_groups hashed =
    sort_by (λ a b. ltb (first_member a) (first_member b)) (shared_hashes (by_hash hashed []))
