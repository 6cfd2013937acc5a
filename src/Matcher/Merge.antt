-- ===== src/Matcher/Merge.antt =====
-- `merge_transitive` of crates/vidcull-matcher/src/cluster.rs. A map's missing key, which panics,
-- gives `none`.
pub mod Ids
pub mod Positions
pub mod Classes
pub mod Keys
pub mod Roots
pub mod Trusts
pub mod Result
use package.vidcull.Prelude.{
  ℕ, suc, ◌+◌, Option, none, some, List, [], ◌∷◌, ◌++◌, ltb, ◌==◌, if◌then◌else◌, length,
}
use package.vidcull.Prelude.Sort.{sort_by}
use package.vidcull.Prelude.Maps.{push, upsert, lookup, or_default, extend}
use package.vidcull.Core.{FileId, TrustLevel}
use package.vidcull.Matcher.Trust.{stronger, GroupMembership, ClusterMember, Cluster}
use package.vidcull.Matcher.DisjointSet.{DisjointSet, new, find, union_all, and_then}

unfoldable pub id_set : List FileId → List GroupMembership → List FileId
id_set set [] = set
id_set set (g ∷ groups) = id_set (extend set g.members) groups

-- `position[id]`.
unfoldable pub index_of : List FileId → FileId → Option ℕ
index_of [] id = none
index_of (x ∷ ids) id = if x == id then some 0 else and_then (index_of ids id) λ i. some (suc i)

-- The pairs of positions that are joined for one group: its first member with each other one.
unfoldable pub pairs_with : List FileId → ℕ → List FileId → Option (List (ℕ × ℕ))
unfolding index_of
pairs_with ids first [] = some []
pairs_with ids first (member ∷ rest) =
    and_then (index_of ids member)
      λ i. and_then (pairs_with ids first rest) λ pairs. some ((first, i) ∷ pairs)

unfoldable pub group_pairs : List FileId → List FileId → Option (List (ℕ × ℕ))
unfolding pairs_with index_of
group_pairs ids [] = some []
group_pairs ids (first ∷ []) = some []
group_pairs ids (first ∷ second ∷ rest) =
    and_then (index_of ids first) λ i. pairs_with ids i (second ∷ rest)

unfoldable pub all_pairs : List FileId → List GroupMembership → Option (List (ℕ × ℕ))
unfolding group_pairs
all_pairs ids [] = some []
all_pairs ids (g ∷ groups) =
    and_then (group_pairs ids g.members)
      λ pairs. and_then (all_pairs ids groups) λ more. some (pairs ++ more)

-- `.and_modify(|t| *t = stronger(*t, trust)).or_insert(trust)`.
unfoldable pub at_least : TrustLevel → Option TrustLevel → TrustLevel
unfolding stronger
at_least trust none = trust
at_least trust (some t) = stronger t trust

unfoldable pub trust_members :
    TrustLevel → List FileId → List (FileId × TrustLevel) → List (FileId × TrustLevel)
unfolding at_least
trust_members trust [] acc = acc
trust_members trust (m ∷ members) acc =
    trust_members trust members (upsert ltb m (at_least trust) acc)

unfoldable pub member_trust :
    List GroupMembership → List (FileId × TrustLevel) → List (FileId × TrustLevel)
unfolding trust_members
member_trust [] acc = acc
member_trust (g ∷ groups) acc = member_trust groups (trust_members g.trust g.members acc)

-- The members of each root, in the order of `ids`, of which `rest` are left.
unfoldable pub members_by_root :
    List FileId
    → List FileId
    → DisjointSet
    → List (ℕ × List FileId)
    → Option (List (ℕ × List FileId) × DisjointSet)
unfolding index_of
members_by_root ids [] dsu acc = some (acc, dsu)
members_by_root ids (id ∷ rest) dsu acc =
    and_then (index_of ids id) λ i.
      and_then (find dsu i) λ (root, dsu'). members_by_root ids rest dsu' (push ltb root id acc)

abbrev pub ByRoot : Type 0
ByRoot = List (ℕ × List ℕ) × List (ℕ × TrustLevel)

unfoldable pub groups_by_root :
    List FileId → List GroupMembership → DisjointSet → ByRoot → Option ByRoot
unfolding at_least
groups_by_root ids [] dsu acc = some acc
groups_by_root ids (g ∷ groups) dsu (group_ids, reps) = elim g.members [
  | [] ↦ none
  | first ∷ rest ↦ and_then (index_of ids first) λ i. and_then (find dsu i) λ (root, dsu').
      groups_by_root ids groups dsu'
        (push ltb root g.group_id group_ids, upsert ltb root (at_least g.trust) reps)
]

unfoldable pub with_trust : List (FileId × TrustLevel) → List FileId → Option (List ClusterMember)
with_trust trusts [] = some []
with_trust trusts (id ∷ ids) = and_then (lookup id trusts) λ trust.
    and_then (with_trust trusts ids)
      λ members. some (record { file_id = id; trust = trust } ∷ members)

unfoldable pub root_clusters :
    List (FileId × TrustLevel) → ByRoot → List (ℕ × List FileId) → Option (List Cluster)
unfolding with_trust
root_clusters trusts by_root [] = some []
root_clusters trusts by_root ((root, ids) ∷ more) = and_then (lookup root by_root.1) λ rep.
    and_then (with_trust trusts (sort_by ltb ids)) λ members.
      and_then (root_clusters trusts by_root more) λ clusters. some (
        record {
          members = members;
          representative_trust = rep;
          group_ids = sort_by ltb (or_default [] (lookup root by_root.0));
        }
        ∷ clusters)

-- The body after the early return, for the ids in order.
unfoldable pub merge_ids : List GroupMembership → List FileId → Option (List Cluster)
unfolding all_pairs union_all member_trust members_by_root groups_by_root root_clusters new
merge_ids transitive [] = some []
merge_ids transitive (x ∷ xs) =
    let ids = x ∷ xs in
    and_then (all_pairs ids transitive) λ pairs.
      and_then (union_all (new (length ids)) pairs) λ dsu.
        and_then (members_by_root ids ids dsu []) λ (members, dsu').
          and_then (groups_by_root ids transitive dsu' ([], []))
            λ by_root. root_clusters (member_trust transitive []) by_root members

unfoldable pub merge_transitive : List GroupMembership → Option (List Cluster)
unfolding id_set merge_ids
merge_transitive transitive = merge_ids transitive (id_set [] transitive)
