-- ===== src/Matcher/Cluster.antt =====
-- `cluster_components` and `summarize_clusters` of crates/vidcull-matcher/src/cluster.rs.
pub mod Counts
pub mod Report
pub mod Inside
use package.vidcull.Prelude.{
  ℕ, zero, suc, ◌+◌, ◌-◌, ◌^◌, max, Bool, true, false, ◌&&◌, ◌||◌, not, Option, none, some, List,
  [], ◌∷◌, ◌++◌, map, ltb, ◌==◌, if◌then◌else◌, length, retain, eqb_list,
}
use package.vidcull.Prelude.Sort.{sort_by}
use package.vidcull.Prelude.Maps.{upsert, lookup, or_default, extend, dedup, lex_before}
use package.vidcull.Core.{FileId, TrustLevel, exact, very_likely, possible}
use package.vidcull.Matcher.Trust.{
  is_transitive, is_possible, trust_strength, GroupMembership, ClusterMember, Cluster,
}
use package.vidcull.Matcher.Merge.{merge_transitive}
use package.vidcull.Matcher.DisjointSet.{and_then}

abbrev is_empty : List ℕ → Bool
is_empty [] = true
is_empty (x ∷ xs) = false

-- The index of the cluster that each id is in.
unfoldable pub add_members : ℕ → List ClusterMember → List (FileId × ℕ) → List (FileId × ℕ)
add_members idx [] acc = acc
add_members idx (m ∷ members) acc = add_members idx members (upsert ltb m.file_id (λ old. idx) acc)

unfoldable pub cluster_of : ℕ → List Cluster → List (FileId × ℕ) → List (FileId × ℕ)
unfolding add_members
cluster_of idx [] acc = acc
cluster_of idx (c ∷ clusters) acc = cluster_of (idx + 1) clusters (add_members idx c.members acc)

-- The loop of `fully_inside_one_transitive_cluster`, after `shared`.
unfoldable pub all_in : List (FileId × ℕ) → Option ℕ → List FileId → Bool
all_in of none [] = false
all_in of (some prev) [] = true
all_in of shared (m ∷ members) = elim (lookup m of) [
  | none ↦ false
  | some idx ↦ elim shared [
    | none ↦ all_in of (some idx) members
    | some prev ↦ elim (prev == idx) [ true ↦ all_in of (some idx) members | false ↦ false ]
  ]
]

unfoldable pub fully_inside_one_transitive_cluster : List FileId → List (FileId × ℕ) → Bool
unfolding all_in
fully_inside_one_transitive_cluster members of = all_in of none members

abbrev pub FanoutKey : Type 0
FanoutKey = List FileId × ℕ

-- The loop of `fanout_key`; `ends` are the `clip_ends` so far.
unfoldable pub key_loop :
    List (FileId × ℕ) → Option ℕ → List FileId → List FileId → Option FanoutKey
key_loop of none ends [] = none
key_loop of (some idx) [] [] = none
key_loop of (some idx) (e ∷ ends) [] = some (dedup (sort_by ltb (e ∷ ends)), idx)
key_loop of cluster_idx ends (m ∷ members) = elim (lookup m of) [
  | none ↦ key_loop of cluster_idx (ends ++ (m ∷ [])) members
  | some idx ↦ elim cluster_idx [
    | none ↦ key_loop of (some idx) ends members
    | some prev ↦ elim (prev == idx) [ true ↦ key_loop of (some idx) ends members | false ↦ none ]
  ]
]

unfoldable pub fanout_key : List FileId → List (FileId × ℕ) → Option FanoutKey
unfolding key_loop
fanout_key members of = key_loop of none [] members

-- The order of the keys of the `BTreeMap`.
abbrev pub key_before : FanoutKey → FanoutKey → Bool
key_before (a, i) (b, j) = lex_before a b || (eqb_list a b && ltb i j)

abbrev pub FanoutCard : Type 0
FanoutCard = List FileId × List ℕ

-- A cluster of ids that all have one trust.
unfoldable pub plain_cluster : TrustLevel → List FileId → List ℕ → Cluster
plain_cluster trust ids group_ids = record {
  members = map (λ id. record { file_id = id; trust = trust }) ids;
  representative_trust = trust;
  group_ids = group_ids;
}

unfoldable pub group_cluster : GroupMembership → Cluster
unfolding plain_cluster
group_cluster g = plain_cluster g.trust (dedup (sort_by ltb g.members)) (g.group_id ∷ [])

abbrev pub add_card : GroupMembership → Option FanoutCard → FanoutCard
add_card g none = (extend [] g.members, g.group_id ∷ [])
add_card g (some (ids, group_ids)) = (extend ids g.members, group_ids ++ (g.group_id ∷ []))

-- The loop over the `Possible` groups.
unfoldable pub possible_loop :
    List (FileId × ℕ)
    → List GroupMembership
    → List Cluster × List (FanoutKey × FanoutCard)
    → List Cluster × List (FanoutKey × FanoutCard)
unfolding fully_inside_one_transitive_cluster fanout_key group_cluster
possible_loop of [] acc = acc
possible_loop of (g ∷ groups) (clusters, fanout) =
    elim (fully_inside_one_transitive_cluster g.members of) [
      | true ↦ possible_loop of groups (clusters, fanout)
      | false ↦ elim (fanout_key g.members of) [
        | some key ↦ possible_loop of groups (clusters, upsert key_before key (add_card g) fanout)
        | none ↦ possible_loop of groups (clusters ++ (group_cluster g ∷ []), fanout)
      ]
    ]

unfoldable pub card_cluster : FanoutKey × FanoutCard → Cluster
unfolding plain_cluster
card_cluster (key, (ids, group_ids)) = plain_cluster possible ids (dedup (sort_by ltb group_ids))

-- `c.members.first().map_or(FileId(i64::MAX), …)`.
abbrev pub first_id : Cluster → ℕ
first_id c = elim c.members [ [] ↦ 2 ^ 63 - 1 | m ∷ members ↦ m.file_id ]

unfoldable pub cluster_components : List GroupMembership → Option (List Cluster)
unfolding cluster_of possible_loop card_cluster group_cluster
cluster_components groups =
    let filled = retain (λ g. not (is_empty g.members)) groups in
    and_then (merge_transitive (retain (λ g. is_transitive g.trust g.non_transitive) filled))
      λ merged.
        let possible_groups = retain (λ g. is_possible g.trust && not g.non_transitive) filled in
        let (clusters, fanout) =
          possible_loop (cluster_of 0 merged []) possible_groups (merged, []) in
        let alone = map group_cluster (retain (λ g. g.non_transitive) filled) in
        some (
          sort_by (λ a b. ltb (first_id a) (first_id b))
            (clusters ++ map card_cluster fanout ++ alone))

pub record ClusterReport : Type 0 where
  pub clusters : ℕ
  pub members_total : ℕ
  pub exact_clusters : ℕ
  pub very_likely_clusters : ℕ
  pub possible_clusters : ℕ
  pub largest_cluster : ℕ
  pub cross_trust_clusters : ℕ
  pub multi_group_clusters : ℕ

abbrev pub count_if : Bool → ℕ → ℕ
count_if b n = if b then n + 1 else n

-- Whether `seen` has the flag of this strength.
unfoldable pub seen : ℕ → List ClusterMember → Bool
seen strength [] = false
seen strength (m ∷ members) = trust_strength m.trust == strength || seen strength members

abbrev pub report_cluster : ClusterReport → Cluster → ClusterReport
report_cluster r c =
    let trust = trust_strength c.representative_trust in
    let kinds =
      count_if (seen 1 c.members) (count_if (seen 2 c.members) (count_if (seen 3 c.members) 0)) in
    record {
      clusters = r.clusters;
      members_total = r.members_total + length c.members;
      exact_clusters = count_if (trust == 3) r.exact_clusters;
      very_likely_clusters = count_if (trust == 2) r.very_likely_clusters;
      possible_clusters = count_if (trust == 1) r.possible_clusters;
      largest_cluster = max r.largest_cluster (length c.members);
      cross_trust_clusters = count_if (ltb 1 kinds) r.cross_trust_clusters;
      multi_group_clusters = count_if (ltb 1 (length c.group_ids)) r.multi_group_clusters;
    }

abbrev pub report_loop : ClusterReport → List Cluster → ClusterReport
report_loop r [] = r
report_loop r (c ∷ clusters) = report_loop (report_cluster r c) clusters

unfoldable pub summarize_clusters : List Cluster → ClusterReport
summarize_clusters clusters =
    report_loop
      (record {
        clusters = length clusters;
        members_total = 0;
        exact_clusters = 0;
        very_likely_clusters = 0;
        possible_clusters = 0;
        largest_cluster = 0;
        cross_trust_clusters = 0;
        multi_group_clusters = 0;
      })
      clusters
