-- ===== src/Tests/Cluster.antt =====
-- Joins of five indices, and four groups of files.
use vidcull.Prelude.{
  ℕ, ◌≤◌, ◌<◌, ◌≡◌, ◌↔◌, ◌⊎◌, refl, true, false, some, List, [], ◌∷◌, ◌∈◌, length, All, arith,
}
use vidcull.Prelude.Sort.{sort_by}
use vidcull.Core.{FileId, exact, very_likely, possible}
use vidcull.Matcher.DisjointSet.{DisjointSet, new, find, link, union, union_all}
use vidcull.Matcher.DisjointSet.Roots.{IsValid}
use vidcull.Matcher.DisjointSet.Find.{Found, find_lem}
use vidcull.Matcher.DisjointSet.Union.{Connected, Merged, union_lem}
use vidcull.Matcher.DisjointSet.Closure.{Chain, new-IsValid, length-new, union_all-Chain}
use vidcull.Matcher.Trust.{GroupMembership, Cluster, is_transitive}
use vidcull.Matcher.Merge.{merge_transitive}
use vidcull.Matcher.Merge.Result.{Classes, merge_transitive-Classes}
use vidcull.Matcher.Cluster.{
  cluster_components, summarize_clusters, fully_inside_one_transitive_cluster,
}
use vidcull.Matcher.Cluster.Counts.{Counts, CrossesTrust}
use vidcull.Matcher.Cluster.Report.{sum_members, summarize_clusters_lem}
use vidcull.Matcher.Cluster.Inside.{In, fully_inside_iff}

find_lem_example : (r : ℕ) × (ds' : DisjointSet) × Found (new 5) 3 r ds'
find_lem_example = find_lem (new 5) 3 (new-IsValid 5) (omega (arith, length-new 5))

union_lem_example :
    (ds' : DisjointSet) × (union (new 5) 1 3 ≡ some ds')
    × IsValid ds'
    × (length ds'.parent ≡ length (new 5).parent)
    × ((x y : ℕ) → Connected ds' x y ↔ Merged (new 5) 1 3 x y)
union_lem_example =
    union_lem (new 5) 1 3 (new-IsValid 5) (omega (arith, length-new 5))
      (omega (arith, length-new 5))

abbrev pairs : List (ℕ × ℕ)
pairs = (0, 1) ∷ (3, 4) ∷ (1, 0) ∷ (4, 1) ∷ []

union_all-Chain_example :
    (ds : DisjointSet) × (union_all (new 5) pairs ≡ some ds)
    × IsValid ds
    × (length ds.parent ≡ 5)
    × ((x y : ℕ) → Connected ds x y ↔ Chain 5 pairs x y)
union_all-Chain_example = union_all-Chain 5 pairs (omega arith)

abbrev groups : List GroupMembership
groups =
    record { group_id = 1; trust = exact; members = 7 ∷ 3 ∷ []; non_transitive = false }
    ∷ record { group_id = 2; trust = very_likely; members = 3 ∷ 5 ∷ []; non_transitive = false }
    ∷ record { group_id = 3; trust = possible; members = 5 ∷ 9 ∷ []; non_transitive = false }
    ∷ record { group_id = 4; trust = possible; members = 7 ∷ 5 ∷ []; non_transitive = false }
    ∷ []

abbrev clusters : List Cluster
clusters =
    record {
      members =
          record { file_id = 3; trust = exact }
          ∷ record { file_id = 5; trust = very_likely }
          ∷ record { file_id = 7; trust = exact }
          ∷ [];
      representative_trust = exact;
      group_ids = 1 ∷ 2 ∷ [];
    }
    ∷ record {
      members =
          record { file_id = 5; trust = possible } ∷ record { file_id = 9; trust = possible } ∷ [];
      representative_trust = possible;
      group_ids = 3 ∷ [];
    }
    ∷ []

chains_are_merged : cluster_components groups ≡ some clusters
unfolding cluster_components merge_transitive is_transitive union find link sort_by
chains_are_merged = refl

summarize_clusters_lem_example :
    ((summarize_clusters clusters).clusters ≡ length clusters)
    × Counts
        (λ c. c.representative_trust ≡ exact)
        clusters
        (summarize_clusters clusters).exact_clusters
    × Counts
        (λ c. c.representative_trust ≡ very_likely)
        clusters
        (summarize_clusters clusters).very_likely_clusters
    × Counts
        (λ c. c.representative_trust ≡ possible)
        clusters
        (summarize_clusters clusters).possible_clusters
    × Counts CrossesTrust clusters (summarize_clusters clusters).cross_trust_clusters
    × Counts
        (λ c. 1 < length c.group_ids)
        clusters
        (summarize_clusters clusters).multi_group_clusters
    × ((summarize_clusters clusters).members_total ≡ sum_members clusters)
    × (((summarize_clusters clusters).largest_cluster ≡ 0)
        ⊎ ((c : Cluster) × (c ∈ clusters)
            × ((summarize_clusters clusters).largest_cluster ≡ length c.members)))
    × ((c : Cluster)
        → c ∈ clusters
        → length c.members ≤ (summarize_clusters clusters).largest_cluster)
summarize_clusters_lem_example = summarize_clusters_lem clusters

abbrev of_two : List (FileId × ℕ)
of_two = (3, 0) ∷ (5, 0) ∷ (9, 1) ∷ []

fully_inside_iff_example :
    (fully_inside_one_transitive_cluster (5 ∷ 3 ∷ []) of_two ≡ true)
    ↔ ((idx : ℕ) × (0 < length {A = FileId} (5 ∷ 3 ∷ [])) × All (In of_two idx) (5 ∷ 3 ∷ []))
fully_inside_iff_example = fully_inside_iff of_two (5 ∷ 3 ∷ [])

abbrev transitive : List GroupMembership
transitive =
    record { group_id = 1; trust = exact; members = 7 ∷ 3 ∷ []; non_transitive = false }
    ∷ record { group_id = 2; trust = very_likely; members = 3 ∷ 5 ∷ []; non_transitive = false }
    ∷ []

merge_transitive-Classes_example :
    (cs : List Cluster) × (merge_transitive transitive ≡ some cs) × Classes transitive cs
merge_transitive-Classes_example =
    merge_transitive-Classes transitive ((7, 3 ∷ [], refl), ((3, 5 ∷ [], refl), tt))
