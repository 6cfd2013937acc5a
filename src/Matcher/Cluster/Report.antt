-- ===== src/Matcher/Cluster/Report.antt =====
-- `summarize_clusters` of crates/vidcull-matcher/src/cluster.rs against the clusters.
use mathlib.Core.Path.{subst}
use vidcull.Prelude.{
  ℕ, ◌+◌, ◌≤◌, ◌<◌, ◌≡◌, ◌⊎◌, refl, inl, inr, Bool, true, false, List, [], ◌∷◌, ◌∈◌, length, ltb,
  ltb→lt, ltb→ge, Bool-cases, if◌then◌else◌, arith,
}
use vidcull.Core.{exact, very_likely, possible}
use vidcull.Matcher.Trust.{trust_strength, Cluster}
use vidcull.Matcher.Cluster.{
  ClusterReport, count_if, report_cluster, report_loop, summarize_clusters,
}
use vidcull.Matcher.Cluster.Counts.{
  Counts, CrossesTrust, tally, tally-Counts, has_trust, has_trust_lem, crosses, crosses_lem,
}

pub sum_members : List Cluster → ℕ
sum_members [] = 0
sum_members (c ∷ clusters) = length c.members + sum_members clusters

many_groups : Cluster → Bool
many_groups c = ltb 1 (length c.group_ids)

count_if-one : (b : Bool) (n : ℕ) → count_if b n ≡ n + (if b then 1 else 0)
count_if-one true n = refl
count_if-one false n = omega arith

report_loop_lem :
    (r : ClusterReport) (clusters : List Cluster)
    → ((report_loop r clusters).exact_clusters
        ≡ r.exact_clusters + tally (has_trust exact) clusters)
      × ((report_loop r clusters).very_likely_clusters
          ≡ r.very_likely_clusters + tally (has_trust very_likely) clusters)
      × ((report_loop r clusters).possible_clusters
          ≡ r.possible_clusters + tally (has_trust possible) clusters)
      × ((report_loop r clusters).cross_trust_clusters
          ≡ r.cross_trust_clusters + tally crosses clusters)
      × ((report_loop r clusters).multi_group_clusters
          ≡ r.multi_group_clusters + tally many_groups clusters)
      × ((report_loop r clusters).members_total ≡ r.members_total + sum_members clusters)
      × ((report_loop r clusters).clusters ≡ r.clusters)
unfolding sum_members tally has_trust trust_strength crosses many_groups
report_loop_lem r [] =
    (omega arith, omega arith, omega arith, omega arith, omega arith, omega arith, refl)
report_loop_lem r (x ∷ clusters) =
    let (a, b, c, d, e, f, g) = report_loop_lem (report_cluster r x) clusters in
    (
      ground (arith, a),
      ground (arith, b),
      ground (arith, c),
      omega (arith, d, count_if-one (crosses x) r.cross_trust_clusters),
      ground (arith, e),
      omega (arith, f),
      g,
    )

-- The size of the largest cluster, or what the report had before.
largest_lem :
    (r : ClusterReport) (clusters : List Cluster)
    → (((report_loop r clusters).largest_cluster ≡ r.largest_cluster)
        ⊎ ((c : Cluster) × (c ∈ clusters)
            × ((report_loop r clusters).largest_cluster ≡ length c.members)))
      × (r.largest_cluster ≤ (report_loop r clusters).largest_cluster)
      × ((c : Cluster) → c ∈ clusters → length c.members ≤ (report_loop r clusters).largest_cluster)
largest_lem r [] = (inl refl, omega arith, λ c m. absurd m)
largest_lem r (x ∷ clusters) =
    let (from, low, all) = largest_lem (report_cluster r x) clusters in
    let here : length x.members ≤ (report_cluster r x).largest_cluster = omega arith in
    (
      elim from [
        | inr (c, m, e) ↦ inr (c, inr m, e)
        | inl e ↦ elim (Bool-cases (ltb r.largest_cluster (length x.members))) [
          | inl k ↦ inr (x, inl refl, omega (arith, e, ltb→lt _ _ k))
          | inr k ↦ inl (omega (arith, e, ltb→ge _ _ k))
        ]
      ],
      omega (arith, low),
      λ k m. elim m [ inl same ↦ rw same (omega (arith, here, low)) | inr later ↦ all k later ],
    )

-- A report has the number of the clusters, and of those with each representative trust, with members of
-- different trust, and with more than one group; `members_total` is the sum of the clusters' sizes, and
-- `largest_cluster` is the size of a cluster, or 0, and no cluster is larger.
pub summarize_clusters_lem :
    (clusters : List Cluster)
    → ((summarize_clusters clusters).clusters ≡ length clusters)
      × Counts
          (λ c. c.representative_trust ≡ exact)
          clusters
          (summarize_clusters clusters).exact_clusters
      × Counts
          (λ c. c.representative_trust ≡ very_likely)
          clusters
          (summarize_clusters clusters).very_likely_clusters
      × Counts
          (λ c. c.representative_trust ≡ possible)
          clusters
          (summarize_clusters clusters).possible_clusters
      × Counts CrossesTrust clusters (summarize_clusters clusters).cross_trust_clusters
      × Counts
          (λ c. 1 < length c.group_ids)
          clusters
          (summarize_clusters clusters).multi_group_clusters
      × ((summarize_clusters clusters).members_total ≡ sum_members clusters)
      × (((summarize_clusters clusters).largest_cluster ≡ 0)
          ⊎ ((c : Cluster) × (c ∈ clusters)
              × ((summarize_clusters clusters).largest_cluster ≡ length c.members)))
      × ((c : Cluster)
          → c ∈ clusters
          → length c.members ≤ (summarize_clusters clusters).largest_cluster)
unfolding summarize_clusters many_groups
summarize_clusters_lem clusters =
    let (a, b, c, d, e, f, g) = report_loop_lem _ clusters in
    let (from, low, all) = largest_lem _ clusters in
    (
      g,
      counted _ _ (has_trust_lem exact) a,
      counted _ _ (has_trust_lem very_likely) b,
      counted _ _ (has_trust_lem possible) c,
      counted _ _ crosses_lem d,
      counted _ _
          (λ k. (
            ltb→lt 1 (length k.group_ids),
            λ h more. absurd (omega (arith, more, ltb→ge 1 (length k.group_ids) h)),
          ))
          e,
      omega (arith, f),
      from,
      all,
    )
  where
    counted :
        (P : Cluster → Type 0) (p : Cluster → Bool)
        → ((k : Cluster) → (p k ≡ true → P k) × (p k ≡ false → P k → ⊥))
        → {n : ℕ} → n ≡ 0 + tally p clusters
        → Counts P clusters n
    counted P p h {n} e =
        let same : tally p clusters ≡ n = omega (arith, e) in
        subst (Counts P clusters) same (tally-Counts P p clusters h)
