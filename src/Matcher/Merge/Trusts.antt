-- ===== src/Matcher/Merge/Trusts.antt =====
-- The trust of each file, and the last step of `merge_transitive` in
-- crates/vidcull-matcher/src/cluster.rs.
use vidcull.Prelude.{
  ℕ, ◌≡◌, refl, sym, ap, ◌∙◌, ◌⊎◌, inl, inr, some, List, [], ◌∷◌, ◌∈◌, map, All, All-of_mem,
  All-mem, ltb,
}
use mathlib.Core.Path.{subst}
use vidcull.Prelude.Sort.{sort_by, mem-sort_by}
use vidcull.Prelude.Maps.{upsert, lookup, or_default}
use vidcull.Core.{FileId, TrustLevel}
use vidcull.Matcher.Trust.{GroupMembership, ClusterMember, Cluster, member_ids}
use vidcull.Matcher.Merge.{ByRoot, member_trust, trust_members, at_least, with_trust, root_clusters}
use vidcull.Matcher.Merge.Ids.{Member, first, later}
use vidcull.Matcher.Merge.Keys.{Present, upsert-Present_self, upsert-Present_keep}

trust_members-Present_keep :
    (j : ℕ) (t : TrustLevel) (ms : List FileId) (acc : List (FileId × TrustLevel))
    → Present j acc
    → Present j (trust_members t ms acc)
unfolding trust_members
trust_members-Present_keep j t [] acc h = h
trust_members-Present_keep j t (m ∷ ms) acc h =
    trust_members-Present_keep j t ms (upsert ltb m (at_least t) acc)
      (upsert-Present_keep j m (at_least t) acc h)

trust_members-Present :
    (j : ℕ) (t : TrustLevel) (ms : List FileId) (acc : List (FileId × TrustLevel))
    → j ∈ ms
    → Present j (trust_members t ms acc)
unfolding trust_members
trust_members-Present j t [] acc h = absurd h
trust_members-Present j t (m ∷ ms) acc (inl e) =
    trust_members-Present_keep j t ms (upsert ltb m (at_least t) acc) (
      subst (λ v. Present v (upsert ltb m (at_least t) acc)) (sym e)
        (upsert-Present_self m (at_least t) acc))
trust_members-Present j t (m ∷ ms) acc (inr k) =
    trust_members-Present j t ms (upsert ltb m (at_least t) acc) k

pub member_trust-Present :
    (j : ℕ) (gs : List GroupMembership) (acc : List (FileId × TrustLevel))
    → Present j acc ⊎ Member j gs
    → Present j (member_trust gs acc)
unfolding member_trust
member_trust-Present j [] acc (inl h) = h
member_trust-Present j [] acc (inr m) = elim m [ ]
member_trust-Present j (g ∷ gs) acc (inl h) =
    member_trust-Present j gs (trust_members g.trust g.members acc)
      (inl (trust_members-Present_keep j g.trust g.members acc h))
member_trust-Present j (g ∷ gs) acc (inr (first m)) =
    member_trust-Present j gs (trust_members g.trust g.members acc)
      (inl (trust_members-Present j g.trust g.members acc m))
member_trust-Present j (g ∷ gs) acc (inr (later m)) =
    member_trust-Present j gs (trust_members g.trust g.members acc) (inr m)

with_trust_lem :
    (trusts : List (FileId × TrustLevel)) (ids : List FileId)
    → All (λ x. Present x trusts) ids
    → (ms : List ClusterMember) × (with_trust trusts ids ≡ some ms)
      × (map (λ m. m.file_id) ms ≡ ids)
unfolding with_trust
with_trust_lem trusts [] h = ([], refl, refl)
with_trust_lem trusts (x ∷ ids) h =
    let (t, at) = h.0 in
    let (ms, ran, same) = with_trust_lem trusts ids h.1 in
    (record { file_id = x; trust = t } ∷ ms, rw (at, ran) refl, ap (λ l. x ∷ l) same)

-- The clusters of the lists under the roots.
pub record Listed (m : List (ℕ × List FileId)) (cs : List Cluster) : Type 0 where
  pub each :
      (c : Cluster)
      → c ∈ cs
      → (r : ℕ) × (l : List FileId) × ((r, l) ∈ m) × (member_ids c ≡ sort_by ltb l)
  pub every :
      (r : ℕ) (l : List FileId)
      → (r, l) ∈ m
      → (c : Cluster) × (c ∈ cs) × (member_ids c ≡ sort_by ltb l)

pub root_clusters_lem :
    (trusts : List (FileId × TrustLevel)) (by_root : ByRoot) (m : List (ℕ × List FileId))
    → All (λ e. Present e.0 by_root.1 × All (λ x. Present x trusts) e.1) m
    → (cs : List Cluster) × (root_clusters trusts by_root m ≡ some cs) × Listed m cs
unfolding root_clusters member_ids
root_clusters_lem trusts by_root [] h =
    ([], refl, record { each = λ c k. absurd k; every = λ r l k. absurd k })
root_clusters_lem trusts by_root ((root, ids) ∷ m) h =
    let (rep, at) = h.0.0 in
    let sorted =
      All-of_mem (sort_by ltb ids)
        (λ x k. All-mem (λ y. Present y trusts) ids x h.0.1 ((mem-sort_by ltb x ids).0 k)) in
    let (ms, ran, same) = with_trust_lem trusts (sort_by ltb ids) sorted in
    let (cs, ran', listed) = root_clusters_lem trusts by_root m h.1 in
    let c : Cluster = record {
      members = ms;
      representative_trust = rep;
      group_ids = sort_by ltb (or_default [] (lookup root by_root.0));
    } in
    (
      c ∷ cs,
      rw (at, ran, ran') refl,
      record {
        each = λ d k. elim k [
          | inl e ↦ (root, ids, inl refl, ap (λ v. map (λ n. n.file_id) v.members) e ∙ same)
          | inr t ↦ let (r, l, i, q) = listed.each d t in (r, l, inr i, q)
        ];
        every = λ r l k. elim k [
          | inl e ↦ (c, inl refl, same ∙ ap (λ p. sort_by ltb p.1) (sym e))
          | inr t ↦ let (d, i, q) = listed.every r l t in (d, inr i, q)
        ];
      },
    )
