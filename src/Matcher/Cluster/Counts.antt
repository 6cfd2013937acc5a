-- ===== src/Matcher/Cluster/Counts.antt =====
-- Counting the clusters with a property, for `summarize_clusters` of crates/vidcull-matcher/src/cluster.rs.
use vidcull.Prelude.{
  ℕ, ◌+◌, ◌≡◌, ◌≢◌, ◌⊎◌, refl, sym, ap, ◌∙◌, inl, inr, Bool, true, false, List, [], ◌∷◌, ◌∈◌, ltb,
  ◌==◌, Bool-cases, ==→≡, ==→≢, ==_refl, if◌then◌else◌, arith,
}
use vidcull.Core.{TrustLevel, exact, very_likely, possible}
use vidcull.Matcher.Trust.{trust_strength, Cluster, ClusterMember}
use vidcull.Matcher.Cluster.{count_if, seen}

-- Exactly n of the clusters have the property.
abbrev pub Counts : (Cluster → Type 0) → List Cluster → ℕ → Type 0
Counts P [] n = n ≡ 0
Counts P (c ∷ clusters) n =
    (P c × ((m : ℕ) × (n ≡ m + 1) × Counts P clusters m)) ⊎ ((P c → ⊥) × Counts P clusters n)

-- Two members that matched with different trust.
abbrev pub CrossesTrust : Cluster → Type 0
CrossesTrust c =
    (a : ClusterMember) × (b : ClusterMember) × (a ∈ c.members)
    × (b ∈ c.members)
    × (a.trust ≢ b.trust)

unfoldable pub tally : (Cluster → Bool) → List Cluster → ℕ
tally p [] = 0
tally p (c ∷ clusters) = (if p c then 1 else 0) + tally p clusters

pub tally-Counts :
    (P : Cluster → Type 0) (p : Cluster → Bool) (clusters : List Cluster)
    → ((c : Cluster) → (p c ≡ true → P c) × (p c ≡ false → P c → ⊥))
    → Counts P clusters (tally p clusters)
unfolding tally
tally-Counts P p [] h = refl
tally-Counts P p (c ∷ clusters) h = elim (Bool-cases (p c)) [
  | inl e ↦ rw e (inl ((h c).0 e, (tally p clusters, omega arith, tally-Counts P p clusters h)))
  | inr e ↦
      let none_more : 0 + tally p clusters ≡ tally p clusters = omega arith in
      rw (e, none_more) (inr ((h c).1 e, tally-Counts P p clusters h))
]

unfoldable pub has_trust : TrustLevel → Cluster → Bool
has_trust t c = trust_strength c.representative_trust == trust_strength t

trust_strength-injective : (a b : TrustLevel) → trust_strength a ≡ trust_strength b → a ≡ b
unfolding trust_strength
trust_strength-injective exact exact e = refl
trust_strength-injective exact very_likely e = absurd (omega (arith, e))
trust_strength-injective exact possible e = absurd (omega (arith, e))
trust_strength-injective very_likely exact e = absurd (omega (arith, e))
trust_strength-injective very_likely very_likely e = refl
trust_strength-injective very_likely possible e = absurd (omega (arith, e))
trust_strength-injective possible exact e = absurd (omega (arith, e))
trust_strength-injective possible very_likely e = absurd (omega (arith, e))
trust_strength-injective possible possible e = refl

pub has_trust_lem :
    (t : TrustLevel) (c : Cluster)
    → (has_trust t c ≡ true → c.representative_trust ≡ t)
      × (has_trust t c ≡ false → c.representative_trust ≡ t → ⊥)
unfolding has_trust
has_trust_lem t c = (
  λ h. trust_strength-injective _ t (==→≡ _ (trust_strength t) h),
  λ h e. ==→≢ _ (trust_strength t) h (ap trust_strength e),
)

seen-mem :
    (members : List ClusterMember) (m : ClusterMember)
    → m ∈ members
    → seen (trust_strength m.trust) members ≡ true
unfolding seen
seen-mem [] m i = absurd i
seen-mem (x ∷ members) m (inl e) = rw e (rw (==_refl (trust_strength x.trust)) refl)
seen-mem (x ∷ members) m (inr i) = ground (arith, seen-mem members m i)

mem-seen :
    (s : ℕ) (members : List ClusterMember)
    → seen s members ≡ true
    → (m : ClusterMember) × (m ∈ members) × (trust_strength m.trust ≡ s)
unfolding seen
mem-seen s [] h = cc
mem-seen s (x ∷ members) h = elim (Bool-cases (trust_strength x.trust == s)) [
  | inl e ↦ (x, inl refl, ==→≡ (trust_strength x.trust) s e)
  | inr e ↦ let (m, i, k) = mem-seen s members (rw e at h) in (m, inr i, k)
]

-- How many flags are set.
abbrev pub kinds : List ClusterMember → ℕ
kinds members = count_if (seen 1 members) (count_if (seen 2 members) (count_if (seen 3 members) 0))

unfoldable pub crosses : Cluster → Bool
crosses c = ltb 1 (kinds c.members)

two_seen :
    (c : Cluster) (s t : ℕ)
    → s ≢ t
    → seen s c.members ≡ true
    → seen t c.members ≡ true
    → CrossesTrust c
two_seen c s t ne h k =
    let (a, i, e) = mem-seen s c.members h in
    let (b, j, f) = mem-seen t c.members k in
    (a, b, i, j, λ same. ne (sym e ∙ (ap trust_strength same ∙ f)))

pub crosses_lem :
    (c : Cluster) → (crosses c ≡ true → CrossesTrust c) × (crosses c ≡ false → CrossesTrust c → ⊥)
unfolding crosses trust_strength
crosses_lem c = (
  λ h. elim (Bool-cases (seen 1 c.members)) [
    | inl e ↦ elim (Bool-cases (seen 2 c.members)) [
      | inl f ↦ two_seen c 1 2 (λ k. omega (arith, k)) e f
      | inr f ↦ elim (Bool-cases (seen 3 c.members)) [
        | inl g ↦ two_seen c 1 3 (λ k. omega (arith, k)) e g
        | inr g ↦ absurd (ground (arith, h, e, f, g))
      ]
    ]
    | inr e ↦ elim (Bool-cases (seen 2 c.members)) [
      | inl f ↦ elim (Bool-cases (seen 3 c.members)) [
        | inl g ↦ two_seen c 2 3 (λ k. omega (arith, k)) f g
        | inr g ↦ absurd (ground (arith, h, e, f, g))
      ]
      | inr f ↦ absurd (ground (arith, h, e, f))
    ]
  ],
  λ h x.
      let (a, b, i, j, ne) = x in
      different a.trust b.trust ne h (seen-mem c.members a i) (seen-mem c.members b j),
)
  where
    different :
        (s t : TrustLevel)
        → s ≢ t
        → ltb 1 (kinds c.members) ≡ false
        → seen (trust_strength s) c.members ≡ true
        → seen (trust_strength t) c.members ≡ true
        → ⊥
    different exact exact ne h k l = ne refl
    different exact very_likely ne h k l = absurd (ground (arith, h, k, l))
    different exact possible ne h k l = absurd (ground (arith, h, k, l))
    different very_likely exact ne h k l = absurd (ground (arith, h, k, l))
    different very_likely very_likely ne h k l = ne refl
    different very_likely possible ne h k l = absurd (ground (arith, h, k, l))
    different possible exact ne h k l = absurd (ground (arith, h, k, l))
    different possible very_likely ne h k l = absurd (ground (arith, h, k, l))
    different possible possible ne h k l = ne refl
