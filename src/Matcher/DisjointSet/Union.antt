-- ===== src/Matcher/DisjointSet/Union.antt =====
-- `DisjointSet::union` of crates/vidcull-matcher/src/cluster.rs and which indices are connected.
use vidcull.Prelude.{
  ℕ, ◌<◌, ◌≡◌, ◌↔◌, refl, sym, ◌∙◌, ◌⊎◌, inl, inr, some, ◌==◌, if◌then◌else◌, leb, length,
  get_elem?, arith, Bool-cases, ==→≡, ==→≢,
}
use mathlib.Core.Path.{subst}
use vidcull.Matcher.DisjointSet.{DisjointSet, find, link, union, and_then}
use vidcull.Matcher.DisjointSet.Roots.{Root, IsValid, Root-end, Root-unique, Root-lt_start}
use vidcull.Matcher.DisjointSet.Find.{find_lem, Root-exists}
use vidcull.Matcher.DisjointSet.Link.{Joins, by_size}

unfoldable pub Connected : DisjointSet → ℕ → ℕ → Type 0
Connected ds x y = (r : ℕ) × Root ds.parent x r × Root ds.parent y r

union_ran :
    (ds ds1 ds2 : DisjointSet) (a b ra rb : ℕ)
    → find ds a ≡ some (ra, ds1)
    → find ds1 b ≡ some (rb, ds2)
    → union ds a b ≡ (
        if ra == rb
        then some ds2
        else and_then (get_elem? ds2.size ra) λ s.
          and_then (get_elem? ds2.size rb) λ t. if leb t s then link ds2 ra rb else link ds2 rb ra)
unfolding union
union_ran ds ds1 ds2 a b ra rb e f = rw (e, f) refl

same_Joins : (ds : DisjointSet) (ra rb : ℕ) → IsValid ds → ra ≡ rb → Joins ds ra rb ds
same_Joins ds ra rb w e = record {
  valid = w;
  same_length = refl;
  f = λ r. r;
  roots = λ y r q. q;
  together = e;
  only = λ r s h. inl h;
}

-- `Joins` of a structure whose trees are those of `ds`.
before :
    (ds ds2 ds' : DisjointSet) (ra rb : ℕ)
    → length ds2.parent ≡ length ds.parent
    → ((y r : ℕ) → Root ds.parent y r → Root ds2.parent y r)
    → Joins ds2 ra rb ds'
    → Joins ds ra rb ds'
before ds ds2 ds' ra rb same keep j = record {
  valid = j.valid;
  same_length = j.same_length ∙ same;
  f = j.f;
  roots = λ y r q. j.roots y r (keep y r q);
  together = j.together;
  only = j.only;
}

union-Joins :
    (ds : DisjointSet) (a b : ℕ)
    → IsValid ds
    → a < length ds.parent
    → b < length ds.parent
    → (ra : ℕ) × (rb : ℕ) × (ds' : DisjointSet) × Root ds.parent a ra
      × Root ds.parent b rb
      × (union ds a b ≡ some ds')
      × Joins ds ra rb ds'
union-Joins ds a b w low_a low_b =
    let (ra, ds1, m) = find_lem ds a w low_a in
    let (rb, ds2, n) = find_lem ds1 b m.valid (omega (arith, m.same_length)) in
    let (sb, pb) = Root-exists ds.parent ds.size b w low_b in
    let eb : sb ≡ rb = Root-unique (m.roots b sb pb) n.is_root in
    let at_a = Root-end (n.roots a ra (m.roots a ra m.is_root)) in
    let at_b = Root-end (n.roots b rb n.is_root) in
    let keep : (y r : ℕ) → Root ds.parent y r → Root ds2.parent y r =
      λ y r q. n.roots y r (m.roots y r q) in
    let same : length ds2.parent ≡ length ds.parent = n.same_length ∙ m.same_length in
    let ran = union_ran ds ds1 ds2 a b ra rb m.ran n.ran in
    elim (Bool-cases (ra == rb)) [
      | inl k ↦ (
        ra,
        rb,
        ds2,
        m.is_root,
        subst (λ r. Root ds.parent b r) eb pb,
        ran ∙ rw k refl,
        before ds ds2 ds2 ra rb same keep (same_Joins ds2 ra rb n.valid (==→≡ ra rb k)),
      )
      | inr k ↦
          let (ds', done, j) = by_size ds2 ra rb n.valid at_a at_b (==→≢ ra rb k) in
          (
            ra,
            rb,
            ds',
            m.is_root,
            subst (λ r. Root ds.parent b r) eb pb,
            ran ∙ rw k done,
            before ds ds2 ds' ra rb same keep j,
          )
    ]

-- x and y are together, or each is with one of a and b.
unfoldable pub Merged : DisjointSet → ℕ → ℕ → ℕ → ℕ → Type 0
Merged ds a b x y =
    Connected ds x y ⊎ (Connected ds x a × Connected ds b y) ⊎ (Connected ds x b × Connected ds a y)

split_merge :
    {ds ds' : DisjointSet} {a b ra rb : ℕ} (x y : ℕ)
    → IsValid ds
    → Root ds.parent a ra
    → Root ds.parent b rb
    → Joins ds ra rb ds'
    → Connected ds' x y
    → Merged ds a b x y
unfolding Connected Merged
split_merge {ds = ds} {ra = ra} {rb = rb} x y w pa pb j (r, px, py) =
    let (rx, qx) =
      Root-exists ds.parent ds.size x w (omega (arith, Root-lt_start px, j.same_length)) in
    let (ry, qy) =
      Root-exists ds.parent ds.size y w (omega (arith, Root-lt_start py, j.same_length)) in
    let met : j.f rx ≡ j.f ry =
      Root-unique (j.roots x rx qx) px ∙ sym (Root-unique (j.roots y ry qy) py) in
    elim (j.only rx ry met) [
      | inl e ↦ inl (rx, qx, rw e qy)
      | inr (inl (e, f)) ↦ inr (inl ((rx, qx, rw e pa), (rb, pb, rw (← f) qy)))
      | inr (inr (e, f)) ↦ inr (inr ((rx, qx, rw e pb), (ra, pa, rw (← f) qy)))
    ]

join_merge :
    {ds ds' : DisjointSet} {a b ra rb : ℕ} (x y : ℕ)
    → Root ds.parent a ra
    → Root ds.parent b rb
    → Joins ds ra rb ds'
    → Merged ds a b x y
    → Connected ds' x y
unfolding Connected Merged
join_merge x y pa pb j (inl (r, px, py)) = (j.f r, j.roots x r px, j.roots y r py)
join_merge x y pa pb j (inr (inl ((r, px, qa), (s, qb, py)))) =
    let e = Root-unique qa pa in
    let f = Root-unique qb pb in (j.f r, j.roots x r px, rw (e, j.together, ← f) (j.roots y s py))
join_merge x y pa pb j (inr (inr ((r, px, qb), (s, qa, py)))) =
    let e = Root-unique qb pb in
    let f = Root-unique qa pa in (j.f r, j.roots x r px, rw (e, ← j.together, ← f) (j.roots y s py))

-- On two indices in range of a valid structure, `union` ends, its result is valid and has as many
-- indices, and two indices are together in it exactly if they were, or each was with one of a and b.
pub union_lem :
    (ds : DisjointSet) (a b : ℕ)
    → IsValid ds
    → a < length ds.parent
    → b < length ds.parent
    → (ds' : DisjointSet) × (union ds a b ≡ some ds')
      × IsValid ds'
      × (length ds'.parent ≡ length ds.parent)
      × ((x y : ℕ) → Connected ds' x y ↔ Merged ds a b x y)
union_lem ds a b w low_a low_b =
    let (ra, rb, ds', pa, pb, ran, j) = union-Joins ds a b w low_a low_b in
    (ds', ran, j.valid, j.same_length, λ x y. (split_merge x y w pa pb j, join_merge x y pa pb j))
