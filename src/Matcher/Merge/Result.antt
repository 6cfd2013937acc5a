-- ===== src/Matcher/Merge/Result.antt =====
-- The clusters that `merge_transitive` of crates/vidcull-matcher/src/cluster.rs returns, against the
-- chains of groups.
use vidcull.Prelude.{
  ℕ, ◌≡◌, ◌↔◌, refl, sym, ◌∙◌, inl, inr, some, List, [], ◌∷◌, ◌∈◌, length, All, All-of_mem, ltb,
}
use mathlib.Core.Path.{subst}
use vidcull.Prelude.Sort.{sort_by, mem-sort_by}
use vidcull.Core.{FileId}
use vidcull.Matcher.DisjointSet.{DisjointSet, new, union_all}
use vidcull.Matcher.DisjointSet.Roots.{Root-unique}
use vidcull.Matcher.Trust.{GroupMembership, Cluster, member_ids}
use vidcull.Matcher.Merge.{
  ByRoot, id_set, member_trust, root_clusters, merge_ids, merge_transitive, all_pairs,
  members_by_root, groups_by_root,
}
use vidcull.Matcher.Merge.Ids.{Member, mem-id_set, mem_of_id_set}
use vidcull.Matcher.Merge.Positions.{AllPairs, all_pairs-AllPairs}
use vidcull.Matcher.Merge.Roots.{
  Keeps-self, Placed, Grouped, members_by_root_lem, NonEmpty, Member-Head, Reps, groups_by_root_lem,
}
use vidcull.Matcher.DisjointSet.Union.{Connected}
use vidcull.Matcher.DisjointSet.Closure.{Chain, union_all-Chain}
use vidcull.Matcher.Merge.Classes.{
  Together, share, swap, Shared-Member, Together-Member, Chain-Together, Together-Chain,
}
use vidcull.Prelude.Maps.Push.{
  ltb-IsStrict, Holds, Holds-entry, entry-Holds, IsMap-entry, IsMap-unique,
}
use vidcull.Matcher.Merge.Keys.{Present}
use vidcull.Matcher.Merge.Trusts.{member_trust-Present, Listed, root_clusters_lem}

-- What the loops leave, for the facts that the result rests on.
record Built (gs : List GroupMembership) (ids : List FileId) (ds : DisjointSet)
    (m : List (ℕ × List FileId)) : Type 0 where
  to_ids : (x : FileId) → Member x gs → x ∈ ids
  of_ids : (x : FileId) → x ∈ ids → Member x gs
  pairs : List (ℕ × ℕ)
  facts : AllPairs ids gs pairs
  classes : (i j : ℕ) → Connected ds i j ↔ Chain (length ids) pairs i j
  grouped : Grouped ds ids ids [] m

module _ {gs : List GroupMembership} {ids : List FileId} {ds : DisjointSet}
    {m : List (ℕ × List FileId)} (b : Built gs ids ds m) where
  held : (r y : ℕ) → Holds r y m → Member y gs × Placed ds ids r y
  held r y h = elim (b.grouped.sound r y h) [ inl t ↦ absurd t | inr t ↦ (b.of_ids y t.0, t.1) ]

  one_root : (r x y : ℕ) → Holds r x m → Holds r y m → Together gs x y
  unfolding Connected
  one_root r x y h k =
      let (mx, (i, ax, px)) = held r x h in
      let (my, (j, ay, py)) = held r y k in
      Chain-Together b.facts mx ax ay ((b.classes i j).0 (r, px, py))

  Together-Placed : (r s x y : ℕ) → Placed ds ids r x → Placed ds ids s y → Together gs x y → r ≡ s
  unfolding Connected
  Together-Placed r s x y (i, ax, px) (j, ay, py) t =
      let (u, qx, qy) = (b.classes i j).1 (Together-Chain i j b.to_ids b.facts t ax ay) in
      Root-unique px qx ∙ Root-unique qy py

  -- Files that are together are under one key.
  under_one : (x y : FileId) → Together gs x y → (r : ℕ) × Holds r x m × Holds r y m
  under_one x y t =
      let (mx, my) = Together-Member t in
      let (r, h) = b.grouped.complete x (b.to_ids x mx) in
      let (s, k) = b.grouped.complete y (b.to_ids y my) in
      (
        r,
        h,
        subst (λ v. Holds v y m) (sym (Together-Placed r s x y (held r x h).1 (held s y k).1 t)) k,
      )

  key_trusted :
      (out : ByRoot)
      → All NonEmpty gs
      → Reps ds ids gs ([], []) out
      → (r : ℕ) (l : List FileId) → (r, l) ∈ m
      → Present r out.1
  key_trusted out full reps r l k =
      let (y, i) = IsMap-entry ltb ltb-IsStrict r l m b.grouped.is_map k in
      let (my, placed) = held r y (entry-Holds r y l m k i) in
      let (f, head, s) = Member-Head full my in
      let (q, h) = b.grouped.complete f (b.to_ids f (Shared-Member s).1) in
      let at = (held q f h).1 in
      let same : q ≡ r = Together-Placed q r f y at placed (swap (share s)) in
      subst (λ v. Present v out.1) same (reps.filled f q head at)

  -- Each key has a trust, and each file under it has one.
  trusted :
      (out : ByRoot)
      → All NonEmpty gs
      → Reps ds ids gs ([], []) out
      → All (λ e. Present e.0 out.1 × All (λ x. Present x (member_trust gs [])) e.1) m
  trusted out full reps = All-of_mem m λ e k. (
    key_trusted out full reps e.0 e.1 k,
    All-of_mem e.1
        (λ x i. member_trust-Present x gs [] (inr (held e.0 x (entry-Holds e.0 x e.1 m k i)).0)),
  )

-- One of the clusters has both files.
pub SameCluster : List Cluster → FileId → FileId → Type 0
SameCluster cs x y = (c : Cluster) × (c ∈ cs) × (x ∈ member_ids c) × (y ∈ member_ids c)

-- No file is in two clusters with different members.
pub Disjoint : List Cluster → Type 0
Disjoint cs =
    (c d : Cluster) (x y : FileId)
    → c ∈ cs
    → d ∈ cs
    → x ∈ member_ids c
    → x ∈ member_ids d
    → y ∈ member_ids c
    → y ∈ member_ids d

unsort : (x : FileId) (ids l : List FileId) → ids ≡ sort_by ltb l → x ∈ ids → x ∈ l
unsort x ids l e k = (mem-sort_by ltb x l).0 (subst (λ v. x ∈ v) e k)

sorted : (x : FileId) (ids l : List FileId) → ids ≡ sort_by ltb l → x ∈ l → x ∈ ids
sorted x ids l e k = subst (λ v. x ∈ v) (sym e) ((mem-sort_by ltb x l).1 k)

module _ {gs : List GroupMembership} {ids : List FileId} {ds : DisjointSet}
    {m : List (ℕ × List FileId)} (b : Built gs ids ds m) {cs : List Cluster}
    (listed : Listed m cs) where
  SameCluster-iff : (x y : FileId) → SameCluster cs x y ↔ Together gs x y
  unfolding SameCluster
  SameCluster-iff x y = (
    λ (c, k, i, j).
        let (r, l, e, q) = listed.each c k in
        one_root b r x y (entry-Holds r x l m e (unsort x (member_ids c) l q i))
          (entry-Holds r y l m e (unsort y (member_ids c) l q j)),
    λ t.
        let (r, h, k) = under_one b x y t in
        let (l, e, i) = Holds-entry r x m h in
        let (c, k', q) = listed.every r l e in
        (
          c,
          k',
          sorted x (member_ids c) l q i,
          sorted y (member_ids c) l q (IsMap-unique ltb ltb-IsStrict r y l m b.grouped.is_map e k),
        ),
  )

  disjoint : Disjoint cs
  unfolding Disjoint
  disjoint c d x y kc kd xc xd yc =
      let (r, l, e, q) = listed.each c kc in
      let (s, l', e', q') = listed.each d kd in
      let hx = entry-Holds r x l m e (unsort x (member_ids c) l q xc) in
      let hx' = entry-Holds s x l' m e' (unsort x (member_ids d) l' q' xd) in
      let hy = entry-Holds r y l m e (unsort y (member_ids c) l q yc) in
      let same : r ≡ s =
        Together-Placed b r s x x (held b r x hx).1 (held b s x hx').1 (one_root b r x x hx hx) in
      sorted y (member_ids d) l' q' (
        IsMap-unique ltb ltb-IsStrict s y l' m b.grouped.is_map e'
          (subst (λ v. Holds v y m) same hy))

-- What `merge_transitive` is for: its clusters are the classes of the groups.
abbrev pub Classes : List GroupMembership → List Cluster → Type 0
Classes gs cs = ((x y : FileId) → SameCluster cs x y ↔ Together gs x y) × Disjoint cs

no_groups : (gs : List GroupMembership) → ((x : FileId) → Member x gs → ⊥) → Classes gs []
unfolding SameCluster Disjoint
no_groups gs h = (
  λ x y. (λ (c, k, i, j). absurd k, λ t. absurd (h x (Together-Member t).0)),
  λ c d x y k. absurd k,
)

merge_ids_ran :
    (gs : List GroupMembership) (x : FileId) (xs : List FileId) (pairs : List (ℕ × ℕ))
    (ds after : DisjointSet) (m : List (ℕ × List FileId)) (out : ByRoot)
    → all_pairs (x ∷ xs) gs ≡ some pairs
    → union_all (new (length (x ∷ xs))) pairs ≡ some ds
    → members_by_root (x ∷ xs) (x ∷ xs) ds [] ≡ some (m, after)
    → groups_by_root (x ∷ xs) gs after ([], []) ≡ some out
    → merge_ids gs (x ∷ xs) ≡ root_clusters (member_trust gs []) out m
unfolding merge_ids
merge_ids_ran gs x xs pairs ds after m out e f g h = rw (e, f, g, h) refl

merge_ids-Classes :
    (gs : List GroupMembership) (ids : List FileId)
    → All NonEmpty gs
    → ((x : FileId) → Member x gs → x ∈ ids)
    → ((x : FileId) → x ∈ ids → Member x gs)
    → (cs : List Cluster) × (merge_ids gs ids ≡ some cs) × Classes gs cs
unfolding merge_ids
merge_ids-Classes gs [] full to of = ([], refl, no_groups gs (λ x k. to x k))
merge_ids-Classes gs (x ∷ xs) full to of =
    let ids = x ∷ xs in
    let (pairs, ran_pairs, facts) = all_pairs-AllPairs ids gs to in
    let (ds, ran_union, w, size, classes) = union_all-Chain (length ids) pairs facts.in_range in
    let (m, after, ran_members, k, grouped) =
      members_by_root_lem ds ids ids ds [] w size (Keeps-self ds w) tt
        (All-of_mem ids (λ y i. i)) in
    let (out, ran_groups, reps) = groups_by_root_lem ds ids gs after ([], []) w size k full to in
    let b : Built gs ids ds m = record {
      to_ids = to;
      of_ids = of;
      pairs = pairs;
      facts = facts;
      classes = classes;
      grouped = grouped;
    } in
    let (cs, ran, listed) =
      root_clusters_lem (member_trust gs []) out m (trusted b out full reps) in
    (
      cs,
      merge_ids_ran gs x xs pairs ds after m out ran_pairs ran_union ran_members ran_groups ∙ ran,
      (SameCluster-iff b listed, disjoint b listed),
    )

-- For groups with members, `merge_transitive` returns; two files are in one of its clusters exactly
-- if a chain of groups, each sharing a file with the next, leads from one to the other, and no file
-- is in two clusters with different members.
pub merge_transitive-Classes :
    (gs : List GroupMembership)
    → All NonEmpty gs
    → (cs : List Cluster) × (merge_transitive gs ≡ some cs) × Classes gs cs
unfolding merge_transitive
merge_transitive-Classes gs full =
    merge_ids-Classes gs (id_set [] gs) full (λ x k. mem-id_set x [] gs (inr k))
      λ x k. elim (mem_of_id_set x [] gs k) [ inl t ↦ absurd t | inr t ↦ t ]
