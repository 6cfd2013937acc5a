-- ===== src/Matcher/DisjointSet/Closure.antt =====
-- A sequence of calls of `DisjointSet::union`, as in `merge_transitive` of
-- crates/vidcull-matcher/src/cluster.rs, against the equivalence of its pairs.
use vidcull.Prelude.{
  ℕ, zero, suc, ◌+◌, ◌<◌, ◌≡◌, ◌↔◌, refl, sym, ap, ◌∙◌, inl, inr, some, List, [], ◌∷◌, ◌∈◌, All,
  length, get_elem?, get_or, arith, get_elem?-lt, length-replicate, replicate,
}
use mathlib.Core.Option.{some-injective}
use vidcull.Matcher.DisjointSet.{DisjointSet, range, new, union_all}
use vidcull.Matcher.DisjointSet.Roots.{Root, top, up, IsValid, Root-unique, Root-lt_start}
use vidcull.Matcher.DisjointSet.Find.{Root-exists}
use vidcull.Matcher.DisjointSet.Union.{Connected, Merged, union_lem}

-- The finest equivalence on 0 … n - 1 that relates the two sides of every pair.
pub data Chain (n : ℕ) (pairs : List (ℕ × ℕ)) : ℕ → ℕ → Type 0 where
  same : {x : ℕ} → x < n → Chain n pairs x x
  pair : {a b : ℕ} → (a, b) ∈ pairs → Chain n pairs a b
  back : {x y : ℕ} → Chain n pairs x y → Chain n pairs y x
  trans : {x y z : ℕ} → Chain n pairs x y → Chain n pairs y z → Chain n pairs x z

-- The same over the trees of a structure.
data Linked (ds : DisjointSet) (pairs : List (ℕ × ℕ)) : ℕ → ℕ → Type 0 where
  start : {x y : ℕ} → Connected ds x y → Linked ds pairs x y
  link_pair : {a b : ℕ} → (a, b) ∈ pairs → Linked ds pairs a b
  link_back : {x y : ℕ} → Linked ds pairs x y → Linked ds pairs y x
  link_trans : {x y z : ℕ} → Linked ds pairs x y → Linked ds pairs y z → Linked ds pairs x z

abbrev pub InRange : ℕ → ℕ × ℕ → Type 0
InRange n p = (p.0 < n) × (p.1 < n)

Connected-sym : (ds : DisjointSet) (x y : ℕ) → Connected ds x y → Connected ds y x
unfolding Connected
Connected-sym ds x y (r, p, q) = (r, q, p)

Connected-trans :
    (ds : DisjointSet) (x y z : ℕ) → Connected ds x y → Connected ds y z → Connected ds x z
unfolding Connected
Connected-trans ds x y z (r, p, q) (s, p', q') = (r, p, rw (Root-unique q p') q')

Connected-self : (ds : DisjointSet) (x : ℕ) → IsValid ds → x < length ds.parent → Connected ds x x
unfolding Connected
Connected-self ds x w low = let (r, path) = Root-exists ds.parent ds.size x w low in (r, path, path)

-- One call less.
unmerge :
    {ds : DisjointSet} {a b : ℕ} {pairs : List (ℕ × ℕ)} {x y : ℕ}
    → Merged ds a b x y
    → Linked ds ((a, b) ∷ pairs) x y
unfolding Merged
unmerge (inl c) = start c
unmerge (inr (inl (c, d))) = link_trans (link_trans (start c) (link_pair (inl refl))) (start d)
unmerge (inr (inr (c, d))) =
    link_trans (link_trans (start c) (link_back (link_pair (inl refl)))) (start d)

lift :
    {ds ds1 : DisjointSet} {a b : ℕ} {pairs : List (ℕ × ℕ)} {x y : ℕ}
    → ((u v : ℕ) → Connected ds1 u v → Merged ds a b u v)
    → Linked ds1 pairs x y
    → Linked ds ((a, b) ∷ pairs) x y
lift f (start {x = u} {y = v} c) = unmerge (f u v c)
lift f (link_pair m) = link_pair (inr m)
lift f (link_back l) = link_back (lift f l)
lift f (link_trans l m) = link_trans (lift f l) (lift f m)

lower :
    {ds ds1 : DisjointSet} {a b : ℕ} {pairs : List (ℕ × ℕ)} {x y : ℕ}
    → ((u v : ℕ) → Connected ds u v → Connected ds1 u v)
    → Connected ds1 a b
    → Linked ds ((a, b) ∷ pairs) x y
    → Linked ds1 pairs x y
lower f c (start {x = u} {y = v} d) = start (f u v d)
lower {ds1 = ds1} {pairs = pairs} f c (link_pair (inl e)) =
    rw (ap (λ p. p.0) e, ap (λ p. p.1) e) (start c)
lower f c (link_pair (inr m)) = link_pair m
lower f c (link_back l) = link_back (lower f c l)
lower f c (link_trans l m) = link_trans (lower f c l) (lower f c m)

settle : {ds : DisjointSet} {x y : ℕ} → Linked ds [] x y → Connected ds x y
settle (start c) = c
settle (link_pair m) = absurd m
settle {ds = ds} (link_back l) = Connected-sym ds _ _ (settle l)
settle {ds = ds} (link_trans l m) = Connected-trans ds _ _ _ (settle l) (settle m)

Merged-left : (ds : DisjointSet) (a b x y : ℕ) → Connected ds x y → Merged ds a b x y
unfolding Merged
Merged-left ds a b x y c = inl c

Merged-pair :
    (ds : DisjointSet) (a b : ℕ)
    → IsValid ds
    → a < length ds.parent
    → b < length ds.parent
    → Merged ds a b a b
unfolding Merged
Merged-pair ds a b w low_a low_b =
    inr (inl (Connected-self ds a w low_a, Connected-self ds b w low_b))

union_all_lem :
    (pairs : List (ℕ × ℕ)) (ds : DisjointSet)
    → IsValid ds
    → All (InRange (length ds.parent)) pairs
    → (ds' : DisjointSet) × (union_all ds pairs ≡ some ds')
      × IsValid ds'
      × (length ds'.parent ≡ length ds.parent)
      × ((x y : ℕ) → Connected ds' x y ↔ Linked ds pairs x y)
unfolding union_all
union_all_lem [] ds w h = (ds, refl, w, refl, λ x y. (λ c. start c, settle))
union_all_lem ((a, b) ∷ pairs) ds w h =
    let (ds1, ran, w1, same_length, merged) = union_lem ds a b w h.0.0 h.0.1 in
    let (ds', rest, w', size, linked) = union_all_lem pairs ds1 w1 (rw same_length h.1) in
    let keep : (u v : ℕ) → Connected ds u v → Connected ds1 u v =
      λ u v c. (merged u v).1 (Merged-left ds a b u v c) in
    let met : Connected ds1 a b = (merged a b).1 (Merged-pair ds a b w h.0.0 h.0.1) in
    (
      ds',
      rw ran rest,
      w',
      size ∙ same_length,
      λ x y. (
        λ c. lift (λ u v d. (merged u v).0 d) ((linked x y).0 c),
        λ l. (linked x y).1 (lower keep met l),
      ),
    )

get_elem?-range : (first n i p : ℕ) → get_elem? (range first n) i ≡ some p → p ≡ first + i
unfolding range
get_elem?-range first zero i p h = cc
get_elem?-range first (suc n) zero p h = let e = some-injective _ _ h in omega arith
get_elem?-range first (suc n) (suc i) p h = omega (arith, get_elem?-range (first + 1) n i p h)

length-range : (first n : ℕ) → length (range first n) ≡ n
unfolding range
length-range first zero = refl
length-range first (suc n) = ap suc (length-range (first + 1) n)

get_or-ones : (n x : ℕ) → x < n → ◌≡◌ {A = ℕ} (get_or (replicate n 1) x 0) 1
get_or-ones zero x h = absurd (omega arith)
get_or-ones (suc n) zero h = refl
get_or-ones (suc n) (suc x) h = get_or-ones n x (omega arith)

pub length-new : (n : ℕ) → length (new n).parent ≡ n
unfolding new
length-new n = length-range 0 n

pub new-IsValid : (n : ℕ) → IsValid (new n)
unfolding new
new-IsValid m = record {
  same_length = length-range 0 m ∙ sym (length-replicate m 1);
  in_range = λ x p e. omega (arith, get_elem?-range 0 m x p e, get_elem?-lt (range 0 m) x p e);
  climbs = λ x p e n. absurd (n (omega (arith, get_elem?-range 0 m x p e)));
  positive = λ x h.
      let low : x < m = omega (arith, length-replicate {A = ℕ} m 1) in
      omega (arith, get_or-ones m x low);
}

own : (n x r : ℕ) → Root (range 0 n) x r → r ≡ x
own n x r (top e) = refl
own n x r (up {p = p} e ne path) = absurd (ne (omega (arith, get_elem?-range 0 n x p e)))

alone : (n x y : ℕ) → Connected (new n) x y → (x ≡ y) × (x < n)
unfolding new Connected
alone n x y (r, p, q) =
    (sym (own n x r p) ∙ own n y r q, omega (arith, Root-lt_start p, length-range 0 n))

chain_of_linked :
    (n : ℕ) (pairs : List (ℕ × ℕ)) {x y : ℕ} → Linked (new n) pairs x y → Chain n pairs x y
chain_of_linked n pairs (start {x = x} {y = y} c) =
    let (e, low) = alone n x y c in rw (← e) (same low)
chain_of_linked n pairs (link_pair m) = pair m
chain_of_linked n pairs (link_back l) = back (chain_of_linked n pairs l)
chain_of_linked n pairs (link_trans l m) =
    trans (chain_of_linked n pairs l) (chain_of_linked n pairs m)

linked_of_chain :
    (n : ℕ) (pairs : List (ℕ × ℕ)) {x y : ℕ} → Chain n pairs x y → Linked (new n) pairs x y
linked_of_chain n pairs (same {x = x} low) =
    start (Connected-self (new n) x (new-IsValid n) (omega (arith, length-new n)))
linked_of_chain n pairs (pair m) = link_pair m
linked_of_chain n pairs (back l) = link_back (linked_of_chain n pairs l)
linked_of_chain n pairs (trans l m) =
    link_trans (linked_of_chain n pairs l) (linked_of_chain n pairs m)

-- Any sequence of calls of `union` on pairs of indices below n, from the structure of n single
-- indices, ends; in its result, which is valid and has n indices, two indices have a common root exactly if the
-- finest equivalence that relates each pair relates them.
pub union_all-Chain :
    (n : ℕ) (pairs : List (ℕ × ℕ))
    → All (InRange n) pairs
    → (ds : DisjointSet) × (union_all (new n) pairs ≡ some ds)
      × IsValid ds
      × (length ds.parent ≡ n)
      × ((x y : ℕ) → Connected ds x y ↔ Chain n pairs x y)
union_all-Chain n pairs h =
    let (ds, ran, w, size, linked) =
      union_all_lem pairs (new n) (new-IsValid n) (rw (length-new n) h) in
    (
      ds,
      ran,
      w,
      size ∙ length-new n,
      λ x y. (
        λ c. chain_of_linked n pairs ((linked x y).0 c),
        λ l. (linked x y).1 (linked_of_chain n pairs l),
      ),
    )
