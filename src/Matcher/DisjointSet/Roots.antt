-- ===== src/Matcher/DisjointSet/Roots.antt =====
-- Trees of parents in `DisjointSet` of crates/vidcull-matcher/src/cluster.rs: the root of an index,
-- the invariant of the structure, and an index that gets a new parent.
use vidcull.Prelude.{
  ℕ, zero, suc, ◌≤◌, ◌<◌, ◌≡◌, ◌≢◌, refl, sym, ap, ◌∙◌, ◌⊎◌, inl, inr, Option, some, List, [], ◌∷◌,
  ◌==◌, length, get_elem?, get_or, set, arith, Bool-cases, ==→≡, ==→≢, get_elem?-set_self,
  get_elem?-set_ne, get_elem?-lt, length-set,
}
use mathlib.Core.Option.{some-injective}
use vidcull.Matcher.DisjointSet.{DisjointSet, total}

-- `Root parent x r`: the path of parents from x ends at r.
pub data Root (parent : List ℕ) : ℕ → ℕ → Type 0 where
  top : {r : ℕ} → get_elem? parent r ≡ some r → Root parent r r
  up : {x p r : ℕ} → get_elem? parent x ≡ some p → p ≢ x → Root parent p r → Root parent x r

pub record IsForest (parent size : List ℕ) : Type 0 where
  pub same_length : length parent ≡ length size
  pub in_range : (x p : ℕ) → get_elem? parent x ≡ some p → p < length parent
  pub climbs : (x p : ℕ) → get_elem? parent x ≡ some p → p ≢ x → get_or size x 0 < get_or size p 0
  pub positive : (x : ℕ) → x < length size → 0 < get_or size x 0

abbrev pub IsValid : DisjointSet → Type 0
IsValid ds = IsForest ds.parent ds.size

pub get_or-total : (size : List ℕ) (x : ℕ) → get_or size x 0 ≤ total size
unfolding total
get_or-total [] x = omega arith
get_or-total (s ∷ size) zero = omega arith
get_or-total (s ∷ size) (suc x) = omega (arith, get_or-total size x)

pub Root-end : {parent : List ℕ} {x r : ℕ} → Root parent x r → get_elem? parent r ≡ some r
Root-end (top e) = e
Root-end (up e n path) = Root-end path

pub two_parents : (o : Option ℕ) (p q : ℕ) → o ≡ some p → o ≡ some q → p ≡ q
two_parents o p q e f = some-injective _ _ (sym e ∙ f)

-- A root's path is empty.
pub Root-of_end :
    {parent : List ℕ} {x r : ℕ} → Root parent x r → get_elem? parent x ≡ some x → r ≡ x
Root-of_end (top e) f = refl
Root-of_end (up e n path) f = absurd (n (two_parents _ _ _ e f))

pub Root-unique : {parent : List ℕ} {x r s : ℕ} → Root parent x r → Root parent x s → r ≡ s
Root-unique (top e) q = sym (Root-of_end q e)
Root-unique (up e n path) (top f) = absurd (n (two_parents _ _ _ e f))
Root-unique {parent = parent} {s = s} (up e n path) (up f m path') =
    Root-unique path (rw (two_parents _ _ _ e f) path')

pub Root-lt : {parent : List ℕ} {x r : ℕ} → Root parent x r → r < length parent
Root-lt {parent = parent} {r = r} path = get_elem?-lt parent r r (Root-end path)

pub Root-lt_start : {parent : List ℕ} {x r : ℕ} → Root parent x r → x < length parent
Root-lt_start {parent = parent} (top {r = r} e) = get_elem?-lt parent r r e
Root-lt_start {parent = parent} (up {x = x} {p = p} e n path) = get_elem?-lt parent x p e

pub Root-size :
    {parent size : List ℕ} {x r : ℕ}
    → IsForest parent size
    → Root parent x r
    → get_or size x 0 ≤ get_or size r 0
Root-size w (top e) = omega arith
Root-size {size = size} {r = r} w (up {x = x} {p = p} e n path) =
    omega (arith, w.climbs x p e n, Root-size w path)

-- An index below its root is in a smaller set.
pub Root-size_lt :
    {parent size : List ℕ} {x r : ℕ}
    → IsForest parent size
    → Root parent x r
    → x ≢ r
    → get_or size x 0 < get_or size r 0
Root-size_lt w (top e) ne = absurd (ne refl)
Root-size_lt {size = size} {r = r} w (up {x = x} {p = p} e n path) ne =
    omega (arith, w.climbs x p e n, Root-size w path)

-- A read after a write is of what was written or of another index.
pub get_elem?-set-cases :
    (xs : List ℕ) (i v j p : ℕ)
    → get_elem? (set xs i v) j ≡ some p
    → ((j ≡ i) × (p ≡ v)) ⊎ ((j ≢ i) × (get_elem? xs j ≡ some p))
get_elem?-set-cases xs i v j p h = elim (Bool-cases (i == j)) [
  | inl e ↦
      let same : i ≡ j = ==→≡ i j e in
      let low : i < length xs =
        omega (arith, same, get_elem?-lt (set xs i v) j p h, length-set xs i v) in
      inl (
        sym same,
        some-injective _ _
            (sym h ∙ ap (get_elem? (set xs i v)) (sym same) ∙ get_elem?-set_self xs i v low),
      )
  | inr e ↦
      let other = ==→≢ i j e in inr ((λ k. other (sym k)), sym (get_elem?-set_ne xs v other) ∙ h)
]

-- `x` gets a new parent `r`, a root other than x: a root's paths stay, and paths through x lead to r.
pub reparent :
    (parent : List ℕ) (x r : ℕ)
    → x < length parent
    → get_elem? parent r ≡ some r
    → x ≢ r
    → Root (set parent x r) x r
reparent parent x r low root ne =
    up (get_elem?-set_self parent x r low) (λ e. ne (sym e))
      (top (get_elem?-set_ne parent r ne ∙ root))

pub relink :
    {parent : List ℕ} {x r y s : ℕ}
    → Root parent x r
    → x ≢ r
    → Root parent y s
    → Root (set parent x r) y s
relink {parent = parent} {x = x} {r = r} path ne (top {r = s} e) = elim (Bool-cases (x == s)) [
  | inl k ↦ absurd (ne (sym (Root-of_end path (rw (==→≡ x s k) e))))
  | inr k ↦ top (get_elem?-set_ne parent r (==→≢ x s k) ∙ e)
]
relink {parent = parent} {x = x} {r = r} path ne (up {x = y} {p = p} {r = s} e n tail) =
    elim (Bool-cases (x == y)) [
      | inl k ↦
          let same : x ≡ y = ==→≡ x y k in
          let low = get_elem?-lt parent x p (rw same e) in
          let end : r ≡ s = Root-unique path (rw same (up e n tail)) in
          let new : Root (set parent x r) x r = reparent parent x r low (Root-end path) ne in
          rw (← same, ← end) new
      | inr k ↦ up (get_elem?-set_ne parent r (==→≢ x y k) ∙ e) n (relink path ne tail)
    ]

-- The forest stays one when x gets a root of a larger set for its parent.
pub reparent-IsForest :
    {parent size : List ℕ} (x r : ℕ)
    → IsForest parent size
    → r < length parent
    → get_or size x 0 < get_or size r 0
    → IsForest (set parent x r) size
reparent-IsForest {parent = parent} {size = size} x r w low larger = record {
  same_length = length-set parent x r ∙ w.same_length;
  in_range = λ y p e. elim (get_elem?-set-cases parent x r y p e) [
    | inl (at, to) ↦ rw (length-set parent x r, to) low
    | inr (ne, old) ↦ rw (length-set parent x r) (w.in_range y p old)
  ];
  climbs = λ y p e n. elim (get_elem?-set-cases parent x r y p e) [
    | inl (at, to) ↦ rw (at, to) larger
    | inr (ne, old) ↦ w.climbs y p old n
  ];
  positive = w.positive;
}
