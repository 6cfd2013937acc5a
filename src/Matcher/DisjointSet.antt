-- ===== src/Matcher/DisjointSet.antt =====
-- `DisjointSet` of crates/vidcull-matcher/src/cluster.rs. An index out of range, which panics, gives
-- `none`, as does a loop that runs out of fuel.
pub mod Roots
pub mod Find
pub mod Link
pub mod Union
pub mod Closure
use package.vidcull.Prelude.{
  ℕ, zero, suc, ◌+◌, Bool, true, false, Option, none, some, List, [], ◌∷◌, leb, ◌==◌, if◌then◌else◌,
  get_elem?, set, replicate,
}

pub record DisjointSet : Type 0 where
  pub parent : List ℕ
  pub size : List ℕ

-- `(first..first + n).collect()`.
unfoldable pub range : ℕ → ℕ → List ℕ
range first zero = []
range first (suc n) = first ∷ range (first + 1) n

unfoldable pub new : ℕ → DisjointSet
unfolding range
new n = record { parent = range 0 n; size = replicate n 1 }

-- Every step up a tree goes to a larger set, so that no path is longer than the sizes' sum.
unfoldable pub total : List ℕ → ℕ
total [] = 0
total (x ∷ xs) = x + total xs

-- `while self.parent[root] != root { root = self.parent[root]; }`.
unfoldable pub find_root : ℕ → List ℕ → ℕ → Option ℕ
find_root zero parent x = none
find_root (suc fuel) parent x = elim (get_elem? parent x) [
  | none ↦ none
  | some p ↦ elim (p == x) [ true ↦ some x | false ↦ find_root fuel parent p ]
]

-- `while self.parent[cur] != root { … }`.
unfoldable pub compress : ℕ → List ℕ → ℕ → ℕ → Option (List ℕ)
compress zero parent root cur = none
compress (suc fuel) parent root cur = elim (get_elem? parent cur) [
  | none ↦ none
  | some next ↦ elim (next == root) [
    | true ↦ some parent
    | false ↦ compress fuel (set parent cur root) root next
  ]
]

abbrev pub and_then : {A B : Type 0} → Option A → (A → Option B) → Option B
and_then none f = none
and_then (some a) f = f a

unfoldable pub find : DisjointSet → ℕ → Option (ℕ × DisjointSet)
unfolding find_root compress total
find ds x =
    let fuel = suc (total ds.size) in
    and_then (find_root fuel ds.parent x) λ root.
      and_then (compress fuel ds.parent root x) λ parent. some (root, record ds { parent = parent })

-- The smaller tree goes under the root of the larger one.
unfoldable pub link : DisjointSet → ℕ → ℕ → Option DisjointSet
link ds big small = and_then (get_elem? ds.size big) λ s.
    and_then (get_elem? ds.size small)
      λ t. some (record { parent = set ds.parent small big; size = set ds.size big (s + t) })

unfoldable pub union : DisjointSet → ℕ → ℕ → Option DisjointSet
union ds a b = and_then (find ds a) λ (ra, ds1). and_then (find ds1 b) λ (rb, ds2).
    if ra == rb
    then some ds2
    else and_then (get_elem? ds2.size ra) λ s.
      and_then (get_elem? ds2.size rb) λ t. if leb t s then link ds2 ra rb else link ds2 rb ra

-- The calls that `merge_transitive` makes, one after another.
unfoldable pub union_all : DisjointSet → List (ℕ × ℕ) → Option DisjointSet
union_all ds [] = some ds
union_all ds ((a, b) ∷ pairs) = and_then (union ds a b) λ ds'. union_all ds' pairs
