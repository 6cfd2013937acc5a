-- ===== src/Matcher/DisjointSet/Find.antt =====
-- `DisjointSet::find` of crates/vidcull-matcher/src/cluster.rs and the roots.
use vidcull.Prelude.{
  ℕ, zero, suc, ◌+◌, ◌<◌, ◌≡◌, ◌≢◌, refl, sym, ap, ◌∙◌, inl, inr, some, List, ◌==◌, length,
  get_elem?, get_or, arith, Bool-cases, ==→≡, ==→≢, ==_refl, lt-get_elem?, length-set,
}
use vidcull.Matcher.DisjointSet.{DisjointSet, total, find_root, compress, find}
use vidcull.Matcher.DisjointSet.Roots.{
  Root, top, up, IsForest, IsValid, get_or-total, Root-end, Root-size_lt, relink, reparent-IsForest,
  Root-lt, two_parents,
}

find_root_lem :
    (fuel : ℕ) {parent size : List ℕ} (x : ℕ)
    → IsForest parent size
    → x < length parent
    → total size < fuel + get_or size x 0
    → (r : ℕ) × (find_root fuel parent x ≡ some r) × Root parent x r
unfolding find_root
find_root_lem zero {size = size} x w low enough = absurd (omega (arith, get_or-total size x))
find_root_lem (suc fuel) {parent = parent} {size = size} x w low enough =
    let (p, e) = lt-get_elem? parent x low in
    elim (Bool-cases (p == x)) [
      | inl k ↦
          let here : get_elem? parent x ≡ some x = e ∙ ap some (==→≡ p x k) in
          (x, rw (e, k, find_root) refl, top here)
      | inr k ↦
          let ne = ==→≢ p x k in
          let (r, found, path) =
            find_root_lem fuel p w (w.in_range x p e) (omega (arith, w.climbs x p e ne)) in
          (r, rw (e, k, find_root) found, up e ne path)
    ]

-- What the compression of a path leaves: a forest with the same roots.
record Compressed (parent size : List ℕ) (out : List ℕ) : Type 0 where
  forest : IsForest out size
  same_length : length out ≡ length parent
  roots : (y s : ℕ) → Root parent y s → Root out y s

compress_lem :
    (fuel : ℕ) {parent size : List ℕ} (root cur : ℕ)
    → IsForest parent size
    → Root parent cur root
    → total size < fuel + get_or size cur 0
    → (out : List ℕ) × (compress fuel parent root cur ≡ some out) × Compressed parent size out
unfolding compress
compress_lem zero {size = size} root cur w path enough =
    absurd (omega (arith, get_or-total size cur))
compress_lem (suc fuel) {parent = parent} {size = size} root cur w (top e) enough = (
  parent,
  rw (e, ==_refl root, compress) refl,
  record { forest = w; same_length = refl; roots = λ y s q. q },
)
compress_lem (suc fuel) {parent = parent} {size = size} root cur w (up {p = next} e n tail) enough =
    elim (Bool-cases (next == root)) [
      | inl k ↦ (
        parent,
        rw (e, k, compress) refl,
        record { forest = w; same_length = refl; roots = λ y s q. q },
      )
      | inr k ↦
          let ne : cur ≢ root = λ same. n (
            two_parents (get_elem? parent cur) next root e
              (ap (get_elem? parent) same ∙ Root-end tail)
            ∙ sym same) in
          let larger = Root-size_lt w (up e n tail) ne in
          let w' = reparent-IsForest cur root w (Root-lt tail) larger in
          let tail' = relink (up e n tail) ne tail in
          let (out, ran, c) =
            compress_lem fuel root next w' tail' (omega (arith, w.climbs cur next e n)) in
          (
            out,
            rw (e, k, compress) ran,
            record {
              forest = c.forest;
              same_length = c.same_length ∙ length-set parent cur root;
              roots = λ y s q. c.roots y s (relink (up e n tail) ne q);
            },
          )
    ]

find_ran :
    (ds : DisjointSet) (x r : ℕ) (out : List ℕ)
    → find_root (suc (total ds.size)) ds.parent x ≡ some r
    → compress (suc (total ds.size)) ds.parent r x ≡ some out
    → find ds x ≡ some (r, record ds { parent = out })
unfolding find
find_ran ds x r out e f = rw (e, f) refl

-- What a call of `find` gives: the root, and a valid structure with the same trees.
pub record Found (ds : DisjointSet) (x r : ℕ) (ds' : DisjointSet) : Type 0 where
  pub ran : find ds x ≡ some (r, ds')
  pub is_root : Root ds.parent x r
  pub valid : IsValid ds'
  pub same_length : length ds'.parent ≡ length ds.parent
  pub roots : (y s : ℕ) → Root ds.parent y s → Root ds'.parent y s

-- On an index in range of a valid structure, `find` ends and returns the root of its tree; the
-- structure after it is valid and no index has another root.
pub find_lem :
    (ds : DisjointSet) (x : ℕ)
    → IsValid ds
    → x < length ds.parent
    → (r : ℕ) × (ds' : DisjointSet) × Found ds x r ds'
find_lem ds x w low =
    let (r, found, path) = find_root_lem (suc (total ds.size)) x w low (omega arith) in
    let (out, ran, c) = compress_lem (suc (total ds.size)) r x w path (omega arith) in
    (
      r,
      record ds { parent = out },
      record {
        ran = find_ran ds x r out found ran;
        is_root = path;
        valid = c.forest;
        same_length = c.same_length;
        roots = c.roots;
      },
    )

pub Root-exists :
    (parent size : List ℕ) (x : ℕ)
    → IsForest parent size
    → x < length parent
    → (r : ℕ) × Root parent x r
Root-exists parent size x w low =
    let (r, ran, path) = find_root_lem (suc (total size)) x w low (omega arith) in (r, path)
