-- ===== src/Matcher/DisjointSet/Link.antt =====
-- The last lines of `DisjointSet::union` in crates/vidcull-matcher/src/cluster.rs: one root under
-- another.
use vidcull.Prelude.{
  ℕ, zero, suc, ◌+◌, ◌≤◌, ◌<◌, ◌≡◌, ◌≢◌, refl, sym, ap, ◌∙◌, ◌⊎◌, inl, inr, some, List, [], ◌∷◌,
  ◌==◌, if◌then◌else◌, leb, length, get_elem?, get_or, set, arith, Bool-cases, ==→≡, ==→≢,
  lt-get_elem?, get_elem?-lt, get_elem?-set_self, get_elem?-set_ne, get_or-get_elem?, length-set,
  leb→le, leb→gt,
}
use vidcull.Matcher.DisjointSet.{DisjointSet, link, and_then}
use vidcull.Matcher.DisjointSet.Roots.{
  Root, top, up, IsForest, IsValid, get_elem?-set-cases, two_parents,
}

abbrev moved : ℕ → ℕ → ℕ → ℕ
moved small big r = if r == small then big else r

get_or-set_self : (xs : List ℕ) (i v : ℕ) → i < length xs → get_or (set xs i v) i 0 ≡ v
get_or-set_self [] i v h = absurd (omega arith)
get_or-set_self (x ∷ xs) zero v h = refl
get_or-set_self (x ∷ xs) (suc i) v h = get_or-set_self xs i v (omega arith)

get_or-set_ne : (xs : List ℕ) (i j v : ℕ) → i ≢ j → get_or (set xs i v) j 0 ≡ get_or xs j 0
get_or-set_ne [] i j v h = refl
get_or-set_ne (x ∷ xs) zero zero v h = absurd (h refl)
get_or-set_ne (x ∷ xs) zero (suc j) v h = refl
get_or-set_ne (x ∷ xs) (suc i) zero v h = refl
get_or-set_ne (x ∷ xs) (suc i) (suc j) v h = get_or-set_ne xs i j v (λ e. h (ap suc e))

grows :
    (size : List ℕ) (b v x : ℕ)
    → b < length size
    → get_or size b 0 ≤ v
    → get_or size x 0 ≤ get_or (set size b v) x 0
grows size b v x low h = elim (Bool-cases (b == x)) [
  | inl k ↦ rw (← ==→≡ b x k, get_or-set_self size b v low) h
  | inr k ↦ rw (get_or-set_ne size b x v (==→≢ b x k)) (omega arith)
]

-- The root `small` gets the root `big` for its parent.
link-roots :
    (parent : List ℕ) (big small : ℕ) {y r : ℕ}
    → small < length parent
    → get_elem? parent small ≡ some small
    → get_elem? parent big ≡ some big
    → small ≢ big
    → Root parent y r
    → Root (set parent small big) y (moved small big r)
link-roots parent big small low s b ne (top {r = r} e) = elim (Bool-cases (r == small)) [
  | inl k ↦
      rw (k, ==→≡ r small k)
        (up (get_elem?-set_self parent small big low) (λ t. ne (sym t))
          (top (get_elem?-set_ne parent big ne ∙ b)))
  | inr k ↦ rw k (top (get_elem?-set_ne parent big (λ t. ==→≢ r small k (sym t)) ∙ e))
]
link-roots parent big small low s b ne (up {x = y} {p = p} e n tail) =
    let other : small ≢ y = λ t. n (two_parents (get_elem? parent y) p y e (rw (← t) s)) in
    up (get_elem?-set_ne parent big other ∙ e) n (link-roots parent big small low s b ne tail)

link-IsForest :
    {parent size : List ℕ} (big small : ℕ)
    → IsForest parent size
    → small < length parent
    → big < length parent
    → small ≢ big
    → get_elem? parent big ≡ some big
    → get_or size small 0 ≤ get_or size big 0
    → IsForest (set parent small big) (set size big (get_or size big 0 + get_or size small 0))
link-IsForest {parent = parent} {size = size} big small w low_s low_b ne b order =
    let low : big < length size = omega (arith, w.same_length) in
    let low' : small < length size = omega (arith, w.same_length) in
    let v = get_or size big 0 + get_or size small 0 in
    let up_all : (x : ℕ) → get_or size x 0 ≤ get_or (set size big v) x 0 =
      λ x. grows size big v x low (omega arith) in
    let at_big : get_or (set size big v) big 0 ≡ v = get_or-set_self size big v low in
    record {
      same_length = length-set parent small big ∙ w.same_length ∙ sym (length-set size big v);
      in_range = λ y p e. elim (get_elem?-set-cases parent small big y p e) [
        | inl (at, to) ↦ rw (length-set parent small big, to) low_b
        | inr (other, old) ↦ rw (length-set parent small big) (w.in_range y p old)
      ];
      climbs = λ y p e n. elim (get_elem?-set-cases parent small big y p e) [
        | inl (at, to) ↦
            rw (at, to)
              (omega (
                arith,
                at_big,
                get_or-set_ne size big small v (λ t. ne (sym t)),
                w.positive small low',
              ))
        | inr (other, old) ↦
            let not_big : big ≢ y =
              λ t. n (two_parents (get_elem? parent y) p y old (rw (← t) b)) in
            omega (arith, up_all p, get_or-set_ne size big y v not_big, w.climbs y p old n)
      ];
      positive =
          λ x h. omega (arith, up_all x, w.positive x (omega (arith, h, length-set size big v)));
    }

-- The structure after a call: each index moves to the root `f` of its old root, `f` identifies ra
-- with rb and nothing else.
pub record Joins (ds : DisjointSet) (ra rb : ℕ) (ds' : DisjointSet) : Type 0 where
  pub valid : IsValid ds'
  pub same_length : length ds'.parent ≡ length ds.parent
  pub f : ℕ → ℕ
  pub roots : (y r : ℕ) → Root ds.parent y r → Root ds'.parent y (f r)
  pub together : f ra ≡ f rb
  pub only : (r s : ℕ) → f r ≡ f s → (r ≡ s) ⊎ ((r ≡ ra) × (s ≡ rb)) ⊎ ((r ≡ rb) × (s ≡ ra))

moved_only :
    (small big r s : ℕ)
    → moved small big r ≡ moved small big s
    → (r ≡ s) ⊎ ((r ≡ small) × (s ≡ big)) ⊎ ((r ≡ big) × (s ≡ small))
moved_only small big r s h = ground arith

moved_together : (small big : ℕ) → moved small big small ≡ moved small big big
moved_together small big = ground arith

link_ran :
    (ds : DisjointSet) (big small s t : ℕ)
    → get_elem? ds.size big ≡ some s
    → get_elem? ds.size small ≡ some t
    → link ds big small
      ≡ some (record {
        parent = set ds.parent small big;
        size = set ds.size big (get_or ds.size big 0 + get_or ds.size small 0);
      })
unfolding link
link_ran ds big small s t e f =
    rw (e, f, get_or-get_elem? ds.size big s 0 e, get_or-get_elem? ds.size small t 0 f) refl

link_lem :
    (ds : DisjointSet) (big small s t : ℕ)
    → IsValid ds
    → get_elem? ds.parent big ≡ some big
    → get_elem? ds.parent small ≡ some small
    → small ≢ big
    → get_elem? ds.size big ≡ some s
    → get_elem? ds.size small ≡ some t
    → t ≤ s
    → (ds' : DisjointSet) × (link ds big small ≡ some ds') × Joins ds small big ds'
link_lem ds big small s t w b sm ne e f order =
    let low_b = get_elem?-lt ds.parent big big b in
    let low_s = get_elem?-lt ds.parent small small sm in
    let at_b = get_or-get_elem? ds.size big s 0 e in
    let at_s = get_or-get_elem? ds.size small t 0 f in
    (
      _,
      link_ran ds big small s t e f,
      record {
        valid = link-IsForest big small w low_s low_b ne b (omega (arith, at_b, at_s));
        same_length = length-set ds.parent small big;
        f = moved small big;
        roots = λ y r. link-roots ds.parent big small low_s sm b ne;
        together = moved_together small big;
        only = moved_only small big;
      },
    )

flip_only : {A B C : Type 0} → (A ⊎ B ⊎ C) → (A ⊎ C ⊎ B)
flip_only (inl a) = inl a
flip_only (inr (inl b)) = inr (inr b)
flip_only (inr (inr c)) = inr (inl c)

flip_Joins : {ds ds' : DisjointSet} {ra rb : ℕ} → Joins ds ra rb ds' → Joins ds rb ra ds'
flip_Joins j = record {
  valid = j.valid;
  same_length = j.same_length;
  f = j.f;
  roots = j.roots;
  together = sym j.together;
  only = λ r s h. flip_only (j.only r s h);
}

-- What `union` does with two different roots.
pub by_size :
    (ds : DisjointSet) (ra rb : ℕ)
    → IsValid ds
    → get_elem? ds.parent ra ≡ some ra
    → get_elem? ds.parent rb ≡ some rb
    → ra ≢ rb
    → (ds' : DisjointSet) × (and_then (get_elem? ds.size ra) (λ s.
          and_then (get_elem? ds.size rb) (λ t. if leb t s then link ds ra rb else link ds rb ra))
        ≡ some ds')
      × Joins ds ra rb ds'
by_size ds ra rb w ea eb ne =
    let (s, e) =
      lt-get_elem? ds.size ra (omega (arith, w.same_length, get_elem?-lt ds.parent ra ra ea)) in
    let (t, f) =
      lt-get_elem? ds.size rb (omega (arith, w.same_length, get_elem?-lt ds.parent rb rb eb)) in
    elim (Bool-cases (leb t s)) [
      | inl k ↦
          let (ds', ran, j) = link_lem ds ra rb s t w ea eb (λ q. ne (sym q)) e f (leb→le t s k) in
          (ds', rw (e, f, k) ran, flip_Joins j)
      | inr k ↦
          let (ds', ran, j) = link_lem ds rb ra t s w eb ea ne f e (omega (arith, leb→gt t s k)) in
          (ds', rw (e, f, k) ran, j)
    ]
