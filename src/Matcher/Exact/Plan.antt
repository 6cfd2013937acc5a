-- ===== src/Matcher/Exact/Plan.antt =====
-- The groups of `plan_exact_groups` in crates/vidcull-matcher/src/exact.rs against the list of hashes.
use vidcull.Prelude.{
  ℕ, ◌≤◌, ◌≡◌, ◌≢◌, ◌↔◌, refl, sym, ap, ◌∙◌, ◌⊎◌, inl, inr, Bool, List, [], ◌∷◌, ◌∈◌, length, ltb,
  ◌==◌, Bool-cases, ltb→lt, ltb→ge, ==→≡, arith,
}
use mathlib.Core.Path.{subst}
use vidcull.Prelude.Sort.{sort_by, mem-sort_by}
use vidcull.Prelude.Maps.{push, dedup, skip_same, lex_before}
use vidcull.Prelude.Maps.Push.{
  lex_before-IsStrict, Holds, Holds-entry, entry-Holds, IsMap, IsMap-unique, push-Holds_keep,
  push-Holds_self, push-Holds_of, push-IsMap,
}
use vidcull.Core.{FileId}
use vidcull.Matcher.Exact.{
  Hash, ExactGroup, by_hash, shared_hashes, first_member, plan_exact_groups,
}

skip_same-mem : (x y : ℕ) (ys : List ℕ) → y ∈ ys → (y ≡ x) ⊎ (y ∈ skip_same x ys)
skip_same-mem x y [] m = absurd m
skip_same-mem x y (z ∷ ys) m = elim (Bool-cases (x == z)) [
  | inl e ↦ rw e (elim m [
    | inl h ↦ inl (h ∙ sym (==→≡ x z e))
    | inr t ↦ elim (skip_same-mem z y ys t) [ inl h ↦ inl (h ∙ sym (==→≡ x z e)) | inr k ↦ inr k ]
  ])
  | inr e ↦ rw e (elim m [
    | inl h ↦ inr (inl h)
    | inr t ↦ elim (skip_same-mem z y ys t) [ inl h ↦ inr (inl h) | inr k ↦ inr (inr k) ]
  ])
]

mem_of_skip_same : (x y : ℕ) (ys : List ℕ) → y ∈ skip_same x ys → y ∈ ys
mem_of_skip_same x y [] m = m
mem_of_skip_same x y (z ∷ ys) m = elim (Bool-cases (x == z)) [
  | inl e ↦ inr (mem_of_skip_same z y ys (rw e at m))
  | inr e ↦
      let m' : (y ≡ z) ⊎ (y ∈ skip_same z ys) = rw e at m in
      elim m' [ inl h ↦ inl h | inr t ↦ inr (mem_of_skip_same z y ys t) ]
]

pub mem-dedup : (y : ℕ) (xs : List ℕ) → (y ∈ dedup xs) ↔ (y ∈ xs)
mem-dedup y [] = (λ m. m, λ m. m)
mem-dedup y (x ∷ xs) = (
  λ m. elim m [ inl e ↦ inl e | inr t ↦ inr (mem_of_skip_same x y xs t) ],
  λ m. elim m [ inl e ↦ inl e | inr t ↦ skip_same-mem x y xs t ],
)

by_hash-IsMap :
    (hashed : List (FileId × Hash)) (map : List (Hash × List FileId))
    → IsMap lex_before map
    → IsMap lex_before (by_hash hashed map)
unfolding by_hash
by_hash-IsMap [] map w = w
by_hash-IsMap ((f, h) ∷ hashed) map w =
    by_hash-IsMap hashed (push lex_before h f map)
      (push-IsMap lex_before lex_before-IsStrict h f map w)

-- The map lists each file under its hash, and nothing else.
by_hash-Holds :
    (h : Hash) (f : FileId) (hashed : List (FileId × Hash)) (map : List (Hash × List FileId))
    → Holds h f (by_hash hashed map) ↔ (Holds h f map ⊎ ((f, h) ∈ hashed))
unfolding by_hash
by_hash-Holds h f [] map = (λ q. inl q, λ q. elim q [ inl k ↦ k | inr t ↦ absurd t ])
by_hash-Holds h f ((g, k) ∷ hashed) map =
    let next = by_hash-Holds h f hashed (push lex_before k g map) in
    (
      λ q. elim (next.0 q) [
        | inr t ↦ inr (inr t)
        | inl t ↦ elim (push-Holds_of lex_before lex_before-IsStrict h f k g map t) [
          | inl e ↦ inr (inl (ap (λ v. (v, h)) e.1 ∙ ap (λ v. (g, v)) e.0))
          | inr old ↦ inl old
        ]
      ],
      λ q. elim q [
        | inl old ↦ next.1 (inl (push-Holds_keep lex_before lex_before-IsStrict h f k g map old))
        | inr (inl e) ↦ next.1 (
            inl (
              subst (λ p. Holds p.1 p.0 (push lex_before k g map)) (sym e)
                (push-Holds_self lex_before lex_before-IsStrict k g map)))
        | inr (inr t) ↦ next.1 (inr t)
      ],
    )

two_members : (f g : ℕ) (l : List ℕ) → f ∈ l → g ∈ l → f ≢ g → 2 ≤ length l
two_members f g [] m n ne = absurd m
two_members f g (x ∷ []) (inl e) (inl e') ne = absurd (ne (e ∙ sym e'))
two_members f g (x ∷ []) (inr m) n ne = absurd m
two_members f g (x ∷ []) (inl e) (inr n) ne = absurd n
two_members f g (x ∷ y ∷ l) m n ne = omega arith

abbrev ids_of : List FileId → List FileId
ids_of members = dedup (sort_by ltb members)

mem-ids_of : (f : FileId) (members : List FileId) → (f ∈ ids_of members) ↔ (f ∈ members)
mem-ids_of f members = (
  λ m. (mem-sort_by ltb f members).0 ((mem-dedup f (sort_by ltb members)).0 m),
  λ m. (mem-dedup f (sort_by ltb members)).1 ((mem-sort_by ltb f members).1 m),
)

mem_of_shared_hashes :
    (g : ExactGroup) (map : List (Hash × List FileId))
    → g ∈ shared_hashes map
    → (members : List FileId) × ((g.hash, members) ∈ map)
      × (g.members ≡ ids_of members)
      × (2 ≤ length g.members)
unfolding shared_hashes
mem_of_shared_hashes g [] m = absurd m
mem_of_shared_hashes g ((h, members) ∷ map) m =
    elim (Bool-cases (ltb (length (ids_of members)) 2)) [
      | inl e ↦ let (l, i, q, n) = mem_of_shared_hashes g map (rw e at m) in (l, inr i, q, n)
      | inr e ↦
          let m' : (g ≡ record { hash = h; members = ids_of members }) ⊎ (g ∈ shared_hashes map) =
            rw e at m in
          elim m' [
            | inl k ↦
                let same = ap (λ v. v.members) k in
                (
                  members,
                  inl (ap (λ v. (v.hash, members)) k),
                  same,
                  omega (arith, ap length same, ltb→ge (length (ids_of members)) 2 e),
                )
            | inr t ↦ let (l, i, q, n) = mem_of_shared_hashes g map t in (l, inr i, q, n)
          ]
    ]

mem-shared_hashes :
    (h : Hash) (members : List FileId) (map : List (Hash × List FileId))
    → (h, members) ∈ map
    → 2 ≤ length (ids_of members)
    → (g : ExactGroup) × (g ∈ shared_hashes map) × (g.hash ≡ h)
unfolding shared_hashes
mem-shared_hashes h members [] m n = absurd m
mem-shared_hashes h members ((k, l) ∷ map) m n = elim (Bool-cases (ltb (length (ids_of l)) 2)) [
  | inl e ↦ elim m [
    | inl q ↦
        let same : l ≡ members = sym (ap (λ p. p.1) q) in
        absurd (omega (arith, ltb→lt (length (ids_of l)) 2 e, n, ap (λ v. length (ids_of v)) same))
    | inr t ↦ rw e (mem-shared_hashes h members map t n)
  ]
  | inr e ↦ elim m [
    | inl q ↦ rw e (record { hash = k; members = ids_of l }, inl refl, sym (ap (λ p. p.0) q))
    | inr t ↦ let (g, i, q) = mem-shared_hashes h members map t n in rw e (g, inr i, q)
  ]
]

abbrev before : ExactGroup → ExactGroup → Bool
before a b = ltb (first_member a) (first_member b)

pub plan-ids :
    (hashed : List (FileId × Hash)) (g : ExactGroup)
    → g ∈ plan_exact_groups hashed
    → (members : List FileId) × (g.members ≡ dedup (sort_by ltb members))
unfolding plan_exact_groups
plan-ids hashed g m =
    let map = by_hash hashed [] in
    let (l, i, q, n) =
      mem_of_shared_hashes g map ((mem-sort_by before g (shared_hashes map)).0 m) in
    (l, q)

-- Every planned group has at least two members, which are exactly the files that are listed with
-- its hash; and two different files that are listed with one hash have a group of that hash.
pub plan_exact_groups_lem :
    (hashed : List (FileId × Hash))
    → ((g : ExactGroup)
        → g ∈ plan_exact_groups hashed
        → (2 ≤ length g.members) × ((f : FileId) → (f ∈ g.members) ↔ ((f, g.hash) ∈ hashed)))
      × ((f f' : FileId) (h : Hash)
          → f ≢ f'
          → (f, h) ∈ hashed
          → (f', h) ∈ hashed
          → (g : ExactGroup) × (g ∈ plan_exact_groups hashed) × (g.hash ≡ h))
unfolding plan_exact_groups
plan_exact_groups_lem hashed =
    let map = by_hash hashed [] in
    let w = by_hash-IsMap hashed [] tt in
    (
      λ g k.
          let (l, i, q, n) =
            mem_of_shared_hashes g map ((mem-sort_by before g (shared_hashes map)).0 k) in
          (
            n,
            λ f. (
              λ m.
                  of_nothing (by_hash-Holds g.hash f hashed []).0
                    (entry-Holds g.hash f l map i ((mem-ids_of f l).0 (subst (λ v. f ∈ v) q m))),
              λ m.
                  subst (λ v. f ∈ v) (sym q)
                    ((mem-ids_of f l).1 (
                      IsMap-unique lex_before lex_before-IsStrict g.hash f l map w i
                        ((by_hash-Holds g.hash f hashed []).1 (inr m)))),
            ),
          ),
      λ f f' h ne m m'.
          let (l, i, j) = Holds-entry h f map ((by_hash-Holds h f hashed []).1 (inr m)) in
          let j' =
            IsMap-unique lex_before lex_before-IsStrict h f' l map w i
              ((by_hash-Holds h f' hashed []).1 (inr m')) in
          let n = two_members f f' (ids_of l) ((mem-ids_of f l).1 j) ((mem-ids_of f' l).1 j') ne in
          let (g, k, q) = mem-shared_hashes h l map i n in
          (g, (mem-sort_by before g (shared_hashes map)).1 k, q),
    )
  where
    of_nothing : {A B : Type 0} → (A → ⊥ ⊎ B) → A → B
    of_nothing f a = elim (f a) [ inl t ↦ absurd t | inr t ↦ t ]
