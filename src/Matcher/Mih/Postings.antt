-- ===== src/Matcher/Mih/Postings.antt =====
-- What the buckets of `MultiIndexHash` in crates/vidcull-matcher/src/partial/mih.rs hold after `insert`
-- and `remove`, and what `candidates` collects from them.
use mathlib.Core.Path.{subst}
use mathlib.Core.Option.{some-injective}
use native.Mathlib.Nat.{add-zero}
use vidcull.Prelude.{
  ℕ, zero, suc, ◌+◌, ◌≡◌, ◌↔◌, refl, sym, ◌∙◌, ◌⊎◌, inl, inr, true, none, some, List, [], ◌∷◌,
  get_elem?, ltb, ◌==◌, Bool-cases, ==→≡, ltb→lt, Option-cases, ◌∈◌, mem-append_left,
  mem-append_right, mem_of_append, All, arith,
}
use vidcull.Prelude.Sort.{sort_by, mem-sort_by}
use vidcull.Prelude.Maps.{lookup}
use vidcull.Prelude.Maps.Push.{Holds, IsMap}
use vidcull.Matcher.Mih.{
  Posting, Bucket, chunk_value, hamming_ball, at_keys, collect_from, same_posting, posting_before,
  skip_same_posting, dedup_postings,
}

pub lookup-Holds :
    (k : ℕ) (p : Posting) (b : Bucket)
    → IsMap ltb b
    → Holds k p b
    → (l : List Posting) × (lookup k b ≡ some l) × (p ∈ l)
lookup-Holds k p [] w h = absurd h
lookup-Holds k p ((k', l) ∷ b) (s, above, w) (inl (e, m)) =
    let same : (k == k') ≡ true = ground arith in (l, rw same refl, m)
lookup-Holds k p ((k', l) ∷ b) (s, above, w) (inr h) =
    let (l', e, m) = lookup-Holds k p b w h in
    elim (Bool-cases (k == k')) [
      | inl t ↦ absurd (later k p b above (==→≡ k k' t) h)
      | inr t ↦ (l', rw t e, m)
    ]
  where
    later :
        (k : ℕ) (p : Posting) (b : Bucket)
        → All (λ e. ltb k' e.0 ≡ true) b
        → k ≡ k'
        → Holds k p b
        → ⊥
    later k p [] h e m = m
    later k p ((k2, l2) ∷ b) h e (inl (e', m)) = omega (arith, ltb→lt k' k2 h.0)
    later k p ((k2, l2) ∷ b) h e (inr m) = later k p b h.1 e m

Holds-lookup :
    (k : ℕ) (p : Posting) (b : Bucket) (l : List Posting)
    → lookup k b ≡ some l
    → p ∈ l
    → Holds k p b
Holds-lookup k p [] l e m = cc
Holds-lookup k p ((k', l') ∷ b) l e m = elim (Bool-cases (k == k')) [
  | inl t ↦ inl (==→≡ k k' t, subst (λ v. p ∈ v) (sym (some-injective _ _ (rw t at e))) m)
  | inr t ↦ inr (Holds-lookup k p b l (rw t at e) m)
]

-- The postings under one of the keys.
mem-at_keys :
    (p : Posting) (keys : List ℕ) (b : Bucket)
    → IsMap ltb b
    → (p ∈ at_keys keys b) ↔ ((k : ℕ) × (k ∈ keys) × Holds k p b)
unfolding at_keys
mem-at_keys p [] b w = (λ m. absurd m, λ (k, j, h). absurd j)
mem-at_keys p (key ∷ keys) b w =
    let here : List Posting = elim (lookup key b) [ none ↦ [] | some list ↦ list ] in
    let ih = mem-at_keys p keys b w in
    (
      λ m. elim (mem_of_append here (at_keys keys b) p m) [
        | inl i ↦ elim (Option-cases (lookup key b)) [
          | inl e ↦ absurd (rw e at i)
          | inr (l, e) ↦ (key, inl refl, Holds-lookup key p b l e (rw e at i))
        ]
        | inr i ↦ let (k, j, h) = ih.0 i in (k, inr j, h)
      ],
      λ (k, j, h). elim j [
        | inl e ↦
            let (l, found, i) = lookup-Holds key p b w (subst (λ v. Holds v p b) e h) in
            mem-append_left here (at_keys keys b) p (rw found i)
        | inr t ↦ mem-append_right here (at_keys keys b) p (ih.1 (k, t, h))
      ],
    )

-- Every bucket has ascending keys and no empty list.
abbrev pub AreMaps : List Bucket → Type 0
AreMaps buckets = (i : ℕ) (b : Bucket) → get_elem? buckets i ≡ some b → IsMap ltb b

-- The postings that a query collects.
pub mem-collect_from :
    (q w r c : ℕ) (buckets : List Bucket) (p : Posting)
    → AreMaps buckets
    → (p ∈ collect_from q w r c buckets) ↔ (
        (i : ℕ) × (b : Bucket) × (get_elem? buckets i ≡ some b)
        × (k : ℕ) × (k ∈ hamming_ball (chunk_value q (c + i) w) w r)
        × Holds k p b)
unfolding collect_from
mem-collect_from q w r c [] p maps = (λ m. absurd m, λ (i, b, e, k, j, h). cc)
mem-collect_from q w r c (bucket ∷ buckets) p maps =
    let ball = hamming_ball (chunk_value q c w) w r in
    let rest = collect_from q w r (c + 1) buckets in
    let first = mem-at_keys p ball bucket (maps 0 bucket refl) in
    let ih = mem-collect_from q w r (c + 1) buckets p (λ i b e. maps (suc i) b e) in
    let start : c + 0 ≡ c = add-zero c in
    (
      λ m. elim (mem_of_append (at_keys ball bucket) rest p m) [
        | inl i ↦
            let (k, j, h) = first.0 i in
            (
              0,
              bucket,
              refl,
              k,
              subst (λ v. k ∈ hamming_ball (chunk_value q v w) w r) (sym start) j,
              h,
            )
        | inr i ↦
            let (n, b, e, k, j, h) = ih.0 i in
            let next : c + 1 + n ≡ c + suc n = omega arith in
            (suc n, b, e, k, subst (λ v. k ∈ hamming_ball (chunk_value q v w) w r) next j, h)
      ],
      λ (n, b, e, k, j, h). at_index n b e k j h (λ n e j. ih.1 (n, b, e, k, j, h)),
    )
  where
    at_index :
        (n : ℕ) (b : Bucket)
        → get_elem? (bucket ∷ buckets) n ≡ some b
        → (k : ℕ) → k ∈ hamming_ball (chunk_value q (c + n) w) w r
        → Holds k p b
        → ((n : ℕ)
            → get_elem? buckets n ≡ some b
            → k ∈ hamming_ball (chunk_value q (c + 1 + n) w) w r
            → p ∈ collect_from q w r (c + 1) buckets)
        → p ∈ collect_from q w r c (bucket ∷ buckets)
    at_index zero b e k j h later =
        let start : c + 0 ≡ c = add-zero c in
        let same : b ≡ bucket = sym (some-injective _ _ e) in
        mem-append_left (at_keys (hamming_ball (chunk_value q c w) w r) bucket)
          (collect_from q w r (c + 1) buckets) p
          ((mem-at_keys p (hamming_ball (chunk_value q c w) w r) bucket (maps 0 bucket refl)).1 (
            k,
            subst (λ v. k ∈ hamming_ball (chunk_value q v w) w r) start j,
            subst (λ v. Holds k p v) same h,
          ))
    at_index (suc n) b e k j h later =
        let next : c + suc n ≡ c + 1 + n = omega arith in
        mem-append_right (at_keys (hamming_ball (chunk_value q c w) w r) bucket)
          (collect_from q w r (c + 1) buckets) p
          (later n e (subst (λ v. k ∈ hamming_ball (chunk_value q v w) w r) next j))

same_posting-eq : (a b : Posting) → same_posting a b ≡ true → a ≡ b
same_posting-eq a b h = ground arith

skip_same_posting-mem :
    (x y : Posting) (ys : List Posting) → y ∈ ys → (y ≡ x) ⊎ (y ∈ skip_same_posting x ys)
unfolding skip_same_posting
skip_same_posting-mem x y [] m = absurd m
skip_same_posting-mem x y (z ∷ ys) m = elim (Bool-cases (same_posting x z)) [
  | inl e ↦
      let back : y ≡ z → y ≡ x = λ h. h ∙ sym (same_posting-eq x z e) in
      rw e (elim m [
        | inl h ↦ inl (back h)
        | inr t ↦ elim (skip_same_posting-mem z y ys t) [ inl h ↦ inl (back h) | inr k ↦ inr k ]
      ])
  | inr e ↦ rw e (elim m [
    | inl h ↦ inr (inl h)
    | inr t ↦ elim (skip_same_posting-mem z y ys t) [ inl h ↦ inr (inl h) | inr k ↦ inr (inr k) ]
  ])
]

mem_of_skip_same_posting : (x y : Posting) (ys : List Posting) → y ∈ skip_same_posting x ys → y ∈ ys
unfolding skip_same_posting
mem_of_skip_same_posting x y [] m = m
mem_of_skip_same_posting x y (z ∷ ys) m = elim (Bool-cases (same_posting x z)) [
  | inl e ↦ inr (mem_of_skip_same_posting z y ys (rw e at m))
  | inr e ↦
      let m' : (y ≡ z) ⊎ (y ∈ skip_same_posting z ys) = rw e at m in
      elim m' [ inl h ↦ inl h | inr t ↦ inr (mem_of_skip_same_posting z y ys t) ]
]

mem-dedup_postings : (p : Posting) (l : List Posting) → (p ∈ dedup_postings l) ↔ (p ∈ l)
unfolding dedup_postings
mem-dedup_postings p [] = (λ m. m, λ m. m)
mem-dedup_postings p (x ∷ l) = (
  λ m. elim m [ inl e ↦ inl e | inr t ↦ inr (mem_of_skip_same_posting x p l t) ],
  λ m. elim m [ inl e ↦ inl e | inr t ↦ skip_same_posting-mem x p l t ],
)

-- Sorting and removing repetitions keep the postings.
pub mem-sorted :
    (p : Posting) (l : List Posting) → (p ∈ dedup_postings (sort_by posting_before l)) ↔ (p ∈ l)
mem-sorted p l = (
  λ m. (mem-sort_by posting_before p l).0 ((mem-dedup_postings p (sort_by posting_before l)).0 m),
  λ m. (mem-dedup_postings p (sort_by posting_before l)).1 ((mem-sort_by posting_before p l).1 m),
)
