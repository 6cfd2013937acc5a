-- ===== src/Matcher/Mih/Keys.antt =====
-- `post_keys` and `query_keys` of crates/vidcull-matcher/src/partial/mih.rs, the keys that stand for the
-- index in the database, against `candidates`.
use mathlib.Core.Path.{subst}
use mathlib.Core.Option.{some-injective}
use native.Mathlib.Nat.{zero-add}
use vidcull.Prelude.{
  ℕ, zero, suc, ◌+◌, ◌/◌, ◌≤◌, ◌<◌, ◌≡◌, ◌≢◌, ◌↔◌, refl, sym, ap, ◌∙◌, ◌⊎◌, inl, inr, true, some,
  List, [], ◌∷◌, map, length, get_elem?, lt-get_elem?, get_elem?-lt, ltb, ◌==◌, Bool-cases, ==→≡,
  ==→≢, ≢→==, ◌∈◌, arith,
}
use vidcull.Prelude.Maps.{push}
use vidcull.Prelude.Maps.Push.{Holds, ltb-IsStrict, push-Holds_keep, push-Holds_self, push-Holds_of}
use vidcull.Matcher.DisjointSet.{range}
use vidcull.Matcher.Mih.{
  Posting, Bucket, MultiIndexHash, chunk_value, collect_from, hamming_ball, normalize_chunks,
  no_buckets, new, insert, insert_from, post_keys, query_keys, candidates,
}
use vidcull.Matcher.Mih.Postings.{mem-collect_from, mem-sorted}
use vidcull.Matcher.Mih.Changes.{get_elem?-insert_from, length-insert_from}
use vidcull.Matcher.Mih.Index.{
  Change, post, apply, run, IsIndex, run-IsIndex, radius_of, new-IsIndex,
}

-- The insertions of a list of hashes with their postings.
abbrev pub posts : List (ℕ × Posting) → List Change
posts [] = []
posts ((h, p) ∷ entries) = post h p ∷ posts entries

-- The bucket of the chunk i has the posting under the key.
abbrev Held : ℕ → ℕ → Posting → MultiIndexHash → Type 0
Held i k p mih = (b : Bucket) × (get_elem? mih.buckets i ≡ some b) × Holds k p b

-- The entry (h, p) stands behind a posting in the bucket of the chunk i.
record IsFrom (i k w : ℕ) (p : Posting) (h : ℕ) (x : Posting) : Type 0 where
  some_hash : h ≢ 0
  key : k ≡ chunk_value h i w
  same : p ≡ x

apply-Held :
    (i k h : ℕ) (p x : Posting) (mih : MultiIndexHash)
    → i < length mih.buckets
    → Held i k p (apply (post h x) mih) ↔ (Held i k p mih ⊎ IsFrom i k mih.chunk_bits p h x)
unfolding apply insert
apply-Held i k h p x mih lt = elim (Bool-cases (h == 0)) [
  | inl e ↦ rw e (
    λ q. inl q,
    λ q. elim q [ inl held ↦ held | inr from ↦ absurd (from.some_hash (==→≡ h 0 e)) ],
  )
  | inr e ↦ rw e (
    λ (b', at, held).
        let (b, old, same) = get_elem?-insert_from h x mih.chunk_bits 0 i mih.buckets b' at in
        let held' : Holds k p (push ltb (chunk_value h (0 + i) mih.chunk_bits) x b) =
          subst (λ v. Holds k p v) same held in
        elim (push-Holds_of ltb ltb-IsStrict k p (chunk_value h (0 + i) mih.chunk_bits) x b held') [
          | inl (key, same_p) ↦ inr (record {
            some_hash = ==→≢ h 0 e;
            key = subst (λ v. k ≡ chunk_value h v mih.chunk_bits) (zero-add i) key;
            same = same_p;
          })
          | inr t ↦ inl (b, old, t)
        ],
    λ q.
        let (b', at) =
          lt-get_elem? (insert_from h x mih.chunk_bits 0 mih.buckets) i
            (omega (arith, length-insert_from h x mih.chunk_bits 0 mih.buckets, lt)) in
        let (b, old, same) = get_elem?-insert_from h x mih.chunk_bits 0 i mih.buckets b' at in
        let key = chunk_value h (0 + i) mih.chunk_bits in
        (
          b',
          at,
          subst (λ v. Holds k p v) (sym same)
              (elim q [
                | inl (b2, at2, held) ↦
                    let one : b2 ≡ b = some-injective _ _ (sym at2 ∙ old) in
                    push-Holds_keep ltb ltb-IsStrict k p key x b (subst (λ v. Holds k p v) one held)
                | inr from ↦
                    let key_of : k ≡ chunk_value h (0 + i) mih.chunk_bits =
                      subst (λ v. k ≡ chunk_value h v mih.chunk_bits) (sym (zero-add i)) from.key in
                    subst (λ v. Holds v p (push ltb key x b)) (sym key_of)
                      (subst (λ v. Holds key v (push ltb key x b)) (sym from.same)
                        (push-Holds_self ltb ltb-IsStrict key x b))
              ]),
        ),
  )
]

-- What the buckets hold after insertions alone.
run-Held :
    (n r i k : ℕ) (p : Posting) (entries : List (ℕ × Posting)) (mih : MultiIndexHash)
    → IsIndex n r mih
    → i < n
    → Held i k p (run (posts entries) mih)
      ↔ (Held i k p mih ⊎ ((h : ℕ) × ((h, p) ∈ entries) × (h ≢ 0) × (k ≡ chunk_value h i (64 / n))))
unfolding run
run-Held n r i k p [] mih w lt =
    (λ q. inl q, λ q. elim q [ inl t ↦ t | inr (h, m, some_h, key) ↦ absurd m ])
run-Held n r i k p ((h0, x) ∷ entries) mih w lt =
    let next = apply (post h0 x) mih in
    let first = apply-Held i k h0 p x mih (omega (arith, w.count, lt)) in
    let ih = run-Held n r i k p entries next (run-IsIndex n r (post h0 x ∷ []) mih w) lt in
    (
      λ q. elim (ih.0 q) [
        | inl t ↦ elim (first.0 t) [
          | inl held ↦ inl held
          | inr from ↦ inr (
            h0,
            inl (ap (λ v. (h0, v)) from.same),
            from.some_hash,
            from.key ∙ ap (λ v. chunk_value h0 i v) w.bits,
          )
        ]
        | inr (h, m, some_h, key) ↦ inr (h, inr m, some_h, key)
      ],
      λ q. elim q [
        | inl held ↦ ih.1 (inl (first.1 (inl held)))
        | inr (h, inl e, some_h, key) ↦ ih.1 (inl (first.1 (inr (from_entry h e some_h key))))
        | inr (h, inr m, some_h, key) ↦ ih.1 (inr (h, m, some_h, key))
      ],
    )
  where
    from_entry :
        (h : ℕ)
        → ◌≡◌ {A = ℕ × Posting} (h, p) (h0, x)
        → h ≢ 0
        → k ≡ chunk_value h i (64 / n)
        → IsFrom i k mih.chunk_bits p h0 x
    from_entry h e some_h key =
        let same : h ≡ h0 = ap (λ v. v.0) e in
        record {
          some_hash = subst (λ v. v ≢ 0) same some_h;
          key =
              key
              ∙ ap (λ v. chunk_value v i (64 / n)) same
              ∙ ap (λ v. chunk_value h0 i v) (sym w.bits);
          same = ap (λ v. v.1) e;
        }

new-Held : (chunks d i k : ℕ) (p : Posting) → Held i k p (new chunks d) → ⊥
unfolding new
new-Held chunks d i k p (b, at, held) = nothing i (normalize_chunks chunks) b at held
  where
    nothing : (i n : ℕ) (b : Bucket) → get_elem? (no_buckets n) i ≡ some b → Holds k p b → ⊥
    nothing i zero b at held = cc
    nothing zero (suc n) b at held =
        let none_held : ⊥ = subst (λ v. Holds k p v) (sym (some-injective _ _ at)) held in none_held
    nothing (suc i) (suc n) b at held = nothing i n b at held

-- The pairs of an index of a range and its image.
mem-map-range :
    {V : Type 0} (f : ℕ → V) (first n c : ℕ) (v : V)
    → (◌∈◌ {A = ℕ × V} (c, v) (map (λ c. (c, f c)) (range first n)))
      ↔ ((first ≤ c) × (c < first + n) × (v ≡ f c))
unfolding range
mem-map-range f first zero c v = (λ m. absurd m, λ (low, high, e). absurd (omega arith))
mem-map-range f first (suc n) c v =
    let ih = mem-map-range f (first + 1) n c v in
    (
      λ m. elim m [
        | inl e ↦
            let same : c ≡ first = ap (λ q. q.0) e in
            (omega arith, omega arith, ap (λ q. q.1) e ∙ ap f (sym same))
        | inr t ↦ let (low, high, e) = ih.0 t in (omega arith, omega arith, e)
      ],
      λ (low, high, e). elim (Bool-cases (c == first)) [
        | inl t ↦ let same = ==→≡ c first t in inl (ap (λ q. (c, q)) e ∙ ap (λ q. (q, f q)) same)
        | inr t ↦ let other = ==→≢ c first t in inr (ih.1 (omega arith, omega arith, e))
      ],
    )

-- A key that an insertion of the hash h posts and that a query for q reads.
pub record IsShared (mih : MultiIndexHash) (q h : ℕ) : Type 0 where
  pub chunk : ℕ
  pub key : ℕ
  pub ball : List ℕ
  pub posted : (chunk, key) ∈ post_keys mih h
  pub queried : (chunk, ball) ∈ query_keys mih q
  pub inside : key ∈ ball

IsShared-iff :
    (n r q h : ℕ) (mih : MultiIndexHash)
    → IsIndex n r mih
    → IsShared mih q h ↔ (
        (i : ℕ) × (i < n)
        × (q ≢ 0)
        × (h ≢ 0)
        × (chunk_value h i mih.chunk_bits
            ∈ hamming_ball (chunk_value q i mih.chunk_bits) mih.chunk_bits mih.radius))
unfolding post_keys query_keys
IsShared-iff n r q h mih w = (
  λ s. elim (Bool-cases (q == 0)) [
    | inl e ↦ absurd (none_queried s e)
    | inr e ↦ elim (Bool-cases (h == 0)) [
      | inl e' ↦ absurd (none_posted s e')
      | inr e' ↦
          let (low, high, key) =
            (mem-map-range (λ c. chunk_value h c mih.chunk_bits) 0 (length mih.buckets) s.chunk
                s.key).0
              (rw e' at s.posted) in
          let (low', high', ball) =
            (mem-map-range
                (λ c. hamming_ball (chunk_value q c mih.chunk_bits) mih.chunk_bits mih.radius) 0
                (length mih.buckets) s.chunk s.ball).0
              (rw e at s.queried) in
          (
            s.chunk,
            omega (arith, w.count, high),
            ==→≢ q 0 e,
            ==→≢ h 0 e',
            subst
                (λ v.
                  v ∈ hamming_ball (chunk_value q s.chunk mih.chunk_bits) mih.chunk_bits mih.radius)
                key (subst (λ v. s.key ∈ v) ball s.inside),
          )
    ]
  ],
  λ (i, lt, some_q, some_h, m). record {
    chunk = i;
    key = chunk_value h i mih.chunk_bits;
    ball = hamming_ball (chunk_value q i mih.chunk_bits) mih.chunk_bits mih.radius;
    posted = rw (≢→== h 0 some_h) (
        (mem-map-range (λ c. chunk_value h c mih.chunk_bits) 0 (length mih.buckets) i
            (chunk_value h i mih.chunk_bits)).1
          (omega arith, omega (arith, w.count, lt), refl));
    queried = rw (≢→== q 0 some_q) (
        (mem-map-range
            (λ c. hamming_ball (chunk_value q c mih.chunk_bits) mih.chunk_bits mih.radius) 0
            (length mih.buckets) i
            (hamming_ball (chunk_value q i mih.chunk_bits) mih.chunk_bits mih.radius)).1
          (omega arith, omega (arith, w.count, lt), refl));
    inside = m;
  },
)
  where
    none_queried : IsShared mih q h → (q == 0) ≡ true → ⊥
    none_queried s e = let m : ⊥ = rw e at s.queried in m

    none_posted : IsShared mih q h → (h == 0) ≡ true → ⊥
    none_posted s e = let m : ⊥ = rw e at s.posted in m

-- Of an index that is made by insertions alone, `candidates` gives exactly the postings of which an
-- insertion posted a key that the query reads: the keys in the database stand for the same index.
pub candidates-query_keys :
    (chunks max_distance : ℕ) (entries : List (ℕ × Posting)) (q : ℕ) (p : Posting)
    → (p ∈ candidates (run (posts entries) (new chunks max_distance)) q) ↔ (
        (h : ℕ) × ((h, p) ∈ entries) × IsShared (run (posts entries) (new chunks max_distance)) q h)
unfolding candidates
candidates-query_keys chunks max_distance entries q p =
    let n = normalize_chunks chunks in
    let r = radius_of chunks max_distance in
    let start = new chunks max_distance in
    let mih = run (posts entries) start in
    let w = run-IsIndex n r (posts entries) start (new-IsIndex chunks max_distance) in
    let collected = mem-collect_from q mih.chunk_bits mih.radius 0 mih.buckets p w.maps in
    let sorted = mem-sorted p (collect_from q mih.chunk_bits mih.radius 0 mih.buckets) in
    (
      λ m. elim (Bool-cases (q == 0)) [
        | inl e ↦ let nothing : ⊥ = rw e at m in absurd nothing
        | inr e ↦
            let m' : p ∈ collect_from q mih.chunk_bits mih.radius 0 mih.buckets =
              sorted.0 (rw e at m) in
            let (i, b, at, k, j, held) = collected.0 m' in
            let lt : i < n = omega (arith, w.count, get_elem?-lt mih.buckets i b at) in
            elim ((run-Held n r i k p entries start (new-IsIndex chunks max_distance) lt).0
              (b, at, held)) [
                | inl old ↦ absurd (new-Held chunks max_distance i k p old)
                | inr (h, posted, some_h, key) ↦
                    let key' : k ≡ chunk_value h i mih.chunk_bits =
                      key ∙ ap (λ v. chunk_value h i v) (sym w.bits) in
                    (
                      h,
                      posted,
                      (IsShared-iff n r q h mih w).1 (
                        i,
                        lt,
                        ==→≢ q 0 e,
                        some_h,
                        subst
                            (λ v.
                              chunk_value h i mih.chunk_bits
                              ∈ hamming_ball (chunk_value q v mih.chunk_bits) mih.chunk_bits
                                  mih.radius)
                            (zero-add i)
                            (subst
                              (λ v.
                                v
                                ∈ hamming_ball (chunk_value q (0 + i) mih.chunk_bits) mih.chunk_bits
                                    mih.radius)
                              key' j),
                      ),
                    )
              ]
      ],
      λ (h, posted, s).
          let (i, lt, some_q, some_h, m) = (IsShared-iff n r q h mih w).0 s in
          let key = chunk_value h i mih.chunk_bits in
          let (b, at, held) =
            (run-Held n r i (chunk_value h i mih.chunk_bits) p entries start
                (new-IsIndex chunks max_distance) lt).1
              (inr (h, posted, some_h, ap (λ v. chunk_value h i v) w.bits)) in
          rw (≢→== q 0 some_q) (
            sorted.1 (
              collected.1 (
                i,
                b,
                at,
                key,
                subst
                    (λ v.
                      chunk_value h i mih.chunk_bits
                      ∈ hamming_ball (chunk_value q v mih.chunk_bits) mih.chunk_bits mih.radius)
                    (sym (zero-add i)) m,
                held,
              ))),
    )
