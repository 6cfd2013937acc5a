-- ===== src/Matcher/Mih/Changes.antt =====
-- What `insert` and `remove` of crates/vidcull-matcher/src/partial/mih.rs leave of the postings.
use mathlib.Core.Option.{some-injective}
use native.Mathlib.Nat.{add-zero}
use vidcull.Prelude.{
  ℕ, zero, suc, ◌+◌, ◌≡◌, ◌≢◌, refl, sym, ap, inl, inr, Bool, true, false, not, some, List, [], ◌∷◌,
  length, get_elem?, ltb, ◌==◌, Bool-cases, ≢→==, ◌∈◌, retain, mem-retain, All, arith,
}
use vidcull.Prelude.Maps.{push}
use vidcull.Prelude.Maps.Push.{Holds, IsMap}
use vidcull.Core.{FileId}
use vidcull.Matcher.Mih.{
  Posting, Bucket, chunk_value, insert_from, is_empty, drop_file, remove_from,
}

-- The bucket at an index after an insertion.
pub get_elem?-insert_from :
    (h : ℕ) (x : Posting) (w c i : ℕ) (buckets : List Bucket) (b' : Bucket)
    → get_elem? (insert_from h x w c buckets) i ≡ some b'
    → (b : Bucket) × (get_elem? buckets i ≡ some b) × (b' ≡ push ltb (chunk_value h (c + i) w) x b)
unfolding insert_from
get_elem?-insert_from h x w c i [] b' e = cc
get_elem?-insert_from h x w c zero (b ∷ buckets) b' e =
    (b, refl, rw (add-zero c) (sym (some-injective _ _ e)))
get_elem?-insert_from h x w c (suc i) (b ∷ buckets) b' e =
    let next : c + 1 + i ≡ c + suc i = omega arith in
    let (o, at, same) = get_elem?-insert_from h x w (c + 1) i buckets b' e in
    (o, at, rw next at same)

pub length-insert_from :
    (h : ℕ) (x : Posting) (w c : ℕ) (buckets : List Bucket)
    → length (insert_from h x w c buckets) ≡ length buckets
unfolding insert_from
length-insert_from h x w c [] = refl
length-insert_from h x w c (b ∷ buckets) = ap suc (length-insert_from h x w (c + 1) buckets)

pub get_elem?-remove_from :
    (h : ℕ) (f : FileId) (w c i : ℕ) (buckets : List Bucket) (b' : Bucket)
    → get_elem? (remove_from h f w c buckets) i ≡ some b'
    → (b : Bucket) × (get_elem? buckets i ≡ some b) × (b' ≡ drop_file (chunk_value h (c + i) w) f b)
unfolding remove_from
get_elem?-remove_from h f w c i [] b' e = cc
get_elem?-remove_from h f w c zero (b ∷ buckets) b' e =
    (b, refl, rw (add-zero c) (sym (some-injective _ _ e)))
get_elem?-remove_from h f w c (suc i) (b ∷ buckets) b' e =
    let next : c + 1 + i ≡ c + suc i = omega arith in
    let (o, at, same) = get_elem?-remove_from h f w (c + 1) i buckets b' e in
    (o, at, rw next at same)

pub length-remove_from :
    (h : ℕ) (f : FileId) (w c : ℕ) (buckets : List Bucket)
    → length (remove_from h f w c buckets) ≡ length buckets
unfolding remove_from
length-remove_from h f w c [] = refl
length-remove_from h f w c (b ∷ buckets) = ap suc (length-remove_from h f w (c + 1) buckets)

some_member : (l : List Posting) → is_empty l ≡ false → (p : Posting) × (p ∈ l)
some_member [] h = cc
some_member (p ∷ l) h = (p, inl refl)

no_member : (l : List Posting) (p : Posting) → is_empty l ≡ true → p ∈ l → ⊥
no_member [] p h m = m
no_member (x ∷ l) p h m = cc

abbrev not_of : FileId → Posting → Bool
not_of f p = not (p.file_id == f)

-- The postings of the other files stay.
pub drop_file-Holds :
    (v : ℕ) (f : FileId) (k : ℕ) (p : Posting) (b : Bucket)
    → p.file_id ≢ f
    → Holds k p b
    → Holds k p (drop_file v f b)
unfolding drop_file
drop_file-Holds v f k p [] ne h = absurd h
drop_file-Holds v f k p ((k', l) ∷ b) ne h =
    let keeps : not_of f p ≡ true = rw (≢→== p.file_id f ne) refl in
    elim (Bool-cases (v == k')) [
      | inl e ↦ elim (Bool-cases (is_empty (retain (not_of f) l))) [
        | inl z ↦
            rw (e, z)
              (elim h [
                | inl (same, m) ↦
                    absurd (no_member (retain (not_of f) l) p z (mem-retain (not_of f) l p m keeps))
                | inr t ↦ t
              ])
        | inr z ↦
            rw (e, z)
              (elim h [
                | inl (same, m) ↦ inl (same, mem-retain (not_of f) l p m keeps)
                | inr t ↦ inr t
              ])
      ]
      | inr e ↦ rw e (elim h [ inl q ↦ inl q | inr t ↦ inr (drop_file-Holds v f k p b ne t) ])
    ]

drop_file-above :
    (low v : ℕ) (f : FileId) (b : Bucket)
    → All (λ e. ltb low e.0 ≡ true) b
    → All (λ e. ltb low e.0 ≡ true) (drop_file v f b)
unfolding drop_file
drop_file-above low v f [] h = tt
drop_file-above low v f ((k, l) ∷ b) h = elim (Bool-cases (v == k)) [
  | inl e ↦ elim (Bool-cases (is_empty (retain (not_of f) l))) [
    | inl z ↦ rw (e, z) h.1
    | inr z ↦ rw (e, z) h
  ]
  | inr e ↦ rw e (h.0, drop_file-above low v f b h.1)
]

pub drop_file-IsMap : (v : ℕ) (f : FileId) (b : Bucket) → IsMap ltb b → IsMap ltb (drop_file v f b)
unfolding drop_file
drop_file-IsMap v f [] w = tt
drop_file-IsMap v f ((k, l) ∷ b) (s, above, w) = elim (Bool-cases (v == k)) [
  | inl e ↦ elim (Bool-cases (is_empty (retain (not_of f) l))) [
    | inl z ↦ rw (e, z) w
    | inr z ↦ rw (e, z) (some_member (retain (not_of f) l) z, above, w)
  ]
  | inr e ↦ rw e (s, drop_file-above k v f b above, drop_file-IsMap v f b w)
]
