-- ===== src/Matcher/Mih/Index.antt =====
-- The index of crates/vidcull-matcher/src/partial/mih.rs over a sequence of `insert` and `remove`.
use mathlib.Core.Path.{subst}
use mathlib.Core.Option.{some-injective}
use native.Mathlib.Nat.{zero-add}
use vidcull.Prelude.{
  ℕ, zero, suc, ◌+◌, ◌/◌, min, ◌≡◌, ◌≢◌, refl, ap, ◌∙◌, inl, inr, some, List, [], ◌∷◌, ◌++◌, length,
  get_elem?, ltb, ◌==◌, Bool-cases, ≢→==, All,
}
use vidcull.Prelude.Maps.Push.{
  Holds, IsMap, ltb-IsStrict, push-IsMap, push-Holds_keep, push-Holds_self,
}
use vidcull.Core.{FileId}
use vidcull.Matcher.Mih.{
  Posting, Bucket, MultiIndexHash, chunk_value, normalize_chunks, no_buckets, new, insert, remove,
}
use vidcull.Matcher.Mih.Postings.{AreMaps}
use vidcull.Matcher.Mih.Changes.{
  get_elem?-insert_from, length-insert_from, get_elem?-remove_from, length-remove_from,
  drop_file-Holds, drop_file-IsMap,
}

-- A change of the index, the calls of `insert` and `remove`.
pub data Change : Type 0 where
  post : ℕ → Posting → Change
  unpost : ℕ → FileId → Change

unfoldable pub apply : Change → MultiIndexHash → MultiIndexHash
apply (post phash posting) mih = insert mih phash posting
apply (unpost phash file_id) mih = remove mih phash file_id

unfoldable pub run : List Change → MultiIndexHash → MultiIndexHash
unfolding apply
run [] mih = mih
run (change ∷ changes) mih = run changes (apply change mih)

-- The change takes away no posting of the file.
abbrev pub Keeps : FileId → Change → Type 0
Keeps f (post phash posting) = Unit
Keeps f (unpost phash file_id) = f ≢ file_id

-- The chunks of the index cover the 64 bits, and the buckets are maps.
pub record IsIndex (n r : ℕ) (mih : MultiIndexHash) : Type 0 where
  pub bits : mih.chunk_bits ≡ 64 / n
  pub radius : mih.radius ≡ r
  pub count : length mih.buckets ≡ n
  pub maps : AreMaps mih.buckets

-- The posting stands in every bucket under its chunk.
abbrev pub Posted : ℕ → Posting → MultiIndexHash → Type 0
Posted h p mih =
    (i : ℕ) (b : Bucket)
    → get_elem? mih.buckets i ≡ some b
    → Holds (chunk_value h i mih.chunk_bits) p b

pub apply-IsIndex :
    (n r : ℕ) (change : Change) (mih : MultiIndexHash)
    → IsIndex n r mih
    → IsIndex n r (apply change mih)
unfolding apply insert remove
apply-IsIndex n r (post h x) mih w = elim (Bool-cases (h == 0)) [
  | inl e ↦ rw e w
  | inr e ↦ rw e (record {
    bits = w.bits;
    radius = w.radius;
    count = length-insert_from h x mih.chunk_bits 0 mih.buckets ∙ w.count;
    maps = λ i b' at.
        let (b, old, same) = get_elem?-insert_from h x mih.chunk_bits 0 i mih.buckets b' at in
        rw same
          (push-IsMap ltb ltb-IsStrict (chunk_value h (0 + i) mih.chunk_bits) x b (w.maps i b old));
  })
]
apply-IsIndex n r (unpost h f) mih w = elim (Bool-cases (h == 0)) [
  | inl e ↦ rw e w
  | inr e ↦ rw e (record {
    bits = w.bits;
    radius = w.radius;
    count = length-remove_from h f mih.chunk_bits 0 mih.buckets ∙ w.count;
    maps = λ i b' at.
        let (b, old, same) = get_elem?-remove_from h f mih.chunk_bits 0 i mih.buckets b' at in
        rw same (drop_file-IsMap (chunk_value h (0 + i) mih.chunk_bits) f b (w.maps i b old));
  })
]

pub apply-Posted :
    (h : ℕ) (p : Posting) (change : Change) (mih : MultiIndexHash)
    → Keeps p.file_id change
    → Posted h p mih
    → Posted h p (apply change mih)
unfolding apply insert remove
apply-Posted h p (post h' x) mih k held = elim (Bool-cases (h' == 0)) [
  | inl e ↦ rw e held
  | inr e ↦ rw e (λ i b' at.
      let (b, old, same) = get_elem?-insert_from h' x mih.chunk_bits 0 i mih.buckets b' at in
      rw same (
        push-Holds_keep ltb ltb-IsStrict (chunk_value h i mih.chunk_bits) p
          (chunk_value h' (0 + i) mih.chunk_bits) x b (held i b old)))
]
apply-Posted h p (unpost h' f) mih k held = elim (Bool-cases (h' == 0)) [
  | inl e ↦ rw e held
  | inr e ↦ rw e (λ i b' at.
      let (b, old, same) = get_elem?-remove_from h' f mih.chunk_bits 0 i mih.buckets b' at in
      rw same (
        drop_file-Holds (chunk_value h' (0 + i) mih.chunk_bits) f (chunk_value h i mih.chunk_bits) p
          b k (held i b old)))
]

pub post-Posted :
    (h : ℕ) (p : Posting) (mih : MultiIndexHash) → h ≢ 0 → Posted h p (apply (post h p) mih)
unfolding apply insert
post-Posted h p mih ne = rw (≢→== h 0 ne) (λ i b' at.
    let (b, old, same) = get_elem?-insert_from h p mih.chunk_bits 0 i mih.buckets b' at in
    let held : Holds (chunk_value h (0 + i) mih.chunk_bits) p b' =
      rw same (push-Holds_self ltb ltb-IsStrict (chunk_value h (0 + i) mih.chunk_bits) p b) in
    rw (zero-add i) at held)

pub run-IsIndex :
    (n r : ℕ) (changes : List Change) (mih : MultiIndexHash)
    → IsIndex n r mih
    → IsIndex n r (run changes mih)
unfolding run
run-IsIndex n r [] mih w = w
run-IsIndex n r (change ∷ changes) mih w =
    run-IsIndex n r changes (apply change mih) (apply-IsIndex n r change mih w)

pub run-Posted :
    (h : ℕ) (p : Posting) (changes : List Change) (mih : MultiIndexHash)
    → All (Keeps p.file_id) changes
    → Posted h p mih
    → Posted h p (run changes mih)
unfolding run
run-Posted h p [] mih k held = held
run-Posted h p (change ∷ changes) mih k held =
    run-Posted h p changes (apply change mih) k.1 (apply-Posted h p change mih k.0 held)

pub run-append :
    (xs ys : List Change) (mih : MultiIndexHash) → run (xs ++ ys) mih ≡ run ys (run xs mih)
unfolding run
run-append [] ys mih = refl
run-append (x ∷ xs) ys mih = run-append xs ys (apply x mih)

empty_buckets : (i n : ℕ) (b : Bucket) → get_elem? (no_buckets n) i ≡ some b → IsMap ltb b
unfolding no_buckets
empty_buckets i zero b e = cc
empty_buckets zero (suc n) b e = subst (λ v. IsMap ltb v) (some-injective _ _ e) tt
empty_buckets (suc i) (suc n) b e = empty_buckets i n b e

length-no_buckets : (n : ℕ) → length (no_buckets n) ≡ n
unfolding no_buckets
length-no_buckets zero = refl
length-no_buckets (suc n) = ap suc (length-no_buckets n)

abbrev pub radius_of : ℕ → ℕ → ℕ
radius_of chunks max_distance = min max_distance 64 / normalize_chunks chunks

pub new-IsIndex :
    (chunks max_distance : ℕ)
    → IsIndex (normalize_chunks chunks) (radius_of chunks max_distance) (new chunks max_distance)
unfolding new
new-IsIndex chunks max_distance = record {
  bits = refl;
  radius = refl;
  count = length-no_buckets (normalize_chunks chunks);
  maps = λ i b e. empty_buckets i (normalize_chunks chunks) b e;
}
