-- ===== src/Matcher/Mih.antt =====
-- `MultiIndexHash` of crates/vidcull-matcher/src/partial/mih.rs: one table of postings for each chunk
-- of the 64 bits of a perceptual hash. A table has no order that the code reads, so that it is a map
-- with ascending keys.
pub mod Distance
pub mod Ball
pub mod Postings
pub mod Changes
pub mod Index
pub mod Chunks
pub mod Recall
pub mod Keys
use package.vidcull.Prelude.{
  ℕ, zero, suc, ◌+◌, ◌-◌, ◌*◌, ◌/◌, ◌%◌, ◌^◌, min, Bool, true, false, ◌&&◌, ◌||◌, not, Option, none,
  some, List, [], ◌∷◌, ◌++◌, map, length, ltb, leb, ◌==◌, if◌then◌else◌, retain,
}
use package.vidcull.Prelude.Sort.{sort_by}
use package.vidcull.Prelude.Maps.{push, lookup}
use package.vidcull.Prelude.Word.{u64_max}
use package.vidcull.Core.{FileId}
use package.vidcull.Matcher.DisjointSet.{range}
use Prim.Native.Nat.{bit_and, bit_xor}

abbrev pub phash_bits : ℕ
phash_bits = 64

-- `(a ^ b).count_ones()` of crates/vidcull-fingerprint/src/tier1.rs, the ones among the n low bits.
unfoldable pub count_ones : ℕ → ℕ → ℕ
count_ones zero x = 0
count_ones (suc n) x = x % 2 + count_ones n (x / 2)

unfoldable pub hamming_distance : ℕ → ℕ → ℕ
unfolding count_ones
hamming_distance a b = count_ones 64 (bit_xor a b)

pub record Posting : Type 0 where
  pub file_id : FileId
  pub scene_index : ℕ

abbrev pub Bucket : Type 0
Bucket = List (ℕ × List Posting)

pub record MultiIndexHash : Type 0 where
  pub chunk_bits : ℕ
  pub radius : ℕ
  pub buckets : List Bucket

-- `while p * 2 <= chunks { p *= 2; }`, of a number below 64.
unfoldable pub double_to : ℕ → ℕ → ℕ → ℕ
double_to zero p chunks = p
double_to (suc fuel) p chunks =
    let rest = double_to fuel (p * 2) chunks in if leb (p * 2) chunks then rest else p

unfoldable pub normalize_chunks : ℕ → ℕ
unfolding double_to
normalize_chunks chunks =
    if chunks == 0 then 1 else if leb phash_bits chunks then phash_bits else double_to 6 1 chunks

unfoldable pub no_buckets : ℕ → List Bucket
no_buckets zero = []
no_buckets (suc n) = [] ∷ no_buckets n

unfoldable pub new : ℕ → ℕ → MultiIndexHash
unfolding normalize_chunks no_buckets
new chunks max_distance =
    let n = normalize_chunks chunks in
    record {
      chunk_bits = phash_bits / n;
      radius = min max_distance phash_bits / n;
      buckets = no_buckets n;
    }

unfoldable pub chunk_value : ℕ → ℕ → ℕ → ℕ
chunk_value phash c chunk_bits =
    let mask = if leb phash_bits chunk_bits then u64_max else 2 ^ chunk_bits - 1 in
    bit_and (phash / 2 ^ (chunk_bits * c)) mask

unfoldable pub insert_from : ℕ → Posting → ℕ → ℕ → List Bucket → List Bucket
unfolding chunk_value
insert_from phash posting chunk_bits c [] = []
insert_from phash posting chunk_bits c (bucket ∷ buckets) =
    push ltb (chunk_value phash c chunk_bits) posting bucket
    ∷ insert_from phash posting chunk_bits (c + 1) buckets

unfoldable pub insert : MultiIndexHash → ℕ → Posting → MultiIndexHash
unfolding insert_from
insert mih phash posting =
    if phash == 0
    then mih
    else record mih { buckets = insert_from phash posting mih.chunk_bits 0 mih.buckets }

abbrev pub is_empty : {A : Type 0} → List A → Bool
is_empty [] = true
is_empty (x ∷ xs) = false

-- The list under the key without the file; a list that is then empty goes with its key.
unfoldable pub drop_file : ℕ → FileId → Bucket → Bucket
drop_file value file_id [] = []
drop_file value file_id ((k, list) ∷ bucket) =
    let kept = retain (λ p. not (p.file_id == file_id)) list in
    let rest = drop_file value file_id bucket in
    if value == k then (if is_empty kept then bucket else (k, kept) ∷ bucket) else (k, list) ∷ rest

unfoldable pub remove_from : ℕ → FileId → ℕ → ℕ → List Bucket → List Bucket
unfolding chunk_value drop_file
remove_from phash file_id chunk_bits c [] = []
remove_from phash file_id chunk_bits c (bucket ∷ buckets) =
    drop_file (chunk_value phash c chunk_bits) file_id bucket
    ∷ remove_from phash file_id chunk_bits (c + 1) buckets

unfoldable pub remove : MultiIndexHash → ℕ → FileId → MultiIndexHash
unfolding remove_from
remove mih phash file_id =
    if phash == 0
    then mih
    else record mih { buckets = remove_from phash file_id mih.chunk_bits 0 mih.buckets }

unfoldable pub post_keys : MultiIndexHash → ℕ → List (ℕ × ℕ)
unfolding chunk_value range
post_keys mih phash =
    if phash == 0
    then []
    else map (λ c. (c, chunk_value phash c mih.chunk_bits)) (range 0 (length mih.buckets))

-- The sequences that `combinations` emits. The second call goes on with the loop at `i + 1`.
unfoldable pub combinations : ℕ → ℕ → ℕ → ℕ → List ℕ → List (List ℕ)
combinations zero width k i combo = []
combinations (suc fuel) width k i combo = elim (length combo == k) [
  | true ↦ combo ∷ []
  | false ↦ elim (leb (i + (k - length combo)) width) [
    | true ↦
        combinations fuel width k (i + 1) (combo ++ (i ∷ []))
        ++ combinations fuel width k (i + 1) combo
    | false ↦ []
  ]
]

-- `for &b in bits { v ^= 1u64 << b; }`.
unfoldable pub flip_bits : ℕ → List ℕ → ℕ
flip_bits v [] = v
flip_bits v (b ∷ bits) = flip_bits (bit_xor v (2 ^ b)) bits

-- `for k in 1..=radius`, from k on for n rounds. The position grows at each call, so that width + 1
-- calls are enough.
unfoldable pub ball_loop : ℕ → ℕ → ℕ → ℕ → List ℕ
unfolding combinations flip_bits
ball_loop value width k zero = []
ball_loop value width k (suc n) =
    map (flip_bits value) (combinations (suc width) width k 0 []) ++ ball_loop value width (k + 1) n

unfoldable pub hamming_ball : ℕ → ℕ → ℕ → List ℕ
unfolding ball_loop
hamming_ball value width radius = value ∷ ball_loop value (min width phash_bits) 1 radius

unfoldable pub query_keys : MultiIndexHash → ℕ → List (ℕ × List ℕ)
unfolding chunk_value range hamming_ball
query_keys mih phash =
    if phash == 0
    then []
    else map (λ c. (c, hamming_ball (chunk_value phash c mih.chunk_bits) mih.chunk_bits mih.radius))
        (range 0 (length mih.buckets))

-- `for key in &keys { if let Some(list) = bucket.get(key) { candidates.extend(list) } }`.
unfoldable pub at_keys : List ℕ → Bucket → List Posting
at_keys [] bucket = []
at_keys (key ∷ keys) bucket =
    elim (lookup key bucket) [ none ↦ [] | some list ↦ list ] ++ at_keys keys bucket

unfoldable pub collect_from : ℕ → ℕ → ℕ → ℕ → List Bucket → List Posting
unfolding chunk_value hamming_ball at_keys
collect_from phash chunk_bits radius c [] = []
collect_from phash chunk_bits radius c (bucket ∷ buckets) =
    at_keys (hamming_ball (chunk_value phash c chunk_bits) chunk_bits radius) bucket
    ++ collect_from phash chunk_bits radius (c + 1) buckets

-- The derived order and equality of postings.
abbrev pub posting_before : Posting → Posting → Bool
posting_before a b =
    ltb a.file_id b.file_id || (a.file_id == b.file_id && ltb a.scene_index b.scene_index)

abbrev pub same_posting : Posting → Posting → Bool
same_posting a b = a.file_id == b.file_id && a.scene_index == b.scene_index

unfoldable pub skip_same_posting : Posting → List Posting → List Posting
skip_same_posting x [] = []
skip_same_posting x (y ∷ ys) =
    let rest = skip_same_posting y ys in if same_posting x y then rest else y ∷ rest

unfoldable pub dedup_postings : List Posting → List Posting
unfolding skip_same_posting
dedup_postings [] = []
dedup_postings (x ∷ xs) = x ∷ skip_same_posting x xs

unfoldable pub candidates : MultiIndexHash → ℕ → List Posting
unfolding collect_from dedup_postings
candidates mih phash =
    if phash == 0
    then []
    else dedup_postings
        (sort_by posting_before (collect_from phash mih.chunk_bits mih.radius 0 mih.buckets))
