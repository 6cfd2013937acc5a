-- ===== src/Matcher/Mih/Recall.antt =====
-- The pigeonhole bound of `MultiIndexHash` in crates/vidcull-matcher/src/partial/mih.rs: which postings
-- `candidates` finds after a sequence of `insert` and `remove`.
use mathlib.Core.Path.{subst}
use native.Mathlib.Nat.{zero-add}
use vidcull.Prelude.{
  ℕ, ◌+◌, ◌/◌, ◌^◌, ◌≤◌, ◌<◌, ◌≡◌, ◌≢◌, sym, List, ◌∷◌, ◌++◌, lt-get_elem?, ≢→==, ◌∈◌, All, arith,
}
use vidcull.Matcher.Mih.{
  Posting, chunk_value, collect_from, hamming_ball, hamming_distance, normalize_chunks, new,
  candidates,
}
use vidcull.Matcher.Mih.Distance.{chunk_value-lt}
use vidcull.Matcher.Mih.Ball.{mem-hamming_ball}
use vidcull.Matcher.Mih.Postings.{mem-collect_from, mem-sorted}
use vidcull.Matcher.Mih.Index.{
  Change, post, apply, run, Keeps, Posted, post-Posted, run-IsIndex, run-Posted, run-append,
  radius_of, new-IsIndex,
}
use vidcull.Matcher.Mih.Chunks.{normalize_chunks_lem, near_chunk}

in_ball :
    (q h i j : ℕ) {w w' r r' : ℕ}
    → w' ≡ w
    → r' ≡ r
    → j ≡ i
    → chunk_value h i w ∈ hamming_ball (chunk_value q i w) w r
    → chunk_value h i w' ∈ hamming_ball (chunk_value q j w') w' r'
in_ball q h i j {w} {w'} {r} {r'} same_w same_r same_i m =
    subst (λ v. chunk_value h i v ∈ hamming_ball (chunk_value q j v) v r') (sym same_w)
      (subst (λ v. chunk_value h i w ∈ hamming_ball (chunk_value q j w) w v) (sym same_r)
        (subst (λ v. chunk_value h i w ∈ hamming_ball (chunk_value q v w) w r) (sym same_i) m))

-- However the changes before and after go, a posting that is inserted under a hash other than 0, and
-- of whose file nothing is removed afterwards, is a candidate for every query other than 0 whose
-- distance to the hash is at most the one that the index was made for.
pub candidates_recall :
    (chunks max_distance : ℕ) (earlier later : List Change) (q h : ℕ) (p : Posting)
    → q ≢ 0
    → h ≢ 0
    → q < 2 ^ 64
    → h < 2 ^ 64
    → hamming_distance q h ≤ max_distance
    → All (Keeps p.file_id) later
    → p ∈ candidates (run (earlier ++ (post h p ∷ later)) (new chunks max_distance)) q
unfolding run candidates
candidates_recall chunks max_distance earlier later q h p some_q some_h small_q small_h near kept =
    let n = normalize_chunks chunks in
    let start = new chunks max_distance in
    let mid = run earlier start in
    let mih = run (earlier ++ (post h p ∷ later)) start in
    let goes : run (earlier ++ (post h p ∷ later)) start ≡ run later (apply (post h p) mid) =
      run-append earlier (post h p ∷ later) start in
    let w =
      run-IsIndex n (radius_of chunks max_distance) (earlier ++ (post h p ∷ later)) start
        (new-IsIndex chunks max_distance) in
    let held : Posted h p mih =
      subst (λ m. Posted h p m) (sym goes)
        (run-Posted h p later (apply (post h p) mid) kept (post-Posted h p mid some_h)) in
    let (i, lt, d) = near_chunk chunks max_distance q h small_q small_h near in
    let (b, at) = lt-get_elem? mih.buckets i (omega (arith, w.count, lt)) in
    let (one, all, small) = normalize_chunks_lem chunks in
    let inside =
      mem-hamming_ball (chunk_value q i (64 / n)) (64 / n) (radius_of chunks max_distance)
        (chunk_value h i (64 / n)) small (chunk_value-lt q i (64 / n) small)
        (chunk_value-lt h i (64 / n) small) d in
    rw (≢→== q 0 some_q) (
      (mem-sorted p (collect_from q mih.chunk_bits mih.radius 0 mih.buckets)).1 (
        (mem-collect_from q mih.chunk_bits mih.radius 0 mih.buckets p w.maps).1 (
          i,
          b,
          at,
          chunk_value h i mih.chunk_bits,
          in_ball q h i (0 + i) w.bits w.radius (zero-add i) inside,
          held i b at,
        )))
