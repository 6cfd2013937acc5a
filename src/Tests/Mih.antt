-- ===== src/Tests/Mih.antt =====
-- Runs of crates/vidcull-matcher/src/partial/mih.rs.
use vidcull.Prelude.{ℕ, ◌≡◌, ◌↔◌, refl, [], ◌∷◌, ◌++◌, ◌∈◌, length, arith}
use vidcull.Matcher.Mih.{
  Posting, hamming_distance, normalize_chunks, new, candidates, insert, remove, hamming_ball,
}
use vidcull.Prelude.Sort.{sort_by}
use vidcull.Matcher.Mih.Index.{post, unpost, run}
use vidcull.Matcher.Mih.Recall.{candidates_recall}
use vidcull.Matcher.Mih.Keys.{posts, IsShared, candidates-query_keys}

abbrev first_scene : Posting
first_scene = record { file_id = 1; scene_index = 0 }

abbrev other_scene : Posting
other_scene = record { file_id = 2; scene_index = 4 }

chunk_counts : (normalize_chunks 3 ≡ 2) × (normalize_chunks 7 ≡ 4) × (normalize_chunks 100 ≡ 64)
unfolding normalize_chunks
chunk_counts = (refl, refl, refl)

ball_of_four_bits : hamming_ball 0 4 1 ≡ 0 ∷ 1 ∷ 2 ∷ 4 ∷ 8 ∷ []
unfolding hamming_ball
ball_of_four_bits = refl

ball_of_radius_two : length (hamming_ball 0 4 2) ≡ 11
unfolding hamming_ball
ball_of_radius_two = refl

distances : hamming_distance 0xb 1 ≡ 2
unfolding hamming_distance
distances = refl

close_to : hamming_distance 0xdeadbeef12345678 0xdeadbeef1234567f ≡ 3
unfolding hamming_distance
close_to = refl

candidates_recall_example :
    first_scene
    ∈ candidates
        (run
          ((post 7 other_scene ∷ []) ++ (post 0xdeadbeef1234567f first_scene ∷ unpost 7 2 ∷ []))
          (new 4 6))
        0xdeadbeef12345678
candidates_recall_example =
    candidates_recall 4 6 (post 7 other_scene ∷ []) (unpost 7 2 ∷ []) 0xdeadbeef12345678
      0xdeadbeef1234567f first_scene (λ e. omega arith) (λ e. omega arith) (omega arith)
      (omega arith) (omega (arith, close_to)) (λ e. omega arith, tt)

found :
    candidates
      (run
        ((post 7 other_scene ∷ []) ++ (post 0xdeadbeef1234567f first_scene ∷ unpost 7 2 ∷ []))
        (new 4 6))
      0xdeadbeef12345678
    ≡ first_scene ∷ []
unfolding candidates run new insert remove sort_by
found = refl

-- The database's keys for one posting and a query two bits away.
candidates-query_keys_example :
    (first_scene ∈ candidates (run (posts ((9, first_scene) ∷ [])) (new 4 6)) 10) ↔ (
      (h : ℕ) × (◌∈◌ {A = ℕ × Posting} (h, first_scene) ((9, first_scene) ∷ []))
      × IsShared (run (posts ((9, first_scene) ∷ [])) (new 4 6)) 10 h)
candidates-query_keys_example = candidates-query_keys 4 6 ((9, first_scene) ∷ []) 10 first_scene
