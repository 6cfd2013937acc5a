-- ===== src/Parser/FanOut/Finish.antt =====
-- The workers of `fan_out_indexed` in crates/vidcull-parser/src/fallback/concurrency.rs can always end.
use vidcull.Prelude.{
  ℕ, zero, suc, ◌+◌, ◌-◌, ◌*◌, ◌<◌, ◌≤◌, ◌≡◌, refl, inl, inr, true, false, Option-cases, List, [],
  ◌∷◌, ◌++◌, length, get_elem?, get_elem?-lt, Bool-cases, arith,
}
use vidcull.Prelude.Result.{Result}
use vidcull.Parser.FanOut.{
  Worker, looking, claiming, decoding, storing, ended, Shared, all_ended, turn, turn_at, turns,
}

module _ {E T R : Type 0} (decode : T → Result E R) (items : List T) where
  -- The turns that a worker has before it, without those for items not yet taken.
  abbrev weight : Worker E T R → ℕ
  weight ended = 0
  weight claiming = 1
  weight looking = 2
  weight (storing i r) = 3
  weight (decoding i item) = 4

  weights : List (Worker E T R) → ℕ
  weights [] = 0
  weights (w ∷ ws) = weight w + weights ws

  left : Shared E R → ℕ
  left s = 4 * (length items - s.counter)

  turn_lowers :
      (w : Worker E T R) (s : Shared E R)
      → 0 < weight w
      → left (turn decode items w s).1 + weight (turn decode items w s).0 < left s + weight w
  unfolding turn left
  turn_lowers ended s live = absurd (omega arith)
  turn_lowers looking s live = elim (Bool-cases s.abort) [
    | inl e ↦ rw e (omega arith)
    | inr e ↦ rw e (omega arith)
  ]
  turn_lowers claiming s live = elim (Option-cases (get_elem? items s.counter)) [
    | inl e ↦ rw (weight, e) (omega arith)
    | inr (item, e) ↦ rw (weight, e) (omega (arith, get_elem?-lt items s.counter item e))
  ]
  turn_lowers (storing i r) s live = omega arith
  turn_lowers (decoding i item) s live = omega arith

  lowered :
      (ws : List (Worker E T R)) (s : Shared E R)
      → all_ended ws ≡ false
      → (k : ℕ) × (left (turn_at decode items k ws s).1 + weights (turn_at decode items k ws s).0
          < left s + weights ws)
  unfolding all_ended turn_at weights
  lowered [] s h = cc
  lowered (ended ∷ ws) s h = let (k, less) = lowered ws s h in (suc k, omega (arith, less))
  lowered (looking ∷ ws) s h = (zero, omega (arith, turn_lowers looking s (omega arith)))
  lowered (claiming ∷ ws) s h = (zero, omega (arith, turn_lowers claiming s (omega arith)))
  lowered (decoding i item ∷ ws) s h =
      (zero, omega (arith, turn_lowers (decoding i item) s (omega arith)))
  lowered (storing i r ∷ ws) s h = (zero, omega (arith, turn_lowers (storing i r) s (omega arith)))

  within :
      (fuel : ℕ) (st : List (Worker E T R) × Shared E R)
      → left st.1 + weights st.0 ≤ fuel
      → (order : List ℕ) × (all_ended (turns decode items order st).0 ≡ true)
  unfolding turns
  within zero st enough = elim (Bool-cases (all_ended st.0)) [
    | inl e ↦ ([], e)
    | inr e ↦ let (k, less) = lowered st.0 st.1 e in absurd (omega (arith, less))
  ]
  within (suc fuel) st enough = elim (Bool-cases (all_ended st.0)) [
    | inl e ↦ ([], e)
    | inr e ↦
        let (k, less) = lowered st.0 st.1 e in
        let (ks, done) = within fuel (turn_at decode items k st.0 st.1) (omega (arith, less)) in
        (k ∷ ks, done)
  ]

  -- From any state, some further turns bring every worker to its end.
  pub turns_finish :
      (st : List (Worker E T R) × Shared E R)
      → (order : List ℕ) × (all_ended (turns decode items order st).0 ≡ true)
  turns_finish st = within (left st.1 + weights st.0) st (omega arith)

  pub turns-append :
      (xs ys : List ℕ) (st : List (Worker E T R) × Shared E R)
      → turns decode items (xs ++ ys) st ≡ turns decode items ys (turns decode items xs st)
  unfolding turns
  turns-append [] ys st = refl
  turns-append (k ∷ xs) ys st = turns-append xs ys (turn_at decode items k st.0 st.1)
