-- ===== src/Parser/FanOut/Sequential.antt =====
-- `fan_out_indexed` of crates/vidcull-parser/src/fallback/concurrency.rs gives what one thread gives that
-- decodes the items in their order.
use mathlib.Core.Path.{subst}
use mathlib.Core.Option.{some-injective}
use vidcull.Prelude.{
  ℕ, zero, suc, ◌+◌, ◌<◌, ◌≤◌, max, min, ◌≡◌, refl, sym, ap, ◌∙◌, ◌⊎◌, inl, inr, true, false,
  Option, none, some, List, [], ◌∷◌, ◌++◌, length, get_elem?, get_elem?-lt, ltb, ltb→lt, ltb→ge,
  ◌==◌, Bool-cases, ◌∈◌, arith,
}
use vidcull.Prelude.Result.{Result, Result-cases, ok, err, ◌>>=◌}
use vidcull.Parser.FanOut.{
  FanOutError, of_decode, Worker, looking, claiming, decoding, storing, ended, Shared, no_cells,
  all_ended, spawn, take_cells, turns, fan_out_indexed,
}
use vidcull.Parser.FanOut.Workers.{Holds, IsValid}
use vidcull.Parser.FanOut.Turns.{ended-Stopped, turns_keep_some, turns-IsValid, spawn-IsValid}
use vidcull.Parser.FanOut.Finish.{turns_finish, turns-append}

all_ended-ended :
    {E T R : Type 0} (ws : List (Worker E T R)) (w : Worker E T R)
    → all_ended ws ≡ true
    → w ∈ ws
    → w ≡ ended
unfolding all_ended
all_ended-ended [] w h m = absurd m
all_ended-ended (ended ∷ ws) w h (inl e) = e
all_ended-ended (ended ∷ ws) w h (inr m) = all_ended-ended ws w h m
all_ended-ended (looking ∷ ws) w h m = cc
all_ended-ended (claiming ∷ ws) w h m = cc
all_ended-ended (decoding i item ∷ ws) w h m = cc
all_ended-ended (storing i r ∷ ws) w h m = cc

module _ {E T R : Type 0} (decode : T → Result E R) where
  -- One thread: the results in order, or the error of the first item that has one.
  pub decode_all : List T → Result (FanOutError E) (List R)
  decode_all [] = ok []
  decode_all (x ∷ xs) =
      let rest = decode_all xs in
      elim (decode x) [ ok v ↦ rest >>= λ vs. ok (v ∷ vs) | err e ↦ err (of_decode e) ]

  -- An item before the k-th has an error.
  abbrev FailedBefore : ℕ → List T → Type 0
  FailedBefore k xs =
      (j : ℕ) × (j < k)
      × ((item : T) × (get_elem? xs j ≡ some item) × ((e : E) × (decode item ≡ err e)))

  -- A cell may be empty only behind an item with an error.
  take_cells_lem :
      (xs : List T) (i : ℕ) (cells : ℕ → Option (Result E R))
      → ((k : ℕ) (item : T)
          → get_elem? xs k ≡ some item
          → (cells (i + k) ≡ some (decode item)) ⊎ FailedBefore k xs)
      → take_cells (length xs) i cells ≡ decode_all xs
  unfolding take_cells decode_all
  take_cells_lem [] i cells h = refl
  take_cells_lem (x ∷ xs) i cells h = elim (h 0 x refl) [
    | inr (j, less, _) ↦ absurd (omega (arith, less))
    | inl e ↦
        let here : cells i ≡ some (decode x) = ap cells (omega arith) ∙ e in
        elim (Result-cases (decode x)) [
          | inr (e, failed) ↦ rw (decode_all, here, failed) refl
          | inl (v, fine) ↦
              let rest : take_cells (length xs) (i + 1) cells ≡ decode_all xs =
                take_cells_lem xs (i + 1) cells (λ k item there. elim (h (suc k) item there) [
                  | inl filled ↦ inl (ap cells (omega arith) ∙ filled)
                  | inr (zero, less, (y, at, (e, failed))) ↦ cc
                  | inr (suc j, less, failed) ↦ inr (j, omega (arith, less), failed)
                ]) in
              rw (decode_all, here, fine, rest) refl
        ]
  ]

  module _ (items : List T) where
    ended-Filled :
        (ws : List (Worker E T R)) (s : Shared E R) (k : ℕ) (item : T)
        → IsValid decode items ws s
        → all_ended ws ≡ true
        → k < s.counter
        → get_elem? items k ≡ some item
        → s.cells k ≡ some (decode item)
    ended-Filled ws s k item valid done below there =
        elim (valid.taken k below (get_elem?-lt items k item there)) [
          | inl (r, e) ↦
              let (found, at, same) = valid.results k r e in
              let one : found ≡ item = some-injective _ _ (sym at ∙ there) in
              e ∙ ap some (same ∙ ap decode one)
          | inr (w, m, held) ↦
              absurd (subst (Holds decode items k) (all_ended-ended ws w done m) held)
        ]

    finished :
        (ws : List (Worker E T R)) (s : Shared E R) (w : Worker E T R)
        → w ∈ ws
        → IsValid decode items ws s
        → all_ended ws ≡ true
        → take_cells (length items) 0 s.cells ≡ decode_all items
    finished ws s w m valid done =
        let stopped =
          ended-Stopped decode items ws s valid
            (subst (λ v. v ∈ ws) (all_ended-ended ws w done m) m) in
        take_cells_lem items 0 s.cells (λ k item there. elim (Bool-cases (ltb k s.counter)) [
          | inl e ↦ inl (
              ap s.cells (omega arith)
              ∙ ended-Filled ws s k item valid done (ltb→lt k s.counter e) there)
          | inr e ↦ elim stopped [
            | inl a ↦
                let (i, below, (x, (found, at, same))) = valid.aborted a in
                inr (i, omega (arith, below, ltb→ge k s.counter e), (found, at, (x, sym same)))
            | inr over ↦
                let inside = get_elem?-lt items k item there in
                absurd (omega (arith, inside, over, ltb→ge k s.counter e))
          ]
        ])

  spawn-mem : (n : ℕ) → 1 ≤ n → ◌∈◌ {A = Worker E T R} looking (spawn n)
  unfolding spawn
  spawn-mem zero h = absurd (omega arith)
  spawn-mem (suc n) h = inl refl

  abbrev start : List T → ℕ → List (Worker E T R) × Shared E R
  start items capacity = (spawn (max (min (length items) capacity) 1), no_cells)

  -- The state of the workers after the turns in the given order.
  abbrev after : List T → ℕ → List ℕ → List (Worker E T R) × Shared E R
  after items capacity order = turns decode items order (start items capacity)

  after-finished :
      (items : List T) (capacity : ℕ) (order : List ℕ)
      → all_ended (after items capacity order).0 ≡ true
      → take_cells (length items) 0 (after items capacity order).1.cells ≡ decode_all items
  after-finished items capacity order done =
      let workers : ℕ = max (min (length items) capacity) 1 in
      let (w, m) =
        turns_keep_some decode items order (start items capacity) looking
          (spawn-mem workers (omega arith)) in
      finished items (after items capacity order).0 (after items capacity order).1 w m
        (turns-IsValid decode items order (start items capacity)
          (spawn-IsValid decode items workers))
        done

  fan_out_indexed-done :
      (items : List T) (capacity : ℕ) (order : List ℕ)
      → all_ended (after items capacity order).0 ≡ true
      → fan_out_indexed decode items capacity order ≡ some (decode_all items)
  unfolding fan_out_indexed decode_all
  fan_out_indexed-done [] capacity order done = refl
  fan_out_indexed-done (x ∷ xs) capacity order done =
      let some_items : (length (x ∷ xs) == 0) ≡ false = ground arith in
      rw (some_items, done) (ap some (after-finished (x ∷ xs) capacity order done))

  fan_out_indexed-running :
      (items : List T) (capacity : ℕ) (order : List ℕ)
      → all_ended (after items capacity order).0 ≡ false
      → (fan_out_indexed decode items capacity order ≡ none)
        ⊎ (fan_out_indexed decode items capacity order ≡ some (decode_all items))
  unfolding fan_out_indexed decode_all
  fan_out_indexed-running [] capacity order going = inr refl
  fan_out_indexed-running (x ∷ xs) capacity order going =
      let some_items : (length (x ∷ xs) == 0) ≡ false = ground arith in
      inl (rw (some_items, going) refl)

  -- In whatever order the workers take their turns, and whatever the capacity is, there is no result
  -- yet, or it is that of decoding the items one after another: an empty cell is never reported. After
  -- any turns there are further ones that bring the result.
  pub fan_out_indexed_lem :
      (items : List T) (capacity : ℕ) (order : List ℕ)
      → ((fan_out_indexed decode items capacity order ≡ none)
          ⊎ (fan_out_indexed decode items capacity order ≡ some (decode_all items)))
        × ((more : List ℕ) × (fan_out_indexed decode items capacity (order ++ more)
              ≡ some (decode_all items)))
  fan_out_indexed_lem items capacity order =
      let (more, done) = turns_finish decode items (after items capacity order) in
      let at_end =
        ap (λ st. all_ended st.0) (turns-append decode items order more (start items capacity))
        ∙ done in
      (
        elim (Bool-cases (all_ended (after items capacity order).0)) [
          | inl e ↦ inr (fan_out_indexed-done items capacity order e)
          | inr e ↦ fan_out_indexed-running items capacity order e
        ],
        (more, fan_out_indexed-done items capacity (order ++ more) at_end),
      )
