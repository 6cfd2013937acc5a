-- ===== src/Parser/FanOut.antt =====
-- `fan_out_indexed` of crates/vidcull-parser/src/fallback/concurrency.rs. A turn of a worker goes from one
-- access to what the workers share to the next; waiting for a permit is a turn that does not come yet.
pub mod Workers
pub mod Turns
pub mod Finish
pub mod Sequential
use package.vidcull.Prelude.{
  ℕ, zero, suc, ◌+◌, max, min, Bool, true, false, ◌&&◌, ◌||◌, Option, none, some, List, [], ◌∷◌,
  length, get_elem?, ◌==◌, if◌then◌else◌,
}
use package.vidcull.Prelude.Result.{Result, ok, err, ◌>>=◌}

-- An error of the function that decodes, and the error for a cell that is empty.
pub data FanOutError (E : Type 0) : Type 0 where
  of_decode : E → FanOutError E
  cell_not_filled : FanOutError E

-- At the head of the loop, behind the look at `abort`, with an item, with a result, and at the end.
pub data Worker (E T R : Type 0) : Type 0 where
  looking : Worker E T R
  claiming : Worker E T R
  decoding : ℕ → T → Worker E T R
  storing : ℕ → Result E R → Worker E T R
  ended : Worker E T R

pub record Shared (E R : Type 0) : Type 0 where
  pub counter : ℕ
  pub abort : Bool
  pub cells : ℕ → Option (Result E R)

abbrev pub is_err : {E R : Type 0} → Result E R → Bool
is_err (ok v) = false
is_err (err e) = true

abbrev pub is_ended : {E T R : Type 0} → Worker E T R → Bool
is_ended ended = true
is_ended _ = false

unfoldable pub all_ended : {E T R : Type 0} → List (Worker E T R) → Bool
all_ended [] = true
all_ended (w ∷ ws) = is_ended w && all_ended ws

unfoldable pub spawn : {E T R : Type 0} → ℕ → List (Worker E T R)
spawn zero = []
spawn (suc n) = looking ∷ spawn n

abbrev pub no_cells : {E R : Type 0} → Shared E R
no_cells = record { counter = 0; abort = false; cells = λ i. none }

-- The loop over the cells, n of them from `i` on.
unfoldable pub take_cells :
    {E R : Type 0} → ℕ → ℕ → (ℕ → Option (Result E R)) → Result (FanOutError E) (List R)
take_cells zero i cells = ok []
take_cells (suc n) i cells =
    let rest = take_cells n (i + 1) cells in
    elim (cells i) [
      | none ↦ err cell_not_filled
      | some (ok v) ↦ rest >>= λ vs. ok (v ∷ vs)
      | some (err e) ↦ err (of_decode e)
    ]

module _ {E T R : Type 0} (decode : T → Result E R) (items : List T) where
  -- No item at the index is `idx >= n`.
  unfoldable pub turn : Worker E T R → Shared E R → Worker E T R × Shared E R
  turn looking s = if s.abort then (ended, s) else (claiming, s)
  turn claiming s = (
    elim (get_elem? items s.counter) [ none ↦ ended | some item ↦ decoding s.counter item ],
    record s { counter = s.counter + 1 },
  )
  turn (decoding i item) s =
      (storing i (decode item), record s { abort = is_err (decode item) || s.abort })
  turn (storing i r) s = (looking, record s { cells = λ j. if j == i then some r else s.cells j })
  turn ended s = (ended, s)

  -- A turn of the k-th worker.
  unfoldable pub turn_at : ℕ → List (Worker E T R) → Shared E R → List (Worker E T R) × Shared E R
  unfolding turn
  turn_at k [] s = ([], s)
  turn_at zero (w ∷ ws) s = ((turn w s).0 ∷ ws, (turn w s).1)
  turn_at (suc k) (w ∷ ws) s = (w ∷ (turn_at k ws s).0, (turn_at k ws s).1)

  unfoldable pub turns :
      List ℕ → List (Worker E T R) × Shared E R → List (Worker E T R) × Shared E R
  unfolding turn_at
  turns [] st = st
  turns (k ∷ ks) st = turns ks (turn_at k st.0 st.1)

  -- The result, with the turns in the order that the list gives; none while a worker has not ended.
  unfoldable pub fan_out_indexed : ℕ → List ℕ → Option (Result (FanOutError E) (List R))
  unfolding spawn turns all_ended take_cells
  fan_out_indexed capacity order =
      let n = length items in
      let (ws, s) = turns order (spawn (max (min n capacity) 1), no_cells) in
      if n == 0 then some (ok []) else if all_ended ws then some (take_cells n 0 s.cells) else none
