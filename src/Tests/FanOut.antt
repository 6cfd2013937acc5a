-- ===== src/Tests/FanOut.antt =====
-- Two workers on three items, of which the second has an error.
use vidcull.Prelude.{ℕ, ◌≡◌, refl, ◌⊎◌, none, some, List, [], ◌∷◌, ◌++◌, ◌==◌, if◌then◌else◌}
use vidcull.Prelude.Result.{Result, ok, err}
use vidcull.Parser.FanOut.{of_decode, fan_out_indexed}
use vidcull.Parser.FanOut.Sequential.{decode_all, fan_out_indexed_lem}

abbrev decode : ℕ → Result ℕ ℕ
decode n = if n == 7 then err 4 else ok n

abbrev items : List ℕ
items = 5 ∷ 7 ∷ 9 ∷ []

-- The second worker takes the item with the error and is done before the first stores anything.
abbrev order : List ℕ
order = 0 ∷ 1 ∷ 0 ∷ 1 ∷ 1 ∷ 1 ∷ 1 ∷ []

error_of_the_second_item :
    fan_out_indexed decode items 2 (order ++ (0 ∷ 0 ∷ 0 ∷ [])) ≡ some (err (of_decode 4))
unfolding fan_out_indexed
error_of_the_second_item = refl

fan_out_indexed_lem_example :
    ((fan_out_indexed decode items 2 order ≡ none)
      ⊎ (fan_out_indexed decode items 2 order ≡ some (decode_all decode items)))
    × ((more : List ℕ) × (fan_out_indexed decode items 2 (order ++ more)
          ≡ some (decode_all decode items)))
fan_out_indexed_lem_example = fan_out_indexed_lem decode items 2 order
