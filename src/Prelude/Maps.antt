-- ===== src/Prelude/Maps.antt =====
-- Ordered maps and sets as association lists, sorted by the key, and the `dedup` of a sorted list.
pub mod Push
use package.vidcull.Prelude.{
  ℕ, Bool, true, false, ◌&&◌, ◌||◌, Option, none, some, List, [], ◌∷◌, ◌++◌, ltb, ◌==◌,
  if◌then◌else◌,
}

module _ {K V : Type 0} (before : K → K → Bool) where
  -- `*map.entry(key).or_insert(…)` and its kin: `f` makes the new value of the old one, if any.
  abbrev pub upsert : K → (Option V → V) → List (K × V) → List (K × V)
  upsert key f [] = (key, f none) ∷ []
  upsert key f ((k, v) ∷ map) =
      let rest = upsert key f map in
      if before key k
      then (key, f none) ∷ (k, v) ∷ map
      else if before k key
      then (k, v) ∷ rest
      else (k, f (some v)) ∷ map

module _ {V : Type 0} where
  abbrev pub lookup : ℕ → List (ℕ × V) → Option V
  lookup key [] = none
  lookup key ((k, v) ∷ map) = if key == k then some v else lookup key map

  abbrev pub or_default : V → Option V → V
  or_default d none = d
  or_default d (some v) = v

-- `BTreeSet::insert`.
abbrev pub insert_id : ℕ → List ℕ → List ℕ
insert_id x [] = x ∷ []
insert_id x (y ∷ set) =
    let rest = insert_id x set in
    if ltb x y then x ∷ y ∷ set else if x == y then y ∷ set else y ∷ rest

abbrev pub extend : List ℕ → List ℕ → List ℕ
extend set [] = set
extend set (x ∷ xs) = extend (insert_id x set) xs

abbrev pub skip_same : ℕ → List ℕ → List ℕ
skip_same x [] = []
skip_same x (y ∷ ys) = let rest = skip_same y ys in if x == y then rest else y ∷ rest

abbrev pub dedup : List ℕ → List ℕ
dedup [] = []
dedup (x ∷ xs) = x ∷ skip_same x xs

-- The lexicographic order of two sequences.
abbrev pub lex_before : List ℕ → List ℕ → Bool
lex_before [] [] = false
lex_before [] (y ∷ ys) = true
lex_before (x ∷ xs) [] = false
lex_before (x ∷ xs) (y ∷ ys) = ltb x y || (x == y && lex_before xs ys)

-- `.entry(key).or_default().push(x)`.
abbrev pub push : {K V : Type 0} → (K → K → Bool) → K → V → List (K × List V) → List (K × List V)
push before key x map = upsert before key (λ old. or_default [] old ++ (x ∷ [])) map
