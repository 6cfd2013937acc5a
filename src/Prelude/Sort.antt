-- ===== src/Prelude/Sort.antt =====
-- Insertion sort as the result of `sort_by_key` and `sort_unstable`, and `dedup`.
use vidcull.Prelude.{Bool, ◌≡◌, ◌⊎◌, inl, inr, List, [], ◌∷◌, ◌∈◌, Bool-cases, if◌then◌else◌, ◌↔◌}

module _ {ℓ} {A : Type ℓ} where
  -- `before x y`: `x` has to stand in front of `y`. Equal elements keep their order.
  unfoldable pub insert_by : (A → A → Bool) → A → List A → List A
  insert_by before a [] = a ∷ []
  insert_by before a (x ∷ xs) = if before x a then x ∷ insert_by before a xs else a ∷ x ∷ xs

  unfoldable pub sort_by : (A → A → Bool) → List A → List A
  unfolding insert_by
  sort_by before [] = []
  sort_by before (x ∷ xs) = insert_by before x (sort_by before xs)

module _ {A : Type 0} (before : A → A → Bool) where
  pub mem-insert_by : (a x : A) (xs : List A) → (a ≡ x) ⊎ (a ∈ xs) → a ∈ insert_by before x xs
  unfolding insert_by
  mem-insert_by a x [] m = m
  mem-insert_by a x (y ∷ ys) m = elim (Bool-cases (before y x)) [
    | inl e ↦ rw e (elim m [
      | inl h ↦ inr (mem-insert_by a x ys (inl h))
      | inr (inl h) ↦ inl h
      | inr (inr t) ↦ inr (mem-insert_by a x ys (inr t))
    ])
    | inr e ↦ rw e m
  ]

  pub mem_of_insert_by : (a x : A) (xs : List A) → a ∈ insert_by before x xs → (a ≡ x) ⊎ (a ∈ xs)
  unfolding insert_by
  mem_of_insert_by a x [] m = m
  mem_of_insert_by a x (y ∷ ys) m = elim (Bool-cases (before y x)) [
    | inl e ↦
        let m' : a ∈ y ∷ insert_by before x ys = rw e at m in
        elim m' [
          | inl h ↦ inr (inl h)
          | inr t ↦ elim (mem_of_insert_by a x ys t) [ inl h ↦ inl h | inr u ↦ inr (inr u) ]
        ]
    | inr e ↦ let m' : a ∈ x ∷ y ∷ ys = rw e at m in m'
  ]

  -- Sorting keeps the elements.
  pub mem-sort_by : (a : A) (xs : List A) → (a ∈ sort_by before xs) ↔ (a ∈ xs)
  unfolding sort_by
  mem-sort_by a [] = ((λ m. m), (λ m. m))
  mem-sort_by a (x ∷ xs) = (
    (λ m. elim (mem_of_insert_by a x (sort_by before xs) m) [
      | inl e ↦ inl e
      | inr t ↦ inr ((mem-sort_by a xs).0 t)
    ]),
    (λ m. elim m [
      | inl e ↦ mem-insert_by a x (sort_by before xs) (inl e)
      | inr t ↦ mem-insert_by a x (sort_by before xs) (inr ((mem-sort_by a xs).1 t))
    ]),
  )
