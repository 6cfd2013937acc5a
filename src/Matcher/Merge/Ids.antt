-- ===== src/Matcher/Merge/Ids.antt =====
-- The ids that `merge_transitive` of crates/vidcull-matcher/src/cluster.rs collects.
use vidcull.Prelude.{ℕ, ◌≡◌, ◌∙◌, ◌⊎◌, inl, inr, List, [], ◌∷◌, ◌∈◌, ◌==◌, ltb, Bool-cases, ==→≡}
use vidcull.Prelude.Maps.{insert_id, extend}
use vidcull.Core.{FileId}
use vidcull.Matcher.Trust.{GroupMembership}
use vidcull.Matcher.Merge.{id_set}

pub mem-insert_id : (x y : ℕ) (s : List ℕ) → (y ≡ x) ⊎ (y ∈ s) → y ∈ insert_id x s
mem-insert_id x y [] m = m
mem-insert_id x y (z ∷ s) m = elim (Bool-cases (ltb x z)) [
  | inl e ↦ rw e m
  | inr e ↦ elim (Bool-cases (x == z)) [
    | inl k ↦ rw (e, k) (elim m [ inl h ↦ inl (h ∙ ==→≡ x z k) | inr t ↦ t ])
    | inr k ↦
        rw (e, k)
          (elim m [
            | inl h ↦ inr (mem-insert_id x y s (inl h))
            | inr (inl h) ↦ inl h
            | inr (inr t) ↦ inr (mem-insert_id x y s (inr t))
          ])
  ]
]

mem-extend : (y : ℕ) (s xs : List ℕ) → (y ∈ s) ⊎ (y ∈ xs) → y ∈ extend s xs
mem-extend y s [] (inl m) = m
mem-extend y s [] (inr m) = absurd m
mem-extend y s (x ∷ xs) (inl m) =
    mem-extend y (insert_id x s) xs (inl (mem-insert_id x y s (inr m)))
mem-extend y s (x ∷ xs) (inr (inl e)) =
    mem-extend y (insert_id x s) xs (inl (mem-insert_id x y s (inl e)))
mem-extend y s (x ∷ xs) (inr (inr m)) = mem-extend y (insert_id x s) xs (inr m)

pub mem_of_insert_id : (x y : ℕ) (s : List ℕ) → y ∈ insert_id x s → (y ≡ x) ⊎ (y ∈ s)
mem_of_insert_id x y [] m = m
mem_of_insert_id x y (z ∷ s) m = elim (Bool-cases (ltb x z)) [
  | inl e ↦ rw e at m
  | inr e ↦ elim (Bool-cases (x == z)) [
    | inl k ↦ inr (rw (e, k) at m)
    | inr k ↦
        let m' : (y ≡ z) ⊎ (y ∈ insert_id x s) = rw (e, k) at m in
        elim m' [
          | inl h ↦ inr (inl h)
          | inr t ↦ elim (mem_of_insert_id x y s t) [ inl h ↦ inl h | inr t' ↦ inr (inr t') ]
        ]
  ]
]

mem_of_extend : (y : ℕ) (s xs : List ℕ) → y ∈ extend s xs → (y ∈ s) ⊎ (y ∈ xs)
mem_of_extend y s [] m = inl m
mem_of_extend y s (x ∷ xs) m = elim (mem_of_extend y (insert_id x s) xs m) [
  | inr t ↦ inr (inr t)
  | inl t ↦ elim (mem_of_insert_id x y s t) [ inl e ↦ inr (inl e) | inr k ↦ inl k ]
]

-- `x` is a member of one of the groups.
pub data Member (x : FileId) : List GroupMembership → Type 0 where
  first : {g : GroupMembership} {gs : List GroupMembership} → x ∈ g.members → Member x (g ∷ gs)
  later : {g : GroupMembership} {gs : List GroupMembership} → Member x gs → Member x (g ∷ gs)

pub mem-id_set :
    (x : FileId) (s : List FileId) (gs : List GroupMembership)
    → (x ∈ s) ⊎ Member x gs
    → x ∈ id_set s gs
unfolding id_set
mem-id_set x s [] (inl m) = m
mem-id_set x s [] (inr m) = elim m [ ]
mem-id_set x s (g ∷ gs) (inl m) =
    mem-id_set x (extend s g.members) gs (inl (mem-extend x s g.members (inl m)))
mem-id_set x s (g ∷ gs) (inr (first m)) =
    mem-id_set x (extend s g.members) gs (inl (mem-extend x s g.members (inr m)))
mem-id_set x s (g ∷ gs) (inr (later m)) = mem-id_set x (extend s g.members) gs (inr m)

pub mem_of_id_set :
    (x : FileId) (s : List FileId) (gs : List GroupMembership)
    → x ∈ id_set s gs
    → (x ∈ s) ⊎ Member x gs
unfolding id_set
mem_of_id_set x s [] m = inl m
mem_of_id_set x s (g ∷ gs) m = elim (mem_of_id_set x (extend s g.members) gs m) [
  | inr t ↦ inr (later t)
  | inl t ↦ elim (mem_of_extend x s g.members t) [ inl k ↦ inl k | inr k ↦ inr (first k) ]
]
