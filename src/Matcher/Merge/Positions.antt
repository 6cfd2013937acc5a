-- ===== src/Matcher/Merge/Positions.antt =====
-- The positions of the ids in `merge_transitive` of crates/vidcull-matcher/src/cluster.rs, and the
-- pairs of positions that it joins.
use vidcull.Prelude.{
  ℕ, suc, ◌<◌, ◌≡◌, refl, sym, ap, ◌∙◌, ◌⊎◌, inl, inr, Option, none, some, List, [], ◌∷◌, ◌++◌, ◌∈◌,
  ◌==◌, length, get_elem?, All, All-append, All-of_mem, arith, Bool-cases, ==→≡, ==→≢,
  mem-append_left, mem-append_right, mem_of_append,
}
use mathlib.Core.Option.{some-injective}
use vidcull.Core.{FileId}
use vidcull.Matcher.DisjointSet.{and_then}
use vidcull.Matcher.DisjointSet.Closure.{InRange}
use vidcull.Matcher.Trust.{GroupMembership}
use vidcull.Matcher.Merge.{index_of, pairs_with, group_pairs, all_pairs}
use vidcull.Matcher.Merge.Ids.{Member, first, later}

-- `At ids x i`: the position of x is i.
abbrev pub At : List FileId → FileId → ℕ → Type 0
At ids x i = index_of ids x ≡ some i

pub mem-At : (ids : List FileId) (x : FileId) → x ∈ ids → (i : ℕ) × At ids x i × (i < length ids)
unfolding index_of
mem-At [] x m = absurd m
mem-At (y ∷ ids) x m = elim (Bool-cases (y == x)) [
  | inl e ↦ (0, rw e refl, omega arith)
  | inr e ↦ elim m [
    | inl h ↦ absurd (==→≢ y x e (sym h))
    | inr t ↦ let (i, at, low) = mem-At ids x t in (suc i, rw (e, at) refl, omega (arith, low))
  ]
]

suc_of :
    (o : Option ℕ) (i : ℕ)
    → and_then o (λ j. some (suc j)) ≡ some i
    → (j : ℕ) × (o ≡ some j) × (i ≡ suc j)
suc_of none i h = cc
suc_of (some j) i h = (j, refl, sym (some-injective _ _ h))

pub At-get_elem? : (ids : List FileId) (x : FileId) (i : ℕ) → At ids x i → get_elem? ids i ≡ some x
unfolding index_of
At-get_elem? [] x i h = cc
At-get_elem? (y ∷ ids) x i h = elim (Bool-cases (y == x)) [
  | inl e ↦
      let h' : ◌≡◌ {A = Option ℕ} (some 0) (some i) = rw e at h in
      let zero_at : 0 ≡ i = some-injective _ _ h' in rw (← zero_at, ==→≡ y x e) refl
  | inr e ↦
      let h' : and_then (index_of ids x) (λ j. some (suc j)) ≡ some i = rw e at h in
      let (j, at, next) = suc_of (index_of ids x) i h' in rw next (At-get_elem? ids x j at)
]

pub At-injective : (ids : List FileId) (x y : FileId) (i : ℕ) → At ids x i → At ids y i → x ≡ y
At-injective ids x y i h k =
    some-injective _ _ (sym (At-get_elem? ids x i h) ∙ At-get_elem? ids y i k)

-- What the pairs of one group are: all in range, between members, and enough to link any member
-- with the first.
record GroupPairs (ids members : List FileId) (pairs : List (ℕ × ℕ)) : Type 0 where
  in_range : All (InRange (length ids)) pairs
  sound :
      (a b : ℕ)
      → (a, b) ∈ pairs
      → (x : FileId) × (y : FileId) × (x ∈ members) × (y ∈ members) × At ids x a × At ids y b
  linked :
      (x y : FileId) (a b : ℕ)
      → x ∈ members
      → y ∈ members
      → At ids x a
      → At ids y b
      → (c : ℕ) × ((a ≡ c) ⊎ ((c, a) ∈ pairs)) × ((b ≡ c) ⊎ ((c, b) ∈ pairs))

pairs_with_lem :
    (ids : List FileId) (i : ℕ) (rest : List FileId)
    → i < length ids
    → All (λ x. x ∈ ids) rest
    → (pairs : List (ℕ × ℕ)) × (pairs_with ids i rest ≡ some pairs)
      × All (InRange (length ids)) pairs
      × ((a b : ℕ) → (a, b) ∈ pairs → (a ≡ i) × (y : FileId) × (y ∈ rest) × At ids y b)
      × ((y : FileId) (b : ℕ) → y ∈ rest → At ids y b → (i, b) ∈ pairs)
unfolding pairs_with
pairs_with_lem ids i [] low h = ([], refl, tt, λ a b m. absurd m, λ y b m at. absurd m)
pairs_with_lem ids i (m ∷ rest) low h =
    let (j, at, low_j) = mem-At ids m h.0 in
    let (pairs, ran, range, sound, complete) = pairs_with_lem ids i rest low h.1 in
    (
      (i, j) ∷ pairs,
      rw (at, ran) refl,
      ((low, low_j), range),
      λ a b k. elim k [
        | inl e ↦ (ap (λ p. p.0) e, m, inl refl, at ∙ ap some (sym (ap (λ p. p.1) e)))
        | inr t ↦ let (e, y, in_rest, at_y) = sound a b t in (e, y, inr in_rest, at_y)
      ],
      λ y b k at_y. elim k [
        | inl e ↦ inl (ap (λ v. (i, v)) (some-injective _ _ (sym at_y ∙ ap (index_of ids) e ∙ at)))
        | inr t ↦ inr (complete y b t at_y)
      ],
    )

-- One of the groups has both x and y.
pub data Shared (x y : FileId) : List GroupMembership → Type 0 where
  in_first :
      {g : GroupMembership} {gs : List GroupMembership}
      → x ∈ g.members
      → y ∈ g.members
      → Shared x y (g ∷ gs)
  in_later : {g : GroupMembership} {gs : List GroupMembership} → Shared x y gs → Shared x y (g ∷ gs)

same_position :
    (ids : List FileId) (x y : FileId) (a b : ℕ) → x ≡ y → At ids x a → At ids y b → a ≡ b
same_position ids x y a b e h k = some-injective _ _ (sym h ∙ ap (index_of ids) e ∙ k)

group_pairs-GroupPairs :
    (ids members : List FileId)
    → All (λ x. x ∈ ids) members
    → (pairs : List (ℕ × ℕ)) × (group_pairs ids members ≡ some pairs) × GroupPairs ids members pairs
unfolding group_pairs
group_pairs-GroupPairs ids [] h = (
  [],
  refl,
  record { in_range = tt; sound = λ a b m. absurd m; linked = λ x y a b m n at at'. absurd m },
)
group_pairs-GroupPairs ids (f ∷ []) h = (
  [],
  refl,
  record {
    in_range = tt;
    sound = λ a b m. absurd m;
    linked = λ x y a b m n at at'.
        (a, inl refl, inl (same_position ids y x b a (only n ∙ sym (only m)) at' at));
  },
)
  where
    only : {z : FileId} → z ∈ (f ∷ []) → z ≡ f
    only (inl e) = e
    only (inr t) = absurd t
group_pairs-GroupPairs ids (f ∷ s ∷ rest) h =
    let (i, at_f, low) = mem-At ids f h.0 in
    let (pairs, ran, range, sound, complete) = pairs_with_lem ids i (s ∷ rest) low h.1 in
    let reach : (x : FileId) (a : ℕ)
        → x ∈ (f ∷ s ∷ rest)
        → At ids x a
        → (a ≡ i) ⊎ ((i, a) ∈ pairs) =
      λ x a m at. elim m [
        | inl e ↦ inl (same_position ids x f a i e at at_f)
        | inr t ↦ inr (complete x a t at)
      ] in
    (
      pairs,
      rw at_f ran,
      record {
        in_range = range;
        sound = λ a b m.
            let (e, y, in_rest, at_y) = sound a b m in
            (f, y, inl refl, inr in_rest, at_f ∙ ap some (sym e), at_y);
        linked = λ x y a b m n at at'. (i, reach x a m at, reach y b n at');
      },
    )

-- What the pairs of all groups are.
pub record AllPairs (ids : List FileId) (gs : List GroupMembership) (pairs : List (ℕ × ℕ))
    : Type 0 where
  pub in_range : All (InRange (length ids)) pairs
  pub sound :
      (a b : ℕ)
      → (a, b) ∈ pairs
      → (x : FileId) × (y : FileId) × Shared x y gs × At ids x a × At ids y b
  pub linked :
      (x y : FileId) (a b : ℕ)
      → Shared x y gs
      → At ids x a
      → At ids y b
      → (c : ℕ) × ((a ≡ c) ⊎ ((c, a) ∈ pairs)) × ((b ≡ c) ⊎ ((c, b) ∈ pairs))

pub all_pairs-AllPairs :
    (ids : List FileId) (gs : List GroupMembership)
    → ((x : FileId) → Member x gs → x ∈ ids)
    → (pairs : List (ℕ × ℕ)) × (all_pairs ids gs ≡ some pairs) × AllPairs ids gs pairs
unfolding all_pairs
all_pairs-AllPairs ids [] h = (
  [],
  refl,
  record { in_range = tt; sound = λ a b m. absurd m; linked = λ x y a b s at at'. elim s [ ] },
)
all_pairs-AllPairs ids (g ∷ gs) h =
    let (here, ran, p) =
      group_pairs-GroupPairs ids g.members (All-of_mem g.members (λ x m. h x (first m))) in
    let (more, ran', q) = all_pairs-AllPairs ids gs (λ x m. h x (later m)) in
    (
      here ++ more,
      rw (ran, ran') refl,
      record {
        in_range = All-append _ here more p.in_range q.in_range;
        sound = λ a b m. elim (mem_of_append here more (a, b) m) [
          | inl k ↦ let (x, y, mx, my, ax, ay) = p.sound a b k in (x, y, in_first mx my, ax, ay)
          | inr k ↦ let (x, y, s, ax, ay) = q.sound a b k in (x, y, in_later s, ax, ay)
        ];
        linked = λ x y a b s at at'. elim s [
          | in_first mx my ↦
              let (c, l, r) = p.linked x y a b mx my at at' in
              (c, left here more l, left here more r)
          | in_later t ↦
              let (c, l, r) = q.linked x y a b t at at' in (c, right here more l, right here more r)
        ];
      },
    )
  where
    left :
        {a c : ℕ} (ps qs : List (ℕ × ℕ)) → (a ≡ c) ⊎ ((c, a) ∈ ps) → (a ≡ c) ⊎ ((c, a) ∈ (ps ++ qs))
    left ps qs (inl e) = inl e
    left ps qs (inr m) = inr (mem-append_left ps qs _ m)

    right :
        {a c : ℕ} (ps qs : List (ℕ × ℕ)) → (a ≡ c) ⊎ ((c, a) ∈ qs) → (a ≡ c) ⊎ ((c, a) ∈ (ps ++ qs))
    right ps qs (inl e) = inl e
    right ps qs (inr m) = inr (mem-append_right ps qs _ m)
