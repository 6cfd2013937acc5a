-- ===== src/Prelude/Maps/Push.antt =====
-- What the lists of a map hold, and what a push changes.
use vidcull.Prelude.{
  ◌≡◌, refl, sym, ap, ◌∙◌, ◌⊎◌, inl, inr, Bool, true, false, List, [], ◌∷◌, ◌++◌, ◌∈◌, All, All-imp,
  All-mem, Bool-cases, mem-append_left, mem-append_right, mem_of_append, ltb, ltb→lt, ltb→ge,
  lt→ltb, ℕ, arith,
}
use mathlib.Core.Path.{subst}
use vidcull.Prelude.Maps.{push, lex_before}

-- A strict total order as a Boolean test.
pub record IsStrict {K : Type 0} (before : K → K → Bool) : Type 0 where
  pub irrefl : (a b : K) → b ≡ a → before a b ≡ true → ⊥
  pub trans : (a b c : K) → before a b ≡ true → before b c ≡ true → before a c ≡ true
  pub total : (a b : K) → before a b ≡ false → before b a ≡ false → a ≡ b

pub ltb-IsStrict : IsStrict ltb
ltb-IsStrict = record {
  irrefl = λ a b e h. omega (arith, ltb→lt a b h);
  trans = λ a b c h k. lt→ltb a c (omega (arith, ltb→lt a b h, ltb→lt b c k));
  total = λ a b h k. omega (arith, ltb→ge a b h, ltb→ge b a k);
}

module _ {K V : Type 0} where
  -- `Holds r y m`: a list under the key r has y.
  abbrev pub Holds : K → V → List (K × List V) → Type 0
  Holds r y [] = ⊥
  Holds r y ((k, l) ∷ m) = ((r ≡ k) × (y ∈ l)) ⊎ Holds r y m

  pub Holds-entry :
      (r : K) (y : V) (m : List (K × List V)) → Holds r y m → (l : List V) × ((r, l) ∈ m) × (y ∈ l)
  Holds-entry r y [] h = absurd h
  Holds-entry r y ((k, l) ∷ m) (inl (e, i)) = (l, inl (ap (λ v. (v, l)) e), i)
  Holds-entry r y ((k, l) ∷ m) (inr h) = let (l', i, j) = Holds-entry r y m h in (l', inr i, j)

  pub entry-Holds :
      (r : K) (y : V) (l : List V) (m : List (K × List V)) → (r, l) ∈ m → y ∈ l → Holds r y m
  entry-Holds r y l [] i k = absurd i
  entry-Holds r y l (x ∷ m) (inl e) k = inl (ap (λ p. p.0) e, subst (λ p. y ∈ p.1) e k)
  entry-Holds r y l (x ∷ m) (inr i) k = inr (entry-Holds r y l m i k)

module _ {K V : Type 0} (before : K → K → Bool) where
  -- The keys ascend, and no list is empty.
  abbrev pub IsMap : List (K × List V) → Type 0
  IsMap [] = Unit
  IsMap ((k, l) ∷ m) = ((y : V) × (y ∈ l)) × All (λ e. before k e.0 ≡ true) m × IsMap m

module _ {K V : Type 0} (before : K → K → Bool) (o : IsStrict before) where
  pub push-Holds_keep :
      (r : K) (y : V) (k : K) (x : V) (m : List (K × List V))
      → Holds r y m
      → Holds r y (push before k x m)
  push-Holds_keep r y k x [] h = absurd h
  push-Holds_keep r y k x ((k', l) ∷ m) h = elim (Bool-cases (before k k')) [
    | inl e ↦ rw e (inr h)
    | inr e ↦ elim (Bool-cases (before k' k)) [
      | inl e' ↦ rw (e, e') (elim h [ inl i ↦ inl i | inr t ↦ inr (push-Holds_keep r y k x m t) ])
      | inr e' ↦
          rw (e, e')
            (elim h [ inl i ↦ inl (i.0, mem-append_left l (x ∷ []) y i.1) | inr t ↦ inr t ])
    ]
  ]

  pub push-Holds_self : (k : K) (x : V) (m : List (K × List V)) → Holds k x (push before k x m)
  push-Holds_self k x [] = inl (refl, inl refl)
  push-Holds_self k x ((k', l) ∷ m) = elim (Bool-cases (before k k')) [
    | inl e ↦ rw e (inl (refl, inl refl))
    | inr e ↦ elim (Bool-cases (before k' k)) [
      | inl e' ↦ rw (e, e') (inr (push-Holds_self k x m))
      | inr e' ↦
          let same : k ≡ k' = o.total k k' e e' in
          rw (e, e') (inl (same, mem-append_right l (x ∷ []) x (inl refl)))
    ]
  ]

  -- Nothing else is there after a push.
  pub push-Holds_of :
      (r : K) (y : V) (k : K) (x : V) (m : List (K × List V))
      → Holds r y (push before k x m)
      → ((r ≡ k) × (y ≡ x)) ⊎ Holds r y m
  push-Holds_of r y k x [] (inl (e, inl i)) = inl (e, i)
  push-Holds_of r y k x [] (inl (e, inr i)) = absurd i
  push-Holds_of r y k x [] (inr h) = absurd h
  push-Holds_of r y k x ((k', l) ∷ m) h = elim (Bool-cases (before k k')) [
    | inl e ↦
        let h' : ((r ≡ k) × (y ∈ (x ∷ []))) ⊎ Holds r y ((k', l) ∷ m) = rw e at h in
        elim h' [ inl p ↦ inl (p.0, single y x p.1) | inr t ↦ inr t ]
    | inr e ↦ elim (Bool-cases (before k' k)) [
      | inl e' ↦
          let h' : ((r ≡ k') × (y ∈ l)) ⊎ Holds r y (push before k x m) = rw (e, e') at h in
          elim h' [
            | inl p ↦ inr (inl p)
            | inr t ↦ elim (push-Holds_of r y k x m t) [ inl q ↦ inl q | inr q ↦ inr (inr q) ]
          ]
      | inr e' ↦
          let h' : ((r ≡ k') × (y ∈ (l ++ (x ∷ [])))) ⊎ Holds r y m = rw (e, e') at h in
          let same : k' ≡ k = o.total k' k e' e in
          elim h' [
            | inl p ↦ elim (mem_of_append l (x ∷ []) y p.1) [
              | inl i ↦ inr (inl (p.0, i))
              | inr i ↦ inl (p.0 ∙ same, single y x i)
            ]
            | inr t ↦ inr (inr t)
          ]
    ]
  ]
    where
      single : (y x : V) → y ∈ (x ∷ []) → y ≡ x
      single y x (inl e) = e
      single y x (inr i) = absurd i

  push-above :
      (b k : K) (x : V) (m : List (K × List V))
      → before b k ≡ true
      → All (λ e. before b e.0 ≡ true) m
      → All (λ e. before b e.0 ≡ true) (push before k x m)
  push-above b k x [] low h = (low, tt)
  push-above b k x ((k', l) ∷ m) low h = elim (Bool-cases (before k k')) [
    | inl e ↦ rw e (low, h)
    | inr e ↦ elim (Bool-cases (before k' k)) [
      | inl e' ↦ rw (e, e') (h.0, push-above b k x m low h.1)
      | inr e' ↦ rw (e, e') h
    ]
  ]

  pub push-IsMap :
      (k : K) (x : V) (m : List (K × List V)) → IsMap before m → IsMap before (push before k x m)
  push-IsMap k x [] w = ((x, inl refl), tt, tt)
  push-IsMap k x ((k', l) ∷ m) (some_y, above, w) = elim (Bool-cases (before k k')) [
    | inl e ↦
        let low = e in
        rw e (
          (x, inl refl),
          (low, All-imp m (λ (p : K × List V) h. o.trans k k' p.0 low h) above),
          (some_y, above, w),
        )
    | inr e ↦ elim (Bool-cases (before k' k)) [
      | inl e' ↦ rw (e, e') (some_y, push-above k' k x m e' above, push-IsMap k x m w)
      | inr e' ↦ rw (e, e') ((some_y.0, mem-append_left l (x ∷ []) some_y.0 some_y.1), above, w)
    ]
  ]

  -- One key has one list.
  pub IsMap-unique :
      (r : K) (y : V) (l : List V) (m : List (K × List V))
      → IsMap before m
      → (r, l) ∈ m
      → Holds r y m
      → y ∈ l
  IsMap-unique r y l [] w i h = absurd h
  IsMap-unique r y l ((k, l') ∷ m) (s, above, w) (inl e) (inl (e', j)) =
      subst (λ p. y ∈ p.1) (sym e) j
  IsMap-unique r y l ((k, l') ∷ m) (s, above, w) (inl e) (inr h) =
      let (l'', i, j) = Holds-entry r y m h in
      let low = All-mem (λ p. before k p.0 ≡ true) m (r, l'') above i in
      absurd (o.irrefl k r (ap (λ p. p.0) e) low)
  IsMap-unique r y l ((k, l') ∷ m) (s, above, w) (inr i) (inl (e', j)) =
      absurd (o.irrefl k r e' (All-mem (λ p. before k p.0 ≡ true) m (r, l) above i))
  IsMap-unique r y l ((k, l') ∷ m) (s, above, w) (inr i) (inr h) = IsMap-unique r y l m w i h

  pub IsMap-entry :
      (r : K) (l : List V) (m : List (K × List V)) → IsMap before m → (r, l) ∈ m → (y : V) × (y ∈ l)
  IsMap-entry r l [] w i = absurd i
  IsMap-entry r l ((k, l') ∷ m) (s, above, w) (inl e) = subst (λ p. (y : V) × (y ∈ p.1)) (sym e) s
  IsMap-entry r l ((k, l') ∷ m) (s, above, w) (inr i) = IsMap-entry r l m w i

clash : (b : Bool) → b ≡ false → b ≡ true → ⊥
clash b e h = cc

lex_before_self : (a : List ℕ) → lex_before a a ≡ false
lex_before_self [] = refl
lex_before_self (x ∷ xs) = ground (arith, lex_before_self xs)

lex_before_trans :
    (a b c : List ℕ) → lex_before a b ≡ true → lex_before b c ≡ true → lex_before a c ≡ true
lex_before_trans [] [] [] h k = h
lex_before_trans [] (y ∷ ys) [] h k = k
lex_before_trans [] b (z ∷ zs) h k = refl
lex_before_trans (x ∷ xs) [] c h k = cc
lex_before_trans (x ∷ xs) (y ∷ ys) [] h k = k
lex_before_trans (x ∷ xs) (y ∷ ys) (z ∷ zs) h k = ground (arith, lex_before_trans xs ys zs)

lex_before_total : (a b : List ℕ) → lex_before a b ≡ false → lex_before b a ≡ false → a ≡ b
lex_before_total [] [] h k = refl
lex_before_total [] (y ∷ ys) h k = cc
lex_before_total (x ∷ xs) [] h k = cc
lex_before_total (x ∷ xs) (y ∷ ys) h k = ground (arith, lex_before_total xs ys)

-- The order of byte arrays and vectors.
pub lex_before-IsStrict : IsStrict lex_before
lex_before-IsStrict = record {
  irrefl = λ a b e h.
      absurd (clash (lex_before a a) (lex_before_self a) (subst (λ v. lex_before a v ≡ true) e h));
  trans = lex_before_trans;
  total = lex_before_total;
}
