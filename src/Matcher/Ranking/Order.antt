-- ===== src/Matcher/Ranking/Order.antt =====
-- The lexicographic order of scores, and the order on candidates that `select_best` follows.
use Prim.Native.Nat.Ordering.{lt, eq, gt}
use vidcull.Prelude.{ℕ, ◌≤◌, ◌≡◌, refl, ◌⊎◌, inl, inr, List, [], ◌∷◌, arith}
use vidcull.Matcher.Ranking.{lex, cmp, fields, Candidate}

pub lex_refl : (xs : List ℕ) → lex xs xs ≡ eq
unfolding lex
lex_refl [] = refl
lex_refl (x ∷ xs) = ground (arith, lex_refl xs)

pub eq_of_lex : (xs ys : List ℕ) → lex xs ys ≡ eq → xs ≡ ys
unfolding lex
eq_of_lex [] [] h = refl
eq_of_lex [] (y ∷ ys) h = cc
eq_of_lex (x ∷ xs) [] h = cc
eq_of_lex (x ∷ xs) (y ∷ ys) h = ground (arith, eq_of_lex xs ys)

pub lt_of_gt : (xs ys : List ℕ) → lex xs ys ≡ gt → lex ys xs ≡ lt
unfolding lex
lt_of_gt [] [] h = cc
lt_of_gt [] (y ∷ ys) h = cc
lt_of_gt (x ∷ xs) [] h = refl
lt_of_gt (x ∷ xs) (y ∷ ys) h = ground (arith, lt_of_gt xs ys)

pub gt_of_lt : (xs ys : List ℕ) → lex xs ys ≡ lt → lex ys xs ≡ gt
unfolding lex
gt_of_lt [] [] h = cc
gt_of_lt [] (y ∷ ys) h = refl
gt_of_lt (x ∷ xs) [] h = cc
gt_of_lt (x ∷ xs) (y ∷ ys) h = ground (arith, gt_of_lt xs ys)

pub lex_trans : (xs ys zs : List ℕ) → lex xs ys ≡ gt → lex ys zs ≡ gt → lex xs zs ≡ gt
unfolding lex
lex_trans [] [] zs h k = cc
lex_trans [] (y ∷ ys) zs h k = cc
lex_trans (x ∷ xs) [] [] h k = cc
lex_trans (x ∷ xs) [] (z ∷ zs) h k = cc
lex_trans (x ∷ xs) (y ∷ ys) [] h k = refl
lex_trans (x ∷ xs) (y ∷ ys) (z ∷ zs) h k = ground (arith, lex_trans xs ys zs)

-- `a` is at least as good as `b`: a higher score, or the same score and no larger id.
abbrev pub Wins : Candidate → Candidate → Type 0
Wins a b = (cmp a.1 b.1 ≡ gt) ⊎ (cmp a.1 b.1 ≡ eq) × (a.0 ≤ b.0)

pub Wins-refl : (a : Candidate) → Wins a a
Wins-refl a = inr (lex_refl (fields a.1), omega arith)

pub Wins-trans : (a b c : Candidate) → Wins a b → Wins b c → Wins a c
Wins-trans a b c (inl h) (inl k) = inl (lex_trans (fields a.1) (fields b.1) (fields c.1) h k)
Wins-trans a b c (inl h) (inr (k, l)) =
    let e = eq_of_lex (fields b.1) (fields c.1) k in inl (rw (← e) h)
Wins-trans a b c (inr (h, l)) (inl k) =
    let e = eq_of_lex (fields a.1) (fields b.1) h in inl (rw e k)
Wins-trans a b c (inr (h, l)) (inr (k, m)) =
    let e = eq_of_lex (fields a.1) (fields b.1) h in inr (rw e k, omega arith)

-- Two candidates that beat one another have the same id.
pub Wins-antisym : (a b : Candidate) → Wins a b → Wins b a → a.0 ≡ b.0
Wins-antisym a b (inl h) (inl k) = absurd (ground (arith, lt_of_gt (fields a.1) (fields b.1)))
Wins-antisym a b (inl h) (inr (k, l)) = absurd (ground (arith, lt_of_gt (fields a.1) (fields b.1)))
Wins-antisym a b (inr (h, l)) (inl k) = absurd (ground (arith, lt_of_gt (fields b.1) (fields a.1)))
Wins-antisym a b (inr (h, l)) (inr (k, m)) = omega arith
