-- ===== src/Matcher/Ranking/Best.antt =====
-- `select_best` of crates/vidcull-matcher/src/ranking.rs.
use Prim.Native.Nat.{Ordering}
use Prim.Native.Nat.Ordering.{lt, eq, gt}
use vidcull.Prelude.{
  ◌≡◌, ◌↔◌, Bool-cases, ltb→lt, ltb→ge, refl, sym, ap, ◌∙◌, ◌⊎◌, inl, inr, none, some, List, [],
  ◌∷◌, ◌∈◌, arith, ltb,
}
use vidcull.Matcher.Ranking.{cmp, fields, Candidate, pick_by, pick, reduce, select_best}
use vidcull.Matcher.Ranking.Order.{
  Wins, Wins-refl, Wins-trans, Wins-antisym, gt_of_lt, eq_of_lex, lex_refl,
}

pick_by-Wins :
    (o : Ordering) (best cur : Candidate)
    → cmp cur.1 best.1 ≡ o
    → Wins (pick_by o best cur) best × Wins (pick_by o best cur) cur
unfolding pick_by
pick_by-Wins gt best cur e = (inl e, Wins-refl cur)
pick_by-Wins lt best cur e = (Wins-refl best, inl (gt_of_lt (fields cur.1) (fields best.1) e))
pick_by-Wins eq best cur e =
    let same = eq_of_lex (fields cur.1) (fields best.1) e in
    let back : cmp best.1 cur.1 ≡ eq = rw same (lex_refl (fields best.1)) in
    elim (Bool-cases (ltb cur.0 best.0)) [
      | inl less ↦ rw less (inr (e, omega (arith, ltb→lt cur.0 best.0 less)), Wins-refl cur)
      | inr more ↦ rw more (Wins-refl best, inr (back, ltb→ge cur.0 best.0 more))
    ]

pick-Wins : (best cur : Candidate) → Wins (pick best cur) best × Wins (pick best cur) cur
unfolding pick
pick-Wins best cur = pick_by-Wins (cmp cur.1 best.1) best cur refl

pick_by-mem :
    (o : Ordering) (best cur : Candidate) → (pick_by o best cur ≡ best) ⊎ (pick_by o best cur ≡ cur)
unfolding pick_by
pick_by-mem gt best cur = inr refl
pick_by-mem lt best cur = inl refl
pick_by-mem eq best cur = elim (Bool-cases (ltb cur.0 best.0)) [
  | inl h ↦ inr (rw h)
  | inr h ↦ inl (rw h)
]

pick-mem : (best cur : Candidate) → (pick best cur ≡ best) ⊎ (pick best cur ≡ cur)
unfolding pick
pick-mem best cur = pick_by-mem (cmp cur.1 best.1) best cur

-- `w` is one of the candidates, and at least as good as each.
pub record IsBest (w : Candidate) (cs : List Candidate) : Type 0 where
  pub among : w ∈ cs
  pub wins : (c : Candidate) → c ∈ cs → Wins w c

reduce-Wins : (best : Candidate) (rest : List Candidate) → IsBest (reduce best rest) (best ∷ rest)
unfolding reduce
reduce-Wins best [] = record {
  among = inl refl;
  wins = λ c m. elim m [ inl e ↦ rw e (Wins-refl best) | inr no_more ↦ absurd no_more ];
}
reduce-Wins best (cur ∷ rest) =
    let ih = reduce-Wins (pick best cur) rest in
    let (over_best, over_cur) = pick-Wins best cur in
    let first : Wins (reduce (pick best cur) rest) (pick best cur) =
      ih.wins (pick best cur) (inl refl) in
    record {
      among = elim ih.among [
        | inl e ↦ elim (pick-mem best cur) [ inl p ↦ inl (e ∙ p) | inr p ↦ inr (inl (e ∙ p)) ]
        | inr m ↦ inr (inr m)
      ];
      wins = λ c m. elim m [
        | inl e ↦ rw e (Wins-trans _ (pick best cur) best first over_best)
        | inr (inl e) ↦ rw e (Wins-trans _ (pick best cur) cur first over_cur)
        | inr (inr t) ↦ ih.wins c (inr t)
      ];
    }

-- The choice: none for no candidates; else the id of a candidate that no other candidate beats,
-- by a higher score or by an equal score and a smaller id.
pub select_best-IsBest :
    (cs : List Candidate)
    → ((cs ≡ []) × (select_best cs ≡ none))
      ⊎ ((w : Candidate) × (select_best cs ≡ some w.0) × IsBest w cs)
unfolding select_best
select_best-IsBest [] = inl (refl, refl)
select_best-IsBest (first ∷ rest) = inr (reduce first rest, refl, reduce-Wins first rest)

not_empty : (c : Candidate) (cs : List Candidate) → c ∈ cs → cs ≡ [] → ⊥
not_empty c cs m e = let nowhere : c ∈ [] = rw e at m in nowhere

-- The choice depends on which candidates there are, not on their order or on repetitions.
pub select_best_order :
    (cs ds : List Candidate)
    → ((c : Candidate) → (c ∈ cs) ↔ (c ∈ ds))
    → select_best cs ≡ select_best ds
select_best_order cs ds same = elim (select_best-IsBest cs) [
  | inl (e, n) ↦ elim (select_best-IsBest ds) [
    | inl (f, m) ↦ n ∙ sym m
    | inr (v, s, b) ↦ absurd (not_empty v cs ((same v).1 b.among) e)
  ]
  | inr (w, r, a) ↦ elim (select_best-IsBest ds) [
    | inl (f, m) ↦ absurd (not_empty w ds ((same w).0 a.among) f)
    | inr (v, s, b) ↦
        r
        ∙ ap some (Wins-antisym w v (a.wins v ((same v).1 b.among)) (b.wins w ((same w).0 a.among)))
        ∙ sym s
  ]
]
