-- ===== src/Db/TaskQueue/Order.antt =====
-- The order in which crates/vidcull-db/src/repo/task_queue.rs takes tasks, and what
-- `WHERE … ORDER BY … LIMIT 1` finds.
use vidcull.Prelude.{
  ◌≡◌, refl, inl, inr, Bool, true, false, Option, none, some, List, [], ◌∷◌, ◌∈◌, arith,
  if◌then◌else◌, Bool-cases,
}
use vidcull.Db.TaskQueue.{Row, by_age, by_priority, first_where}

-- A strict order whose "not before" is transitive: ties are the same row, for distinct ids.
pub record IsOrder (before : Row → Row → Bool) : Type 0 where
  pub asym : (a b : Row) → before a b ≡ true → before b a ≡ false
  pub neg_trans : (a b c : Row) → before a b ≡ false → before b c ≡ false → before a c ≡ false

by_age_neg_trans : (a b c : Row) → by_age a b ≡ false → by_age b c ≡ false → by_age a c ≡ false
unfolding by_age
by_age_neg_trans a b c h k = ground arith

by_age_asym : (a b : Row) → by_age a b ≡ true → by_age b a ≡ false
unfolding by_age
by_age_asym a b h = ground arith

pub by_age-IsOrder : IsOrder by_age
by_age-IsOrder = record { asym = by_age_asym; neg_trans = by_age_neg_trans }

by_priority_asym : (a b : Row) → by_priority a b ≡ true → by_priority b a ≡ false
unfolding by_priority
by_priority_asym a b h = ground (arith, by_age_asym a b)

by_priority_neg_trans :
    (a b c : Row) → by_priority a b ≡ false → by_priority b c ≡ false → by_priority a c ≡ false
unfolding by_priority
by_priority_neg_trans a b c h k = ground (arith, by_age_neg_trans a b c)

pub by_priority-IsOrder : IsOrder by_priority
by_priority-IsOrder = record { asym = by_priority_asym; neg_trans = by_priority_neg_trans }

abbrev pub NotBefore : (Row → Row → Bool) → Row → List Row → (Row → Bool) → Type 0
NotBefore before b rs p = (r : Row) → r ∈ rs → p r ≡ true → before r b ≡ false

-- What a query with `LIMIT 1` returns: no row if none passes; else one that passes, with no row
-- that passes before it.
pub data Finds (p : Row → Bool) (before : Row → Row → Bool) (rs : List Row)
    : Option Row → Type 0 where
  nothing : ((r : Row) → r ∈ rs → p r ≡ false) → Finds p before rs none
  found : (b : Row) → b ∈ rs → p b ≡ true → NotBefore before b rs p → Finds p before rs (some b)

irrefl : (before : Row → Row → Bool) → IsOrder before → (r : Row) → before r r ≡ false
irrefl before o r = elim (Bool-cases (before r r)) [ inl e ↦ o.asym r r e | inr e ↦ e ]

clash : (p : Row → Bool) (x r : Row) → p x ≡ true → x ≡ r → p r ≡ false → ⊥
clash p x r h e k = cc

-- One more row in front.
first_cons :
    (p : Row → Bool) (before : Row → Row → Bool) (r : Row) (rs : List Row)
    → IsOrder before
    → (rest : Option Row) → Finds p before rs rest
    → Finds p before
        (r ∷ rs)
        (if p r then some (elim rest [ none ↦ r | some b ↦ if before b r then b else r ]) else rest)
first_cons p before r rs o none (nothing empty) = elim (Bool-cases (p r)) [
  | inl e ↦ rw e (
      found r (inl refl) e (λ x m px. elim m [
        | inl same ↦ rw same (irrefl before o r)
        | inr t ↦ absurd (ground (arith, empty x t))
      ]))
  | inr e ↦ rw e (nothing (λ x m. elim m [ inl same ↦ rw same e | inr t ↦ empty x t ]))
]
first_cons p before r rs o (some b) (found b' mem pass least) = elim (Bool-cases (p r)) [
  | inr e ↦ rw e (
      found b (inr mem) pass
        (λ x m px. elim m [ inl same ↦ absurd (clash p x r px same e) | inr t ↦ least x t px ]))
  | inl e ↦ elim (Bool-cases (before b r)) [
    | inl first ↦
        rw (e, first)
          (found b (inr mem) pass
            (λ x m px. elim m [ inl same ↦ rw same (o.asym b r first) | inr t ↦ least x t px ]))
    | inr later ↦
        rw (e, later)
          (found r (inl refl) e (λ x m px. elim m [
            | inl same ↦ rw same (irrefl before o r)
            | inr t ↦ o.neg_trans x b r (least x t px) later
          ]))
  ]
]

pub first_where-Finds :
    (p : Row → Bool) (before : Row → Row → Bool) (rs : List Row)
    → IsOrder before
    → Finds p before rs (first_where p before rs)
unfolding first_where
first_where-Finds p before [] o = nothing (λ r m. absurd m)
first_where-Finds p before (r ∷ rs) o =
    first_cons p before r rs o (first_where p before rs) (first_where-Finds p before rs o)
