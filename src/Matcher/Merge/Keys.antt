-- ===== src/Matcher/Merge/Keys.antt =====
-- The keys of a map after an insertion, for `merge_transitive` of
-- crates/vidcull-matcher/src/cluster.rs.
use vidcull.Prelude.{
  ℕ, ◌≡◌, refl, inl, inr, false, Option, none, some, List, [], ◌∷◌, ltb, ◌==◌, arith, Bool-cases,
  ltb→lt, ltb→ge, ==_refl, ≢→==,
}
use vidcull.Prelude.Maps.{upsert, lookup}

module _ {V : Type 0} where
  abbrev pub Present : ℕ → List (ℕ × V) → Type 0
  Present key m = (v : V) × (lookup key m ≡ some v)

  pub upsert-Present_self :
      (k : ℕ) (f : Option V → V) (m : List (ℕ × V)) → Present k (upsert ltb k f m)
  upsert-Present_self k f [] = (f none, rw (==_refl k) refl)
  upsert-Present_self k f ((k', v) ∷ m) = elim (Bool-cases (ltb k k')) [
    | inl e ↦ rw e (f none, rw (==_refl k) refl)
    | inr e ↦ elim (Bool-cases (ltb k' k)) [
      | inl e' ↦
          let (w, at) = upsert-Present_self k f m in
          let other : (k == k') ≡ false = ≢→== k k' (omega (arith, ltb→lt k' k e')) in
          rw (e, e') (w, rw other at)
      | inr e' ↦
          let same : k ≡ k' = omega (arith, ltb→ge k k' e, ltb→ge k' k e') in
          rw (e, e') (f (some v), rw (same, ==_refl k') refl)
    ]
  ]

  pub upsert-Present_keep :
      (j k : ℕ) (f : Option V → V) (m : List (ℕ × V)) → Present j m → Present j (upsert ltb k f m)
  upsert-Present_keep j k f [] (v, h) = cc
  upsert-Present_keep j k f ((k', v) ∷ m) (w, h) = elim (Bool-cases (j == k')) [
    | inl s ↦ elim (Bool-cases (ltb k k')) [
      | inl e ↦ rw e (present_under j (k, f none) ((k', v) ∷ m) (w, h))
      | inr e ↦ elim (Bool-cases (ltb k' k)) [
        | inl e' ↦ rw (e, e') (v, rw s refl)
        | inr e' ↦ rw (e, e') (f (some v), rw s refl)
      ]
    ]
    | inr s ↦
        let h' : lookup j m ≡ some w = rw s at h in
        elim (Bool-cases (ltb k k')) [
          | inl e ↦ rw e (present_under j (k, f none) ((k', v) ∷ m) (w, h))
          | inr e ↦ elim (Bool-cases (ltb k' k)) [
            | inl e' ↦
                rw (e, e')
                  (present_under j (k', v) (upsert ltb k f m) (upsert-Present_keep j k f m (w, h')))
            | inr e' ↦ rw (e, e') (present_under j (k', f (some v)) m (w, h'))
          ]
        ]
  ]
    where
      present_under : (j : ℕ) (e : ℕ × V) (m : List (ℕ × V)) → Present j m → Present j (e ∷ m)
      present_under j (k, v) m (w, h) = elim (Bool-cases (j == k)) [
        | inl s ↦ (v, rw s refl)
        | inr s ↦ (w, rw s h)
      ]
