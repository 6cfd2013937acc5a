-- ===== src/Parser/FanOut/Workers.antt =====
-- What holds of the workers of `fan_out_indexed` in
-- crates/vidcull-parser/src/fallback/concurrency.rs whatever the order of their turns.
use mathlib.Core.Path.{subst}
use vidcull.Prelude.{
  ℕ, zero, suc, ◌<◌, ◌≤◌, ◌≡◌, refl, sym, ap, ◌⊎◌, inl, inr, true, some, List, [], ◌∷◌, length,
  get_elem?, ltb, ltb→lt, ltb→ge, Bool-cases, ◌∈◌, arith,
}
use vidcull.Prelude.Result.{Result, err}
use vidcull.Parser.FanOut.{
  Worker, looking, claiming, decoding, storing, ended, Shared, turn, turn_at,
}

module _ {E T R : Type 0} (decode : T → Result E R) (items : List T) where
  -- `r` is the result of the item at `i`.
  abbrev pub IsResult : ℕ → Result E R → Type 0
  IsResult i r = (item : T) × (get_elem? items i ≡ some item) × (r ≡ decode item)

  -- A worker that has taken the index `i` and not yet filled its cell.
  abbrev pub Holds : ℕ → Worker E T R → Type 0
  Holds i looking = ⊥
  Holds i claiming = ⊥
  Holds i (decoding j item) = i ≡ j
  Holds i (storing j r) = i ≡ j
  Holds i ended = ⊥

  abbrev pub Filled : ℕ → Shared E R → Type 0
  Filled i s = (r : Result E R) × (s.cells i ≡ some r)

  -- Why a worker may end.
  abbrev pub Stopped : Shared E R → Type 0
  Stopped s = (s.abort ≡ true) ⊎ (length items ≤ s.counter)

  abbrev pub IsSound : Shared E R → Worker E T R → Type 0
  IsSound s looking = Unit
  IsSound s claiming = Unit
  IsSound s (decoding i item) = (get_elem? items i ≡ some item) × (i < s.counter)
  IsSound s (storing i r) = IsResult i r × (i < s.counter)
  IsSound s ended = Stopped s

  abbrev pub Aborted : Shared E R → Type 0
  Aborted s = s.abort ≡ true → (i : ℕ) × (i < s.counter) × ((e : E) × IsResult i (err e))

  pub record IsValid (ws : List (Worker E T R)) (s : Shared E R) : Type 0 where
    pub results : (i : ℕ) (r : Result E R) → s.cells i ≡ some r → IsResult i r
    pub taken :
        (i : ℕ)
        → i < s.counter
        → i < length items
        → Filled i s ⊎ ((w : Worker E T R) × (w ∈ ws) × Holds i w)
    pub sound : (w : Worker E T R) → w ∈ ws → IsSound s w
    pub aborted : Aborted s

  -- The workers are the same but for one, which is `w` before and `v` after.
  pub record IsChange (w v : Worker E T R) (ws vs : List (Worker E T R)) : Type 0 where
    pub present : w ∈ ws
    pub new : (x : Worker E T R) → x ∈ vs → (x ≡ v) ⊎ (x ∈ ws)
    pub there : v ∈ vs
    pub old : (x : Worker E T R) → x ∈ ws → (x ≡ w) ⊎ (x ∈ vs)

  pub turn_at-IsChange :
      (k : ℕ) (ws : List (Worker E T R)) (s : Shared E R)
      → (turn_at decode items k ws s ≡ (ws, s))
        ⊎ ((w : Worker E T R) × ((turn_at decode items k ws s).1 ≡ (turn decode items w s).1)
            × IsChange w (turn decode items w s).0 ws (turn_at decode items k ws s).0)
  unfolding turn_at
  turn_at-IsChange k [] s = inl refl
  turn_at-IsChange zero (w ∷ ws) s = inr (
    w,
    refl,
    record {
      present = inl refl;
      new = λ x m. elim m [ inl e ↦ inl e | inr i ↦ inr (inr i) ];
      there = inl refl;
      old = λ x m. elim m [ inl e ↦ inl e | inr i ↦ inr (inr i) ];
    },
  )
  turn_at-IsChange (suc k) (x ∷ ws) s = elim (turn_at-IsChange k ws s) [
    | inl e ↦ inl (ap (λ st. (x ∷ st.0, st.1)) e)
    | inr (w, e, c) ↦ inr (
      w,
      e,
      record {
        present = inr c.present;
        new = λ y m. elim m [
          | inl e ↦ inr (inl e)
          | inr i ↦ elim (c.new y i) [ inl e ↦ inl e | inr j ↦ inr (inr j) ]
        ];
        there = inr c.there;
        old = λ y m. elim m [
          | inl e ↦ inr (inl e)
          | inr i ↦ elim (c.old y i) [ inl e ↦ inl e | inr j ↦ inr (inr j) ]
        ];
      },
    )
  ]

  -- What a turn does to what the workers share.
  pub record Grows (s t : Shared E R) : Type 0 where
    pub counted : s.counter ≤ t.counter
    pub stays : s.abort ≡ true → t.abort ≡ true
    pub kept : (i : ℕ) → Filled i s → Filled i t

  Grows-IsSound : (s t : Shared E R) (w : Worker E T R) → Grows s t → IsSound s w → IsSound t w
  Grows-IsSound s t looking g h = tt
  Grows-IsSound s t claiming g h = tt
  Grows-IsSound s t (decoding i item) g h = (h.0, omega (arith, g.counted, h.1))
  Grows-IsSound s t (storing i r) g h = (h.0, omega (arith, g.counted, h.1))
  Grows-IsSound s t ended g (inl a) = inl (g.stays a)
  Grows-IsSound s t ended g (inr n) = inr (omega (arith, g.counted, n))

  abbrev Ok : ℕ → Shared E R → Worker E T R → Type 0
  Ok i s v = Filled i s ⊎ Holds i v

  pub carry :
      (w v : Worker E T R) (ws vs : List (Worker E T R)) (s t : Shared E R)
      → IsValid ws s
      → IsChange w v ws vs
      → Grows s t
      → ((i : ℕ) (r : Result E R) → t.cells i ≡ some r → IsResult i r)
      → Aborted t
      → IsSound t v
      → ((i : ℕ) → Holds i w → Ok i t v)
      → ((i : ℕ) → s.counter ≤ i → i < t.counter → i < length items → Ok i t v)
      → IsValid vs t
  carry w v ws vs s t valid change g results aborted sound held fresh = record {
    results = results;
    taken = λ i below in_range. elim (Bool-cases (ltb i s.counter)) [
      | inl e ↦ elim (valid.taken i (ltb→lt i s.counter e) in_range) [
        | inl f ↦ inl (g.kept i f)
        | inr (x, m, h) ↦ elim (change.old x m) [
          | inl same ↦ by_new i (held i (subst (Holds i) same h))
          | inr k ↦ inr (x, k, h)
        ]
      ]
      | inr e ↦ by_new i (fresh i (ltb→ge i s.counter e) below in_range)
    ];
    sound = λ x m. elim (change.new x m) [
      | inl same ↦ subst (IsSound t) (sym same) sound
      | inr k ↦ Grows-IsSound s t x g (valid.sound x k)
    ];
    aborted = aborted;
  }
    where
      by_new : (i : ℕ) → Ok i t v → Filled i t ⊎ ((x : Worker E T R) × (x ∈ vs) × Holds i x)
      by_new i (inl f) = inl f
      by_new i (inr h) = inr (v, change.there, h)

  -- A worker that holds no index goes on, and what is shared stays.
  pub quiet :
      (w v : Worker E T R) (ws vs : List (Worker E T R)) (s : Shared E R)
      → IsValid ws s
      → IsChange w v ws vs
      → ((i : ℕ) → Holds i w → ⊥)
      → IsSound s v
      → IsValid vs s
  quiet w v ws vs s valid change none_held sound =
      carry w v ws vs s s valid change
        (record { counted = omega arith; stays = λ a. a; kept = λ j f. f }) valid.results
        valid.aborted sound (λ j h. absurd (none_held j h))
        (λ j low high in_range. absurd (omega arith))
