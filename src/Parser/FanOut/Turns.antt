-- ===== src/Parser/FanOut/Turns.antt =====
-- Each turn of a worker of `fan_out_indexed` in crates/vidcull-parser/src/fallback/concurrency.rs keeps the
-- state valid.
use mathlib.Core.Path.{subst}
use mathlib.Core.Option.{some-injective}
use vidcull.Prelude.{
  ℕ, zero, suc, ◌+◌, ◌≤◌, ◌≡◌, refl, sym, inl, inr, true, ◌||◌, none, some, Option-cases, List, [],
  ◌∷◌, length, get_elem?, lt-get_elem?, ltb, ltb→lt, ltb→ge, ◌==◌, Bool-cases, ==→≡, ==_refl, ◌∈◌,
  if◌then◌else◌, arith,
}
use vidcull.Prelude.Result.{Result, ok, err}
use vidcull.Parser.FanOut.{
  Worker, looking, claiming, decoding, storing, ended, Shared, is_err, no_cells, spawn, turn,
  turn_at, turns,
}
use vidcull.Parser.FanOut.Workers.{
  IsResult, Stopped, IsSound, Aborted, IsValid, IsChange, turn_at-IsChange, Grows, carry, quiet,
}

module _ {E T R : Type 0} (decode : T → Result E R) (items : List T) where
  none-get_elem? : (i : ℕ) → get_elem? items i ≡ none → length items ≤ i
  none-get_elem? i h = elim (Bool-cases (ltb i (length items))) [
    | inl e ↦ let (v, there) = lt-get_elem? items i (ltb→lt i (length items) e) in cc
    | inr e ↦ ltb→ge i (length items) e
  ]

  is_err_result : (r : Result E R) → is_err r ≡ true → (e : E) × (r ≡ err e)
  is_err_result (ok v) h = cc
  is_err_result (err e) h = (e, refl)

  -- A turn of `w` from `s` on.
  abbrev Keeps : Worker E T R → Type 0
  Keeps w =
      (ws vs : List (Worker E T R)) (s : Shared E R)
      → IsValid decode items ws s
      → IsChange decode items w (turn decode items w s).0 ws vs
      → IsValid decode items vs (turn decode items w s).1

  looking-Keeps : Keeps looking
  unfolding turn
  looking-Keeps ws vs s valid change = elim (Bool-cases s.abort) [
    | inl e ↦
        let to : turn decode items looking s ≡ (ended, s) = rw e refl in
        subst (λ st. IsValid decode items vs st.1) (sym to)
          (quiet decode items looking ended ws vs s valid
            (subst (λ st. IsChange decode items looking st.0 ws vs) to change) (λ j h. h) (inl e))
    | inr e ↦
        let to : turn decode items looking s ≡ (claiming, s) = rw e refl in
        subst (λ st. IsValid decode items vs st.1) (sym to)
          (quiet decode items looking claiming ws vs s valid
            (subst (λ st. IsChange decode items looking st.0 ws vs) to change) (λ j h. h) tt)
  ]

  claiming-Keeps : Keeps claiming
  unfolding turn
  claiming-Keeps ws vs s valid change =
      let t : Shared E R = record s { counter = s.counter + 1 } in
      let grows : Grows decode items s t = record {
        counted = omega arith;
        stays = λ a. a;
        kept = λ j f. f;
      } in
      let aborted : Aborted decode items t =
        λ a. let (i, below, failed) = valid.aborted a in (i, omega (arith, below), failed) in
      elim (Option-cases (get_elem? items s.counter)) [
        | inl e ↦
            let to : turn decode items claiming s ≡ (ended, t) = rw e refl in
            let over = none-get_elem? s.counter e in
            subst (λ st. IsValid decode items vs st.1) (sym to)
              (carry decode items claiming ended ws vs s t valid
                (subst (λ st. IsChange decode items claiming st.0 ws vs) to change) grows
                valid.results aborted (inr (omega (arith, over))) (λ j h. absurd h)
                (λ j low high in_range. absurd (omega (arith, over))))
        | inr (item, e) ↦
            let to : turn decode items claiming s ≡ (decoding s.counter item, t) = rw e refl in
            subst (λ st. IsValid decode items vs st.1) (sym to)
              (carry decode items claiming (decoding s.counter item) ws vs s t valid
                (subst (λ st. IsChange decode items claiming st.0 ws vs) to change) grows
                valid.results aborted (e, omega arith) (λ j h. absurd h)
                (λ j low high in_range. inr (omega arith)))
      ]

  decoding-Keeps : (i : ℕ) (item : T) → Keeps (decoding i item)
  unfolding turn
  decoding-Keeps i item ws vs s valid change =
      carry decode items (decoding i item) (storing i (decode item)) ws vs s
        (record s { abort = is_err (decode item) || s.abort }) valid change
        (record { counted = omega arith; stays = λ a. ground (arith, a); kept = λ j f. f })
        valid.results
        (λ a. elim (Bool-cases (is_err (decode item))) [
          | inl e ↦
              let (x, same) = is_err_result (decode item) e in
              let mine = valid.sound (decoding i item) change.present in
              (i, mine.1, (x, (item, mine.0, sym same)))
          | inr e ↦ valid.aborted (ground (arith, a, e))
        ])
        (let mine = valid.sound (decoding i item) change.present in ((item, mine.0, refl), mine.1))
        (λ j h. inr h) (λ j low high in_range. absurd (omega arith))

  storing-Keeps : (i : ℕ) (r : Result E R) → Keeps (storing i r)
  unfolding turn
  storing-Keeps i r ws vs s valid change =
      let t : Shared E R = record s { cells = λ j. if j == i then some r else s.cells j } in
      carry decode items (storing i r) looking ws vs s t valid change
        (record {
          counted = omega arith;
          stays = λ a. a;
          kept = λ j f. elim (Bool-cases (j == i)) [
            | inl e ↦ (r, rw e refl)
            | inr e ↦ (f.0, rw e f.1)
          ];
        })
        (λ j x h. elim (Bool-cases (j == i)) [
          | inl e ↦
              let h' : some r ≡ some x = rw e at h in
              let mine = valid.sound (storing i r) change.present in
              subst (λ v. IsResult decode items v x) (sym (==→≡ j i e))
                (subst (IsResult decode items i) (some-injective _ _ h') mine.0)
          | inr e ↦ valid.results j x (rw e at h)
        ])
        valid.aborted tt (λ j h. inl (r, rw (h, ==_refl i) refl))
        (λ j low high in_range. absurd (omega arith))

  ended-Keeps : Keeps ended
  unfolding turn
  ended-Keeps ws vs s valid change =
      quiet decode items ended ended ws vs s valid change (λ j h. h)
        (valid.sound ended change.present)

  turn-Keeps : (w : Worker E T R) → Keeps w
  turn-Keeps looking = looking-Keeps
  turn-Keeps claiming = claiming-Keeps
  turn-Keeps (decoding i item) = decoding-Keeps i item
  turn-Keeps (storing i r) = storing-Keeps i r
  turn-Keeps ended = ended-Keeps

  -- A turn of any worker keeps the state valid.
  pub turn_at-IsValid :
      (k : ℕ) (ws : List (Worker E T R)) (s : Shared E R)
      → IsValid decode items ws s
      → IsValid decode items (turn_at decode items k ws s).0 (turn_at decode items k ws s).1
  turn_at-IsValid k ws s valid = elim (turn_at-IsChange decode items k ws s) [
    | inl e ↦ subst (λ st. IsValid decode items st.0 st.1) (sym e) valid
    | inr (w, e, change) ↦
        subst (IsValid decode items (turn_at decode items k ws s).0) (sym e)
          (turn-Keeps w ws (turn_at decode items k ws s).0 s valid change)
  ]

  -- So does any order of turns.
  pub turns-IsValid :
      (order : List ℕ) (st : List (Worker E T R) × Shared E R)
      → IsValid decode items st.0 st.1
      → IsValid decode items (turns decode items order st).0 (turns decode items order st).1
  unfolding turns
  turns-IsValid [] st valid = valid
  turns-IsValid (k ∷ ks) st valid =
      turns-IsValid ks (turn_at decode items k st.0 st.1) (turn_at-IsValid k st.0 st.1 valid)

  pub ended-Stopped :
      (ws : List (Worker E T R)) (s : Shared E R)
      → IsValid decode items ws s
      → ended ∈ ws
      → Stopped decode items s
  ended-Stopped ws s valid m = valid.sound ended m

  -- There is a worker after any turns if there was one before.
  pub turns_keep_some :
      (order : List ℕ) (st : List (Worker E T R) × Shared E R) (w : Worker E T R)
      → w ∈ st.0
      → (v : Worker E T R) × (v ∈ (turns decode items order st).0)
  unfolding turns
  turns_keep_some [] st w m = (w, m)
  turns_keep_some (k ∷ ks) st w m = elim (turn_at-IsChange decode items k st.0 st.1) [
    | inl e ↦
        turns_keep_some ks (turn_at decode items k st.0 st.1) w (subst (λ t. w ∈ t.0) (sym e) m)
    | inr (x, e, change) ↦
        turns_keep_some ks (turn_at decode items k st.0 st.1) (turn decode items x st.1).0
          change.there
  ]

  spawn-looking : (n : ℕ) (w : Worker E T R) → w ∈ spawn n → w ≡ looking
  unfolding spawn
  spawn-looking zero w m = absurd m
  spawn-looking (suc n) w (inl e) = e
  spawn-looking (suc n) w (inr m) = spawn-looking n w m

  -- The state in which the workers start.
  pub spawn-IsValid : (n : ℕ) → IsValid decode items (spawn n) no_cells
  spawn-IsValid n = record {
    results = λ i r h. cc;
    taken = λ i below in_range. absurd (omega arith);
    sound = λ w m. subst (IsSound decode items no_cells) (sym (spawn-looking n w m)) tt;
    aborted = λ h. cc;
  }
