-- ===== src/Parser/Permits/Counts.antt =====
-- The counts by session of crates/vidcull-parser/src/fallback/concurrency.rs against lists of sessions.
use mathlib.Core.Option.{some-injective}
use vidcull.Prelude.{
  ℕ, zero, suc, ◌+◌, ◌-◌, ◌≡◌, refl, ap, ◌∙◌, inl, inr, true, false, Option, none, some, List, [],
  ◌∷◌, ◌++◌, map, length, get_elem?, ◌==◌, Bool-cases, ==→≡, if◌then◌else◌, arith,
}
use vidcull.Prelude.Maps.{lookup}
use vidcull.Parser.Permits.{count_of, bump, drop_one}
use vidcull.Parser.Permits.Threads.{Waiter, remove_at, notify, notify_one}

abbrev pub one : ℕ → Option ℕ → ℕ
one id none = 0
one id (some k) = if id == k then 1 else 0

unfoldable pub count : ℕ → List (Option ℕ) → ℕ
count id [] = 0
count id (o ∷ os) = one id o + count id os

unfoldable pub sessions : List Waiter → List (Option ℕ)
sessions [] = []
sessions (w ∷ ws) = w.session ∷ sessions ws

-- No key twice.
abbrev pub IsKeyed : List (ℕ × ℕ) → Type 0
IsKeyed [] = Unit
IsKeyed ((k, n) ∷ m) = (lookup k m ≡ none) × IsKeyed m

pub count_of-bump :
    (id k : ℕ) (m : List (ℕ × ℕ)) → count_of id (bump k m) ≡ count_of id m + one id (some k)
unfolding count_of bump
count_of-bump id k [] = elim (Bool-cases (id == k)) [
  | inl e ↦ rw e (omega arith)
  | inr e ↦ rw e (omega arith)
]
count_of-bump id k ((k', n) ∷ m) = elim (Bool-cases (k == k')) [
  | inl e ↦
      let same = ==→≡ k k' e in
      elim (Bool-cases (id == k')) [
        | inl q ↦ let q' : (id == k) ≡ true = ground arith in rw (e, q, q') refl
        | inr q ↦ let q' : (id == k) ≡ false = ground arith in rw (e, q, q') (omega arith)
      ]
  | inr e ↦ elim (Bool-cases (id == k')) [
    | inl q ↦ let q' : (id == k) ≡ false = ground arith in rw (e, q, q') (omega arith)
    | inr q ↦ rw (e, q) (count_of-bump id k m)
  ]
]

lookup-bump :
    (id k : ℕ) (m : List (ℕ × ℕ))
    → (id == k) ≡ false
    → lookup id m ≡ none
    → lookup id (bump k m) ≡ none
unfolding bump
lookup-bump id k [] ne h = rw ne refl
lookup-bump id k ((k', n) ∷ m) ne h = elim (Bool-cases (id == k')) [
  | inl q ↦ let no : some n ≡ none = rw q at h in cc
  | inr q ↦ elim (Bool-cases (k == k')) [
    | inl e ↦ rw (e, q) (rw q at h)
    | inr e ↦ rw (e, q) (lookup-bump id k m ne (rw q at h))
  ]
]

pub bump-IsKeyed : (k : ℕ) (m : List (ℕ × ℕ)) → IsKeyed m → IsKeyed (bump k m)
unfolding bump
bump-IsKeyed k [] w = (refl, tt)
bump-IsKeyed k ((k', n) ∷ m) (fresh, w) = elim (Bool-cases (k == k')) [
  | inl e ↦ rw e (fresh, w)
  | inr e ↦
      let e' : (k' == k) ≡ false = ground arith in
      rw e (lookup-bump k' k m e' fresh, bump-IsKeyed k m w)
]

pub count_of-drop_one :
    (id k : ℕ) (m : List (ℕ × ℕ))
    → IsKeyed m
    → count_of id (drop_one k m) ≡ count_of id m - one id (some k)
unfolding count_of drop_one
count_of-drop_one id k [] w = omega arith
count_of-drop_one id k ((k', n) ∷ m) (fresh, w) = elim (Bool-cases (k == k')) [
  | inl e ↦
      let same = ==→≡ k k' e in
      elim (Bool-cases (n - 1 == 0)) [
        | inl z ↦
            let zero_left = ==→≡ (n - 1) 0 z in
            elim (Bool-cases (id == k')) [
              | inl q ↦
                  let q' : (id == k) ≡ true = ground arith in
                  let gone : lookup id m ≡ none = ap (λ v. lookup v m) (==→≡ id k' q) ∙ fresh in
                  rw (e, z, q, q', gone) (omega arith)
              | inr q ↦ let q' : (id == k) ≡ false = ground arith in rw (e, z, q, q') (omega arith)
            ]
        | inr z ↦ elim (Bool-cases (id == k')) [
          | inl q ↦ let q' : (id == k) ≡ true = ground arith in rw (e, z, q, q') refl
          | inr q ↦ let q' : (id == k) ≡ false = ground arith in rw (e, z, q, q') (omega arith)
        ]
      ]
  | inr e ↦ elim (Bool-cases (id == k')) [
    | inl q ↦ let q' : (id == k) ≡ false = ground arith in rw (e, q, q') (omega arith)
    | inr q ↦ rw (e, q) (count_of-drop_one id k m w)
  ]
]

lookup-drop_one :
    (id k : ℕ) (m : List (ℕ × ℕ)) → lookup id m ≡ none → lookup id (drop_one k m) ≡ none
unfolding drop_one
lookup-drop_one id k [] h = h
lookup-drop_one id k ((k', n) ∷ m) h = elim (Bool-cases (id == k')) [
  | inl q ↦ let no : some n ≡ none = rw q at h in cc
  | inr q ↦ elim (Bool-cases (k == k')) [
    | inl e ↦ elim (Bool-cases (n - 1 == 0)) [
      | inl z ↦ rw (e, z) (rw q at h)
      | inr z ↦ rw (e, z, q) (rw q at h)
    ]
    | inr e ↦ rw (e, q) (lookup-drop_one id k m (rw q at h))
  ]
]

pub drop_one-IsKeyed : (k : ℕ) (m : List (ℕ × ℕ)) → IsKeyed m → IsKeyed (drop_one k m)
unfolding drop_one
drop_one-IsKeyed k [] w = tt
drop_one-IsKeyed k ((k', n) ∷ m) (fresh, w) = elim (Bool-cases (k == k')) [
  | inl e ↦ elim (Bool-cases (n - 1 == 0)) [ inl z ↦ rw (e, z) w | inr z ↦ rw (e, z) (fresh, w) ]
  | inr e ↦ rw e (lookup-drop_one k' k m fresh, drop_one-IsKeyed k m w)
]

pub count-append :
    (id : ℕ) (xs ys : List (Option ℕ)) → count id (xs ++ ys) ≡ count id xs + count id ys
unfolding count
count-append id [] ys = omega arith
count-append id (x ∷ xs) ys = omega (arith, count-append id xs ys)

pub count-remove_at :
    (id i : ℕ) (xs : List (Option ℕ)) (x : Option ℕ)
    → get_elem? xs i ≡ some x
    → count id xs ≡ count id (remove_at i xs) + one id x
unfolding count
count-remove_at id i [] x h = cc
count-remove_at id zero (y ∷ xs) x h =
    let same = ap (one id) (some-injective _ _ h) in omega (arith, same)
count-remove_at id (suc i) (y ∷ xs) x h = omega (arith, count-remove_at id i xs x h)

pub length-remove_at :
    {A : Type 0} (i : ℕ) (xs : List A) (x : A)
    → get_elem? xs i ≡ some x
    → length xs ≡ suc (length (remove_at i xs))
length-remove_at i [] x h = cc
length-remove_at zero (y ∷ xs) x h = refl
length-remove_at (suc i) (y ∷ xs) x h = ap suc (length-remove_at i xs x h)

pub sessions-append :
    (ws : List Waiter) (w : Waiter) → sessions (ws ++ (w ∷ [])) ≡ sessions ws ++ (w.session ∷ [])
unfolding sessions
sessions-append [] w = refl
sessions-append (v ∷ ws) w = ap (λ l. v.session ∷ l) (sessions-append ws w)

pub get_elem?-sessions :
    (ws : List Waiter) (i : ℕ) (w : Waiter)
    → get_elem? ws i ≡ some w
    → get_elem? (sessions ws) i ≡ some w.session
unfolding sessions
get_elem?-sessions [] i w h = cc
get_elem?-sessions (v ∷ ws) zero w h = ap (λ u. some u.session) (some-injective _ _ h)
get_elem?-sessions (v ∷ ws) (suc i) w h = get_elem?-sessions ws i w h

pub sessions-remove_at :
    (ws : List Waiter) (i : ℕ) → sessions (remove_at i ws) ≡ remove_at i (sessions ws)
unfolding sessions
sessions-remove_at [] i = refl
sessions-remove_at (w ∷ ws) zero = refl
sessions-remove_at (w ∷ ws) (suc i) = ap (λ l. w.session ∷ l) (sessions-remove_at ws i)

pub sessions-notify_one : (i : ℕ) (ws : List Waiter) → sessions (notify_one i ws) ≡ sessions ws
unfolding sessions
sessions-notify_one i [] = refl
sessions-notify_one i (w ∷ []) = refl
sessions-notify_one zero (w ∷ w' ∷ ws) = refl
sessions-notify_one (suc i) (w ∷ w' ∷ ws) =
    ap (λ l. w.session ∷ l) (sessions-notify_one i (w' ∷ ws))

pub sessions-notify_all : (ws : List Waiter) → sessions (map notify ws) ≡ sessions ws
unfolding sessions
sessions-notify_all [] = refl
sessions-notify_all (w ∷ ws) = ap (λ l. w.session ∷ l) (sessions-notify_all ws)

pub length-notify_one : (i : ℕ) (ws : List Waiter) → length (notify_one i ws) ≡ length ws
length-notify_one i [] = refl
length-notify_one i (w ∷ []) = refl
length-notify_one zero (w ∷ w' ∷ ws) = refl
length-notify_one (suc i) (w ∷ w' ∷ ws) = ap suc (length-notify_one i (w' ∷ ws))
