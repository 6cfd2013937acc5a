-- ===== src/Prelude/Lists.antt =====
-- Lists measured and indexed by native numbers, under the library's names.
use Prim.Native.Nat.{ℕ, zero, suc, ◌+◌, ◌-◌, ◌<◌, min}
use mathlib.Core.Path.{◌≡◌, refl, sym, ap, subst}
use mathlib.Core.Logic.{◌≢◌, ◌⊎◌, inl, inr}
use mathlib.Core.Bool.{Bool, true, false, ◌&&◌, ◌||◌}
use vidcull.Prelude.Tests.{if◌then◌else◌, ◌==◌, Bool-cases}
use mathlib.Core.List.{List, [], ◌∷◌, ◌++◌, map}
use mathlib.Core.Option.{Option, none, some}
use native.Mathlib.Omega.{arith}

module _ {ℓ} {A : Type ℓ} where
  abbrev pub length : List A → ℕ
  length [] = 0
  length (x ∷ xs) = suc (length xs)

  abbrev pub get_elem? : List A → ℕ → Option A
  get_elem? [] i = none
  get_elem? (x ∷ xs) zero = some x
  get_elem? (x ∷ xs) (suc i) = get_elem? xs i

  -- A write out of bounds changes nothing.
  abbrev pub set : List A → ℕ → A → List A
  set [] i v = []
  set (x ∷ xs) zero v = v ∷ xs
  set (x ∷ xs) (suc i) v = x ∷ set xs i v

  pub length-append : (xs ys : List A) → length (xs ++ ys) ≡ length xs + length ys
  length-append [] ys = omega arith
  length-append (x ∷ xs) ys = omega (arith, length-append xs ys)

module _ {ℓ} {A : Type ℓ} where
  pub length-set : (xs : List A) (i : ℕ) (v : A) → length (set xs i v) ≡ length xs
  length-set [] i v = refl
  length-set (x ∷ xs) zero v = refl
  length-set (x ∷ xs) (suc i) v = ap suc (length-set xs i v)

  pub get_elem?-set_self :
      (xs : List A) (i : ℕ) (v : A) → i < length xs → get_elem? (set xs i v) i ≡ some v
  get_elem?-set_self [] i v h = elim h [ ]
  get_elem?-set_self (x ∷ xs) zero v h = refl
  get_elem?-set_self (x ∷ xs) (suc i) v h = get_elem?-set_self xs i v (omega arith)

  pub get_elem?-set_ne :
      (xs : List A) {i j : ℕ} (v : A) → i ≢ j → get_elem? (set xs i v) j ≡ get_elem? xs j
  get_elem?-set_ne [] v h = refl
  get_elem?-set_ne (x ∷ xs) {i = zero} {j = zero} v h = absurd (h refl)
  get_elem?-set_ne (x ∷ xs) {i = zero} {j = suc j} v h = refl
  get_elem?-set_ne (x ∷ xs) {i = suc i} {j = zero} v h = refl
  get_elem?-set_ne (x ∷ xs) {i = suc i} {j = suc j} v h = get_elem?-set_ne xs v (λ e. h (ap suc e))

module _ {ℓ} {A : Type ℓ} where
  abbrev pub get_or : List A → ℕ → A → A
  get_or [] i d = d
  get_or (x ∷ xs) zero d = x
  get_or (x ∷ xs) (suc i) d = get_or xs i d

  abbrev pub take : ℕ → List A → List A
  take zero xs = []
  take (suc n) [] = []
  take (suc n) (x ∷ xs) = x ∷ take n xs

  abbrev pub drop : ℕ → List A → List A
  drop zero xs = xs
  drop (suc n) [] = []
  drop (suc n) (x ∷ xs) = drop n xs

  abbrev pub replicate : ℕ → A → List A
  replicate zero a = []
  replicate (suc n) a = a ∷ replicate n a

  pub take-append-drop : (n : ℕ) (xs : List A) → take n xs ++ drop n xs ≡ xs
  take-append-drop zero xs = refl
  take-append-drop (suc n) [] = refl
  take-append-drop (suc n) (x ∷ xs) = rw (take-append-drop n xs)

  pub length-take : (n : ℕ) (xs : List A) → length (take n xs) ≡ min n (length xs)
  length-take zero xs = omega arith
  length-take (suc n) [] = omega arith
  length-take (suc n) (x ∷ xs) = omega (arith, length-take n xs)

  pub length-drop : (n : ℕ) (xs : List A) → length (drop n xs) ≡ length xs - n
  length-drop zero xs = omega arith
  length-drop (suc n) [] = omega arith
  length-drop (suc n) (x ∷ xs) = omega (arith, length-drop n xs)

  pub length-replicate : (n : ℕ) (a : A) → length (replicate n a) ≡ n
  length-replicate zero a = refl
  length-replicate (suc n) a = ap suc (length-replicate n a)

  pub length-map {κ} : {B : Type κ} (xs : List A) (f : A → B) → length (map f xs) ≡ length xs
  length-map [] f = refl
  length-map (x ∷ xs) f = ap suc (length-map xs f)

-- Membership, and the loops `any`, `retain` and `iter().all` by recursion.
infix 40 ◌∈◌
abbrev pub ◌∈◌ : {A : Type 0} → A → List A → Type 0
a ∈ [] = ⊥
a ∈ x ∷ xs = (a ≡ x) ⊎ (a ∈ xs)

module _ {ℓ} {A : Type ℓ} where
  abbrev pub any : (A → Bool) → List A → Bool
  any p [] = false
  any p (x ∷ xs) = p x || any p xs

  abbrev pub retain : (A → Bool) → List A → List A
  retain p [] = []
  retain p (x ∷ xs) = if p x then x ∷ retain p xs else retain p xs

module _ {A : Type 0} where
  pub any-mem : (p : A → Bool) (xs : List A) (a : A) → a ∈ xs → p a ≡ true → any p xs ≡ true
  any-mem p [] a m h = absurd m
  any-mem p (x ∷ xs) a (inl e) h = rw (← e, h)
  any-mem p (x ∷ xs) a (inr m) h = ground (arith, any-mem p xs a m h)

  pub mem-any : (p : A → Bool) (xs : List A) → any p xs ≡ true → (a : A) × (a ∈ xs) × (p a ≡ true)
  mem-any p [] h = cc
  mem-any p (x ∷ xs) h = elim (Bool-cases (p x)) [
    | inl e ↦ (x, inl refl, e)
    | inr e ↦ let (a, m, t) = mem-any p xs (ground arith) in (a, inr m, t)
  ]

  pub mem-append_left : (xs ys : List A) (a : A) → a ∈ xs → a ∈ (xs ++ ys)
  mem-append_left [] ys a m = absurd m
  mem-append_left (x ∷ xs) ys a (inl e) = inl e
  mem-append_left (x ∷ xs) ys a (inr m) = inr (mem-append_left xs ys a m)

  pub mem-append_right : (xs ys : List A) (a : A) → a ∈ ys → a ∈ (xs ++ ys)
  mem-append_right [] ys a m = m
  mem-append_right (x ∷ xs) ys a m = inr (mem-append_right xs ys a m)

  pub mem_of_append : (xs ys : List A) (a : A) → a ∈ (xs ++ ys) → (a ∈ xs) ⊎ (a ∈ ys)
  mem_of_append [] ys a m = inr m
  mem_of_append (x ∷ xs) ys a (inl e) = inl (inl e)
  mem_of_append (x ∷ xs) ys a (inr m) = elim (mem_of_append xs ys a m) [
    | inl l ↦ inl (inr l)
    | inr r ↦ inr r
  ]

  pub mem_of_retain :
      (p : A → Bool) (xs : List A) (a : A) → a ∈ retain p xs → (a ∈ xs) × (p a ≡ true)
  mem_of_retain p [] a m = absurd m
  mem_of_retain p (x ∷ xs) a m = elim (Bool-cases (p x)) [
    | inl e ↦ elim (let m' : (a ≡ x) ⊎ (a ∈ retain p xs) = rw e at m in m') [
      | inl h ↦ (inl h, rw h e)
      | inr t ↦ let (i, q) = mem_of_retain p xs a t in (inr i, q)
    ]
    | inr e ↦
        let m' : a ∈ retain p xs = rw e at m in let (i, q) = mem_of_retain p xs a m' in (inr i, q)
  ]

  pub mem-retain : (p : A → Bool) (xs : List A) (a : A) → a ∈ xs → p a ≡ true → a ∈ retain p xs
  mem-retain p [] a m h = absurd m
  mem-retain p (x ∷ xs) a (inl e) h = let h' : p x ≡ true = rw e at h in rw h' (inl e)
  mem-retain p (x ∷ xs) a (inr m) h = elim (Bool-cases (p x)) [
    | inl e ↦ rw e (inr (mem-retain p xs a m h))
    | inr e ↦ rw e (mem-retain p xs a m h)
  ]

-- Equality of two texts or byte strings.
abbrev pub eqb_list : List ℕ → List ℕ → Bool
eqb_list [] [] = true
eqb_list [] (y ∷ ys) = false
eqb_list (x ∷ xs) [] = false
eqb_list (x ∷ xs) (y ∷ ys) = x == y && eqb_list xs ys

pub eqb_list-eq : (xs ys : List ℕ) → eqb_list xs ys ≡ true → xs ≡ ys
eqb_list-eq [] [] h = refl
eqb_list-eq [] (y ∷ ys) h = cc
eqb_list-eq (x ∷ xs) [] h = cc
eqb_list-eq (x ∷ xs) (y ∷ ys) h = ground (arith, eqb_list-eq xs ys)

pub eqb_list_refl : (xs : List ℕ) → eqb_list xs xs ≡ true
eqb_list_refl [] = refl
eqb_list_refl (x ∷ xs) = ground (arith, eqb_list_refl xs)

-- Every element satisfies `P`.
abbrev pub All : {A : Type 0} → (A → Type 0) → List A → Type 0
All P [] = Unit
All P (x ∷ xs) = P x × All P xs

module _ {A : Type 0} where
  pub All-mem : (P : A → Type 0) (xs : List A) (a : A) → All P xs → a ∈ xs → P a
  All-mem P [] a h m = absurd m
  All-mem P (x ∷ xs) a h (inl e) = subst P (sym e) h.0
  All-mem P (x ∷ xs) a h (inr m) = All-mem P xs a h.1 m

  pub All-retain : (P : A → Type 0) (p : A → Bool) (xs : List A) → All P xs → All P (retain p xs)
  All-retain P p [] h = tt
  All-retain P p (x ∷ xs) h = elim (Bool-cases (p x)) [
    | inl e ↦ rw e (h.0, All-retain P p xs h.1)
    | inr e ↦ rw e (All-retain P p xs h.1)
  ]

  pub All-append : (P : A → Type 0) (xs ys : List A) → All P xs → All P ys → All P (xs ++ ys)
  All-append P [] ys h k = k
  All-append P (x ∷ xs) ys h k = (h.0, All-append P xs ys h.1 k)

  pub All-imp : {P Q : A → Type 0} (xs : List A) → ((a : A) → P a → Q a) → All P xs → All Q xs
  All-imp [] f h = tt
  All-imp (x ∷ xs) f h = (f x h.0, All-imp xs f h.1)

  pub All-of_mem : {P : A → Type 0} (xs : List A) → ((a : A) → a ∈ xs → P a) → All P xs
  All-of_mem [] f = tt
  All-of_mem (x ∷ xs) f = (f x (inl refl), All-of_mem xs (λ a m. f a (inr m)))

module _ {A : Type 0} where
  pub get_elem?-lt : (xs : List A) (i : ℕ) (v : A) → get_elem? xs i ≡ some v → i < length xs
  get_elem?-lt [] i v h = cc
  get_elem?-lt (x ∷ xs) zero v h = omega arith
  get_elem?-lt (x ∷ xs) (suc i) v h = omega (arith, get_elem?-lt xs i v h)

  pub lt-get_elem? : (xs : List A) (i : ℕ) → i < length xs → (v : A) × (get_elem? xs i ≡ some v)
  lt-get_elem? [] i h = absurd (omega arith)
  lt-get_elem? (x ∷ xs) zero h = (x, refl)
  lt-get_elem? (x ∷ xs) (suc i) h = lt-get_elem? xs i (omega arith)

  pub get_or-get_elem? :
      (xs : List A) (i : ℕ) (v d : A) → get_elem? xs i ≡ some v → get_or xs i d ≡ v
  get_or-get_elem? [] i v d h = cc
  get_or-get_elem? (x ∷ xs) zero v d h = cc
  get_or-get_elem? (x ∷ xs) (suc i) v d h = get_or-get_elem? xs i v d h
