-- ===== src/Daemon/Paths.antt =====
-- `path_under_root` of crates/vidcull-daemon/src/bridge.rs. A path is its sequence of bytes; a
-- NormalizedPath has forward slashes only.
use vidcull.Prelude.{
  ℕ, ◌≡◌, ◌≢◌, refl, ap, ◌∙◌, ◌↔◌, ◌⊎◌, inl, inr, Bool, true, false, ◌||◌, Option, none, some, List,
  [], ◌∷◌, ◌++◌, arith, ◌==◌, ==→≡, ==_refl, if◌then◌else◌, Bool-cases, Option-cases, eqb_list,
  eqb_list-eq, eqb_list_refl,
}
use mathlib.Core.List.{append_assoc}

abbrev pub FilePath : Type 0
FilePath = List ℕ

abbrev pub slash : ℕ
slash = b'/'

-- A character in front of a text that has no slash at its end.
unfoldable pub trim_cons : ℕ → FilePath → FilePath
trim_cons c [] = if c == slash then [] else c ∷ []
trim_cons c (d ∷ ds) = c ∷ d ∷ ds

-- `str::trim_end_matches('/')`.
unfoldable pub trim_end : FilePath → FilePath
unfolding trim_cons
trim_end [] = []
trim_end (c ∷ cs) = trim_cons c (trim_end cs)

-- `str::strip_prefix`.
unfoldable pub strip_prefix : FilePath → FilePath → Option FilePath
strip_prefix path [] = some path
strip_prefix [] (r ∷ rs) = none
strip_prefix (c ∷ cs) (r ∷ rs) = if c == r then strip_prefix cs rs else none

-- `str::starts_with('/')`.
unfoldable pub starts_with_slash : FilePath → Bool
starts_with_slash [] = false
starts_with_slash (c ∷ cs) = c == slash

unfoldable pub path_under_root : FilePath → FilePath → Bool
unfolding trim_end strip_prefix starts_with_slash
path_under_root path root =
    let r = trim_end root in
    eqb_list path r
    || elim (strip_prefix path r) [ none ↦ false | some rest ↦ starts_with_slash rest ]

-- The tree below `r`: the path `r` itself, or a path that goes on after `r` with a slash.
abbrev pub Below : FilePath → FilePath → Type 0
Below path r = (path ≡ r) ⊎ ((rest : FilePath) × (path ≡ r ++ slash ∷ rest))

strip_prefix-append : (r rest : FilePath) → strip_prefix (r ++ rest) r ≡ some rest
unfolding strip_prefix
strip_prefix-append [] rest = refl
strip_prefix-append (c ∷ cs) rest = rw ==_refl (strip_prefix-append cs rest)

strip_prefix-eq : (path r rest : FilePath) → strip_prefix path r ≡ some rest → path ≡ r ++ rest
unfolding strip_prefix
strip_prefix-eq path [] rest h = cc
strip_prefix-eq [] (r ∷ rs) rest h = cc
strip_prefix-eq (c ∷ cs) (r ∷ rs) rest h = ground (arith, strip_prefix-eq cs rs rest)

slash_first :
    (rest : FilePath) → starts_with_slash rest ≡ true → (t : FilePath) × (rest ≡ slash ∷ t)
unfolding starts_with_slash
slash_first [] h = cc
slash_first (c ∷ cs) h = (cs, rw (==→≡ c slash h))

under_sound : (path root : FilePath) → path_under_root path root ≡ true → Below path (trim_end root)
unfolding path_under_root
under_sound path root h = elim (Bool-cases (eqb_list path (trim_end root))) [
  | inl same ↦ inl (eqb_list-eq path (trim_end root) same)
  | inr other ↦ elim (Option-cases (strip_prefix path (trim_end root))) [
    | inl gone ↦ absurd (ground arith)
    | inr (rest, e) ↦
        let (t, first) = slash_first rest (ground arith) in
        inr (t, strip_prefix-eq path (trim_end root) rest e ∙ ap (λ x. trim_end root ++ x) first)
  ]
]

under_complete :
    (path root : FilePath) → Below path (trim_end root) → path_under_root path root ≡ true
unfolding path_under_root
under_complete path root (inl e) = ground (arith, eqb_list_refl path)
under_complete path root (inr (rest, e)) =
    ground (arith, strip_prefix-append (trim_end root) (slash ∷ rest))

-- A path counts as under a root exactly when it is the root, less the slashes at its end, or goes
-- on after that with a slash; `/a/bc` is not under `/a/b`.
pub path_under_root_iff :
    (path root : FilePath) → (path_under_root path root ≡ true) ↔ Below path (trim_end root)
path_under_root_iff path root = (under_sound path root, under_complete path root)

trim_cons_kept : (x : ℕ) (xs ys : FilePath) → ys ≢ [] → trim_cons x (xs ++ ys) ≡ x ∷ xs ++ ys
unfolding trim_cons
trim_cons_kept x [] [] h = absurd (h refl)
trim_cons_kept x [] (y ∷ ys) h = refl
trim_cons_kept x (z ∷ xs) ys h = refl

trim_end-append :
    (xs ys : FilePath)
    → (trim_end ys ≡ []) × (trim_end (xs ++ ys) ≡ trim_end xs)
      ⊎ (trim_end ys ≢ []) × (trim_end (xs ++ ys) ≡ xs ++ trim_end ys)
unfolding trim_end
trim_end-append [] ys = empty (trim_end ys)
  where
    empty : (t : FilePath) → (t ≡ []) × (t ≡ []) ⊎ (t ≢ []) × (t ≡ t)
    empty [] = inl (refl, refl)
    empty (c ∷ cs) = inr ((λ e. cc), refl)
trim_end-append (x ∷ xs) ys = elim (trim_end-append xs ys) [
  | inl (gone, all) ↦ inl (gone, ap (trim_cons x) all)
  | inr (kept, all) ↦ inr (kept, ap (trim_cons x) all ∙ trim_cons_kept x xs (trim_end ys) kept)
]

trim_cons_twice : (x : ℕ) (t : FilePath) → trim_end t ≡ t → trim_end (trim_cons x t) ≡ trim_cons x t
unfolding trim_end
trim_cons_twice x [] e = elim (Bool-cases (x == slash)) [ inl h ↦ rw h | inr h ↦ rw h (rw h) ]
trim_cons_twice x (d ∷ ds) e = ap (trim_cons x) e

trim_end_twice : (xs : FilePath) → trim_end (trim_end xs) ≡ trim_end xs
unfolding trim_end
trim_end_twice [] = refl
trim_end_twice (x ∷ xs) = trim_cons_twice x (trim_end xs) (trim_end_twice xs)

trim_cons-cases :
    (x : ℕ) (t : FilePath) → (trim_cons x t ≡ []) ⊎ ((u : FilePath) × (trim_cons x t ≡ x ∷ u))
unfolding trim_cons
trim_cons-cases x [] = elim (Bool-cases (x == slash)) [
  | inl h ↦ inl (rw h)
  | inr h ↦ inr ([], rw h)
]
trim_cons-cases x (d ∷ ds) = inr (d ∷ ds, refl)

trim_end-cons :
    (x : ℕ) (rest : FilePath)
    → (trim_end (x ∷ rest) ≡ []) ⊎ ((t : FilePath) × (trim_end (x ∷ rest) ≡ x ∷ t))
unfolding trim_end
trim_end-cons x rest = trim_cons-cases x (trim_end rest)

-- The shape of a path below `r` once the slashes at its end are gone.
Below-trim_end : (b r : FilePath) → Below b r → trim_end r ≡ r → Below (trim_end b) r
Below-trim_end b r (inl e) fix = inl (ap trim_end e ∙ fix)
Below-trim_end b r (inr (rest, e)) fix = elim (trim_end-append r (slash ∷ rest)) [
  | inl (gone, all) ↦ inl (ap trim_end e ∙ all ∙ fix)
  | inr (kept, all) ↦ elim (trim_end-cons slash rest) [
    | inl gone ↦ absurd (kept gone)
    | inr (t, shape) ↦ inr (t, ap trim_end e ∙ all ∙ ap (λ x. r ++ x) shape)
  ]
]

Below-trans : (a b r : FilePath) → Below a b → Below b r → Below a r
Below-trans a b r (inl e) y = rw e y
Below-trans a b r (inr (t, e)) (inl f) = inr (t, e ∙ ap (λ x. x ++ slash ∷ t) f)
Below-trans a b r (inr (t, e)) (inr (u, f)) =
    inr (u ++ slash ∷ t, e ∙ ap (λ x. x ++ slash ∷ t) f ∙ append_assoc r (slash ∷ u) (slash ∷ t))

-- Paths nest: what lies under a path that lies under a root lies under that root.
pub path_under_root_trans :
    (a b c : FilePath)
    → path_under_root a b ≡ true
    → path_under_root b c ≡ true
    → path_under_root a c ≡ true
path_under_root_trans a b c h k = under_complete a c (
    Below-trans a (trim_end b) (trim_end c) (under_sound a b h)
      (Below-trim_end b (trim_end c) (under_sound b c k) (trim_end_twice c)))
