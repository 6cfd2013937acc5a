-- ===== src/Daemon/Throttle/Covered.antt =====
-- The tokens of the registered decodes in crates/vidcull-daemon/src/throttle.rs: which are set, or are
-- about to be, while roots are removed.
use vidcull.Prelude.{
  ℕ, zero, suc, ◌<◌, ◌≡◌, refl, ap, ◌∙◌, ◌⊎◌, inl, inr, Bool, true, some, List, [], ◌∷◌, ◌++◌,
  arith, ◌∈◌, length, length-set, length-append, get_elem?, set, get_elem?-set_self, Bool-cases,
  any-mem,
}
use vidcull.Daemon.Paths.{FilePath, path_under_root}
use vidcull.Daemon.Throttle.{
  ThrottleControl, Token, under_any, is_path_removed, register_begin, mark_loop, mark_tokens,
}

-- A decode is told to stop, or no root of `roots` holds it but those that a thread in
-- `mark_roots_removed` is about to visit.
abbrev pub Visits : List (List FilePath) → FilePath → Type 0
Visits marking root = (roots : List FilePath) × (roots ∈ marking) × (root ∈ roots)

abbrev pub Covered : List FilePath → List (List FilePath) → List Bool → FilePath → Token → Type 0
Covered removed marking flags path token =
    (token < length flags)
    × ((get_elem? flags token ≡ some true)
        ⊎ ((root : FilePath)
            → root ∈ removed
            → path_under_root path root ≡ true
            → Visits marking root))

pub get_elem?-append :
    {A : Type 0} (xs ys : List A) (i : ℕ) → i < length xs → get_elem? (xs ++ ys) i ≡ get_elem? xs i
get_elem?-append [] ys i h = absurd (omega arith)
get_elem?-append (x ∷ xs) ys zero h = refl
get_elem?-append (x ∷ xs) ys (suc i) h = get_elem?-append xs ys i (omega arith)

pub get_elem?-append_end :
    {A : Type 0} (xs : List A) (a : A) → get_elem? (xs ++ a ∷ []) (length xs) ≡ some a
get_elem?-append_end [] a = refl
get_elem?-append_end (x ∷ xs) a = get_elem?-append_end xs a

pub Covered-append :
    (removed : List FilePath) (marking : List (List FilePath)) (flags : List Bool) (b : Bool)
    (path : FilePath) (token : Token)
    → Covered removed marking flags path token
    → Covered removed marking (flags ++ b ∷ []) path token
Covered-append removed marking flags b path token (low, inl told) = (
  omega (arith, length-append flags (b ∷ [])),
  inl (get_elem?-append flags (b ∷ []) token low ∙ told),
)
Covered-append removed marking flags b path token (low, inr free) =
    (omega (arith, length-append flags (b ∷ [])), inr free)

-- A token that was just made.
pub Covered-fresh :
    (c : ThrottleControl) (marking : List (List FilePath)) (path : FilePath)
    → Covered c.removed_roots marking (register_begin path c).flags path (length c.flags)
unfolding register_begin
Covered-fresh c marking path = (
  omega (arith, length-append c.flags (is_path_removed path c ∷ [])),
  elim (Bool-cases (is_path_removed path c)) [
    | inl gone ↦ inl (get_elem?-append_end c.flags (is_path_removed path c) ∙ ap some gone)
    | inr free ↦ inr (λ root m under.
        absurd (ground (arith, any-mem (λ r. path_under_root path r) c.removed_roots root m under)))
  ],
)

-- The loop of `mark_roots_removed` only sets flags.
pub mark_loop-length :
    (roots : List FilePath) (es : List (FilePath × Token)) (flags : List Bool)
    → length (mark_loop roots es flags) ≡ length flags
unfolding mark_loop
mark_loop-length roots [] flags = refl
mark_loop-length roots ((path, token) ∷ es) flags =
    mark_loop-length roots es _ ∙ ground (arith, length-set flags token true)

pub get_elem?-set-true :
    (flags : List Bool) (t i : ℕ)
    → get_elem? flags i ≡ some true
    → get_elem? (set flags t true) i ≡ some true
get_elem?-set-true [] t i h = h
get_elem?-set-true (b ∷ bs) zero zero h = refl
get_elem?-set-true (b ∷ bs) zero (suc i) h = h
get_elem?-set-true (b ∷ bs) (suc t) zero h = h
get_elem?-set-true (b ∷ bs) (suc t) (suc i) h = get_elem?-set-true bs t i h

pub mark_loop-keeps :
    (roots : List FilePath) (es : List (FilePath × Token)) (flags : List Bool) (i : ℕ)
    → get_elem? flags i ≡ some true
    → get_elem? (mark_loop roots es flags) i ≡ some true
unfolding mark_loop
mark_loop-keeps roots [] flags i h = h
mark_loop-keeps roots ((path, token) ∷ es) flags i h =
    mark_loop-keeps roots es _ i (ground (arith, get_elem?-set-true flags token i))

pub mark_loop-tells :
    (roots : List FilePath) (es : List (FilePath × Token)) (flags : List Bool) (path : FilePath)
    (token : Token)
    → (path, token) ∈ es
    → token < length flags
    → under_any path roots ≡ true
    → get_elem? (mark_loop roots es flags) token ≡ some true
unfolding mark_loop
mark_loop-tells roots [] flags path token m low h = absurd m
mark_loop-tells roots ((p, t) ∷ es) flags path token (inl e) low h =
    let same : path ≡ p = ap (λ q. q.0) e in
    let at : token ≡ t = ap (λ q. q.1) e in
    let here : under_any p roots ≡ true = rw same at h in
    let told : get_elem? (set flags t true) token ≡ some true =
      rw at (get_elem?-set_self flags t true (omega arith)) in
    mark_loop-keeps roots es _ token (rw here told)
mark_loop-tells roots ((p, t) ∷ es) flags path token (inr m) low h =
    mark_loop-tells roots es _ path token m (ground (arith, length-set flags t true)) h

-- Steps that leave the tokens alone, and only forget removed roots or add visits.
pub Covered-weaken :
    (removed removed' : List FilePath) (marking marking' : List (List FilePath)) (flags : List Bool)
    (path : FilePath) (token : Token)
    → ((root : FilePath) → root ∈ removed' → (root ∈ removed) ⊎ Visits marking' root)
    → ((root : FilePath) → Visits marking root → Visits marking' root)
    → Covered removed marking flags path token
    → Covered removed' marking' flags path token
Covered-weaken removed removed' marking marking' flags path token old more (low, inl told) =
    (low, inl told)
Covered-weaken removed removed' marking marking' flags path token old more (low, inr free) = (
  low,
  inr (λ root m under. elim (old root m) [ inl m' ↦ more root (free root m' under) | inr v ↦ v ]),
)

pub mem-middle :
    (before after : List (List FilePath)) (roots rs : List FilePath)
    → rs ∈ (before ++ roots ∷ after)
    → (rs ≡ roots) ⊎ (rs ∈ (before ++ after))
mem-middle [] after roots rs m = m
mem-middle (b ∷ bs) after roots rs (inl e) = inr (inl e)
mem-middle (b ∷ bs) after roots rs (inr m) = elim (mem-middle bs after roots rs m) [
  | inl e ↦ inl e
  | inr t ↦ inr (inr t)
]

-- The visit of `roots` to every registered decode.
pub Covered-mark :
    (c : ThrottleControl) (before after : List (List FilePath)) (roots : List FilePath)
    (path : FilePath) (token : Token)
    → (path, token) ∈ c.active_decodes
    → Covered c.removed_roots (before ++ roots ∷ after) c.flags path token
    → Covered c.removed_roots (before ++ after) (mark_tokens roots c).flags path token
unfolding mark_tokens
Covered-mark c before after roots path token m (low, told) = (
  omega (arith, mark_loop-length roots c.active_decodes c.flags),
  elim told [
    | inl t ↦ inl (mark_loop-keeps roots c.active_decodes c.flags token t)
    | inr free ↦ elim (Bool-cases (under_any path roots)) [
      | inl hit ↦ inl (mark_loop-tells roots c.active_decodes c.flags path token m low hit)
      | inr miss ↦ inr (λ root r under.
          let (rs, v, i) = free root r under in
          elim (mem-middle before after roots rs v) [
            | inl e ↦
                let at : root ∈ roots = rw e at i in
                absurd (ground (arith, any-mem (λ x. path_under_root path x) roots root at under))
            | inr v' ↦ (rs, v', i)
          ])
    ]
  ],
)
