-- ===== src/Matcher/Exact/Whole.antt =====
-- `rebuild_exact_groups` of crates/vidcull-matcher/src/exact.rs as a whole, with the hashes that it reads.
use mathlib.Core.Path.{subst}
use mathlib.Core.Option.{some-injective}
use vidcull.Prelude.{
  ℕ, ◌<◌, ◌≤◌, ◌≡◌, ◌≢◌, ◌⊎◌, refl, sym, ap, ◌∙◌, inl, inr, true, none, some, Option-cases, List,
  [], ◌∷◌, any, length, ltb, ◌==◌, Bool-cases, ==→≡, ==→≢, ==_refl, ltb→lt, ltb→ge, ◌∈◌, All,
  All-imp, All-mem, All-of_mem, arith,
}
use vidcull.Prelude.Int.{ℤ}
use vidcull.Prelude.Result.{Result, ok, err, ◌>>=◌}
use vidcull.Prelude.Sort.{sort_by, insert_by, mem_of_insert_by}
use vidcull.Prelude.Maps.{dedup, skip_same}
use vidcull.Core.{FileId}
use vidcull.Db.Groups.{DbError, bad_column, Tables, FileRow, has_file}
use vidcull.Db.Groups.Listing.{hashed_rows, list_hashed_active}
use vidcull.Matcher.Exact.{Hash, ExactGroup, plan_exact_groups}
use vidcull.Matcher.Exact.Plan.{plan_exact_groups_lem, plan-ids}
use vidcull.Matcher.Exact.Apply.{RebuildOutcome, no_outcome, apply_all, rebuild_exact_groups}
use vidcull.Matcher.Exact.Rebuild.{IsDistinct, IsValid}
use vidcull.Matcher.Exact.Outcome.{apply_group_lem}

-- Ascending, with repetitions.
abbrev IsSorted : List ℕ → Type 0
IsSorted [] = Unit
IsSorted (x ∷ xs) = All (λ y. x ≤ y) xs × IsSorted xs

insert_by-IsSorted : (x : ℕ) (l : List ℕ) → IsSorted l → IsSorted (insert_by ltb x l)
unfolding insert_by
insert_by-IsSorted x [] w = (tt, tt)
insert_by-IsSorted x (y ∷ l) (low, w) = elim (Bool-cases (ltb y x)) [
  | inl e ↦
      let h = ltb→lt y x e in
      rw e (
        All-of_mem (insert_by ltb x l) (λ z m. elim (mem_of_insert_by ltb z x l m) [
          | inl q ↦ omega (arith, q)
          | inr i ↦ All-mem (λ v. y ≤ v) l z low i
        ]),
        insert_by-IsSorted x l w,
      )
  | inr e ↦
      let h = ltb→ge y x e in rw e ((omega arith, All-imp l (λ z q. omega arith) low), (low, w))
]

sort_by-IsSorted : (l : List ℕ) → IsSorted (sort_by ltb l)
unfolding sort_by
sort_by-IsSorted [] = tt
sort_by-IsSorted (x ∷ l) = insert_by-IsSorted x (sort_by ltb l) (sort_by-IsSorted l)

-- What `skip_same` keeps of a sorted list lies above the element in front.
skip_same-above :
    (x : ℕ) (l : List ℕ)
    → All (λ y. x ≤ y) l
    → IsSorted l
    → All (λ y. x < y) (skip_same x l) × IsDistinct (skip_same x l)
skip_same-above x [] h w = (tt, tt)
skip_same-above x (y ∷ l) (le, h) (low, w) =
    let (above, d) = skip_same-above y l low w in
    elim (Bool-cases (x == y)) [
      | inl e ↦
          let same = ==→≡ x y e in rw e (All-imp (skip_same y l) (λ z q. omega arith) above, d)
      | inr e ↦
          let other = ==→≢ x y e in
          rw e (
            (omega arith, All-imp (skip_same y l) (λ z q. omega arith) above),
            (λ m. absurd (omega (arith, All-mem (λ v. y < v) (skip_same y l) y above m)), d),
          )
    ]

dedup-IsDistinct : (l : List ℕ) → IsSorted l → IsDistinct (dedup l)
dedup-IsDistinct [] w = tt
dedup-IsDistinct (x ∷ l) (low, w) =
    let (above, d) = skip_same-above x l low w in
    ((λ m. absurd (omega (arith, All-mem (λ v. x < v) (skip_same x l) x above m))), d)

plan-IsDistinct :
    (hashed : List (FileId × Hash)) (g : ExactGroup)
    → g ∈ plan_exact_groups hashed
    → IsDistinct g.members
plan-IsDistinct hashed g m =
    let (l, e) = plan-ids hashed g m in
    subst (λ v. IsDistinct v) (sym e) (dedup-IsDistinct (sort_by ltb l) (sort_by-IsSorted l))

module _ {F : Type 0} where
  -- A file that is not deleted with a hash that has not its 32 bytes.
  abbrev pub IsMalformed : FileRow F → Type 0
  IsMalformed f = (f.deleted_at ≡ none) × ((h : Hash) × (f.content_hash ≡ some h) × (length h ≢ 32))

  -- Every hash that was read belongs to a file.
  abbrev OfFiles : List (FileRow F) → List (FileId × Hash) → Type 0
  OfFiles rows hashed =
      (f : FileId) (h : Hash)
      → ◌∈◌ {A = FileId × List ℕ} (f, h) hashed
      → any (has_file f) rows ≡ true

  OfFiles-cons :
      (row : FileRow F) (rows : List (FileRow F)) (hashed : List (FileId × Hash))
      → OfFiles rows hashed
      → OfFiles (row ∷ rows) hashed
  OfFiles-cons row rows hashed known f h m = elim (Bool-cases (has_file f row)) [
    | inl e ↦ rw e refl
    | inr e ↦ rw e (known f h m)
  ]

  -- What reading the hashes of `rows` gives.
  abbrev Outcome : List (FileRow F) → Result DbError (List (FileId × Hash)) → Type 0
  Outcome rows r =
      ((hashed : List (FileId × Hash)) × (r ≡ ok hashed)
        × OfFiles rows hashed
        × ((f : FileRow F) → f ∈ rows → IsMalformed f → ⊥))
      ⊎ ((r ≡ err bad_column) × ((f : FileRow F) × (f ∈ rows) × IsMalformed f))

  no_more :
      (row : FileRow F) (rows : List (FileRow F))
      → (IsMalformed row → ⊥)
      → ((f : FileRow F) → f ∈ rows → IsMalformed f → ⊥)
      → (f : FileRow F) → f ∈ (row ∷ rows)
      → IsMalformed f
      → ⊥
  no_more row rows fine all f (inl e) bad = fine (subst (λ v. IsMalformed v) e bad)
  no_more row rows fine all f (inr m) bad = all f m bad

  -- A row whose hash is not read.
  passed :
      (row : FileRow F) (rows : List (FileRow F)) (r : Result DbError (List (FileId × Hash)))
      → (IsMalformed row → ⊥)
      → Outcome rows r
      → Outcome (row ∷ rows) r
  passed row rows r fine (inl (hashed, e, known, all)) =
      inl (hashed, e, OfFiles-cons row rows hashed known, no_more row rows fine all)
  passed row rows r fine (inr (e, (f, m, bad))) = inr (e, (f, inr m, bad))

  -- A row whose hash is read.
  pushed :
      (row : FileRow F) (rows : List (FileRow F)) (hash : Hash)
      (r : Result DbError (List (FileId × Hash)))
      → (IsMalformed row → ⊥)
      → Outcome rows r
      → Outcome (row ∷ rows) (r >>= λ hashed. ok ((row.id, hash) ∷ hashed))
  pushed row rows hash r fine (inl (hashed, e, known, all)) = inl (
    (row.id, hash) ∷ hashed,
    rw e refl,
    (λ f h m. elim m [
      | inl same ↦ rw (ap (λ v. v.0) same) (rw (==_refl row.id) refl)
      | inr i ↦ OfFiles-cons row rows hashed known f h i
    ]),
    no_more row rows fine all,
  )
  pushed row rows hash r fine (inr (e, (f, m, bad))) = inr (rw e refl, (f, inr m, bad))

  hashed_rows-Outcome : (rows : List (FileRow F)) → Outcome rows (hashed_rows rows)
  unfolding hashed_rows
  hashed_rows-Outcome [] = inl ([], refl, (λ f h m. absurd m), (λ f m. absurd m))
  hashed_rows-Outcome (row ∷ rows) = elim (Option-cases row.content_hash) [
    | inl q ↦
        let same : hashed_rows (row ∷ rows) ≡ hashed_rows rows = rw q refl in
        subst (Outcome (row ∷ rows)) (sym same) (
          passed row rows (hashed_rows rows)
            (λ bad. let (d, (h, e, n)) = bad in absurd (ground (arith, q, e)))
            (hashed_rows-Outcome rows))
    | inr (hash, q) ↦ elim (Option-cases row.deleted_at) [
      | inr (time, k) ↦
          let same : hashed_rows (row ∷ rows) ≡ hashed_rows rows = rw (q, k) refl in
          subst (Outcome (row ∷ rows)) (sym same) (
            passed row rows (hashed_rows rows)
              (λ bad. let (d, (h, e, n)) = bad in absurd (ground (arith, k, d)))
              (hashed_rows-Outcome rows))
      | inl k ↦ elim (Bool-cases (length hash == 32)) [
        | inl e ↦
            let read : hashed_rows (row ∷ rows)
                ≡ (hashed_rows rows >>= λ hashed. ok ((row.id, hash) ∷ hashed)) =
              rw (q, k, e) refl in
            subst (Outcome (row ∷ rows)) (sym read) (
              pushed row rows hash (hashed_rows rows)
                (λ bad.
                  let (d, (h, at, n)) = bad in
                  n (ap length (some-injective _ _ (sym at ∙ q)) ∙ ==→≡ (length hash) 32 e))
                (hashed_rows-Outcome rows))
        | inr e ↦
            let failed : hashed_rows (row ∷ rows) ≡ err bad_column = rw (q, k, e) refl in
            subst (Outcome (row ∷ rows)) (sym failed)
              (inr (refl, (row, inl refl, (k, (hash, q, ==→≢ (length hash) 32 e)))))
      ]
    ]
  ]

  apply_all-ok :
      (groups : List ExactGroup) (now : ℤ) (t : Tables F) (o : RebuildOutcome)
      → IsValid t
      → ((g : ExactGroup)
          → g ∈ groups
          → IsDistinct g.members × ((f : FileId) → f ∈ g.members → any (has_file f) t.files ≡ true))
      → (t' : Tables F) × (o' : RebuildOutcome) × (apply_all groups now (t, o) ≡ ok (t', o'))
        × IsValid t'
        × (t'.files ≡ t.files)
  unfolding apply_all
  apply_all-ok [] now t o w each = (t, o, refl, w, refl)
  apply_all-ok (g ∷ groups) now t o w each =
      let (d, known) = each g (inl refl) in
      let (t1, o1, ran, applied) = apply_group_lem g now t o w d known in
      let (t', o', rest, w', files) = apply_all-ok groups now t1 o1 applied.valid (λ g' i.
        let (d', known') = each g' (inr i) in
        (d', λ f m. subst (λ v. any (has_file f) v ≡ true) (sym applied.files) (known' f m))) in
      (t', o', ap (λ r. r >>= λ s. apply_all groups now s) ran ∙ rest, w', files ∙ applied.files)

-- On valid tables `rebuild_exact_groups` fails only if a file that is not deleted has a hash that has not
-- 32 bytes, and then it does, with that error. Else it breaks no key and ends with its outcome, and each
-- file is in at most one exact group afterwards too.
pub rebuild_exact_groups-IsValid :
    {F : Type 0} (now : ℤ) (t : Tables F)
    → IsValid t
    → ((t' : Tables F) × (o : RebuildOutcome) × (rebuild_exact_groups now t ≡ ok (t', o))
        × IsValid t'
        × (t'.files ≡ t.files)
        × ((f : FileRow F) → f ∈ t.files → IsMalformed f → ⊥))
      ⊎ ((rebuild_exact_groups now t ≡ err bad_column)
          × ((f : FileRow F) × (f ∈ t.files) × IsMalformed f))
unfolding rebuild_exact_groups list_hashed_active
rebuild_exact_groups-IsValid now t w = elim (hashed_rows-Outcome t.files) [
  | inl (hashed, e, known, all) ↦
      let (sound, complete) = plan_exact_groups_lem hashed in
      let (t', o, ran, valid, files) =
        apply_all-ok (plan_exact_groups hashed) now t no_outcome w
          (λ g m. (plan-IsDistinct hashed g m, λ f i. known f g.hash (((sound g m).1 f).0 i))) in
      inl (t', o, rw e ran, valid, files, all)
  | inr (e, bad) ↦ inr (rw e refl, bad)
]
