-- ===== src/Matcher/Ranking/Chosen.antt =====
-- `assign_best_copies` of crates/vidcull-matcher/src/ranking.rs against a description of the best copies.
use mathlib.Core.Path.{subst}
use vidcull.Prelude.{
  ℕ, ◌≤◌, ◌≡◌, refl, sym, ap, ◌∙◌, ◌⊎◌, inl, inr, true, Option, none, some, List, [], ◌∷◌, map, leb,
  ◌∈◌, arith,
}
use vidcull.Prelude.Int.{ℤ, pos}
use vidcull.Prelude.Result.{ok}
use vidcull.Prelude.Word.{u32_max}
use vidcull.Core.{FileId, BestCopyMode, archival, Resolution}
use vidcull.Db.Groups.{DuplicateGroup, FileRow, GroupMemberRecord, Tables}
use vidcull.Db.Groups.Active.{IsActive, HasFileIds, live_of-IsActive, IsActive-live_of}
use vidcull.Db.Groups.Listing.{combine_resolution, row_to_group_member}
use vidcull.Db.Groups.Joined.{HasIds, live_of, records_of}
use vidcull.Matcher.Ranking.{StdOps, Candidate, score_quality, select_best}
use vidcull.Matcher.Ranking.Order.{Wins}
use vidcull.Matcher.Ranking.Best.{select_best-IsBest}
use vidcull.Matcher.Ranking.Assign.{
  Columns, BestCopyOutcome, score_members, load_best_copy_mode, assign_best_copies,
}
use vidcull.Matcher.Ranking.Finalize.{choose, Changes, CountsMissing}
use vidcull.Matcher.Ranking.Assigned.{best_of, Steps, mem_of_map, all_assigned}

-- The mode that stored settings give: the mode for archives if there are none or they cannot be read.
pub data IsMode (from_bytes : List ℕ → Option BestCopyMode)
    : Option (List ℕ) → BestCopyMode → Type 0 where
  not_stored : IsMode from_bytes none archival
  not_readable :
      {bytes : List ℕ} → from_bytes bytes ≡ none → IsMode from_bytes (some bytes) archival
  stored :
      {bytes : List ℕ} {mode : BestCopyMode}
      → from_bytes bytes ≡ some mode
      → IsMode from_bytes (some bytes) mode

IsMode-load_best_copy_mode :
    (from_bytes : List ℕ → Option BestCopyMode) (settings : Option (List ℕ)) (mode : BestCopyMode)
    → IsMode from_bytes settings mode
    → load_best_copy_mode from_bytes settings ≡ mode
IsMode-load_best_copy_mode from_bytes settings mode not_stored = refl
IsMode-load_best_copy_mode from_bytes settings mode (not_readable e) =
    rw (load_best_copy_mode, e) refl
IsMode-load_best_copy_mode from_bytes settings mode (stored e) = rw (load_best_copy_mode, e) refl

-- The two columns of a resolution convert: both are missing, or both are the values of a u32.
pub data IsResolution : Option ℤ → Option ℤ → Option Resolution → Type 0 where
  unknown : IsResolution none none none
  sized :
      (w h : ℕ)
      → w ≤ u32_max
      → h ≤ u32_max
      → IsResolution (some (pos w)) (some (pos h)) (some (record { width = w; height = h }))

combine_resolution_lem :
    (w h : Option ℤ) (r : Option Resolution) → IsResolution w h r → combine_resolution w h ≡ ok r
unfolding combine_resolution
combine_resolution_lem w h r unknown = refl
combine_resolution_lem w h r (sized x y low high) =
    let a : leb x u32_max ≡ true = ground arith in
    let b : leb y u32_max ≡ true = ground arith in rw (a, b) refl

module _ (std : StdOps) (mode : BestCopyMode)
    (res : FileRow (Columns std.F64) → Option Resolution) where
  -- A file as a candidate, by its own columns and the resolution that `res` gives.
  abbrev pub candidate : FileRow (Columns std.F64) → Candidate
  candidate f = (
    f.id,
    score_quality std
        (record {
          file_id = f.id;
          resolution = res f;
          bitrate_bps = f.columns.bitrate_bps;
          codec = f.columns.codec;
          container = f.columns.container;
          size_bytes = f.size_bytes;
          laplacian_variance = f.columns.laplacian_variance;
          dct_energy = f.columns.dct_energy;
          bpp = f.columns.bpp;
          encoder_tags = f.columns.encoder_tags;
        })
        mode,
  )

  -- The best copy of a group: none if it has no active member; else an active member that every other
  -- one yields to, by the score and then by the id.
  abbrev pub IsChoice : Tables (Columns std.F64) → DuplicateGroup → Option FileId → Type 0
  IsChoice t g best =
      ((best ≡ none) × ((f : FileRow (Columns std.F64)) → IsActive t g f → ⊥))
      ⊎ ((w : FileRow (Columns std.F64)) × (best ≡ some w.id)
          × IsActive t g w
          × ((f : FileRow (Columns std.F64)) → IsActive t g f → Wins (candidate w) (candidate f)))

  -- The groups before and after, in their order, and the counters from `o` to `o'`.
  abbrev pub Assigns :
      Tables (Columns std.F64)
      → ℤ
      → List DuplicateGroup
      → List DuplicateGroup
      → BestCopyOutcome
      → BestCopyOutcome
      → Type 0
  Assigns t now [] [] o o' = o' ≡ o
  Assigns t now [] (g' ∷ gs') o o' = ⊥
  Assigns t now (g ∷ gs) [] o o' = ⊥
  Assigns t now (g ∷ gs) (g' ∷ gs') o o' =
      (o1 : BestCopyOutcome) × ((best : Option FileId) × IsChoice t g best
        × Changes best now g g' o o1
        × CountsMissing best o o1)
      × Assigns t now gs gs' o1 o'

  abbrev convert : FileRow (Columns std.F64) → GroupMemberRecord (Columns std.F64)
  convert f = record {
    file_id = f.id;
    resolution = res f;
    size_bytes = f.size_bytes;
    columns = f.columns;
  }

  converts :
      (f : FileRow (Columns std.F64))
      → IsResolution f.width_px f.height_px (res f)
      → row_to_group_member f ≡ ok (convert f)
  unfolding row_to_group_member
  converts f h = rw (combine_resolution_lem f.width_px f.height_px (res f) h) refl

  scored-candidate :
      (fs : List (FileRow (Columns std.F64)))
      → score_members std mode (map convert fs) ≡ map candidate fs
  unfolding score_members
  scored-candidate [] = refl
  scored-candidate (f ∷ fs) = ap (λ v. candidate f ∷ v) (scored-candidate fs)

  mem-map_of :
      (fs : List (FileRow (Columns std.F64))) (f : FileRow (Columns std.F64))
      → f ∈ fs
      → candidate f ∈ map candidate fs
  mem-map_of [] f m = absurd m
  mem-map_of (x ∷ fs) f (inl e) = inl (ap candidate e)
  mem-map_of (x ∷ fs) f (inr m) = inr (mem-map_of fs f m)

  best_of-IsChoice :
      (t : Tables (Columns std.F64)) (g : DuplicateGroup)
      → HasFileIds t.files
      → IsChoice t g (best_of std mode (records_of convert t g))
  best_of-IsChoice t g known =
      subst (λ cs. IsChoice t g (select_best cs)) (sym (scored-candidate (live_of t g)))
        (elim (select_best-IsBest (map candidate (live_of t g))) [
          | inl (empty, e) ↦
              inl (e, λ f active. nobody f (IsActive-live_of t g f known active) empty)
          | inr (w, e, b) ↦
              let (row, i, same) = mem_of_map candidate (live_of t g) w b.among in
              inr (
                row,
                e ∙ ap (λ v. some v.0) same,
                live_of-IsActive t g row i,
                λ f active.
                    subst (λ v. Wins v (candidate f)) same
                      (b.wins (candidate f)
                        (mem-map_of (live_of t g) f (IsActive-live_of t g f known active))),
              )
        ])
    where
      nobody :
          (f : FileRow (Columns std.F64)) → f ∈ live_of t g → map candidate (live_of t g) ≡ [] → ⊥
      nobody f m empty =
          let nowhere : candidate f ∈ [] =
            subst (λ v. candidate f ∈ v) empty (mem-map_of (live_of t g) f m) in
          nowhere

  Steps-Assigns :
      (t : Tables (Columns std.F64)) (now : ℤ) (gs : List DuplicateGroup) (o o' : BestCopyOutcome)
      → HasFileIds t.files
      → Steps std mode (records_of convert t) now gs o o'
      → Assigns t now gs
          (map (λ g. choose (best_of std mode (records_of convert t g)) now g) gs)
          o
          o'
  Steps-Assigns t now [] o o' known steps = steps
  Steps-Assigns t now (g ∷ gs) o o' known (o1, changes, missing, steps) = (
    o1,
    (best_of std mode (records_of convert t g), best_of-IsChoice t g known, changes, missing),
    Steps-Assigns t now gs o1 o' known steps,
  )

-- Suppose that groups have different ids, and files too, that the columns of the resolution of every file
-- convert, and that the settings give a mode. Then the assignment succeeds. Every group has the best
-- copy among its members that exist and are not deleted, by their scores in that mode, or none; its
-- row changes, with the time, exactly if that is another copy than before; nothing else in the tables
-- changes, and the counters say how many groups were updated, were not, and have no such member.
pub assign_best_copies_lem :
    (std : StdOps) (from_bytes : List ℕ → Option BestCopyMode) (settings : Option (List ℕ))
    (mode : BestCopyMode) (res : FileRow (Columns std.F64) → Option Resolution) (now : ℤ)
    (t : Tables (Columns std.F64))
    → IsMode from_bytes settings mode
    → HasIds t.groups
    → HasFileIds t.files
    → ((f : FileRow (Columns std.F64)) → f ∈ t.files → IsResolution f.width_px f.height_px (res f))
    → (groups : List DuplicateGroup) × (o : BestCopyOutcome) × (assign_best_copies std from_bytes
          settings now t
        ≡ ok (record t { groups = groups }, o))
      × Assigns std mode res t now t.groups groups
          (record { groups_updated = 0; groups_unchanged = 0; groups_without_active_members = 0 })
          o
unfolding assign_best_copies
assign_best_copies_lem std from_bytes settings mode res now t set ids files each =
    let (o, e, steps) =
      all_assigned std mode (convert std mode res) now t ids
        (λ f m. converts std mode res f (each f m)) in
    (
      map (λ g. choose (best_of std mode (records_of (convert std mode res) t g)) now g) t.groups,
      o,
      rw (IsMode-load_best_copy_mode from_bytes settings mode set) e,
      Steps-Assigns std mode res t now t.groups _ o files steps,
    )
