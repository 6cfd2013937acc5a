-- ===== src/Matcher/Merge/Roots.antt =====
-- The maps by root that `merge_transitive` of crates/vidcull-matcher/src/cluster.rs fills after the
-- last call of `union`.
use vidcull.Prelude.{
  ℕ, ◌<◌, ◌≡◌, refl, sym, ap, ◌∙◌, ◌⊎◌, inl, inr, some, List, [], ◌∷◌, ◌∈◌, length, All, ltb, arith,
}
use mathlib.Core.Path.{subst}
use mathlib.Core.Option.{some-injective}
use vidcull.Prelude.Maps.{upsert, push}
use vidcull.Core.{FileId}
use vidcull.Matcher.DisjointSet.{DisjointSet, find}
use vidcull.Matcher.DisjointSet.Roots.{Root, IsValid, Root-unique}
use vidcull.Matcher.DisjointSet.Find.{find_lem, Root-exists}
use vidcull.Matcher.Trust.{GroupMembership}
use vidcull.Matcher.Merge.{ByRoot, index_of, members_by_root, groups_by_root, at_least}
use vidcull.Matcher.Merge.Ids.{Member, first, later}
use vidcull.Matcher.Merge.Positions.{At, mem-At, Shared, in_first, in_later}
use vidcull.Prelude.Maps.Push.{
  ltb-IsStrict, Holds, IsMap, push-Holds_keep, push-Holds_self, push-Holds_of, push-IsMap,
}
use vidcull.Matcher.Merge.Keys.{Present, upsert-Present_self, upsert-Present_keep}

-- A structure with the trees of `ds`.
pub record Keeps (ds ds' : DisjointSet) : Type 0 where
  pub valid : IsValid ds'
  pub same_length : length ds'.parent ≡ length ds.parent
  pub roots : (y s : ℕ) → Root ds.parent y s → Root ds'.parent y s

pub Keeps-self : (ds : DisjointSet) → IsValid ds → Keeps ds ds
Keeps-self ds w = record { valid = w; same_length = refl; roots = λ y s q. q }

find-Keeps :
    (ds now : DisjointSet) (i : ℕ)
    → IsValid ds
    → Keeps ds now
    → i < length ds.parent
    → (r : ℕ) × (after : DisjointSet) × (find now i ≡ some (r, after))
      × Root ds.parent i r
      × Keeps ds after
find-Keeps ds now i w k low =
    let (r, after, f) = find_lem now i k.valid (omega (arith, k.same_length)) in
    let (s, path) = Root-exists ds.parent ds.size i w low in
    let same : s ≡ r = Root-unique (k.roots i s path) f.is_root in
    (
      r,
      after,
      f.ran,
      subst (Root ds.parent i) same path,
      record {
        valid = f.valid;
        same_length = f.same_length ∙ k.same_length;
        roots = λ y t q. f.roots y t (k.roots y t q);
      },
    )

-- The file y has its position in the tree of r.
abbrev pub Placed : DisjointSet → List FileId → ℕ → FileId → Type 0
Placed ds ids r y = (i : ℕ) × At ids y i × Root ds.parent i r

pub record Grouped (ds : DisjointSet) (ids rest : List FileId) (acc m : List (ℕ × List FileId))
    : Type 0 where
  pub is_map : IsMap ltb m
  pub kept : (r y : ℕ) → Holds r y acc → Holds r y m
  pub complete : (y : FileId) → y ∈ rest → (r : ℕ) × Holds r y m
  pub sound : (r y : ℕ) → Holds r y m → Holds r y acc ⊎ ((y ∈ rest) × Placed ds ids r y)

pub members_by_root_lem :
    (ds : DisjointSet) (ids rest : List FileId) (now : DisjointSet) (acc : List (ℕ × List FileId))
    → IsValid ds
    → length ds.parent ≡ length ids
    → Keeps ds now
    → IsMap ltb acc
    → All (λ x. x ∈ ids) rest
    → (m : List (ℕ × List FileId)) × (after : DisjointSet) × (members_by_root ids rest now acc
        ≡ some (m, after))
      × Keeps ds after
      × Grouped ds ids rest acc m
unfolding members_by_root
members_by_root_lem ds ids [] now acc w size k is_map h = (
  acc,
  now,
  refl,
  k,
  record { is_map = is_map; kept = λ r y q. q; complete = λ y m. absurd m; sound = λ r y q. inl q },
)
members_by_root_lem ds ids (x ∷ rest) now acc w size k is_map h =
    let (i, at, low) = mem-At ids x h.0 in
    let (root, next, found, path, k') = find-Keeps ds now i w k (omega (arith, low, size)) in
    let acc' = push ltb root x acc in
    let (m, after, ran, k'', g) =
      members_by_root_lem ds ids rest next acc' w size k'
        (push-IsMap ltb ltb-IsStrict root x acc is_map) h.1 in
    (
      m,
      after,
      rw (at, found) ran,
      k'',
      record {
        is_map = g.is_map;
        kept = λ r y q. g.kept r y (push-Holds_keep ltb ltb-IsStrict r y root x acc q);
        complete = λ y q. elim q [
          | inl e ↦ (
            root,
            subst (λ v. Holds root v m) (sym e)
                (g.kept root x (push-Holds_self ltb ltb-IsStrict root x acc)),
          )
          | inr t ↦ g.complete y t
        ];
        sound = λ r y q. elim (g.sound r y q) [
          | inr t ↦ inr (inr t.0, t.1)
          | inl t ↦ elim (push-Holds_of ltb ltb-IsStrict r y root x acc t) [
            | inr old ↦ inl old
            | inl new ↦ inr (
              inl new.1,
              (i, ap (index_of ids) new.1 ∙ at, subst (Root ds.parent i) (sym new.0) path),
            )
          ]
        ];
      },
    )

-- `f` is the first member of one of the groups.
pub data Head (f : FileId) : List GroupMembership → Type 0 where
  of_first :
      {g : GroupMembership} {gs : List GroupMembership} {rest : List FileId}
      → g.members ≡ f ∷ rest
      → Head f (g ∷ gs)
  of_later : {g : GroupMembership} {gs : List GroupMembership} → Head f gs → Head f (g ∷ gs)

abbrev pub NonEmpty : GroupMembership → Type 0
NonEmpty g = (f : FileId) × (rest : List FileId) × (g.members ≡ f ∷ rest)

pub Member-Head :
    {x : FileId} {gs : List GroupMembership}
    → All NonEmpty gs
    → Member x gs
    → (f : FileId) × Head f gs × Shared x f gs
Member-Head h (first m) =
    let (f, rest, e) = h.0 in (f, of_first e, in_first m (subst (λ l. f ∈ l) (sym e) (inl refl)))
Member-Head h (later m) = let (f, head, s) = Member-Head h.1 m in (f, of_later head, in_later s)

-- What the second loop leaves: a trust for each root that had one, and for the root of each group.
pub record Reps (ds : DisjointSet) (ids : List FileId) (gs : List GroupMembership)
    (acc out : ByRoot) : Type 0 where
  pub kept : (r : ℕ) → Present r acc.1 → Present r out.1
  pub filled : (f : FileId) (r : ℕ) → Head f gs → Placed ds ids r f → Present r out.1

same_first : (f f' : FileId) (l rest rest' : List FileId) → l ≡ f ∷ rest → l ≡ f' ∷ rest' → f ≡ f'
same_first f f' l rest rest' e e' = cc

Placed-unique :
    (ds : DisjointSet) (ids : List FileId) (f f' : FileId) (i r root : ℕ)
    → f' ≡ f
    → At ids f i
    → Root ds.parent i root
    → Placed ds ids r f'
    → root ≡ r
Placed-unique ds ids f f' i r root e at path (j, at', path') =
    let same : j ≡ i = some-injective _ _ (sym at' ∙ ap (index_of ids) e ∙ at) in
    Root-unique path (subst (λ v. Root ds.parent v r) same path')

pub groups_by_root_lem :
    (ds : DisjointSet) (ids : List FileId) (gs : List GroupMembership) (now : DisjointSet)
    (acc : ByRoot)
    → IsValid ds
    → length ds.parent ≡ length ids
    → Keeps ds now
    → All NonEmpty gs
    → ((x : FileId) → Member x gs → x ∈ ids)
    → (out : ByRoot) × (groups_by_root ids gs now acc ≡ some out) × Reps ds ids gs acc out
unfolding groups_by_root
groups_by_root_lem ds ids [] now acc w size k full h =
    (acc, refl, record { kept = λ r p. p; filled = λ f r head. elim head [ ] })
groups_by_root_lem ds ids (g ∷ gs) now (group_ids, reps) w size k full h =
    let (f, rest, e) = full.0 in
    let (i, at, low) = mem-At ids f (h f (first (subst (λ l. f ∈ l) (sym e) (inl refl)))) in
    let (root, next, found, path, k') = find-Keeps ds now i w k (omega (arith, low, size)) in
    let reps' = upsert ltb root (at_least g.trust) reps in
    let (out, ran, p) =
      groups_by_root_lem ds ids gs next (push ltb root g.group_id group_ids, reps') w size k' full.1
        (λ x m. h x (later m)) in
    (
      out,
      rw (e, at, found, groups_by_root) ran,
      record {
        kept = λ r q. p.kept r (upsert-Present_keep r root (at_least g.trust) reps q);
        filled = λ f' r head placed. elim head [
          | of_first {rest = rest'} e' ↦
              let same =
                Placed-unique ds ids f f' i r root (same_first f' f g.members rest' rest e' e) at
                  path placed in
              subst (λ v. Present v out.1) same
                (p.kept root (upsert-Present_self root (at_least g.trust) reps))
          | of_later head' ↦ p.filled f' r head' placed
        ];
      },
    )
