-- ===== src/Db/Groups.antt =====
-- `DuplicateGroupsRepo` of crates/vidcull-db/src/repo/duplicate_groups.rs over the tables
-- `duplicate_groups`, `duplicate_group_members` and `files`. Foreign keys are on: a statement that breaks
-- a key gives an error and changes nothing.
pub mod Joined
pub mod Active
pub mod Listing
pub mod Members
use package.vidcull.Prelude.{
  ℕ, ◌+◌, ◌^◌, max, Bool, true, false, ◌&&◌, ◌||◌, not, Option, none, some, List, [], ◌∷◌, ◌++◌,
  map, any, retain, take, drop, length, ltb, ◌==◌, if◌then◌else◌,
}
use package.vidcull.Prelude.Int.{ℤ, pos, negsuc}
use package.vidcull.Prelude.Result.{Result, ok, err, ◌>>=◌, map_ok}
use package.vidcull.Prelude.Sort.{insert_by}
use package.vidcull.Prelude.Maps.{insert_id, extend}
use package.vidcull.Core.{FileId, Text, Codec, Resolution, TrustLevel, exact, very_likely, possible}

-- A broken key, and a column that does not convert.
pub data DbError : Type 0 where
  constraint bad_column : DbError

abbrev pub is_trust : TrustLevel → TrustLevel → Bool
is_trust exact exact = true
is_trust very_likely very_likely = true
is_trust possible possible = true
is_trust exact _ = false
is_trust very_likely _ = false
is_trust possible _ = false

pub record DuplicateGroup : Type 0 where
  pub id : ℕ
  pub trust_level : TrustLevel
  pub best_file_id : Option FileId
  pub created_at : ℤ
  pub updated_at : ℤ
  pub non_transitive : Bool

-- A row of `files`; `columns` are the columns that `row_to_group_member` hands on as they are.
pub record FileRow (F : Type 0) : Type 0 where
  pub id : FileId
  pub width_px : Option ℤ
  pub height_px : Option ℤ
  pub size_bytes : ℤ
  pub content_hash : Option (List ℕ)
  pub deleted_at : Option ℤ
  pub columns : F

pub record GroupMemberRecord (F : Type 0) : Type 0 where
  pub file_id : FileId
  pub resolution : Option Resolution
  pub size_bytes : ℤ
  pub columns : F

pub record Tables (F : Type 0) : Type 0 where
  pub groups : List DuplicateGroup
  pub next_id : ℕ
  pub members : List (ℕ × FileId)
  pub files : List (FileRow F)

abbrev pub has_group : ℕ → DuplicateGroup → Bool
has_group id g = g.id == id

abbrev pub is_member : ℕ → FileId → ℕ × FileId → Bool
is_member group_id file_id m = m.0 == group_id && m.1 == file_id

-- The order of the primary key.
abbrev pub member_before : ℕ × FileId → ℕ × FileId → Bool
member_before a b = ltb a.0 b.0 || (a.0 == b.0 && ltb a.1 b.1)

abbrev pub is_some : {A : Type 0} → Option A → Bool
is_some none = false
is_some (some a) = true

abbrev pub new_group : TrustLevel → Bool → ℤ → ℕ → DuplicateGroup
new_group trust_level non_transitive when id = record {
  id = id;
  trust_level = trust_level;
  best_file_id = none;
  created_at = when;
  updated_at = when;
  non_transitive = non_transitive;
}

abbrev pub group_at : ℕ → List DuplicateGroup → Option DuplicateGroup
group_at id [] = none
group_at id (g ∷ gs) = if g.id == id then some g else group_at id gs

abbrev pub update_best : ℕ → Option FileId → ℤ → List DuplicateGroup → List DuplicateGroup
update_best id best when [] = []
update_best id best when (g ∷ gs) =
    (if g.id == id then record g { best_file_id = best; updated_at = when } else g)
    ∷ update_best id best when gs

abbrev pub group_before : DuplicateGroup → DuplicateGroup → Bool
group_before a b = ltb a.id b.id

-- `LIMIT 1` with no order: the first by the group's id.
unfoldable pub exact_group_of : FileId → List (ℕ × FileId) → List DuplicateGroup → Option ℕ
exact_group_of file_id members [] = none
exact_group_of file_id members (g ∷ gs) =
    let rest = exact_group_of file_id members gs in
    if is_trust g.trust_level exact && any (is_member g.id file_id) members then some g.id else rest

module _ {F : Type 0} where
  abbrev pub has_file : FileId → FileRow F → Bool
  has_file id f = f.id == id

  abbrev pub add_group : TrustLevel → Bool → ℤ → Tables F → Tables F × ℕ
  add_group trust_level non_transitive when t = (
    record t {
      groups = t.groups ++ (new_group trust_level non_transitive when t.next_id ∷ []);
      next_id = t.next_id + 1;
    },
    t.next_id,
  )

  unfoldable pub create : TrustLevel → ℤ → Tables F → Tables F × ℕ
  create trust_level when = add_group trust_level false when

  unfoldable pub create_non_transitive : TrustLevel → ℤ → Tables F → Tables F × ℕ
  create_non_transitive trust_level when = add_group trust_level true when

  unfoldable pub get : ℕ → Tables F → Option DuplicateGroup
  get id t = group_at id t.groups

  unfoldable pub list_all : Tables F → List DuplicateGroup
  list_all t = t.groups

  -- A best file that does not exist breaks the foreign key, if there is a row to update.
  unfoldable pub set_best : ℕ → Option FileId → ℤ → Tables F → Result DbError (Tables F)
  set_best id best when t =
      let known : Bool = elim best [ none ↦ true | some f ↦ any (has_file f) t.files ] in
      if any (has_group id) t.groups && not known
      then err constraint
      else ok (record t { groups = update_best id best when t.groups })

  -- Both foreign keys of a member.
  abbrev pub keys_exist : ℕ → FileId → Tables F → Bool
  keys_exist group_id file_id t =
      any (has_group group_id) t.groups && any (has_file file_id) t.files

  abbrev pub insert_member : ℕ → FileId → Tables F → Tables F
  insert_member group_id file_id t = record t {
    members = insert_by member_before (group_id, file_id) t.members;
  }

  unfoldable pub add_member : ℕ → FileId → Tables F → Result DbError (Tables F)
  add_member group_id file_id t =
      if any (is_member group_id file_id) t.members || not (keys_exist group_id file_id t)
      then err constraint
      else ok (insert_member group_id file_id t)

  -- `OR IGNORE` skips a row that is there already, but not a broken foreign key.
  unfoldable pub add_member_if_absent : ℕ → FileId → Tables F → Result DbError (Tables F)
  add_member_if_absent group_id file_id t =
      if any (is_member group_id file_id) t.members
      then ok t
      else if keys_exist group_id file_id t
      then ok (insert_member group_id file_id t)
      else err constraint

  -- Says how many rows went.
  unfoldable pub remove_member : ℕ → FileId → Tables F → Tables F × ℕ
  remove_member group_id file_id t = (
    record t { members = retain (λ m. not (is_member group_id file_id m)) t.members },
    length (retain (is_member group_id file_id) t.members),
  )

  unfoldable pub list_members : ℕ → Tables F → List FileId
  list_members group_id t = map (λ m. m.1) (retain (λ m. m.0 == group_id) t.members)

  -- Rows of `duplicate_groups` go with their members.
  abbrev pub delete_groups : (DuplicateGroup → Bool) → Tables F → Tables F
  delete_groups p t = record t {
    groups = retain (λ g. not (p g)) t.groups;
    members = retain (λ m. not (any (λ g. p g && g.id == m.0) t.groups)) t.members;
  }

  unfoldable pub delete : ℕ → Tables F → Tables F
  delete id = delete_groups (has_group id)

  unfoldable pub delete_by_trust : TrustLevel → Tables F → Tables F × ℕ
  delete_by_trust trust t =
      let p = λ (g : DuplicateGroup). is_trust g.trust_level trust in
      (delete_groups p t, length (retain p t.groups))

  unfoldable pub delete_non_transitive_by_trust : TrustLevel → Tables F → Tables F × ℕ
  delete_non_transitive_by_trust trust t =
      let p = λ (g : DuplicateGroup). is_trust g.trust_level trust && g.non_transitive in
      (delete_groups p t, length (retain p t.groups))

  unfoldable pub create_with_id : ℕ → TrustLevel → Bool → ℤ → Tables F → Result DbError (Tables F)
  create_with_id id trust_level non_transitive when t =
      if any (has_group id) t.groups
      then err constraint
      else ok (record t {
        groups = insert_by group_before (new_group trust_level non_transitive when id) t.groups;
        next_id = max t.next_id (id + 1);
      })

  unfoldable pub find_exact_group_containing : FileId → Tables F → Option ℕ
  unfolding exact_group_of
  find_exact_group_containing file_id t = exact_group_of file_id t.members t.groups
