-- ===== src/Db/TaskQueue/Queries.antt =====
-- The statements of crates/vidcull-db/src/repo/task_queue.rs that only read. A query with no
-- `ORDER BY`, and one by id, lists the rows in the order of their ids.
use vidcull.Prelude.{
  ℕ, ◌+◌, ◌-◌, ◌≤◌, Bool, true, false, ◌&&◌, ◌||◌, not, Option, none, some, List, [], ◌∷◌, ◌++◌,
  map, retain, ltb, any, max, ◌==◌, if◌then◌else◌, eqb_list,
}
use vidcull.Prelude.Int.{ℤ, pos, ltb_ℤ, leb_ℤ, eqb_ℤ, pos_part, neg_part}
use vidcull.Prelude.Result.{Result, ok, ◌>>=◌}
use vidcull.Prelude.Sort.{sort_by}
use vidcull.Core.{Text}
use vidcull.Db.TaskQueue.{
  TaskState, pending, running, failed, as_text, Payload, Row, Task, row_to_task, Queue, has_id,
  is_state, eqb_payload, count_where, is_future, by_age,
}

abbrev pub is_active : Row → Bool
is_active r = is_state r.state pending || is_state r.state running

unfoldable pub has_failed_with_size : Payload → ℤ → Queue → Bool
has_failed_with_size payload size_bytes q = ltb 0 (
    count_where
      (λ r.
        eqb_payload r.payload payload && is_state r.state failed && eqb_ℤ r.size_bytes size_bytes)
      q.rows)

unfoldable pub count_failed_by_payload : Text → Payload → Queue → ℕ
count_failed_by_payload kind payload q =
    count_where
      (λ r. is_state r.state failed && eqb_list r.kind kind && eqb_payload r.payload payload) q.rows

-- The ids and payloads of the rows that pass and have a payload.
abbrev pub payloads_where : (Row → Bool) → List Row → List (ℕ × Payload)
payloads_where p [] = []
payloads_where p (r ∷ rs) =
    if p r
    then elim r.payload [ none ↦ payloads_where p rs | some b ↦ (r.id, b) ∷ payloads_where p rs ]
    else payloads_where p rs

unfoldable pub list_active_payloads : Text → Queue → List (ℕ × Payload)
list_active_payloads kind q = payloads_where (λ r. eqb_list r.kind kind && is_active r) q.rows

-- `COALESCE(MAX(id), 0)`.
abbrev pub max_id_of : Text → List Row → ℕ
max_id_of kind [] = 0
max_id_of kind (r ∷ rs) = max (if eqb_list r.kind kind then r.id else 0) (max_id_of kind rs)

unfoldable pub max_id : Text → Queue → ℕ
max_id kind q = max_id_of kind q.rows

abbrev pub states_after : Text → ℕ → List Row → List (ℕ × Payload × Text)
states_after kind after_id [] = []
states_after kind after_id (r ∷ rs) =
    if eqb_list r.kind kind && ltb after_id r.id
    then elim r.payload [
      | none ↦ states_after kind after_id rs
      | some b ↦ (r.id, b, as_text r.state) ∷ states_after kind after_id rs
    ]
    else states_after kind after_id rs

unfoldable pub list_payloads_after : Text → ℕ → Queue → List (ℕ × Payload × Text)
list_payloads_after kind after_id q = states_after kind after_id q.rows

unfoldable pub exists_active_by_payload : Text → Payload → Queue → Bool
exists_active_by_payload kind payload q =
    ltb 0 (
      count_where (λ r. eqb_list r.kind kind && eqb_payload r.payload payload && is_active r)
        q.rows)

unfoldable pub exists : ℕ → Queue → Bool
exists id q = any (has_id id) q.rows

abbrev pub get_in : ℕ → List Row → Option Task
get_in id [] = none
get_in id (r ∷ rs) = if has_id id r then some (row_to_task r) else get_in id rs

unfoldable pub get : ℕ → Queue → Option Task
get id q = get_in id q.rows

-- `ORDER BY enqueued_at ASC, id ASC`.
unfoldable pub future_enqueued_pending : ℤ → Queue → List (ℤ × ℤ)
unfolding sort_by by_age
future_enqueued_pending now q =
    map (λ r. (r.enqueued_at, r.attempts)) (sort_by by_age (retain (is_future now) q.rows))

unfoldable pub count_by_state : TaskState → Queue → ℕ
count_by_state state q = count_where (λ r. is_state r.state state) q.rows

-- `COUNT(DISTINCT payload)` over the rows that pass and have a payload.
abbrev pub distinct_payloads : (Row → Bool) → List Row → List Payload
distinct_payloads p [] = []
distinct_payloads p (r ∷ rs) =
    let rest = distinct_payloads p rs in
    if p r
    then elim r.payload [ none ↦ rest | some b ↦ if any (eqb_list b) rest then rest else b ∷ rest ]
    else rest

abbrev pub is_null : Row → Bool
is_null r = elim r.payload [ none ↦ true | some _ ↦ false ]

abbrev pub count_files : (Row → Bool) → List Row → ℕ
count_files p rs =
    package.vidcull.Prelude.length (distinct_payloads p rs) + count_where (λ r. p r && is_null r) rs

unfoldable pub count_distinct_files_by_state : TaskState → Queue → ℕ
count_distinct_files_by_state state q =
    count_files (λ r. is_state r.state state && leb_ℤ (pos 0) r.priority) q.rows

unfoldable pub count_distinct_files_at_priority : ℤ → TaskState → Queue → ℕ
count_distinct_files_at_priority priority state q =
    count_files (λ r. is_state r.state state && eqb_ℤ r.priority priority) q.rows

unfoldable pub count_pending_min_priority : ℤ → Queue → ℕ
count_pending_min_priority min_priority q =
    count_where (λ r. is_state r.state pending && leb_ℤ min_priority r.priority) q.rows

unfoldable pub count_pending_by_kind : Text → Queue → ℕ
count_pending_by_kind kind q =
    count_where (λ r. is_state r.state pending && eqb_list r.kind kind) q.rows

abbrev pub min_of : ℤ → Option ℤ → ℤ
min_of a none = a
min_of a (some b) = if ltb_ℤ b a then b else a

abbrev pub min_enqueued : (Row → Bool) → List Row → Option ℤ
min_enqueued p [] = none
min_enqueued p (r ∷ rs) =
    let rest = min_enqueued p rs in if p r then some (min_of r.enqueued_at rest) else rest

unfoldable pub min_pending_enqueued_at : Text → Queue → Option ℤ
min_pending_enqueued_at kind q =
    min_enqueued (λ r. is_state r.state pending && eqb_list r.kind kind) q.rows

abbrev pub sum_part : (ℤ → ℕ) → List Row → ℕ
sum_part part [] = 0
sum_part part (r ∷ rs) = (if is_active r then part r.size_bytes else 0) + sum_part part rs

-- `u64::try_from(total).unwrap_or(0)`: a negative total counts as 0, as `-` on ℕ does.
unfoldable pub sum_outstanding_size_bytes : Queue → ℕ
sum_outstanding_size_bytes q = sum_part pos_part q.rows - sum_part neg_part q.rows

unfoldable pub list_by_state : TaskState → Queue → List Task
list_by_state state q = map row_to_task (retain (λ r. is_state r.state state) q.rows)

unfoldable pub list_by_priority_state : ℤ → TaskState → Queue → List Task
list_by_priority_state priority state q =
    map row_to_task (retain (λ r. is_state r.state state && eqb_ℤ r.priority priority) q.rows)

-- A visitor is called for one value after another, until it fails.
module _ {E S V : Type 0} where
  unfoldable pub visit_each : (V → S → Result E S) → List V → S → Result E S
  visit_each visit [] s = ok s
  visit_each visit (v ∷ vs) s = visit v s >>= visit_each visit vs

module _ {E S : Type 0} where
  unfoldable pub visit_by_state : TaskState → (Task → S → Result E S) → Queue → S → Result E S
  unfolding list_by_state
  visit_by_state state visit q = visit_each visit (list_by_state state q)

  unfoldable pub visit_payload_by_priority_state :
      ℤ → TaskState → (Option Payload → S → Result E S) → Queue → S → Result E S
  visit_payload_by_priority_state priority state visit q = visit_each visit (
      map (λ r. r.payload)
        (retain (λ r. is_state r.state state && eqb_ℤ r.priority priority) q.rows))

  unfoldable pub visit_priority_payload_by_state :
      TaskState → (ℤ × Option Payload → S → Result E S) → Queue → S → Result E S
  visit_priority_payload_by_state state visit q =
      visit_each visit
        (map (λ r. (r.priority, r.payload)) (retain (λ r. is_state r.state state) q.rows))
