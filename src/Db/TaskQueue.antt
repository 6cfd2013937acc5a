-- ===== src/Db/TaskQueue.antt =====
-- crates/vidcull-db/src/repo/task_queue.rs: the persistent queue of indexing tasks. The table
-- `task_queue` is the list of its rows in the order of their ids, with the next AUTOINCREMENT id;
-- a failure of the database itself (`map_err`) is not modelled.
pub mod Queries
pub mod Order
pub mod Dequeue
pub mod Next
pub mod Lifecycle
pub mod Recovery
use package.vidcull.Prelude.{
  ℕ, ◌+◌, ◌≤◌, Bool, true, false, ◌&&◌, ◌||◌, not, Option, none, some, List, [], ◌∷◌, ◌++◌, map,
  retain, ltb, ◌==◌, if◌then◌else◌, eqb_list, length,
}
use package.vidcull.Prelude.Int.{ℤ, pos, suc_ℤ, ltb_ℤ, leb_ℤ, eqb_ℤ}
use package.vidcull.Prelude.Result.{Result, ok, err}
use package.vidcull.Core.{Text, codes}

pub data TaskState : Type 0 where
  pending running done failed : TaskState

unfoldable pub as_text : TaskState → Text
as_text pending = codes "PENDING"
as_text running = codes "RUNNING"
as_text done = codes "DONE"
as_text failed = codes "FAILED"

-- The error carries the text that is no state.
unfoldable pub from_text : Text → Result Text TaskState
from_text s =
    if eqb_list s (codes "PENDING")
    then ok pending
    else if eqb_list s (codes "RUNNING")
    then ok running
    else if eqb_list s (codes "DONE")
    then ok done
    else if eqb_list s (codes "FAILED")
    then ok failed
    else err s

-- `state = 'PENDING'` and the like, in SQL.
abbrev pub is_state : TaskState → TaskState → Bool
is_state pending pending = true
is_state running running = true
is_state done done = true
is_state failed failed = true
is_state pending _ = false
is_state running _ = false
is_state done _ = false
is_state failed _ = false

abbrev pub Payload : Type 0
Payload = List ℕ

pub record NewTask : Type 0 where
  pub kind : Text
  pub priority : ℤ
  pub payload : Option Payload
  pub enqueued_at : ℤ
  pub size_bytes : ℤ

-- A row of the table, which a `Task` shows less its size.
pub record Row : Type 0 where
  pub id : ℕ
  pub kind : Text
  pub state : TaskState
  pub priority : ℤ
  pub payload : Option Payload
  pub attempts : ℤ
  pub enqueued_at : ℤ
  pub started_at : Option ℤ
  pub finished_at : Option ℤ
  pub last_error : Option Text
  pub size_bytes : ℤ

pub record Task : Type 0 where
  pub id : ℕ
  pub kind : Text
  pub state : TaskState
  pub priority : ℤ
  pub payload : Option Payload
  pub attempts : ℤ
  pub enqueued_at : ℤ
  pub started_at : Option ℤ
  pub finished_at : Option ℤ
  pub last_error : Option Text

unfoldable pub row_to_task : Row → Task
row_to_task r = record {
  id = r.id;
  kind = r.kind;
  state = r.state;
  priority = r.priority;
  payload = r.payload;
  attempts = r.attempts;
  enqueued_at = r.enqueued_at;
  started_at = r.started_at;
  finished_at = r.finished_at;
  last_error = r.last_error;
}

pub record Queue : Type 0 where
  pub rows : List Row
  pub next_id : ℕ

abbrev pub empty_queue : Queue
empty_queue = record { rows = []; next_id = 1 }

-- `UPDATE … WHERE p`, and the number of rows for which `p` holds.
abbrev pub update_where : (Row → Bool) → (Row → Row) → List Row → List Row
update_where p f [] = []
update_where p f (r ∷ rs) = (if p r then f r else r) ∷ update_where p f rs

abbrev pub count_where : (Row → Bool) → List Row → ℕ
count_where p [] = 0
count_where p (r ∷ rs) = (if p r then 1 else 0) + count_where p rs

abbrev pub has_id : ℕ → Row → Bool
has_id id r = r.id == id

abbrev pub eqb_payload : Option Payload → Payload → Bool
eqb_payload none p = false
eqb_payload (some q) p = eqb_list q p

unfoldable pub enqueue : NewTask → Queue → Queue × ℕ
enqueue t q = (
  record {
    rows =
        q.rows
        ++ record {
          id = q.next_id;
          kind = t.kind;
          state = pending;
          priority = t.priority;
          payload = t.payload;
          attempts = pos 0;
          enqueued_at = t.enqueued_at;
          started_at = none;
          finished_at = none;
          last_error = none;
          size_bytes = t.size_bytes;
        }
          ∷ [];
    next_id = q.next_id + 1;
  },
  q.next_id,
)

-- `ORDER BY priority DESC, enqueued_at ASC, id ASC`.
unfoldable pub by_age : Row → Row → Bool
by_age a b =
    if eqb_ℤ a.enqueued_at b.enqueued_at then ltb a.id b.id else ltb_ℤ a.enqueued_at b.enqueued_at

unfoldable pub by_priority : Row → Row → Bool
by_priority a b = if eqb_ℤ a.priority b.priority then by_age a b else ltb_ℤ b.priority a.priority

-- `WHERE p ORDER BY … LIMIT 1`.
unfoldable pub first_where : (Row → Bool) → (Row → Row → Bool) → List Row → Option Row
first_where p before [] = none
first_where p before (r ∷ rs) =
    let rest = first_where p before rs in
    if p r then some (elim rest [ none ↦ r | some b ↦ if before b r then b else r ]) else rest

abbrev pub start_row : ℤ → Row → Row
start_row now r = record r { state = running; started_at = some now; attempts = suc_ℤ r.attempts }

-- `UPDATE … WHERE id = (SELECT …) RETURNING …`, with the row that the inner query found.
unfoldable pub take_row : ℤ → Queue → Option Row → Queue × Option Task
take_row now q none = (q, none)
take_row now q (some r) = (
  record q { rows = update_where (has_id r.id) (start_row now) q.rows },
  some (row_to_task (start_row now r)),
)

unfoldable pub dequeue_where : (Row → Bool) → (Row → Row → Bool) → ℤ → Queue → Queue × Option Task
unfolding take_row
dequeue_where p before now q = take_row now q (first_where p before q.rows)

abbrev pub is_due : Text → ℤ → Row → Bool
is_due kind now r = is_state r.state pending && eqb_list r.kind kind && leb_ℤ r.enqueued_at now

unfoldable pub dequeue_next : Text → ℤ → Queue → Queue × Option Task
dequeue_next kind now = dequeue_where (is_due kind now) by_priority now

unfoldable pub dequeue_next_at_priority : Text → ℤ → ℤ → Queue → Queue × Option Task
dequeue_next_at_priority kind priority now =
    dequeue_where (λ r. is_due kind now r && eqb_ℤ r.priority priority) by_age now

unfoldable pub dequeue_next_above_priority : Text → ℤ → ℤ → Queue → Queue × Option Task
dequeue_next_above_priority kind min_priority_exclusive now =
    dequeue_where (λ r. is_due kind now r && ltb_ℤ min_priority_exclusive r.priority) by_priority
      now

unfoldable pub mark_done : ℕ → ℤ → Queue → Queue
mark_done id finished_at q = record q {
  rows =
      update_where (has_id id) (λ r. record r { state = done; finished_at = some finished_at })
        q.rows;
}

unfoldable pub mark_failed : ℕ → ℤ → Text → Queue → Queue
mark_failed id finished_at message q = record q {
  rows =
      update_where (has_id id)
        (λ r. record r {
          state = failed;
          finished_at = some finished_at;
          last_error = some message;
        })
        q.rows;
}

unfoldable pub delete : ℕ → Queue → Queue
delete id q = record q { rows = retain (λ r. not (has_id id r)) q.rows }

abbrev pub is_pending_id : ℕ → Row → Bool
is_pending_id id r = has_id id r && is_state r.state pending

-- Says whether a row was deleted.
unfoldable pub delete_if_pending : ℕ → Queue → Queue × Bool
delete_if_pending id q = (
  record q { rows = retain (λ r. not (is_pending_id id r)) q.rows },
  ltb 0 (count_where (is_pending_id id) q.rows),
)

-- After a crash: no worker holds the running tasks any more. Returns their number.
unfoldable pub requeue_running : Queue → Queue × ℕ
requeue_running q = (
  record q {
    rows =
        update_where (λ r. is_state r.state running)
          (λ r. record r { state = pending; started_at = none }) q.rows;
  },
  count_where (λ r. is_state r.state running) q.rows,
)

abbrev pub is_future : ℤ → Row → Bool
is_future now r = is_state r.state pending && ltb_ℤ now r.enqueued_at

unfoldable pub reset_future_enqueued_pending : ℤ → Queue → Queue × ℕ
reset_future_enqueued_pending now q = (
  record q { rows = update_where (is_future now) (λ r. record r { enqueued_at = now }) q.rows },
  count_where (is_future now) q.rows,
)

unfoldable pub requeue_busy_task : ℕ → ℤ → ℤ → Queue → Queue
requeue_busy_task id enqueued_at attempts q = record q {
  rows =
      update_where (has_id id)
        (λ r. record r {
          state = pending;
          started_at = none;
          enqueued_at = enqueued_at;
          attempts = attempts;
        })
        q.rows;
}
