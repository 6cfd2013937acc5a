-- ===== src/Db/TaskQueue/Next.antt =====
-- `dequeue_next` of crates/vidcull-db/src/repo/task_queue.rs against a description of what it is to do.
use vidcull.Prelude.{
  ◌<◌, ◌≡◌, ◌≢◌, ◌⊎◌, refl, inl, inr, true, Option, none, some, List, ◌∈◌, eqb_list, eqb_list-eq,
  eqb_list_refl, arith,
}
use vidcull.Prelude.Int.{ℤ, ◌≤ℤ◌, ◌<ℤ◌, suc_ℤ}
use vidcull.Core.{Text}
use vidcull.Db.TaskQueue.{
  TaskState, pending, running, done, failed, Row, Task, Queue, is_state, is_due, by_age,
  by_priority, row_to_task, dequeue_next,
}
use vidcull.Db.TaskQueue.Dequeue.{Starts, Dequeues, idle, took, dequeue_next-Dequeues}
use vidcull.Db.TaskQueue.Lifecycle.{IsValid}

-- A task of the kind that waits, at a time at which it may start.
pub record IsWaiting (kind : Text) (now : ℤ) (r : Row) : Type 0 where
  pub waits : r.state ≡ pending
  pub of_kind : r.kind ≡ kind
  pub due : r.enqueued_at ≤ℤ now

-- A higher priority; with the same priority an earlier time; with the same time a smaller id.
abbrev pub Precedes : Row → Row → Type 0
Precedes a b =
    (b.priority <ℤ a.priority)
    ⊎ ((a.priority ≡ b.priority)
        × ((a.enqueued_at <ℤ b.enqueued_at) ⊎ ((a.enqueued_at ≡ b.enqueued_at) × (a.id < b.id))))

-- The rows after the task `b` was started: it runs, with the time as its start and one attempt more, and
-- the others are as they were.
pub record Started (b : Row) (now : ℤ) (old new : List Row) : Type 0 where
  pub started :
      record b { state = running; started_at = some now; attempts = suc_ℤ b.attempts } ∈ new
  pub kept : (r : Row) → r ∈ old → r.id ≢ b.id → r ∈ new
  pub only :
      (r : Row)
      → r ∈ new
      → (r ≡ record b { state = running; started_at = some now; attempts = suc_ℤ b.attempts })
        ⊎ ((r ∈ old) × (r.id ≢ b.id))

-- The table and the answer of a call.
pub data TakesNext (kind : Text) (now : ℤ) (q : Queue) : Queue × Option Task → Type 0 where
  nothing_due : ((r : Row) → r ∈ q.rows → IsWaiting kind now r → ⊥) → TakesNext kind now q (q, none)
  next :
      (b : Row) (new : List Row)
      → b ∈ q.rows
      → IsWaiting kind now b
      → ((r : Row) → r ∈ q.rows → IsWaiting kind now r → Precedes r b → ⊥)
      → Started b now q.rows new
      → TakesNext kind now q (
        record q { rows = new },
        some (record {
          id = b.id;
          kind = b.kind;
          state = running;
          priority = b.priority;
          payload = b.payload;
          attempts = suc_ℤ b.attempts;
          enqueued_at = b.enqueued_at;
          started_at = some now;
          finished_at = b.finished_at;
          last_error = b.last_error;
        }),
      )

is_pending : (s : TaskState) → is_state s pending ≡ true → s ≡ pending
is_pending pending h = refl
is_pending running h = cc
is_pending done h = cc
is_pending failed h = cc

is_due-IsWaiting :
    (kind : Text) (now : ℤ) (r : Row) → is_due kind now r ≡ true → IsWaiting kind now r
is_due-IsWaiting kind now r h = record {
  waits = is_pending r.state (ground arith);
  of_kind = eqb_list-eq r.kind kind (ground arith);
  due = ground arith;
}

IsWaiting-is_due :
    (kind : Text) (now : ℤ) (r : Row) → IsWaiting kind now r → is_due kind now r ≡ true
IsWaiting-is_due kind now r w =
    let same : eqb_list r.kind kind ≡ true = rw w.of_kind (eqb_list_refl kind) in
    let state : is_state r.state pending ≡ true = rw w.waits refl in let due = w.due in ground arith

Precedes-by_priority : (a b : Row) → Precedes a b → by_priority a b ≡ true
unfolding by_priority by_age
Precedes-by_priority a b (inl h) = ground arith
Precedes-by_priority a b (inr (e, inl h)) = rw e (ground arith)
Precedes-by_priority a b (inr (e, inr (f, h))) = rw (e, f) (ground arith)

Starts-Started :
    (b : Row) (now : ℤ) (old new : List Row) → Starts b now old new → Started b now old new
Starts-Started b now old new s = record { started = s.started; kept = s.kept; only = s.only }

Dequeues-TakesNext :
    (kind : Text) (now : ℤ) (q : Queue) (res : Queue × Option Task)
    → Dequeues (is_due kind now) by_priority now q res
    → TakesNext kind now q res
unfolding row_to_task
Dequeues-TakesNext kind now q res (idle none_due) =
    nothing_due (λ r m w. absurd (ground (arith, none_due r m, IsWaiting-is_due kind now r w)))
Dequeues-TakesNext kind now q res (took b new m pass least starts) =
    next b new m (is_due-IsWaiting kind now b pass)
      (λ r i w before. absurd (
        ground (arith, least r i (IsWaiting-is_due kind now r w), Precedes-by_priority r b before)))
      (Starts-Started b now q.rows new starts)

-- `dequeue_next` on a valid queue: if no task of the kind waits whose time has come, nothing changes and
-- there is no answer. Else the answer is such a task that no other such task precedes, by a higher
-- priority, an earlier time or a smaller id; it runs now, from the given time and with one attempt
-- more, and every other row is as it was.
pub dequeue_next_lem :
    (kind : Text) (now : ℤ) (q : Queue) → IsValid q → TakesNext kind now q (dequeue_next kind now q)
dequeue_next_lem kind now q v =
    Dequeues-TakesNext kind now q (dequeue_next kind now q) (dequeue_next-Dequeues kind now q v)
