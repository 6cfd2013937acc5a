-- ===== src/Db/TaskQueue/Lifecycle.antt =====
-- The life of a task: the invariant of the table, and the statements of
-- crates/vidcull-db/src/repo/task_queue.rs that change it.
use vidcull.Prelude.{
  ℕ, ◌+◌, ◌<◌, ◌≤◌, ◌≡◌, refl, inl, inr, Bool, true, Option, none, some, List, [], ◌∷◌, ◌++◌, arith,
  retain, All, All-retain, All-append, All-imp, Bool-cases,
}
use vidcull.Prelude.Int.{ℤ}
use vidcull.Core.{Text}
use vidcull.Db.TaskQueue.{
  TaskState, pending, running, done, failed, Row, NewTask, Queue, empty_queue, update_where, has_id,
  enqueue, start_row, first_where, take_row, dequeue_where, dequeue_next, dequeue_next_at_priority,
  dequeue_next_above_priority, mark_done, mark_failed, delete, delete_if_pending, requeue_running,
  reset_future_enqueued_pending, requeue_busy_task,
}

abbrev Given : Option ℤ → Type 0
Given o = (t : ℤ) × (o ≡ some t)

-- A waiting task has no start, a running one has a start, a finished one has an end.
abbrev Stamps : TaskState → Option ℤ → Option ℤ → Type 0
Stamps pending started finished = started ≡ none
Stamps running started finished = Given started
Stamps done started finished = Given finished
Stamps failed started finished = Given finished

abbrev pub HasStamps : Row → Type 0
HasStamps r = Stamps r.state r.started_at r.finished_at

abbrev pub Ascending : List Row → Type 0
Ascending [] = Unit
Ascending (r ∷ rs) = All (λ x. r.id < x.id) rs × Ascending rs

-- The ids ascend and are below the next id, and the time stamps fit the states.
pub record IsValid (q : Queue) : Type 0 where
  pub ascending : Ascending q.rows
  pub fresh : All (λ r. r.id < q.next_id) q.rows
  pub stamps : All HasStamps q.rows

abbrev KeepsId : (Row → Row) → Type 0
KeepsId f = (r : Row) → (f r).id ≡ r.id

All-update_ids :
    (P : ℕ → Type 0) (p : Row → Bool) (f : Row → Row) (rs : List Row)
    → KeepsId f
    → All (λ r. P r.id) rs
    → All (λ r. P r.id) (update_where p f rs)
All-update_ids P p f [] k h = tt
All-update_ids P p f (r ∷ rs) k h = elim (Bool-cases (p r)) [
  | inl e ↦ rw e (rw k h.0, All-update_ids P p f rs k h.1)
  | inr e ↦ rw e (h.0, All-update_ids P p f rs k h.1)
]

Ascending-update :
    (p : Row → Bool) (f : Row → Row) (rs : List Row)
    → KeepsId f
    → Ascending rs
    → Ascending (update_where p f rs)
Ascending-update p f [] k h = tt
Ascending-update p f (r ∷ rs) k h = elim (Bool-cases (p r)) [
  | inl e ↦ rw e (rw k (All-update_ids (λ i. r.id < i) p f rs k h.0), Ascending-update p f rs k h.1)
  | inr e ↦ rw e (All-update_ids (λ i. r.id < i) p f rs k h.0, Ascending-update p f rs k h.1)
]

All-update :
    (P : Row → Type 0) (p : Row → Bool) (f : Row → Row) (rs : List Row)
    → ((r : Row) → p r ≡ true → P r → P (f r))
    → All P rs
    → All P (update_where p f rs)
All-update P p f [] k h = tt
All-update P p f (r ∷ rs) k h = elim (Bool-cases (p r)) [
  | inl e ↦ rw e (k r e h.0, All-update P p f rs k h.1)
  | inr e ↦ rw e (h.0, All-update P p f rs k h.1)
]

update-IsValid :
    (q : Queue) (p : Row → Bool) (f : Row → Row)
    → KeepsId f
    → ((r : Row) → p r ≡ true → HasStamps r → HasStamps (f r))
    → IsValid q
    → IsValid (record q { rows = update_where p f q.rows })
update-IsValid q p f k s v = record {
  ascending = Ascending-update p f q.rows k v.ascending;
  fresh = All-update_ids (λ i. i < q.next_id) p f q.rows k v.fresh;
  stamps = All-update HasStamps p f q.rows s v.stamps;
}

Ascending-retain : (p : Row → Bool) (rs : List Row) → Ascending rs → Ascending (retain p rs)
Ascending-retain p [] h = tt
Ascending-retain p (r ∷ rs) h = elim (Bool-cases (p r)) [
  | inl e ↦ rw e (All-retain (λ x. r.id < x.id) p rs h.0, Ascending-retain p rs h.1)
  | inr e ↦ rw e (Ascending-retain p rs h.1)
]

retain-IsValid :
    (q : Queue) (p : Row → Bool) → IsValid q → IsValid (record q { rows = retain p q.rows })
retain-IsValid q p v = record {
  ascending = Ascending-retain p q.rows v.ascending;
  fresh = All-retain (λ r. r.id < q.next_id) p q.rows v.fresh;
  stamps = All-retain HasStamps p q.rows v.stamps;
}

Ascending-append :
    (rs : List Row) (r : Row) → All (λ x. x.id < r.id) rs → Ascending rs → Ascending (rs ++ r ∷ [])
Ascending-append [] r b h = (tt, tt)
Ascending-append (x ∷ xs) r b h =
    (All-append (λ y. x.id < y.id) xs (r ∷ []) h.0 (b.0, tt), Ascending-append xs r b.1 h.1)

pub enqueue-IsValid : (t : NewTask) (q : Queue) → IsValid q → IsValid (enqueue t q).0
unfolding enqueue
enqueue-IsValid t q v = record {
  ascending = Ascending-append q.rows _ v.fresh v.ascending;
  fresh =
      All-append (λ r. r.id < q.next_id + 1) q.rows _
        (All-imp q.rows (λ r (h : r.id < q.next_id). omega arith) v.fresh) (omega arith, tt);
  stamps = All-append HasStamps q.rows _ v.stamps (refl, tt);
}

take_row-IsValid : (now : ℤ) (q : Queue) (o : Option Row) → IsValid q → IsValid (take_row now q o).0
unfolding take_row
take_row-IsValid now q none v = v
take_row-IsValid now q (some r) v =
    update-IsValid q (has_id r.id) (start_row now) (λ x. refl) (λ x e h. (now, refl)) v

take_row-next_id : (now : ℤ) (q : Queue) (o : Option Row) → q.next_id ≤ (take_row now q o).0.next_id
unfolding take_row
take_row-next_id now q none = omega arith
take_row-next_id now q (some r) = omega arith

pub dequeue_where-IsValid :
    (p : Row → Bool) (before : Row → Row → Bool) (now : ℤ) (q : Queue)
    → IsValid q
    → IsValid (dequeue_where p before now q).0
unfolding dequeue_where
dequeue_where-IsValid p before now q v = take_row-IsValid now q (first_where p before q.rows) v

-- The statements that change the table.
pub data Op : Type 0 where
  put : NewTask → Op
  take : Text → ℤ → Op
  take_at take_above : Text → ℤ → ℤ → Op
  finish : ℕ → ℤ → Op
  fail : ℕ → ℤ → Text → Op
  drop drop_if_pending : ℕ → Op
  recover : Op
  reset_future : ℤ → Op
  postpone : ℕ → ℤ → ℤ → Op

unfoldable pub apply : Op → Queue → Queue
apply (put t) q = (enqueue t q).0
apply (take kind now) q = (dequeue_next kind now q).0
apply (take_at kind priority now) q = (dequeue_next_at_priority kind priority now q).0
apply (take_above kind low now) q = (dequeue_next_above_priority kind low now q).0
apply (finish id now) q = mark_done id now q
apply (fail id now message) q = mark_failed id now message q
apply (drop id) q = delete id q
apply (drop_if_pending id) q = (delete_if_pending id q).0
apply recover q = (requeue_running q).0
apply (reset_future now) q = (reset_future_enqueued_pending now q).0
apply (postpone id at attempts) q = requeue_busy_task id at attempts q

unfoldable pub run : List Op → Queue → Queue
unfolding apply
run [] q = q
run (op ∷ ops) q = run ops (apply op q)

apply-IsValid : (op : Op) (q : Queue) → IsValid q → IsValid (apply op q)
unfolding apply dequeue_next dequeue_next_at_priority dequeue_next_above_priority mark_done
    mark_failed delete delete_if_pending requeue_running reset_future_enqueued_pending
    requeue_busy_task
apply-IsValid (put t) q v = enqueue-IsValid t q v
apply-IsValid (take kind now) q v = dequeue_where-IsValid _ _ now q v
apply-IsValid (take_at kind priority now) q v = dequeue_where-IsValid _ _ now q v
apply-IsValid (take_above kind low now) q v = dequeue_where-IsValid _ _ now q v
apply-IsValid (finish id now) q v = update-IsValid q _ _ (λ r. refl) (λ r e h. (now, refl)) v
apply-IsValid (fail id now message) q v = update-IsValid q _ _ (λ r. refl) (λ r e h. (now, refl)) v
apply-IsValid (drop id) q v = retain-IsValid q _ v
apply-IsValid (drop_if_pending id) q v = retain-IsValid q _ v
apply-IsValid recover q v = update-IsValid q _ _ (λ r. refl) (λ r e h. refl) v
apply-IsValid (reset_future now) q v = update-IsValid q _ _ (λ r. refl) (λ r e h. h) v
apply-IsValid (postpone id at attempts) q v = update-IsValid q _ _ (λ r. refl) (λ r e h. refl) v

apply-next_id : (op : Op) (q : Queue) → q.next_id ≤ (apply op q).next_id
unfolding apply enqueue dequeue_next dequeue_next_at_priority dequeue_next_above_priority
    dequeue_where mark_done mark_failed delete delete_if_pending requeue_running
    reset_future_enqueued_pending requeue_busy_task
apply-next_id (put t) q = omega arith
apply-next_id (take kind now) q = take_row-next_id now q _
apply-next_id (take_at kind priority now) q = take_row-next_id now q _
apply-next_id (take_above kind low now) q = take_row-next_id now q _
apply-next_id (finish id now) q = omega arith
apply-next_id (fail id now message) q = omega arith
apply-next_id (drop id) q = omega arith
apply-next_id (drop_if_pending id) q = omega arith
apply-next_id recover q = omega arith
apply-next_id (reset_future now) q = omega arith
apply-next_id (postpone id at attempts) q = omega arith

run-next_id : (ops : List Op) (q : Queue) → q.next_id ≤ (run ops q).next_id
unfolding run
run-next_id [] q = omega arith
run-next_id (op ∷ ops) q = omega (arith, apply-next_id op q, run-next_id ops (apply op q))

run_from-IsValid : (ops : List Op) (q : Queue) → IsValid q → IsValid (run ops q)
unfolding run
run_from-IsValid [] q v = v
run_from-IsValid (op ∷ rest) q v = run_from-IsValid rest (apply op q) (apply-IsValid op q v)

-- Every queue that statements build from the empty table, in any order, is valid: its ids ascend, a
-- waiting task has no start, a running one has a start, and a finished one has an end. No id is given
-- twice: whatever statements come between two calls of `enqueue`, deletions too, the later one
-- returns a greater id.
pub run-IsValid :
    (ops later : List Op) (t u : NewTask)
    → IsValid (run ops empty_queue)
      × ((enqueue t (run ops empty_queue)).1
          < (enqueue u (run later (enqueue t (run ops empty_queue)).0)).1)
unfolding enqueue
run-IsValid ops later t u = (
  run_from-IsValid ops empty_queue (record { ascending = tt; fresh = tt; stamps = tt }),
  omega (arith, run-next_id later (enqueue t (run ops empty_queue)).0),
)
