-- ===== src/Db/TaskQueue/Dequeue.antt =====
-- `dequeue_next` of crates/vidcull-db/src/repo/task_queue.rs: what it takes.
use vidcull.Prelude.{
  ◌<◌, ◌≡◌, ◌≢◌, refl, sym, ap, ◌∙◌, ◌⊎◌, inl, inr, Bool, true, false, Option, none, some, List, [],
  ◌∷◌, ◌∈◌, arith, All-mem, ==→≡, ==→≢, ≢→==, ==_refl, if◌then◌else◌, Bool-cases,
}
use mathlib.Core.Path.{subst}
use mathlib.Core.Option.{some-injective}
use vidcull.Prelude.Int.{ℤ}
use vidcull.Core.{Text}
use vidcull.Db.TaskQueue.{
  Row, Task, Queue, update_where, has_id, is_due, start_row, row_to_task, first_where, take_row,
  dequeue_where, dequeue_next, by_priority,
}
use vidcull.Db.TaskQueue.Order.{
  IsOrder, by_priority-IsOrder, Finds, nothing, found, first_where-Finds,
}
use vidcull.Db.TaskQueue.Lifecycle.{IsValid, Ascending, dequeue_where-IsValid}

-- The rows after a task was started: the row of that id is running, counts one attempt more and
-- has the time as its start; every other row is as it was.
pub record Starts (b : Row) (now : ℤ) (old new : List Row) : Type 0 where
  pub started : start_row now b ∈ new
  pub kept : (r : Row) → r ∈ old → r.id ≢ b.id → r ∈ new
  pub only : (r : Row) → r ∈ new → (r ≡ start_row now b) ⊎ (r ∈ old) × (r.id ≢ b.id)

unique : (rs : List Row) (a b : Row) → Ascending rs → a ∈ rs → b ∈ rs → a.id ≡ b.id → a ≡ b
unique [] a b s m n e = absurd m
unique (x ∷ xs) a b s (inl p) (inl q) e = p ∙ sym q
unique (x ∷ xs) a b s (inl p) (inr n) e =
    let low = All-mem (λ y. x.id < y.id) xs b s.0 n in
    let same : x.id ≡ b.id = ap (λ y. y.id) (sym p) ∙ e in absurd (omega arith)
unique (x ∷ xs) a b s (inr m) (inl q) e =
    let low = All-mem (λ y. x.id < y.id) xs a s.0 m in
    let same : x.id ≡ a.id = ap (λ y. y.id) (sym q) ∙ sym e in absurd (omega arith)
unique (x ∷ xs) a b s (inr m) (inr n) e = unique xs a b s.1 m n e

mem-update :
    (b : Row) (now : ℤ) (rs : List Row) (r : Row)
    → r ∈ rs
    → (if has_id b.id r then start_row now r else r) ∈ update_where (has_id b.id) (start_row now) rs
mem-update b now [] r m = absurd m
mem-update b now (x ∷ xs) r (inl e) = inl (ap (λ y. if has_id b.id y then start_row now y else y) e)
mem-update b now (x ∷ xs) r (inr m) = inr (mem-update b now xs r m)

mem_of_update :
    (b : Row) (now : ℤ) (rs : List Row) (r : Row)
    → r ∈ update_where (has_id b.id) (start_row now) rs
    → (x : Row) × (x ∈ rs) × (r ≡ (if has_id b.id x then start_row now x else x))
mem_of_update b now [] r m = absurd m
mem_of_update b now (x ∷ xs) r (inl e) = (x, inl refl, e)
mem_of_update b now (x ∷ xs) r (inr m) = let (y, i, e) = mem_of_update b now xs r m in (y, inr i, e)

pick_true : (x y : Row) (t : Bool) → t ≡ true → (if t then x else y) ≡ x
pick_true x y t e = rw e

pick_false : (x y : Row) (t : Bool) → t ≡ false → (if t then x else y) ≡ y
pick_false x y t e = rw e

update_only :
    (b : Row) (now : ℤ) (rs : List Row) (r x : Row)
    → Ascending rs
    → b ∈ rs
    → x ∈ rs
    → r ≡ (if has_id b.id x then start_row now x else x)
    → (r ≡ start_row now b) ⊎ (r ∈ rs) × (r.id ≢ b.id)
update_only b now rs r x s m i e = elim (Bool-cases (has_id b.id x)) [
  | inl hit ↦
      let same = unique rs x b s i m (==→≡ x.id b.id hit) in
      inl (e ∙ pick_true _ _ (has_id b.id x) hit ∙ ap (start_row now) same)
  | inr miss ↦
      let same = e ∙ pick_false (start_row now x) x (has_id b.id x) miss in
      inr
        (subst (λ y. y ∈ rs) (sym same) i, λ k. ==→≢ x.id b.id miss (ap (λ y. y.id) (sym same) ∙ k))
]

update-Starts :
    (b : Row) (now : ℤ) (rs : List Row)
    → Ascending rs
    → b ∈ rs
    → Starts b now rs (update_where (has_id b.id) (start_row now) rs)
update-Starts b now rs s m = record {
  started =
      subst (λ y. y ∈ update_where (has_id b.id) (start_row now) rs)
        (pick_true _ _ (has_id b.id b) (==_refl b.id)) (mem-update b now rs b m);
  kept = λ r i ne.
      subst (λ y. y ∈ update_where (has_id b.id) (start_row now) rs)
        (pick_false (start_row now r) r (has_id b.id r) (≢→== r.id b.id ne))
        (mem-update b now rs r i);
  only = λ r i. let (x, at, e) = mem_of_update b now rs r i in update_only b now rs r x s m at e;
}

-- The outcome of a query by `p` and `before`.
pub data Dequeues (p : Row → Bool) (before : Row → Row → Bool) (now : ℤ) (q : Queue)
    : Queue × Option Task → Type 0 where
  idle : ((r : Row) → r ∈ q.rows → p r ≡ false) → Dequeues p before now q (q, none)
  took :
      (b : Row) (new : List Row)
      → b ∈ q.rows
      → p b ≡ true
      → ((r : Row) → r ∈ q.rows → p r ≡ true → before r b ≡ false)
      → Starts b now q.rows new
      → Dequeues p before now q (record q { rows = new }, some (row_to_task (start_row now b)))

take-Dequeues :
    (p : Row → Bool) (before : Row → Row → Bool) (now : ℤ) (q : Queue) (o : Option Row)
    → IsValid q
    → Finds p before q.rows o
    → Dequeues p before now q (take_row now q o)
unfolding take_row
take-Dequeues p before now q none v (nothing empty) = idle empty
take-Dequeues p before now q (some b) v (found b' m pass least) =
    took b _ m pass least (update-Starts b now q.rows v.ascending m)

dequeue_where-Dequeues :
    (p : Row → Bool) (before : Row → Row → Bool) (now : ℤ) (q : Queue)
    → IsOrder before
    → IsValid q
    → Dequeues p before now q (dequeue_where p before now q)
unfolding dequeue_where
dequeue_where-Dequeues p before now q o v =
    take-Dequeues p before now q (first_where p before q.rows) v
      (first_where-Finds p before q.rows o)

-- `dequeue_next` on a valid queue: if no waiting task of the kind is due, nothing changes; else it
-- starts the due task that no other due task precedes by a higher priority, an earlier time, or a
-- smaller id, and changes no other row.
pub dequeue_next-Dequeues :
    (kind : Text) (now : ℤ) (q : Queue)
    → IsValid q
    → Dequeues (is_due kind now) by_priority now q (dequeue_next kind now q)
unfolding dequeue_next
dequeue_next-Dequeues kind now q v =
    dequeue_where-Dequeues (is_due kind now) by_priority now q by_priority-IsOrder v

dequeue_next-IsValid :
    (kind : Text) (now : ℤ) (q : Queue) → IsValid q → IsValid (dequeue_next kind now q).0
unfolding dequeue_next
dequeue_next-IsValid kind now q v = dequeue_where-IsValid (is_due kind now) by_priority now q v

-- The row behind a task that was handed out.
record Handed (p : Row → Bool) (now : ℤ) (q : Queue) (q' : Queue) (a : Task) : Type 0 where
  row : Row
  from : row ∈ q.rows
  passed : p row ≡ true
  same_id : a.id ≡ row.id
  starts : Starts row now q.rows q'.rows

handed :
    (p : Row → Bool) (before : Row → Row → Bool) (now : ℤ) (q : Queue) (res : Queue × Option Task)
    (a : Task)
    → Dequeues p before now q res
    → res.1 ≡ some a
    → Handed p now q res.0 a
unfolding row_to_task
handed p before now q res a (idle empty) h = absurd (ground arith)
handed p before now q res a (took b new m pass least st) h = record {
  row = b;
  from = m;
  passed = pass;
  same_id = ap (λ (t : Task). t.id) (sym (some-injective _ _ h));
  starts = st;
}

started_not_due :
    (kind : Text) (now now' : ℤ) (x y : Row) → y ≡ start_row now x → is_due kind now' y ≡ true → ⊥
started_not_due kind now now' x y e h =
    let h' : is_due kind now' (start_row now x) ≡ true = rw e at h in cc

-- Two workers never get the same task: of two calls with nothing between them, the second takes
-- another task than the first, or none.
pub dequeue_next_exclusive :
    (kind kind' : Text) (now now' : ℤ) (q : Queue) (a b : Task)
    → IsValid q
    → (dequeue_next kind now q).1 ≡ some a
    → (dequeue_next kind' now' (dequeue_next kind now q).0).1 ≡ some b
    → a.id ≢ b.id
dequeue_next_exclusive kind kind' now now' q a b v h k =
    let q' : Queue = (dequeue_next kind now q).0 in
    let first =
      handed _ by_priority now q (dequeue_next kind now q) a (dequeue_next-Dequeues kind now q v)
        h in
    let v' : IsValid q' = dequeue_next-IsValid kind now q v in
    let second =
      handed _ by_priority now' q' (dequeue_next kind' now' q') b
        (dequeue_next-Dequeues kind' now' q' v') k in
    elim (first.starts.only second.row second.from) [
      | inl e ↦ absurd (started_not_due kind' now now' first.row second.row e second.passed)
      | inr (old, ne) ↦ λ e. ne (sym second.same_id ∙ sym e ∙ first.same_id)
    ]
