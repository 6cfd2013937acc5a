-- ===== src/Db/TaskQueue/Recovery.antt =====
-- `requeue_running` and `count_by_state` of crates/vidcull-db/src/repo/task_queue.rs.
use vidcull.Prelude.{
  ℕ, ◌+◌, ◌≡◌, ◌≢◌, ◌⊎◌, inl, inr, true, false, refl, List, [], ◌∷◌, none, arith, length,
}
use vidcull.Db.TaskQueue.{
  TaskState, pending, running, done, failed, Row, Queue, update_where, count_where, is_state,
  requeue_running,
}
use vidcull.Db.TaskQueue.Queries.{count_by_state}

abbrev back : Row → Row
back r = record r { state = pending; started_at = none }

abbrev counts : TaskState → List Row → ℕ
counts s = count_where (λ r. is_state r.state s)

abbrev recovered : List Row → List Row
recovered = update_where (λ r. is_state r.state running) back

recovered-counts :
    (rs : List Row)
    → (counts running (recovered rs) ≡ 0)
      × (counts pending (recovered rs) ≡ counts pending rs + counts running rs)
      × (counts done (recovered rs) ≡ counts done rs)
      × (counts failed (recovered rs) ≡ counts failed rs)
recovered-counts [] = (refl, refl, refl, refl)
recovered-counts (r ∷ rs) = ground (arith, recovered-counts rs)

-- What becomes of a row: a running one waits again, with no start, and all else as it was; any other
-- stays.
abbrev pub Recovers : Row → Row → Type 0
Recovers r r' =
    ((r.state ≡ running) × (r' ≡ record r { state = pending; started_at = none }))
    ⊎ ((r.state ≢ running) × (r' ≡ r))

-- The same for the rows of two tables, in their order.
abbrev pub AllRecover : List Row → List Row → Type 0
AllRecover [] [] = Unit
AllRecover [] (r' ∷ rs') = ⊥
AllRecover (r ∷ rs) [] = ⊥
AllRecover (r ∷ rs) (r' ∷ rs') = Recovers r r' × AllRecover rs rs'

is_running : (s : TaskState) → (s ≡ running) ⊎ ((s ≢ running) × (is_state s running ≡ false))
is_running pending = inr ((λ e. cc), refl)
is_running running = inl refl
is_running done = inr ((λ e. cc), refl)
is_running failed = inr ((λ e. cc), refl)

recovered-AllRecover : (rs : List Row) → AllRecover rs (recovered rs)
recovered-AllRecover [] = tt
recovered-AllRecover (r ∷ rs) = elim (is_running r.state) [
  | inl e ↦
      let on : is_state r.state running ≡ true = rw e refl in
      rw on (inl (e, refl), recovered-AllRecover rs)
  | inr (ne, e) ↦ rw e (inr (ne, refl), recovered-AllRecover rs)
]

-- After `requeue_running` each row that was running waits again, with no start and all else as it was,
-- every other row is the same, and the order and the next id stay. So no task is running, and the
-- result is the number of tasks that were and of those that wait more than before.
pub requeue_running_lem :
    (q : Queue)
    → AllRecover q.rows (requeue_running q).0.rows
      × ((requeue_running q).0.next_id ≡ q.next_id)
      × (count_by_state running (requeue_running q).0 ≡ 0)
      × ((requeue_running q).1 ≡ count_by_state running q)
      × (count_by_state pending (requeue_running q).0
          ≡ count_by_state pending q + (requeue_running q).1)
unfolding requeue_running count_by_state
requeue_running_lem q =
    let (r, p, d, f) = recovered-counts q.rows in (recovered-AllRecover q.rows, refl, r, refl, p)

counts_total :
    (rs : List Row)
    → counts pending rs + counts running rs + counts done rs + counts failed rs ≡ length rs
counts_total [] = refl
counts_total (r ∷ rs) = ground (arith, counts_total rs)

-- Every row is in exactly one of the four states: the counts by state add up.
pub count_by_state_total :
    (q : Queue)
    → count_by_state pending q
        + count_by_state running q
        + count_by_state done q
        + count_by_state failed q
      ≡ length q.rows
unfolding count_by_state
count_by_state_total q = counts_total q.rows
