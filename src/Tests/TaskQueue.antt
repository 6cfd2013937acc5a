-- ===== src/Tests/TaskQueue.antt =====
-- Two tasks in the queue, the second more urgent.
use vidcull.Prelude.{◌+◌, ◌<◌, ◌≡◌, ◌≢◌, refl, none, some, List, [], ◌∷◌}
use vidcull.Prelude.Int.{ℤ, pos}
use vidcull.Core.{codes}
use vidcull.Db.TaskQueue.{
  Queue, Task, NewTask, empty_queue, pending, running, enqueue, dequeue_next, dequeue_where,
  first_where, row_to_task, by_priority, by_age, requeue_running,
}
use vidcull.Db.TaskQueue.Queries.{count_by_state}
use vidcull.Db.TaskQueue.Dequeue.{dequeue_next_exclusive}
use vidcull.Db.TaskQueue.Next.{TakesNext, dequeue_next_lem}
use vidcull.Db.TaskQueue.Lifecycle.{IsValid, Op, put, drop, run, run-IsValid}
use vidcull.Db.TaskQueue.Recovery.{AllRecover, requeue_running_lem}

abbrev task : ℤ → ℤ → NewTask
task priority at = record {
  kind = codes "index";
  priority = priority;
  payload = none;
  enqueued_at = at;
  size_bytes = pos 1;
}

abbrev ops : List Op
ops = put (task (pos 0) (pos 1)) ∷ put (task (pos 5) (pos 2)) ∷ []

two : Queue
unfolding run enqueue
two = run ops empty_queue

two-IsValid : IsValid two
unfolding two
two-IsValid = (run-IsValid ops [] (task (pos 0) (pos 0)) (task (pos 0) (pos 0))).0

run-IsValid_example :
    IsValid (run ops empty_queue)
    × ((enqueue (task (pos 0) (pos 3)) (run ops empty_queue)).1
        < (enqueue
            (task (pos 0) (pos 4))
            (run (drop 3 ∷ []) (enqueue (task (pos 0) (pos 3)) (run ops empty_queue)).0)).1)
run-IsValid_example = run-IsValid ops (drop 3 ∷ []) (task (pos 0) (pos 3)) (task (pos 0) (pos 4))

dequeue_next_lem_example :
    TakesNext (codes "index") (pos 9) two (dequeue_next (codes "index") (pos 9) two)
dequeue_next_lem_example = dequeue_next_lem (codes "index") (pos 9) two two-IsValid

urgent_first : (a : Task) × ((dequeue_next (codes "index") (pos 9) two).1 ≡ some a) × (a.id ≡ 2)
unfolding two dequeue_next dequeue_where first_where by_priority by_age row_to_task
urgent_first = (_, refl, refl)

then_the_other :
    (a : Task) × ((dequeue_next
        (codes "index")
        (pos 9)
        (dequeue_next (codes "index") (pos 9) two).0).1
      ≡ some a)
    × (a.id ≡ 1)
unfolding two dequeue_next dequeue_where first_where by_priority by_age row_to_task
then_the_other = (_, refl, refl)

dequeue_next_exclusive_example : urgent_first.0.id ≢ then_the_other.0.id
dequeue_next_exclusive_example =
    dequeue_next_exclusive (codes "index") (codes "index") (pos 9) (pos 9) two urgent_first.0
      then_the_other.0 two-IsValid urgent_first.1 then_the_other.1

requeue_running_lem_example :
    AllRecover two.rows (requeue_running two).0.rows
    × ((requeue_running two).0.next_id ≡ two.next_id)
    × (count_by_state running (requeue_running two).0 ≡ 0)
    × ((requeue_running two).1 ≡ count_by_state running two)
    × (count_by_state pending (requeue_running two).0
        ≡ count_by_state pending two + (requeue_running two).1)
requeue_running_lem_example = requeue_running_lem two
