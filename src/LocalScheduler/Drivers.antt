-- ===== src/LocalScheduler/Drivers.antt =====
-- What is left of a removed driver (handle_driver_removed of
-- src/local_scheduler/local_scheduler_algorithm.cc).
use ray.Common.{
  ℕ, ◌≡◌, List, [], ◌∷◌, Ensures, Ensures->>=, Ensures-any, ◌==◌, if◌then◌else◌, arith,
}
use ray.Tasks.{TaskSpec}
use ray.LocalScheduler.State.{LocalSchedulerState}
use ray.LocalScheduler.Objects.{drop_fetches, drop_waiting, drop_dispatch, handle_driver_removed}

-- The tasks of a driver in a queue, and in the waiting queue with their iterators.

abbrev pub tasks_of : (driver_id : ℕ) → List TaskSpec → List TaskSpec
tasks_of driver_id [] = []
tasks_of driver_id (spec ∷ specs) =
    let rest = tasks_of driver_id specs in if spec.driver_id == driver_id then spec ∷ rest else rest

abbrev pub waiting_of : (driver_id : ℕ) → List (ℕ × TaskSpec) → List (ℕ × TaskSpec)
waiting_of driver_id [] = []
waiting_of driver_id ((it, spec) ∷ tasks) =
    let rest = waiting_of driver_id tasks in
    if spec.driver_id == driver_id then (it, spec) ∷ rest else rest

tasks_of-drop_dispatch :
    (driver_id k : ℕ) (specs : List TaskSpec)
    → tasks_of k (drop_dispatch driver_id specs) ≡ (if driver_id == k then [] else tasks_of k specs)
unfolding drop_dispatch
tasks_of-drop_dispatch driver_id k [] = ground arith
tasks_of-drop_dispatch driver_id k (spec ∷ specs) =
    ground (arith, tasks_of-drop_dispatch driver_id k specs)

waiting_of-drop_waiting :
    (driver_id k : ℕ) (tasks : List (ℕ × TaskSpec))
    → waiting_of k (drop_waiting driver_id tasks)
      ≡ (if driver_id == k then [] else waiting_of k tasks)
unfolding drop_waiting
waiting_of-drop_waiting driver_id k [] = ground arith
waiting_of-drop_waiting driver_id k ((it, spec) ∷ tasks) =
    ground (arith, waiting_of-drop_waiting driver_id k tasks)

-- No task of the driver is queued, and the queued tasks of the others are what they were.
abbrev pub Forgets : (driver_id : ℕ) → LocalSchedulerState → LocalSchedulerState → Type 0
Forgets driver_id s t =
    (k : ℕ)
    → (tasks_of k t.dispatch_task_queue
        ≡ (if driver_id == k then [] else tasks_of k s.dispatch_task_queue))
      × (waiting_of k t.waiting_task_queue
          ≡ (if driver_id == k then [] else waiting_of k s.waiting_task_queue))

-- If handle_driver_removed does not abort, neither queue holds a task of the driver any more, and
-- every other driver has the same tasks in both queues, in the same order.
pub handle_driver_removed-Forgets :
    (driver_id : ℕ) (s : LocalSchedulerState)
    → Ensures (Forgets driver_id s) (handle_driver_removed driver_id s)
unfolding handle_driver_removed
handle_driver_removed-Forgets driver_id s =
    Ensures->>= (λ _. Unit {0}) (Forgets driver_id s)
      (drop_fetches driver_id s.waiting_task_queue s.remote_objects) _ (Ensures-any _)
      λ _ _ k. (
        tasks_of-drop_dispatch driver_id k s.dispatch_task_queue,
        waiting_of-drop_waiting driver_id k s.waiting_task_queue,
      )
