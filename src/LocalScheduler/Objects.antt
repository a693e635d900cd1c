-- ===== src/LocalScheduler/Objects.antt =====
-- What the objects that come and go do to the queues, and what a removed driver does:
-- src/local_scheduler/local_scheduler_algorithm.cc.
use ray.Common.{
  Option, ℕ, ◌+◌, true, false, not, none, some, List, [], ◌∷◌, ◌++◌, Result, ok, fatal, ◌>>=◌, ◌>>◌,
  check, if◌then◌else◌, ◌==◌,
}
use ray.Common.Maps.{lookup, insert, erase, has_key}
use ray.Tasks.{Arg, by_reference, by_value, TaskSpec, is_dependent_on}
use ray.LocalScheduler.State.{ObjectEntry, Env, LocalSchedulerState}
use ray.LocalScheduler.Queues.{is_empty, can_run, fetch_missing_dependency, dispatch_tasks}

-- A dependent task that can run moves to the dispatch queue. An iterator to an erased node dangles.
unfoldable pub move_dependent : (it : ℕ) → LocalSchedulerState → Result LocalSchedulerState
move_dependent it s = elim (lookup it s.waiting_task_queue) [
  | none ↦ fatal
  | some spec ↦
      if can_run s.local_objects spec.args
      then ok (record s {
        dispatch_task_queue = s.dispatch_task_queue ++ spec ∷ [];
        waiting_task_queue = erase it s.waiting_task_queue;
      })
      else ok s
]

unfoldable pub move_loop : List ℕ → LocalSchedulerState → Result LocalSchedulerState
move_loop [] s = ok s
move_loop (it ∷ its) s = move_dependent it s >>= move_loop its

-- The entry of the active fetch, or a new one.
abbrev pub entry_in : (object_id : ℕ) → Option ObjectEntry → ObjectEntry
entry_in object_id none = record { object_id = object_id; dependent_tasks = [] }
entry_in object_id (some entry) = entry

abbrev pub entry_of : (object_id : ℕ) → LocalSchedulerState → ObjectEntry
entry_of object_id s = entry_in object_id (lookup object_id s.remote_objects)

unfoldable pub handle_object_available :
    Env → (object_id : ℕ) → LocalSchedulerState → Result LocalSchedulerState
handle_object_available env object_id s =
    let entry = entry_of object_id s in
    let s' = record s {
      remote_objects = erase object_id s.remote_objects;
      local_objects = insert object_id entry s.local_objects;
    } in
    check (not (has_key object_id s.local_objects))
    >> (if is_empty entry.dependent_tasks
        then ok s'
        else (move_loop entry.dependent_tasks s' >>= dispatch_tasks env))

-- The first loop of handle_object_removed, over the dispatch queue: the tasks that stay there.
unfoldable pub requeue_loop :
    (object_id : ℕ) → List TaskSpec → LocalSchedulerState → List TaskSpec × LocalSchedulerState
requeue_loop object_id [] s = ([], s)
requeue_loop object_id (spec ∷ specs) s = elim (is_dependent_on object_id spec.args) [
  | true ↦ requeue_loop object_id specs (record s {
    waiting_task_queue = s.waiting_task_queue ++ (s.next_entry, spec) ∷ [];
    next_entry = s.next_entry + 1;
  })
  | false ↦ let p = requeue_loop object_id specs s in (spec ∷ p.0, p.1)
]

-- The second loop, over the arguments of the tasks in the waiting queue.

unfoldable pub refetch_args :
    (object_id it : ℕ) → List Arg → LocalSchedulerState → LocalSchedulerState
refetch_args object_id it [] s = s
refetch_args object_id it (by_value ∷ args) s = refetch_args object_id it args s
refetch_args object_id it (by_reference arg_id ∷ args) s =
    refetch_args object_id it args
      (if arg_id == object_id then fetch_missing_dependency it object_id s else s)

unfoldable pub refetch_loop :
    (object_id : ℕ) → List (ℕ × TaskSpec) → LocalSchedulerState → LocalSchedulerState
refetch_loop object_id [] s = s
refetch_loop object_id ((it, spec) ∷ tasks) s =
    refetch_loop object_id tasks (refetch_args object_id it spec.args s)

unfoldable pub handle_object_removed :
    (removed_object_id : ℕ) → LocalSchedulerState → Result LocalSchedulerState
handle_object_removed removed_object_id s =
    let s1 = record s { local_objects = erase removed_object_id s.local_objects } in
    let p = requeue_loop removed_object_id s1.dispatch_task_queue s1 in
    let s2 = record p.1 { dispatch_task_queue = p.0 } in
    check (has_key removed_object_id s.local_objects)
    >> ok (refetch_loop removed_object_id s2.waiting_task_queue s2)

-- The dependent tasks of one object without those of a driver.
unfoldable pub drop_dependents :
    (driver_id : ℕ) → (waiting_task_queue : List (ℕ × TaskSpec)) → List ℕ → Result (List ℕ)
drop_dependents driver_id waiting_task_queue [] = ok []
drop_dependents driver_id waiting_task_queue (it ∷ its) = elim (lookup it waiting_task_queue) [
  | none ↦ fatal
  | some spec ↦ do
    rest ← drop_dependents driver_id waiting_task_queue its
    ok (if spec.driver_id == driver_id then rest else it ∷ rest)
]

-- The loop of handle_driver_removed over the active fetches.
unfoldable pub drop_fetches :
    (driver_id : ℕ)
    → (waiting_task_queue : List (ℕ × TaskSpec)) → List (ℕ × ObjectEntry)
    → Result (List (ℕ × ObjectEntry))
drop_fetches driver_id waiting_task_queue [] = ok []
drop_fetches driver_id waiting_task_queue ((object_id, entry) ∷ entries) = do
  dependents ← drop_dependents driver_id waiting_task_queue entry.dependent_tasks
  rest ← drop_fetches driver_id waiting_task_queue entries
  ok (
      if is_empty dependents
      then rest
      else (object_id, record entry { dependent_tasks = dependents }) ∷ rest)

unfoldable pub drop_waiting : (driver_id : ℕ) → List (ℕ × TaskSpec) → List (ℕ × TaskSpec)
drop_waiting driver_id [] = []
drop_waiting driver_id ((it, spec) ∷ tasks) =
    let rest = drop_waiting driver_id tasks in
    if spec.driver_id == driver_id then rest else (it, spec) ∷ rest

unfoldable pub drop_dispatch : (driver_id : ℕ) → List TaskSpec → List TaskSpec
drop_dispatch driver_id [] = []
drop_dispatch driver_id (spec ∷ specs) =
    let rest = drop_dispatch driver_id specs in
    if spec.driver_id == driver_id then rest else spec ∷ rest

unfoldable pub handle_driver_removed :
    (driver_id : ℕ) → LocalSchedulerState → Result LocalSchedulerState
handle_driver_removed driver_id s = do
  entries ← drop_fetches driver_id s.waiting_task_queue s.remote_objects
  ok (record s {
    remote_objects = entries;
    waiting_task_queue = drop_waiting driver_id s.waiting_task_queue;
    dispatch_task_queue = drop_dispatch driver_id s.dispatch_task_queue;
  })
