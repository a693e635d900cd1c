-- ===== src/LocalScheduler/Dependencies.antt =====
-- A task that takes one missing object twice (fetch_missing_dependency and handle_object_available of
-- src/local_scheduler/local_scheduler_algorithm.cc).
use ray.Common.{
  ℕ, ◌+◌, ◌≡◌, refl, ap, ◌∙◌, Bool, true, false, none, some, List, [], ◌∷◌, ◌++◌, ok, fatal, ◌>>=◌,
  ==_refl, arith,
}
use ray.Common.Maps.{
  lookup, insert, erase, has_key, lookup-insert, lookup-erase, has_key-lookup-some,
}
use ray.Tasks.{Arg, TaskSpec, by_reference}
use ray.LocalScheduler.State.{ObjectEntry, Env, LocalSchedulerState}
use ray.LocalScheduler.Queues.{
  can_run, fetch_missing_dependency, fetch_loop, fetch_missing_dependencies, dispatch_tasks,
  write_queued, queue_waiting_task, queue_task_locally,
}
use ray.LocalScheduler.Objects.{
  move_dependent, move_loop, entry_in, entry_of, handle_object_available,
}

abbrev pub twice : (object_id : ℕ) → List Arg
twice object_id = by_reference object_id ∷ by_reference object_id ∷ []

-- The object's entry holds the task's iterator twice.
abbrev Fetches : (it object_id : ℕ) → LocalSchedulerState → LocalSchedulerState → Type 0
Fetches it object_id s t =
    (t.waiting_task_queue ≡ s.waiting_task_queue)
    × (t.local_objects ≡ s.local_objects)
    × (lookup object_id t.remote_objects
        ≡ some (record { object_id = object_id; dependent_tasks = it ∷ it ∷ [] }))

fetch_first :
    (it object_id : ℕ) (s : LocalSchedulerState)
    → lookup object_id s.remote_objects ≡ none
    → (fetch_missing_dependency it object_id s).remote_objects
      ≡ insert object_id
          (record { object_id = object_id; dependent_tasks = it ∷ [] })
          s.remote_objects
unfolding fetch_missing_dependency
fetch_first it object_id s h = rw (h, fetch_missing_dependency) refl

fetch_next :
    (it object_id : ℕ) (entry : ObjectEntry) (s : LocalSchedulerState)
    → lookup object_id s.remote_objects ≡ some entry
    → (fetch_missing_dependency it object_id s).remote_objects
      ≡ insert object_id
          (record entry { dependent_tasks = entry.dependent_tasks ++ it ∷ [] })
          s.remote_objects
unfolding fetch_missing_dependency
fetch_next it object_id entry s h = rw (h, fetch_missing_dependency) refl

lookup_inserted :
    (object_id : ℕ) (entry : ObjectEntry) (table : List (ℕ × ObjectEntry))
    → lookup object_id (insert object_id entry table) ≡ some entry
lookup_inserted object_id entry table =
    let l = lookup-insert object_id object_id entry table in rw (==_refl object_id) at l

fetch_twice :
    (it object_id : ℕ) (s : LocalSchedulerState)
    → lookup object_id s.remote_objects ≡ none
    → lookup object_id
        (fetch_missing_dependency it object_id
          (fetch_missing_dependency it object_id s)).remote_objects
      ≡ some (record { object_id = object_id; dependent_tasks = it ∷ it ∷ [] })
fetch_twice it object_id s none_yet =
    let first : ObjectEntry = record { object_id = object_id; dependent_tasks = it ∷ [] } in
    let second : ObjectEntry = record { object_id = object_id; dependent_tasks = it ∷ it ∷ [] } in
    let s1 = fetch_missing_dependency it object_id s in
    let found : lookup object_id s1.remote_objects ≡ some first =
      ap (lookup object_id) (fetch_first it object_id s none_yet)
      ∙ lookup_inserted object_id first s.remote_objects in
    ap (lookup object_id) (fetch_next it object_id first s1 found)
    ∙ lookup_inserted object_id second s1.remote_objects

same :
    (it object_id : ℕ) (s : LocalSchedulerState)
    → lookup object_id
        (fetch_missing_dependency it object_id
          (fetch_missing_dependency it object_id s)).remote_objects
      ≡ some (record { object_id = object_id; dependent_tasks = it ∷ it ∷ [] })
    → Fetches it object_id s
        (fetch_missing_dependency it object_id (fetch_missing_dependency it object_id s))
unfolding fetch_missing_dependency
same it object_id s h = (refl, refl, h)

still_missing :
    (it object_id : ℕ) (s : LocalSchedulerState) (p : ℕ × LocalSchedulerState)
    → has_key object_id s.local_objects ≡ false
    → has_key object_id (fetch_missing_dependency it object_id s).local_objects ≡ false
unfolding fetch_missing_dependency
still_missing it object_id s p h = h

fetch_missing_dependencies-Fetches :
    (it object_id : ℕ) (spec : TaskSpec) (s : LocalSchedulerState)
    → spec.args ≡ twice object_id
    → lookup object_id s.remote_objects ≡ none
    → has_key object_id s.local_objects ≡ false
    → (t : LocalSchedulerState) × (fetch_missing_dependencies it spec s ≡ ok t)
      × Fetches it object_id s t
unfolding fetch_missing_dependencies fetch_loop
fetch_missing_dependencies-Fetches it object_id spec s args none_yet missing = (
  fetch_missing_dependency it object_id (fetch_missing_dependency it object_id s),
  rw (args, fetch_loop, missing, still_missing it object_id s (0, s) missing) refl,
  same it object_id s (fetch_twice it object_id s none_yet),
)

abbrev moved : (it : ℕ) → TaskSpec → LocalSchedulerState → LocalSchedulerState
moved it spec s = record s {
  dispatch_task_queue = s.dispatch_task_queue ++ spec ∷ [];
  waiting_task_queue = erase it s.waiting_task_queue;
}

move_once :
    (it : ℕ) (spec : TaskSpec) (s : LocalSchedulerState)
    → lookup it s.waiting_task_queue ≡ some spec
    → can_run s.local_objects spec.args ≡ true
    → move_dependent it s ≡ ok (moved it spec s)
unfolding move_dependent
move_once it spec s found ready = rw (found, move_dependent, ready) refl

move_gone :
    (it : ℕ) (s : LocalSchedulerState)
    → lookup it s.waiting_task_queue ≡ none
    → move_dependent it s ≡ fatal
unfolding move_dependent
move_gone it s gone = rw (gone, move_dependent) refl

move_twice :
    (it : ℕ) (spec : TaskSpec) (s : LocalSchedulerState)
    → lookup it s.waiting_task_queue ≡ some spec
    → can_run s.local_objects spec.args ≡ true
    → move_loop (it ∷ it ∷ []) s ≡ fatal
unfolding move_loop
move_twice it spec s found ready =
    let l = lookup-erase it it s.waiting_task_queue in
    let gone : lookup it (moved it spec s).waiting_task_queue ≡ none = rw (==_refl it) at l in
    ap (λ r. r >>= move_loop (it ∷ [])) (move_once it spec s found ready)
    ∙ ap (λ r. r >>= move_loop []) (move_gone it (moved it spec s) gone)

can_run-twice :
    (object_id : ℕ) (entry : ObjectEntry) (local : List (ℕ × ObjectEntry)) (args : List Arg)
    → args ≡ twice object_id
    → can_run (insert object_id entry local) args ≡ true
unfolding can_run
can_run-twice object_id entry local args e =
    let l = lookup-insert object_id object_id entry local in
    let found : lookup object_id (insert object_id entry local) ≡ some entry =
      rw (==_refl object_id) at l in
    let here = has_key-lookup-some object_id (insert object_id entry local) found in
    rw (e, can_run, here) refl

entry_of_fetch :
    (object_id : ℕ) (entry : ObjectEntry) (s : LocalSchedulerState)
    → lookup object_id s.remote_objects ≡ some entry
    → entry_of object_id s ≡ entry
entry_of_fetch object_id entry s h = ap (entry_in object_id) h

available_twice :
    (env : Env) (it object_id : ℕ) (spec : TaskSpec) (s : LocalSchedulerState)
    → spec.args ≡ twice object_id
    → lookup it s.waiting_task_queue ≡ some spec
    → has_key object_id s.local_objects ≡ false
    → lookup object_id s.remote_objects
      ≡ some (record { object_id = object_id; dependent_tasks = it ∷ it ∷ [] })
    → handle_object_available env object_id s ≡ fatal
unfolding handle_object_available
available_twice env it object_id spec s args found missing fetched =
    let entry : ObjectEntry = record { object_id = object_id; dependent_tasks = it ∷ it ∷ [] } in
    let ready = can_run-twice object_id entry s.local_objects spec.args args in
    let s' : LocalSchedulerState = record s {
      remote_objects = erase object_id s.remote_objects;
      local_objects = insert object_id entry s.local_objects;
    } in
    let stuck = move_twice it spec s' found ready in
    rw (missing, entry_of_fetch object_id entry s fetched)
      (ap (λ r. r >>= dispatch_tasks env) stuck)

-- The waiting queue with a task at a fresh iterator.
lookup_snoc :
    (it : ℕ) (spec : TaskSpec) (tasks : List (ℕ × TaskSpec))
    → lookup it tasks ≡ none
    → lookup it (tasks ++ (it, spec) ∷ []) ≡ some spec
unfolding lookup
lookup_snoc it spec [] h = let r = ==_refl it in ground (arith, r)
lookup_snoc it spec ((i, old) ∷ tasks) h = ground (arith, lookup_snoc it spec tasks)

cannot_run :
    (object_id : ℕ) (args : List Arg) (local : List (ℕ × ObjectEntry))
    → args ≡ twice object_id
    → has_key object_id local ≡ false
    → can_run local args ≡ false
unfolding can_run
cannot_run object_id args local e missing = rw (e, can_run, missing) refl

-- If a task takes one object by reference twice, and nothing else, and the object is neither local
-- nor being fetched, then once the task has been queued here the arrival of the object aborts the
-- scheduler: the task is moved to the dispatch queue on its first entry in the object's list of
-- dependent tasks, and the second entry is an iterator to a node that is erased by then. The fresh
-- iterator does not stand in the waiting queue before.
pub queue_task_locally-twice :
    (env : Env) (object_id : ℕ) (spec : TaskSpec) (from_global_scheduler : Bool)
    (s : LocalSchedulerState)
    → spec.args ≡ twice object_id
    → lookup object_id s.remote_objects ≡ none
    → has_key object_id s.local_objects ≡ false
    → lookup s.next_entry s.waiting_task_queue ≡ none
    → (queue_task_locally spec from_global_scheduler s >>= handle_object_available env object_id)
      ≡ fatal
unfolding queue_task_locally queue_waiting_task
queue_task_locally-twice env object_id spec from_global_scheduler s args none_yet missing fresh =
    let it = s.next_entry in
    let u : LocalSchedulerState = write_queued spec from_global_scheduler (record s {
      waiting_task_queue = s.waiting_task_queue ++ (it, spec) ∷ [];
      next_entry = it + 1;
    }) in
    let (t, ran, (waiting, local, fetched)) =
      fetch_missing_dependencies-Fetches it object_id spec u args none_yet missing in
    let found : lookup it t.waiting_task_queue ≡ some spec =
      ap (lookup it) waiting ∙ lookup_snoc it spec s.waiting_task_queue fresh in
    let missing' : has_key object_id t.local_objects ≡ false =
      ap (has_key object_id) local ∙ missing in
    let stuck = available_twice env it object_id spec t args found missing' fetched in
    rw (cannot_run object_id spec.args s.local_objects args missing, ran) stuck
