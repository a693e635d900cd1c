-- ===== src/LocalScheduler/Queues.antt =====
-- The queues of tasks that need no actor, and the objects that they depend on:
-- src/local_scheduler/local_scheduler_algorithm.cc.
use ray.Common.{
  ℕ, ◌+◌, Bool, true, false, not, ◌&&◌, ◌||◌, none, some, List, [], ◌∷◌, ◌++◌, Result, ok, fatal,
  ◌>>=◌, ◌>>◌, check, if◌then◌else◌, ltb,
}
use ray.Common.Int.{pos, ltb_ℤ}
use ray.Common.Maps.{lookup, insert, has_key}
use ray.Tasks.{nil_id, Arg, by_reference, by_value, TaskSpec, queued, waiting}
use ray.LocalScheduler.State.{
  ObjectEntry, DynamicResources, Env, LocalSchedulerState, task_table_update, task_table_add_task,
  plasma_fetch, emit, emit_if_db, start_worker,
}
use ray.LocalScheduler.Workers.{back, pop_back, assign_task_to_worker, own_task}

abbrev pub is_empty {ℓ} : {A : Type ℓ} → List A → Bool
is_empty [] = true
is_empty (x ∷ xs) = false

-- The loop of can_run over the arguments of a task.
unfoldable pub can_run : List (ℕ × ObjectEntry) → List Arg → Bool
can_run local_objects [] = true
can_run local_objects (by_reference object_id ∷ args) =
    if has_key object_id local_objects then can_run local_objects args else false
can_run local_objects (by_value ∷ args) = can_run local_objects args

-- A dependency of the task at iterator `it`; a fetch is sent at once if none is active.
unfoldable pub fetch_missing_dependency :
    (it object_id : ℕ) → LocalSchedulerState → LocalSchedulerState
fetch_missing_dependency it object_id s = record s {
  remote_objects = elim (lookup object_id s.remote_objects) [
    | some entry ↦
        insert object_id (record entry { dependent_tasks = entry.dependent_tasks ++ it ∷ [] })
          s.remote_objects
    | none ↦
        insert object_id (record { object_id = object_id; dependent_tasks = it ∷ [] })
          s.remote_objects
  ];
  effects =
      if not (has_key object_id s.remote_objects) && s.plasma_manager_is_connected
      then plasma_fetch (object_id ∷ []) ∷ s.effects
      else s.effects;
}

-- The loop of fetch_missing_dependencies, which also counts the missing dependencies.
unfoldable pub fetch_loop : (it : ℕ) → List Arg → ℕ × LocalSchedulerState → ℕ × LocalSchedulerState
fetch_loop it [] p = p
fetch_loop it (by_value ∷ args) p = fetch_loop it args p
fetch_loop it (by_reference object_id ∷ args) p = fetch_loop it args (
    if has_key object_id p.1.local_objects
    then p
    else (p.0 + 1, fetch_missing_dependency it object_id p.1))

unfoldable pub fetch_missing_dependencies :
    (it : ℕ) → TaskSpec → LocalSchedulerState → Result LocalSchedulerState
fetch_missing_dependencies it spec s =
    let p = fetch_loop it spec.args (0, s) in check (ltb 0 p.0) >> ok p.1

-- The test of dispatch_tasks for any resource that is left.
abbrev pub resources_available : DynamicResources → Bool
resources_available dynamic = ltb_ℤ (pos 0) dynamic.cpu || ltb_ℤ (pos 0) dynamic.gpu

-- The test of dispatch_tasks for a task's resources.
abbrev pub task_satisfied : TaskSpec → DynamicResources → Bool
task_satisfied spec dynamic = not (
    ltb_ℤ dynamic.cpu (pos spec.required_resources.cpu)
    || ltb_ℤ dynamic.gpu (pos spec.required_resources.gpu))

-- A task goes to the last of the available workers `w ∷ ws`.
unfoldable pub dispatch_task :
    Env → TaskSpec → (w : ℕ) → (ws : List ℕ) → LocalSchedulerState → Result LocalSchedulerState
dispatch_task env spec w ws s = do
  s' ← assign_task_to_worker env spec (back w ws) s
  ok (record s' {
    available_workers = pop_back w ws;
    executing_workers = s'.executing_workers ++ back w ws ∷ [];
  })

-- The loop of dispatch_tasks, with the tasks that stay in the queue.
unfoldable pub dispatch_loop :
    Env → List TaskSpec → LocalSchedulerState → Result (List TaskSpec × LocalSchedulerState)
dispatch_loop env [] s = ok ([], s)
dispatch_loop env (spec ∷ specs) s = elim s.available_workers [
  | [] ↦ ok (spec ∷ specs, if is_empty s.child_pids then start_worker env nil_id s else s)
  | w ∷ ws ↦ elim (resources_available s.dynamic_resources) [
    | false ↦ ok (spec ∷ specs, s)
    | true ↦ elim (task_satisfied spec s.dynamic_resources) [
      | true ↦ dispatch_task env spec w ws s >>= dispatch_loop env specs
      | false ↦ do (rest, s') ← dispatch_loop env specs s; ok (spec ∷ rest, s')
    ]
  ]
]

unfoldable pub dispatch_tasks : Env → LocalSchedulerState → Result LocalSchedulerState
dispatch_tasks env s = do
  (rest, s') ← dispatch_loop env s.dispatch_task_queue s
  ok (record s' { dispatch_task_queue = rest })

-- What queue_task writes to the task table.
abbrev pub write_queued :
    TaskSpec → (from_global_scheduler : Bool) → LocalSchedulerState → LocalSchedulerState
write_queued spec from_global_scheduler s =
    emit_if_db
      (if from_global_scheduler
        then task_table_update (own_task queued spec s)
        else task_table_add_task (own_task queued spec s))
      s

unfoldable pub queue_waiting_task :
    TaskSpec → (from_global_scheduler : Bool) → LocalSchedulerState → Result LocalSchedulerState
queue_waiting_task spec from_global_scheduler s = fetch_missing_dependencies s.next_entry spec (
    write_queued spec from_global_scheduler (record s {
      waiting_task_queue = s.waiting_task_queue ++ (s.next_entry, spec) ∷ [];
      next_entry = s.next_entry + 1;
    }))

unfoldable pub queue_dispatch_task :
    TaskSpec → (from_global_scheduler : Bool) → LocalSchedulerState → LocalSchedulerState
queue_dispatch_task spec from_global_scheduler s =
    write_queued spec from_global_scheduler
      (record s { dispatch_task_queue = s.dispatch_task_queue ++ spec ∷ [] })

unfoldable pub queue_task_locally :
    TaskSpec → (from_global_scheduler : Bool) → LocalSchedulerState → Result LocalSchedulerState
queue_task_locally spec from_global_scheduler s =
    if can_run s.local_objects spec.args
    then ok (queue_dispatch_task spec from_global_scheduler s)
    else queue_waiting_task spec from_global_scheduler s

unfoldable pub give_task_to_global_scheduler :
    TaskSpec → LocalSchedulerState → Result LocalSchedulerState
give_task_to_global_scheduler spec s = elim s.db [
  | none ↦ queue_task_locally spec false s
  | some id ↦
      if s.global_scheduler_exists
      then ok (
          emit
            (task_table_add_task
              (record { state = waiting; local_scheduler_id = nil_id; spec = spec }))
            s)
      else queue_task_locally spec false s
]

unfoldable pub resource_constraints_satisfied : TaskSpec → LocalSchedulerState → Bool
resource_constraints_satisfied spec s =
    not (
      ltb s.static_resources.cpu spec.required_resources.cpu
      || ltb s.static_resources.gpu spec.required_resources.gpu)
    && task_satisfied spec s.dynamic_resources

unfoldable pub handle_task_submitted :
    Env → TaskSpec → LocalSchedulerState → Result LocalSchedulerState
handle_task_submitted env spec s = do
  s' ←
      if resource_constraints_satisfied spec s
        && not (is_empty s.available_workers)
        && can_run s.local_objects spec.args
      then ok (queue_dispatch_task spec false s)
      else give_task_to_global_scheduler spec s
  dispatch_tasks env s'

-- DCHECK(state->db != NULL) and DCHECK(state->config.global_scheduler_exists).
abbrev pub check_global_scheduler : LocalSchedulerState → Result (Unit {0})
check_global_scheduler s = elim s.db [ none ↦ fatal | some id ↦ check s.global_scheduler_exists ]

unfoldable pub handle_task_scheduled :
    Env → TaskSpec → LocalSchedulerState → Result LocalSchedulerState
handle_task_scheduled env spec s = do
  check_global_scheduler s
  s' ← queue_task_locally spec true s
  dispatch_tasks env s'
