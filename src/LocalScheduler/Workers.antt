-- ===== src/LocalScheduler/Workers.antt =====
-- Workers and their resources: the pools of src/local_scheduler/local_scheduler_algorithm.cc, and
-- the resource accounts and task assignment of src/local_scheduler/local_scheduler.cc.
use ray.Common.{
  ℕ, ◌+◌, Bool, not, some, List, [], ◌∷◌, length, Result, ok, fatal, ◌>>=◌, ◌>>◌, check,
  if◌then◌else◌, ◌==◌, contains,
}
use ray.Common.Int.{pos, ◌+ℤ◌, ◌-ℤ◌, leb_ℤ}
use ray.Tasks.{nil_id, TaskSpec, TaskStatus, Task, running}
use ray.LocalScheduler.State.{
  LocalSchedulerClient, DynamicResources, Env, LocalSchedulerState, HeartbeatInfo, written, hung_up,
  WriteOutcome, execute_task, task_table_update, emit, emit_if_db, get_worker, set_worker,
  db_client_id_or_nil,
}

-- The last item of the nonempty vector `x ∷ xs`, and pop_back.

unfoldable pub back : ℕ → List ℕ → ℕ
back x [] = x
back x (y ∷ ys) = back y ys

unfoldable pub pop_back : ℕ → List ℕ → List ℕ
pop_back x [] = []
pop_back x (y ∷ ys) = x ∷ pop_back y ys

-- swap(*it, vector.back()) and pop_back, where the iterator is at the head.
unfoldable pub swap_out : List ℕ → List ℕ
swap_out [] = []
swap_out (x ∷ xs) = back x xs ∷ pop_back x xs

-- The vector after remove_worker_from_vector; it returns whether the worker was in the vector.
unfoldable pub remove_worker_from_vector : ℕ → List ℕ → List ℕ
remove_worker_from_vector w [] = []
remove_worker_from_vector w (x ∷ xs) =
    if x == w then swap_out xs else x ∷ remove_worker_from_vector w xs

-- The part of acquire_resources for GPUs.
unfoldable pub acquire_gpus :
    ℕ → LocalSchedulerClient → DynamicResources → Result (LocalSchedulerClient × DynamicResources)
acquire_gpus num_gpus worker dynamic = if num_gpus == 0 then ok (worker, dynamic) else (do
  check (worker.gpus_in_use == 0)
  check (leb_ℤ (pos num_gpus) dynamic.gpu)
  ok (
    record worker { gpus_in_use = worker.gpus_in_use + num_gpus },
    record dynamic { gpu = dynamic.gpu -ℤ pos num_gpus },
  ))

unfoldable pub acquire_resources :
    (num_cpus num_gpus : ℕ)
    → LocalSchedulerClient
    → DynamicResources
    → Result (LocalSchedulerClient × DynamicResources)
acquire_resources num_cpus num_gpus worker dynamic = do
  check (worker.cpus_in_use == 0)
  acquire_gpus num_gpus (record worker { cpus_in_use = worker.cpus_in_use + num_cpus })
      (record dynamic { cpu = dynamic.cpu -ℤ pos num_cpus })

-- The part of release_resources for GPUs.
unfoldable pub release_gpus :
    ℕ → LocalSchedulerClient → DynamicResources → Result (LocalSchedulerClient × DynamicResources)
release_gpus num_gpus worker dynamic = if num_gpus == 0 then ok (worker, dynamic) else (do
  check (num_gpus == worker.gpus_in_use)
  ok (record worker { gpus_in_use = 0 }, record dynamic { gpu = dynamic.gpu +ℤ pos num_gpus }))

unfoldable pub release_resources :
    (num_cpus num_gpus : ℕ)
    → LocalSchedulerClient
    → DynamicResources
    → Result (LocalSchedulerClient × DynamicResources)
release_resources num_cpus num_gpus worker dynamic = do
  check (num_cpus == worker.cpus_in_use)
  release_gpus num_gpus (record worker { cpus_in_use = 0 })
      (record dynamic { cpu = dynamic.cpu +ℤ pos num_cpus })

unfoldable pub is_driver_alive : ℕ → LocalSchedulerState → Bool
is_driver_alive driver_id s = not (contains driver_id s.removed_drivers)

-- Task_alloc by this scheduler.
abbrev pub own_task : TaskStatus → TaskSpec → LocalSchedulerState → Task
own_task state spec s = record {
  state = state;
  local_scheduler_id = db_client_id_or_nil s;
  spec = spec;
}

-- The outcome of write_message in assign_task_to_worker: a client that hung up is no error.
abbrev pub check_written : WriteOutcome → Result (Unit {0})
check_written outcome = elim outcome [ written ↦ ok tt | hung_up ↦ ok tt | _ ↦ fatal ]

unfoldable pub assign_task_to_worker :
    Env → TaskSpec → (w : ℕ) → LocalSchedulerState → Result LocalSchedulerState
assign_task_to_worker env spec w s = do
  worker ← get_worker w s
  check (worker.actor_id == spec.actor_id)
  check (is_driver_alive spec.driver_id s)
  check_written (env.write_message (length s.effects) w)
  (worker', dynamic) ←
      if worker.actor_id == nil_id
      then acquire_resources spec.required_resources.cpu spec.required_resources.gpu worker
          s.dynamic_resources
      else ok (worker, s.dynamic_resources)
  ok (
      emit_if_db (task_table_update (own_task running spec s)) (
        emit (execute_task w spec)
          (record (set_worker w
            (record worker' { task_in_progress = some (own_task running spec s) }) s) {
              dynamic_resources = dynamic;
            })))

-- The struct that the timer publishes.
unfoldable pub provide_scheduler_info : LocalSchedulerState → HeartbeatInfo
provide_scheduler_info s = record {
  total_num_workers = length s.workers;
  task_queue_length = length s.waiting_task_queue + length s.dispatch_task_queue;
  available_workers = length s.available_workers;
  static_resources = s.static_resources;
  dynamic_resources = s.dynamic_resources;
}
