-- ===== src/LocalScheduler/Dispatch.antt =====
-- What dispatch_tasks promises (src/local_scheduler/local_scheduler_algorithm.cc): no task is lost,
-- and it stops only when nothing more can be assigned.
use ray.Common.{
  ℕ, ◌+◌, ◌≡◌, refl, false, ◌⊎◌, Option, none, some, List, [], ◌∷◌, All, map, ok, Ensures,
  Ensures->>=, Ensures-check, Ensures-any, Ensures-if, ◌==◌, if◌then◌else◌, arith, length, count,
}
use ray.Common.Int.{pos, ◌≤ℤ◌, -ℤ_parts, leb_ℤ}
use ray.Tasks.{nil_id, TaskSpec, Task}
use ray.LocalScheduler.State.{
  LocalSchedulerClient, DynamicResources, Env, LocalSchedulerState, Effect, execute_task,
  register_client_reply, task_table_update, task_table_add_task, task_table_test_and_update,
  result_table_add, object_table_lookup, result_table_lookup, driver_table_send_driver_death,
  local_scheduler_table_send_info, log_event, push_error, plasma_fetch, fork_worker, kill_process,
  get_worker,
}
use ray.LocalScheduler.Workers.{
  acquire_gpus, acquire_resources, is_driver_alive, check_written, assign_task_to_worker,
}
use ray.LocalScheduler.Queues.{resources_available, task_satisfied}

-- The tasks that were assigned, the last first.
abbrev pub executions : List Effect → List (ℕ × TaskSpec)
executions [] = []
executions (execute_task w spec ∷ es) = (w, spec) ∷ executions es
executions (register_client_reply w ∷ es) = executions es
executions (task_table_update t ∷ es) = executions es
executions (task_table_add_task t ∷ es) = executions es
executions (task_table_test_and_update t a b c ∷ es) = executions es
executions (result_table_add o t b ∷ es) = executions es
executions (object_table_lookup o ∷ es) = executions es
executions (result_table_lookup o b ∷ es) = executions es
executions (driver_table_send_driver_death d ∷ es) = executions es
executions (local_scheduler_table_send_info i ∷ es) = executions es
executions (log_event ∷ es) = executions es
executions (push_error d ∷ es) = executions es
executions (plasma_fetch os ∷ es) = executions es
executions (fork_worker a ∷ es) = executions es
executions (kill_process p ∷ es) = executions es

abbrev pub ids : List TaskSpec → List ℕ
ids = map λ spec. spec.task_id

abbrev pub assigned : LocalSchedulerState → List ℕ
assigned s = map (λ p. p.1.task_id) (executions s.effects)

-- Resources that are at most others.
abbrev pub AtMost : DynamicResources → DynamicResources → Type 0
AtMost d e = (d.cpu ≤ℤ e.cpu) × (d.gpu ≤ℤ e.gpu)

acquire_resources-AtMost :
    (num_cpus num_gpus : ℕ) (c : LocalSchedulerClient) (d : DynamicResources)
    → Ensures (λ p. AtMost p.1 d) (acquire_resources num_cpus num_gpus c d)
unfolding acquire_resources acquire_gpus
acquire_resources-AtMost num_cpus num_gpus c d =
    let P : LocalSchedulerClient × DynamicResources → Type 0 = λ p. AtMost p.1 d in
    let e = -ℤ_parts d.cpu (pos num_cpus) in
    let g = -ℤ_parts d.gpu (pos num_gpus) in
    Ensures-check (c.cpus_in_use == 0) P _ λ _.
      Ensures-if (num_gpus == 0) P _ _ (λ _. (omega (arith, e), omega arith))
        λ _. Ensures-check (c.gpus_in_use == 0) P _ λ _.
          Ensures-check (leb_ℤ (pos num_gpus) d.gpu) P _ λ _. (omega (arith, e), omega (arith, g))

-- An assignment: it is the next execution, the resources do not grow and the queues stay.
abbrev pub Assigns : ℕ → TaskSpec → LocalSchedulerState → LocalSchedulerState → Type 0
Assigns w spec s t =
    (executions t.effects ≡ (w, spec) ∷ executions s.effects)
    × AtMost t.dynamic_resources s.dynamic_resources
    × (t.available_workers ≡ s.available_workers)
    × (t.local_actor_infos ≡ s.local_actor_infos)

executions-with_db :
    (db : Option ℕ) (t : Task) (es : List Effect)
    → executions (elim db [ none ↦ es | some id ↦ task_table_update t ∷ es ]) ≡ executions es
executions-with_db none t es = refl
executions-with_db (some id) t es = refl

pub assign_task_to_worker-Assigns :
    (env : Env) (spec : TaskSpec) (w : ℕ) (s : LocalSchedulerState)
    → Ensures (Assigns w spec s) (assign_task_to_worker env spec w s)
unfolding assign_task_to_worker
assign_task_to_worker-Assigns env spec w s =
    Ensures->>= (λ _. Unit {0}) (Assigns w spec s) (get_worker w s) _ (Ensures-any _)
      λ c _. Ensures-check (c.actor_id == spec.actor_id) (Assigns w spec s) _ λ _.
        Ensures-check (is_driver_alive spec.driver_id s) (Assigns w spec s) _ λ _.
          Ensures->>= (λ _. Unit {0}) (Assigns w spec s)
            (check_written (env.write_message (length s.effects) w)) _ (Ensures-any _)
            λ _ _.
              Ensures->>= (λ p. AtMost p.1 s.dynamic_resources) (Assigns w spec s)
                (if c.actor_id == nil_id
                  then acquire_resources spec.required_resources.cpu spec.required_resources.gpu c
                      s.dynamic_resources
                  else ok (c, s.dynamic_resources))
                _
                (Ensures-if (c.actor_id == nil_id) (λ p. AtMost p.1 s.dynamic_resources) _ _
                  (λ _.
                    acquire_resources-AtMost spec.required_resources.cpu spec.required_resources.gpu
                      c s.dynamic_resources)
                  λ _. (omega arith, omega arith))
                λ p less.
                  (executions-with_db s.db _ (execute_task w spec ∷ s.effects), less, refl, refl)

-- Why nothing more can be assigned.
abbrev pub Exhausted : List TaskSpec → LocalSchedulerState → Type 0
Exhausted rest t =
    (t.available_workers ≡ [])
    ⊎ ((resources_available t.dynamic_resources ≡ false)
        ⊎ All (λ spec. task_satisfied spec t.dynamic_resources ≡ false) rest)

-- The tasks of a queue are assigned or stay.
abbrev pub NoneLost :
    List TaskSpec → LocalSchedulerState → List TaskSpec → LocalSchedulerState → Type 0
NoneLost specs s rest t =
    (k : ℕ) → count k (ids rest) + count k (assigned t) ≡ count k (ids specs) + count k (assigned s)

abbrev Looped : List TaskSpec → LocalSchedulerState → List TaskSpec × LocalSchedulerState → Type 0
Looped specs s p =
    NoneLost specs s p.0 p.1 × AtMost p.1.dynamic_resources s.dynamic_resources × Exhausted p.0 p.1
