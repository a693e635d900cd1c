-- ===== src/GlobalScheduler/Algorithm.antt =====
-- The scheduling algorithm: src/global_scheduler/global_scheduler_algorithm.cc, and
-- assign_task_to_local_scheduler of src/global_scheduler/global_scheduler.cc.
use ray.Common.{
  ℕ, zero, suc, ◌+◌, ◌-◌, ◌%◌, Bool, true, false, not, ◌&&◌, Option, none, some, List, [], ◌∷◌,
  Result, ok, fatal, ◌>>=◌, ◌>>◌, check, if◌then◌else◌, ◌==◌, leb, length, get_elem?,
}
use ray.Common.Maps.{lookup, insert}
use ray.Common.Int.{ℤ, pos, negsuc, ◌-ℤ◌, ltb_ℤ}
use ray.Tasks.{Task, TaskSpec, Resources, Arg, by_reference, by_value, scheduled, nil_id}
use ray.GlobalScheduler.State.{
  GlobalSchedulerState, LocalScheduler, SchedulerObjectInfo, HashFind, task_table_update,
  get_local_scheduler, set_local_scheduler,
}

-- The cached resources, less those that a task requires, but not below 0.
unfoldable pub subtract_resources : Resources → Resources → Resources
subtract_resources dynamic required = record {
  cpu = dynamic.cpu - required.cpu;
  gpu = dynamic.gpu - required.gpu;
}

-- The part of assign_task_to_local_scheduler that updates the local scheduler.
unfoldable pub charge : TaskSpec → LocalScheduler → LocalScheduler
charge spec l = record l {
  num_tasks_sent = l.num_tasks_sent + 1;
  num_recent_tasks_sent = l.num_recent_tasks_sent + 1;
  info = record l.info {
    dynamic_resources = subtract_resources l.info.dynamic_resources spec.required_resources;
  };
}

-- An ID with no local scheduler is a null pointer.
unfoldable pub assign_task_to_local_scheduler :
    Task → ℕ → GlobalSchedulerState → Result (GlobalSchedulerState × Task)
assign_task_to_local_scheduler task id s =
    let task' : Task = record task { state = scheduled; local_scheduler_id = id } in
    elim (get_local_scheduler id s.local_schedulers) [
      | none ↦ fatal
      | some l ↦ ok (
        record s {
          db = task_table_update task' ∷ s.db;
          local_schedulers = set_local_scheduler id (charge task.spec l) s.local_schedulers;
        },
        task',
      )
    ]

unfoldable pub constraints_satisfied_hard : LocalScheduler → TaskSpec → Bool
constraints_satisfied_hard l spec =
    leb spec.required_resources.cpu l.info.static_resources.cpu
    && leb spec.required_resources.gpu l.info.static_resources.gpu

-- The loop of handle_task_round_robin: the last index and whether the task is satisfied. No outcome
-- means that the fuel ran out. An index past the end is a null pointer, which then is read.
unfoldable pub round_robin_loop :
    (fuel : ℕ)
    → GlobalSchedulerState
    → TaskSpec
    → (i num_retries : ℕ) (task_satisfied : Bool) → Option LocalScheduler
    → Option (Result (ℕ × Bool × Option LocalScheduler))
round_robin_loop zero s spec i num_retries task_satisfied scheduler = none
round_robin_loop (suc fuel) s spec i num_retries task_satisfied scheduler =
    let num_retries' = if i == s.round_robin_index then num_retries - 1 else num_retries in
    if not task_satisfied && not (num_retries == 0)
    then elim (get_elem? s.local_schedulers i) [
      | none ↦ some fatal
      | some l ↦
          round_robin_loop fuel s spec ((i + 1) % length s.local_schedulers) num_retries'
            (constraints_satisfied_hard l spec) (some l)
    ]
    else some (ok (i, task_satisfied, scheduler))

-- What follows the loop.
unfoldable pub after_round_robin :
    Task → GlobalSchedulerState → ℕ × Bool × Option LocalScheduler → Result GlobalSchedulerState
after_round_robin task s (i, true, some l) = do
  (s', _) ← assign_task_to_local_scheduler task l.id (record s { round_robin_index = i })
  ok s'
after_round_robin task s (i, true, none) = fatal
after_round_robin task s (i, false, _) = ok s

unfoldable pub handle_task_round_robin :
    (fuel : ℕ) → Task → GlobalSchedulerState → Option (Result GlobalSchedulerState)
handle_task_round_robin fuel task s =
    if length s.local_schedulers == 0
    then some fatal
    else elim (round_robin_loop fuel s task.spec s.round_robin_index 1 false none) [
      | none ↦ none
      | some r ↦ some (r >>= after_round_robin task s)
    ]

-- The inner loop of create_object_size_hashmap.
unfoldable pub add_locations : (object_size : ℕ) → List ℕ → List (ℕ × ℕ) → List (ℕ × ℕ)
add_locations object_size [] table = table
add_locations object_size (location ∷ rest) table =
    add_locations object_size rest (elim (lookup location table) [
      | none ↦ insert location object_size table
      | some total ↦ insert location (total + object_size) table
    ])

-- The outer loop: the table, whether there are arguments by reference, and the size of the task's
-- data.
unfoldable pub size_loop :
    List (ℕ × SchedulerObjectInfo) → List Arg → List (ℕ × ℕ) × Bool × ℕ → List (ℕ × ℕ) × Bool × ℕ
size_loop known [] acc = acc
size_loop known (by_value ∷ args) acc = size_loop known args acc
size_loop known (by_reference object_id ∷ args) (table, has_args_by_ref, task_data_size) =
    size_loop known args (elim (lookup object_id known) [
      | none ↦ (table, true, task_data_size)
      | some o ↦
          (add_locations o.data_size o.object_locations table, true, task_data_size + o.data_size)
    ])

unfoldable pub create_object_size_hashmap :
    GlobalSchedulerState → TaskSpec → List (ℕ × ℕ) × Bool × ℕ
create_object_size_hashmap s spec = size_loop s.scheduler_object_info_table spec.args ([], false, 0)

-- A null pointer is `none`. The scheduler of the ID is looked for only to warn if it is unknown.
unfoldable pub get_local_scheduler_id : HashFind → Option ℕ → GlobalSchedulerState → ℕ
get_local_scheduler_id hash_find none s = nil_id
get_local_scheduler_id hash_find (some plasma_location) s =
    elim (hash_find plasma_location s.plasma_local_scheduler_map) [
      | none ↦ nil_id
      | some e ↦ e.local_scheduler_db_client_id
    ]

unfoldable pub calculate_cost_pending : LocalScheduler → ℕ
calculate_cost_pending l = l.num_recent_tasks_sent + l.info.task_queue_length

-- INT32_MIN
abbrev pub int32_min : ℤ
int32_min = negsuc 2147483647

-- The variables of the loop of handle_task_waiting.
pub record Choice : Type 0 where
  pub task_feasible : Bool
  pub best_local_scheduler_score : ℤ
  pub best_local_scheduler_id : ℕ

unfoldable pub choose_loop : TaskSpec → List LocalScheduler → Choice → Choice
choose_loop spec [] c = c
choose_loop spec (l ∷ ls) c =
    let score = pos 0 -ℤ pos (calculate_cost_pending l) in
    if constraints_satisfied_hard l spec
    then choose_loop spec ls (
        if ltb_ℤ c.best_local_scheduler_score score
        then record {
          task_feasible = true;
          best_local_scheduler_score = score;
          best_local_scheduler_id = l.id;
        }
        else record c { task_feasible = true })
    else choose_loop spec ls c

-- Whether the task was assigned. The table of object sizes is made and freed without being read.
unfoldable pub handle_task_waiting :
    Task → GlobalSchedulerState → Result (GlobalSchedulerState × Task × Bool)
handle_task_waiting task s =
    let c = choose_loop task.spec s.local_schedulers (record {
      task_feasible = false;
      best_local_scheduler_score = int32_min;
      best_local_scheduler_id = nil_id;
    }) in
    if c.task_feasible
    then (do
      check (not (c.best_local_scheduler_id == nil_id))
      (s', task') ← assign_task_to_local_scheduler task c.best_local_scheduler_id s
      ok (s', task', true))
    else ok (s, task, false)
