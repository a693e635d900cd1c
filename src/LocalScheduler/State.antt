-- ===== src/LocalScheduler/State.antt =====
-- The state of the local scheduler: src/local_scheduler/local_scheduler_shared.h, and the state that
-- src/local_scheduler/local_scheduler_algorithm.cc keeps in SchedulingAlgorithmState.
use ray.Common.{
  ℕ, Bool, Option, none, some, List, [], ◌∷◌, ◌++◌, length, Result, ok, fatal, if◌then◌else◌,
}
use ray.Common.Int.{ℤ, pos}
use ray.Common.Maps.{lookup, insert}
use ray.Tasks.{nil_id, Resources, TaskSpec, TaskStatus, Task}

-- The driver that created an actor, and the local scheduler that is responsible for it.
pub record ActorMapEntry : Type 0 where
  pub driver_id : ℕ
  pub local_scheduler_id : ℕ

-- A client's struct. A pointer to it is a number, which also stands for its socket.
pub record LocalSchedulerClient : Type 0 where
  pub registered : Bool
  pub is_worker : Bool
  pub client_id : ℕ
  pub task_in_progress : Option Task
  pub cpus_in_use : ℕ
  pub gpus_in_use : ℕ
  pub is_blocked : Bool
  pub pid : ℕ
  pub is_child : Bool
  pub actor_id : ℕ

-- `dependent_tasks` holds iterators into the waiting queue.
pub record ObjectEntry : Type 0 where
  pub object_id : ℕ
  pub dependent_tasks : List ℕ

pub record LocalActorInfo : Type 0 where
  pub task_counter : ℕ
  pub task_queue : List TaskSpec
  pub worker : Option ℕ
  pub worker_available : Bool

-- A pointer to a task specification: into the scheduler's input buffer, or to one of its own.
pub data SpecPointer : Type 0 where
  input_buffer : SpecPointer
  heap : TaskSpec → SpecPointer

-- Quantities that may drop below zero.
pub record DynamicResources : Type 0 where
  pub cpu : ℤ
  pub gpu : ℤ

-- What a heartbeat tells.
pub record HeartbeatInfo : Type 0 where
  pub total_num_workers : ℕ
  pub task_queue_length : ℕ
  pub available_workers : ℕ
  pub static_resources : Resources
  pub dynamic_resources : DynamicResources

-- What the scheduler does outside its own state.
pub data Effect : Type 0 where
  execute_task : (worker : ℕ) → TaskSpec → Effect
  register_client_reply : (worker : ℕ) → Effect
  task_table_update task_table_add_task : Task → Effect
  task_table_test_and_update :
      (task_id : ℕ)
      → (test_states : List TaskStatus) → (update_state : TaskStatus) → (is_put : Bool) → Effect
  result_table_add : (object_id task_id : ℕ) → (is_put : Bool) → Effect
  object_table_lookup : (object_id : ℕ) → Effect
  result_table_lookup : (object_id : ℕ) → (evicted : Bool) → Effect
  driver_table_send_driver_death : (driver_id : ℕ) → Effect
  local_scheduler_table_send_info : HeartbeatInfo → Effect
  log_event : Effect
  push_error : (driver_id : ℕ) → Effect
  plasma_fetch : List ℕ → Effect
  fork_worker : (actor_id : ℕ) → Effect
  kill_process : (pid : ℕ) → Effect

-- What write_message to a client gives: success, EPIPE or EBADF, ECONNRESET, or another error.
pub data WriteOutcome : Type 0 where
  written hung_up reset failed : WriteOutcome

-- The outcomes of the system calls, by the number of effects before the call. To the parent, fork
-- gives the ID of the new process.
pub record Env : Type 0 where
  pub write_message : (time worker : ℕ) → WriteOutcome
  pub fork : (time : ℕ) → ℕ

-- LocalSchedulerState with its SchedulingAlgorithmState. `db` is the client's ID if there is a
-- connection to the database; `start_worker_command` and `plasma_manager_is_connected` tell whether
-- there is such a command and such a connection. `workers` holds the structs behind the list of
-- pointers, and `dying` the killed workers whose struct the timer of force_kill_worker frees.
-- `input_buffer` is the specification that the buffer holds, if its bytes are one. `next_worker` and
-- `next_entry` are fresh pointers to a struct and to a node of the waiting queue; the iterators of
-- ObjectEntry are such nodes. `effects` lists the effects, the last first.
pub record LocalSchedulerState : Type 0 where
  pub start_worker_command : Bool
  pub global_scheduler_exists : Bool
  pub plasma_manager_is_connected : Bool
  pub db : Option ℕ
  pub workers : List (ℕ × LocalSchedulerClient)
  pub dying : List ℕ
  pub next_worker : ℕ
  pub removed_drivers : List ℕ
  pub child_pids : List ℕ
  pub actor_mapping : List (ℕ × ActorMapEntry)
  pub input_buffer : Option TaskSpec
  pub static_resources : Resources
  pub dynamic_resources : DynamicResources
  pub waiting_task_queue : List (ℕ × TaskSpec)
  pub next_entry : ℕ
  pub dispatch_task_queue : List TaskSpec
  pub local_actor_infos : List (ℕ × LocalActorInfo)
  pub cached_submitted_actor_tasks : List SpecPointer
  pub available_workers : List ℕ
  pub executing_workers : List ℕ
  pub blocked_workers : List ℕ
  pub local_objects : List (ℕ × ObjectEntry)
  pub remote_objects : List (ℕ × ObjectEntry)
  pub effects : List Effect

-- An effect, and one that needs the database.
abbrev pub emit : Effect → LocalSchedulerState → LocalSchedulerState
emit e s = record s { effects = e ∷ s.effects }

abbrev pub emit_db : Effect → LocalSchedulerState → Result LocalSchedulerState
emit_db e s = elim s.db [ none ↦ fatal | some id ↦ ok (emit e s) ]

-- The effects after a write to a table that the code skips without a database.
abbrev pub with_db : Effect → LocalSchedulerState → List Effect
with_db e s = elim s.db [ none ↦ s.effects | some id ↦ e ∷ s.effects ]

abbrev pub emit_if_db : Effect → LocalSchedulerState → LocalSchedulerState
emit_if_db e s = record s { effects = with_db e s }

abbrev pub get_db_client_id : LocalSchedulerState → Result ℕ
get_db_client_id s = elim s.db [ none ↦ fatal | some id ↦ ok id ]

-- `state->db ? get_db_client_id(state->db) : NIL_ID`
abbrev pub db_client_id_or_nil : LocalSchedulerState → ℕ
db_client_id_or_nil s = elim s.db [ none ↦ nil_id | some id ↦ id ]

-- A client's struct behind its pointer, and an assignment to it.
abbrev pub get_worker : ℕ → LocalSchedulerState → Result LocalSchedulerClient
get_worker w s = elim (lookup w s.workers) [ none ↦ fatal | some worker ↦ ok worker ]

abbrev pub set_worker : ℕ → LocalSchedulerClient → LocalSchedulerState → LocalSchedulerState
set_worker w worker s = record s { workers = insert w worker s.workers }

-- start_worker, in the parent process.
unfoldable pub start_worker : Env → (actor_id : ℕ) → LocalSchedulerState → LocalSchedulerState
start_worker env actor_id s = record s {
  child_pids =
      if s.start_worker_command
      then s.child_pids ++ env.fork (length s.effects) ∷ []
      else s.child_pids;
  effects = if s.start_worker_command then fork_worker actor_id ∷ s.effects else s.effects;
}

-- LocalSchedulerState_init before its first workers, with SchedulingAlgorithmState_init.
unfoldable pub new_state :
    (start_worker_command global_scheduler_exists plasma_manager_is_connected : Bool)
    → (db : Option ℕ) → (static_resource_conf : Resources) → LocalSchedulerState
new_state start_worker_command global_scheduler_exists plasma_manager_is_connected db conf =
    record {
      start_worker_command = start_worker_command;
      global_scheduler_exists = global_scheduler_exists;
      plasma_manager_is_connected = plasma_manager_is_connected;
      db = db;
      workers = [];
      dying = [];
      next_worker = 0;
      removed_drivers = [];
      child_pids = [];
      actor_mapping = [];
      input_buffer = none;
      static_resources = conf;
      dynamic_resources = record { cpu = pos conf.cpu; gpu = pos conf.gpu };
      waiting_task_queue = [];
      next_entry = 0;
      dispatch_task_queue = [];
      local_actor_infos = [];
      cached_submitted_actor_tasks = [];
      available_workers = [];
      executing_workers = [];
      blocked_workers = [];
      local_objects = [];
      remote_objects = [];
      effects = [];
    }
