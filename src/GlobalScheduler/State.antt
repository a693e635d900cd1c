-- ===== src/GlobalScheduler/State.antt =====
-- The state of the global scheduler: src/global_scheduler/global_scheduler.h, and the parts of
-- src/common/state/local_scheduler_table.h that it uses. ip:port strings are numbers.
use ray.Tasks.{Resources, Task}
use ray.Common.{ℕ, Option, none, some, List, [], ◌∷◌, if◌then◌else◌, ◌==◌}

pub record LocalSchedulerInfo : Type 0 where
  pub total_num_workers : ℕ
  pub task_queue_length : ℕ
  pub available_workers : ℕ
  pub static_resources : Resources
  pub dynamic_resources : Resources

pub record LocalScheduler : Type 0 where
  pub id : ℕ
  pub num_heartbeats_missed : ℕ
  pub num_tasks_sent : ℕ
  pub num_recent_tasks_sent : ℕ
  pub info : LocalSchedulerInfo

pub record SchedulerObjectInfo : Type 0 where
  pub object_id : ℕ
  pub data_size : ℕ
  pub object_locations : List ℕ

pub record AuxAddressEntry : Type 0 where
  pub aux_address : ℕ
  pub local_scheduler_db_client_id : ℕ

-- HASH_FIND by address in a table of entries, code of uthash.
abbrev pub HashFind : Type 0
HashFind = (address : ℕ) → List AuxAddressEntry → Option AuxAddressEntry

-- What the global scheduler writes to the database.
pub data DbCall : Type 0 where
  task_table_update : Task → DbCall
  db_client_table_remove : (db_client_id : ℕ) → DbCall

-- `pending_tasks` holds pointers, and `tasks` what they point to: the copies of tasks that are not
-- freed. `db` lists what was written to the database, the last first. uthash adds an entry without
-- a test for its key, so both maps are lists that may hold a key more than once; which of the
-- entries of an address it finds is not fixed here.
pub record GlobalSchedulerState : Type 0 where
  pub local_schedulers : List LocalScheduler
  pub round_robin_index : ℕ
  pub plasma_local_scheduler_map : List AuxAddressEntry
  pub local_scheduler_plasma_map : List AuxAddressEntry
  pub scheduler_object_info_table : List (ℕ × SchedulerObjectInfo)
  pub pending_tasks : List ℕ
  pub tasks : List (ℕ × Task)
  pub next_task : ℕ
  pub db : List DbCall

unfoldable pub GlobalSchedulerState_init : GlobalSchedulerState
GlobalSchedulerState_init = record {
  local_schedulers = [];
  round_robin_index = 0;
  plasma_local_scheduler_map = [];
  local_scheduler_plasma_map = [];
  scheduler_object_info_table = [];
  pending_tasks = [];
  tasks = [];
  next_task = 0;
  db = [];
}

-- The first scheduler with an ID.
unfoldable pub get_local_scheduler : ℕ → List LocalScheduler → Option LocalScheduler
get_local_scheduler id [] = none
get_local_scheduler id (l ∷ ls) = if l.id == id then some l else get_local_scheduler id ls

-- An assignment through the pointer that get_local_scheduler gives.
unfoldable pub set_local_scheduler : ℕ → LocalScheduler → List LocalScheduler → List LocalScheduler
set_local_scheduler id new [] = []
set_local_scheduler id new (l ∷ ls) =
    if l.id == id then new ∷ ls else l ∷ set_local_scheduler id new ls
