-- ===== src/GlobalScheduler/Server.antt =====
-- The callbacks of the global scheduler: src/global_scheduler/global_scheduler.cc.
use ray.Common.{
  ℕ, zero, suc, ◌+◌, Bool, true, false, ◌&&◌, none, some, List, [], ◌∷◌, ◌++◌, Result, ok, fatal,
  ◌>>=◌, ◌>>◌, check, if◌then◌else◌, ◌==◌, leb, ltb, length, get_elem?,
}
use ray.Common.Maps.{lookup, insert, erase, has_key}
use ray.Tasks.{Task}
use ray.GlobalScheduler.State.{
  GlobalSchedulerState, GlobalSchedulerState_init, LocalScheduler, LocalSchedulerInfo,
  SchedulerObjectInfo, AuxAddressEntry, db_client_table_remove, get_local_scheduler,
  set_local_scheduler,
}
use ray.GlobalScheduler.Algorithm.{handle_task_waiting}

-- utarray_erase of one item.
unfoldable pub erase_elem {ℓ} : {A : Type ℓ} → ℕ → List A → List A
erase_elem i [] = []
erase_elem zero (x ∷ xs) = xs
erase_elem (suc i) (x ∷ xs) = x ∷ erase_elem i xs

-- A task that was not assigned is copied to the pending tasks.
unfoldable pub process_task_waiting : Task → GlobalSchedulerState → Result GlobalSchedulerState
process_task_waiting waiting_task s = do
  (s', task, successfully_assigned) ← handle_task_waiting waiting_task s
  if successfully_assigned
      then ok s'
      else ok (record s' {
        pending_tasks = s'.pending_tasks ++ s'.next_task ∷ [];
        tasks = insert s'.next_task task s'.tasks;
        next_task = s'.next_task + 1;
      })

unfoldable pub new_local_scheduler : ℕ → LocalScheduler
new_local_scheduler db_client_id = record {
  id = db_client_id;
  num_heartbeats_missed = 0;
  num_tasks_sent = 0;
  num_recent_tasks_sent = 0;
  info = record {
    total_num_workers = 0;
    task_queue_length = 0;
    available_workers = 0;
    static_resources = record { cpu = 0; gpu = 0 };
    dynamic_resources = record { cpu = 0; gpu = 0 };
  };
}

unfoldable pub add_local_scheduler :
    (db_client_id aux_address : ℕ) → GlobalSchedulerState → GlobalSchedulerState
add_local_scheduler db_client_id aux_address s =
    let entry : AuxAddressEntry = record {
      aux_address = aux_address;
      local_scheduler_db_client_id = db_client_id;
    } in
    record s {
      plasma_local_scheduler_map = entry ∷ s.plasma_local_scheduler_map;
      local_scheduler_plasma_map = entry ∷ s.local_scheduler_plasma_map;
      local_schedulers = s.local_schedulers ++ new_local_scheduler db_client_id ∷ [];
    }

-- The loop over plasma_local_scheduler_map in remove_local_scheduler.
unfoldable pub delete_entries : ℕ → List AuxAddressEntry → List AuxAddressEntry
delete_entries id [] = []
delete_entries id (e ∷ es) =
    if e.local_scheduler_db_client_id == id then delete_entries id es else e ∷ delete_entries id es

-- HASH_FIND and HASH_DELETE in local_scheduler_plasma_map, with the CHECK between them.
unfoldable pub delete_entry : ℕ → List AuxAddressEntry → Result (List AuxAddressEntry)
delete_entry id [] = fatal
delete_entry id (e ∷ es) =
    if e.local_scheduler_db_client_id == id
    then ok es
    else (do es' ← delete_entry id es; ok (e ∷ es'))

unfoldable pub remove_local_scheduler :
    (index : ℕ) → GlobalSchedulerState → Result GlobalSchedulerState
remove_local_scheduler index s = elim (get_elem? s.local_schedulers index) [
  | none ↦ fatal
  | some active_worker ↦ do
    entries ← delete_entry active_worker.id s.local_scheduler_plasma_map
    ok (record s {
      local_schedulers = erase_elem index s.local_schedulers;
      plasma_local_scheduler_map = delete_entries active_worker.id s.plasma_local_scheduler_map;
      local_scheduler_plasma_map = entries;
    })
]

-- The index of the first scheduler with an ID, or the length.
unfoldable pub index_of : ℕ → List LocalScheduler → ℕ
index_of id [] = 0
index_of id (l ∷ ls) = if l.id == id then 0 else suc (index_of id ls)

-- strncmp(client_type, "local_scheduler", strlen("local_scheduler")) == 0
unfoldable pub is_prefix : List ℕ → List ℕ → Bool
is_prefix [] text = true
is_prefix (c ∷ cs) [] = false
is_prefix (c ∷ cs) (d ∷ ds) = c == d && is_prefix cs ds

abbrev pub local_scheduler_type : List ℕ
local_scheduler_type =
    b'l' ∷ b'o' ∷ b'c' ∷ b'a' ∷ b'l' ∷ b'_' ∷ b's' ∷ b'c' ∷ b'h' ∷ b'e' ∷ b'd' ∷ b'u' ∷ b'l' ∷ b'e'
    ∷ b'r' ∷ []

unfoldable pub process_new_db_client :
    (db_client_id : ℕ)
    → (client_type : List ℕ) → (aux_address : ℕ) → (is_insertion : Bool) → GlobalSchedulerState
    → Result GlobalSchedulerState
process_new_db_client db_client_id client_type aux_address is_insertion s =
    if is_prefix local_scheduler_type client_type
    then (if is_insertion
        then ok (add_local_scheduler db_client_id aux_address s)
        else (let i = index_of db_client_id s.local_schedulers in
            if ltb i (length s.local_schedulers) then remove_local_scheduler i s else ok s))
    else ok s

-- A known object keeps its size; the locations are replaced.
unfoldable pub object_table_subscribe_callback :
    (object_id data_size : ℕ)
    → (manager_vector : List ℕ) → GlobalSchedulerState
    → GlobalSchedulerState
object_table_subscribe_callback object_id data_size manager_vector s =
    let entry : SchedulerObjectInfo = elim (lookup object_id s.scheduler_object_info_table) [
      | none ↦ record {
        object_id = object_id;
        data_size = data_size;
        object_locations = manager_vector;
      }
      | some o ↦ record o { object_locations = manager_vector }
    ] in
    record s { scheduler_object_info_table = insert object_id entry s.scheduler_object_info_table }

unfoldable pub local_scheduler_table_handler :
    (client_id : ℕ) → LocalSchedulerInfo → GlobalSchedulerState → GlobalSchedulerState
local_scheduler_table_handler client_id info s =
    elim (get_local_scheduler client_id s.local_schedulers) [
      | none ↦ s
      | some l ↦ record s {
        local_schedulers =
            set_local_scheduler client_id
              (record l { num_heartbeats_missed = 0; num_recent_tasks_sent = 0; info = info })
              s.local_schedulers;
      }
    ]

-- What a pointer to slot `i` of an array of pointers reads after utarray_erase of that slot: the item
-- that has moved there, or what stood there if it was the last.
unfoldable pub read_after_erase : ℕ → ℕ → List ℕ → ℕ
read_after_erase i old pending_tasks = elim (get_elem? pending_tasks i) [
  | none ↦ old
  | some moved ↦ moved
]

-- free of a pointer to a task, which must not have been freed before.
unfoldable pub free_task : ℕ → GlobalSchedulerState → Result GlobalSchedulerState
free_task pointer s = do
  check (has_key pointer s.tasks)
  ok (record s { tasks = erase pointer s.tasks })

-- One round of task_cleanup_handler, for the pending task at index `i`. A pointer to a task that was
-- freed dangles.
unfoldable pub retry_pending : (i : ℕ) → GlobalSchedulerState → Result GlobalSchedulerState
retry_pending i s = elim (get_elem? s.pending_tasks i) [
  | none ↦ fatal
  | some pending_task ↦ elim (lookup pending_task s.tasks) [
    | none ↦ fatal
    | some task ↦ do
      (s', task', successfully_assigned) ← handle_task_waiting task s
      if successfully_assigned
          then free_task (read_after_erase i pending_task (erase_elem i s'.pending_tasks))
              (record s' {
                pending_tasks = erase_elem i s'.pending_tasks;
                tasks = insert pending_task task' s'.tasks;
              })
          else ok s'
  ]
]

-- The loop of task_cleanup_handler over the indices below `n`, the last first.
unfoldable pub retry_loop : (n : ℕ) → GlobalSchedulerState → Result GlobalSchedulerState
retry_loop zero s = ok s
retry_loop (suc i) s = retry_pending i s >>= retry_loop i

unfoldable pub task_cleanup_handler : GlobalSchedulerState → Result GlobalSchedulerState
task_cleanup_handler s = retry_loop (length s.pending_tasks) s

-- NUM_HEARTBEATS_TIMEOUT
abbrev pub num_heartbeats_timeout : ℕ
num_heartbeats_timeout = 100

-- `++local_scheduler_ptr->num_heartbeats_missed` at slot `i`: past the end it changes no scheduler.
unfoldable pub miss_heartbeat : (i : ℕ) → List LocalScheduler → List LocalScheduler
miss_heartbeat i [] = []
miss_heartbeat zero (l ∷ ls) = record l { num_heartbeats_missed = l.num_heartbeats_missed + 1 } ∷ ls
miss_heartbeat (suc i) (l ∷ ls) = l ∷ miss_heartbeat i ls

-- One round of heartbeat_timeout_handler, for the scheduler at index `i`.
unfoldable pub check_heartbeat : (i : ℕ) → GlobalSchedulerState → Result GlobalSchedulerState
check_heartbeat i s = elim (get_elem? s.local_schedulers i) [
  | none ↦ fatal
  | some l ↦ do
    s' ←
        if leb num_heartbeats_timeout l.num_heartbeats_missed
        then remove_local_scheduler i (record s { db = db_client_table_remove l.id ∷ s.db })
        else ok s
    ok (record s' { local_schedulers = miss_heartbeat i s'.local_schedulers })
]

-- The loop of heartbeat_timeout_handler over the indices below `n`, the last first.
unfoldable pub heartbeat_loop : (n : ℕ) → GlobalSchedulerState → Result GlobalSchedulerState
heartbeat_loop zero s = ok s
heartbeat_loop (suc i) s = check_heartbeat i s >>= heartbeat_loop i

unfoldable pub heartbeat_timeout_handler : GlobalSchedulerState → Result GlobalSchedulerState
heartbeat_timeout_handler s = heartbeat_loop (length s.local_schedulers) s

-- A callback of the event loop.
pub data Event : Type 0 where
  task_waiting : Task → Event
  db_client :
      (db_client_id : ℕ)
      → (client_type : List ℕ) → (aux_address : ℕ) → (is_insertion : Bool) → Event
  object_notification : (object_id data_size : ℕ) → (manager_vector : List ℕ) → Event
  heartbeat : (client_id : ℕ) → LocalSchedulerInfo → Event
  cleanup_timer heartbeat_timer : Event

unfoldable pub handle : Event → GlobalSchedulerState → Result GlobalSchedulerState
handle (task_waiting task) s = process_task_waiting task s
handle (db_client db_client_id client_type aux_address is_insertion) s =
    process_new_db_client db_client_id client_type aux_address is_insertion s
handle (object_notification object_id data_size manager_vector) s =
    ok (object_table_subscribe_callback object_id data_size manager_vector s)
handle (heartbeat client_id info) s = ok (local_scheduler_table_handler client_id info s)
handle cleanup_timer s = task_cleanup_handler s
handle heartbeat_timer s = heartbeat_timeout_handler s

unfoldable pub run : List Event → GlobalSchedulerState → Result GlobalSchedulerState
run [] s = ok s
run (e ∷ es) s = handle e s >>= run es

-- event_loop_run on a new global scheduler.
unfoldable pub start_server : List Event → Result GlobalSchedulerState
start_server events = run events GlobalSchedulerState_init
