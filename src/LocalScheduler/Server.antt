-- ===== src/LocalScheduler/Server.antt =====
-- The messages, timers and callbacks of the local scheduler: src/local_scheduler/local_scheduler.cc.
use ray.Common.{
  ℕ, zero, suc, ◌+◌, Bool, true, false, not, ◌&&◌, Option, none, some, List, [], ◌∷◌, ◌++◌, Result,
  ok, fatal, ◌>>=◌, ◌>>◌, check, if◌then◌else◌, ◌==◌, remove,
}
use ray.Common.Int.{ℤ}
use ray.Common.Maps.{has_key}
use ray.Tasks.{nil_id, Resources, TaskSpec, Task, done}
use ray.LocalScheduler.State.{
  LocalSchedulerClient, ObjectEntry, Env, LocalSchedulerState, input_buffer, task_table_update,
  result_table_add, local_scheduler_table_send_info, log_event, plasma_fetch, emit, emit_db,
  emit_if_db, get_worker, set_worker, start_worker, new_state,
}
use ray.LocalScheduler.Workers.{acquire_resources, release_resources, provide_scheduler_info}
use ray.LocalScheduler.Queues.{handle_task_submitted}
use ray.LocalScheduler.Objects.{handle_object_available, handle_object_removed}
use ray.LocalScheduler.Actors.{
  handle_actor_task_submitted, handle_worker_available, handle_actor_worker_available,
  handle_worker_blocked, handle_worker_unblocked,
}
use ray.LocalScheduler.Clients.{
  send_client_register_reply, handle_client_register, handle_driver_removed_callback,
  handle_client_disconnect, handle_task_scheduled_callback, handle_actor_creation_callback,
  reconstruct_object, reconstruct_object_lookup_callback,
  reconstruct_evicted_result_lookup_callback, reconstruct_failed_result_lookup_callback,
  reconstruct_task_update_callback, reconstruct_put_task_update_callback,
}

-- A message of a client, parsed; `unknown` is a type that process_message does not know.
pub data Message : Type 0 where
  submit_task : TaskSpec → Message
  task_done event_log get_task notify_unblocked disconnect unknown : Message
  register_client : (is_worker : Bool) → (client_id worker_pid actor_id : ℕ) → Message
  reconstruct : (object_id : ℕ) → Message
  put_object : (object_id task_id : ℕ) → Message

-- read_buffer: a message without a body, or a disconnection, leaves the bytes of the buffer.
abbrev pub read_buffer : Message → LocalSchedulerState → LocalSchedulerState
read_buffer message s = elim message [
  | submit_task spec ↦ record s { input_buffer = some spec }
  | event_log ↦ record s { input_buffer = none }
  | unknown ↦ record s { input_buffer = none }
  | register_client _ _ _ _ ↦ record s { input_buffer = none }
  | reconstruct _ ↦ record s { input_buffer = none }
  | put_object _ _ ↦ record s { input_buffer = none }
  | _ ↦ s
]

-- The result table's entries of the objects that a task returns.
unfoldable pub add_results :
    (task_id : ℕ) → (returns : List ℕ) → LocalSchedulerState → LocalSchedulerState
add_results task_id [] s = s
add_results task_id (return_id ∷ returns) s =
    add_results task_id returns (emit_if_db (result_table_add return_id task_id false) s)

unfoldable pub process_submit_task :
    Env → TaskSpec → LocalSchedulerState → Result LocalSchedulerState
process_submit_task env spec s =
    let s' = add_results spec.task_id spec.returns s in
    if spec.actor_id == nil_id
    then handle_task_submitted env spec s'
    else handle_actor_task_submitted env input_buffer s'

-- The completed task of a worker that asks for a task.
unfoldable pub finish_task : (w : ℕ) → LocalSchedulerState → Result LocalSchedulerState
finish_task w s = do
  worker ← get_worker w s
  elim worker.task_in_progress [
    | none ↦ ok s
    | some task ↦ do
      (worker', dynamic) ←
          if worker.actor_id == nil_id
          then (do
            check (worker.cpus_in_use == task.spec.required_resources.cpu)
            check (worker.gpus_in_use == task.spec.required_resources.gpu)
            release_resources worker.cpus_in_use worker.gpus_in_use worker s.dynamic_resources)
          else ok (worker, s.dynamic_resources)
      ok (
          emit_if_db (task_table_update (record task { state = done }))
            (record (set_worker w (record worker' { task_in_progress = none }) s) {
              dynamic_resources = dynamic;
            }))
  ]

unfoldable pub process_get_task : Env → (w : ℕ) → LocalSchedulerState → Result LocalSchedulerState
process_get_task env w s = do
  s' ← finish_task w s
  worker ← get_worker w s'
  if worker.actor_id == nil_id
      then handle_worker_available env w s'
      else handle_actor_worker_available env w s'

-- A worker that waits for an object returns its CPUs.
unfoldable pub block_worker : Env → (w : ℕ) → LocalSchedulerState → Result LocalSchedulerState
block_worker env w s = do
  worker ← get_worker w s
  elim worker.task_in_progress [
    | none ↦ ok s
    | some task ↦
        if not worker.is_blocked && (worker.actor_id == nil_id)
        then (do
          (worker', dynamic) ←
              release_resources worker.cpus_in_use 0 (record worker { is_blocked = true })
                s.dynamic_resources
          handle_worker_blocked env w
              (record (set_worker w worker' s) { dynamic_resources = dynamic }))
        else ok s
  ]

unfoldable pub unblock_worker : (w : ℕ) → LocalSchedulerState → Result LocalSchedulerState
unblock_worker w s = do
  worker ← get_worker w s
  elim worker.task_in_progress [
    | none ↦ ok s
    | some task ↦
        if worker.actor_id == nil_id
        then (do
          check worker.is_blocked
          (worker', dynamic) ←
              acquire_resources task.spec.required_resources.cpu 0
                (record worker { is_blocked = false }) s.dynamic_resources
          handle_worker_unblocked w
              (record (set_worker w worker' s) { dynamic_resources = dynamic }))
        else ok s
  ]

-- The switch of process_message.
unfoldable pub switch : Env → (w : ℕ) → Message → LocalSchedulerState → Result LocalSchedulerState
switch env w (submit_task spec) s = process_submit_task env spec s
switch env w task_done s = ok s
switch env w event_log s = ok (emit_if_db log_event s)
switch env w get_task s = process_get_task env w s
switch env w notify_unblocked s = unblock_worker w s
switch env w disconnect s = handle_client_disconnect w s
switch env w unknown s = fatal
switch env w (register_client is_worker client_id worker_pid actor_id) s =
    handle_client_register env w is_worker client_id worker_pid actor_id s
    >>= send_client_register_reply env w
switch env w (reconstruct object_id) s = block_worker env w s >>= reconstruct_object object_id
switch env w (put_object object_id task_id) s = emit_db (result_table_add object_id task_id true) s

-- The event loop reads from the sockets of the clients in the list only.
unfoldable pub process_message :
    Env → (w : ℕ) → Message → LocalSchedulerState → Result LocalSchedulerState
process_message env w message s =
    if has_key w s.workers then switch env w message (read_buffer message s) else ok s

abbrev pub new_client : LocalSchedulerClient
new_client = record {
  registered = false;
  is_worker = true;
  client_id = nil_id;
  task_in_progress = none;
  cpus_in_use = 0;
  gpus_in_use = 0;
  is_blocked = false;
  pid = 0;
  is_child = false;
  actor_id = nil_id;
}

unfoldable pub new_client_connection : LocalSchedulerState → LocalSchedulerState
new_client_connection s = record s {
  workers = s.workers ++ (s.next_worker, new_client) ∷ [];
  next_worker = s.next_worker + 1;
}

unfoldable pub process_plasma_notification :
    Env → (object_id : ℕ) → (is_deletion : Bool) → LocalSchedulerState → Result LocalSchedulerState
process_plasma_notification env object_id is_deletion s =
    if is_deletion
    then handle_object_removed object_id s
    else handle_object_available env object_id s

unfoldable pub heartbeat_handler : LocalSchedulerState → Result LocalSchedulerState
heartbeat_handler s = emit_db (local_scheduler_table_send_info (provide_scheduler_info s)) s

unfoldable pub reconstruct_loop : List ℕ → LocalSchedulerState → Result LocalSchedulerState
reconstruct_loop [] s = ok s
reconstruct_loop (object_id ∷ object_ids) s =
    reconstruct_object object_id s >>= reconstruct_loop object_ids

unfoldable pub object_ids_of : List (ℕ × ObjectEntry) → List ℕ
object_ids_of [] = []
object_ids_of ((object_id, entry) ∷ entries) = entry.object_id ∷ object_ids_of entries

unfoldable pub fetch_object_timeout_handler : LocalSchedulerState → Result LocalSchedulerState
fetch_object_timeout_handler s =
    let object_ids = object_ids_of s.remote_objects in
    if s.plasma_manager_is_connected
    then reconstruct_loop object_ids (emit (plasma_fetch object_ids) s)
    else ok s

-- A callback of the event loop.
pub data Event : Type 0 where
  connection heartbeat_timer fetch_timer : Event
  message : (worker : ℕ) → Message → Event
  force_kill_worker : (worker : ℕ) → Event
  plasma_notification : (object_id : ℕ) → (is_deletion : Bool) → Event
  task_scheduled : TaskSpec → Event
  actor_created : (actor_id driver_id local_scheduler_id : ℕ) → Event
  driver_removed : (driver_id : ℕ) → Event
  object_lookup_done : (object_id : ℕ) → (manager_count : ℤ) → Event
  evicted_lookup_done : (task_id : ℕ) → (is_put : Bool) → Event
  failed_lookup_done : (task_id : ℕ) → Event
  task_update_done put_update_done : Option Task → (updated : Bool) → Event

unfoldable pub handle : Env → Event → LocalSchedulerState → Result LocalSchedulerState
handle env connection s = ok (new_client_connection s)
handle env heartbeat_timer s = heartbeat_handler s
handle env fetch_timer s = fetch_object_timeout_handler s
handle env (message w m) s = process_message env w m s
handle env (force_kill_worker w) s = ok (record s { dying = remove w s.dying })
handle env (plasma_notification object_id is_deletion) s =
    process_plasma_notification env object_id is_deletion s
handle env (task_scheduled spec) s = handle_task_scheduled_callback env spec s
handle env (actor_created actor_id driver_id local_scheduler_id) s =
    handle_actor_creation_callback env actor_id driver_id local_scheduler_id s
handle env (driver_removed driver_id) s = handle_driver_removed_callback driver_id s
handle env (object_lookup_done object_id manager_count) s =
    reconstruct_object_lookup_callback object_id manager_count s
handle env (evicted_lookup_done task_id is_put) s =
    reconstruct_evicted_result_lookup_callback task_id is_put s
handle env (failed_lookup_done task_id) s = reconstruct_failed_result_lookup_callback task_id s
handle env (task_update_done task updated) s = reconstruct_task_update_callback env task updated s
handle env (put_update_done task updated) s =
    reconstruct_put_task_update_callback env task updated s

unfoldable pub run : Env → List Event → LocalSchedulerState → Result LocalSchedulerState
run env [] s = ok s
run env (e ∷ es) s = handle env e s >>= run env es

unfoldable pub start_workers : Env → (num_workers : ℕ) → LocalSchedulerState → LocalSchedulerState
start_workers env zero s = s
start_workers env (suc n) s = start_workers env n (start_worker env nil_id s)

unfoldable pub start_server :
    Env
    → (start_worker_command global_scheduler_exists plasma_manager_is_connected : Bool)
    → (db : Option ℕ) → (static_resource_conf : Resources) → (num_workers : ℕ) → List Event
    → Result LocalSchedulerState
start_server env command exists connected db conf num_workers events =
    run env events (start_workers env num_workers (new_state command exists connected db conf))
