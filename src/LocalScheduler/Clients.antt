-- ===== src/LocalScheduler/Clients.antt =====
-- Clients that register and leave, actors and drivers that come and go, and the reconstruction of
-- objects: src/local_scheduler/local_scheduler.cc.
use ray.Common.{
  ℕ, Bool, true, false, not, ◌&&◌, ◌||◌, Option, none, some, List, [], ◌∷◌, length, Result, ok,
  fatal, ◌>>=◌, ◌>>◌, check, if◌then◌else◌, ◌==◌, contains, remove,
}
use ray.Common.Int.{ℤ, pos, negsuc}
use ray.Common.Maps.{lookup, insert, erase_first, has_key}
use ray.Tasks.{nil_id, Arg, by_reference, by_value, TaskSpec, Task, done, lost, reconstructing}
use ray.LocalScheduler.State.{
  LocalSchedulerClient, Env, LocalSchedulerState, written, hung_up, reset, failed,
  register_client_reply, task_table_update, task_table_test_and_update, object_table_lookup,
  result_table_lookup, driver_table_send_driver_death, push_error, kill_process, emit, emit_db,
  with_db, get_db_client_id, get_worker, set_worker, start_worker,
}
use ray.LocalScheduler.Workers.{release_resources, is_driver_alive}
use ray.LocalScheduler.Queues.{handle_task_submitted, handle_task_scheduled}
use ray.LocalScheduler.Objects.{handle_driver_removed}
use ray.LocalScheduler.Actors.{
  remove_actor, check_own_actor, handle_actor_worker_connect, handle_actor_creation_notification,
  handle_actor_task_scheduled, handle_worker_removed,
}

-- The signal to a worker that is a child: without `cleanup`, a timer frees its struct later.
abbrev pub signal_worker :
    (w : ℕ) → LocalSchedulerClient → (cleanup : Bool) → LocalSchedulerState → LocalSchedulerState
signal_worker w worker cleanup s =
    let signals = worker.is_child && not (worker.pid == 0) in
    record s {
      dying = if signals && not cleanup then w ∷ s.dying else s.dying;
      effects = if signals then kill_process worker.pid ∷ s.effects else s.effects;
    }

-- The error that is pushed to the driver of the worker's task.
abbrev pub push_worker_died :
    LocalSchedulerClient
    → (cleanup suppress_warning : Bool) → LocalSchedulerState
    → Result LocalSchedulerState
push_worker_died worker cleanup suppress_warning s = elim worker.task_in_progress [
  | none ↦ ok s
  | some task ↦
      if cleanup || suppress_warning then ok s else emit_db (push_error task.spec.driver_id) s
]

-- Where a killed worker's task is written as lost.
abbrev pub lose_task : LocalSchedulerClient → LocalSchedulerState → LocalSchedulerState
lose_task worker s = record s {
  effects = elim worker.task_in_progress [
    | none ↦ s.effects
    | some task ↦ with_db (task_table_update (record task { state = lost })) s
  ];
}

unfoldable pub kill_worker :
    (w : ℕ) → (cleanup suppress_warning : Bool) → LocalSchedulerState → Result LocalSchedulerState
kill_worker w cleanup suppress_warning s = do
  worker ← get_worker w s
  let s1 = record s { workers = erase_first w s.workers }
  check (not (has_key w s1.workers))
  s2 ←
      if worker.actor_id == nil_id
      then handle_worker_removed w worker s1
      else remove_actor worker.actor_id s1
  s3 ← push_worker_died worker cleanup suppress_warning (signal_worker w worker cleanup s2)
  (released, dynamic) ←
      release_resources worker.cpus_in_use worker.gpus_in_use worker s3.dynamic_resources
  ok (lose_task worker (record s3 { dynamic_resources = dynamic }))

-- A client's struct that is not freed: a client of the list, or a killed one that is still dying.
abbrev pub is_allocated : (w : ℕ) → LocalSchedulerState → Bool
is_allocated w s = has_key w s.workers || contains w s.dying

-- The branch of send_client_register_reply for a client that hung up: after kill_worker the warning
-- reads the client's socket.
abbrev pub kill_hung_up : (w : ℕ) → LocalSchedulerState → Result LocalSchedulerState
kill_hung_up w s = do s' ← kill_worker w false false s; check (is_allocated w s'); ok s'

unfoldable pub send_client_register_reply :
    Env → (w : ℕ) → LocalSchedulerState → Result LocalSchedulerState
send_client_register_reply env w s = do
  check (is_allocated w s)
  elim (env.write_message (length s.effects) w) [
    | written ↦ ok (emit (register_client_reply w) s)
    | hung_up ↦ kill_hung_up w s
    | reset ↦ kill_hung_up w s
    | failed ↦ fatal
  ]

-- The part of handle_client_register for a worker that runs an actor.
unfoldable pub register_actor :
    Env → (w actor_id : ℕ) → LocalSchedulerState → Result LocalSchedulerState
register_actor env w actor_id s = if actor_id == nil_id then ok s else (do
  check_own_actor actor_id s
  worker ← get_worker w s
  check (worker.actor_id == nil_id)
  handle_actor_worker_connect env actor_id w
      (set_worker w (record worker { actor_id = actor_id }) s))

-- The part of handle_client_register for a child process.
unfoldable pub register_child :
    (w worker_pid : ℕ) → LocalSchedulerState → Result LocalSchedulerState
register_child w worker_pid s =
    if contains worker_pid s.child_pids
    then (do
      worker ← get_worker w s
      ok (record (set_worker w (record worker { is_child = true }) s) {
        child_pids = remove worker_pid s.child_pids;
      }))
    else ok s

-- The end of handle_client_register: an actor of a removed driver is killed.
unfoldable pub kill_orphan : (w actor_id : ℕ) → LocalSchedulerState → Result LocalSchedulerState
kill_orphan w actor_id s =
    if actor_id == nil_id then ok s else elim (lookup actor_id s.actor_mapping) [
      | none ↦ fatal
      | some mapped ↦
          if is_driver_alive mapped.driver_id s then ok s else kill_worker w false false s
    ]

unfoldable pub handle_client_register :
    Env
    → (w : ℕ) → (is_worker : Bool) → (client_id worker_pid actor_id : ℕ) → LocalSchedulerState
    → Result LocalSchedulerState
handle_client_register env w is_worker client_id worker_pid actor_id s = do
  worker ← get_worker w s
  check (not worker.registered)
  check (worker.client_id == nil_id)
  let registered = record worker {
    registered = true;
    is_worker = is_worker;
    client_id = client_id;
    pid = if is_worker then worker_pid else worker.pid;
  }
  if is_worker
      then (register_actor env w actor_id (set_worker w registered s)
          >>= register_child w worker_pid
          >>= kill_orphan w actor_id)
      else ok (set_worker w registered s)

-- One round of the loop over the workers in handle_driver_removed_callback.
unfoldable pub kill_if_driver : (driver_id w : ℕ) → LocalSchedulerState → Result LocalSchedulerState
kill_if_driver driver_id w s = do
  worker ← get_worker w s
  if not (worker.actor_id == nil_id)
      then elim (lookup worker.actor_id s.actor_mapping) [
        | none ↦ fatal
        | some mapped ↦ if mapped.driver_id == driver_id then kill_worker w false true s else ok s
      ]
      else elim worker.task_in_progress [
        | none ↦ ok s
        | some task ↦ if task.spec.driver_id == driver_id then kill_worker w false true s else ok s
      ]

unfoldable pub kill_loop :
    (driver_id : ℕ)
    → List (ℕ × LocalSchedulerClient)
    → LocalSchedulerState
    → Result LocalSchedulerState
kill_loop driver_id [] s = ok s
kill_loop driver_id ((w, worker) ∷ workers) s =
    kill_if_driver driver_id w s >>= kill_loop driver_id workers

unfoldable pub handle_driver_removed_callback :
    (driver_id : ℕ) → LocalSchedulerState → Result LocalSchedulerState
handle_driver_removed_callback driver_id s = do
  s' ← kill_loop driver_id s.workers s
  handle_driver_removed driver_id (record s' { removed_drivers = driver_id ∷ s'.removed_drivers })

unfoldable pub handle_client_disconnect : (w : ℕ) → LocalSchedulerState → Result LocalSchedulerState
handle_client_disconnect w s = do
  worker ← get_worker w s
  s' ←
      if not worker.registered || worker.is_worker
      then ok s
      else emit_db (driver_table_send_driver_death worker.client_id) s
  kill_worker w false false s'

unfoldable pub handle_task_scheduled_callback :
    Env → TaskSpec → LocalSchedulerState → Result LocalSchedulerState
handle_task_scheduled_callback env spec s =
    if is_driver_alive spec.driver_id s
    then (if spec.actor_id == nil_id
        then handle_task_scheduled env spec s
        else handle_actor_task_scheduled env spec s)
    else ok s

unfoldable pub handle_actor_creation_callback :
    Env
    → (actor_id driver_id local_scheduler_id : ℕ) → LocalSchedulerState
    → Result LocalSchedulerState
handle_actor_creation_callback env actor_id driver_id local_scheduler_id s =
    let s1 = record s {
      actor_mapping =
          insert actor_id
            (record { driver_id = driver_id; local_scheduler_id = local_scheduler_id })
            s.actor_mapping;
    } in
    if is_driver_alive driver_id s
    then (do
      check (not (has_key actor_id s.actor_mapping))
      own ← get_db_client_id s
      handle_actor_creation_notification env
          (if local_scheduler_id == own then start_worker env actor_id s1 else s1))
    else ok s

unfoldable pub reconstruct_object :
    (object_id : ℕ) → LocalSchedulerState → Result LocalSchedulerState
reconstruct_object object_id s = emit_db (object_table_lookup object_id) s

-- `manager_count` is -1 for an object that the table does not know.
unfoldable pub reconstruct_object_lookup_callback :
    (object_id : ℕ) → (manager_count : ℤ) → LocalSchedulerState → Result LocalSchedulerState
reconstruct_object_lookup_callback object_id manager_count s = elim manager_count [
  | pos n ↦ if n == 0 then emit_db (result_table_lookup object_id true) s else ok s
  | negsuc n ↦ if n == 0 then emit_db (result_table_lookup object_id false) s else ok s
]

unfoldable pub reconstruct_evicted_result_lookup_callback :
    (task_id : ℕ) → (is_put : Bool) → LocalSchedulerState → Result LocalSchedulerState
reconstruct_evicted_result_lookup_callback task_id is_put s = do
  check (not (task_id == nil_id))
  emit_db (task_table_test_and_update task_id (done ∷ lost ∷ []) reconstructing is_put) s

unfoldable pub reconstruct_failed_result_lookup_callback :
    (task_id : ℕ) → LocalSchedulerState → Result LocalSchedulerState
reconstruct_failed_result_lookup_callback task_id s =
    if task_id == nil_id
    then ok s
    else emit_db (task_table_test_and_update task_id (lost ∷ []) reconstructing false) s

unfoldable pub reconstruct_args : List Arg → LocalSchedulerState → Result LocalSchedulerState
reconstruct_args [] s = ok s
reconstruct_args (by_value ∷ args) s = reconstruct_args args s
reconstruct_args (by_reference object_id ∷ args) s =
    reconstruct_object object_id s >>= reconstruct_args args

unfoldable pub reconstruct_task_update_callback :
    Env → Option Task → (updated : Bool) → LocalSchedulerState → Result LocalSchedulerState
reconstruct_task_update_callback env none updated s = fatal
reconstruct_task_update_callback env (some task) updated s =
    if updated
    then (do
      check (task.spec.actor_id == nil_id)
      s' ← handle_task_submitted env task.spec s
      reconstruct_args task.spec.args s')
    else ok s

unfoldable pub reconstruct_put_task_update_callback :
    Env → Option Task → (updated : Bool) → LocalSchedulerState → Result LocalSchedulerState
reconstruct_put_task_update_callback env none updated s = fatal
reconstruct_put_task_update_callback env (some task) updated s =
    if updated
    then reconstruct_task_update_callback env (some task) updated s
    else emit_db (push_error task.spec.driver_id) s
