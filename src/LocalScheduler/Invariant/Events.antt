-- ===== src/LocalScheduler/Invariant/Events.antt =====
-- The invariant of the local scheduler after any callbacks:
-- src/local_scheduler/local_scheduler.cc.
use ray.Common.{
  contains, ℕ, zero, suc, refl, Bool, true, false, not, Option, none, some, List, [], ◌∷◌, ok,
  Ensures, Ensures->>=, Ensures-check, Ensures-any, Ensures-if, ◌==◌, if◌then◌else◌, arith,
}
use ray.Common.Int.{ℤ, pos, negsuc}
use ray.Common.Maps.{lookup, insert, has_key}
use ray.Tasks.{nil_id, Arg, by_reference, by_value, TaskSpec, Task, Resources}
use ray.LocalScheduler.State.{
  Env, LocalSchedulerState, get_db_client_id, emit, start_worker, new_state, plasma_fetch,
}
use ray.LocalScheduler.Workers.{is_driver_alive}
use ray.LocalScheduler.Queues.{handle_task_submitted}
use ray.LocalScheduler.Clients.{
  handle_task_scheduled_callback, handle_actor_creation_callback, reconstruct_object,
  reconstruct_object_lookup_callback, reconstruct_evicted_result_lookup_callback,
  reconstruct_failed_result_lookup_callback, reconstruct_args, reconstruct_task_update_callback,
  reconstruct_put_task_update_callback,
}
use ray.LocalScheduler.Server.{
  new_client, new_client_connection, process_plasma_notification, heartbeat_handler,
  reconstruct_loop, object_ids_of, fetch_object_timeout_handler, Event, connection, heartbeat_timer,
  fetch_timer, message, force_kill_worker, plasma_notification, task_scheduled, actor_created,
  driver_removed, object_lookup_done, evicted_lookup_done, failed_lookup_done, task_update_done,
  put_update_done, handle, run, start_workers, start_server,
}
use ray.LocalScheduler.Accounts.{sum_of-append, cpus, gpus}
use ray.LocalScheduler.Invariant.{IsCoherent}
use ray.LocalScheduler.Invariant.Queueing.{
  handle_task_submitted-IsCoherent, handle_task_scheduled-IsCoherent,
}
use ray.LocalScheduler.Invariant.Arrivals.{handle_object_available-IsCoherent}
use ray.LocalScheduler.Invariant.Objects.{handle_object_removed-IsCoherent}
use ray.LocalScheduler.Invariant.Actors.{
  handle_actor_creation_notification-IsCoherent, handle_actor_task_scheduled-IsCoherent,
}
use ray.LocalScheduler.Invariant.Registration.{handle_driver_removed_callback-IsCoherent}
use ray.LocalScheduler.Invariant.Messages.{
  emit_db-IsCoherent, reconstruct_object-IsCoherent, process_message-IsCoherent,
}

new_client_connection-IsCoherent :
    (s : LocalSchedulerState) → IsCoherent s → IsCoherent (new_client_connection s)
unfolding new_client_connection
new_client_connection-IsCoherent s h =
    let (((c, g, z), pooled, ordered), ready) = h in
    let a = sum_of-append cpus s.next_worker new_client s.workers in
    let b = sum_of-append gpus s.next_worker new_client s.workers in
    (((omega (arith, a, c), omega (arith, b, g), z), pooled, ordered), ready)

handle_task_scheduled_callback-IsCoherent :
    (env : Env) (spec : TaskSpec) (s : LocalSchedulerState)
    → IsCoherent s
    → Ensures IsCoherent (handle_task_scheduled_callback env spec s)
unfolding handle_task_scheduled_callback
handle_task_scheduled_callback-IsCoherent env spec s h =
    Ensures-if (is_driver_alive spec.driver_id s) IsCoherent _ (ok s)
      (λ _.
        Ensures-if (spec.actor_id == nil_id) IsCoherent _ _
          (λ _. handle_task_scheduled-IsCoherent env spec s h)
          λ _. handle_actor_task_scheduled-IsCoherent env spec s h)
      λ _. h

start_if_own-IsCoherent :
    (own : Bool) (env : Env) (actor_id : ℕ) (s : LocalSchedulerState)
    → IsCoherent s
    → IsCoherent (if own then start_worker env actor_id s else s)
unfolding start_worker
start_if_own-IsCoherent true env actor_id s h = h
start_if_own-IsCoherent false env actor_id s h = h

handle_actor_creation_callback-IsCoherent :
    (env : Env) (actor_id driver_id local_scheduler_id : ℕ) (s : LocalSchedulerState)
    → IsCoherent s
    → Ensures IsCoherent
        (handle_actor_creation_callback env actor_id driver_id local_scheduler_id s)
unfolding handle_actor_creation_callback
handle_actor_creation_callback-IsCoherent env actor_id driver_id local_scheduler_id s h =
    let s1 : LocalSchedulerState = record s {
      actor_mapping =
          insert actor_id
            (record { driver_id = driver_id; local_scheduler_id = local_scheduler_id })
            s.actor_mapping;
    } in
    Ensures-if (is_driver_alive driver_id s) IsCoherent _ (ok s)
      (λ _. Ensures-check (not (has_key actor_id s.actor_mapping)) IsCoherent _ λ _.
        Ensures->>= (λ _. Unit {0}) IsCoherent (get_db_client_id s) _ (Ensures-any _)
          λ own _.
            handle_actor_creation_notification-IsCoherent env
              (if local_scheduler_id == own then start_worker env actor_id s1 else s1)
              (start_if_own-IsCoherent (local_scheduler_id == own) env actor_id s1 h))
      λ _. h

reconstruct_object_lookup_callback-IsCoherent :
    (object_id : ℕ) (manager_count : ℤ) (s : LocalSchedulerState)
    → IsCoherent s
    → Ensures IsCoherent (reconstruct_object_lookup_callback object_id manager_count s)
unfolding reconstruct_object_lookup_callback
reconstruct_object_lookup_callback-IsCoherent object_id (pos n) s h =
    Ensures-if (n == 0) IsCoherent _ (ok s) (λ _. emit_db-IsCoherent _ s h) λ _. h
reconstruct_object_lookup_callback-IsCoherent object_id (negsuc n) s h =
    Ensures-if (n == 0) IsCoherent _ (ok s) (λ _. emit_db-IsCoherent _ s h) λ _. h

reconstruct_args-IsCoherent :
    (args : List Arg) (s : LocalSchedulerState)
    → IsCoherent s
    → Ensures IsCoherent (reconstruct_args args s)
unfolding reconstruct_args
reconstruct_args-IsCoherent [] s h = h
reconstruct_args-IsCoherent (by_value ∷ args) s h = reconstruct_args-IsCoherent args s h
reconstruct_args-IsCoherent (by_reference object_id ∷ args) s h =
    Ensures->>= IsCoherent IsCoherent (reconstruct_object object_id s) (reconstruct_args args)
      (reconstruct_object-IsCoherent object_id s h) (reconstruct_args-IsCoherent args)

reconstruct_task_update_callback-IsCoherent :
    (env : Env) (task : Option Task) (updated : Bool) (s : LocalSchedulerState)
    → IsCoherent s
    → Ensures IsCoherent (reconstruct_task_update_callback env task updated s)
unfolding reconstruct_task_update_callback
reconstruct_task_update_callback-IsCoherent env none updated s h = tt
reconstruct_task_update_callback-IsCoherent env (some task) updated s h =
    Ensures-if updated IsCoherent _ (ok s)
      (λ _. Ensures-check (task.spec.actor_id == nil_id) IsCoherent _ λ _.
        Ensures->>= IsCoherent IsCoherent (handle_task_submitted env task.spec s)
          (reconstruct_args task.spec.args) (handle_task_submitted-IsCoherent env task.spec s h)
          (reconstruct_args-IsCoherent task.spec.args))
      λ _. h

reconstruct_put_task_update_callback-IsCoherent :
    (env : Env) (task : Option Task) (updated : Bool) (s : LocalSchedulerState)
    → IsCoherent s
    → Ensures IsCoherent (reconstruct_put_task_update_callback env task updated s)
unfolding reconstruct_put_task_update_callback
reconstruct_put_task_update_callback-IsCoherent env none updated s h = tt
reconstruct_put_task_update_callback-IsCoherent env (some task) updated s h =
    Ensures-if updated IsCoherent _ _
      (λ _. reconstruct_task_update_callback-IsCoherent env (some task) updated s h)
      λ _. emit_db-IsCoherent _ s h

reconstruct_loop-IsCoherent :
    (object_ids : List ℕ) (s : LocalSchedulerState)
    → IsCoherent s
    → Ensures IsCoherent (reconstruct_loop object_ids s)
unfolding reconstruct_loop
reconstruct_loop-IsCoherent [] s h = h
reconstruct_loop-IsCoherent (object_id ∷ object_ids) s h =
    Ensures->>= IsCoherent IsCoherent (reconstruct_object object_id s) (reconstruct_loop object_ids)
      (reconstruct_object-IsCoherent object_id s h) (reconstruct_loop-IsCoherent object_ids)

handle-IsCoherent :
    (env : Env) (e : Event) (s : LocalSchedulerState)
    → IsCoherent s
    → Ensures IsCoherent (handle env e s)
unfolding handle heartbeat_handler fetch_object_timeout_handler process_plasma_notification
    reconstruct_evicted_result_lookup_callback reconstruct_failed_result_lookup_callback
handle-IsCoherent env connection s h = new_client_connection-IsCoherent s h
handle-IsCoherent env heartbeat_timer s h = emit_db-IsCoherent _ s h
handle-IsCoherent env fetch_timer s h =
    let object_ids = object_ids_of s.remote_objects in
    Ensures-if s.plasma_manager_is_connected IsCoherent _ (ok s)
      (λ _. reconstruct_loop-IsCoherent object_ids (emit (plasma_fetch object_ids) s) h) λ _. h
handle-IsCoherent env (message w m) s h = process_message-IsCoherent env w m s h
handle-IsCoherent env (force_kill_worker w) s h = h
handle-IsCoherent env (plasma_notification object_id is_deletion) s h =
    Ensures-if is_deletion IsCoherent _ _ (λ _. handle_object_removed-IsCoherent object_id s h)
      λ _. handle_object_available-IsCoherent env object_id s h
handle-IsCoherent env (task_scheduled spec) s h =
    handle_task_scheduled_callback-IsCoherent env spec s h
handle-IsCoherent env (actor_created actor_id driver_id local_scheduler_id) s h =
    handle_actor_creation_callback-IsCoherent env actor_id driver_id local_scheduler_id s h
handle-IsCoherent env (driver_removed driver_id) s h =
    handle_driver_removed_callback-IsCoherent driver_id s h
handle-IsCoherent env (object_lookup_done object_id manager_count) s h =
    reconstruct_object_lookup_callback-IsCoherent object_id manager_count s h
handle-IsCoherent env (evicted_lookup_done task_id is_put) s h =
    Ensures-check (not (task_id == nil_id)) IsCoherent _ λ _. emit_db-IsCoherent _ s h
handle-IsCoherent env (failed_lookup_done task_id) s h =
    Ensures-if (task_id == nil_id) IsCoherent (ok s) _ (λ _. h) λ _. emit_db-IsCoherent _ s h
handle-IsCoherent env (task_update_done task updated) s h =
    reconstruct_task_update_callback-IsCoherent env task updated s h
handle-IsCoherent env (put_update_done task updated) s h =
    reconstruct_put_task_update_callback-IsCoherent env task updated s h

run-IsCoherent :
    (env : Env) (events : List Event) (s : LocalSchedulerState)
    → IsCoherent s
    → Ensures IsCoherent (run env events s)
unfolding run
run-IsCoherent env [] s h = h
run-IsCoherent env (e ∷ es) s h =
    Ensures->>= IsCoherent IsCoherent (handle env e s) (run env es) (handle-IsCoherent env e s h)
      (run-IsCoherent env es)

start_workers-IsCoherent :
    (env : Env) (n : ℕ) (s : LocalSchedulerState)
    → IsCoherent s
    → IsCoherent (start_workers env n s)
unfolding start_workers start_worker
start_workers-IsCoherent env zero s h = h
start_workers-IsCoherent env (suc n) s h =
    start_workers-IsCoherent env n (start_worker env nil_id s) h

new_state-IsCoherent :
    (command exists connected : Bool) (db : Option ℕ) (conf : Resources)
    → IsCoherent (new_state command exists connected db conf)
unfolding new_state lookup contains
new_state-IsCoherent command exists connected db conf = (
  ((omega arith, omega arith, refl), (λ k. omega arith), λ a e found. absurd cc),
  (tt, ((tt, λ k h. absurd cc), λ it spec found. absurd cc)),
)

-- After any callbacks that do not abort the scheduler, its state is coherent. For CPUs and for GPUs,
-- what is free and what the clients use add up to what the node has; the free GPUs are never negative.
-- A worker stands at most once in the vectors of available, executing and blocked workers. The queue
-- of each actor is in the order of the tasks' counters. All objects that a task of the dispatch queue
-- takes by reference are local. A task of the waiting queue misses an object, so none is left there
-- that could run, and it is registered among the dependent tasks of every object that it misses; the
-- iterators into this queue differ. The system calls may have any outcomes.
pub start_server-IsCoherent :
    (env : Env) (command exists connected : Bool) (db : Option ℕ) (conf : Resources)
    (num_workers : ℕ) (events : List Event)
    → Ensures IsCoherent (start_server env command exists connected db conf num_workers events)
unfolding start_server
start_server-IsCoherent env command exists connected db conf num_workers events =
    run-IsCoherent env events
      (start_workers env num_workers (new_state command exists connected db conf))
      (start_workers-IsCoherent env num_workers (new_state command exists connected db conf)
        (new_state-IsCoherent command exists connected db conf))
