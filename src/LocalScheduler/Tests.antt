-- ===== src/LocalScheduler/Tests.antt =====
-- Runs of the local scheduler on concrete events, and instances of the theorems.
use ray.Common.{
  ℕ, ◌+◌, ◌≡◌, refl, true, false, some, List, [], ◌∷◌, Result, ok, fatal, map, contains, remove,
  ◌++◌, length, Ensures, ◌>>=◌, arith,
}
use ray.Common.Maps.{lookup, insert, erase, erase_first, has_key}
use ray.Common.Int.{ℤ, pos, ◌+ℤ◌, ◌-ℤ◌}
use ray.Tasks.{nil_id, Resources, Arg, by_reference, TaskSpec, is_dependent_on}
use ray.LocalScheduler.State.{start_worker, new_state, Env, LocalSchedulerState, written}
use ray.LocalScheduler.Workers.{
  back, pop_back, swap_out, remove_worker_from_vector, acquire_gpus, acquire_resources,
  release_gpus, release_resources, is_driver_alive, assign_task_to_worker, provide_scheduler_info,
}
use ray.LocalScheduler.Queues.{
  can_run, fetch_missing_dependency, fetch_loop, fetch_missing_dependencies, dispatch_task,
  dispatch_loop, dispatch_tasks, queue_waiting_task, queue_dispatch_task, queue_task_locally,
  give_task_to_global_scheduler, resource_constraints_satisfied, handle_task_submitted,
  handle_task_scheduled,
}
use ray.LocalScheduler.Objects.{
  move_dependent, move_loop, handle_object_available, requeue_loop, refetch_args, refetch_loop,
  handle_object_removed, drop_dependents, drop_fetches, drop_waiting, drop_dispatch,
  handle_driver_removed,
}
use ray.LocalScheduler.Actors.{
  create_actor, remove_actor, dispatch_first, check_own_actor, dispatch_actor_task,
  handle_actor_worker_connect, insert_task, add_task_to_actor_queue, give_task_to_local_scheduler,
  read_spec, handle_actor_task_submitted, resubmit_loop, erase_front,
  handle_actor_creation_notification, handle_actor_task_scheduled, handle_worker_available,
  handle_worker_removed, handle_actor_worker_available, handle_worker_blocked,
  handle_worker_unblocked,
}
use ray.LocalScheduler.Clients.{
  kill_worker, send_client_register_reply, register_actor, register_child, kill_orphan,
  handle_client_register, kill_if_driver, kill_loop, handle_driver_removed_callback,
  handle_client_disconnect, handle_task_scheduled_callback, handle_actor_creation_callback,
  reconstruct_object, reconstruct_object_lookup_callback,
  reconstruct_evicted_result_lookup_callback, reconstruct_failed_result_lookup_callback,
  reconstruct_args, reconstruct_task_update_callback, reconstruct_put_task_update_callback,
}
use ray.LocalScheduler.Server.{
  new_client, add_results, process_submit_task, finish_task, process_get_task, block_worker,
  unblock_worker, switch, process_message, new_client_connection, process_plasma_notification,
  heartbeat_handler, reconstruct_loop, object_ids_of, fetch_object_timeout_handler, handle, run,
  start_workers, start_server, Event, connection, message, register_client, get_task, submit_task,
  notify_unblocked, reconstruct, plasma_notification, task_scheduled, actor_created, driver_removed,
}
use ray.LocalScheduler.Pools.{IsPooled, Removed, handle_worker_removed-Removed}
use ray.LocalScheduler.Dispatch.{executions}
use ray.LocalScheduler.ActorOrder.{
  InOrder, Queues, queue_of, dispatch_actor_task-InOrder, add_task_to_actor_queue-Queues,
}
use ray.LocalScheduler.Drivers.{Forgets, handle_driver_removed-Forgets}
use ray.LocalScheduler.Dependencies.{twice, queue_task_locally-twice}
use ray.LocalScheduler.Invariant.{IsCoherent}
use ray.LocalScheduler.Invariant.Shutdown.{free_state-Freed}
use ray.LocalScheduler.Shutdown.{kill_children, kill_workers, free_state}
use ray.LocalScheduler.Invariant.Events.{start_server-IsCoherent}

program : Unit {0}
unfolding contains remove lookup insert erase erase_first has_key ◌+ℤ◌ ◌-ℤ◌ is_dependent_on
    start_worker new_state back pop_back swap_out remove_worker_from_vector acquire_gpus
    acquire_resources release_gpus release_resources is_driver_alive assign_task_to_worker
    provide_scheduler_info can_run fetch_missing_dependency fetch_loop fetch_missing_dependencies
    dispatch_task dispatch_loop dispatch_tasks queue_waiting_task queue_dispatch_task
    queue_task_locally give_task_to_global_scheduler resource_constraints_satisfied
    handle_task_submitted handle_task_scheduled move_dependent move_loop handle_object_available
    requeue_loop refetch_args refetch_loop handle_object_removed drop_dependents drop_fetches
    drop_waiting drop_dispatch handle_driver_removed create_actor remove_actor dispatch_first
    check_own_actor dispatch_actor_task handle_actor_worker_connect insert_task
    add_task_to_actor_queue give_task_to_local_scheduler read_spec handle_actor_task_submitted
    resubmit_loop erase_front handle_actor_creation_notification handle_actor_task_scheduled
    handle_worker_available handle_worker_removed handle_actor_worker_available
    handle_worker_blocked handle_worker_unblocked kill_worker send_client_register_reply
    register_actor register_child kill_orphan handle_client_register kill_if_driver kill_loop
    handle_driver_removed_callback handle_client_disconnect handle_task_scheduled_callback
    handle_actor_creation_callback reconstruct_object reconstruct_object_lookup_callback
    reconstruct_evicted_result_lookup_callback reconstruct_failed_result_lookup_callback
    reconstruct_args reconstruct_task_update_callback reconstruct_put_task_update_callback
    add_results process_submit_task finish_task process_get_task block_worker unblock_worker switch
    process_message new_client_connection process_plasma_notification heartbeat_handler
    reconstruct_loop object_ids_of fetch_object_timeout_handler handle run start_workers
    start_server kill_children kill_workers free_state
program = tt

abbrev env : Env
env = record { write_message = λ time w. written; fork = λ time. 1000 + time }

-- A task of driver 1 with one CPU.
abbrev task_of : (task_id actor_id actor_counter : ℕ) → List Arg → TaskSpec
task_of task_id actor_id actor_counter args = record {
  driver_id = 1;
  task_id = task_id;
  actor_id = actor_id;
  actor_counter = actor_counter;
  args = args;
  returns = (100 + task_id) ∷ [];
  required_resources = record { cpu = 1; gpu = 0 };
}

abbrev conf : Resources
conf = record { cpu = 2; gpu = 1 }

abbrev started : List Event → Result LocalSchedulerState
started events = start_server env true true true (some 7) conf 2 events

-- The tasks that the effects assign, the last first.
abbrev assigned : Result LocalSchedulerState → List (ℕ × ℕ)
assigned fatal = []
assigned (ok s) = map (λ p. (p.0, p.1.task_id)) (executions s.effects)

-- Two workers join; a third client is a driver that submits tasks.
abbrev two_workers : List Event
two_workers =
    connection
    ∷ message 0 (register_client true 11 1000 nil_id)
    ∷ message 0 get_task
    ∷ connection
    ∷ message 1 (register_client true 12 1001 nil_id)
    ∷ message 1 get_task
    ∷ connection
    ∷ message 2 (register_client false 1 0 nil_id)
    ∷ []

abbrev first_task : TaskSpec
first_task = task_of 21 nil_id 0 []

abbrev second_task : TaskSpec
second_task = task_of 22 nil_id 0 (by_reference 5 ∷ [])

-- The last worker that came is the first to work; the second task waits for object 5, which goes
-- to the global scheduler, since it cannot run here.
runs_first :
    assigned (
      started (
        two_workers
        ++ message 2 (submit_task first_task) ∷ message 2 (submit_task second_task) ∷ []))
    ≡ (1, 21) ∷ []
unfolding program
runs_first = refl

-- A task that the global scheduler sends here waits until its object is local.
abbrev waits : List Event
waits = two_workers ++ task_scheduled second_task ∷ []

abbrev queue_lengths : Result LocalSchedulerState → List ℕ
queue_lengths fatal = []
queue_lengths (ok s) = length s.waiting_task_queue ∷ length s.dispatch_task_queue ∷ []

waits_for_object :
    (queue_lengths (started waits) ≡ 1 ∷ 0 ∷ [])
    × (assigned (started (waits ++ plasma_notification 5 false ∷ [])) ≡ (1, 22) ∷ [])
unfolding program
waits_for_object = (refl, refl)

-- A blocked worker returns its CPU, and takes it back when it is unblocked; two CPUs are not enough
-- for the three tasks then.
abbrev free_cpus : Result LocalSchedulerState → ℤ
free_cpus fatal = pos 99
free_cpus (ok s) = s.dynamic_resources.cpu

abbrev blocks : List Event
blocks = two_workers ++ message 2 (submit_task first_task) ∷ message 1 (reconstruct 9) ∷ []

blocked_cpus :
    (free_cpus (started blocks) ≡ pos 2)
    × (free_cpus (started (blocks ++ message 1 notify_unblocked ∷ [])) ≡ pos 1)
    × (free_cpus (started (blocks ++ message 1 notify_unblocked ∷ message 1 get_task ∷ [])) ≡ pos 2)
unfolding program
blocked_cpus = (refl, refl, refl)

-- The tasks of an actor run in the order of their counters, not of their arrival.
abbrev actor_events : List Event
actor_events =
    two_workers
    ++ actor_created 40 1 7
      ∷ task_scheduled (task_of 32 40 1 [])
      ∷ task_scheduled (task_of 31 40 0 [])
      ∷ connection
      ∷ message 3 (register_client true 13 1002 40)
      ∷ message 3 get_task
      ∷ message 3 get_task
      ∷ []

in_order : assigned (started actor_events) ≡ (3, 32) ∷ (3, 31) ∷ []
unfolding program
in_order = refl

-- A task that takes a missing object twice.
twice_aborts :
    started (
      two_workers
      ++ task_scheduled (task_of 23 nil_id 0 (twice 5)) ∷ plasma_notification 5 false ∷ [])
    ≡ fatal
unfolding program
twice_aborts = refl

-- Two tasks for an unknown actor are cached as pointers into the input buffer: both resubmissions
-- read the last.
abbrev resubmitted : List Event
resubmitted =
    two_workers
    ++ message 2 (submit_task (task_of 33 41 0 []))
      ∷ message 2 (submit_task (task_of 34 41 1 []))
      ∷ actor_created 41 1 7
      ∷ []

abbrev actor_queue : Result LocalSchedulerState → List ℕ
actor_queue fatal = []
actor_queue (ok s) = map (λ spec. spec.task_id) (queue_of 41 s)

reads_last : actor_queue (started resubmitted) ≡ 34 ∷ 34 ∷ []
unfolding program
reads_last = refl

-- A task of a driver that was removed aborts the scheduler when it is dispatched.
dead_driver :
    started (two_workers ++ driver_removed 1 ∷ message 2 (submit_task first_task) ∷ []) ≡ fatal
unfolding program
dead_driver = refl

start_server-IsCoherent_example :
    Ensures IsCoherent (start_server env true true true (some 7) conf 2 blocks)
start_server-IsCoherent_example = start_server-IsCoherent env true true true (some 7) conf 2 blocks

-- The end gives the CPU of the running task back.
ends : free_cpus (started (blocks ++ message 1 notify_unblocked ∷ []) >>= free_state) ≡ pos 2
unfolding program
ends = refl

free_state-Freed_example :
    Ensures
      (λ t.
        (t.workers ≡ [])
        × (t.dynamic_resources.cpu ≡ pos t.static_resources.cpu)
        × (t.dynamic_resources.gpu ≡ pos t.static_resources.gpu))
      (start_server env true true true (some 7) conf 2 blocks >>= free_state)
free_state-Freed_example = free_state-Freed env true true true (some 7) conf 2 blocks

abbrev base : LocalSchedulerState
base = new_state true true true (some 7) conf

abbrev pooled : LocalSchedulerState
pooled = record base { available_workers = 1 ∷ 2 ∷ []; executing_workers = 0 ∷ [] }

pooled-IsPooled : IsPooled pooled
unfolding program
pooled-IsPooled k = ground arith

handle_worker_removed-Removed_example :
    (t : LocalSchedulerState) × (handle_worker_removed 0 new_client pooled ≡ ok t)
    × Removed 0 pooled t
handle_worker_removed-Removed_example =
    handle_worker_removed-Removed 0 new_client pooled pooled-IsPooled refl

-- The first two tasks fit; the third finds no worker.
abbrev crowded : LocalSchedulerState
crowded = record base {
  workers = (0, new_client) ∷ (1, new_client) ∷ [];
  available_workers = 0 ∷ 1 ∷ [];
  dispatch_task_queue = first_task ∷ task_of 24 nil_id 0 [] ∷ task_of 25 nil_id 0 [] ∷ [];
}

dispatched_two : assigned (dispatch_tasks env crowded) ≡ (0, 24) ∷ (1, 21) ∷ []
unfolding program
dispatched_two = refl

abbrev acting : LocalSchedulerState
acting = record base {
  workers = (0, record new_client { actor_id = 40 }) ∷ [];
  actor_mapping = (40, record { driver_id = 1; local_scheduler_id = 7 }) ∷ [];
  local_actor_infos =
      (
        40,
        record {
          task_counter = 0;
          task_queue = task_of 31 40 0 [] ∷ task_of 33 40 2 [] ∷ [];
          worker = some 0;
          worker_available = true;
        },
      )
      ∷ [];
}

acted : assigned (dispatch_actor_task env 40 acting) ≡ (0, 31) ∷ []
unfolding program
acted = refl

dispatch_actor_task-InOrder_example :
    Ensures (InOrder 40 acting) (dispatch_actor_task env 40 acting)
dispatch_actor_task-InOrder_example = dispatch_actor_task-InOrder env 40 acting

abbrev between : TaskSpec
between = task_of 32 40 1 []

add_task_to_actor_queue-Queues_example :
    Ensures (Queues between acting) (add_task_to_actor_queue between true acting)
unfolding program
add_task_to_actor_queue-Queues_example =
    add_task_to_actor_queue-Queues between true acting ((omega arith, tt), (tt, tt))

abbrev forgetting : LocalSchedulerState
forgetting = record base {
  waiting_task_queue = (0, second_task) ∷ (1, record second_task { driver_id = 2 }) ∷ [];
  dispatch_task_queue = record first_task { driver_id = 2 } ∷ first_task ∷ [];
}

handle_driver_removed-Forgets_example :
    Ensures (Forgets 2 forgetting) (handle_driver_removed 2 forgetting)
handle_driver_removed-Forgets_example = handle_driver_removed-Forgets 2 forgetting

queue_task_locally-twice_example :
    (queue_task_locally (task_of 23 nil_id 0 (twice 5)) true base >>= handle_object_available env 5)
    ≡ fatal
unfolding program
queue_task_locally-twice_example =
    queue_task_locally-twice env 5 (task_of 23 nil_id 0 (twice 5)) true base refl refl refl refl
