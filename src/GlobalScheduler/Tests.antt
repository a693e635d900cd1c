-- ===== src/GlobalScheduler/Tests.antt =====
-- Runs of the global scheduler on concrete callbacks, and instances of the theorems.
use ray.Common.{
  ◌≢◌, inl, inr, ap, sym, ◌∙◌, Option-cases, Bool-cases, ℕ, ◌+◌, ◌≡◌, refl, true, false, none, some,
  List, [], ◌∷◌, Result, ok, fatal, Ensures, arith, if◌then◌else◌, contains, ◌⊎◌, get_elem?, ◌==◌,
}
use ray.Common.Maps.{lookup, insert, erase, has_key}
use ray.Common.Int.{◌-ℤ◌}
use ray.Tasks.{Task, Resources, by_reference, waiting, nil_id}
use ray.GlobalScheduler.State.{
  GlobalSchedulerState, GlobalSchedulerState_init, LocalSchedulerInfo, LocalScheduler,
  AuxAddressEntry, HashFind, get_local_scheduler, set_local_scheduler, task_table_update,
  db_client_table_remove,
}
use ray.GlobalScheduler.Algorithm.{
  subtract_resources, charge, assign_task_to_local_scheduler, constraints_satisfied_hard,
  round_robin_loop, after_round_robin, handle_task_round_robin, add_locations, size_loop,
  create_object_size_hashmap, calculate_cost_pending, choose_loop, handle_task_waiting,
}
use ray.GlobalScheduler.Algorithm.{get_local_scheduler_id}
use ray.GlobalScheduler.Server.{
  erase_elem, process_task_waiting, new_local_scheduler, add_local_scheduler, delete_entries,
  delete_entry, remove_local_scheduler, index_of, is_prefix, local_scheduler_type,
  process_new_db_client, object_table_subscribe_callback, local_scheduler_table_handler,
  read_after_erase, free_task, retry_pending, retry_loop, task_cleanup_handler, miss_heartbeat,
  check_heartbeat, heartbeat_loop, heartbeat_timeout_handler, Event, db_client, object_notification,
  heartbeat, cleanup_timer, handle, run, start_server,
}
use ray.GlobalScheduler.Choice.{NoneFeasible}
use ray.GlobalScheduler.Assignment.{
  IsRegistry, Assigns, handle_task_waiting-Assigns, ids, assigned_to,
}
use ray.GlobalScheduler.Registry.{IsRegistered, process_new_db_client-IsRegistered}
use ray.GlobalScheduler.Heartbeats.{survive}
use ray.GlobalScheduler.Timeouts.{heartbeat_timeout_handler-alive, heartbeat_timeout_handler_twice}
use ray.GlobalScheduler.Invariant.{start_server-IsRegistered}
use ray.GlobalScheduler.Pending.{
  Accepted, Resubmitted, process_task_waiting-Accepted, retry_pending_last,
  retry_pending_frees_next,
}
use ray.GlobalScheduler.Addresses.{
  Occurs, Unknown, LeadsTo, IsHashFind, get_local_scheduler_id_added,
  get_local_scheduler_id_removed,
}
use ray.GlobalScheduler.RoundRobin.{handle_task_round_robin_one}
use ray.GlobalScheduler.Sizes.{bytes_of, create_object_size_hashmap-data_at}

program : Unit {0}
unfolding contains lookup insert erase has_key ◌-ℤ◌ GlobalSchedulerState_init get_local_scheduler
    set_local_scheduler subtract_resources charge assign_task_to_local_scheduler
    constraints_satisfied_hard round_robin_loop after_round_robin handle_task_round_robin
    add_locations size_loop create_object_size_hashmap calculate_cost_pending choose_loop
    handle_task_waiting erase_elem process_task_waiting new_local_scheduler add_local_scheduler
    delete_entries delete_entry remove_local_scheduler index_of is_prefix process_new_db_client
    object_table_subscribe_callback local_scheduler_table_handler read_after_erase free_task
    retry_pending retry_loop task_cleanup_handler miss_heartbeat check_heartbeat heartbeat_loop
    heartbeat_timeout_handler handle run start_server get_local_scheduler_id
program = tt

abbrev cpus : ℕ → Resources
cpus n = record { cpu = n; gpu = 0 }

-- A heartbeat of a scheduler with some CPUs and queued tasks.
abbrev load : (cpu task_queue_length : ℕ) → LocalSchedulerInfo
load cpu task_queue_length = record {
  total_num_workers = cpu;
  task_queue_length = task_queue_length;
  available_workers = cpu;
  static_resources = cpus cpu;
  dynamic_resources = cpus cpu;
}

abbrev task_of : (task_id cpu : ℕ) → Task
task_of task_id cpu = record {
  state = waiting;
  local_scheduler_id = nil_id;
  spec = record {
    driver_id = 1;
    task_id = task_id;
    actor_id = nil_id;
    actor_counter = 0;
    args = by_reference 7 ∷ [];
    returns = [];
    required_resources = cpus cpu;
  };
}

abbrev small : Task
small = task_of 50 2

abbrev large : Task
large = task_of 51 64

-- Three schedulers join; the second has the shortest queue of those with CPUs. The fourth client of
-- the database is a manager.
abbrev events : List Event
events =
    db_client 1 local_scheduler_type 101 true
    ∷ db_client 2 local_scheduler_type 102 true
    ∷ db_client 3 local_scheduler_type 103 true
    ∷ db_client 4 [] 104 true
    ∷ heartbeat 1 (load 4 5)
    ∷ heartbeat 2 (load 8 1)
    ∷ object_notification 7 30 (101 ∷ 103 ∷ [])
    ∷ []

abbrev state_of : Result GlobalSchedulerState → GlobalSchedulerState
state_of (ok s) = s
state_of fatal = GlobalSchedulerState_init

abbrev joined : GlobalSchedulerState
joined = state_of (start_server events)

start_server-IsRegistered_example : Ensures IsRegistered (start_server events)
start_server-IsRegistered_example = start_server-IsRegistered events

joined-IsRegistered : IsRegistered joined
unfolding program
joined-IsRegistered = start_server-IsRegistered events

assigned_second :
    (state_of (process_task_waiting small joined)).db ≡ task_table_update (assigned_to 2 small) ∷ []
unfolding program
assigned_second = refl

small-IsRegistry : IsRegistry small.spec joined.local_schedulers
unfolding program
small-IsRegistry = record {
  distinct = (refl, (refl, (refl, tt)));
  named = refl;
  cheap = ((λ _. omega arith), ((λ _. omega arith), ((λ _. omega arith), tt)));
}

handle_task_waiting-Assigns_example : Assigns small joined (handle_task_waiting small joined)
handle_task_waiting-Assigns_example = handle_task_waiting-Assigns small joined small-IsRegistry

process_task_waiting-Accepted_example :
    (t : GlobalSchedulerState) × (process_task_waiting small joined ≡ ok t)
    × Accepted small joined t
process_task_waiting-Accepted_example = process_task_waiting-Accepted small joined small-IsRegistry

process_new_db_client-IsRegistered_example :
    (t : GlobalSchedulerState) × (process_new_db_client 2 local_scheduler_type 102 false joined
      ≡ ok t)
    × IsRegistered t
process_new_db_client-IsRegistered_example =
    process_new_db_client-IsRegistered 2 local_scheduler_type 102 false joined joined-IsRegistered

-- The first scheduler falls silent.
abbrev silent : LocalScheduler
silent = record (new_local_scheduler 1) { num_heartbeats_missed = 100 }

abbrev second : LocalScheduler
second = new_local_scheduler 2

abbrev fading : GlobalSchedulerState
fading = record joined { local_schedulers = silent ∷ second ∷ new_local_scheduler 3 ∷ [] }

fading-IsRegistered : IsRegistered fading
unfolding program
fading-IsRegistered = joined-IsRegistered

heartbeat_timeout_handler-alive_example :
    (t : GlobalSchedulerState) × (heartbeat_timeout_handler fading ≡ ok t)
    × IsRegistered t
    × (ids t.local_schedulers ≡ 2 ∷ 3 ∷ [])
    × (t.db ≡ db_client_table_remove 1 ∷ [])
unfolding program
heartbeat_timeout_handler-alive_example = heartbeat_timeout_handler-alive fading fading-IsRegistered

heartbeat_timeout_handler_twice_example :
    (t : GlobalSchedulerState) × (heartbeat_timeout_handler fading ≡ ok t)
    × (t.local_schedulers
        ≡ record second { num_heartbeats_missed = 0 + 1 + 1 }
          ∷ survive 1 (new_local_scheduler 3 ∷ []))
unfolding program
heartbeat_timeout_handler_twice_example =
    heartbeat_timeout_handler_twice fading silent second (new_local_scheduler 3 ∷ [])
      fading-IsRegistered refl refl refl

-- Two tasks came before any scheduler did.
abbrev crowded : GlobalSchedulerState
crowded = record joined {
  pending_tasks = 0 ∷ 1 ∷ [];
  tasks = (0, small) ∷ (1, large) ∷ [];
  next_task = 2;
}

large-IsRegistry : IsRegistry large.spec joined.local_schedulers
unfolding program
large-IsRegistry = record {
  distinct = (refl, (refl, (refl, tt)));
  named = refl;
  cheap = ((λ _. omega arith), ((λ _. omega arith), ((λ _. omega arith), tt)));
}

retry_pending_last_example :
    (NoneFeasible large.spec joined.local_schedulers × (retry_pending 1 crowded ≡ ok crowded))
    ⊎ ((t : GlobalSchedulerState) × (retry_pending 1 crowded ≡ ok t)
        × Resubmitted 1 1 large crowded t)
unfolding program
retry_pending_last_example = retry_pending_last 1 crowded 1 large refl refl large-IsRegistry refl

small_feasible : ¬ (NoneFeasible small.spec joined.local_schedulers)
unfolding program
small_feasible h = absurd (cc (h.0))

retry_pending_frees_next_example :
    (t : GlobalSchedulerState) × (task' : Task) × (retry_pending 0 crowded ≡ ok t)
    × (get_elem? t.pending_tasks 0 ≡ some 1)
    × (lookup 1 t.tasks ≡ none)
    × (lookup 0 t.tasks ≡ some task')
unfolding program
retry_pending_frees_next_example =
    retry_pending_frees_next 0 crowded 0 small refl refl small-IsRegistry 1 refl refl
      (λ e. omega arith) small_feasible

-- Two rounds of the timer of the cleanup then abort on the freed task.
freed_task : run (cleanup_timer ∷ cleanup_timer ∷ []) crowded ≡ fatal
unfolding program
freed_task = refl

abbrev first : LocalScheduler
first = record (new_local_scheduler 1) { info = load 4 5 }

abbrev others : List LocalScheduler
others = record (new_local_scheduler 2) { info = load 8 1 } ∷ new_local_scheduler 3 ∷ []

handle_task_round_robin_one_example :
    handle_task_round_robin 2 small joined
    ≡ some (
        ok (record joined {
          round_robin_index = 1;
          local_schedulers = charge small.spec first ∷ others;
          db = task_table_update (assigned_to 1 small) ∷ [];
        }))
unfolding program
handle_task_round_robin_one_example =
    handle_task_round_robin_one 0 small joined [] first others refl refl small-IsRegistry.distinct

-- No scheduler but the first is tried.
large_not_assigned : handle_task_round_robin 2 large joined ≡ some (ok joined)
unfolding program
large_not_assigned = refl

create_object_size_hashmap-data_at_example :
    (bytes_of (lookup 103 (create_object_size_hashmap joined small.spec).0) ≡ 30)
    × ((create_object_size_hashmap joined small.spec).2 ≡ 30)
unfolding program
create_object_size_hashmap-data_at_example =
    create_object_size_hashmap-data_at joined small.spec 103

-- A lookup that finds the oldest entry of an address.
abbrev find_oldest : HashFind
find_oldest address [] = none
find_oldest address (e ∷ es) = elim (find_oldest address es) [
  | none ↦ if e.aux_address == address then some e else none
  | some f ↦ some f
]

find_oldest-finds :
    (address : ℕ) (es : List AuxAddressEntry) (e : AuxAddressEntry)
    → find_oldest address es ≡ some e
    → Occurs e es × (e.aux_address ≡ address)
find_oldest-finds address [] e h = cc
find_oldest-finds address (f ∷ es) e h = elim (Option-cases (find_oldest address es)) [
  | inl none_left ↦ elim (Bool-cases (f.aux_address == address)) [
    | inl hit ↦
        let same : some f ≡ some e = rw (none_left, hit) at h in
        let first : f ≡ e = cc in
        (inl (sym first), ap (λ g. g.aux_address) (sym first) ∙ ground (arith, hit))
    | inr miss ↦ let absent : none ≡ some e = rw (none_left, miss) at h in absurd cc
  ]
  | inr (g, older) ↦
      let same : some g ≡ some e = rw older at h in
      let (occurs, at_address) = find_oldest-finds address es e (older ∙ same) in
      (inr occurs, at_address)
]

find_oldest-misses :
    (address : ℕ) (es : List AuxAddressEntry) → find_oldest address es ≡ none → Unknown address es
find_oldest-misses address [] h = tt
find_oldest-misses address (f ∷ es) h = elim (Option-cases (find_oldest address es)) [
  | inl none_left ↦ elim (Bool-cases (f.aux_address == address)) [
    | inl hit ↦ let found : some f ≡ none = rw (none_left, hit) at h in absurd cc
    | inr miss ↦ ((λ same. ground (arith, miss, same)), find_oldest-misses address es none_left)
  ]
  | inr (g, older) ↦ let found : some g ≡ none = rw older at h in absurd cc
]

find_oldest-IsHashFind : IsHashFind find_oldest
find_oldest-IsHashFind = record { finds = find_oldest-finds; misses = find_oldest-misses }

get_local_scheduler_id_added_example :
    (get_local_scheduler_id find_oldest (some 109) (add_local_scheduler 9 109 joined) ≡ 9)
    × LeadsTo joined.plasma_local_scheduler_map 102
        (get_local_scheduler_id find_oldest (some 102) (add_local_scheduler 9 109 joined))
unfolding program
get_local_scheduler_id_added_example =
    get_local_scheduler_id_added find_oldest 9 109 102 joined find_oldest-IsHashFind
      ((λ e. omega arith), ((λ e. omega arith), ((λ e. omega arith), tt))) (λ e. omega arith)

-- An address that is registered again may still lead to the scheduler of before.
oldest_found : get_local_scheduler_id find_oldest (some 102) (add_local_scheduler 9 102 joined) ≡ 2
unfolding program
oldest_found = refl

get_local_scheduler_id_removed_example :
    get_local_scheduler_id find_oldest (some 101) (state_of (remove_local_scheduler 0 joined)) ≢ 1
unfolding program
get_local_scheduler_id_removed_example =
    get_local_scheduler_id_removed find_oldest 0 101 joined
      (state_of (remove_local_scheduler 0 joined)) first find_oldest-IsHashFind refl
      (λ e. omega arith) refl
