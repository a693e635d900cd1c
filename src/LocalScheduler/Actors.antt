-- ===== src/LocalScheduler/Actors.antt =====
-- The actors and the worker pools: src/local_scheduler/local_scheduler_algorithm.cc.
use ray.Common.{
  ℕ, ◌+◌, Bool, true, false, not, Option, none, some, List, [], ◌∷◌, ◌++◌, Result, ok, fatal, ◌>>=◌,
  ◌>>◌, check, if◌then◌else◌, ◌==◌, ltb, leb, contains,
}
use ray.Common.Maps.{lookup, insert, erase, has_key}
use ray.Tasks.{nil_id, TaskSpec, scheduled}
use ray.LocalScheduler.State.{
  LocalSchedulerClient, LocalActorInfo, Env, LocalSchedulerState, SpecPointer, input_buffer, heap,
  task_table_add_task, emit_db, get_db_client_id, get_worker,
}
use ray.LocalScheduler.Workers.{remove_worker_from_vector, assign_task_to_worker}
use ray.LocalScheduler.Queues.{dispatch_tasks, write_queued, check_global_scheduler}

unfoldable pub create_actor :
    (actor_id : ℕ) → (worker : Option ℕ) → LocalSchedulerState → Result LocalSchedulerState
create_actor actor_id worker s = do
  check (not (has_key actor_id s.local_actor_infos))
  ok (record s {
    local_actor_infos =
        insert actor_id
          (record { task_counter = 0; task_queue = []; worker = worker; worker_available = false })
          s.local_actor_infos;
  })

unfoldable pub remove_actor : (actor_id : ℕ) → LocalSchedulerState → Result LocalSchedulerState
remove_actor actor_id s = do
  check (has_key actor_id s.local_actor_infos)
  ok (record s { local_actor_infos = erase actor_id s.local_actor_infos })

abbrev pub get_actor : (actor_id : ℕ) → LocalSchedulerState → Result LocalActorInfo
get_actor actor_id s = elim (lookup actor_id s.local_actor_infos) [
  | none ↦ fatal
  | some entry ↦ ok entry
]

abbrev pub set_actor : (actor_id : ℕ) → LocalActorInfo → LocalSchedulerState → LocalSchedulerState
set_actor actor_id entry s = record s {
  local_actor_infos = insert actor_id entry s.local_actor_infos;
}

-- The first task of the queue of an actor; `rest` are the others.
unfoldable pub dispatch_first :
    Env
    → (actor_id : ℕ) → LocalActorInfo
    → TaskSpec
    → (rest : List TaskSpec) → LocalSchedulerState
    → Result LocalSchedulerState
dispatch_first env actor_id entry spec rest s =
    if spec.actor_counter == entry.task_counter
    then (if entry.worker_available
        then elim entry.worker [
          | none ↦ fatal
          | some w ↦ do
            s' ← assign_task_to_worker env spec w s
            ok (
                set_actor actor_id
                  (record entry {
                    task_counter = entry.task_counter + 1;
                    worker_available = false;
                    task_queue = rest;
                  })
                  s')
        ]
        else ok s)
    else check (ltb entry.task_counter spec.actor_counter) >> ok s

-- The CHECKs before an actor's task is dispatched.
unfoldable pub check_own_actor : (actor_id : ℕ) → LocalSchedulerState → Result (Unit {0})
check_own_actor actor_id s = elim (lookup actor_id s.actor_mapping) [
  | none ↦ fatal
  | some mapped ↦ do own ← get_db_client_id s; check (mapped.local_scheduler_id == own)
]

unfoldable pub dispatch_actor_task :
    Env → (actor_id : ℕ) → LocalSchedulerState → Result LocalSchedulerState
dispatch_actor_task env actor_id s = do
  check (not (actor_id == nil_id))
  check_own_actor actor_id s
  entry ← get_actor actor_id s
  elim entry.task_queue [ [] ↦ ok s | spec ∷ rest ↦ dispatch_first env actor_id entry spec rest s ]

unfoldable pub handle_actor_worker_connect :
    Env → (actor_id w : ℕ) → LocalSchedulerState → Result LocalSchedulerState
handle_actor_worker_connect env actor_id w s = do
  s' ← elim (lookup actor_id s.local_actor_infos) [
    | none ↦ create_actor actor_id (some w) s
    | some entry ↦ ok (set_actor actor_id (record entry { worker = some w }) s)
  ]
  dispatch_actor_task env actor_id s'

-- The loop of add_task_to_actor_queue.
unfoldable pub insert_task : TaskSpec → List TaskSpec → List TaskSpec
insert_task spec [] = spec ∷ []
insert_task spec (t ∷ ts) =
    if ltb t.actor_counter spec.actor_counter then t ∷ insert_task spec ts else spec ∷ t ∷ ts

unfoldable pub add_task_to_actor_queue :
    TaskSpec → (from_global_scheduler : Bool) → LocalSchedulerState → Result LocalSchedulerState
add_task_to_actor_queue spec from_global_scheduler s = do
  check (not (spec.actor_id == nil_id))
  s' ← if has_key spec.actor_id s.local_actor_infos then ok s else create_actor spec.actor_id none s
  entry ← get_actor spec.actor_id s'
  check (leb entry.task_counter spec.actor_counter)
  ok (
      write_queued spec from_global_scheduler (
        set_actor spec.actor_id (record entry { task_queue = insert_task spec entry.task_queue })
          s'))

-- The database and its global scheduler are checked in the order of the code.
unfoldable pub give_task_to_local_scheduler :
    TaskSpec → (local_scheduler_id : ℕ) → LocalSchedulerState → Result LocalSchedulerState
give_task_to_local_scheduler spec local_scheduler_id s = do
  own ← get_db_client_id s
  check s.global_scheduler_exists
  emit_db
      (task_table_add_task
        (record { state = scheduled; local_scheduler_id = local_scheduler_id; spec = spec }))
      s

-- What a pointer to a specification reads: the input buffer may hold something else by now.
unfoldable pub read_spec : SpecPointer → LocalSchedulerState → Result TaskSpec
read_spec (heap spec) s = ok spec
read_spec input_buffer s = elim s.input_buffer [ none ↦ fatal | some spec ↦ ok spec ]

unfoldable pub handle_actor_task_submitted :
    Env → SpecPointer → LocalSchedulerState → Result LocalSchedulerState
handle_actor_task_submitted env pointer s = do
  spec ← read_spec pointer s
  check (not (spec.actor_id == nil_id))
  elim (lookup spec.actor_id s.actor_mapping) [
    | none ↦
        ok (record s {
          cached_submitted_actor_tasks = s.cached_submitted_actor_tasks ++ pointer ∷ [];
        })
    | some mapped ↦ do
      own ← get_db_client_id s
      if mapped.local_scheduler_id == own
          then (add_task_to_actor_queue spec false s >>= dispatch_actor_task env spec.actor_id)
          else give_task_to_local_scheduler spec mapped.local_scheduler_id s
  ]

unfoldable pub resubmit_loop :
    Env → List SpecPointer → LocalSchedulerState → Result LocalSchedulerState
resubmit_loop env [] s = ok s
resubmit_loop env (pointer ∷ pointers) s =
    handle_actor_task_submitted env pointer s >>= resubmit_loop env pointers

-- utarray_erase of as many items from the front as `erased` has.
unfoldable pub erase_front {ℓ} : {A : Type ℓ} → (erased : List A) → List A → List A
erase_front [] xs = xs
erase_front (e ∷ erased) [] = []
erase_front (e ∷ erased) (x ∷ xs) = erase_front erased xs

unfoldable pub handle_actor_creation_notification :
    Env → LocalSchedulerState → Result LocalSchedulerState
handle_actor_creation_notification env s = do
  s' ← resubmit_loop env s.cached_submitted_actor_tasks s
  ok (record s' {
    cached_submitted_actor_tasks =
        erase_front s.cached_submitted_actor_tasks s'.cached_submitted_actor_tasks;
  })

unfoldable pub handle_actor_task_scheduled :
    Env → TaskSpec → LocalSchedulerState → Result LocalSchedulerState
handle_actor_task_scheduled env spec s = do
  check_global_scheduler s
  check (not (spec.actor_id == nil_id))
  if has_key spec.actor_id s.actor_mapping then check_own_actor spec.actor_id s else ok tt
  add_task_to_actor_queue spec true s >>= dispatch_actor_task env spec.actor_id

unfoldable pub handle_worker_available :
    Env → (w : ℕ) → LocalSchedulerState → Result LocalSchedulerState
handle_worker_available env w s = do
  worker ← get_worker w s
  check (elim worker.task_in_progress [ none ↦ true | some task ↦ false ])
  check (not (contains w s.available_workers))
  check (not (contains w s.blocked_workers))
  check (not (contains w (remove_worker_from_vector w s.executing_workers)))
  dispatch_tasks env (record s {
    executing_workers = remove_worker_from_vector w s.executing_workers;
    available_workers = s.available_workers ++ w ∷ [];
  })

-- A Boolean as an int.
abbrev pub to_int : Bool → ℕ
to_int true = 1
to_int false = 0

unfoldable pub handle_worker_removed :
    (w : ℕ) → LocalSchedulerClient → LocalSchedulerState → Result LocalSchedulerState
handle_worker_removed w worker s =
    let available = remove_worker_from_vector w s.available_workers in
    let executing = remove_worker_from_vector w s.executing_workers in
    let blocked = remove_worker_from_vector w s.blocked_workers in
    check (worker.actor_id == nil_id)
    >> (check (not (contains w available))
        >> (check (not (contains w executing))
            >> (check (not (contains w blocked))
                >> (check (
                      leb
                        (to_int (contains w s.available_workers)
                          + to_int (contains w s.executing_workers)
                          + to_int (contains w s.blocked_workers))
                        1)
                    >> ok (record s {
                      available_workers = available;
                      executing_workers = executing;
                      blocked_workers = blocked;
                    })))))

unfoldable pub handle_actor_worker_available :
    Env → (w : ℕ) → LocalSchedulerState → Result LocalSchedulerState
handle_actor_worker_available env w s = do
  worker ← get_worker w s
  check (not (worker.actor_id == nil_id))
  entry ← get_actor worker.actor_id s
  check (elim entry.worker [ none ↦ false | some v ↦ w == v ])
  check (not entry.worker_available)
  dispatch_actor_task env worker.actor_id
      (set_actor worker.actor_id (record entry { worker_available = true }) s)

unfoldable pub handle_worker_blocked :
    Env → (w : ℕ) → LocalSchedulerState → Result LocalSchedulerState
handle_worker_blocked env w s = do
  check (contains w s.executing_workers)
  check (not (contains w s.blocked_workers))
  dispatch_tasks env (record s {
    executing_workers = remove_worker_from_vector w s.executing_workers;
    blocked_workers = s.blocked_workers ++ w ∷ [];
  })

unfoldable pub handle_worker_unblocked : (w : ℕ) → LocalSchedulerState → Result LocalSchedulerState
handle_worker_unblocked w s = do
  check (contains w s.blocked_workers)
  check (not (contains w s.executing_workers))
  ok (record s {
    blocked_workers = remove_worker_from_vector w s.blocked_workers;
    executing_workers = s.executing_workers ++ w ∷ [];
  })
