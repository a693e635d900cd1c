-- ===== src/GlobalScheduler/Invariant.antt =====
-- Every callback of the global scheduler keeps the registry of local schedulers consistent.
use ray.Common.{
  count, ℕ, zero, suc, refl, ap, ◌∙◌, Bool, false, not, List, [], ◌∷◌, inl, inr, ◌==◌, length,
  get_elem?, Bool-cases, Option-cases, Ensures, Ensures->>=, Ensures-check,
}
use ray.Common.Maps.{lookup, has_key}
use ray.Tasks.{Task, nil_id}
use ray.GlobalScheduler.State.{
  GlobalSchedulerState, GlobalSchedulerState_init, LocalSchedulerInfo, get_local_scheduler,
}
use ray.GlobalScheduler.Algorithm.{
  assign_task_to_local_scheduler, charge, choose_loop, handle_task_waiting, int32_min,
}
use ray.GlobalScheduler.Server.{
  process_task_waiting, local_scheduler_table_handler, free_task, retry_pending, retry_loop,
  task_cleanup_handler, Event, task_waiting, db_client, object_notification, heartbeat,
  cleanup_timer, heartbeat_timer, handle, run, start_server, object_table_subscribe_callback,
}
use ray.GlobalScheduler.Registry.{
  IsRegistered, process_new_db_client-IsRegistered, get_local_scheduler-id, ids-set_local_scheduler,
}
use ray.GlobalScheduler.Timeouts.{heartbeat_timeout_handler-alive}

abbrev Registered : GlobalSchedulerState × Task × Bool → Type 0
Registered r = IsRegistered r.0

assign_task-IsRegistered :
    (task : Task) (id : ℕ) (s : GlobalSchedulerState)
    → IsRegistered s
    → Ensures (λ r. IsRegistered r.0) (assign_task_to_local_scheduler task id s)
unfolding assign_task_to_local_scheduler charge
assign_task-IsRegistered task id s registered =
    elim (Option-cases (get_local_scheduler id s.local_schedulers)) [
      | inl e ↦ rw (e, assign_task_to_local_scheduler) tt
      | inr (l, e) ↦
          rw (e, assign_task_to_local_scheduler)
            (λ k.
              ap (count k) (
                ids-set_local_scheduler id (charge task.spec l) s.local_schedulers
                  (get_local_scheduler-id id s.local_schedulers l e))
              ∙ registered k)
    ]

handle_task_waiting-IsRegistered :
    (task : Task) (s : GlobalSchedulerState)
    → IsRegistered s
    → Ensures Registered (handle_task_waiting task s)
unfolding handle_task_waiting
handle_task_waiting-IsRegistered task s registered =
    let c = choose_loop task.spec s.local_schedulers (record {
      task_feasible = false;
      best_local_scheduler_score = int32_min;
      best_local_scheduler_id = nil_id;
    }) in
    elim (Bool-cases c.task_feasible) [
      | inl e ↦ rw e (
          Ensures-check (not (c.best_local_scheduler_id == nil_id)) Registered _ λ _.
            Ensures->>= (λ (r : GlobalSchedulerState × Task). IsRegistered r.0) Registered
              (assign_task_to_local_scheduler task c.best_local_scheduler_id s) _
              (assign_task-IsRegistered task c.best_local_scheduler_id s registered) (λ r h. h))
      | inr e ↦ rw e registered
    ]

process_task_waiting-IsRegistered :
    (task : Task) (s : GlobalSchedulerState)
    → IsRegistered s
    → Ensures IsRegistered (process_task_waiting task s)
unfolding process_task_waiting
process_task_waiting-IsRegistered task s registered =
    Ensures->>= Registered IsRegistered (handle_task_waiting task s) _
      (handle_task_waiting-IsRegistered task s registered)
      (λ r h. elim (Bool-cases r.2) [ inl e ↦ rw e h | inr e ↦ rw e h ])

free_task-IsRegistered :
    (pointer : ℕ) (s : GlobalSchedulerState)
    → IsRegistered s
    → Ensures IsRegistered (free_task pointer s)
unfolding free_task
free_task-IsRegistered pointer s registered =
    Ensures-check (has_key pointer s.tasks) IsRegistered _ λ _. registered

retry_pending-IsRegistered :
    (i : ℕ) (s : GlobalSchedulerState) → IsRegistered s → Ensures IsRegistered (retry_pending i s)
unfolding retry_pending
retry_pending-IsRegistered i s registered = elim (Option-cases (get_elem? s.pending_tasks i)) [
  | inl e ↦ rw (e, retry_pending) tt
  | inr (pointer, e) ↦ elim (Option-cases (lookup pointer s.tasks)) [
    | inl f ↦ rw (e, retry_pending, f) tt
    | inr (task, f) ↦
        rw (e, retry_pending, f)
          (Ensures->>= Registered IsRegistered (handle_task_waiting task s) _
            (handle_task_waiting-IsRegistered task s registered)
            (λ r h. elim (Bool-cases r.2) [
              | inl g ↦ rw g (free_task-IsRegistered _ _ h)
              | inr g ↦ rw g h
            ]))
  ]
]

retry_loop-IsRegistered :
    (n : ℕ) (s : GlobalSchedulerState) → IsRegistered s → Ensures IsRegistered (retry_loop n s)
unfolding retry_loop
retry_loop-IsRegistered zero s registered = registered
retry_loop-IsRegistered (suc i) s registered =
    Ensures->>= IsRegistered IsRegistered (retry_pending i s) (retry_loop i)
      (retry_pending-IsRegistered i s registered) (λ t h. retry_loop-IsRegistered i t h)

heartbeat-IsRegistered :
    (id : ℕ) (info : LocalSchedulerInfo) (s : GlobalSchedulerState)
    → IsRegistered s
    → IsRegistered (local_scheduler_table_handler id info s)
unfolding local_scheduler_table_handler
heartbeat-IsRegistered id info s registered =
    elim (Option-cases (get_local_scheduler id s.local_schedulers)) [
      | inl e ↦ rw (e, local_scheduler_table_handler) registered
      | inr (l, e) ↦
          rw (e, local_scheduler_table_handler)
            (λ k.
              ap (count k) (
                ids-set_local_scheduler id
                  (record l { num_heartbeats_missed = 0; num_recent_tasks_sent = 0; info = info })
                  s.local_schedulers (get_local_scheduler-id id s.local_schedulers l e))
              ∙ registered k)
    ]

handle-IsRegistered :
    (e : Event) (s : GlobalSchedulerState) → IsRegistered s → Ensures IsRegistered (handle e s)
unfolding handle task_cleanup_handler object_table_subscribe_callback
handle-IsRegistered (task_waiting task) s r = process_task_waiting-IsRegistered task s r
handle-IsRegistered (db_client id client_type aux_address is_insertion) s r =
    let (t, ran, h) =
      process_new_db_client-IsRegistered id client_type aux_address is_insertion s r in
    rw ran h
handle-IsRegistered (object_notification id size locations) s r = r
handle-IsRegistered (heartbeat id info) s r = heartbeat-IsRegistered id info s r
handle-IsRegistered cleanup_timer s r = retry_loop-IsRegistered (length s.pending_tasks) s r
handle-IsRegistered heartbeat_timer s r =
    let (t, ran, h, _, _) = heartbeat_timeout_handler-alive s r in rw ran h

run-IsRegistered :
    (es : List Event) (s : GlobalSchedulerState) → IsRegistered s → Ensures IsRegistered (run es s)
unfolding run
run-IsRegistered [] s r = r
run-IsRegistered (e ∷ es) s r =
    Ensures->>= IsRegistered IsRegistered (handle e s) (run es) (handle-IsRegistered e s r)
      (λ t h. run-IsRegistered es t h)

-- Unless a callback has aborted it, a global scheduler that has handled any callbacks from its start
-- has as many local schedulers under each ID as entries in local_scheduler_plasma_map.
pub start_server-IsRegistered : (events : List Event) → Ensures IsRegistered (start_server events)
unfolding start_server GlobalSchedulerState_init
start_server-IsRegistered events = run-IsRegistered events GlobalSchedulerState_init λ k. refl
