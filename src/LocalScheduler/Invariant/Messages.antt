-- ===== src/LocalScheduler/Invariant/Messages.antt =====
-- The invariant through the messages of the clients (process_message of
-- src/local_scheduler/local_scheduler.cc).
use ray.Common.{
  ℕ, ◌≡◌, refl, true, false, not, ◌&&◌, none, some, List, [], ◌∷◌, ok, fatal, Ensures, Ensures->>=,
  Ensures-check, Ensures-any, Ensures-option, Ensures-if, check, ◌>>◌, ◌==◌, if◌then◌else◌,
}
use ray.Common.Maps.{lookup, has_key}
use ray.Tasks.{nil_id, TaskSpec}
use ray.LocalScheduler.State.{
  LocalSchedulerClient, DynamicResources, Env, LocalSchedulerState, Effect, input_buffer,
  get_worker, set_worker, emit_db,
}
use ray.LocalScheduler.Workers.{acquire_resources, release_resources}
use ray.LocalScheduler.Queues.{handle_task_submitted}
use ray.LocalScheduler.Actors.{
  handle_worker_available, handle_actor_worker_available, handle_actor_task_submitted,
}
use ray.LocalScheduler.Clients.{
  handle_client_register, send_client_register_reply, reconstruct_object,
}
use ray.LocalScheduler.Server.{
  Message, submit_task, task_done, event_log, get_task, notify_unblocked, disconnect, unknown,
  register_client, reconstruct, put_object, read_buffer, add_results, process_submit_task,
  finish_task, process_get_task, block_worker, unblock_worker, switch, process_message,
}
use ray.LocalScheduler.Accounts.{
  Moves, acquire_resources-Moves, release_resources-Moves, set_worker-IsBalanced, cpus, gpus,
}
use ray.LocalScheduler.Invariant.{IsCoherent, Ensures-found}
use ray.LocalScheduler.Invariant.Queueing.{handle_task_submitted-IsCoherent}
use ray.LocalScheduler.Invariant.Actors.{handle_actor_task_submitted-IsCoherent}
use ray.LocalScheduler.Invariant.Workers.{
  handle_worker_available-IsCoherent, handle_worker_blocked-IsCoherent,
  handle_worker_unblocked-IsCoherent, handle_actor_worker_available-IsCoherent,
}
use ray.LocalScheduler.Invariant.Registration.{
  send_client_register_reply-IsCoherent, handle_client_register-IsCoherent,
  handle_client_disconnect-IsCoherent,
}

-- A client that has taken or returned resources.
moved-IsCoherent :
    (w : ℕ) (c : LocalSchedulerClient) (p : LocalSchedulerClient × DynamicResources)
    (c' : LocalSchedulerClient) (s : LocalSchedulerState)
    → lookup w s.workers ≡ some c
    → Moves c s.dynamic_resources p
    → cpus c' ≡ cpus p.0
    → gpus c' ≡ gpus p.0
    → IsCoherent s
    → IsCoherent (record (set_worker w c' s) { dynamic_resources = p.1 })
moved-IsCoherent w c p c' s found moved same_cpus same_gpus h =
    let ((balanced, pooled, ordered), ready) = h in
    (
      (set_worker-IsBalanced w s c p c' balanced found moved same_cpus same_gpus, pooled, ordered),
      ready,
    )

add_results-IsCoherent :
    (task_id : ℕ) (returns : List ℕ) (s : LocalSchedulerState)
    → IsCoherent s
    → IsCoherent (add_results task_id returns s)
unfolding add_results
add_results-IsCoherent task_id [] s h = h
add_results-IsCoherent task_id (return_id ∷ returns) s h =
    add_results-IsCoherent task_id returns _ h

process_submit_task-IsCoherent :
    (env : Env) (spec : TaskSpec) (s : LocalSchedulerState)
    → IsCoherent s
    → Ensures IsCoherent (process_submit_task env spec s)
unfolding process_submit_task
process_submit_task-IsCoherent env spec s h =
    let s' = add_results spec.task_id spec.returns s in
    let h' = add_results-IsCoherent spec.task_id spec.returns s h in
    Ensures-if (spec.actor_id == nil_id) IsCoherent (handle_task_submitted env spec s')
      (handle_actor_task_submitted env input_buffer s')
      (λ _. handle_task_submitted-IsCoherent env spec s' h')
      λ _. handle_actor_task_submitted-IsCoherent env input_buffer s' h'

-- The resources of a finished task.
finished :
    (c : LocalSchedulerClient) (d : DynamicResources) (spec : TaskSpec)
    → Ensures (Moves c d) (
        if c.actor_id == nil_id
        then (check (c.cpus_in_use == spec.required_resources.cpu)
            >> (check (c.gpus_in_use == spec.required_resources.gpu)
                >> release_resources c.cpus_in_use c.gpus_in_use c d))
        else ok (c, d))
finished c d spec =
    Ensures-if (c.actor_id == nil_id) (Moves c d) _ _
      (λ _. Ensures-check (c.cpus_in_use == spec.required_resources.cpu) (Moves c d) _ λ _.
        Ensures-check (c.gpus_in_use == spec.required_resources.gpu) (Moves c d) _
          λ _. release_resources-Moves c.cpus_in_use c.gpus_in_use c d)
      λ _. (refl, refl, λ z. z)

finish_task-IsCoherent :
    (w : ℕ) (s : LocalSchedulerState) → IsCoherent s → Ensures IsCoherent (finish_task w s)
unfolding finish_task
finish_task-IsCoherent w s h =
    Ensures->>= (λ c. lookup w s.workers ≡ some c) IsCoherent (get_worker w s) _
      (Ensures-found (lookup w s.workers))
      λ c found.
        Ensures-option c.task_in_progress IsCoherent (ok s) _ (λ _. h)
          λ task _.
            Ensures->>= (Moves c s.dynamic_resources) IsCoherent _ _
              (finished c s.dynamic_resources task.spec)
              λ p moved.
                moved-IsCoherent w c p (record p.0 { task_in_progress = none }) s found moved refl
                  refl h

process_get_task-IsCoherent :
    (env : Env) (w : ℕ) (s : LocalSchedulerState)
    → IsCoherent s
    → Ensures IsCoherent (process_get_task env w s)
unfolding process_get_task
process_get_task-IsCoherent env w s h =
    Ensures->>= IsCoherent IsCoherent (finish_task w s) _ (finish_task-IsCoherent w s h) λ t k.
      Ensures->>= (λ _. Unit {0}) IsCoherent (get_worker w t) _ (Ensures-any _)
        λ worker _.
          Ensures-if (worker.actor_id == nil_id) IsCoherent (handle_worker_available env w t)
            (handle_actor_worker_available env w t)
            (λ _. handle_worker_available-IsCoherent env w t k)
            λ _. handle_actor_worker_available-IsCoherent env w t k

block_worker-IsCoherent :
    (env : Env) (w : ℕ) (s : LocalSchedulerState)
    → IsCoherent s
    → Ensures IsCoherent (block_worker env w s)
unfolding block_worker
block_worker-IsCoherent env w s h =
    Ensures->>= (λ c. lookup w s.workers ≡ some c) IsCoherent (get_worker w s) _
      (Ensures-found (lookup w s.workers))
      λ c found.
        Ensures-option c.task_in_progress IsCoherent (ok s) _ (λ _. h)
          λ task _.
            Ensures-if (not c.is_blocked && (c.actor_id == nil_id)) IsCoherent _ (ok s)
              (λ _.
                Ensures->>= (Moves c s.dynamic_resources) IsCoherent
                  (release_resources c.cpus_in_use 0 (record c { is_blocked = true })
                    s.dynamic_resources)
                  _
                  (release_resources-Moves c.cpus_in_use 0 (record c { is_blocked = true })
                    s.dynamic_resources)
                  λ p moved.
                    handle_worker_blocked-IsCoherent env w
                      (record (set_worker w p.0 s) { dynamic_resources = p.1 })
                      (moved-IsCoherent w c p p.0 s found moved refl refl h))
              λ _. h

unblock_worker-IsCoherent :
    (w : ℕ) (s : LocalSchedulerState) → IsCoherent s → Ensures IsCoherent (unblock_worker w s)
unfolding unblock_worker
unblock_worker-IsCoherent w s h =
    Ensures->>= (λ c. lookup w s.workers ≡ some c) IsCoherent (get_worker w s) _
      (Ensures-found (lookup w s.workers))
      λ c found.
        Ensures-option c.task_in_progress IsCoherent (ok s) _ (λ _. h)
          λ task _.
            Ensures-if (c.actor_id == nil_id) IsCoherent _ (ok s)
              (λ _. Ensures-check c.is_blocked IsCoherent _ λ _.
                Ensures->>= (Moves c s.dynamic_resources) IsCoherent
                  (acquire_resources task.spec.required_resources.cpu 0
                    (record c { is_blocked = false }) s.dynamic_resources)
                  _
                  (acquire_resources-Moves task.spec.required_resources.cpu 0
                    (record c { is_blocked = false }) s.dynamic_resources)
                  λ p moved.
                    handle_worker_unblocked-IsCoherent w
                      (record (set_worker w p.0 s) { dynamic_resources = p.1 })
                      (moved-IsCoherent w c p p.0 s found moved refl refl h))
              λ _. h

pub emit_db-IsCoherent :
    (e : Effect) (s : LocalSchedulerState) → IsCoherent s → Ensures IsCoherent (emit_db e s)
emit_db-IsCoherent e s h = Ensures-option s.db IsCoherent fatal _ (λ _. tt) λ _ _. h

pub reconstruct_object-IsCoherent :
    (object_id : ℕ) (s : LocalSchedulerState)
    → IsCoherent s
    → Ensures IsCoherent (reconstruct_object object_id s)
unfolding reconstruct_object
reconstruct_object-IsCoherent object_id s h = emit_db-IsCoherent _ s h

switch-IsCoherent :
    (env : Env) (w : ℕ) (m : Message) (s : LocalSchedulerState)
    → IsCoherent s
    → Ensures IsCoherent (switch env w m s)
unfolding switch
switch-IsCoherent env w (submit_task spec) s h = process_submit_task-IsCoherent env spec s h
switch-IsCoherent env w task_done s h = h
switch-IsCoherent env w event_log s h = h
switch-IsCoherent env w get_task s h = process_get_task-IsCoherent env w s h
switch-IsCoherent env w notify_unblocked s h = unblock_worker-IsCoherent w s h
switch-IsCoherent env w disconnect s h = handle_client_disconnect-IsCoherent w s h
switch-IsCoherent env w unknown s h = tt
switch-IsCoherent env w (register_client is_worker client_id worker_pid actor_id) s h =
    Ensures->>= IsCoherent IsCoherent
      (handle_client_register env w is_worker client_id worker_pid actor_id s)
      (send_client_register_reply env w)
      (handle_client_register-IsCoherent env w is_worker client_id worker_pid actor_id s h)
      (send_client_register_reply-IsCoherent env w)
switch-IsCoherent env w (reconstruct object_id) s h =
    Ensures->>= IsCoherent IsCoherent (block_worker env w s) (reconstruct_object object_id)
      (block_worker-IsCoherent env w s h) (reconstruct_object-IsCoherent object_id)
switch-IsCoherent env w (put_object object_id task_id) s h = emit_db-IsCoherent _ s h

read_buffer-IsCoherent :
    (m : Message) (s : LocalSchedulerState) → IsCoherent s → IsCoherent (read_buffer m s)
read_buffer-IsCoherent (submit_task spec) s h = h
read_buffer-IsCoherent task_done s h = h
read_buffer-IsCoherent event_log s h = h
read_buffer-IsCoherent get_task s h = h
read_buffer-IsCoherent notify_unblocked s h = h
read_buffer-IsCoherent disconnect s h = h
read_buffer-IsCoherent unknown s h = h
read_buffer-IsCoherent (register_client is_worker client_id worker_pid actor_id) s h = h
read_buffer-IsCoherent (reconstruct object_id) s h = h
read_buffer-IsCoherent (put_object object_id task_id) s h = h

pub process_message-IsCoherent :
    (env : Env) (w : ℕ) (m : Message) (s : LocalSchedulerState)
    → IsCoherent s
    → Ensures IsCoherent (process_message env w m s)
unfolding process_message
process_message-IsCoherent env w m s h =
    Ensures-if (has_key w s.workers) IsCoherent _ (ok s)
      (λ _. switch-IsCoherent env w m (read_buffer m s) (read_buffer-IsCoherent m s h)) λ _. h
