-- ===== src/LocalScheduler/Invariant/Registration.antt =====
-- The invariant through the clients that register and leave, and through a removed driver:
-- src/local_scheduler/local_scheduler.cc.
use ray.Common.{
  ℕ, ◌≡◌, refl, Bool, true, false, not, ◌||◌, some, List, [], ◌∷◌, ok, fatal, Ensures, Ensures->>=,
  Ensures-check, Ensures-any, Ensures-option, Ensures-if, ◌==◌, ◌>>=◌, if◌then◌else◌, length,
  contains,
}
use ray.Common.Maps.{lookup}
use ray.Tasks.{nil_id}
use ray.LocalScheduler.State.{
  LocalSchedulerClient, Env, LocalSchedulerState, WriteOutcome, written, hung_up, reset, failed,
  get_worker, set_worker, emit, emit_db, register_client_reply, driver_table_send_driver_death,
}
use ray.LocalScheduler.Workers.{is_driver_alive}
use ray.LocalScheduler.Actors.{check_own_actor}
use ray.LocalScheduler.Clients.{
  kill_hung_up, kill_worker, is_allocated, send_client_register_reply, register_actor,
  register_child, kill_orphan, handle_client_register, kill_if_driver, kill_loop,
  handle_driver_removed_callback, handle_client_disconnect,
}
use ray.LocalScheduler.Invariant.{IsCoherent, Ensures-found}
use ray.LocalScheduler.Invariant.Objects.{handle_driver_removed-IsCoherent}
use ray.LocalScheduler.Invariant.Actors.{handle_actor_worker_connect-IsCoherent}
use ray.LocalScheduler.Invariant.Clients.{kill_worker-IsCoherent, set_worker-IsCoherent}

kill_hung_up-IsCoherent :
    (w : ℕ) (s : LocalSchedulerState) → IsCoherent s → Ensures IsCoherent (kill_hung_up w s)
kill_hung_up-IsCoherent w s h =
    Ensures->>= IsCoherent IsCoherent (kill_worker w false false s) _
      (kill_worker-IsCoherent w false false s h)
      λ s' h'. Ensures-check (is_allocated w s') IsCoherent _ λ _. h'

reply_by_outcome :
    (outcome : WriteOutcome) (w : ℕ) (s : LocalSchedulerState)
    → IsCoherent s
    → Ensures IsCoherent (elim outcome [
      | written ↦ ok (emit (register_client_reply w) s)
      | hung_up ↦ kill_hung_up w s
      | reset ↦ kill_hung_up w s
      | failed ↦ fatal
    ])
reply_by_outcome written w s h = h
reply_by_outcome hung_up w s h = kill_hung_up-IsCoherent w s h
reply_by_outcome reset w s h = kill_hung_up-IsCoherent w s h
reply_by_outcome failed w s h = tt

pub send_client_register_reply-IsCoherent :
    (env : Env) (w : ℕ) (s : LocalSchedulerState)
    → IsCoherent s
    → Ensures IsCoherent (send_client_register_reply env w s)
unfolding send_client_register_reply
send_client_register_reply-IsCoherent env w s h =
    Ensures-check (is_allocated w s) IsCoherent _
      λ _. reply_by_outcome (env.write_message (length s.effects) w) w s h

register_actor-IsCoherent :
    (env : Env) (w actor_id : ℕ) (s : LocalSchedulerState)
    → IsCoherent s
    → Ensures IsCoherent (register_actor env w actor_id s)
unfolding register_actor
register_actor-IsCoherent env w actor_id s h =
    Ensures-if (actor_id == nil_id) IsCoherent _ _ (λ _. h)
      λ _.
        Ensures->>= (λ _. Unit {0}) IsCoherent (check_own_actor actor_id s) _ (Ensures-any _)
          λ _ _.
            Ensures->>= (λ c. lookup w s.workers ≡ some c) IsCoherent (get_worker w s) _
              (Ensures-found (lookup w s.workers))
              λ worker found. Ensures-check (worker.actor_id == nil_id) IsCoherent _ λ _.
                handle_actor_worker_connect-IsCoherent env actor_id w _ (
                  set_worker-IsCoherent w worker (record worker { actor_id = actor_id }) s found
                    refl refl h)

register_child-IsCoherent :
    (w worker_pid : ℕ) (s : LocalSchedulerState)
    → IsCoherent s
    → Ensures IsCoherent (register_child w worker_pid s)
unfolding register_child
register_child-IsCoherent w worker_pid s h =
    Ensures-if (contains worker_pid s.child_pids) IsCoherent _ _
      (λ _.
        Ensures->>= (λ c. lookup w s.workers ≡ some c) IsCoherent (get_worker w s) _
          (Ensures-found (lookup w s.workers))
          λ worker found.
            set_worker-IsCoherent w worker (record worker { is_child = true }) s found refl refl h)
      λ _. h

kill_orphan-IsCoherent :
    (w actor_id : ℕ) (s : LocalSchedulerState)
    → IsCoherent s
    → Ensures IsCoherent (kill_orphan w actor_id s)
unfolding kill_orphan
kill_orphan-IsCoherent w actor_id s h =
    Ensures-if (actor_id == nil_id) IsCoherent _ _ (λ _. h)
      λ _.
        Ensures-option (lookup actor_id s.actor_mapping) IsCoherent fatal _ (λ _. tt)
          λ mapped _.
            Ensures-if (is_driver_alive mapped.driver_id s) IsCoherent _ _ (λ _. h)
              λ _. kill_worker-IsCoherent w false false s h

pub handle_client_register-IsCoherent :
    (env : Env) (w : ℕ) (is_worker : Bool) (client_id worker_pid actor_id : ℕ)
    (s : LocalSchedulerState)
    → IsCoherent s
    → Ensures IsCoherent (handle_client_register env w is_worker client_id worker_pid actor_id s)
unfolding handle_client_register
handle_client_register-IsCoherent env w is_worker client_id worker_pid actor_id s h =
    Ensures->>= (λ c. lookup w s.workers ≡ some c) IsCoherent (get_worker w s) _
      (Ensures-found (lookup w s.workers))
      λ worker found.
        (let new : LocalSchedulerClient = record worker {
          registered = true;
          is_worker = is_worker;
          client_id = client_id;
          pid = if is_worker then worker_pid else worker.pid;
        } in
          let h' = set_worker-IsCoherent w worker new s found refl refl h in
          Ensures-check (not worker.registered) IsCoherent _ λ _.
            Ensures-check (worker.client_id == nil_id) IsCoherent _ λ _.
              Ensures-if is_worker IsCoherent
                (register_actor env w actor_id (set_worker w new s)
                  >>= register_child w worker_pid
                  >>= kill_orphan w actor_id)
                (ok (set_worker w new s))
                (λ _.
                  Ensures->>= IsCoherent IsCoherent
                    (register_actor env w actor_id (set_worker w new s)
                      >>= register_child w worker_pid)
                    (kill_orphan w actor_id)
                    (Ensures->>= IsCoherent IsCoherent
                      (register_actor env w actor_id (set_worker w new s))
                      (register_child w worker_pid)
                      (register_actor-IsCoherent env w actor_id (set_worker w new s) h')
                      (register_child-IsCoherent w worker_pid))
                    (kill_orphan-IsCoherent w actor_id))
                λ _. h')

kill_if_driver-IsCoherent :
    (driver_id w : ℕ) (s : LocalSchedulerState)
    → IsCoherent s
    → Ensures IsCoherent (kill_if_driver driver_id w s)
unfolding kill_if_driver
kill_if_driver-IsCoherent driver_id w s h =
    let killed = kill_worker-IsCoherent w false true s h in
    Ensures->>= (λ _. Unit {0}) IsCoherent (get_worker w s) _ (Ensures-any _)
      λ worker _.
        Ensures-if (not (worker.actor_id == nil_id)) IsCoherent _ _
          (λ _.
            Ensures-option (lookup worker.actor_id s.actor_mapping) IsCoherent fatal _ (λ _. tt)
              λ mapped _.
                Ensures-if (mapped.driver_id == driver_id) IsCoherent _ _ (λ _. killed) λ _. h)
          λ _.
            Ensures-option worker.task_in_progress IsCoherent (ok s) _ (λ _. h)
              λ task _.
                Ensures-if (task.spec.driver_id == driver_id) IsCoherent _ _ (λ _. killed) λ _. h

kill_loop-IsCoherent :
    (driver_id : ℕ) (workers : List (ℕ × LocalSchedulerClient)) (s : LocalSchedulerState)
    → IsCoherent s
    → Ensures IsCoherent (kill_loop driver_id workers s)
unfolding kill_loop
kill_loop-IsCoherent driver_id [] s h = h
kill_loop-IsCoherent driver_id ((w, worker) ∷ workers) s h =
    Ensures->>= IsCoherent IsCoherent (kill_if_driver driver_id w s) (kill_loop driver_id workers)
      (kill_if_driver-IsCoherent driver_id w s h) (kill_loop-IsCoherent driver_id workers)

pub handle_driver_removed_callback-IsCoherent :
    (driver_id : ℕ) (s : LocalSchedulerState)
    → IsCoherent s
    → Ensures IsCoherent (handle_driver_removed_callback driver_id s)
unfolding handle_driver_removed_callback
handle_driver_removed_callback-IsCoherent driver_id s h =
    Ensures->>= IsCoherent IsCoherent (kill_loop driver_id s.workers s) _
      (kill_loop-IsCoherent driver_id s.workers s h)
      λ t k.
        handle_driver_removed-IsCoherent driver_id
          (record t { removed_drivers = driver_id ∷ t.removed_drivers }) k

pub handle_client_disconnect-IsCoherent :
    (w : ℕ) (s : LocalSchedulerState)
    → IsCoherent s
    → Ensures IsCoherent (handle_client_disconnect w s)
unfolding handle_client_disconnect
handle_client_disconnect-IsCoherent w s h =
    Ensures->>= (λ _. Unit {0}) IsCoherent (get_worker w s) _ (Ensures-any _)
      λ worker _.
        Ensures->>= IsCoherent IsCoherent
          (if not worker.registered || worker.is_worker
            then ok s
            else emit_db (driver_table_send_driver_death worker.client_id) s)
          _
          (Ensures-if (not worker.registered || worker.is_worker) IsCoherent (ok s) _ (λ _. h)
            λ _. Ensures-option s.db IsCoherent fatal _ (λ _. tt) λ _ _. h)
          (kill_worker-IsCoherent w false false)
