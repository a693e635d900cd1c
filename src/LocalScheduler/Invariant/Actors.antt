-- ===== src/LocalScheduler/Invariant/Actors.antt =====
-- The invariant through the actors and the worker pools:
-- src/local_scheduler/local_scheduler_algorithm.cc.
use ray.Common.{
  ℕ, ◌≡◌, refl, subst, Bool, true, false, not, inl, inr, Option, none, some, List, [], ◌∷◌, ok,
  fatal, Ensures, Ensures->>=, Ensures-check, Ensures-any, Ensures-option, Ensures-if, Bool-cases,
  ◌==◌, ◌>>=◌, if◌then◌else◌, leb, ltb, arith,
}
use ray.Common.Maps.{lookup, has_key, lookup-insert, lookup-erase}
use ray.Tasks.{nil_id, TaskSpec}
use ray.LocalScheduler.State.{
  LocalActorInfo, Env, LocalSchedulerState, SpecPointer, get_db_client_id,
}
use ray.LocalScheduler.Workers.{assign_task_to_worker}
use ray.LocalScheduler.Queues.{check_global_scheduler}
use ray.LocalScheduler.Actors.{
  create_actor, remove_actor, get_actor, set_actor, dispatch_first, check_own_actor,
  dispatch_actor_task, handle_actor_worker_connect, add_task_to_actor_queue,
  give_task_to_local_scheduler, read_spec, handle_actor_task_submitted, resubmit_loop,
  handle_actor_creation_notification, handle_actor_task_scheduled,
}
use ray.LocalScheduler.Readiness.{IsSorted, insert_task-IsSorted}
use ray.LocalScheduler.Invariant.{
  IsCoherent, IsOrderly, Reduced, Kept, Ensures-found, IsQueued-of_same,
}
use ray.LocalScheduler.Invariant.Tasks.{assign_task_to_worker-Kept}

-- An actor's entry is replaced by one whose queue is in order.
pub set_actor-IsCoherent :
    (actor_id : ℕ) (entry : LocalActorInfo) (s : LocalSchedulerState)
    → IsSorted entry.task_queue
    → IsCoherent s
    → IsCoherent (set_actor actor_id entry s)
set_actor-IsCoherent actor_id entry s sorted h =
    let ((balanced, pooled, ordered), ready) = h in
    (
      (
        balanced,
        pooled,
        λ a e found.
            (let l = lookup-insert actor_id a entry s.local_actor_infos in
              elim (Bool-cases (actor_id == a)) [
                | inl hit ↦
                    let same : some entry ≡ some e = ground (arith, l, hit, found) in
                    let eq : entry ≡ e = cc in subst (λ x. IsSorted x.task_queue) eq sorted
                | inr miss ↦
                    let old : lookup a s.local_actor_infos ≡ some e =
                      ground (arith, l, miss, found) in
                    ordered a e old
              ]),
      ),
      ready,
    )

create_actor-IsCoherent :
    (actor_id : ℕ) (worker : Option ℕ) (s : LocalSchedulerState)
    → IsCoherent s
    → Ensures IsCoherent (create_actor actor_id worker s)
unfolding create_actor
create_actor-IsCoherent actor_id worker s h =
    Ensures-check (not (has_key actor_id s.local_actor_infos)) IsCoherent _
      λ _. set_actor-IsCoherent actor_id _ s tt h

pub remove_actor-Reduced :
    (actor_id : ℕ) (s : LocalSchedulerState)
    → IsOrderly s
    → Ensures (Reduced s) (remove_actor actor_id s)
unfolding remove_actor
remove_actor-Reduced actor_id s h =
    let (pooled, ordered, ready) = h in
    Ensures-check (has_key actor_id s.local_actor_infos) (Reduced s) _ λ _. (
      (
        pooled,
        (λ a e found.
            let l = lookup-erase actor_id a s.local_actor_infos in
            let old : lookup a s.local_actor_infos ≡ some e = ground (arith, l, found) in
            ordered a e old),
        ready,
      ),
      (refl, refl, refl),
    )

dispatch_first-IsCoherent :
    (env : Env) (actor_id : ℕ) (entry : LocalActorInfo) (spec : TaskSpec) (rest : List TaskSpec)
    (s : LocalSchedulerState)
    → IsSorted rest
    → IsCoherent s
    → Ensures IsCoherent (dispatch_first env actor_id entry spec rest s)
unfolding dispatch_first
dispatch_first-IsCoherent env actor_id entry spec rest s sorted h =
    let (sound, ready) = h in
    Ensures-if (spec.actor_counter == entry.task_counter) IsCoherent _ _
      (λ _.
        Ensures-if entry.worker_available IsCoherent _ _
          (λ _.
            Ensures-option entry.worker IsCoherent _ _ (λ _. tt)
              λ w _.
                Ensures->>= (Kept s) IsCoherent (assign_task_to_worker env spec w s) _
                  (assign_task_to_worker-Kept env spec w s sound)
                  λ t k.
                    (let (sound', same_objects, same_queue, _) = k in
                      set_actor-IsCoherent actor_id _ t sorted
                        (sound', IsQueued-of_same s t same_objects same_queue ready)))
          λ _. h)
      λ _. Ensures-check (ltb entry.task_counter spec.actor_counter) IsCoherent (ok s) λ _. h

dispatch_queue-IsCoherent :
    (env : Env) (actor_id : ℕ) (entry : LocalActorInfo) (queue : List TaskSpec)
    (s : LocalSchedulerState)
    → IsSorted queue
    → IsCoherent s
    → Ensures IsCoherent
        (elim queue [ [] ↦ ok s | spec ∷ rest ↦ dispatch_first env actor_id entry spec rest s ])
dispatch_queue-IsCoherent env actor_id entry [] s sorted h = h
dispatch_queue-IsCoherent env actor_id entry (spec ∷ rest) s sorted h =
    let (_, later) = sorted in dispatch_first-IsCoherent env actor_id entry spec rest s later h

pub dispatch_actor_task-IsCoherent :
    (env : Env) (actor_id : ℕ) (s : LocalSchedulerState)
    → IsCoherent s
    → Ensures IsCoherent (dispatch_actor_task env actor_id s)
unfolding dispatch_actor_task
dispatch_actor_task-IsCoherent env actor_id s h =
    let ((_, _, ordered), _) = h in
    Ensures-check (not (actor_id == nil_id)) IsCoherent _ λ _.
      Ensures->>= (λ _. Unit {0}) IsCoherent (check_own_actor actor_id s) _ (Ensures-any _)
        λ _ _.
          Ensures->>= (λ e. lookup actor_id s.local_actor_infos ≡ some e) IsCoherent
            (get_actor actor_id s) _ (Ensures-found (lookup actor_id s.local_actor_infos))
            λ e found.
              dispatch_queue-IsCoherent env actor_id e e.task_queue s (ordered actor_id e found) h

pub handle_actor_worker_connect-IsCoherent :
    (env : Env) (actor_id w : ℕ) (s : LocalSchedulerState)
    → IsCoherent s
    → Ensures IsCoherent (handle_actor_worker_connect env actor_id w s)
unfolding handle_actor_worker_connect
handle_actor_worker_connect-IsCoherent env actor_id w s h =
    let ((_, _, ordered), _) = h in
    Ensures->>= IsCoherent IsCoherent _ (dispatch_actor_task env actor_id)
      (Ensures-option (lookup actor_id s.local_actor_infos) IsCoherent
        (create_actor actor_id (some w) s)
        (λ entry. ok (set_actor actor_id (record entry { worker = some w }) s))
        (λ _. create_actor-IsCoherent actor_id (some w) s h)
        λ entry found. set_actor-IsCoherent actor_id _ s (ordered actor_id entry found) h)
      (dispatch_actor_task-IsCoherent env actor_id)

add_task_to_actor_queue-IsCoherent :
    (spec : TaskSpec) (from_global_scheduler : Bool) (s : LocalSchedulerState)
    → IsCoherent s
    → Ensures IsCoherent (add_task_to_actor_queue spec from_global_scheduler s)
unfolding add_task_to_actor_queue
add_task_to_actor_queue-IsCoherent spec from_global_scheduler s h =
    Ensures-check (not (spec.actor_id == nil_id)) IsCoherent _ λ _.
      Ensures->>= IsCoherent IsCoherent
        (if has_key spec.actor_id s.local_actor_infos
          then ok s
          else create_actor spec.actor_id none s)
        _
        (Ensures-if (has_key spec.actor_id s.local_actor_infos) IsCoherent (ok s)
          (create_actor spec.actor_id none s) (λ _. h)
          λ _. create_actor-IsCoherent spec.actor_id none s h)
        λ t k.
          Ensures->>= (λ e. lookup spec.actor_id t.local_actor_infos ≡ some e) IsCoherent
            (get_actor spec.actor_id t) _ (Ensures-found (lookup spec.actor_id t.local_actor_infos))
            λ e found. Ensures-check (leb e.task_counter spec.actor_counter) IsCoherent _ λ _.
              (let ((_, _, ordered), _) = k in
                set_actor-IsCoherent spec.actor_id _ t
                  (insert_task-IsSorted spec e.task_queue (ordered spec.actor_id e found)) k)

-- A task that goes to an actor of this scheduler.
queue_and_dispatch :
    (env : Env) (spec : TaskSpec) (from_global_scheduler : Bool) (s : LocalSchedulerState)
    → IsCoherent s
    → Ensures IsCoherent (
        add_task_to_actor_queue spec from_global_scheduler s
        >>= dispatch_actor_task env spec.actor_id)
queue_and_dispatch env spec from_global_scheduler s h =
    Ensures->>= IsCoherent IsCoherent (add_task_to_actor_queue spec from_global_scheduler s)
      (dispatch_actor_task env spec.actor_id)
      (add_task_to_actor_queue-IsCoherent spec from_global_scheduler s h)
      (dispatch_actor_task-IsCoherent env spec.actor_id)

give_task_to_local_scheduler-IsCoherent :
    (spec : TaskSpec) (local_scheduler_id : ℕ) (s : LocalSchedulerState)
    → IsCoherent s
    → Ensures IsCoherent (give_task_to_local_scheduler spec local_scheduler_id s)
unfolding give_task_to_local_scheduler
give_task_to_local_scheduler-IsCoherent spec local_scheduler_id s h =
    Ensures->>= (λ _. Unit {0}) IsCoherent (get_db_client_id s) _ (Ensures-any _)
      λ _ _.
        Ensures-check s.global_scheduler_exists IsCoherent _
          λ _. Ensures-option s.db IsCoherent fatal _ (λ _. tt) λ _ _. h

pub handle_actor_task_submitted-IsCoherent :
    (env : Env) (pointer : SpecPointer) (s : LocalSchedulerState)
    → IsCoherent s
    → Ensures IsCoherent (handle_actor_task_submitted env pointer s)
unfolding handle_actor_task_submitted
handle_actor_task_submitted-IsCoherent env pointer s h =
    Ensures->>= (λ _. Unit {0}) IsCoherent (read_spec pointer s) _ (Ensures-any _)
      λ spec _. Ensures-check (not (spec.actor_id == nil_id)) IsCoherent _ λ _.
        Ensures-option (lookup spec.actor_id s.actor_mapping) IsCoherent _ _ (λ _. h)
          λ mapped _.
            Ensures->>= (λ _. Unit {0}) IsCoherent (get_db_client_id s) _ (Ensures-any _)
              λ own _.
                Ensures-if (mapped.local_scheduler_id == own) IsCoherent _ _
                  (λ _. queue_and_dispatch env spec false s h)
                  λ _. give_task_to_local_scheduler-IsCoherent spec mapped.local_scheduler_id s h

resubmit_loop-IsCoherent :
    (env : Env) (pointers : List SpecPointer) (s : LocalSchedulerState)
    → IsCoherent s
    → Ensures IsCoherent (resubmit_loop env pointers s)
unfolding resubmit_loop
resubmit_loop-IsCoherent env [] s h = h
resubmit_loop-IsCoherent env (pointer ∷ pointers) s h =
    Ensures->>= IsCoherent IsCoherent (handle_actor_task_submitted env pointer s)
      (resubmit_loop env pointers) (handle_actor_task_submitted-IsCoherent env pointer s h)
      (resubmit_loop-IsCoherent env pointers)

pub handle_actor_creation_notification-IsCoherent :
    (env : Env) (s : LocalSchedulerState)
    → IsCoherent s
    → Ensures IsCoherent (handle_actor_creation_notification env s)
unfolding handle_actor_creation_notification
handle_actor_creation_notification-IsCoherent env s h =
    Ensures->>= IsCoherent IsCoherent (resubmit_loop env s.cached_submitted_actor_tasks s) _
      (resubmit_loop-IsCoherent env s.cached_submitted_actor_tasks s h) λ t k. k

pub handle_actor_task_scheduled-IsCoherent :
    (env : Env) (spec : TaskSpec) (s : LocalSchedulerState)
    → IsCoherent s
    → Ensures IsCoherent (handle_actor_task_scheduled env spec s)
unfolding handle_actor_task_scheduled
handle_actor_task_scheduled-IsCoherent env spec s h =
    Ensures->>= (λ _. Unit {0}) IsCoherent (check_global_scheduler s) _ (Ensures-any _)
      λ _ _. Ensures-check (not (spec.actor_id == nil_id)) IsCoherent _ λ _.
        Ensures->>= (λ _. Unit {0}) IsCoherent
          (if has_key spec.actor_id s.actor_mapping then check_own_actor spec.actor_id s else ok tt)
          _ (Ensures-any _) λ _ _. queue_and_dispatch env spec true s h
