-- ===== src/LocalScheduler/Invariant/Workers.antt =====
-- The invariant through the worker pools: src/local_scheduler/local_scheduler_algorithm.cc.
use ray.Common.{
  ℕ, ◌+◌, ◌≡◌, refl, Bool, true, false, not, none, some, Ensures, Ensures->>=, Ensures-check,
  Ensures-any, ◌==◌, leb, contains, arith,
}
use ray.Common.Maps.{lookup}
use ray.Tasks.{nil_id}
use ray.LocalScheduler.State.{LocalSchedulerClient, Env, LocalSchedulerState, get_worker}
use ray.LocalScheduler.Workers.{remove_worker_from_vector}
use ray.LocalScheduler.Actors.{
  get_actor, handle_worker_available, handle_worker_removed, handle_actor_worker_available,
  handle_worker_blocked, handle_worker_unblocked, to_int,
}
use ray.LocalScheduler.Pools.{Pooled-available, count_moved, count-remove_le}
use ray.LocalScheduler.Invariant.{IsCoherent, IsOrderly, Reduced, Ensures-found}
use ray.LocalScheduler.Invariant.Actors.{set_actor-IsCoherent, dispatch_actor_task-IsCoherent}
use ray.LocalScheduler.Invariant.Queueing.{dispatch_tasks-IsCoherent}

not-true : {b : Bool} → not b ≡ true → b ≡ false
not-true {b = true} h = cc
not-true {b = false} h = refl

pub handle_worker_available-IsCoherent :
    (env : Env) (w : ℕ) (s : LocalSchedulerState)
    → IsCoherent s
    → Ensures IsCoherent (handle_worker_available env w s)
unfolding handle_worker_available
handle_worker_available-IsCoherent env w s h =
    let ((balanced, pooled, ordered), ready) = h in
    let executing = remove_worker_from_vector w s.executing_workers in
    Ensures->>= (λ _. Unit {0}) IsCoherent (get_worker w s) _ (Ensures-any _)
      λ worker _.
        Ensures-check (elim worker.task_in_progress [ none ↦ true | some task ↦ false ]) IsCoherent
          _
          λ _. Ensures-check (not (contains w s.available_workers)) IsCoherent _ λ not_a.
            Ensures-check (not (contains w s.blocked_workers)) IsCoherent _ λ not_b.
              Ensures-check (not (contains w executing)) IsCoherent _ λ not_e.
                dispatch_tasks-IsCoherent env _ (
                  (
                    balanced,
                    Pooled-available w s.available_workers s.executing_workers s.blocked_workers
                        (not-true not_a) (not-true not_b) (not-true not_e) pooled,
                    ordered,
                  ),
                  ready,
                )

pub handle_worker_removed-Reduced :
    (w : ℕ) (worker : LocalSchedulerClient) (s : LocalSchedulerState)
    → IsOrderly s
    → Ensures (Reduced s) (handle_worker_removed w worker s)
unfolding handle_worker_removed
handle_worker_removed-Reduced w worker s h =
    let (pooled, ordered, ready) = h in
    let a = remove_worker_from_vector w s.available_workers in
    let e = remove_worker_from_vector w s.executing_workers in
    let b = remove_worker_from_vector w s.blocked_workers in
    Ensures-check (worker.actor_id == nil_id) (Reduced s) _ λ _.
      Ensures-check (not (contains w a)) (Reduced s) _ λ _.
        Ensures-check (not (contains w e)) (Reduced s) _ λ _.
          Ensures-check (not (contains w b)) (Reduced s) _ λ _.
            Ensures-check
              (leb
                (to_int (contains w s.available_workers)
                  + to_int (contains w s.executing_workers)
                  + to_int (contains w s.blocked_workers))
                1)
              (Reduced s) _
              λ _. (
                (
                  (λ k.
                      let x = count-remove_le k w s.available_workers in
                      let y = count-remove_le k w s.executing_workers in
                      let z = count-remove_le k w s.blocked_workers in
                      let p = pooled k in omega (arith, x, y, z, p)),
                  ordered,
                  ready,
                ),
                (refl, refl, refl),
              )

pub handle_worker_blocked-IsCoherent :
    (env : Env) (w : ℕ) (s : LocalSchedulerState)
    → IsCoherent s
    → Ensures IsCoherent (handle_worker_blocked env w s)
unfolding handle_worker_blocked
handle_worker_blocked-IsCoherent env w s h =
    let ((balanced, pooled, ordered), ready) = h in
    Ensures-check (contains w s.executing_workers) IsCoherent _ λ inside.
      Ensures-check (not (contains w s.blocked_workers)) IsCoherent _ λ _.
        dispatch_tasks-IsCoherent env _ (
          (
            balanced,
            λ k.
                (let m = count_moved w s.executing_workers s.blocked_workers k inside in
                  let p = pooled k in omega (arith, m, p)),
            ordered,
          ),
          ready,
        )

pub handle_worker_unblocked-IsCoherent :
    (w : ℕ) (s : LocalSchedulerState)
    → IsCoherent s
    → Ensures IsCoherent (handle_worker_unblocked w s)
unfolding handle_worker_unblocked
handle_worker_unblocked-IsCoherent w s h =
    let ((balanced, pooled, ordered), ready) = h in
    Ensures-check (contains w s.blocked_workers) IsCoherent _ λ inside.
      Ensures-check (not (contains w s.executing_workers)) IsCoherent _ λ _. (
        (
          balanced,
          λ k.
              (let m = count_moved w s.blocked_workers s.executing_workers k inside in
                let p = pooled k in omega (arith, m, p)),
          ordered,
        ),
        ready,
      )

pub handle_actor_worker_available-IsCoherent :
    (env : Env) (w : ℕ) (s : LocalSchedulerState)
    → IsCoherent s
    → Ensures IsCoherent (handle_actor_worker_available env w s)
unfolding handle_actor_worker_available
handle_actor_worker_available-IsCoherent env w s h =
    let ((_, _, ordered), _) = h in
    Ensures->>= (λ _. Unit {0}) IsCoherent (get_worker w s) _ (Ensures-any _)
      λ worker _. Ensures-check (not (worker.actor_id == nil_id)) IsCoherent _ λ _.
        Ensures->>= (λ e. lookup worker.actor_id s.local_actor_infos ≡ some e) IsCoherent
          (get_actor worker.actor_id s) _
          (Ensures-found (lookup worker.actor_id s.local_actor_infos))
          λ e found.
            Ensures-check (elim e.worker [ none ↦ false | some v ↦ w == v ]) IsCoherent _
              λ _. Ensures-check (not e.worker_available) IsCoherent _ λ _.
                dispatch_actor_task-IsCoherent env worker.actor_id _
                  (set_actor-IsCoherent worker.actor_id _ s (ordered worker.actor_id e found) h)
