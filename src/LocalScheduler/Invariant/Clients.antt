-- ===== src/LocalScheduler/Invariant/Clients.antt =====
-- The invariant when a worker is killed: src/local_scheduler/local_scheduler.cc.
use ray.Common.{
  ℕ, ◌≡◌, refl, subst, Bool, not, ◌||◌, some, ok, fatal, Ensures, Ensures->>=, Ensures-check,
  Ensures-option, Ensures-if, Ensures-both, Ensures-mono, ◌==◌, if◌then◌else◌,
}
use ray.Common.Maps.{lookup, erase_first, has_key}
use ray.Tasks.{nil_id}
use ray.LocalScheduler.State.{
  LocalSchedulerClient, DynamicResources, LocalSchedulerState, get_worker, set_worker,
}
use ray.LocalScheduler.Workers.{release_resources}
use ray.LocalScheduler.Actors.{remove_actor, handle_worker_removed}
use ray.LocalScheduler.Clients.{signal_worker, push_worker_died, kill_worker}
use ray.LocalScheduler.Accounts.{
  IsBalanced, Moves, UsesNothing, release_resources-Moves, release_resources-UsesNothing,
  erase_first-IsBalanced, set_worker-IsBalanced, cpus, gpus,
}
use ray.LocalScheduler.Invariant.{IsCoherent, Reduced, Ensures-found}
use ray.LocalScheduler.Invariant.Actors.{remove_actor-Reduced}
use ray.LocalScheduler.Invariant.Workers.{handle_worker_removed-Reduced}

push_worker_died-Reduced :
    (worker : LocalSchedulerClient) (cleanup suppress_warning : Bool) (s t : LocalSchedulerState)
    → Reduced s t
    → Ensures (Reduced s) (push_worker_died worker cleanup suppress_warning t)
push_worker_died-Reduced worker cleanup suppress_warning s t h =
    Ensures-option worker.task_in_progress (Reduced s) (ok t) _ (λ _. h)
      λ task _.
        Ensures-if (cleanup || suppress_warning) (Reduced s) (ok t) _ (λ _. h)
          λ _. Ensures-option t.db (Reduced s) fatal _ (λ _. tt) λ _ _. h

-- The accounts once a removed worker's resources are released.
released-IsBalanced :
    (w : ℕ) (worker : LocalSchedulerClient) (s t : LocalSchedulerState)
    (p : LocalSchedulerClient × DynamicResources)
    → IsBalanced s
    → lookup w s.workers ≡ some worker
    → t.workers ≡ erase_first w s.workers
    → t.dynamic_resources ≡ s.dynamic_resources
    → t.static_resources ≡ s.static_resources
    → Moves worker t.dynamic_resources p
    → UsesNothing p
    → IsBalanced (record t { dynamic_resources = p.1 })
released-IsBalanced w worker s t p h found same_workers same_dynamic same_static moved nothing =
    let moved' = subst (λ d. Moves worker d p) same_dynamic moved in
    let done = erase_first-IsBalanced w s worker p h found moved' nothing in
    rw (same_workers, same_static) done

-- What a killed worker leaves behind.
abbrev pub Killed : (w : ℕ) → LocalSchedulerState → LocalSchedulerState → Type 0
Killed w s t =
    IsCoherent t
    × (t.workers ≡ erase_first w s.workers)
    × (worker : LocalSchedulerClient) × (lookup w s.workers ≡ some worker)

pub kill_worker-Killed :
    (w : ℕ) (cleanup suppress_warning : Bool) (s : LocalSchedulerState)
    → IsCoherent s
    → Ensures (Killed w s) (kill_worker w cleanup suppress_warning s)
unfolding kill_worker
kill_worker-Killed w cleanup suppress_warning s h =
    let ((balanced, pooled, ordered), ready) = h in
    let s1 : LocalSchedulerState = record s { workers = erase_first w s.workers } in
    Ensures->>= (λ c. lookup w s.workers ≡ some c) (Killed w s) (get_worker w s) _
      (Ensures-found (lookup w s.workers))
      λ worker found. Ensures-check (not (has_key w s1.workers)) (Killed w s) _ λ _.
        Ensures->>= (Reduced s1) (Killed w s)
          (if worker.actor_id == nil_id
            then handle_worker_removed w worker s1
            else remove_actor worker.actor_id s1)
          _
          (Ensures-if (worker.actor_id == nil_id) (Reduced s1) (handle_worker_removed w worker s1)
            (remove_actor worker.actor_id s1)
            (λ _. handle_worker_removed-Reduced w worker s1 (pooled, ordered, ready))
            λ _. remove_actor-Reduced worker.actor_id s1 (pooled, ordered, ready))
          λ s2 r2.
            Ensures->>= (Reduced s1) (Killed w s)
              (push_worker_died worker cleanup suppress_warning (signal_worker w worker cleanup s2))
              _
              (push_worker_died-Reduced worker cleanup suppress_warning s1
                (signal_worker w worker cleanup s2) r2)
              λ s3 r3.
                Ensures->>= (λ p. Moves worker s3.dynamic_resources p × UsesNothing p) (Killed w s)
                  (release_resources worker.cpus_in_use worker.gpus_in_use worker
                    s3.dynamic_resources)
                  _
                  (Ensures-both (Moves worker s3.dynamic_resources) UsesNothing
                    (release_resources worker.cpus_in_use worker.gpus_in_use worker
                      s3.dynamic_resources)
                    (release_resources-Moves worker.cpus_in_use worker.gpus_in_use worker
                      s3.dynamic_resources)
                    (release_resources-UsesNothing worker s3.dynamic_resources))
                  λ p both.
                    (let ((pooled3, ordered3, ready3), (e1, e2, e3)) = r3 in
                      let (moved, nothing) = both in
                      (
                        (
                          (
                            released-IsBalanced w worker s s3 p balanced found e1 e2 e3 moved
                                nothing,
                            pooled3,
                            ordered3,
                          ),
                          ready3,
                        ),
                        e1,
                        worker,
                        found,
                      ))

pub kill_worker-IsCoherent :
    (w : ℕ) (cleanup suppress_warning : Bool) (s : LocalSchedulerState)
    → IsCoherent s
    → Ensures IsCoherent (kill_worker w cleanup suppress_warning s)
kill_worker-IsCoherent w cleanup suppress_warning s h =
    Ensures-mono (Killed w s) IsCoherent (kill_worker w cleanup suppress_warning s) (λ t k. k.0)
      (kill_worker-Killed w cleanup suppress_warning s h)

-- A client's struct that keeps its resources.
pub set_worker-IsCoherent :
    (w : ℕ) (old new : LocalSchedulerClient) (s : LocalSchedulerState)
    → lookup w s.workers ≡ some old
    → cpus new ≡ cpus old
    → gpus new ≡ gpus old
    → IsCoherent s
    → IsCoherent (set_worker w new s)
set_worker-IsCoherent w old new s found same_cpus same_gpus h =
    let ((balanced, pooled, ordered), ready) = h in
    (
      (
        set_worker-IsBalanced w s old (old, s.dynamic_resources) new balanced found
            (refl, refl, λ z. z) same_cpus same_gpus,
        pooled,
        ordered,
      ),
      ready,
    )
