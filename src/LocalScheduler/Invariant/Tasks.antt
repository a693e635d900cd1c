-- ===== src/LocalScheduler/Invariant/Tasks.antt =====
-- The invariant through the assignment, dispatch and queueing of tasks that need no actor:
-- src/local_scheduler/local_scheduler_algorithm.cc.
use ray.Common.{
  ℕ, ◌≡◌, refl, sym, subst, ◌∙◌, inl, inr, some, List, [], ◌∷◌, All, length, ok, Ensures,
  Ensures->>=, Ensures-check, Ensures-any, Bool-cases, ◌==◌, if◌then◌else◌, List-cases,
  Ensures-mono,
}
use ray.Common.Maps.{lookup}
use ray.Tasks.{nil_id, TaskSpec}
use ray.LocalScheduler.State.{
  LocalSchedulerClient, DynamicResources, Env, LocalSchedulerState, get_worker, start_worker,
}
use ray.LocalScheduler.Workers.{
  back, acquire_resources, is_driver_alive, check_written, assign_task_to_worker,
}
use ray.LocalScheduler.Queues.{
  is_empty, resources_available, task_satisfied, dispatch_task, dispatch_loop,
}
use ray.LocalScheduler.Accounts.{Moves, acquire_resources-Moves, set_worker-IsBalanced}
use ray.LocalScheduler.Pools.{Pooled, Pooled-dispatch}
use ray.LocalScheduler.Readiness.{Ready}
use ray.LocalScheduler.Invariant.{SameObjects, IsSound, Kept, Ensures-found}

acquire_if_no_actor :
    (c : LocalSchedulerClient) (d : DynamicResources) (spec : TaskSpec)
    → Ensures (Moves c d) (
        if c.actor_id == nil_id
        then acquire_resources spec.required_resources.cpu spec.required_resources.gpu c d
        else ok (c, d))
acquire_if_no_actor c d spec = elim (Bool-cases (c.actor_id == nil_id)) [
  | inl nil ↦
      rw nil (acquire_resources-Moves spec.required_resources.cpu spec.required_resources.gpu c d)
  | inr actor ↦ rw actor (refl, refl, λ z. z)
]

pub assign_task_to_worker-Kept :
    (env : Env) (spec : TaskSpec) (w : ℕ) (s : LocalSchedulerState)
    → IsSound s
    → Ensures (Kept s) (assign_task_to_worker env spec w s)
unfolding assign_task_to_worker
assign_task_to_worker-Kept env spec w s h =
    Ensures->>= (λ c. lookup w s.workers ≡ some c) (Kept s) (get_worker w s) _
      (Ensures-found (lookup w s.workers))
      λ c found. Ensures-check (c.actor_id == spec.actor_id) (Kept s) _ λ _.
        Ensures-check (is_driver_alive spec.driver_id s) (Kept s) _ λ _.
          Ensures->>= (λ _. Unit {0}) (Kept s)
            (check_written (env.write_message (length s.effects) w)) _ (Ensures-any _)
            λ _ _.
              Ensures->>= (Moves c s.dynamic_resources) (Kept s)
                (if c.actor_id == nil_id
                  then acquire_resources spec.required_resources.cpu spec.required_resources.gpu c
                      s.dynamic_resources
                  else ok (c, s.dynamic_resources))
                _ (acquire_if_no_actor c s.dynamic_resources spec)
                λ p moved.
                  (let (balanced, pooled, ordered) = h in
                    (
                      (
                        set_worker-IsBalanced w s c p _ balanced found moved refl refl,
                        pooled,
                        ordered,
                      ),
                      (refl, refl, refl, refl),
                      refl,
                      refl,
                    ))

-- What a round of dispatch_tasks leaves alone.
abbrev pub Rounds : LocalSchedulerState → LocalSchedulerState → Type 0
Rounds s t = IsSound t × SameObjects s t

dispatch_task-Rounds :
    (env : Env) (spec : TaskSpec) (w : ℕ) (ws : List ℕ) (s : LocalSchedulerState)
    → s.available_workers ≡ w ∷ ws
    → IsSound s
    → Ensures (Rounds s) (dispatch_task env spec w ws s)
unfolding dispatch_task
dispatch_task-Rounds env spec w ws s available h =
    Ensures->>= (Kept s) (Rounds s) (assign_task_to_worker env spec (back w ws) s) _
      (assign_task_to_worker-Kept env spec (back w ws) s h)
      λ t k.
        (let ((balanced, pooled, ordered), same, _, same_available) = k in
          let pooled' : Pooled (w ∷ ws) t.executing_workers t.blocked_workers =
            subst (λ v. Pooled v t.executing_workers t.blocked_workers) (same_available ∙ available)
              pooled in
          (
            (balanced, Pooled-dispatch w ws t.executing_workers t.blocked_workers pooled', ordered),
            same,
          ))

-- The queue that is left, and the state.
abbrev pub Dispatched : LocalSchedulerState → List TaskSpec × LocalSchedulerState → Type 0
Dispatched s p = Rounds s p.1 × All (Ready s.local_objects) p.0

Dispatched-trans :
    (s t : LocalSchedulerState)
    → SameObjects s t
    → (p : List TaskSpec × LocalSchedulerState) → Dispatched t p
    → Dispatched s p
Dispatched-trans s t same p d =
    let ((sound, (l', r', w', n')), ready) = d in
    let (l, r, w, n) = same in
    ((sound, (l' ∙ l, r' ∙ r, w' ∙ w, n' ∙ n)), subst (λ o. All (Ready o) p.0) l ready)

start_worker-Dispatched :
    (env : Env) (specs : List TaskSpec) (s : LocalSchedulerState)
    → IsSound s
    → All (Ready s.local_objects) specs
    → Dispatched s (specs, start_worker env nil_id s)
unfolding start_worker
start_worker-Dispatched env specs s h ready = ((h, (refl, refl, refl, refl)), ready)

pub dispatch_loop-Dispatched :
    (env : Env) (specs : List TaskSpec) (s : LocalSchedulerState)
    → IsSound s
    → All (Ready s.local_objects) specs
    → Ensures (Dispatched s) (dispatch_loop env specs s)
unfolding dispatch_loop
dispatch_loop-Dispatched env [] s h ready = ((h, (refl, refl, refl, refl)), tt)
dispatch_loop-Dispatched env (spec ∷ specs) s h ready =
    let (now, later) = ready in
    elim (List-cases s.available_workers) [
      | inl idle ↦
          rw (idle, dispatch_loop)
            (elim (Bool-cases (is_empty s.child_pids)) [
              | inl empty ↦ rw empty (start_worker-Dispatched env (spec ∷ specs) s h ready)
              | inr pending ↦ rw pending ((h, (refl, refl, refl, refl)), ready)
            ])
      | inr (w, ws, available) ↦
          rw (available, dispatch_loop)
            (elim (Bool-cases (resources_available s.dynamic_resources)) [
              | inr out ↦ rw (out, dispatch_loop) ((h, (refl, refl, refl, refl)), ready)
              | inl left ↦
                  rw (left, dispatch_loop)
                    (elim (Bool-cases (task_satisfied spec s.dynamic_resources)) [
                      | inl fits ↦
                          rw (fits, dispatch_loop)
                            (Ensures->>= (Rounds s) (Dispatched s) (dispatch_task env spec w ws s) _
                              (dispatch_task-Rounds env spec w ws s available h)
                              λ t r.
                                (let (sound, same) = r in
                                  let (same_local, _, _, _) = same in
                                  Ensures-mono (Dispatched t) (Dispatched s)
                                    (dispatch_loop env specs t) (Dispatched-trans s t same)
                                    (dispatch_loop-Dispatched env specs t sound
                                      (subst (λ o. All (Ready o) specs) (sym same_local) later))))
                      | inr large ↦
                          rw (large, dispatch_loop)
                            (Ensures->>= (Dispatched s) (Dispatched s) (dispatch_loop env specs s) _
                              (dispatch_loop-Dispatched env specs s h later)
                              λ p d. (let (r, rest) = d in (r, (now, rest))))
                    ])
            ])
    ]
