-- ===== src/LocalScheduler/Invariant/Queueing.antt =====
-- The invariant through the queues of tasks that need no actor:
-- src/local_scheduler/local_scheduler_algorithm.cc.
use ray.Common.{
  refl, ◌++◌, ap, ◌∙◌, some, ℕ, ◌+◌, ◌≡◌, subst, sym, Bool, true, false, not, ◌&&◌, inl, inr, List,
  [], ◌∷◌, All, Ensures, Ensures->>=, Ensures-check, Ensures-any, Bool-cases, Ensures-option,
  Ensures-if, ltb, arith, if◌then◌else◌, ok,
}
use ray.Common.Maps.{has_key, lookup}
use ray.Tasks.{is_dependent_on, Arg, TaskSpec, by_reference, by_value}
use ray.LocalScheduler.State.{Env, LocalSchedulerState}
use ray.LocalScheduler.Queues.{
  write_queued, is_empty, can_run, fetch_missing_dependency, fetch_loop, fetch_missing_dependencies,
  dispatch_loop, dispatch_tasks, queue_waiting_task, queue_dispatch_task, queue_task_locally,
  give_task_to_global_scheduler, resource_constraints_satisfied, handle_task_submitted,
  check_global_scheduler, handle_task_scheduled,
}
use ray.LocalScheduler.Readiness.{Ready, IsReady, All-append}
use ray.LocalScheduler.Waiting.{IsWaiting, registered, lookup_snoc, snoc-IsUnique}
use ray.LocalScheduler.Loops.{Registers, fetch_loop-Registers}
use ray.LocalScheduler.Invariant.{IsSound, IsWaiting-of_same, IsCoherent}
use ray.LocalScheduler.Invariant.Tasks.{Dispatched, dispatch_loop-Dispatched}

pub dispatch_tasks-IsCoherent :
    (env : Env) (s : LocalSchedulerState) → IsCoherent s → Ensures IsCoherent (dispatch_tasks env s)
unfolding dispatch_tasks
dispatch_tasks-IsCoherent env s h =
    let (sound, (ready, waiting)) = h in
    Ensures->>= (Dispatched s) IsCoherent (dispatch_loop env s.dispatch_task_queue s) _
      (dispatch_loop-Dispatched env s.dispatch_task_queue s sound ready)
      λ p d.
        (let ((sound', same), rest) = d in
          let (local, _, _, _) = same in
          (
            sound',
            (subst (λ o. All (Ready o) p.0) (sym local) rest, IsWaiting-of_same s p.1 same waiting),
          ))

-- What fetching does not concern.
abbrev pub IsSettled : LocalSchedulerState → Type 0
IsSettled s = IsSound s × IsReady s

pub fetch_missing_dependency-IsSettled :
    (it object_id : ℕ) (s : LocalSchedulerState)
    → IsSettled s
    → IsSettled (fetch_missing_dependency it object_id s)
unfolding fetch_missing_dependency
fetch_missing_dependency-IsSettled it object_id s h = h

fetch_loop-IsSettled :
    (it : ℕ) (args : List Arg) (p : ℕ × LocalSchedulerState)
    → IsSettled p.1
    → IsSettled (fetch_loop it args p).1
unfolding fetch_loop
fetch_loop-IsSettled it [] p h = h
fetch_loop-IsSettled it (by_value ∷ args) p h = fetch_loop-IsSettled it args p h
fetch_loop-IsSettled it (by_reference object_id ∷ args) p h =
    elim (Bool-cases (has_key object_id p.1.local_objects)) [
      | inl here ↦ rw (here, fetch_loop) (fetch_loop-IsSettled it args p h)
      | inr missing ↦
          rw (missing, fetch_loop)
            (fetch_loop-IsSettled it args (p.0 + 1, fetch_missing_dependency it object_id p.1)
              (fetch_missing_dependency-IsSettled it object_id p.1 h))
    ]

-- The queue `tasks` with a new task, whose missing objects have been fetched in `t`.
queued-IsWaiting :
    (spec : TaskSpec) (s u t : LocalSchedulerState)
    → u.waiting_task_queue ≡ s.waiting_task_queue ++ (s.next_entry, spec) ∷ []
    → u.next_entry ≡ s.next_entry + 1
    → u.local_objects ≡ s.local_objects
    → u.remote_objects ≡ s.remote_objects
    → can_run s.local_objects spec.args ≡ false
    → Registers s.next_entry spec.args u t
    → IsWaiting s
    → IsWaiting t
queued-IsWaiting spec s u t queue next local remote later fetched h =
    let ((local', queue', next'), kept, new) = fetched in
    let (unique, stuck) = h in
    (
      rw (queue' ∙ queue, next' ∙ next)
          (snoc-IsUnique spec s.waiting_task_queue s.next_entry unique),
      λ it task found.
          (let found' : lookup it (s.waiting_task_queue ++ (s.next_entry, spec) ∷ []) ≡ some task =
              sym (ap (lookup it) (queue' ∙ queue)) ∙ found in
            elim (lookup_snoc it s.next_entry task spec s.waiting_task_queue found') [
              | inl old ↦
                  let (cannot, registers) = stuck it task old in
                  (
                    rw (local' ∙ local) cannot,
                    λ o dependent missing. kept it o (
                        ap (registered it o) remote
                        ∙ registers o dependent (sym (ap (has_key o) (local' ∙ local)) ∙ missing)),
                  )
              | inr (here, same) ↦ (
                subst (λ x. can_run t.local_objects x.args ≡ false) same
                    (rw (local' ∙ local) later),
                λ o dependent missing.
                    subst (λ x. registered x o t.remote_objects ≡ true) here
                      (new o (subst (λ x. is_dependent_on o x.args ≡ true) (sym same) dependent)
                        (sym (ap (has_key o) local') ∙ missing)),
              )
            ]),
    )

queue_waiting_task-IsCoherent :
    (spec : TaskSpec) (from_global_scheduler : Bool) (s : LocalSchedulerState)
    → can_run s.local_objects spec.args ≡ false
    → IsCoherent s
    → Ensures IsCoherent (queue_waiting_task spec from_global_scheduler s)
unfolding queue_waiting_task fetch_missing_dependencies
queue_waiting_task-IsCoherent spec from_global_scheduler s later h =
    let (sound, (ready, waiting)) = h in
    let u : LocalSchedulerState = write_queued spec from_global_scheduler (record s {
      waiting_task_queue = s.waiting_task_queue ++ (s.next_entry, spec) ∷ [];
      next_entry = s.next_entry + 1;
    }) in
    let p = fetch_loop s.next_entry spec.args (0, u) in
    Ensures-check (ltb 0 p.0) IsCoherent (ok p.1) λ _.
      (let (sound', ready') = fetch_loop-IsSettled s.next_entry spec.args (0, u) (sound, ready) in
        (
          sound',
          (
            ready',
            queued-IsWaiting spec s u p.1 refl refl refl refl later
                (fetch_loop-Registers s.next_entry spec.args (0, u)) waiting,
          ),
        ))

queue_dispatch_task-IsCoherent :
    (spec : TaskSpec) (from_global_scheduler : Bool) (s : LocalSchedulerState)
    → Ready s.local_objects spec
    → IsCoherent s
    → IsCoherent (queue_dispatch_task spec from_global_scheduler s)
unfolding queue_dispatch_task
queue_dispatch_task-IsCoherent spec from_global_scheduler s now h =
    let (sound, (ready, waiting)) = h in
    (
      sound,
      (
        All-append (Ready s.local_objects) s.dispatch_task_queue (spec ∷ []) ready (now, tt),
        waiting,
      ),
    )

queue_task_locally-IsCoherent :
    (spec : TaskSpec) (from_global_scheduler : Bool) (s : LocalSchedulerState)
    → IsCoherent s
    → Ensures IsCoherent (queue_task_locally spec from_global_scheduler s)
unfolding queue_task_locally
queue_task_locally-IsCoherent spec from_global_scheduler s h =
    elim (Bool-cases (can_run s.local_objects spec.args)) [
      | inl now ↦ rw now (queue_dispatch_task-IsCoherent spec from_global_scheduler s now h)
      | inr later ↦ rw later (queue_waiting_task-IsCoherent spec from_global_scheduler s later h)
    ]

give_task_to_global_scheduler-IsCoherent :
    (spec : TaskSpec) (s : LocalSchedulerState)
    → IsCoherent s
    → Ensures IsCoherent (give_task_to_global_scheduler spec s)
unfolding give_task_to_global_scheduler
give_task_to_global_scheduler-IsCoherent spec s h =
    let locally = queue_task_locally-IsCoherent spec false s h in
    Ensures-option s.db IsCoherent _ _ (λ _. locally)
      λ _ _. Ensures-if s.global_scheduler_exists IsCoherent _ _ (λ _. h) λ _. locally

and_last : (a b c : Bool) → (a && b && c) ≡ true → c ≡ true
and_last a b c h = ground arith

submitted :
    (env : Env) (spec : TaskSpec) (s : LocalSchedulerState)
    → IsCoherent s
    → Ensures IsCoherent (
        if resource_constraints_satisfied spec s
          && not (is_empty s.available_workers)
          && can_run s.local_objects spec.args
        then ok (queue_dispatch_task spec false s)
        else give_task_to_global_scheduler spec s)
submitted env spec s h =
    elim (Bool-cases (
      resource_constraints_satisfied spec s
      && not (is_empty s.available_workers)
      && can_run s.local_objects spec.args)) [
        | inl now ↦ rw now (
            queue_dispatch_task-IsCoherent spec false s
              (and_last (resource_constraints_satisfied spec s) (not (is_empty s.available_workers))
                (can_run s.local_objects spec.args) now)
              h)
        | inr later ↦ rw later (give_task_to_global_scheduler-IsCoherent spec s h)
      ]

pub handle_task_submitted-IsCoherent :
    (env : Env) (spec : TaskSpec) (s : LocalSchedulerState)
    → IsCoherent s
    → Ensures IsCoherent (handle_task_submitted env spec s)
unfolding handle_task_submitted
handle_task_submitted-IsCoherent env spec s h =
    Ensures->>= IsCoherent IsCoherent
      (if resource_constraints_satisfied spec s
          && not (is_empty s.available_workers)
          && can_run s.local_objects spec.args
        then ok (queue_dispatch_task spec false s)
        else give_task_to_global_scheduler spec s)
      _ (submitted env spec s h) (dispatch_tasks-IsCoherent env)

pub handle_task_scheduled-IsCoherent :
    (env : Env) (spec : TaskSpec) (s : LocalSchedulerState)
    → IsCoherent s
    → Ensures IsCoherent (handle_task_scheduled env spec s)
unfolding handle_task_scheduled
handle_task_scheduled-IsCoherent env spec s h =
    Ensures->>= (λ _. Unit {0}) IsCoherent (check_global_scheduler s) _ (Ensures-any _)
      λ _ _.
        Ensures->>= IsCoherent IsCoherent (queue_task_locally spec true s) _
          (queue_task_locally-IsCoherent spec true s h) (dispatch_tasks-IsCoherent env)
