-- ===== src/LocalScheduler/ActorOrder.antt =====
-- The order in which an actor's tasks run: add_task_to_actor_queue and dispatch_actor_task of
-- src/local_scheduler/local_scheduler_algorithm.cc.
use ray.Common.{
  ℕ, ◌+◌, ◌≤◌, ◌<◌, ◌≡◌, refl, sym, ap, subst, ◌∙◌, Bool, true, false, not, ◌⊎◌, inl, inr, Option,
  none, some, List, [], ◌∷◌, ok, fatal, Ensures, Ensures->>=, Ensures-check, Ensures-any,
  Ensures-option, Ensures-if, Ensures-mono, Bool-cases, ◌==◌, ==_refl, if◌then◌else◌, leb, ltb,
  arith, count, one,
}
use ray.Common.Maps.{lookup, has_key, lookup-insert, lookup-has_key}
use ray.Tasks.{nil_id, TaskSpec}
use ray.LocalScheduler.State.{LocalActorInfo, Env, LocalSchedulerState}
use ray.LocalScheduler.Workers.{assign_task_to_worker}
use ray.LocalScheduler.Actors.{
  create_actor, get_actor, set_actor, dispatch_first, check_own_actor, dispatch_actor_task,
  insert_task, add_task_to_actor_queue,
}
use ray.LocalScheduler.Readiness.{IsSorted, insert_task-IsSorted}
use ray.LocalScheduler.Dispatch.{executions, ids, Assigns, assign_task_to_worker-Assigns}
use ray.LocalScheduler.Invariant.{Ensures-found}

-- The actor cannot be given a task yet.
abbrev pub Waits : LocalActorInfo → List TaskSpec → Type 0
Waits entry [] = Unit
Waits entry (spec ∷ rest) =
    (entry.task_counter < spec.actor_counter) ⊎ (entry.worker_available ≡ false)

-- The first task of the queue, whose counter is the number of tasks so far, goes to the worker.
abbrev pub RunsNext :
    (actor_id : ℕ) → LocalActorInfo → LocalSchedulerState → LocalSchedulerState → Type 0
RunsNext actor_id entry s t =
    (spec : TaskSpec) × (rest : List TaskSpec) × (w : ℕ) × (entry.task_queue ≡ spec ∷ rest)
    × (spec.actor_counter ≡ entry.task_counter)
    × (entry.worker ≡ some w)
    × (executions t.effects ≡ (w, spec) ∷ executions s.effects)
    × (lookup actor_id t.local_actor_infos
        ≡ some (record entry {
          task_counter = entry.task_counter + 1;
          worker_available = false;
          task_queue = rest;
        }))

abbrev Steps : (actor_id : ℕ) → LocalActorInfo → LocalSchedulerState → LocalSchedulerState → Type 0
Steps actor_id entry s t = ((t ≡ s) × Waits entry entry.task_queue) ⊎ RunsNext actor_id entry s t

abbrev pub InOrder : (actor_id : ℕ) → LocalSchedulerState → LocalSchedulerState → Type 0
InOrder actor_id s t =
    (entry : LocalActorInfo) × (lookup actor_id s.local_actor_infos ≡ some entry)
    × Steps actor_id entry s t

lookup-set_actor :
    (actor_id : ℕ) (entry : LocalActorInfo) (s : LocalSchedulerState)
    → lookup actor_id (set_actor actor_id entry s).local_actor_infos ≡ some entry
lookup-set_actor actor_id entry s =
    let l = lookup-insert actor_id actor_id entry s.local_actor_infos in
    let r = ==_refl actor_id in ground (arith, l, r)

dispatch_first-Steps :
    (env : Env) (actor_id : ℕ) (entry : LocalActorInfo) (spec : TaskSpec) (rest : List TaskSpec)
    (s : LocalSchedulerState)
    → entry.task_queue ≡ spec ∷ rest
    → Ensures
        (λ t. ((t ≡ s) × Waits entry (spec ∷ rest)) ⊎ RunsNext actor_id entry s t)
        (dispatch_first env actor_id entry spec rest s)
unfolding dispatch_first
dispatch_first-Steps env actor_id entry spec rest s queue =
    let Q : LocalSchedulerState → Type 0 =
      λ t. ((t ≡ s) × Waits entry (spec ∷ rest)) ⊎ RunsNext actor_id entry s t in
    Ensures-if (spec.actor_counter == entry.task_counter) Q _ _
      (λ next.
        Ensures-if entry.worker_available Q _ _
          (λ _.
            Ensures-option entry.worker Q fatal _ (λ _. tt)
              λ w worker.
                Ensures->>= (Assigns w spec s) Q (assign_task_to_worker env spec w s) _
                  (assign_task_to_worker-Assigns env spec w s)
                  λ t a.
                    (let (ran, _, _, _) = a in
                      let same : spec.actor_counter ≡ entry.task_counter = ground (arith, next) in
                      inr (spec, rest, w, queue, same, worker, ran, lookup-set_actor actor_id _ t)))
          λ busy. inl (refl, inr busy))
      λ other.
        Ensures-check (ltb entry.task_counter spec.actor_counter) Q (ok s)
          λ later. inl (refl, inl (ground (arith, later)))

dispatch_queue-Steps :
    (env : Env) (actor_id : ℕ) (entry : LocalActorInfo) (queue : List TaskSpec)
    (s : LocalSchedulerState)
    → entry.task_queue ≡ queue
    → Ensures
        (λ t. ((t ≡ s) × Waits entry queue) ⊎ RunsNext actor_id entry s t)
        (elim queue [ [] ↦ ok s | spec ∷ rest ↦ dispatch_first env actor_id entry spec rest s ])
dispatch_queue-Steps env actor_id entry [] s e = inl (refl, tt)
dispatch_queue-Steps env actor_id entry (spec ∷ rest) s e =
    dispatch_first-Steps env actor_id entry spec rest s e

-- If dispatch_actor_task does not abort, then either it changes nothing, because the actor's queue
-- is empty, a task is missing before the first of the queue, or the worker is busy; or it gives the
-- first task of the queue to the actor's worker, the counter of that task is the number of tasks
-- that the actor has been given so far, that number grows by one, and the worker is busy.
pub dispatch_actor_task-InOrder :
    (env : Env) (actor_id : ℕ) (s : LocalSchedulerState)
    → Ensures (InOrder actor_id s) (dispatch_actor_task env actor_id s)
unfolding dispatch_actor_task
dispatch_actor_task-InOrder env actor_id s =
    Ensures-check (not (actor_id == nil_id)) (InOrder actor_id s) _ λ _.
      Ensures->>= (λ _. Unit {0}) (InOrder actor_id s) (check_own_actor actor_id s) _
        (Ensures-any _)
        λ _ _.
          Ensures->>= (λ e. lookup actor_id s.local_actor_infos ≡ some e) (InOrder actor_id s)
            (get_actor actor_id s) _ (Ensures-found (lookup actor_id s.local_actor_infos))
            λ e found.
              Ensures-mono (Steps actor_id e s) (InOrder actor_id s) _ (λ t step. (e, found, step))
                (dispatch_queue-Steps env actor_id e e.task_queue s refl)

count-insert_task :
    (k : ℕ) (spec : TaskSpec) (ts : List TaskSpec)
    → count k (ids (insert_task spec ts)) ≡ one (spec.task_id == k) + count k (ids ts)
unfolding insert_task
count-insert_task k spec [] = refl
count-insert_task k spec (t ∷ ts) =
    let e = count-insert_task k spec ts in
    elim (Bool-cases (ltb t.actor_counter spec.actor_counter)) [
      | inl before ↦ rw before (omega (arith, e))
      | inr after ↦ rw after refl
    ]

-- The queue and the counter of an actor, before it has an entry too.

abbrev pub queue_in : Option LocalActorInfo → List TaskSpec
queue_in none = []
queue_in (some entry) = entry.task_queue

abbrev pub counter_in : Option LocalActorInfo → ℕ
counter_in none = 0
counter_in (some entry) = entry.task_counter

abbrev pub queue_of : (actor_id : ℕ) → LocalSchedulerState → List TaskSpec
queue_of actor_id s = queue_in (lookup actor_id s.local_actor_infos)

abbrev pub counter_of : (actor_id : ℕ) → LocalSchedulerState → ℕ
counter_of actor_id s = counter_in (lookup actor_id s.local_actor_infos)

-- One task more in the queue, and the queue in order.
abbrev pub Queues : TaskSpec → LocalSchedulerState → LocalSchedulerState → Type 0
Queues spec s t =
    (counter_of spec.actor_id s ≤ spec.actor_counter)
    × (counter_of spec.actor_id t ≡ counter_of spec.actor_id s)
    × IsSorted (queue_of spec.actor_id t)
    × ((k : ℕ)
        → count k (ids (queue_of spec.actor_id t))
          ≡ one (spec.task_id == k) + count k (ids (queue_of spec.actor_id s)))

-- What create_actor is for: an entry that reads like the old state.
abbrev HasActor : (actor_id : ℕ) → LocalSchedulerState → LocalSchedulerState → Type 0
HasActor actor_id s t =
    (queue_of actor_id t ≡ queue_of actor_id s) × (counter_of actor_id t ≡ counter_of actor_id s)

actor_created :
    (actor_id : ℕ) (s : LocalSchedulerState)
    → Ensures
        (HasActor actor_id s)
        (if has_key actor_id s.local_actor_infos then ok s else create_actor actor_id none s)
unfolding create_actor
actor_created actor_id s =
    Ensures-if (has_key actor_id s.local_actor_infos) (HasActor actor_id s) (ok s)
      (create_actor actor_id none s) (λ _. (refl, refl))
      λ missing.
        Ensures-check (not (has_key actor_id s.local_actor_infos)) (HasActor actor_id s) _ λ _.
          (let before = lookup-has_key actor_id s.local_actor_infos missing in
            let after =
              lookup-set_actor actor_id
                (record {
                  task_counter = 0;
                  task_queue = [];
                  worker = none;
                  worker_available = false;
                })
                s in
            (
              ap queue_in after ∙ sym (ap queue_in before),
              ap counter_in after ∙ sym (ap counter_in before),
            ))

queued_lem :
    (spec : TaskSpec) (s t : LocalSchedulerState) (e : LocalActorInfo)
    → HasActor spec.actor_id s t
    → lookup spec.actor_id t.local_actor_infos ≡ some e
    → leb e.task_counter spec.actor_counter ≡ true
    → IsSorted (queue_of spec.actor_id s)
    → Queues spec s
        (set_actor spec.actor_id (record e { task_queue = insert_task spec e.task_queue }) t)
queued_lem spec s t e has found enough h =
    let (same_queue, same_counter) = has in
    let new : LocalActorInfo = record e { task_queue = insert_task spec e.task_queue } in
    let after = lookup-set_actor spec.actor_id new t in
    let old_queue : e.task_queue ≡ queue_of spec.actor_id s =
      sym (ap queue_in found) ∙ same_queue in
    let old_counter : e.task_counter ≡ counter_of spec.actor_id s =
      sym (ap counter_in found) ∙ same_counter in
    let sorted : IsSorted e.task_queue = subst IsSorted (sym old_queue) h in
    let le : e.task_counter ≤ spec.actor_counter = ground (arith, enough) in
    (
      subst (λ n. n ≤ spec.actor_counter) old_counter le,
      ap counter_in after ∙ old_counter,
      subst IsSorted (sym (ap queue_in after)) (insert_task-IsSorted spec e.task_queue sorted),
      λ k.
          ap (λ q. count k (ids (queue_in q))) after
          ∙ count-insert_task k spec e.task_queue
          ∙ ap (λ q. one (spec.task_id == k) + count k (ids q)) old_queue,
    )

-- If the actor's queue is in the order of the counters and add_task_to_actor_queue does not abort,
-- the counter of the new task is at least the number of tasks that the actor has been given, this
-- number stays, and the actor's queue holds its old tasks and the new one, in the order of their
-- counters, whether or not the actor had an entry before.
pub add_task_to_actor_queue-Queues :
    (spec : TaskSpec) (from_global_scheduler : Bool) (s : LocalSchedulerState)
    → IsSorted (queue_of spec.actor_id s)
    → Ensures (Queues spec s) (add_task_to_actor_queue spec from_global_scheduler s)
unfolding add_task_to_actor_queue
add_task_to_actor_queue-Queues spec from_global_scheduler s h =
    Ensures-check (not (spec.actor_id == nil_id)) (Queues spec s) _ λ _.
      Ensures->>= (HasActor spec.actor_id s) (Queues spec s)
        (if has_key spec.actor_id s.local_actor_infos
          then ok s
          else create_actor spec.actor_id none s)
        _ (actor_created spec.actor_id s)
        λ t has.
          Ensures->>= (λ e. lookup spec.actor_id t.local_actor_infos ≡ some e) (Queues spec s)
            (get_actor spec.actor_id t) _ (Ensures-found (lookup spec.actor_id t.local_actor_infos))
            λ e found.
              Ensures-check (leb e.task_counter spec.actor_counter) (Queues spec s) _
                λ enough. queued_lem spec s t e has found enough h
