-- ===== src/LocalScheduler/Invariant/Objects.antt =====
-- The invariant through an object that is evicted, and through a removed driver:
-- src/local_scheduler/local_scheduler_algorithm.cc.
use ray.Common.{
  true, false, ap, ◌∙◌, some, ==_refl, arith, ℕ, ◌+◌, ◌≡◌, refl, sym, subst, inl, inr, List, [],
  ◌∷◌, ◌++◌, All, ok, Ensures, Ensures->>=, Ensures-check, Bool-cases, ◌==◌,
}
use ray.Common.Maps.{lookup, erase, has_key}
use ray.Tasks.{Arg, TaskSpec, by_reference, by_value, is_dependent_on}
use ray.LocalScheduler.State.{ObjectEntry, LocalSchedulerState}
use ray.LocalScheduler.Queues.{can_run, fetch_missing_dependency}
use ray.LocalScheduler.Objects.{
  requeue_loop, refetch_args, refetch_loop, handle_object_removed, drop_fetches,
  handle_driver_removed,
}
use ray.LocalScheduler.Readiness.{Ready, can_run-erase, All-drop_dispatch}
use ray.LocalScheduler.Waiting.{IsWaiting, IsUnique, registered, lookup_snoc, snoc-IsUnique}
use ray.LocalScheduler.Registration.{
  has_key-erase_lem, not-can_run-erase, not-can_run_missing, can_run-has_key,
}
use ray.LocalScheduler.Loops.{refetch_loop-Refetches}
use ray.LocalScheduler.Dropping.{
  drop_waiting-IsUnique, lookup-drop_waiting, KeepsAll, drop_fetches-KeepsAll,
}
use ray.LocalScheduler.Invariant.{IsSound, IsCoherent}
use ray.LocalScheduler.Invariant.Queueing.{IsSettled, fetch_missing_dependency-IsSettled}

-- While the dispatch queue is searched, a waiting task is registered with what it misses but for the
-- removed object.
abbrev IsRequeueing : (o : ℕ) → LocalSchedulerState → Type 0
IsRequeueing o s =
    IsUnique s.waiting_task_queue s.next_entry
    × ((it : ℕ) (spec : TaskSpec)
        → lookup it s.waiting_task_queue ≡ some spec
        → (can_run s.local_objects spec.args ≡ false)
          × ((k : ℕ)
              → (o == k) ≡ false
              → is_dependent_on k spec.args ≡ true
              → has_key k s.local_objects ≡ false
              → registered it k s.remote_objects ≡ true))

requeued-IsRequeueing :
    (o : ℕ) (local : List (ℕ × ObjectEntry)) (new : TaskSpec) (s : LocalSchedulerState)
    → s.local_objects ≡ erase o local
    → Ready local new
    → is_dependent_on o new.args ≡ true
    → IsRequeueing o s
    → IsRequeueing o (record s {
      waiting_task_queue = s.waiting_task_queue ++ (s.next_entry, new) ∷ [];
      next_entry = s.next_entry + 1;
    })
requeued-IsRequeueing o local new s now_local now dependent h =
    let (unique, stuck) = h in
    (
      snoc-IsUnique new s.waiting_task_queue s.next_entry unique,
      λ it spec found. elim (lookup_snoc it s.next_entry spec new s.waiting_task_queue found) [
        | inl old ↦ stuck it spec old
        | inr (here, same) ↦
            subst
              (λ x.
                (can_run s.local_objects x.args ≡ false)
                × ((k : ℕ)
                    → (o == k) ≡ false
                    → is_dependent_on k x.args ≡ true
                    → has_key k s.local_objects ≡ false
                    → registered it k s.remote_objects ≡ true))
              same
              (
                (let l = has_key-erase_lem o o local in
                    let r = ==_refl o in
                    let gone : has_key o (erase o local) ≡ false = ground (arith, l, r) in
                    rw now_local (not-can_run_missing o (erase o local) new.args dependent gone)),
                λ k other depends missing.
                    (let here = can_run-has_key k local new.args now depends in
                      let l = has_key-erase_lem o k local in
                      let there : has_key k (erase o local) ≡ true =
                        ground (arith, l, other, here) in
                      let m : has_key k (erase o local) ≡ false =
                        ap (has_key k) (sym now_local) ∙ missing in
                      absurd (ground (arith, there, m))),
              )
      ],
    )

-- The tasks that stay in the dispatch queue can run without the object.
requeue_loop_lem :
    (o : ℕ) (local : List (ℕ × ObjectEntry)) (specs : List TaskSpec) (s : LocalSchedulerState)
    → s.local_objects ≡ erase o local
    → All (Ready local) specs
    → IsSound s
    → IsRequeueing o s
    → IsSound (requeue_loop o specs s).1
      × ((requeue_loop o specs s).1.local_objects ≡ erase o local)
      × All (Ready (erase o local)) (requeue_loop o specs s).0
      × IsRequeueing o (requeue_loop o specs s).1
unfolding requeue_loop
requeue_loop_lem o local [] s now_local ready h w = (h, now_local, tt, w)
requeue_loop_lem o local (spec ∷ specs) s now_local ready h w =
    let (now, later) = ready in
    elim (Bool-cases (is_dependent_on o spec.args)) [
      | inl dependent ↦
          rw (dependent, requeue_loop)
            (requeue_loop_lem o local specs
              (record s {
                waiting_task_queue = s.waiting_task_queue ++ (s.next_entry, spec) ∷ [];
                next_entry = s.next_entry + 1;
              })
              now_local later h (requeued-IsRequeueing o local spec s now_local now dependent w))
      | inr free ↦
          let (sound, same, rest, w') = requeue_loop_lem o local specs s now_local later h w in
          rw (free, requeue_loop)
            (sound, same, (can_run-erase o local spec.args now free, rest), w')
    ]

refetch_args-IsSettled :
    (object_id it : ℕ) (args : List Arg) (s : LocalSchedulerState)
    → IsSettled s
    → IsSettled (refetch_args object_id it args s)
unfolding refetch_args
refetch_args-IsSettled object_id it [] s h = h
refetch_args-IsSettled object_id it (by_value ∷ args) s h =
    refetch_args-IsSettled object_id it args s h
refetch_args-IsSettled object_id it (by_reference arg_id ∷ args) s h =
    elim (Bool-cases (arg_id == object_id)) [
      | inl hit ↦
          rw (hit, refetch_args)
            (refetch_args-IsSettled object_id it args (fetch_missing_dependency it object_id s)
              (fetch_missing_dependency-IsSettled it object_id s h))
      | inr miss ↦ rw (miss, refetch_args) (refetch_args-IsSettled object_id it args s h)
    ]

refetch_loop-IsSettled :
    (object_id : ℕ) (tasks : List (ℕ × TaskSpec)) (s : LocalSchedulerState)
    → IsSettled s
    → IsSettled (refetch_loop object_id tasks s)
unfolding refetch_loop
refetch_loop-IsSettled object_id [] s h = h
refetch_loop-IsSettled object_id ((it, spec) ∷ tasks) s h =
    refetch_loop-IsSettled object_id tasks (refetch_args object_id it spec.args s)
      (refetch_args-IsSettled object_id it spec.args s h)

-- The state when the object is gone and no queue has been looked at.
without_object-IsRequeueing :
    (o : ℕ) (s : LocalSchedulerState)
    → IsWaiting s
    → IsRequeueing o (record s { local_objects = erase o s.local_objects })
without_object-IsRequeueing o s h =
    let (unique, stuck) = h in
    (
      unique,
      λ it spec found.
          (let (cannot, registers) = stuck it spec found in
            (
              not-can_run-erase o s.local_objects spec.args cannot,
              λ k other dependent missing.
                  (let l = has_key-erase_lem o k s.local_objects in
                    let was : has_key k s.local_objects ≡ false =
                      ground (arith, l, other, missing) in
                    registers k dependent was),
            )),
    )

-- After the second loop the waiting tasks are registered with the removed object too.
refetched-IsWaiting :
    (o : ℕ) (s : LocalSchedulerState)
    → IsRequeueing o s
    → IsWaiting (refetch_loop o s.waiting_task_queue s)
refetched-IsWaiting o s h =
    let (unique, stuck) = h in
    let ((local, queue, next), kept, new) = refetch_loop-Refetches o s.waiting_task_queue s in
    let t = refetch_loop o s.waiting_task_queue s in
    (
      rw (queue, next) unique,
      λ it spec found.
          (let was : lookup it s.waiting_task_queue ≡ some spec =
              sym (ap (lookup it) queue) ∙ found in
            let (cannot, registers) = stuck it spec was in
            (
              ap (λ l. can_run l spec.args) local ∙ cannot,
              λ k dependent missing.
                  (let gone : has_key k s.local_objects ≡ false =
                      sym (ap (has_key k) local) ∙ missing in
                    elim (Bool-cases (o == k)) [
                      | inl hit ↦
                          let e : o ≡ k = ground (arith, hit) in
                          subst (λ x. registered it x t.remote_objects ≡ true) e
                            (new it spec was
                              (subst (λ x. is_dependent_on x spec.args ≡ true) (sym e) dependent))
                      | inr miss ↦ kept it k (registers k miss dependent gone)
                    ]),
            )),
    )

pub handle_object_removed-IsCoherent :
    (object_id : ℕ) (s : LocalSchedulerState)
    → IsCoherent s
    → Ensures IsCoherent (handle_object_removed object_id s)
unfolding handle_object_removed
handle_object_removed-IsCoherent object_id s h =
    let (sound, (ready, waiting)) = h in
    let s1 : LocalSchedulerState = record s { local_objects = erase object_id s.local_objects } in
    let p = requeue_loop object_id s1.dispatch_task_queue s1 in
    let (sound', same, rest, requeueing) =
      requeue_loop_lem object_id s.local_objects s1.dispatch_task_queue s1 refl ready sound
        (without_object-IsRequeueing object_id s waiting) in
    let s2 : LocalSchedulerState = record p.1 { dispatch_task_queue = p.0 } in
    let settled : IsSettled s2 = (sound', subst (λ o. All (Ready o) p.0) (sym same) rest) in
    Ensures-check (has_key object_id s.local_objects) IsCoherent
      (ok (refetch_loop object_id s2.waiting_task_queue s2))
      λ _.
        (let (sound3, ready3) = refetch_loop-IsSettled object_id s2.waiting_task_queue s2 settled in
          (sound3, (ready3, refetched-IsWaiting object_id s2 requeueing)))

pub handle_driver_removed-IsCoherent :
    (driver_id : ℕ) (s : LocalSchedulerState)
    → IsCoherent s
    → Ensures IsCoherent (handle_driver_removed driver_id s)
unfolding handle_driver_removed
handle_driver_removed-IsCoherent driver_id s h =
    let (sound, (ready, (unique, stuck))) = h in
    Ensures->>= (KeepsAll driver_id s.waiting_task_queue s.remote_objects) IsCoherent
      (drop_fetches driver_id s.waiting_task_queue s.remote_objects) _
      (drop_fetches-KeepsAll driver_id s.waiting_task_queue s.remote_objects)
      λ entries kept. (
        sound,
        (
          All-drop_dispatch (Ready s.local_objects) driver_id s.dispatch_task_queue ready,
          (
            drop_waiting-IsUnique driver_id s.waiting_task_queue s.next_entry unique,
            λ it spec found.
                (let (distinct, _) = unique in
                  let (was, other) =
                    lookup-drop_waiting driver_id it s.waiting_task_queue spec distinct found in
                  let (cannot, registers) = stuck it spec was in
                  (
                    cannot,
                    λ o dependent missing. kept it o spec (registers o dependent missing) was other,
                  )),
          ),
        ),
      )
