-- ===== src/LocalScheduler/Readiness.antt =====
-- The tasks of the dispatch queue can run (can_run of
-- src/local_scheduler/local_scheduler_algorithm.cc), and the order of an actor's queue.
use ray.Common.{
  ℕ, ◌≤◌, ◌≡◌, refl, true, false, inl, inr, List, [], ◌∷◌, ◌++◌, All, ◌==◌, ltb, Bool-cases, arith,
}
use ray.Common.Maps.{insert, erase, has_key, has_key-insert}
use ray.Tasks.{Arg, by_reference, by_value, TaskSpec, is_dependent_on}
use ray.LocalScheduler.State.{ObjectEntry, LocalSchedulerState}
use ray.LocalScheduler.Queues.{can_run}
use ray.LocalScheduler.Objects.{drop_dispatch}
use ray.LocalScheduler.Actors.{insert_task}

pub All-append {ℓ κ} :
    {A : Type ℓ} (P : A → Type κ) (xs ys : List A) → All P xs → All P ys → All P (xs ++ ys)
All-append P [] ys h k = k
All-append P (x ∷ xs) ys h k = let (hx, hxs) = h in (hx, All-append P xs ys hxs k)

pub All-mono {ℓ κ μ} :
    {A : Type ℓ} (P : A → Type κ) (Q : A → Type μ) (xs : List A)
    → ((x : A) → P x → Q x)
    → All P xs
    → All Q xs
All-mono P Q [] f h = tt
All-mono P Q (x ∷ xs) f h = let (hx, hxs) = h in (f x hx, All-mono P Q xs f hxs)

-- All of a task's objects are local.
abbrev pub Ready : List (ℕ × ObjectEntry) → TaskSpec → Type 0
Ready local_objects spec = can_run local_objects spec.args ≡ true

abbrev pub IsReady : LocalSchedulerState → Type 0
IsReady s = All (Ready s.local_objects) s.dispatch_task_queue

pub can_run-insert :
    (object_id : ℕ) (entry : ObjectEntry) (local : List (ℕ × ObjectEntry)) (args : List Arg)
    → can_run local args ≡ true
    → can_run (insert object_id entry local) args ≡ true
unfolding can_run
can_run-insert object_id entry local [] h = refl
can_run-insert object_id entry local (by_value ∷ args) h =
    can_run-insert object_id entry local args h
can_run-insert object_id entry local (by_reference arg_id ∷ args) h =
    elim (Bool-cases (has_key arg_id local)) [
      | inl here ↦
          let rest : can_run local args ≡ true = ground (arith, here, h) in
          rw (has_key-insert object_id arg_id entry local here)
            (can_run-insert object_id entry local args rest)
      | inr missing ↦ absurd (ground (arith, missing, h))
    ]

pub has_key-erase :
    (object_id k : ℕ) (local : List (ℕ × ObjectEntry))
    → has_key k local ≡ true
    → (k == object_id) ≡ false
    → has_key k (erase object_id local) ≡ true
unfolding has_key erase
has_key-erase object_id k [] h other = cc
has_key-erase object_id k ((i, old) ∷ local) h other =
    ground (arith, has_key-erase object_id k local)

pub can_run-erase :
    (object_id : ℕ) (local : List (ℕ × ObjectEntry)) (args : List Arg)
    → can_run local args ≡ true
    → is_dependent_on object_id args ≡ false
    → can_run (erase object_id local) args ≡ true
unfolding can_run is_dependent_on
can_run-erase object_id local [] h free = refl
can_run-erase object_id local (by_value ∷ args) h free = can_run-erase object_id local args h free
can_run-erase object_id local (by_reference arg_id ∷ args) h free =
    elim (Bool-cases (has_key arg_id local)) [
      | inl here ↦
          let other : (arg_id == object_id) ≡ false = ground (arith, free) in
          let rest : can_run local args ≡ true = ground (arith, here, h) in
          let rest_free : is_dependent_on object_id args ≡ false = ground (arith, free, other) in
          rw (has_key-erase object_id arg_id local here other)
            (can_run-erase object_id local args rest rest_free)
      | inr missing ↦ absurd (ground (arith, missing, h))
    ]

pub All-drop_dispatch {κ} :
    (P : TaskSpec → Type κ) (driver_id : ℕ) (specs : List TaskSpec)
    → All P specs
    → All P (drop_dispatch driver_id specs)
unfolding drop_dispatch
All-drop_dispatch P driver_id [] h = tt
All-drop_dispatch P driver_id (spec ∷ specs) h =
    let (now, later) = h in
    elim (Bool-cases (spec.driver_id == driver_id)) [
      | inl dead ↦ rw dead (All-drop_dispatch P driver_id specs later)
      | inr alive ↦ rw alive (now, All-drop_dispatch P driver_id specs later)
    ]

-- The counters of an actor's queue do not fall.
abbrev pub IsSorted : List TaskSpec → Type 0
IsSorted [] = Unit
IsSorted (t ∷ ts) = All (λ u. t.actor_counter ≤ u.actor_counter) ts × IsSorted ts

All-insert_task {κ} :
    (P : TaskSpec → Type κ) (spec : TaskSpec) (ts : List TaskSpec)
    → P spec
    → All P ts
    → All P (insert_task spec ts)
unfolding insert_task
All-insert_task P spec [] h k = (h, tt)
All-insert_task P spec (t ∷ ts) h k =
    let (now, later) = k in
    elim (Bool-cases (ltb t.actor_counter spec.actor_counter)) [
      | inl before ↦ rw before (now, All-insert_task P spec ts h later)
      | inr after ↦ rw after (h, k)
    ]

pub insert_task-IsSorted :
    (spec : TaskSpec) (ts : List TaskSpec) → IsSorted ts → IsSorted (insert_task spec ts)
unfolding insert_task
insert_task-IsSorted spec [] h = (tt, tt)
insert_task-IsSorted spec (t ∷ ts) h =
    let (least, sorted) = h in
    elim (Bool-cases (ltb t.actor_counter spec.actor_counter)) [
      | inl before ↦
          let le : t.actor_counter ≤ spec.actor_counter = ground (arith, before) in
          rw before (
            All-insert_task (λ u. t.actor_counter ≤ u.actor_counter) spec ts le least,
            insert_task-IsSorted spec ts sorted,
          )
      | inr after ↦
          let le : spec.actor_counter ≤ t.actor_counter = ground (arith, after) in
          rw after (
            (
              le,
              All-mono (λ u. t.actor_counter ≤ u.actor_counter)
                  (λ u. spec.actor_counter ≤ u.actor_counter) ts (λ u k. omega (arith, le, k))
                  least,
            ),
            h,
          )
    ]
