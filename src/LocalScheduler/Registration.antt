-- ===== src/LocalScheduler/Registration.antt =====
-- How tasks are registered with the objects that they miss (fetch_missing_dependency of
-- src/local_scheduler/local_scheduler_algorithm.cc and the loops around it).
use ray.Common.{
  ℕ, ◌≡◌, refl, sym, ap, ◌∙◌, true, false, ◌||◌, inl, inr, Option, none, some, List, [], ◌∷◌, ◌++◌,
  if◌then◌else◌, ◌==◌, ==_refl, Bool-cases, Option-cases, arith, contains, contains_snoc,
}
use ray.Common.Maps.{lookup, insert, erase, has_key, lookup-insert}
use ray.Tasks.{Arg, by_reference, by_value, is_dependent_on}
use ray.LocalScheduler.State.{ObjectEntry, LocalSchedulerState}
use ray.LocalScheduler.Queues.{can_run, fetch_missing_dependency}
use ray.LocalScheduler.Waiting.{registered, registered_in}

-- Objects that come and go.

pub has_key-insert_lem :
    (o k : ℕ) (entry : ObjectEntry) (m : List (ℕ × ObjectEntry))
    → has_key k (insert o entry m) ≡ (if o == k then true else has_key k m)
unfolding has_key insert
has_key-insert_lem o k entry [] = refl
has_key-insert_lem o k entry ((i, old) ∷ m) = ground (arith, has_key-insert_lem o k entry m)

pub has_key-erase_lem :
    (o k : ℕ) (m : List (ℕ × ObjectEntry))
    → has_key k (erase o m) ≡ (if o == k then false else has_key k m)
unfolding has_key erase
has_key-erase_lem o k [] = ground arith
has_key-erase_lem o k ((i, old) ∷ m) = ground (arith, has_key-erase_lem o k m)

pub can_run-insert_other :
    (o : ℕ) (entry : ObjectEntry) (local : List (ℕ × ObjectEntry)) (args : List Arg)
    → is_dependent_on o args ≡ false
    → can_run (insert o entry local) args ≡ can_run local args
unfolding can_run is_dependent_on
can_run-insert_other o entry local [] h = refl
can_run-insert_other o entry local (by_value ∷ args) h = can_run-insert_other o entry local args h
can_run-insert_other o entry local (by_reference arg_id ∷ args) h =
    let e = has_key-insert_lem o arg_id entry local in
    let rest : is_dependent_on o args ≡ false = ground (arith, h) in
    let i = can_run-insert_other o entry local args rest in
    let same : has_key arg_id (insert o entry local) ≡ has_key arg_id local =
      ground (arith, e, h) in
    rw (same, i) refl

pub not-can_run-erase :
    (o : ℕ) (local : List (ℕ × ObjectEntry)) (args : List Arg)
    → can_run local args ≡ false
    → can_run (erase o local) args ≡ false
unfolding can_run
not-can_run-erase o local [] h = h
not-can_run-erase o local (by_value ∷ args) h = not-can_run-erase o local args h
not-can_run-erase o local (by_reference arg_id ∷ args) h =
    let e = has_key-erase_lem o arg_id local in
    let i = not-can_run-erase o local args in ground (arith, e, i, h)

pub not-can_run_missing :
    (o : ℕ) (local : List (ℕ × ObjectEntry)) (args : List Arg)
    → is_dependent_on o args ≡ true
    → has_key o local ≡ false
    → can_run local args ≡ false
unfolding can_run is_dependent_on
not-can_run_missing o local [] h missing = cc
not-can_run_missing o local (by_value ∷ args) h missing = not-can_run_missing o local args h missing
not-can_run_missing o local (by_reference arg_id ∷ args) h missing =
    elim (Bool-cases (arg_id == o)) [
      | inl hit ↦
          let e : arg_id ≡ o = ground (arith, hit) in
          let gone : has_key arg_id local ≡ false = ap (λ k. has_key k local) e ∙ missing in
          rw gone refl
      | inr miss ↦
          let rest : is_dependent_on o args ≡ true = ground (arith, h, miss) in
          let i = not-can_run_missing o local args rest missing in ground (arith, i)
    ]

-- A task that can run depends on local objects only.
pub can_run-has_key :
    (o : ℕ) (local : List (ℕ × ObjectEntry)) (args : List Arg)
    → can_run local args ≡ true
    → is_dependent_on o args ≡ true
    → has_key o local ≡ true
can_run-has_key o local args h dependent = elim (Bool-cases (has_key o local)) [
  | inl here ↦ here
  | inr missing ↦
      let e = not-can_run_missing o local args dependent missing in absurd (ground (arith, e, h))
]

-- One more dependency.

-- The dependent tasks of an object, with one more.
unfoldable with_task : (j : ℕ) → Option ObjectEntry → List ℕ
with_task j none = j ∷ []
with_task j (some entry) = entry.dependent_tasks ++ j ∷ []

contains-with_task :
    (it j : ℕ) (old : Option ObjectEntry)
    → contains it (with_task j old) ≡ ((j == it) || registered_in it old)
unfolding contains with_task
contains-with_task it j none = ground arith
contains-with_task it j (some entry) =
    let e = contains_snoc it j entry.dependent_tasks in ground (arith, e)

by_key :
    (it o j k : ℕ) (remote : List (ℕ × ObjectEntry)) (old : Option ObjectEntry)
    → lookup k remote ≡ old
    → (new : ObjectEntry) → new.dependent_tasks ≡ with_task j old
    → lookup o (insert k new remote) ≡ (if k == o then some new else lookup o remote)
    → registered it o (insert k new remote)
      ≡ ((if k == o then j == it else false) || registered it o remote)
by_key it o j k remote old known new tasks l = elim (Bool-cases (k == o)) [
  | inl hit ↦
      let e : k ≡ o = ground (arith, hit) in
      let here : lookup o remote ≡ old = ap (λ x. lookup x remote) (sym e) ∙ known in
      let found : lookup o (insert k new remote) ≡ some new = rw hit at l in
      let c : contains it new.dependent_tasks ≡ ((j == it) || registered_in it old) =
        ap (contains it) tasks ∙ contains-with_task it j old in
      rw hit
        (ap (registered_in it) found ∙ c ∙ ap (λ x. (j == it) || registered_in it x) (sym here))
  | inr miss ↦
      let found : lookup o (insert k new remote) ≡ lookup o remote = rw miss at l in
      rw miss (ap (registered_in it) found)
]

pub registered-fetch :
    (it o j k : ℕ) (s : LocalSchedulerState)
    → registered it o (fetch_missing_dependency j k s).remote_objects
      ≡ ((if k == o then j == it else false) || registered it o s.remote_objects)
unfolding fetch_missing_dependency with_task
registered-fetch it o j k s = elim (Option-cases (lookup k s.remote_objects)) [
  | inl new ↦
      let l =
        lookup-insert k o (record { object_id = k; dependent_tasks = j ∷ [] }) s.remote_objects in
      rw (new, fetch_missing_dependency) (by_key it o j k s.remote_objects none new _ refl l)
  | inr (entry, known) ↦
      let l =
        lookup-insert k o (record entry { dependent_tasks = entry.dependent_tasks ++ j ∷ [] })
          s.remote_objects in
      rw (known, fetch_missing_dependency)
        (by_key it o j k s.remote_objects (some entry) known _ refl l)
]

pub registered-fetch_kept :
    (it o j k : ℕ) (s : LocalSchedulerState)
    → registered it o s.remote_objects ≡ true
    → registered it o (fetch_missing_dependency j k s).remote_objects ≡ true
registered-fetch_kept it o j k s h = let e = registered-fetch it o j k s in ground (arith, e, h)

pub registered-fetch_new :
    (it o : ℕ) (s : LocalSchedulerState)
    → registered it o (fetch_missing_dependency it o s).remote_objects ≡ true
registered-fetch_new it o s =
    let e = registered-fetch it o it o s in
    let r = ==_refl o in let q = ==_refl it in ground (arith, e, r, q)
