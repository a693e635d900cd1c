-- ===== src/LocalScheduler/Invariant/Arrivals.antt =====
-- The invariant through an object that becomes local:
-- src/local_scheduler/local_scheduler_algorithm.cc.
use ray.Common.{
  Bool, true, false, ap, ◌∙◌, ◌⊎◌, Option, none, some, contains, arith, ℕ, ◌≡◌, refl, sym, subst,
  not, inl, inr, List, [], ◌∷◌, ok, Ensures, Ensures->>=, Ensures-check, Ensures-option, Ensures-if,
  Bool-cases, ◌==◌, ◌>>=◌, if◌then◌else◌,
}
use ray.Common.Maps.{lookup-erase, lookup, insert, erase, has_key}
use ray.Tasks.{TaskSpec, is_dependent_on}
use ray.LocalScheduler.State.{ObjectEntry, Env, LocalSchedulerState}
use ray.LocalScheduler.Queues.{is_empty, can_run, dispatch_tasks}
use ray.LocalScheduler.Objects.{
  move_dependent, move_loop, entry_in, entry_of, handle_object_available,
}
use ray.LocalScheduler.Readiness.{IsReady, Ready, All-append, All-mono, can_run-insert}
use ray.LocalScheduler.Waiting.{IsRegistered, IsUnique, registered, registered_in, erase-IsUnique}
use ray.LocalScheduler.Registration.{has_key-insert_lem, can_run-insert_other}
use ray.LocalScheduler.Invariant.{IsSound, IsCoherent}
use ray.LocalScheduler.Invariant.Queueing.{dispatch_tasks-IsCoherent}

not-true : {b : Bool} → not b ≡ true → b ≡ false
not-true {b = true} h = cc
not-true {b = false} h = refl

is_empty_lem : {its : List ℕ} → is_empty its ≡ true → its ≡ []
is_empty_lem {its = []} h = refl
is_empty_lem {its = i ∷ its} h = absurd cc

-- During the loop over dependent tasks: a waiting task that can run is still to be moved.
abbrev IsMoving : List ℕ → LocalSchedulerState → Type 0
IsMoving its s =
    IsSound s
    × IsReady s
    × IsUnique s.waiting_task_queue s.next_entry
    × ((it : ℕ) (spec : TaskSpec)
        → lookup it s.waiting_task_queue ≡ some spec
        → ((can_run s.local_objects spec.args ≡ false) ⊎ (contains it its ≡ true))
          × IsRegistered s.local_objects s.remote_objects it spec)

-- A task at another iterator is still to be moved.
still_moving :
    (i it : ℕ) (its : List ℕ) (runs : Bool)
    → (i == it) ≡ false
    → (runs ≡ false) ⊎ (contains it (i ∷ its) ≡ true)
    → (runs ≡ false) ⊎ (contains it its ≡ true)
unfolding contains
still_moving i it its runs other (inl cannot) = inl cannot
still_moving i it its runs other (inr inside) = inr (ground (arith, inside, other))

move_dependent-IsMoving :
    (i : ℕ) (its : List ℕ) (s : LocalSchedulerState)
    → IsMoving (i ∷ its) s
    → Ensures (IsMoving its) (move_dependent i s)
unfolding move_dependent
move_dependent-IsMoving i its s h =
    let (sound, ready, unique, pending) = h in
    Ensures-option (lookup i s.waiting_task_queue) (IsMoving its) _ _ (λ _. tt)
      λ moved known.
        Ensures-if (can_run s.local_objects moved.args) (IsMoving its) _ _
          (λ now. (
            sound,
            All-append (Ready s.local_objects) s.dispatch_task_queue (moved ∷ []) ready (now, tt),
            erase-IsUnique i s.waiting_task_queue s.next_entry unique,
            λ it spec found.
                (let l = lookup-erase i it s.waiting_task_queue in
                  elim (Bool-cases (i == it)) [
                    | inl hit ↦ absurd (ground (arith, l, hit, found))
                    | inr miss ↦
                        let was : lookup it s.waiting_task_queue ≡ some spec =
                          ground (arith, l, miss, found) in
                        let (either, registers) = pending it spec was in
                        (
                          still_moving i it its (can_run s.local_objects spec.args) miss either,
                          registers,
                        )
                  ]),
          ))
          λ cannot. (
            sound,
            ready,
            unique,
            λ it spec found.
                (let (either, registers) = pending it spec found in
                  elim (Bool-cases (i == it)) [
                    | inl hit ↦
                        let e : i ≡ it = ground (arith, hit) in
                        let f : some moved ≡ some spec =
                          sym known ∙ ap (λ x. lookup x s.waiting_task_queue) e ∙ found in
                        let g : moved ≡ spec = cc in
                        (
                          inl (subst (λ x. can_run s.local_objects x.args ≡ false) g cannot),
                          registers,
                        )
                    | inr miss ↦ (
                      still_moving i it its (can_run s.local_objects spec.args) miss either,
                      registers,
                    )
                  ]),
          )

-- After the loop, no waiting task can run.
moved-IsCoherent : (s : LocalSchedulerState) → IsMoving [] s → IsCoherent s
unfolding contains
moved-IsCoherent s h =
    let (sound, ready, unique, pending) = h in
    (
      sound,
      (
        ready,
        (
          unique,
          λ it spec found.
              (let (either, registers) = pending it spec found in
                (elim either [ inl cannot ↦ cannot | inr inside ↦ absurd cc ], registers)),
        ),
      ),
    )

move_loop-IsCoherent :
    (its : List ℕ) (s : LocalSchedulerState) → IsMoving its s → Ensures IsCoherent (move_loop its s)
unfolding move_loop
move_loop-IsCoherent [] s h = moved-IsCoherent s h
move_loop-IsCoherent (it ∷ its) s h =
    Ensures->>= (IsMoving its) IsCoherent (move_dependent it s) (move_loop its)
      (move_dependent-IsMoving it its s h) (move_loop-IsCoherent its)

by_entry :
    (it o : ℕ) (found : Option ObjectEntry)
    → registered_in it found ≡ true
    → contains it (entry_in o found).dependent_tasks ≡ true
by_entry it o none h = cc
by_entry it o (some entry) h = h

registered-entry_of :
    (it o : ℕ) (s : LocalSchedulerState)
    → registered it o s.remote_objects ≡ true
    → contains it (entry_of o s).dependent_tasks ≡ true
registered-entry_of it o s h = by_entry it o (lookup o s.remote_objects) h

-- A new local object: the waiting tasks that depend on it are its dependent tasks.
with_object :
    (o : ℕ) (s : LocalSchedulerState)
    → has_key o s.local_objects ≡ false
    → IsCoherent s
    → IsMoving (entry_of o s).dependent_tasks (record s {
      remote_objects = erase o s.remote_objects;
      local_objects = insert o (entry_of o s) s.local_objects;
    })
with_object o s absent h =
    let (sound, (ready, (unique, stuck))) = h in
    let local = insert o (entry_of o s) s.local_objects in
    (
      sound,
      All-mono (Ready s.local_objects) (Ready local) s.dispatch_task_queue
          (λ spec now. can_run-insert o (entry_of o s) s.local_objects spec.args now) ready,
      unique,
      λ it spec found.
          (let (cannot, registers) = stuck it spec found in
            (
              elim (Bool-cases (is_dependent_on o spec.args)) [
                | inl dependent ↦ inr (registered-entry_of it o s (registers o dependent absent))
                | inr free ↦
                    inl (
                      can_run-insert_other o (entry_of o s) s.local_objects spec.args free ∙ cannot)
              ],
              λ k dependent missing.
                  (let l = has_key-insert_lem o k (entry_of o s) s.local_objects in
                    let e = lookup-erase o k s.remote_objects in
                    elim (Bool-cases (o == k)) [
                      | inl hit ↦ absurd (ground (arith, l, hit, missing))
                      | inr miss ↦
                          let was : has_key k s.local_objects ≡ false =
                            ground (arith, l, miss, missing) in
                          let same : lookup k (erase o s.remote_objects)
                              ≡ lookup k s.remote_objects =
                            rw miss at e in
                          ap (registered_in it) same ∙ registers k dependent was
                    ]),
            )),
    )

pub handle_object_available-IsCoherent :
    (env : Env) (object_id : ℕ) (s : LocalSchedulerState)
    → IsCoherent s
    → Ensures IsCoherent (handle_object_available env object_id s)
unfolding handle_object_available
handle_object_available-IsCoherent env object_id s h =
    let entry = entry_of object_id s in
    let s' : LocalSchedulerState = record s {
      remote_objects = erase object_id s.remote_objects;
      local_objects = insert object_id entry s.local_objects;
    } in
    Ensures-check (not (has_key object_id s.local_objects)) IsCoherent
      (if is_empty entry.dependent_tasks
        then ok s'
        else (move_loop entry.dependent_tasks s' >>= dispatch_tasks env))
      λ absent.
        (let h' = with_object object_id s (not-true absent) h in
          Ensures-if (is_empty entry.dependent_tasks) IsCoherent (ok s')
            (move_loop entry.dependent_tasks s' >>= dispatch_tasks env)
            (λ empty. moved-IsCoherent s' (subst (λ l. IsMoving l s') (is_empty_lem empty) h'))
            λ _.
              Ensures->>= IsCoherent IsCoherent (move_loop entry.dependent_tasks s')
                (dispatch_tasks env) (move_loop-IsCoherent entry.dependent_tasks s' h')
                (dispatch_tasks-IsCoherent env))
