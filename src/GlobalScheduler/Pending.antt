-- ===== src/GlobalScheduler/Pending.antt =====
-- The tasks that wait for a local scheduler: process_task_waiting and the rounds of
-- task_cleanup_handler.
use ray.Common.{
  ℕ, ◌+◌, ◌≡◌, ◌≢◌, refl, ◌∙◌, Bool, true, false, none, some, ◌⊎◌, [], ◌∷◌, ◌++◌, Result, ok, inl,
  inr, if◌then◌else◌, ◌==◌, ==_refl, get_elem?, arith,
}
use ray.Common.Maps.{
  lookup, insert, erase, has_key, lookup-insert, lookup-erase, has_key-lookup-some, has_key-insert,
}
use ray.Tasks.{Task}
use ray.GlobalScheduler.State.{GlobalSchedulerState, LocalScheduler, task_table_update}
use ray.GlobalScheduler.Algorithm.{charge, handle_task_waiting}
use ray.GlobalScheduler.Choice.{NoneFeasible, IsBest}
use ray.GlobalScheduler.Assignment.{
  IsRegistry, Assigns, infeasible, assigned, assigned_to, handle_task_waiting-Assigns,
}
use ray.GlobalScheduler.Server.{
  erase_elem, process_task_waiting, read_after_erase, free_task, retry_pending,
}

-- An assignment, and what it does not touch.
record Handed (task : Task) (s t : GlobalSchedulerState) (task' : Task) : Type 0 where
  scheduler : LocalScheduler
  best : IsBest task.spec s.local_schedulers scheduler
  done : task' ≡ assigned_to scheduler.id task
  written : t.db ≡ task_table_update (assigned_to scheduler.id task) ∷ s.db
  pending : t.pending_tasks ≡ s.pending_tasks
  tasks : t.tasks ≡ s.tasks
  charged : t.local_schedulers ≡ best.before ++ charge task.spec scheduler ∷ best.after

Assigns-cases :
    (task : Task) (s : GlobalSchedulerState) (r : Result (GlobalSchedulerState × Task × Bool))
    → Assigns task s r
    → (NoneFeasible task.spec s.local_schedulers × (r ≡ ok (s, task, false)))
      ⊎ ((t : GlobalSchedulerState) × (task' : Task) × (r ≡ ok (t, task', true))
          × Handed task s t task')
Assigns-cases task s _ (infeasible none_of) = inl (none_of, refl)
Assigns-cases task s _ (assigned l best) = inr (
  _,
  _,
  refl,
  record {
    scheduler = l;
    best = best;
    done = refl;
    written = refl;
    pending = refl;
    tasks = refl;
    charged = refl;
  },
)

-- The pending task at an index went to the best scheduler, which alone is charged for it, and the
-- database heard of it; the task has left the pending tasks and the memory, where the others stay.
pub record Resubmitted (i pointer : ℕ) (task : Task) (s t : GlobalSchedulerState) : Type 0 where
  pub scheduler : LocalScheduler
  pub best : IsBest task.spec s.local_schedulers scheduler
  pub charged : t.local_schedulers ≡ best.before ++ charge task.spec scheduler ∷ best.after
  pub written : t.db ≡ task_table_update (assigned_to scheduler.id task) ∷ s.db
  pub pending : t.pending_tasks ≡ erase_elem i s.pending_tasks
  pub memory : (j : ℕ) → lookup j t.tasks ≡ (if pointer == j then none else lookup j s.tasks)

-- A waiting task is in the database as the best scheduler's, or its copy is the last pending task.
abbrev pub Accepted : Task → GlobalSchedulerState → GlobalSchedulerState → Type 0
Accepted task s t =
    ((l : LocalScheduler) × IsBest task.spec s.local_schedulers l
      × (t.db ≡ task_table_update (assigned_to l.id task) ∷ s.db)
      × (t.pending_tasks ≡ s.pending_tasks))
    ⊎ (NoneFeasible task.spec s.local_schedulers
        × (t.pending_tasks ≡ s.pending_tasks ++ s.next_task ∷ [])
        × (lookup s.next_task t.tasks ≡ some task))

-- Among schedulers with different IDs that are not nil and with costs that fit an int, no waiting task
-- is lost: the code ends, and either the database hears that the best feasible scheduler has the
-- task, or no scheduler is feasible and a copy of the task is the last pending task.
pub process_task_waiting-Accepted :
    (task : Task) (s : GlobalSchedulerState)
    → IsRegistry task.spec s.local_schedulers
    → (t : GlobalSchedulerState) × (process_task_waiting task s ≡ ok t) × Accepted task s t
unfolding process_task_waiting
process_task_waiting-Accepted task s registry =
    elim (Assigns-cases task s (handle_task_waiting task s)
      (handle_task_waiting-Assigns task s registry)) [
        | inl (none_of, ran) ↦ (
          record s {
            pending_tasks = s.pending_tasks ++ s.next_task ∷ [];
            tasks = insert s.next_task task s.tasks;
            next_task = s.next_task + 1;
          },
          rw ran,
          inr (
            none_of,
            refl,
            lookup-insert s.next_task s.next_task task s.tasks ∙ rw (==_refl s.next_task),
          ),
        )
        | inr (t, task', ran, handed) ↦
            (t, rw ran, inl (handed.scheduler, handed.best, handed.written, handed.pending))
      ]

module _ (i : ℕ) (s : GlobalSchedulerState) (p : ℕ) (task : Task)
    (here : get_elem? s.pending_tasks i ≡ some p) (found : lookup p s.tasks ≡ some task)
    (registry : IsRegistry task.spec s.local_schedulers) where
  -- A round at the last pending task, among schedulers with different IDs that are not nil and with
  -- costs that fit an int: if no scheduler is feasible, nothing changes; otherwise the first of the
  -- feasible ones with the least cost gets the task and alone is charged for it, the database hears
  -- of it, and the task leaves the pending tasks and is freed, while the other tasks in memory stay.
  pub retry_pending_last :
      get_elem? (erase_elem i s.pending_tasks) i ≡ none
      → (NoneFeasible task.spec s.local_schedulers × (retry_pending i s ≡ ok s))
        ⊎ ((t : GlobalSchedulerState) × (retry_pending i s ≡ ok t) × Resubmitted i p task s t)
  unfolding retry_pending free_task read_after_erase
  retry_pending_last last =
      elim (Assigns-cases task s (handle_task_waiting task s)
        (handle_task_waiting-Assigns task s registry)) [
          | inl (none_of, ran) ↦ inl (none_of, rw (here, retry_pending, found, ran))
          | inr (t, task', ran, handed) ↦
              let rest = erase_elem i s.pending_tasks in
              let memory = insert p task' s.tasks in
              let there = lookup-insert p p task' s.tasks ∙ rw (==_refl p) in
              inr (
                record t { pending_tasks = rest; tasks = erase p memory },
                rw (
                  here,
                  retry_pending,
                  found,
                  ran,
                  handed.pending,
                  handed.tasks,
                  read_after_erase,
                  last,
                  free_task,
                  has_key-lookup-some p memory {v = task'} there,
                ),
                record {
                  scheduler = handed.scheduler;
                  best = handed.best;
                  charged = handed.charged;
                  written = handed.written;
                  pending = refl;
                  memory = λ j.
                      lookup-erase p j memory ∙ ground (arith, lookup-insert p j task' s.tasks);
                },
              )
        ]

  -- Among schedulers with different IDs that are not nil and with costs that fit an int, one of
  -- them feasible, a round at a pending task with another one, `q`, behind it frees the wrong task:
  -- `q` stays pending and its memory is freed, while the task that was assigned is not freed.
  pub retry_pending_frees_next :
      (q : ℕ)
      → get_elem? (erase_elem i s.pending_tasks) i ≡ some q
      → has_key q s.tasks ≡ true
      → p ≢ q
      → ¬ (NoneFeasible task.spec s.local_schedulers)
      → (t : GlobalSchedulerState) × (task' : Task) × (retry_pending i s ≡ ok t)
        × (get_elem? t.pending_tasks i ≡ some q)
        × (lookup q t.tasks ≡ none)
        × (lookup p t.tasks ≡ some task')
  unfolding retry_pending free_task read_after_erase
  retry_pending_frees_next q next live apart feasible =
      elim (Assigns-cases task s (handle_task_waiting task s)
        (handle_task_waiting-Assigns task s registry)) [
          | inl (none_of, ran) ↦ absurd (feasible none_of)
          | inr (t, task', ran, handed) ↦
              let rest = erase_elem i s.pending_tasks in
              let memory = insert p task' s.tasks in
              (
                record t { pending_tasks = rest; tasks = erase q memory },
                task',
                rw (
                  here,
                  retry_pending,
                  found,
                  ran,
                  handed.pending,
                  handed.tasks,
                  read_after_erase,
                  next,
                  free_task,
                  has_key-insert p q task' s.tasks live,
                ),
                next,
                lookup-erase q q memory ∙ rw (==_refl q),
                lookup-erase q p memory ∙ ground (arith, lookup-insert p p task' s.tasks),
              )
        ]
