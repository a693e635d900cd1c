-- ===== src/GlobalScheduler/Assignment.antt =====
-- How handle_task_waiting hands a task to the local scheduler that it picks.
use ray.Common.{
  subst, map, Distinct, contains, ==_refl, ℕ, ◌<◌, ◌≡◌, ap, ◌∙◌, sym, Bool, true, false, some, inl,
  inr, List, [], ◌∷◌, ◌++◌, Result, ok, ◌==◌, All, arith, Bool-cases,
}
use ray.Tasks.{Task, TaskSpec, scheduled, nil_id}
use ray.GlobalScheduler.State.{
  GlobalSchedulerState, LocalScheduler, task_table_update, get_local_scheduler, set_local_scheduler,
}
use ray.GlobalScheduler.Algorithm.{
  charge, assign_task_to_local_scheduler, calculate_cost_pending, int32_min, Choice, choose_loop,
  handle_task_waiting,
}
use ray.GlobalScheduler.Choice.{
  IsFeasible, NoneFeasible, IsBest, choose_loop-Settles, any_feasible, choose_loop-any_feasible,
  any_feasible_none, any_feasible_some, none_feasible,
}

abbrev pub ids : List LocalScheduler → List ℕ
ids = map λ l. l.id

abbrev pub assigned_to : ℕ → Task → Task
assigned_to id task = record task { state = scheduled; local_scheduler_id = id }

contains_middle :
    (x : ℕ) (before : List LocalScheduler) (l : LocalScheduler) (after : List LocalScheduler)
    → (x == l.id) ≡ true
    → contains x (ids (before ++ l ∷ after)) ≡ true
unfolding contains
contains_middle x [] l after h = ground arith
contains_middle x (m ∷ before) l after h = ground (arith, contains_middle x before l after h)

uncontained_middle :
    (x : ℕ) (before : List LocalScheduler) (l : LocalScheduler) (after : List LocalScheduler)
    → contains x (ids (before ++ l ∷ after)) ≡ false
    → (l.id == x) ≡ false
uncontained_middle x before l after h = ground (arith, contains_middle x before l after)

pub get-Distinct :
    (before : List LocalScheduler) (l : LocalScheduler) (after : List LocalScheduler)
    → Distinct (ids (before ++ l ∷ after))
    → get_local_scheduler l.id (before ++ l ∷ after) ≡ some l
unfolding get_local_scheduler
get-Distinct [] l after d = rw (==_refl l.id)
get-Distinct (m ∷ before) l after (new, d) = elim (Bool-cases (m.id == l.id)) [
  | inl e ↦ absurd (cc (contains_middle m.id before l after e, new))
  | inr e ↦ rw e (get-Distinct before l after d)
]

pub set-Distinct :
    (before : List LocalScheduler) (l new : LocalScheduler) (after : List LocalScheduler)
    → Distinct (ids (before ++ l ∷ after))
    → set_local_scheduler l.id new (before ++ l ∷ after) ≡ before ++ new ∷ after
unfolding set_local_scheduler
set-Distinct [] l new after d = rw (==_refl l.id)
set-Distinct (m ∷ before) l new after (fresh, d) = elim (Bool-cases (m.id == l.id)) [
  | inl e ↦ absurd (cc (contains_middle m.id before l after e, fresh))
  | inr e ↦ rw (e, set-Distinct before l new after d)
]

-- The outcomes of handle_task_waiting: the task is left alone, or goes to the best scheduler, which
-- alone is charged for it, and the database hears of it.
pub data Assigns (task : Task) (s : GlobalSchedulerState)
    : Result (GlobalSchedulerState × Task × Bool) → Type 0 where
  infeasible : NoneFeasible task.spec s.local_schedulers → Assigns task s (ok (s, task, false))
  assigned :
      (l : LocalScheduler) (best : IsBest task.spec s.local_schedulers l)
      → Assigns task s (
          ok (
            record s {
              local_schedulers = best.before ++ charge task.spec l ∷ best.after;
              db = task_table_update (assigned_to l.id task) ∷ s.db;
            },
            assigned_to l.id task,
            true,
          ))

-- The schedulers are registered under different IDs, none of them nil, and their costs fit an int.
pub record IsRegistry (spec : TaskSpec) (ls : List LocalScheduler) : Type 0 where
  pub distinct : Distinct (ids ls)
  pub named : contains nil_id (ids ls) ≡ false
  pub cheap : All (λ l. IsFeasible spec l → calculate_cost_pending l < 2147483648) ls

start : Choice
start = record {
  task_feasible = false;
  best_local_scheduler_score = int32_min;
  best_local_scheduler_id = nil_id;
}

handle_best :
    (task : Task) (s : GlobalSchedulerState) (l : LocalScheduler)
    → IsRegistry task.spec s.local_schedulers
    → (best : IsBest task.spec s.local_schedulers l)
    → (choose_loop task.spec s.local_schedulers start).best_local_scheduler_id ≡ l.id
    → Assigns task s (handle_task_waiting task s)
unfolding handle_task_waiting assign_task_to_local_scheduler start
handle_best task s l registry best picked =
    let feasible : (choose_loop task.spec s.local_schedulers start).task_feasible ≡ true =
      choose_loop-any_feasible task.spec s.local_schedulers start
      ∙ ap (any_feasible task.spec) best.split
      ∙ any_feasible_some task.spec best.before l best.after best.feasible in
    let d : Distinct (ids (best.before ++ l ∷ best.after)) =
      subst (λ t. Distinct (ids t)) best.split registry.distinct in
    let found =
      ap (get_local_scheduler l.id) best.split ∙ get-Distinct best.before l best.after d in
    let stored =
      ap (set_local_scheduler l.id (charge task.spec l)) best.split
      ∙ set-Distinct best.before l (charge task.spec l) best.after d in
    let named : (l.id == nil_id) ≡ false =
      uncontained_middle nil_id best.before l best.after
        (ap (λ t. contains nil_id (ids t)) (sym best.split) ∙ registry.named) in
    rw (feasible, picked, named, assign_task_to_local_scheduler, found, picked, stored)
      (assigned l best)

-- Among schedulers that are registered under different IDs, none of them nil, and whose costs fit an
-- int, a task goes to the first of the feasible ones with the least number of queued and recently
-- sent tasks; only a task for which no scheduler is feasible stays. It never aborts.
pub handle_task_waiting-Assigns :
    (task : Task) (s : GlobalSchedulerState)
    → IsRegistry task.spec s.local_schedulers
    → Assigns task s (handle_task_waiting task s)
unfolding handle_task_waiting start
handle_task_waiting-Assigns task s registry =
    elim (choose_loop-Settles task.spec s.local_schedulers start) [
      | inl (low, _, _) ↦
          let none_of = none_feasible task.spec s.local_schedulers registry.cheap low in
          let stays =
            choose_loop-any_feasible task.spec s.local_schedulers start
            ∙ any_feasible_none task.spec s.local_schedulers none_of in
          rw stays (infeasible none_of)
      | inr (l, best, _, picked) ↦ handle_best task s l registry best picked
    ]
