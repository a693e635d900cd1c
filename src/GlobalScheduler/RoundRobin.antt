-- ===== src/GlobalScheduler/RoundRobin.antt =====
-- The round robin policy.
use ray.Common.{
  ℕ, suc, ◌+◌, ◌%◌, ◌≡◌, refl, ap, subst, ◌∙◌, sym, false, some, List, [], ◌∷◌, ◌++◌, ok, inl, inr,
  if◌then◌else◌, ◌==◌, ==_refl, get_elem?, length, Bool-cases, Distinct, arith,
}
use ray.Tasks.{Task}
use ray.GlobalScheduler.State.{
  GlobalSchedulerState, LocalScheduler, task_table_update, get_local_scheduler, set_local_scheduler,
}
use ray.GlobalScheduler.Algorithm.{
  charge, assign_task_to_local_scheduler, constraints_satisfied_hard, round_robin_loop,
  after_round_robin, handle_task_round_robin,
}
use ray.GlobalScheduler.Assignment.{ids, assigned_to, get-Distinct, set-Distinct}

get_elem-middle :
    (before : List LocalScheduler) (l : LocalScheduler) (after : List LocalScheduler)
    → get_elem? (before ++ l ∷ after) (length before) ≡ some l
get_elem-middle [] l after = refl
get_elem-middle (m ∷ before) l after = get_elem-middle before l after

length-middle :
    (before : List LocalScheduler) (l : LocalScheduler) (after : List LocalScheduler)
    → (length (before ++ l ∷ after) == 0) ≡ false
length-middle [] l after = ground arith
length-middle (m ∷ before) l after = ground arith

-- If the round robin index is that of a scheduler, and the schedulers have different IDs, the policy
-- ends on any fuel of at least 2 without aborting. If this scheduler satisfies the task's constraints,
-- it alone is charged for the task, the database hears that the task is scheduled there, and the
-- index moves on by one, round the end. Otherwise no other scheduler is tried: nothing changes,
-- whatever constraints the others satisfy.
pub handle_task_round_robin_one :
    (n : ℕ) (task : Task) (s : GlobalSchedulerState) (before : List LocalScheduler)
    (l : LocalScheduler) (after : List LocalScheduler)
    → s.local_schedulers ≡ before ++ l ∷ after
    → length before ≡ s.round_robin_index
    → Distinct (ids s.local_schedulers)
    → handle_task_round_robin (suc (suc n)) task s
      ≡ some (
          ok (
            if constraints_satisfied_hard l task.spec
            then record s {
              round_robin_index = (s.round_robin_index + 1) % length s.local_schedulers;
              local_schedulers = before ++ charge task.spec l ∷ after;
              db = task_table_update (assigned_to l.id task) ∷ s.db;
            }
            else s))
unfolding handle_task_round_robin round_robin_loop after_round_robin assign_task_to_local_scheduler
handle_task_round_robin_one n task s before l after split place distinct =
    let d = subst (λ ls. Distinct (ids ls)) split distinct in
    let nonempty = ap (λ ls. length ls == 0) split ∙ length-middle before l after in
    let here : get_elem? s.local_schedulers s.round_robin_index ≡ some l =
      ap (get_elem? s.local_schedulers) (sym place)
      ∙ ap (λ ls. get_elem? ls (length before)) split
      ∙ get_elem-middle before l after in
    let found = ap (get_local_scheduler l.id) split ∙ get-Distinct before l after d in
    let stored =
      ap (set_local_scheduler l.id (charge task.spec l)) split
      ∙ set-Distinct before l (charge task.spec l) after d in
    elim (Bool-cases (constraints_satisfied_hard l task.spec)) [
      | inl e ↦
          rw (nonempty, here, ==_refl s.round_robin_index, e)
            (rw (found, assign_task_to_local_scheduler, stored) refl)
      | inr e ↦ rw (nonempty, here, ==_refl s.round_robin_index, e)
    ]
