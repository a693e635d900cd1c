-- ===== src/GlobalScheduler/Choice.antt =====
-- Which local scheduler handle_task_waiting picks.
use ray.Common.{
  ◌||◌, ◌<◌, ◌≤◌, ◌≡◌, refl, ap, ◌∙◌, Bool, true, false, ◌⊎◌, inl, inr, List, [], ◌∷◌, ◌++◌, All,
  arith, Bool-cases,
}
use ray.Common.Int.{ℤ, pos, ◌-ℤ◌, ltb_ℤ, ◌≤ℤ◌, int_laws, le_of_ltb_ℤ, not-le_of_ltb_ℤ}
use ray.Tasks.{TaskSpec}
use ray.GlobalScheduler.State.{LocalScheduler}
use ray.GlobalScheduler.Algorithm.{
  constraints_satisfied_hard, calculate_cost_pending, int32_min, Choice, choose_loop,
}

abbrev pub IsFeasible : TaskSpec → LocalScheduler → Type 0
IsFeasible spec l = constraints_satisfied_hard l spec ≡ true

-- No scheduler is feasible.
abbrev pub NoneFeasible : TaskSpec → List LocalScheduler → Type 0
NoneFeasible spec ls = All (λ l. constraints_satisfied_hard l spec ≡ false) ls

-- The first of the feasible schedulers with the least cost.
pub record IsBest (spec : TaskSpec) (ls : List LocalScheduler) (l : LocalScheduler) : Type 0 where
  pub before : List LocalScheduler
  pub after : List LocalScheduler
  pub split : ls ≡ before ++ l ∷ after
  pub feasible : IsFeasible spec l
  pub dearer :
      All (λ m. IsFeasible spec m → calculate_cost_pending l < calculate_cost_pending m) before
  pub no_cheaper :
      All (λ m. IsFeasible spec m → calculate_cost_pending l ≤ calculate_cost_pending m) after

abbrev pub score : LocalScheduler → ℤ
score l = pos 0 -ℤ pos (calculate_cost_pending l)

-- The loop keeps the choice that it has, or finds a better one.
abbrev pub Settles : TaskSpec → List LocalScheduler → Choice → Choice → Type 0
Settles spec ls c d =
    (All (λ m. IsFeasible spec m → score m ≤ℤ c.best_local_scheduler_score) ls
      × (d.best_local_scheduler_score ≡ c.best_local_scheduler_score)
      × (d.best_local_scheduler_id ≡ c.best_local_scheduler_id))
    ⊎ ((l : LocalScheduler) × IsBest spec ls l
        × ¬ (score l ≤ℤ c.best_local_scheduler_score)
        × (d.best_local_scheduler_id ≡ l.id))

-- The choice of a scheduler.
abbrev taken : LocalScheduler → Choice
taken l = record {
  task_feasible = true;
  best_local_scheduler_score = score l;
  best_local_scheduler_id = l.id;
}

skip :
    (spec : TaskSpec) (l : LocalScheduler) (ls : List LocalScheduler) (m : LocalScheduler)
    → IsBest spec ls m
    → (IsFeasible spec l → calculate_cost_pending m < calculate_cost_pending l)
    → IsBest spec (l ∷ ls) m
skip spec l ls m best h = record {
  before = l ∷ best.before;
  after = best.after;
  split = ap (λ t. l ∷ t) best.split;
  feasible = best.feasible;
  dearer = (h, best.dearer);
  no_cheaper = best.no_cheaper;
}

costs_of_scores :
    (spec : TaskSpec) (l : LocalScheduler) (ls : List LocalScheduler)
    → All (λ m. IsFeasible spec m → score m ≤ℤ score l) ls
    → All (λ m. IsFeasible spec m → calculate_cost_pending l ≤ calculate_cost_pending m) ls
costs_of_scores spec l [] h = tt
costs_of_scores spec l (m ∷ ms) (h, hs) =
    ((λ f. let le = h f in omega int_laws), costs_of_scores spec l ms hs)

pub choose_loop-Settles :
    (spec : TaskSpec) (ls : List LocalScheduler) (c : Choice)
    → Settles spec ls c (choose_loop spec ls c)
unfolding choose_loop
choose_loop-Settles spec [] c = inl (tt, refl, refl)
choose_loop-Settles spec (l ∷ ls) c = elim (Bool-cases (constraints_satisfied_hard l spec)) [
  | inl feasible ↦ elim (Bool-cases (ltb_ℤ c.best_local_scheduler_score (score l))) [
    | inl better ↦
        let gain = not-le_of_ltb_ℤ c.best_local_scheduler_score (score l) better in
        rw (feasible, better)
          (elim (choose_loop-Settles spec ls (taken l)) [
            | inl (none_better, e, f) ↦ inr (
              l,
              record {
                before = [];
                after = ls;
                split = refl;
                feasible = feasible;
                dearer = tt;
                no_cheaper = costs_of_scores spec l ls none_better;
              },
              gain,
              f,
            )
            | inr (m, best, more, e) ↦
                inr (m, skip spec l ls m best (λ _. omega int_laws), (λ h. omega int_laws), e)
          ])
    | inr worse ↦
        let bound = le_of_ltb_ℤ c.best_local_scheduler_score (score l) worse in
        rw (feasible, worse)
          (elim (choose_loop-Settles spec ls (record c { task_feasible = true })) [
            | inl (none_better, e, f) ↦ inl (((λ _. bound), none_better), e, f)
            | inr (m, best, more, e) ↦ inr (m, skip spec l ls m best (λ _. omega int_laws), more, e)
          ])
  ]
  | inr infeasible ↦ rw infeasible (elim (choose_loop-Settles spec ls c) [
    | inl (none_better, e, f) ↦ inl ((λ h. absurd (cc (infeasible, h)), none_better), e, f)
    | inr (m, best, better, e) ↦
        inr (m, skip spec l ls m best λ h. absurd (cc (infeasible, h)), better, e)
  ])
]

abbrev pub any_feasible : TaskSpec → List LocalScheduler → Bool
any_feasible spec [] = false
any_feasible spec (l ∷ ls) = constraints_satisfied_hard l spec || any_feasible spec ls

pub choose_loop-any_feasible :
    (spec : TaskSpec) (ls : List LocalScheduler) (c : Choice)
    → (choose_loop spec ls c).task_feasible ≡ (c.task_feasible || any_feasible spec ls)
unfolding choose_loop
choose_loop-any_feasible spec [] c = ground arith
choose_loop-any_feasible spec (l ∷ ls) c = elim (Bool-cases (constraints_satisfied_hard l spec)) [
  | inl feasible ↦ elim (Bool-cases (ltb_ℤ c.best_local_scheduler_score (score l))) [
    | inl better ↦ rw (feasible, better) (choose_loop-any_feasible spec ls (taken l) ∙ ground arith)
    | inr worse ↦
        rw (feasible, worse)
          (choose_loop-any_feasible spec ls (record c { task_feasible = true }) ∙ ground arith)
  ]
  | inr infeasible ↦ rw infeasible (choose_loop-any_feasible spec ls c)
]

pub any_feasible_none :
    (spec : TaskSpec) (ls : List LocalScheduler)
    → NoneFeasible spec ls
    → any_feasible spec ls ≡ false
any_feasible_none spec [] h = refl
any_feasible_none spec (l ∷ ls) (h, hs) = ground (arith, h, any_feasible_none spec ls hs)

pub any_feasible_some :
    (spec : TaskSpec) (before : List LocalScheduler) (l : LocalScheduler)
    (after : List LocalScheduler)
    → IsFeasible spec l
    → any_feasible spec (before ++ l ∷ after) ≡ true
any_feasible_some spec [] l after h = ground (arith, h)
any_feasible_some spec (m ∷ before) l after h =
    ground (arith, any_feasible_some spec before l after h)

pub none_feasible :
    (spec : TaskSpec) (ls : List LocalScheduler)
    → All (λ l. IsFeasible spec l → calculate_cost_pending l < 2147483648) ls
    → All (λ l. IsFeasible spec l → score l ≤ℤ int32_min) ls
    → NoneFeasible spec ls
none_feasible spec [] cheap low = tt
none_feasible spec (l ∷ ls) (c, cheap) (b, low) = (
  elim (Bool-cases (constraints_satisfied_hard l spec)) [
    | inl f ↦ let cost = c f in let bound = b f in absurd (omega int_laws)
    | inr f ↦ f
  ],
  none_feasible spec ls cheap low,
)
