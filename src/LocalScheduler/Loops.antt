-- ===== src/LocalScheduler/Loops.antt =====
-- What the loops over arguments and queues do to the registered tasks: fetch_missing_dependencies,
-- handle_object_removed and handle_driver_removed of
-- src/local_scheduler/local_scheduler_algorithm.cc.
use ray.Common.{
  ℕ, ◌+◌, ◌≡◌, refl, sym, ap, ◌∙◌, subst, true, false, inl, inr, some, List, [], ◌∷◌, ◌==◌,
  Bool-cases, arith,
}
use ray.Common.Maps.{lookup, has_key}
use ray.Tasks.{Arg, by_reference, by_value, TaskSpec, is_dependent_on}
use ray.LocalScheduler.State.{LocalSchedulerState}
use ray.LocalScheduler.Queues.{fetch_missing_dependency, fetch_loop}
use ray.LocalScheduler.Objects.{refetch_args, refetch_loop}
use ray.LocalScheduler.Waiting.{registered}
use ray.LocalScheduler.Registration.{registered-fetch_kept, registered-fetch_new}

-- What fetching leaves alone.
abbrev pub SameQueues : LocalSchedulerState → LocalSchedulerState → Type 0
SameQueues s t =
    (t.local_objects ≡ s.local_objects)
    × (t.waiting_task_queue ≡ s.waiting_task_queue)
    × (t.next_entry ≡ s.next_entry)

pub fetch_missing_dependency-SameQueues :
    (it o : ℕ) (s : LocalSchedulerState) → SameQueues s (fetch_missing_dependency it o s)
unfolding fetch_missing_dependency
fetch_missing_dependency-SameQueues it o s = (refl, refl, refl)

SameQueues-trans : (s t u : LocalSchedulerState) → SameQueues s t → SameQueues t u → SameQueues s u
SameQueues-trans s t u h k =
    let (h0, h1, h2) = h in let (k0, k1, k2) = k in (k0 ∙ h0, k1 ∙ h1, k2 ∙ h2)

-- Fetching the arguments of the task at `it`: who was registered stays so, and `it` is registered with
-- what it misses.
abbrev pub Registers : (it : ℕ) → List Arg → LocalSchedulerState → LocalSchedulerState → Type 0
Registers it args s t =
    SameQueues s t
    × ((j o : ℕ) → registered j o s.remote_objects ≡ true → registered j o t.remote_objects ≡ true)
    × ((o : ℕ)
        → is_dependent_on o args ≡ true
        → has_key o s.local_objects ≡ false
        → registered it o t.remote_objects ≡ true)

pub fetch_loop-Registers :
    (it : ℕ) (args : List Arg) (p : ℕ × LocalSchedulerState)
    → Registers it args p.1 (fetch_loop it args p).1
unfolding fetch_loop is_dependent_on
fetch_loop-Registers it [] p = ((refl, refl, refl), (λ j o h. h), λ o h k. absurd cc)
fetch_loop-Registers it (by_value ∷ args) p = fetch_loop-Registers it args p
fetch_loop-Registers it (by_reference a ∷ args) p =
    elim (Bool-cases (has_key a p.1.local_objects)) [
      | inl here ↦
          let (same, kept, new) = fetch_loop-Registers it args p in
          rw (here, fetch_loop)
            (
              same,
              kept,
              λ o h missing. elim (Bool-cases (a == o)) [
                | inl hit ↦
                    let e : a ≡ o = ground (arith, hit) in
                    let there : has_key o p.1.local_objects ≡ true =
                      ap (λ x. has_key x p.1.local_objects) (sym e) ∙ here in
                    absurd (ground (arith, there, missing))
                | inr miss ↦
                    let rest : is_dependent_on o args ≡ true = ground (arith, h, miss) in
                    new o rest missing
              ],
            )
      | inr gone ↦
          let s = p.1 in
          let s1 = fetch_missing_dependency it a s in
          let first = fetch_missing_dependency-SameQueues it a s in
          let (same, kept, new) = fetch_loop-Registers it args (p.0 + 1, s1) in
          rw (gone, fetch_loop)
            (
              SameQueues-trans s s1 (fetch_loop it args (p.0 + 1, s1)).1 first same,
              (λ j o h. kept j o (registered-fetch_kept j o it a s h)),
              λ o h missing. elim (Bool-cases (a == o)) [
                | inl hit ↦
                    let e : a ≡ o = ground (arith, hit) in
                    let now : registered it o s1.remote_objects ≡ true =
                      subst (λ x. registered it x s1.remote_objects ≡ true) e
                        (registered-fetch_new it a s) in
                    kept it o now
                | inr miss ↦
                    let rest : is_dependent_on o args ≡ true = ground (arith, h, miss) in
                    let (same_local, _, _) = first in
                    new o rest (ap (has_key o) same_local ∙ missing)
              ],
            )
    ]

-- The same of the removed object alone.
abbrev pub Refetches : (it o : ℕ) → List Arg → LocalSchedulerState → LocalSchedulerState → Type 0
Refetches it o args s t =
    SameQueues s t
    × ((j k : ℕ) → registered j k s.remote_objects ≡ true → registered j k t.remote_objects ≡ true)
    × (is_dependent_on o args ≡ true → registered it o t.remote_objects ≡ true)

refetch_args-Refetches :
    (o it : ℕ) (args : List Arg) (s : LocalSchedulerState)
    → Refetches it o args s (refetch_args o it args s)
unfolding refetch_args is_dependent_on
refetch_args-Refetches o it [] s = ((refl, refl, refl), (λ j k h. h), λ h. absurd cc)
refetch_args-Refetches o it (by_value ∷ args) s = refetch_args-Refetches o it args s
refetch_args-Refetches o it (by_reference a ∷ args) s = elim (Bool-cases (a == o)) [
  | inl hit ↦
      let s1 = fetch_missing_dependency it o s in
      let (same, kept, new) = refetch_args-Refetches o it args s1 in
      rw (hit, refetch_args)
        (
          SameQueues-trans s s1 (refetch_args o it args s1)
              (fetch_missing_dependency-SameQueues it o s) same,
          (λ j k h. kept j k (registered-fetch_kept j k it o s h)),
          λ h. kept it o (registered-fetch_new it o s),
        )
  | inr miss ↦
      let (same, kept, new) = refetch_args-Refetches o it args s in
      rw (miss, refetch_args) (same, kept, λ h. new h)
]

-- The loop over the waiting queue registers every task that depends on the removed object.
pub refetch_loop-Refetches :
    (o : ℕ) (tasks : List (ℕ × TaskSpec)) (s : LocalSchedulerState)
    → SameQueues s (refetch_loop o tasks s)
      × ((j k : ℕ)
          → registered j k s.remote_objects ≡ true
          → registered j k (refetch_loop o tasks s).remote_objects ≡ true)
      × ((it : ℕ) (spec : TaskSpec)
          → lookup it tasks ≡ some spec
          → is_dependent_on o spec.args ≡ true
          → registered it o (refetch_loop o tasks s).remote_objects ≡ true)
unfolding refetch_loop lookup
refetch_loop-Refetches o [] s = ((refl, refl, refl), (λ j k h. h), λ it spec found h. absurd cc)
refetch_loop-Refetches o ((i, first) ∷ tasks) s =
    let s1 = refetch_args o i first.args s in
    let (same1, kept1, new1) = refetch_args-Refetches o i first.args s in
    let (same, kept, new) = refetch_loop-Refetches o tasks s1 in
    (
      SameQueues-trans s s1 (refetch_loop o tasks s1) same1 same,
      (λ j k h. kept j k (kept1 j k h)),
      λ it spec found h. elim (Bool-cases (i == it)) [
        | inl hit ↦
            let e : i ≡ it = ground (arith, hit) in
            let f : some first ≡ some spec = rw hit at found in
            let g : first ≡ spec = cc in
            let d : is_dependent_on o first.args ≡ true =
              subst (λ x. is_dependent_on o x.args ≡ true) (sym g) h in
            subst (λ x. registered x o (refetch_loop o tasks s1).remote_objects ≡ true) e
              (kept i o (new1 d))
        | inr miss ↦ let f : lookup it tasks ≡ some spec = rw miss at found in new it spec f h
      ],
    )
