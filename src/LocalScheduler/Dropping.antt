-- ===== src/LocalScheduler/Dropping.antt =====
-- What handle_driver_removed leaves of the waiting queue and of the registered tasks:
-- src/local_scheduler/local_scheduler_algorithm.cc.
use ray.Common.{
  ℕ, ◌≡◌, refl, sym, ap, ◌∙◌, subst, true, false, inl, inr, some, List, [], ◌∷◌, if◌then◌else◌,
  ◌==◌, Bool-cases, arith, contains, Distinct, fatal, Ensures, Ensures->>=, Ensures-option,
}
use ray.Common.Maps.{lookup}
use ray.Tasks.{TaskSpec}
use ray.LocalScheduler.State.{ObjectEntry}
use ray.LocalScheduler.Queues.{is_empty}
use ray.LocalScheduler.Objects.{drop_waiting, drop_dependents, drop_fetches}
use ray.LocalScheduler.Waiting.{registered, registered_in, keys, IsUnique}

contains-keys_drop :
    (k d : ℕ) (tasks : List (ℕ × TaskSpec))
    → contains k (keys (drop_waiting d tasks)) ≡ true
    → contains k (keys tasks) ≡ true
unfolding contains drop_waiting
contains-keys_drop k d [] h = h
contains-keys_drop k d ((i, spec) ∷ tasks) h =
    let e = contains-keys_drop k d tasks in
    elim (Bool-cases (spec.driver_id == d)) [
      | inl dead ↦ ground (arith, e, h, dead)
      | inr alive ↦ ground (arith, e, h, alive)
    ]

keys_drop-Distinct :
    (d : ℕ) (tasks : List (ℕ × TaskSpec))
    → Distinct (keys tasks)
    → Distinct (keys (drop_waiting d tasks))
unfolding contains drop_waiting
keys_drop-Distinct d [] h = tt
keys_drop-Distinct d ((i, spec) ∷ tasks) h =
    let (fresh, rest) = h in
    let later = keys_drop-Distinct d tasks rest in
    elim (Bool-cases (spec.driver_id == d)) [
      | inl dead ↦ rw dead later
      | inr alive ↦ rw alive (
        (elim (Bool-cases (contains i (keys (drop_waiting d tasks)))) [
          | inl inside ↦
              let back = contains-keys_drop i d tasks inside in absurd (ground (arith, back, fresh))
          | inr outside ↦ outside
        ]),
        later,
      )
    ]

pub drop_waiting-IsUnique :
    (d : ℕ) (tasks : List (ℕ × TaskSpec)) (n : ℕ)
    → IsUnique tasks n
    → IsUnique (drop_waiting d tasks) n
drop_waiting-IsUnique d tasks n h =
    let (distinct, below) = h in
    (keys_drop-Distinct d tasks distinct, λ k inside. below k (contains-keys_drop k d tasks inside))

lookup-contains :
    (it : ℕ) (tasks : List (ℕ × TaskSpec)) (spec : TaskSpec)
    → lookup it tasks ≡ some spec
    → contains it (keys tasks) ≡ true
unfolding lookup contains
lookup-contains it [] spec h = cc
lookup-contains it ((i, old) ∷ tasks) spec h =
    let e = lookup-contains it tasks spec in ground (arith, e, h)

-- A task that is left was there, and is another driver's.
pub lookup-drop_waiting :
    (d it : ℕ) (tasks : List (ℕ × TaskSpec)) (spec : TaskSpec)
    → Distinct (keys tasks)
    → lookup it (drop_waiting d tasks) ≡ some spec
    → (lookup it tasks ≡ some spec) × ((spec.driver_id == d) ≡ false)
unfolding lookup drop_waiting
lookup-drop_waiting d it [] spec h found = absurd cc
lookup-drop_waiting d it ((i, first) ∷ tasks) spec h found =
    let (fresh, rest) = h in
    elim (Bool-cases (first.driver_id == d)) [
      | inl dead ↦
          let f : lookup it (drop_waiting d tasks) ≡ some spec = rw dead at found in
          let (was, other) = lookup-drop_waiting d it tasks spec rest f in
          let inside = lookup-contains it tasks spec was in
          elim (Bool-cases (i == it)) [
            | inl hit ↦
                let e : i ≡ it = ground (arith, hit) in
                let again : contains i (keys tasks) ≡ true =
                  ap (λ x. contains x (keys tasks)) e ∙ inside in
                absurd (ground (arith, again, fresh))
            | inr miss ↦ (rw miss was, other)
          ]
      | inr alive ↦ elim (Bool-cases (i == it)) [
        | inl hit ↦
            let f : some first ≡ some spec = rw (alive, lookup, hit) at found in
            let g : first ≡ spec = cc in (rw hit f, subst (λ x. (x.driver_id == d) ≡ false) g alive)
        | inr miss ↦
            let f : lookup it (drop_waiting d tasks) ≡ some spec =
              rw (alive, lookup, miss) at found in
            let (was, other) = lookup-drop_waiting d it tasks spec rest f in (rw miss was, other)
      ]
    ]

-- The tasks of the other drivers stay registered.

abbrev Keeps : (d : ℕ) → List (ℕ × TaskSpec) → List ℕ → List ℕ → Type 0
Keeps d waiting its rest =
    (it : ℕ) (spec : TaskSpec)
    → contains it its ≡ true
    → lookup it waiting ≡ some spec
    → (spec.driver_id == d) ≡ false
    → contains it rest ≡ true

drop_dependents-Keeps :
    (d : ℕ) (waiting : List (ℕ × TaskSpec)) (its : List ℕ)
    → Ensures (Keeps d waiting its) (drop_dependents d waiting its)
unfolding drop_dependents contains
drop_dependents-Keeps d waiting [] = λ it spec h found other. absurd cc
drop_dependents-Keeps d waiting (i ∷ its) =
    Ensures-option (lookup i waiting) (Keeps d waiting (i ∷ its)) fatal _ (λ _. tt)
      λ first known.
        Ensures->>= (Keeps d waiting its) (Keeps d waiting (i ∷ its))
          (drop_dependents d waiting its) _ (drop_dependents-Keeps d waiting its)
          λ rest k it spec h found other. elim (Bool-cases (i == it)) [
            | inl hit ↦
                let e : i ≡ it = ground (arith, hit) in
                let f : some first ≡ some spec = sym known ∙ ap (λ x. lookup x waiting) e ∙ found in
                let g : first ≡ spec = cc in
                let alive : (first.driver_id == d) ≡ false =
                  subst (λ x. (x.driver_id == d) ≡ false) (sym g) other in
                rw (alive, contains, hit) refl
            | inr miss ↦
                let inside : contains it its ≡ true = rw miss at h in
                let kept = k it spec inside found other in
                elim (Bool-cases (first.driver_id == d)) [
                  | inl dead ↦ rw dead kept
                  | inr alive ↦ rw (alive, contains, miss) kept
                ]
          ]

abbrev pub KeepsAll :
    (d : ℕ) → List (ℕ × TaskSpec) → List (ℕ × ObjectEntry) → List (ℕ × ObjectEntry) → Type 0
KeepsAll d waiting entries rest =
    (it o : ℕ) (spec : TaskSpec)
    → registered it o entries ≡ true
    → lookup it waiting ≡ some spec
    → (spec.driver_id == d) ≡ false
    → registered it o rest ≡ true

not-is_empty : (it : ℕ) (its : List ℕ) → contains it its ≡ true → is_empty its ≡ false
unfolding contains
not-is_empty it [] h = cc
not-is_empty it (i ∷ its) h = refl

pub drop_fetches-KeepsAll :
    (d : ℕ) (waiting : List (ℕ × TaskSpec)) (entries : List (ℕ × ObjectEntry))
    → Ensures (KeepsAll d waiting entries) (drop_fetches d waiting entries)
unfolding drop_fetches lookup
drop_fetches-KeepsAll d waiting [] = λ it o spec h found other. h
drop_fetches-KeepsAll d waiting ((k, entry) ∷ entries) =
    Ensures->>= (Keeps d waiting entry.dependent_tasks) (KeepsAll d waiting ((k, entry) ∷ entries))
      (drop_dependents d waiting entry.dependent_tasks) _
      (drop_dependents-Keeps d waiting entry.dependent_tasks)
      λ its kept.
        Ensures->>= (KeepsAll d waiting entries) (KeepsAll d waiting ((k, entry) ∷ entries))
          (drop_fetches d waiting entries) _ (drop_fetches-KeepsAll d waiting entries)
          λ rest kept_rest it o spec h found other. elim (Bool-cases (k == o)) [
            | inl hit ↦
                let inside : contains it entry.dependent_tasks ≡ true =
                  subst (λ b. registered_in it (if b then some entry else lookup o entries) ≡ true)
                    hit h in
                let stays = kept it spec inside found other in
                let full = not-is_empty it its stays in rw (full, lookup, hit) stays
            | inr miss ↦
                let later : registered it o entries ≡ true =
                  subst (λ b. registered_in it (if b then some entry else lookup o entries) ≡ true)
                    miss h in
                let stays = kept_rest it o spec later found other in
                elim (Bool-cases (is_empty its)) [
                  | inl empty ↦ rw empty stays
                  | inr full ↦ rw (full, lookup, miss) stays
                ]
          ]
