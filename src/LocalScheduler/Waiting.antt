-- ===== src/LocalScheduler/Waiting.antt =====
-- The waiting queue: each of its tasks misses an object, and is registered with every object that it
-- misses (the dependent tasks of src/local_scheduler/local_scheduler_algorithm.cc).
use ray.Common.{
  ℕ, ◌+◌, ◌<◌, ◌≡◌, refl, Bool, true, false, ◌⊎◌, inl, inr, Option, none, some, List, [], ◌∷◌, ◌++◌,
  map, if◌then◌else◌, ◌==◌, Bool-cases, arith, contains, Distinct,
}
use ray.Common.Maps.{lookup, erase, has_key}
use ray.Tasks.{TaskSpec, is_dependent_on}
use ray.LocalScheduler.State.{ObjectEntry, LocalSchedulerState}
use ray.LocalScheduler.Queues.{can_run}

-- A task's iterator stands among the dependent tasks of an object.
abbrev pub registered_in : (it : ℕ) → Option ObjectEntry → Bool
registered_in it none = false
registered_in it (some entry) = contains it entry.dependent_tasks

abbrev pub registered : (it object_id : ℕ) → List (ℕ × ObjectEntry) → Bool
registered it object_id remote = registered_in it (lookup object_id remote)

-- A task is registered with the objects that it misses.
abbrev pub IsRegistered : (local remote : List (ℕ × ObjectEntry)) → (it : ℕ) → TaskSpec → Type 0
IsRegistered local remote it spec =
    (object_id : ℕ)
    → is_dependent_on object_id spec.args ≡ true
    → has_key object_id local ≡ false
    → registered it object_id remote ≡ true

abbrev pub IsStuck : (local remote : List (ℕ × ObjectEntry)) → (it : ℕ) → TaskSpec → Type 0
IsStuck local remote it spec = (can_run local spec.args ≡ false) × IsRegistered local remote it spec

abbrev pub keys : List (ℕ × TaskSpec) → List ℕ
keys = map λ e. e.0

-- The iterators differ, and a fresh one is not among them.
abbrev pub IsUnique : List (ℕ × TaskSpec) → (next_entry : ℕ) → Type 0
IsUnique tasks next_entry =
    Distinct (keys tasks) × ((k : ℕ) → contains k (keys tasks) ≡ true → k < next_entry)

abbrev pub IsWaiting : LocalSchedulerState → Type 0
IsWaiting s =
    IsUnique s.waiting_task_queue s.next_entry
    × ((it : ℕ) (spec : TaskSpec)
        → lookup it s.waiting_task_queue ≡ some spec
        → IsStuck s.local_objects s.remote_objects it spec)

-- Lookups in the queue.

pub lookup_snoc :
    (it k : ℕ) (spec new : TaskSpec) (tasks : List (ℕ × TaskSpec))
    → lookup it (tasks ++ (k, new) ∷ []) ≡ some spec
    → (lookup it tasks ≡ some spec) ⊎ ((k ≡ it) × (new ≡ spec))
unfolding lookup
lookup_snoc it k spec new [] h = elim (Bool-cases (k == it)) [
  | inl hit ↦
      let e : k ≡ it = ground (arith, hit) in
      let f : some new ≡ some spec = ground (arith, h, hit) in inr (e, cc)
  | inr miss ↦ absurd (ground (arith, h, miss))
]
lookup_snoc it k spec new ((j, old) ∷ tasks) h = elim (Bool-cases (j == it)) [
  | inl hit ↦ inl (ground (arith, h, hit))
  | inr miss ↦
      let rest : lookup it (tasks ++ (k, new) ∷ []) ≡ some spec = ground (arith, h, miss) in
      elim (lookup_snoc it k spec new tasks rest) [
        | inl old_one ↦ inl (ground (arith, old_one, miss))
        | inr new_one ↦ inr new_one
      ]
]

contains-keys_snoc :
    (k j : ℕ) (new : TaskSpec) (tasks : List (ℕ × TaskSpec))
    → contains k (keys (tasks ++ (j, new) ∷ []))
      ≡ (if j == k then true else contains k (keys tasks))
unfolding contains
contains-keys_snoc k j new [] = refl
contains-keys_snoc k j new ((i, old) ∷ tasks) = ground (arith, contains-keys_snoc k j new tasks)

keys_snoc-Distinct :
    (j : ℕ) (new : TaskSpec) (tasks : List (ℕ × TaskSpec))
    → contains j (keys tasks) ≡ false
    → Distinct (keys tasks)
    → Distinct (keys (tasks ++ (j, new) ∷ []))
unfolding contains
keys_snoc-Distinct j new [] h d = (refl, tt)
keys_snoc-Distinct j new ((i, old) ∷ tasks) h d =
    let (fresh, rest) = d in
    let e = contains-keys_snoc i j new tasks in
    let other : (i == j) ≡ false = ground (arith, h) in
    let later : contains j (keys tasks) ≡ false = ground (arith, h, other) in
    (ground (arith, e, fresh, other), keys_snoc-Distinct j new tasks later rest)

pub snoc-IsUnique :
    (new : TaskSpec) (tasks : List (ℕ × TaskSpec)) (n : ℕ)
    → IsUnique tasks n
    → IsUnique (tasks ++ (n, new) ∷ []) (n + 1)
snoc-IsUnique new tasks n h =
    let (distinct, below) = h in
    (
      elim (Bool-cases (contains n (keys tasks))) [
        | inl inside ↦ let b = below n inside in absurd (omega (arith, b))
        | inr fresh ↦ keys_snoc-Distinct n new tasks fresh distinct
      ],
      λ k inside.
          (let e = contains-keys_snoc k n new tasks in
            elim (Bool-cases (n == k)) [
              | inl hit ↦ ground (arith, hit)
              | inr miss ↦
                  let old : contains k (keys tasks) ≡ true = ground (arith, e, inside, miss) in
                  let b = below k old in omega (arith, b)
            ]),
    )

-- Taking tasks out of the queue.

contains-keys-erase :
    (k j : ℕ) (tasks : List (ℕ × TaskSpec))
    → contains k (keys (erase j tasks)) ≡ true
    → contains k (keys tasks) ≡ true
unfolding contains erase
contains-keys-erase k j [] h = h
contains-keys-erase k j ((i, spec) ∷ tasks) h =
    let e = contains-keys-erase k j tasks in ground (arith, e)

keys-erase-Distinct :
    (j : ℕ) (tasks : List (ℕ × TaskSpec)) → Distinct (keys tasks) → Distinct (keys (erase j tasks))
unfolding contains erase
keys-erase-Distinct j [] d = tt
keys-erase-Distinct j ((i, spec) ∷ tasks) d =
    let (fresh, rest) = d in
    let later = keys-erase-Distinct j tasks rest in
    elim (Bool-cases (i == j)) [
      | inl hit ↦ rw hit later
      | inr miss ↦ rw miss (
        (elim (Bool-cases (contains i (keys (erase j tasks)))) [
          | inl inside ↦
              let back = contains-keys-erase i j tasks inside in
              absurd (ground (arith, back, fresh))
          | inr outside ↦ outside
        ]),
        later,
      )
    ]

pub erase-IsUnique :
    (j : ℕ) (tasks : List (ℕ × TaskSpec)) (n : ℕ) → IsUnique tasks n → IsUnique (erase j tasks) n
erase-IsUnique j tasks n h =
    let (distinct, below) = h in
    (
      keys-erase-Distinct j tasks distinct,
      λ k inside. below k (contains-keys-erase k j tasks inside),
    )
