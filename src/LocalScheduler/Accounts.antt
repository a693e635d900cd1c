-- ===== src/LocalScheduler/Accounts.antt =====
-- The accounts of resources: what is free and what the workers use add up to what the node has
-- (acquire_resources and release_resources of src/local_scheduler/local_scheduler.cc).
use ray.Common.{
  ℕ, ◌+◌, ◌≡◌, refl, inl, inr, some, List, [], ◌∷◌, ◌++◌, Ensures, Ensures-check, ◌==◌, Bool-cases,
  arith, ◌⊎◌,
}
use ray.Common.Int.{
  ℤ, pos, negsuc, pos_part, neg_part, ◌+ℤ◌, ◌-ℤ◌, +ℤ_parts, -ℤ_parts, leb_ℤ, le_of_leb_ℤ,
}
use ray.Common.Maps.{lookup, insert, erase_first}
use ray.LocalScheduler.State.{LocalSchedulerClient, DynamicResources, LocalSchedulerState}
use ray.LocalScheduler.Workers.{acquire_gpus, acquire_resources, release_gpus, release_resources}

-- The sum over the clients of a quantity.
abbrev pub sum_of : (LocalSchedulerClient → ℕ) → List (ℕ × LocalSchedulerClient) → ℕ
sum_of f [] = 0
sum_of f ((w, c) ∷ ws) = f c + sum_of f ws

abbrev pub cpus : LocalSchedulerClient → ℕ
cpus c = c.cpus_in_use

abbrev pub gpus : LocalSchedulerClient → ℕ
gpus c = c.gpus_in_use

pub sum_of-insert :
    (f : LocalSchedulerClient → ℕ) (w : ℕ) (new : LocalSchedulerClient)
    (ws : List (ℕ × LocalSchedulerClient)) (old : LocalSchedulerClient)
    → lookup w ws ≡ some old
    → sum_of f (insert w new ws) + f old ≡ sum_of f ws + f new
unfolding lookup insert
sum_of-insert f w new [] old h = cc
sum_of-insert f w new ((v, c) ∷ ws) old h = elim (Bool-cases (v == w)) [
  | inl hit ↦ ground (arith, hit, h)
  | inr miss ↦
      let rest : lookup w ws ≡ some old = ground (arith, miss, h) in
      let e = sum_of-insert f w new ws old rest in rw miss (omega (arith, e))
]

pub sum_of-erase_first :
    (f : LocalSchedulerClient → ℕ) (w : ℕ) (ws : List (ℕ × LocalSchedulerClient))
    (old : LocalSchedulerClient)
    → lookup w ws ≡ some old
    → sum_of f (erase_first w ws) + f old ≡ sum_of f ws
unfolding lookup erase_first
sum_of-erase_first f w [] old h = cc
sum_of-erase_first f w ((v, c) ∷ ws) old h = elim (Bool-cases (v == w)) [
  | inl hit ↦ ground (arith, hit, h)
  | inr miss ↦
      let rest : lookup w ws ≡ some old = ground (arith, miss, h) in
      let e = sum_of-erase_first f w ws old rest in rw miss (omega (arith, e))
]

pub sum_of-append :
    (f : LocalSchedulerClient → ℕ) (w : ℕ) (new : LocalSchedulerClient)
    (ws : List (ℕ × LocalSchedulerClient))
    → sum_of f (ws ++ (w, new) ∷ []) ≡ sum_of f ws + f new
sum_of-append f w new [] = omega arith
sum_of-append f w new ((v, c) ∷ ws) = let e = sum_of-append f w new ws in omega (arith, e)

-- free + used = total
abbrev pub Account : (free : ℤ) → (used total : ℕ) → Type 0
Account free used total = pos_part free + used ≡ total + neg_part free

abbrev pub IsBalanced : LocalSchedulerState → Type 0
IsBalanced s =
    Account s.dynamic_resources.cpu (sum_of cpus s.workers) s.static_resources.cpu
    × Account s.dynamic_resources.gpu (sum_of gpus s.workers) s.static_resources.gpu
    × (neg_part s.dynamic_resources.gpu ≡ 0)

-- free' + used' = free + used
abbrev pub Same : (free : ℤ) → (used : ℕ) → (free' : ℤ) → (used' : ℕ) → Type 0
Same free used free' used' =
    pos_part free' + neg_part free + used' ≡ pos_part free + neg_part free' + used

-- What a client takes the node loses, and the other way round; free GPUs stay at zero or more.
abbrev pub Moves :
    LocalSchedulerClient → DynamicResources → LocalSchedulerClient × DynamicResources → Type 0
Moves c d p =
    Same d.cpu c.cpus_in_use p.1.cpu p.0.cpus_in_use
    × Same d.gpu c.gpus_in_use p.1.gpu p.0.gpus_in_use
    × (neg_part d.gpu ≡ 0 → neg_part p.1.gpu ≡ 0)

-- One of the two parts of an integer is zero.
parts_lem : (a : ℤ) → (pos_part a ≡ 0) ⊎ (neg_part a ≡ 0)
parts_lem (pos n) = inr refl
parts_lem (negsuc n) = inl refl

pub acquire_resources-Moves :
    (num_cpus num_gpus : ℕ) (c : LocalSchedulerClient) (d : DynamicResources)
    → Ensures (Moves c d) (acquire_resources num_cpus num_gpus c d)
unfolding acquire_resources acquire_gpus
acquire_resources-Moves num_cpus num_gpus c d =
    Ensures-check (c.cpus_in_use == 0) (Moves c d) _ λ idle.
      (let e = -ℤ_parts d.cpu (pos num_cpus) in
        let g = -ℤ_parts d.gpu (pos num_gpus) in
        elim (Bool-cases (num_gpus == 0)) [
          | inl zero_gpus ↦ rw zero_gpus (omega (arith, e), omega arith, λ z. z)
          | inr some_gpus ↦ rw some_gpus (
              Ensures-check (c.gpus_in_use == 0) (Moves c d) _ λ unused.
                Ensures-check (leb_ℤ (pos num_gpus) d.gpu) (Moves c d) _ λ enough.
                  (let le = le_of_leb_ℤ (pos num_gpus) d.gpu enough in
                    (
                      omega (arith, e),
                      omega (arith, g),
                      λ z. omega (arith, g, le, z, parts_lem (d.gpu -ℤ pos num_gpus)),
                    )))
        ])

pub release_resources-Moves :
    (num_cpus num_gpus : ℕ) (c : LocalSchedulerClient) (d : DynamicResources)
    → Ensures (Moves c d) (release_resources num_cpus num_gpus c d)
unfolding release_resources release_gpus
release_resources-Moves num_cpus num_gpus c d =
    Ensures-check (num_cpus == c.cpus_in_use) (Moves c d) _ λ all.
      (let e = +ℤ_parts d.cpu (pos num_cpus) in
        let g = +ℤ_parts d.gpu (pos num_gpus) in
        let a : num_cpus ≡ c.cpus_in_use = ground (arith, all) in
        elim (Bool-cases (num_gpus == 0)) [
          | inl zero_gpus ↦ rw zero_gpus (omega (arith, e, a), omega arith, λ z. z)
          | inr some_gpus ↦ rw some_gpus (
              Ensures-check (num_gpus == c.gpus_in_use) (Moves c d) _ λ same.
                (let b : num_gpus ≡ c.gpus_in_use = ground (arith, same) in
                  (
                    omega (arith, e, a),
                    omega (arith, g, b),
                    λ z. omega (arith, g, z, parts_lem (d.gpu +ℤ pos num_gpus)),
                  )))
        ])

-- A client that returns what it uses uses nothing.
abbrev pub UsesNothing : LocalSchedulerClient × DynamicResources → Type 0
UsesNothing p = (p.0.cpus_in_use ≡ 0) × (p.0.gpus_in_use ≡ 0)

pub release_resources-UsesNothing :
    (c : LocalSchedulerClient) (d : DynamicResources)
    → Ensures UsesNothing (release_resources c.cpus_in_use c.gpus_in_use c d)
unfolding release_resources release_gpus
release_resources-UsesNothing c d =
    Ensures-check (c.cpus_in_use == c.cpus_in_use) UsesNothing _ λ _.
      elim (Bool-cases (c.gpus_in_use == 0)) [
        | inl zero_gpus ↦ rw zero_gpus (refl, ground (arith, zero_gpus))
        | inr some_gpus ↦
            rw some_gpus
              (Ensures-check (c.gpus_in_use == c.gpus_in_use) UsesNothing _ λ _. (refl, refl))
      ]

-- A client that the move has changed goes back into the list.
pub set_worker-IsBalanced :
    (w : ℕ) (s : LocalSchedulerState) (c : LocalSchedulerClient)
    (p : LocalSchedulerClient × DynamicResources) (c' : LocalSchedulerClient)
    → IsBalanced s
    → lookup w s.workers ≡ some c
    → Moves c s.dynamic_resources p
    → cpus c' ≡ cpus p.0
    → gpus c' ≡ gpus p.0
    → IsBalanced (record s { workers = insert w c' s.workers; dynamic_resources = p.1 })
set_worker-IsBalanced w s c p c' h found moved same_cpus same_gpus =
    let a = sum_of-insert cpus w c' s.workers c found in
    let b = sum_of-insert gpus w c' s.workers c found in
    let (h0, h1, h2) = h in
    let (m0, m1, m2) = moved in
    (omega (arith, a, h0, m0, same_cpus), omega (arith, b, h1, m1, same_gpus), m2 h2)

-- A client that has returned everything leaves the list.
pub erase_first-IsBalanced :
    (w : ℕ) (s : LocalSchedulerState) (c : LocalSchedulerClient)
    (p : LocalSchedulerClient × DynamicResources)
    → IsBalanced s
    → lookup w s.workers ≡ some c
    → Moves c s.dynamic_resources p
    → UsesNothing p
    → IsBalanced (record s { workers = erase_first w s.workers; dynamic_resources = p.1 })
erase_first-IsBalanced w s c p h found moved nothing =
    let a = sum_of-erase_first cpus w s.workers c found in
    let b = sum_of-erase_first gpus w s.workers c found in
    let (h0, h1, h2) = h in
    let (m0, m1, m2) = moved in
    let (n0, n1) = nothing in (omega (arith, a, h0, m0, n0), omega (arith, b, h1, m1, n1), m2 h2)
