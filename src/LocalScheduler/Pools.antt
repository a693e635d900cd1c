-- ===== src/LocalScheduler/Pools.antt =====
-- The pools of workers: a worker stands at most once in the vectors of available, executing and
-- blocked workers of src/local_scheduler/local_scheduler_algorithm.cc.
use ray.Common.{
  ℕ, ◌+◌, ◌≤◌, ◌≡◌, refl, sym, true, false, ◌&&◌, inl, inr, List, [], ◌∷◌, ◌++◌, ok, ◌==◌, ==_refl,
  leb, Bool-cases, arith, contains, count, one, count-append, count_of_contains,
  count_of_not-contains, contains_of_count,
}
use ray.Tasks.{nil_id}
use ray.LocalScheduler.State.{LocalSchedulerClient, LocalSchedulerState}
use ray.LocalScheduler.Workers.{back, pop_back, swap_out, remove_worker_from_vector}
use ray.LocalScheduler.Actors.{handle_worker_removed, to_int}

pub count-pop_back :
    (k x : ℕ) (xs : List ℕ)
    → one (back x xs == k) + count k (pop_back x xs) ≡ one (x == k) + count k xs
unfolding back pop_back
count-pop_back k x [] = refl
count-pop_back k x (y ∷ ys) = let e = count-pop_back k y ys in omega (arith, e)

count-swap_out : (k : ℕ) (xs : List ℕ) → count k (swap_out xs) ≡ count k xs
unfolding swap_out
count-swap_out k [] = refl
count-swap_out k (x ∷ xs) = count-pop_back k x xs

pub count-remove_worker_from_vector :
    (k w : ℕ) (v : List ℕ)
    → count k (remove_worker_from_vector w v) + one (contains w v && (w == k)) ≡ count k v
unfolding remove_worker_from_vector contains
count-remove_worker_from_vector k w [] = refl
count-remove_worker_from_vector k w (x ∷ xs) =
    let e = count-remove_worker_from_vector k w xs in
    let o = count-swap_out k xs in
    elim (Bool-cases (x == w)) [
      | inl hit ↦ rw hit (ground (arith, o, hit))
      | inr miss ↦ rw miss (omega (arith, e))
    ]

abbrev pub Pooled : (available executing blocked : List ℕ) → Type 0
Pooled available executing blocked =
    (k : ℕ) → count k available + count k executing + count k blocked ≤ 1

abbrev pub IsPooled : LocalSchedulerState → Type 0
IsPooled s = Pooled s.available_workers s.executing_workers s.blocked_workers

count_snoc : (k w : ℕ) (v : List ℕ) → count k (v ++ w ∷ []) ≡ count k v + one (w == k)
count_snoc k w v = let e = count-append k v (w ∷ []) in omega (arith, e)

-- A worker that is assigned a task.
pub Pooled-dispatch :
    (w : ℕ) (ws executing blocked : List ℕ)
    → Pooled (w ∷ ws) executing blocked
    → Pooled (pop_back w ws) (executing ++ back w ws ∷ []) blocked
Pooled-dispatch w ws executing blocked h k =
    let a = h k in
    let b = count-pop_back k w ws in
    let c = count_snoc k (back w ws) executing in omega (arith, a, b, c)

-- A worker that is available again, or for the first time.
pub Pooled-available :
    (w : ℕ) (available executing blocked : List ℕ)
    → contains w available ≡ false
    → contains w blocked ≡ false
    → contains w (remove_worker_from_vector w executing) ≡ false
    → Pooled available executing blocked
    → Pooled (available ++ w ∷ []) (remove_worker_from_vector w executing) blocked
Pooled-available w available executing blocked no_a no_b no_e h k =
    let a = h k in
    let b = count-remove_worker_from_vector k w executing in
    let c = count_snoc k w available in
    elim (Bool-cases (w == k)) [
      | inr other ↦ ground (arith, a, b, c, other)
      | inl same ↦
          let here : w ≡ k = ground (arith, same) in
          let x = count_of_not-contains w available no_a in
          let y = count_of_not-contains w blocked no_b in
          let z = count_of_not-contains w (remove_worker_from_vector w executing) no_e in
          rw (sym here) (
            let c' = count_snoc w w available in
            let r = ==_refl w in ground (arith, x, y, z, c', r))
    ]

-- A worker that moves from one vector to another.
pub count_moved :
    (w : ℕ) (from to : List ℕ) (k : ℕ)
    → contains w from ≡ true
    → count k (remove_worker_from_vector w from) + count k (to ++ w ∷ [])
      ≡ count k from + count k to
count_moved w from to k h =
    let b = count-remove_worker_from_vector k w from in
    let c = count_snoc k w to in
    elim (Bool-cases (w == k)) [
      | inl same ↦ ground (arith, b, c, same, h)
      | inr other ↦ ground (arith, b, c, other, h)
    ]

pub count-remove_le : (k w : ℕ) (v : List ℕ) → count k (remove_worker_from_vector w v) ≤ count k v
count-remove_le k w v = let e = count-remove_worker_from_vector k w v in omega (arith, e)

-- In consistent pools, a worker that runs no actor is in at most one of them.
pub to_int_le :
    (w : ℕ) (a e b : List ℕ)
    → Pooled a e b
    → leb (to_int (contains w a) + to_int (contains w e) + to_int (contains w b)) 1 ≡ true
to_int_le w a e b h =
    let k = h w in
    let x = count_of_contains w a in
    let y = count_of_contains w e in
    let z = count_of_contains w b in
    elim (Bool-cases (contains w a)) [
      | inl in_a ↦ elim (Bool-cases (contains w e)) [
        | inl in_e ↦ absurd (ground (arith, k, x, y, in_a, in_e))
        | inr out_e ↦ elim (Bool-cases (contains w b)) [
          | inl in_b ↦ absurd (ground (arith, k, x, z, in_a, in_b))
          | inr out_b ↦ rw (in_a, out_e, out_b) refl
        ]
      ]
      | inr out_a ↦ elim (Bool-cases (contains w e)) [
        | inl in_e ↦ elim (Bool-cases (contains w b)) [
          | inl in_b ↦ absurd (ground (arith, k, y, z, in_e, in_b))
          | inr out_b ↦ rw (out_a, in_e, out_b) refl
        ]
        | inr out_e ↦ elim (Bool-cases (contains w b)) [
          | inl in_b ↦ rw (out_a, out_e, in_b) refl
          | inr out_b ↦ rw (out_a, out_e, out_b) refl
        ]
      ]
    ]

-- A vector that holds the worker at most once no longer holds it after its removal.
pub contains-remove_worker_from_vector :
    (w : ℕ) (v : List ℕ) → count w v ≤ 1 → contains w (remove_worker_from_vector w v) ≡ false
contains-remove_worker_from_vector w v h =
    let e = count-remove_worker_from_vector w w v in
    let r = ==_refl w in
    elim (Bool-cases (contains w v)) [
      | inl inside ↦
          let gone : count w (remove_worker_from_vector w v) ≡ 0 =
            ground (arith, e, r, inside, h) in
          contains_of_count w (remove_worker_from_vector w v) gone
      | inr outside ↦
          let none_here = count_of_not-contains w v outside in
          let gone : count w (remove_worker_from_vector w v) ≡ 0 =
            ground (arith, e, outside, none_here) in
          contains_of_count w (remove_worker_from_vector w v) gone
    ]

-- Where a worker's pool ends up after its removal.
abbrev pub Removed : (w : ℕ) → LocalSchedulerState → LocalSchedulerState → Type 0
Removed w s t =
    (count w t.available_workers + count w t.executing_workers + count w t.blocked_workers ≡ 0)
    × ((k : ℕ)
        → (w == k) ≡ false
        → (count k t.available_workers ≡ count k s.available_workers)
          × (count k t.executing_workers ≡ count k s.executing_workers)
          × (count k t.blocked_workers ≡ count k s.blocked_workers))

count_other :
    (w : ℕ) (v : List ℕ) (k : ℕ)
    → (w == k) ≡ false
    → count k (remove_worker_from_vector w v) ≡ count k v
count_other w v k other =
    let e = count-remove_worker_from_vector k w v in
    elim (Bool-cases (contains w v)) [
      | inl inside ↦ ground (arith, e, inside, other)
      | inr outside ↦ ground (arith, e, outside)
    ]

-- If each worker is in at most one of the three vectors, removing a worker that runs no actor does
-- not abort on any of its CHECKs: afterwards the worker is in none of them, and every other worker
-- is where it was.
pub handle_worker_removed-Removed :
    (w : ℕ) (worker : LocalSchedulerClient) (s : LocalSchedulerState)
    → IsPooled s
    → worker.actor_id ≡ nil_id
    → (t : LocalSchedulerState) × (handle_worker_removed w worker s ≡ ok t) × Removed w s t
unfolding handle_worker_removed
handle_worker_removed-Removed w worker s h no_actor =
    let k = h w in
    let le_a : count w s.available_workers ≤ 1 = omega (arith, k) in
    let le_e : count w s.executing_workers ≤ 1 = omega (arith, k) in
    let le_b : count w s.blocked_workers ≤ 1 = omega (arith, k) in
    let a = contains-remove_worker_from_vector w s.available_workers le_a in
    let e = contains-remove_worker_from_vector w s.executing_workers le_e in
    let b = contains-remove_worker_from_vector w s.blocked_workers le_b in
    let once = to_int_le w s.available_workers s.executing_workers s.blocked_workers h in
    let nil : (worker.actor_id == nil_id) ≡ true = ground (arith, no_actor) in
    (
      record s {
        available_workers = remove_worker_from_vector w s.available_workers;
        executing_workers = remove_worker_from_vector w s.executing_workers;
        blocked_workers = remove_worker_from_vector w s.blocked_workers;
      },
      rw (nil, a, e, b, once) refl,
      (
        (let x = count_of_not-contains w (remove_worker_from_vector w s.available_workers) a in
            let y = count_of_not-contains w (remove_worker_from_vector w s.executing_workers) e in
            let z = count_of_not-contains w (remove_worker_from_vector w s.blocked_workers) b in
            omega (arith, x, y, z)),
        λ j other. (
          count_other w s.available_workers j other,
          count_other w s.executing_workers j other,
          count_other w s.blocked_workers j other,
        ),
      ),
    )
