-- ===== src/LocalScheduler/Invariant.antt =====
-- What holds of the local scheduler between two callbacks (src/local_scheduler), and what the
-- proofs for its handlers share.
mod Tasks
mod Queueing
mod Objects
mod Arrivals
mod Actors
mod Workers
mod Clients
mod Registration
mod Messages
pub mod Events
pub mod Shutdown
use ray.Common.{
  ℕ, ◌≡◌, refl, sym, ap, ◌∙◌, Option, none, some, List, [], ◌∷◌, All, Result, ok, fatal, Ensures,
}
use ray.Common.Maps.{lookup}
use ray.LocalScheduler.State.{LocalActorInfo, LocalSchedulerState}
use ray.LocalScheduler.Accounts.{IsBalanced}
use ray.LocalScheduler.Pools.{IsPooled}
use ray.LocalScheduler.Readiness.{IsReady, IsSorted}
use ray.LocalScheduler.Waiting.{IsWaiting}

-- The queue of each actor is in the order of its counters.
abbrev pub IsOrdered : LocalSchedulerState → Type 0
IsOrdered s =
    (a : ℕ) (entry : LocalActorInfo)
    → lookup a s.local_actor_infos ≡ some entry
    → IsSorted entry.task_queue

abbrev pub IsSound : LocalSchedulerState → Type 0
IsSound s = IsBalanced s × IsPooled s × IsOrdered s

abbrev pub IsQueued : LocalSchedulerState → Type 0
IsQueued s = IsReady s × IsWaiting s

abbrev pub IsCoherent : LocalSchedulerState → Type 0
IsCoherent s = IsSound s × IsQueued s

abbrev pub SameObjects : LocalSchedulerState → LocalSchedulerState → Type 0
SameObjects s t =
    (t.local_objects ≡ s.local_objects)
    × (t.remote_objects ≡ s.remote_objects)
    × (t.waiting_task_queue ≡ s.waiting_task_queue)
    × (t.next_entry ≡ s.next_entry)

-- What the assignment of a task leaves alone.
abbrev pub Kept : LocalSchedulerState → LocalSchedulerState → Type 0
Kept s t =
    IsSound t
    × SameObjects s t
    × (t.dispatch_task_queue ≡ s.dispatch_task_queue)
    × (t.available_workers ≡ s.available_workers)

-- All but the accounts, for the moment at which a worker is gone that still holds its resources.
abbrev pub IsOrderly : LocalSchedulerState → Type 0
IsOrderly s = IsPooled s × IsOrdered s × IsQueued s

abbrev pub SameAccounts : LocalSchedulerState → LocalSchedulerState → Type 0
SameAccounts s t =
    (t.workers ≡ s.workers)
    × (t.dynamic_resources ≡ s.dynamic_resources)
    × (t.static_resources ≡ s.static_resources)

abbrev pub Reduced : LocalSchedulerState → LocalSchedulerState → Type 0
Reduced s t = IsOrderly t × SameAccounts s t

pub Ensures-found {ℓ} :
    {A : Type ℓ} (o : Option A)
    → Ensures (λ a. o ≡ some a) (elim o [ none ↦ fatal | some a ↦ ok a ])
Ensures-found none = tt
Ensures-found (some a) = refl

pub IsWaiting-of_same : (s t : LocalSchedulerState) → SameObjects s t → IsWaiting s → IsWaiting t
IsWaiting-of_same s t same h =
    let (local, remote, waiting, next) = same in
    let (unique, stuck) = h in
    (
      rw (waiting, next) unique,
      λ it spec found.
          (let was : lookup it s.waiting_task_queue ≡ some spec =
              ap (lookup it) (sym waiting) ∙ found in
            rw (local, remote) (stuck it spec was)),
    )

pub IsQueued-of_same :
    (s t : LocalSchedulerState)
    → SameObjects s t
    → t.dispatch_task_queue ≡ s.dispatch_task_queue
    → IsQueued s
    → IsQueued t
IsQueued-of_same s t same same_queue h =
    let (ready, waiting) = h in
    let (local, _, _, _) = same in
    (rw (local, same_queue) ready, IsWaiting-of_same s t same waiting)
