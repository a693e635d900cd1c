-- ===== src/LocalScheduler/Invariant/Shutdown.antt =====
-- The end of the local scheduler: LocalSchedulerState_free of src/local_scheduler/local_scheduler.cc.
use ray.Common.{
  ℕ, zero, suc, ◌≡◌, refl, ap, ◌∙◌, Bool, none, List, [], ◌∷◌, Option, some, length, map, ok, ◌>>=◌,
  arith, true, false, Ensures, Ensures->>=,
}
use ray.Common.Int.{ℤ, pos, negsuc}
use ray.Common.Maps.{lookup, erase_first}
use ray.Tasks.{Resources}
use ray.LocalScheduler.State.{Env, LocalSchedulerClient, LocalSchedulerState}
use ray.LocalScheduler.Workers.{back}
use ray.LocalScheduler.Clients.{kill_worker}
use ray.LocalScheduler.Server.{Event, start_server}
use ray.LocalScheduler.Shutdown.{kill_children, kill_workers, free_state}
use ray.LocalScheduler.Accounts.{Account, sum_of, sum_of-erase_first, cpus, gpus}
use ray.LocalScheduler.Invariant.{IsCoherent}
use ray.LocalScheduler.Invariant.Clients.{Killed, kill_worker-Killed}
use ray.LocalScheduler.Invariant.Events.{start_server-IsCoherent}

length-sum_of : (ws : List (ℕ × LocalSchedulerClient)) → length ws ≡ sum_of (λ c. 1) ws
length-sum_of [] = refl
length-sum_of ((w, c) ∷ ws) = let e = length-sum_of ws in omega (arith, e)

length-erase_first :
    (w n : ℕ) (ws : List (ℕ × LocalSchedulerClient)) (c : LocalSchedulerClient)
    → lookup w ws ≡ some c
    → length ws ≡ suc n
    → length (erase_first w ws) ≡ n
length-erase_first w n ws c found long =
    let e = sum_of-erase_first (λ d. 1) w ws c found in
    let a = length-sum_of ws in
    let b = length-sum_of (erase_first w ws) in omega (arith, e, a, b, long)

no_length {ℓ} : {A : Type ℓ} (xs : List A) → length xs ≡ 0 → xs ≡ []
no_length [] h = refl
no_length (x ∷ xs) h = absurd (omega (arith, h))

-- A coherent state without clients.
abbrev Emptied : LocalSchedulerState → Type 0
Emptied t = IsCoherent t × (t.workers ≡ [])

-- One round of the loop over the workers, and those after it.
kill_next-Emptied :
    (n : ℕ) (ws : List (ℕ × LocalSchedulerClient)) (s : LocalSchedulerState)
    → length s.workers ≡ suc n
    → s.workers ≡ ws
    → IsCoherent s
    → ((t : LocalSchedulerState)
        → length t.workers ≡ n
        → IsCoherent t
        → Ensures Emptied (kill_workers n t))
    → Ensures Emptied (elim ws [
      | [] ↦ ok s
      | (w, worker) ∷ workers ↦
          kill_worker (back w (map (λ p. p.0) workers)) true false s >>= kill_workers n
    ])
kill_next-Emptied n [] s long same h rest = (h, same)
kill_next-Emptied n ((w, worker) ∷ workers) s long same h rest =
    let v = back w (map (λ p. p.0) workers) in
    Ensures->>= (Killed v s) Emptied (kill_worker v true false s) (kill_workers n)
      (kill_worker-Killed v true false s h)
      λ t (coherent, left, killed, found).
        rest t (ap length left ∙ length-erase_first v n s.workers killed found long) coherent

kill_workers-Emptied :
    (n : ℕ) (s : LocalSchedulerState)
    → length s.workers ≡ n
    → IsCoherent s
    → Ensures Emptied (kill_workers n s)
unfolding kill_workers
kill_workers-Emptied zero s long h = (h, no_length s.workers long)
kill_workers-Emptied (suc n) s long h =
    kill_next-Emptied n s.workers s long refl h (kill_workers-Emptied n)

-- What is free when nothing is in use.
all_free :
    (f : LocalSchedulerClient → ℕ) (free : ℤ) (total : ℕ) (ws : List (ℕ × LocalSchedulerClient))
    → ws ≡ []
    → Account free (sum_of f ws) total
    → free ≡ pos total
all_free f (pos n) total ws empty h =
    let e = ap (sum_of f) empty in let same : n ≡ total = omega (arith, h, e) in ap pos same
all_free f (negsuc n) total ws empty h = let e = ap (sum_of f) empty in absurd (omega (arith, h, e))

-- When the local scheduler ends after any callbacks, and nothing aborts it, its loop kills every
-- client that is left, and all CPUs and all GPUs of the node have been given back.
pub free_state-Freed :
    (env : Env) (command exists connected : Bool) (db : Option ℕ) (conf : Resources)
    (num_workers : ℕ) (events : List Event)
    → Ensures
        (λ t.
          (t.workers ≡ [])
          × (t.dynamic_resources.cpu ≡ pos t.static_resources.cpu)
          × (t.dynamic_resources.gpu ≡ pos t.static_resources.gpu))
        (start_server env command exists connected db conf num_workers events >>= free_state)
unfolding free_state
free_state-Freed env command exists connected db conf num_workers events =
    Ensures->>= IsCoherent _ (start_server env command exists connected db conf num_workers events)
      free_state (start_server-IsCoherent env command exists connected db conf num_workers events)
      λ s h.
        let killed = record s { effects = kill_children s.child_pids s.effects } in
        Ensures->>= Emptied _ (kill_workers (length s.workers) killed)
          (λ t. ok (record t { db = none })) (kill_workers-Emptied (length s.workers) killed refl h)
          λ t (((balanced, pooled, ordered), queued), empty).
            (let (cpu, gpu, nonneg) = balanced in
              (
                empty,
                all_free cpus t.dynamic_resources.cpu t.static_resources.cpu t.workers empty cpu,
                all_free gpus t.dynamic_resources.gpu t.static_resources.gpu t.workers empty gpu,
              ))
