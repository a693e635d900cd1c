-- ===== src/LocalScheduler/Shutdown.antt =====
-- The end of the local scheduler: LocalSchedulerState_free of src/local_scheduler/local_scheduler.cc.
use ray.Common.{ℕ, zero, suc, none, true, false, List, [], ◌∷◌, length, map, Result, ok, ◌>>=◌}
use ray.LocalScheduler.State.{LocalSchedulerState, Effect, kill_process}
use ray.LocalScheduler.Workers.{back}
use ray.LocalScheduler.Clients.{kill_worker}

-- A kill for each child process that has not registered, the last first.
unfoldable pub kill_children : (child_pids : List ℕ) → List Effect → List Effect
kill_children [] effects = effects
kill_children (pid ∷ pids) effects = kill_children pids (kill_process pid ∷ effects)

-- The loop over the workers, from the last on; the number of workers is enough rounds.
unfoldable pub kill_workers : (rounds : ℕ) → LocalSchedulerState → Result LocalSchedulerState
kill_workers zero s = ok s
kill_workers (suc n) s = elim s.workers [
  | [] ↦ ok s
  | (w, worker) ∷ workers ↦
      kill_worker (back w (map (λ p. p.0) workers)) true false s >>= kill_workers n
]

-- The state when its memory is freed, which is not followed further.
unfoldable pub free_state : LocalSchedulerState → Result LocalSchedulerState
free_state s =
    kill_workers (length s.workers) (record s { effects = kill_children s.child_pids s.effects })
    >>= λ t. ok (record t { db = none })
