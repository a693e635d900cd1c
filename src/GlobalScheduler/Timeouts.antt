-- ===== src/GlobalScheduler/Timeouts.antt =====
-- The round of heartbeat_timeout_handler over all local schedulers.
use ray.Common.{
  ℕ, zero, suc, ◌+◌, ◌≡◌, refl, ap, ◌∙◌, true, false, List, [], ◌∷◌, ◌++◌, ok, inl, inr, arith,
  length, Bool-cases, ◌≤◌,
}
use ray.GlobalScheduler.State.{GlobalSchedulerState, LocalScheduler, DbCall, db_client_table_remove}
use ray.GlobalScheduler.Assignment.{ids}
use ray.GlobalScheduler.Server.{miss_heartbeat, heartbeat_loop, heartbeat_timeout_handler}
use ray.GlobalScheduler.Registry.{IsRegistered, ids-miss_heartbeat}
use ray.GlobalScheduler.Heartbeats.{
  is_dead, alive, dead, removals, step, survive, announce, survive-step, announce-step, step-length,
  check_heartbeat-Checked,
}

-- The walk from the front is the loop from the back.
heartbeat_loop-survive :
    (n : ℕ) (s : GlobalSchedulerState)
    → IsRegistered s
    → n ≤ length s.local_schedulers
    → (t : GlobalSchedulerState) × (heartbeat_loop n s ≡ ok t)
      × IsRegistered t
      × (t.local_schedulers ≡ survive n s.local_schedulers)
      × (t.db ≡ announce n s.local_schedulers s.db)
unfolding heartbeat_loop
heartbeat_loop-survive zero s registered inside = (s, refl, registered, refl, refl)
heartbeat_loop-survive (suc i) s registered inside =
    let (u, ran, checked) = check_heartbeat-Checked i s registered (omega arith) in
    let still = step-length i s.local_schedulers (omega arith) in
    let (t, ran', r, left, written) =
      heartbeat_loop-survive i u checked.registered (rw checked.schedulers still) in
    (
      t,
      rw (ran, ran'),
      r,
      left ∙ ap (survive i) checked.schedulers ∙ survive-step i s.local_schedulers,
      written
          ∙ ap (λ ls. announce i ls u.db) checked.schedulers
          ∙ ap (announce i (step i s.local_schedulers)) checked.written
          ∙ announce-step i s.local_schedulers s.db,
    )

ids-survive : (ls : List LocalScheduler) → ids (survive (length ls) ls) ≡ ids (alive ls)
ids-survive [] = refl
ids-survive (l ∷ ls) = elim (Bool-cases (is_dead l)) [
  | inl gone ↦ rw gone (ids-miss_heartbeat 0 (survive (length ls) ls) ∙ ids-survive ls)
  | inr there ↦ rw there (ap (λ t. l.id ∷ t) (ids-survive ls))
]

announce-dead :
    (ls : List LocalScheduler) (db : List DbCall)
    → announce (length ls) ls db ≡ removals (dead ls) ++ db
announce-dead [] db = refl
announce-dead (l ∷ ls) db = elim (Bool-cases (is_dead l)) [
  | inl gone ↦ rw gone (ap (λ t. db_client_table_remove l.id ∷ t) (announce-dead ls db))
  | inr there ↦ rw there (announce-dead ls db)
]

-- In a consistent registry, a round of the heartbeat timer never aborts: it removes exactly the local
-- schedulers that have missed 100 heartbeats, reports each of them to the database once, and keeps
-- the others in their order and the registry consistent.
pub heartbeat_timeout_handler-alive :
    (s : GlobalSchedulerState)
    → IsRegistered s
    → (t : GlobalSchedulerState) × (heartbeat_timeout_handler s ≡ ok t)
      × IsRegistered t
      × (ids t.local_schedulers ≡ ids (alive s.local_schedulers))
      × (t.db ≡ removals (dead s.local_schedulers) ++ s.db)
unfolding heartbeat_timeout_handler
heartbeat_timeout_handler-alive s registered =
    let (t, ran, r, left, written) =
      heartbeat_loop-survive (length s.local_schedulers) s registered (omega arith) in
    (
      t,
      ran,
      r,
      ap ids left ∙ ids-survive s.local_schedulers,
      written ∙ announce-dead s.local_schedulers s.db,
    )

-- In a consistent registry where the first local scheduler has missed 100 heartbeats and the second
-- has not, a round of the heartbeat timer counts two missed heartbeats for the second.
pub heartbeat_timeout_handler_twice :
    (s : GlobalSchedulerState) (l m : LocalScheduler) (rest : List LocalScheduler)
    → IsRegistered s
    → s.local_schedulers ≡ l ∷ m ∷ rest
    → is_dead l ≡ true
    → is_dead m ≡ false
    → (t : GlobalSchedulerState) × (heartbeat_timeout_handler s ≡ ok t)
      × (t.local_schedulers
          ≡ record m { num_heartbeats_missed = m.num_heartbeats_missed + 1 + 1 }
            ∷ survive (length rest) rest)
unfolding heartbeat_timeout_handler miss_heartbeat
heartbeat_timeout_handler_twice s l m rest registered split gone there =
    let (t, ran, r, left, written) =
      heartbeat_loop-survive (length s.local_schedulers) s registered (omega arith) in
    (t, ran, left ∙ ap (λ ls. survive (length ls) ls) split ∙ rw (gone, there))
