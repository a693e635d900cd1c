-- ===== src/GlobalScheduler/Heartbeats.antt =====
-- What heartbeat_timeout_handler does to the local schedulers.
use ray.Common.{
  count, ℕ, zero, suc, ◌+◌, ◌<◌, ◌≡◌, refl, ap, ◌∙◌, sym, Bool, true, false, Option, none, some,
  List, [], ◌∷◌, map, ok, inl, inr, if◌then◌else◌, arith, length, get_elem?, Bool-cases, leb, ◌≤◌,
}
use ray.GlobalScheduler.State.{GlobalSchedulerState, LocalScheduler, DbCall, db_client_table_remove}
use ray.GlobalScheduler.Server.{erase_elem, miss_heartbeat, num_heartbeats_timeout, check_heartbeat}
use ray.GlobalScheduler.Registry.{
  IsRegistered, remove_local_scheduler-IsRegistered, ids-miss_heartbeat,
}

abbrev pub is_dead : LocalScheduler → Bool
is_dead l = leb num_heartbeats_timeout l.num_heartbeats_missed

abbrev pub alive : List LocalScheduler → List LocalScheduler
alive [] = []
alive (l ∷ ls) = if is_dead l then alive ls else l ∷ alive ls

abbrev pub dead : List LocalScheduler → List LocalScheduler
dead [] = []
dead (l ∷ ls) = if is_dead l then l ∷ dead ls else dead ls

abbrev pub removals : List LocalScheduler → List DbCall
removals = map λ l. db_client_table_remove l.id

-- A round at a scheduler and those behind it: the code's pointer is at the next one if it erased.
abbrev pub passed : LocalScheduler → List LocalScheduler → List LocalScheduler
passed l rest =
    if is_dead l
    then miss_heartbeat 0 rest
    else record l { num_heartbeats_missed = l.num_heartbeats_missed + 1 } ∷ rest

-- One round at an index.
abbrev pub step : ℕ → List LocalScheduler → List LocalScheduler
step i [] = []
step zero (l ∷ ls) = passed l ls
step (suc i) (l ∷ ls) = l ∷ step i ls

-- All rounds below an index, as one walk from the front.
abbrev pub survive : ℕ → List LocalScheduler → List LocalScheduler
survive zero ls = ls
survive (suc n) [] = []
survive (suc n) (l ∷ ls) = passed l (survive n ls)

step-dead :
    (i : ℕ) (ls : List LocalScheduler) (l : LocalScheduler)
    → get_elem? ls i ≡ some l
    → is_dead l ≡ true
    → miss_heartbeat i (erase_elem i ls) ≡ step i ls
unfolding miss_heartbeat erase_elem
step-dead i [] l h d = cc
step-dead zero (m ∷ ls) l h d = let e : is_dead m ≡ true = ground (arith, h, d) in rw e refl
step-dead (suc i) (m ∷ ls) l h d = ap (λ t. m ∷ t) (step-dead i ls l h d)

step-alive :
    (i : ℕ) (ls : List LocalScheduler) (l : LocalScheduler)
    → get_elem? ls i ≡ some l
    → is_dead l ≡ false
    → miss_heartbeat i ls ≡ step i ls
unfolding miss_heartbeat
step-alive i [] l h d = cc
step-alive zero (m ∷ ls) l h d = let e : is_dead m ≡ false = ground (arith, h, d) in rw e refl
step-alive (suc i) (m ∷ ls) l h d = ap (λ t. m ∷ t) (step-alive i ls l h d)

pub survive-step : (i : ℕ) (ls : List LocalScheduler) → survive i (step i ls) ≡ survive (suc i) ls
survive-step zero [] = refl
survive-step zero (l ∷ ls) = refl
survive-step (suc i) [] = refl
survive-step (suc i) (l ∷ ls) = ap (passed l) (survive-step i ls)

-- The database hears of each dead scheduler: of the first last.
abbrev pub announce : ℕ → List LocalScheduler → List DbCall → List DbCall
announce zero ls db = db
announce (suc n) [] db = db
announce (suc n) (l ∷ ls) db =
    if is_dead l then db_client_table_remove l.id ∷ announce n ls db else announce n ls db

abbrev announce_at : ℕ → List LocalScheduler → List DbCall → List DbCall
announce_at i [] db = db
announce_at zero (l ∷ ls) db = if is_dead l then db_client_table_remove l.id ∷ db else db
announce_at (suc i) (l ∷ ls) db = announce_at i ls db

pub announce-step :
    (i : ℕ) (ls : List LocalScheduler) (db : List DbCall)
    → announce i (step i ls) (announce_at i ls db) ≡ announce (suc i) ls db
announce-step zero [] db = refl
announce-step zero (l ∷ ls) db = refl
announce-step (suc i) [] db = refl
announce-step (suc i) (l ∷ ls) db =
    ap (λ t. if is_dead l then db_client_table_remove l.id ∷ t else t) (announce-step i ls db)

announce_at-dead :
    (i : ℕ) (ls : List LocalScheduler) (l : LocalScheduler) (db : List DbCall)
    → get_elem? ls i ≡ some l
    → announce_at i ls db ≡ (if is_dead l then db_client_table_remove l.id ∷ db else db)
announce_at-dead i [] l db h = cc
announce_at-dead zero (m ∷ ls) l db h =
    ap
      (λ (o : Option LocalScheduler). elim o [
        | none ↦ db
        | some l ↦ if is_dead l then db_client_table_remove l.id ∷ db else db
      ])
      h
announce_at-dead (suc i) (m ∷ ls) l db h = announce_at-dead i ls l db h

in_range :
    (i : ℕ) (ls : List LocalScheduler)
    → i < length ls
    → (l : LocalScheduler) × (get_elem? ls i ≡ some l)
in_range i [] h = absurd (omega arith)
in_range zero (l ∷ ls) h = (l, refl)
in_range (suc i) (l ∷ ls) h = in_range i ls (omega arith)

pub step-length : (i : ℕ) (ls : List LocalScheduler) → i < length ls → i ≤ length (step i ls)
step-length i [] h = omega arith
step-length zero (l ∷ ls) h = omega arith
step-length (suc i) (l ∷ ls) h = let le = step-length i ls (omega arith) in omega (arith, le)

-- What one round leaves.
pub record Checked (i : ℕ) (s t : GlobalSchedulerState) : Type 0 where
  pub registered : IsRegistered t
  pub schedulers : t.local_schedulers ≡ step i s.local_schedulers
  pub written : t.db ≡ announce_at i s.local_schedulers s.db

pub check_heartbeat-Checked :
    (i : ℕ) (s : GlobalSchedulerState)
    → IsRegistered s
    → i < length s.local_schedulers
    → (t : GlobalSchedulerState) × (check_heartbeat i s ≡ ok t) × Checked i s t
unfolding check_heartbeat
check_heartbeat-Checked i s registered inside =
    let (l, found) = in_range i s.local_schedulers inside in
    let log = announce_at-dead i s.local_schedulers l s.db found in
    elim (Bool-cases (is_dead l)) [
      | inl gone ↦
          let s' : GlobalSchedulerState = record s { db = db_client_table_remove l.id ∷ s.db } in
          let (t, ran, r, erased, db) =
            remove_local_scheduler-IsRegistered i s' l registered found in
          (
            record t { local_schedulers = miss_heartbeat i t.local_schedulers },
            rw (found, check_heartbeat, gone, ran),
            record {
              registered = λ k. (ap (count k) (ids-miss_heartbeat i t.local_schedulers) ∙ r k);
              schedulers =
                  ap (miss_heartbeat i) erased ∙ step-dead i s.local_schedulers l found gone;
              written = db ∙ sym (log ∙ rw gone);
            },
          )
      | inr there ↦ (
        record s { local_schedulers = miss_heartbeat i s.local_schedulers },
        rw (found, check_heartbeat, there),
        record {
          registered = λ k. (ap (count k) (ids-miss_heartbeat i s.local_schedulers) ∙ registered k);
          schedulers = step-alive i s.local_schedulers l found there;
          written = sym (log ∙ rw there);
        },
      )
    ]
