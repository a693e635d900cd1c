-- ===== src/Tables/Retries.antt =====
-- Commands that get no answer (table_timeout_handler in src/common/state/table.cc).
use ray.Common.{
  ℕ, zero, suc, ◌≡◌, refl, sym, ap, ◌∙◌, true, none, some, List, [], ◌∷◌, ok, fatal, ◌>>=◌,
  if◌then◌else◌, ◌==◌, arith, contains, remove,
}
use ray.Common.Int.{pos, negsuc}
use ray.Common.Maps.{lookup, insert, erase, lookup-insert}
use ray.Tables.State.{
  TableCallbackData, with_num_retries, TableEffect, request, failed, TableState, give_up,
  send_again, destroy_table_callback, on_timeout, table_timeout_handler, TableEvent, timeout,
  handle_table_event, run_table_events,
}

-- The timer of a command fires some times in a row.
abbrev pub timeouts : (timer : ℕ) → (times : ℕ) → List TableEvent
timeouts timer zero = []
timeouts timer (suc n) = timeout timer ∷ timeouts timer n

-- The calls so far, and then some requests of a command.
abbrev pub resent : (timer : ℕ) → (times : ℕ) → List TableEffect → List TableEffect
resent timer zero es = es
resent timer (suc n) es = resent timer n (request timer ∷ es)

erase-insert {ℓ} :
    {V : Type ℓ} (k : ℕ) (v : V) (m : List (ℕ × V)) → erase k (insert k v m) ≡ erase k m
unfolding erase insert
erase-insert k v [] = ground arith
erase-insert k v ((j, w) ∷ m) = ground (arith, erase-insert k v m)

found_again {ℓ} : {V : Type ℓ} (k : ℕ) (v : V) (m : List (ℕ × V)) → lookup k (insert k v m) ≡ some v
found_again k v m =
    let e = lookup-insert k k v m in
    let same : (k == k) ≡ true = ground arith in e ∙ ap (λ b. if b then some v else lookup k m) same

-- The timer of an outstanding command fires.
timeout-on_timeout :
    (timer : ℕ) (d : TableCallbackData) (s : TableState)
    → contains timer s.timers ≡ true
    → lookup timer s.outstanding_callbacks ≡ some d
    → handle_table_event (timeout timer) s ≡ on_timeout timer d.retry.num_retries d s
unfolding handle_table_event table_timeout_handler
timeout-on_timeout timer d s running found =
    ap (λ b. if b then table_timeout_handler timer s else ok s) running
    ∙ ap
        (λ o. elim o [
          | none ↦ fatal
          | some callback_data ↦ on_timeout timer callback_data.retry.num_retries callback_data s
        ])
        found

-- A command with n retries left whose timer fires n + 1 times is sent n times more; then its fail
-- callback is called if there is one, its callback data is freed and its timer is gone. Nothing
-- aborts.
pub timeouts-gives_up :
    (n timer : ℕ) (d : TableCallbackData) (s : TableState)
    → contains timer s.timers ≡ true
    → lookup timer s.outstanding_callbacks ≡ some d
    → d.retry.num_retries ≡ pos n
    → run_table_events (timeouts timer (suc n)) s
      ≡ ok (record s {
        outstanding_callbacks = erase timer s.outstanding_callbacks;
        timers = remove timer s.timers;
        effects =
            if d.retry.fail_callback
            then failed timer ∷ resent timer n s.effects
            else resent timer n s.effects;
      })
unfolding run_table_events on_timeout give_up destroy_table_callback send_again
timeouts-gives_up zero timer d s running found left =
    ap (λ r. r >>= run_table_events [])
      (timeout-on_timeout timer d s running found ∙ ap (λ z. on_timeout timer z d s) left)
timeouts-gives_up (suc n) timer d s running found left =
    let d' = with_num_retries (pos n) d in
    ap (λ r. r >>= run_table_events (timeouts timer (suc n)))
      (timeout-on_timeout timer d s running found ∙ ap (λ z. on_timeout timer z d s) left)
    ∙ timeouts-gives_up n timer d' (send_again timer (pos n) d s) running
        (found_again timer d' s.outstanding_callbacks) refl
    ∙ ap
        (λ m. ok (record s {
          outstanding_callbacks = m;
          timers = remove timer s.timers;
          effects =
              if d.retry.fail_callback
              then failed timer ∷ resent timer (suc n) s.effects
              else resent timer (suc n) s.effects;
        }))
        (erase-insert timer d' s.outstanding_callbacks)

-- A command that is retried forever is sent again each time its timer fires, and stays outstanding.
pub timeouts-forever :
    (n timer : ℕ) (d : TableCallbackData) (s : TableState)
    → contains timer s.timers ≡ true
    → lookup timer s.outstanding_callbacks ≡ some d
    → d.retry.num_retries ≡ negsuc zero
    → (outstanding : List (ℕ × TableCallbackData)) × (run_table_events (timeouts timer n) s
        ≡ ok (record s { outstanding_callbacks = outstanding; effects = resent timer n s.effects }))
      × (lookup timer outstanding ≡ some d)
unfolding run_table_events on_timeout send_again
timeouts-forever zero timer d s running found left = (s.outstanding_callbacks, refl, found)
timeouts-forever (suc n) timer d s running found left =
    let d' = with_num_retries (negsuc zero) d in
    let (outstanding, ran, kept) =
      timeouts-forever n timer d' (send_again timer (negsuc zero) d s) running
        (found_again timer d' s.outstanding_callbacks) refl in
    (
      outstanding,
      ap (λ r. r >>= run_table_events (timeouts timer n))
            (timeout-on_timeout timer d s running found ∙ ap (λ z. on_timeout timer z d s) left)
          ∙ ran,
      kept ∙ ap (λ z. some (with_num_retries z d)) (sym left),
    )
