-- ===== src/Tables/Destruction.antt =====
-- The end of all commands (destroy_outstanding_callbacks in src/common/state/table.cc).
use ray.Common.{
  ℕ, ◌≡◌, refl, ◌∙◌, false, List, [], ◌∷◌, arith, contains, Distinct, contains-remove,
  remove-Distinct, Ensures, Ensures-mono,
}
use ray.Common.Maps.{has_key-erase_lem, has_key}
use ray.Tables.State.{
  TableCallbackData, TableState, no_commands, destroy_timer_callback, destroy_table_callback,
  destroy_each, destroy_outstanding_callbacks, TableEvent, run_table_events,
}
use ray.Tables.Lives.{IsLive, run_table_events-IsLive}

no_keys {ℓ} : {V : Type ℓ} (m : List (ℕ × V)) → ((t : ℕ) → has_key t m ≡ false) → m ≡ []
unfolding has_key
no_keys [] h = refl
no_keys ((j, v) ∷ m) h = let e = h j in ground (arith, e)

no_members : (ts : List ℕ) → ((t : ℕ) → contains t ts ≡ false) → ts ≡ []
unfolding contains
no_members [] h = refl
no_members (j ∷ ts) h = let e = h j in ground (arith, e)

destroy_each-Empties :
    (m : List (ℕ × TableCallbackData)) (s : TableState)
    → Distinct s.timers
    → ((t : ℕ) → has_key t m ≡ false → has_key t s.outstanding_callbacks ≡ false)
    → ((t : ℕ) → has_key t m ≡ false → contains t s.timers ≡ false)
    → ((destroy_each m s).outstanding_callbacks ≡ []) × ((destroy_each m s).timers ≡ [])
unfolding destroy_each destroy_timer_callback destroy_table_callback has_key
destroy_each-Empties [] s distinct keys timers =
    (no_keys s.outstanding_callbacks (λ t. keys t refl), no_members s.timers (λ t. timers t refl))
destroy_each-Empties ((timer, d) ∷ m) s distinct keys timers =
    destroy_each-Empties m (destroy_timer_callback timer s)
      (remove-Distinct timer s.timers distinct)
      (λ t absent.
        let e = has_key-erase_lem timer t s.outstanding_callbacks in
        let k = keys t in ground (arith, e, k, absent))
      λ t absent.
        let e = contains-remove t timer s.timers distinct in
        let k = timers t in ground (arith, e, k, absent)

-- After any commands, timeouts and replies that do not abort, destroy_outstanding_callbacks leaves
-- no callback data and no timer.
pub destroy_outstanding_callbacks-Empties :
    (events : List TableEvent)
    → Ensures
        (λ s.
          ((destroy_outstanding_callbacks s).outstanding_callbacks ≡ [])
          × ((destroy_outstanding_callbacks s).timers ≡ []))
        (run_table_events events no_commands)
unfolding destroy_outstanding_callbacks
destroy_outstanding_callbacks-Empties events =
    Ensures-mono IsLive _ (run_table_events events no_commands)
      (λ s (distinct, same, once, fresh).
        destroy_each-Empties s.outstanding_callbacks s distinct (λ t absent. absent)
          λ t absent. same t ∙ absent)
      (run_table_events-IsLive events)
