-- ===== src/Tables/Tests.antt =====
-- Runs of commands to the database, and instances of the theorems.
use ray.Common.{
  ℕ, ◌≡◌, refl, true, false, none, some, List, [], ◌∷◌, Result, ok, fatal, contains, remove,
  Ensures,
}
use ray.Common.Int.{pos}
use ray.Common.Maps.{lookup, insert, erase}
use ray.Tables.State.{
  RetryInfo, default_retry, retry_or_default, TableCallbackData, TableEffect, request, failed, done,
  TableState, destroy_outstanding_callbacks, no_commands, init_table_callback,
  destroy_table_callback, destroy_timer_callback, give_up, send_again, on_timeout,
  table_timeout_handler, accepted, object_not_found, finish, on_add_reply, on_remove_reply,
  redis_object_table_add_callback, redis_object_table_remove_callback, TableEvent, issue, timeout,
  add_reply, remove_reply, handle_table_event, run_table_events,
}
use ray.Tables.Lives.{IsLive, run_table_events-IsLive}
use ray.Tables.Destruction.{destroy_outstanding_callbacks-Empties}
use ray.Tables.Retries.{timeouts, resent, timeouts-gives_up, timeouts-forever}

program : Unit {0}
unfolding contains remove lookup insert erase retry_or_default init_table_callback
    destroy_table_callback destroy_timer_callback give_up send_again on_timeout
    table_timeout_handler finish on_add_reply on_remove_reply redis_object_table_add_callback
    redis_object_table_remove_callback handle_table_event run_table_events
program = tt

abbrev one_retry : RetryInfo
one_retry = record { num_retries = pos 1; timeout = 100; fail_callback = true }

-- The first command is answered after a retry, the second gives up; then a late reply comes.
abbrev commands : List TableEvent
commands =
    issue (some one_retry) true
    ∷ issue (some one_retry) true
    ∷ timeout 0
    ∷ timeout 1
    ∷ add_reply 0 accepted
    ∷ timeout 1
    ∷ add_reply 1 accepted
    ∷ []

abbrev calls : Result TableState → List TableEffect
calls fatal = []
calls (ok s) = s.effects

commands_calls :
    calls (run_table_events commands no_commands)
    ≡ failed 1 ∷ done 0 true ∷ request 1 ∷ request 0 ∷ request 1 ∷ request 0 ∷ []
unfolding program
commands_calls = refl

-- A command to remove an object that the table does not have is not done, and is sent again.
not_found_calls :
    calls (
      run_table_events
        (issue none true ∷ remove_reply 0 object_not_found ∷ timeout 0 ∷ [])
        no_commands)
    ≡ request 0 ∷ request 0 ∷ []
unfolding program
not_found_calls = refl

abbrev one_command : TableState
one_command = record {
  outstanding_callbacks = (0, record { retry = one_retry; done_callback = true }) ∷ [];
  timers = 0 ∷ [];
  next_timer = 1;
  effects = request 0 ∷ [];
}

abbrev forever : TableCallbackData
forever = record { retry = default_retry; done_callback = false }

abbrev one_forever : TableState
one_forever = record one_command { outstanding_callbacks = (0, forever) ∷ [] }

run_table_events-IsLive_example : Ensures IsLive (run_table_events commands no_commands)
run_table_events-IsLive_example = run_table_events-IsLive commands

timeouts-gives_up_example :
    run_table_events (timeouts 0 2) one_command
    ≡ ok (record {
      outstanding_callbacks = erase 0 one_command.outstanding_callbacks;
      timers = remove 0 one_command.timers;
      next_timer = 1;
      effects = failed 0 ∷ request 0 ∷ request 0 ∷ [];
    })
unfolding program
timeouts-gives_up_example =
    timeouts-gives_up 1 0 (record { retry = one_retry; done_callback = true }) one_command refl refl
      refl

timeouts-forever_example :
    (outstanding : List (ℕ × TableCallbackData)) × (run_table_events (timeouts 0 2) one_forever
      ≡ ok (record one_forever {
        outstanding_callbacks = outstanding;
        effects = resent 0 2 one_forever.effects;
      }))
    × (lookup 0 outstanding ≡ some forever)
unfolding program
timeouts-forever_example = timeouts-forever 2 0 forever one_forever refl refl refl

destroy_outstanding_callbacks-Empties_example :
    Ensures
      (λ s.
        ((destroy_outstanding_callbacks s).outstanding_callbacks ≡ [])
        × ((destroy_outstanding_callbacks s).timers ≡ []))
      (run_table_events (issue none true ∷ issue (some one_retry) true ∷ []) no_commands)
destroy_outstanding_callbacks-Empties_example =
    destroy_outstanding_callbacks-Empties (issue none true ∷ issue (some one_retry) true ∷ [])
