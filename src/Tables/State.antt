-- ===== src/Tables/State.antt =====
-- Outstanding commands to the database, their timers and their replies: src/common/state/table.cc,
-- and the two callbacks for object locations of src/common/state/redis.cc.
use ray.Common.{
  ℕ, zero, suc, ◌+◌, Bool, true, false, none, some, List, [], ◌∷◌, ◌++◌, Result, ok, fatal, ◌>>=◌,
  if◌then◌else◌, contains, Option, remove,
}
use ray.Common.Int.{ℤ, pos, negsuc}
use ray.Common.Maps.{lookup, insert, erase}

-- `num_retries` is -1 for a command that is retried forever; `timeout` is in milliseconds, and
-- `fail_callback` tells whether there is one.
pub record RetryInfo : Type 0 where
  pub num_retries : ℤ
  pub timeout : ℕ
  pub fail_callback : Bool

abbrev pub default_retry : RetryInfo
default_retry = record { num_retries = negsuc zero; timeout = 10000; fail_callback = false }

-- What a command retries with, and whether it has a done callback.
pub record TableCallbackData : Type 0 where
  pub retry : RetryInfo
  pub done_callback : Bool

-- What the code calls for a command, which is named by its timer: retry_callback sends the request.
pub data TableEffect : Type 0 where
  request failed : (timer : ℕ) → TableEffect
  done : (timer : ℕ) → (success : Bool) → TableEffect

-- The command that was issued last has the timer next_timer - 1: the event loop never uses a timer's
-- number again. `outstanding_callbacks` holds the callback data that is not freed, by timer; `timers` are those of
-- the event loop. `effects` lists the calls, the last first.
pub record TableState : Type 0 where
  pub outstanding_callbacks : List (ℕ × TableCallbackData)
  pub timers : List ℕ
  pub next_timer : ℕ
  pub effects : List TableEffect

abbrev pub no_commands : TableState
no_commands = record { outstanding_callbacks = []; timers = []; next_timer = 0; effects = [] }

unfoldable pub retry_or_default : Option RetryInfo → RetryInfo
retry_or_default none = default_retry
retry_or_default (some retry) = retry

-- A null `retry` is the default one.
unfoldable pub init_table_callback :
    (retry : Option RetryInfo) → (done_callback : Bool) → TableState → TableState
init_table_callback retry done_callback s = record s {
  outstanding_callbacks =
      insert s.next_timer (record { retry = retry_or_default retry; done_callback = done_callback })
        s.outstanding_callbacks;
  timers = s.timers ++ s.next_timer ∷ [];
  next_timer = s.next_timer + 1;
  effects = request s.next_timer ∷ s.effects;
}

unfoldable pub destroy_table_callback : (timer : ℕ) → TableState → TableState
destroy_table_callback timer s = record s {
  outstanding_callbacks = erase timer s.outstanding_callbacks;
}

unfoldable pub destroy_timer_callback : (timer : ℕ) → TableState → TableState
destroy_timer_callback timer s =
    destroy_table_callback timer (record s { timers = remove timer s.timers })

-- destroy_timer_callback for each entry of the table as it was at first.
unfoldable pub destroy_each : List (ℕ × TableCallbackData) → TableState → TableState
destroy_each [] s = s
destroy_each ((timer, callback_data) ∷ m) s = destroy_each m (destroy_timer_callback timer s)

unfoldable pub destroy_outstanding_callbacks : TableState → TableState
destroy_outstanding_callbacks s = destroy_each s.outstanding_callbacks s

-- The end of a command without an answer: the handler tells the event loop that its timer is done.
unfoldable pub give_up : (timer : ℕ) → TableCallbackData → TableState → TableState
give_up timer callback_data s = destroy_table_callback timer (record s {
  timers = remove timer s.timers;
  effects = if callback_data.retry.fail_callback then failed timer ∷ s.effects else s.effects;
})

-- Callback data with another number of retries left.
abbrev pub with_num_retries : ℤ → TableCallbackData → TableCallbackData
with_num_retries num_retries callback_data = record callback_data {
  retry = record callback_data.retry { num_retries = num_retries };
}

-- The same request again, with a number of retries left.
unfoldable pub send_again :
    (timer : ℕ) → (num_retries : ℤ) → TableCallbackData → TableState → TableState
send_again timer num_retries callback_data s = record s {
  outstanding_callbacks =
      insert timer (with_num_retries num_retries callback_data) s.outstanding_callbacks;
  effects = request timer ∷ s.effects;
}

-- The branches of table_timeout_handler.
unfoldable pub on_timeout :
    (timer : ℕ) → (num_retries : ℤ) → TableCallbackData → TableState → Result TableState
on_timeout timer (pos zero) callback_data s = ok (give_up timer callback_data s)
on_timeout timer (pos (suc n)) callback_data s = ok (send_again timer (pos n) callback_data s)
on_timeout timer (negsuc zero) callback_data s = ok (send_again timer (negsuc zero) callback_data s)
on_timeout timer (negsuc (suc n)) callback_data s = fatal

-- The handler reads the callback data behind the timer, which must not have been freed.
unfoldable pub table_timeout_handler : (timer : ℕ) → TableState → Result TableState
table_timeout_handler timer s = elim (lookup timer s.outstanding_callbacks) [
  | none ↦ fatal
  | some callback_data ↦ on_timeout timer callback_data.retry.num_retries callback_data s
]

-- A reply of the database: none at all, OK, an error, or one of two messages.
pub data Reply : Type 0 where
  no_reply accepted error hash_mismatch object_not_found : Reply

-- The end of a command with an answer: the done callback if there is one, then destroy_timer_callback.
unfoldable pub finish : (timer : ℕ) → (success : Bool) → TableCallbackData → TableState → TableState
finish timer success callback_data s = destroy_timer_callback timer (record s {
  effects = if callback_data.done_callback then done timer success ∷ s.effects else s.effects;
})

-- The replies of redis_object_table_add_callback and redis_object_table_remove_callback to a command
-- that is still outstanding.

unfoldable pub on_add_reply :
    (timer : ℕ) → Reply → TableCallbackData → TableState → Result TableState
on_add_reply timer no_reply callback_data s = ok s
on_add_reply timer accepted callback_data s = ok (finish timer true callback_data s)
on_add_reply timer hash_mismatch callback_data s = ok (finish timer false callback_data s)
on_add_reply timer error callback_data s = fatal
on_add_reply timer object_not_found callback_data s = fatal

unfoldable pub on_remove_reply :
    (timer : ℕ) → Reply → TableCallbackData → TableState → Result TableState
on_remove_reply timer no_reply callback_data s = ok s
on_remove_reply timer accepted callback_data s = ok (finish timer true callback_data s)
on_remove_reply timer object_not_found callback_data s = ok s
on_remove_reply timer error callback_data s = fatal
on_remove_reply timer hash_mismatch callback_data s = fatal

-- REDIS_CALLBACK_HEADER: a reply to a command whose callback data is freed is ignored.
abbrev pub if_outstanding :
    (timer : ℕ)
    → (handle : TableCallbackData → TableState → Result TableState) → TableState
    → Result TableState
if_outstanding timer handle s = elim (lookup timer s.outstanding_callbacks) [
  | none ↦ ok s
  | some callback_data ↦ handle callback_data s
]

unfoldable pub redis_object_table_add_callback :
    (timer : ℕ) → Reply → TableState → Result TableState
redis_object_table_add_callback timer reply s = if_outstanding timer (on_add_reply timer reply) s

unfoldable pub redis_object_table_remove_callback :
    (timer : ℕ) → Reply → TableState → Result TableState
redis_object_table_remove_callback timer reply s =
    if_outstanding timer (on_remove_reply timer reply) s

-- A new command, a timer of the event loop that fires, or a reply.
pub data TableEvent : Type 0 where
  issue : (retry : Option RetryInfo) → (done_callback : Bool) → TableEvent
  timeout : (timer : ℕ) → TableEvent
  add_reply remove_reply : (timer : ℕ) → Reply → TableEvent

-- The event loop fires only timers that it has. The callbacks issue no command of their own here.
unfoldable pub handle_table_event : TableEvent → TableState → Result TableState
handle_table_event (issue retry done_callback) s = ok (init_table_callback retry done_callback s)
handle_table_event (timeout timer) s =
    if contains timer s.timers then table_timeout_handler timer s else ok s
handle_table_event (add_reply timer reply) s = redis_object_table_add_callback timer reply s
handle_table_event (remove_reply timer reply) s = redis_object_table_remove_callback timer reply s

unfoldable pub run_table_events : List TableEvent → TableState → Result TableState
run_table_events [] s = ok s
run_table_events (e ∷ es) s = handle_table_event e s >>= run_table_events es
