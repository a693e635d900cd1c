-- ===== src/Tables/Lives.antt =====
-- The life of a command: its timer fires only while its callback data is there, and its callbacks are
-- called at most once (src/common/state/table.cc).
use ray.Common.{
  ℕ, zero, suc, ◌+◌, ◌≤◌, ◌≡◌, refl, sym, ap, ◌∙◌, Bool, true, false, inl, inr, Option, List, [],
  ◌∷◌, ok, fatal, Ensures, Ensures->>=, Ensures-option, Ensures-if, if◌then◌else◌, ◌==◌, Bool-cases,
  arith, contains, remove, Distinct, one, contains_snoc, snoc-Distinct, contains-remove,
  remove-Distinct,
}
use ray.Common.Int.{ℤ, pos, negsuc}
use ray.Common.Maps.{
  lookup, insert, erase, has_key, has_key-lookup-some, has_key-insert_lem, has_key-erase_lem,
}
use ray.Tables.State.{
  RetryInfo, retry_or_default, TableCallbackData, with_num_retries, TableEffect, request, failed,
  done, TableState, no_commands, init_table_callback, destroy_table_callback,
  destroy_timer_callback, give_up, send_again, on_timeout, table_timeout_handler, Reply, no_reply,
  accepted, error, hash_mismatch, object_not_found, finish, on_add_reply, on_remove_reply,
  redis_object_table_add_callback, redis_object_table_remove_callback, TableEvent, issue, timeout,
  add_reply, remove_reply, handle_table_event, run_table_events,
}

-- How often the done or the fail callback of a command was called.
abbrev pub endings : (timer : ℕ) → List TableEffect → ℕ
endings timer [] = 0
endings timer (request t ∷ es) = endings timer es
endings timer (failed t ∷ es) = one (t == timer) + endings timer es
endings timer (done t success ∷ es) = one (t == timer) + endings timer es

-- The timers of the event loop are those of the outstanding commands, which are not fresh; the
-- callbacks of a command were called at most once, and it is not outstanding then.
abbrev pub IsLive : TableState → Type 0
IsLive s =
    Distinct s.timers
    × ((t : ℕ) → contains t s.timers ≡ has_key t s.outstanding_callbacks)
    × ((t : ℕ) → endings t s.effects + one (has_key t s.outstanding_callbacks) ≤ 1)
    × ((t : ℕ)
        → s.next_timer ≤ t
        → (has_key t s.outstanding_callbacks ≡ false) × (endings t s.effects ≡ 0))

issue-IsLive :
    (retry : Option RetryInfo) (done_callback : Bool) (s : TableState)
    → IsLive s
    → IsLive (init_table_callback retry done_callback s)
unfolding init_table_callback
issue-IsLive retry done_callback s h =
    let data_of : TableCallbackData = record {
      retry = retry_or_default retry;
      done_callback = done_callback;
    } in
    let (distinct, same, once, fresh) = h in
    let n = s.next_timer in
    let (new, unended) = fresh n (omega arith) in
    let unused : contains n s.timers ≡ false = same n ∙ new in
    (
      snoc-Distinct n s.timers unused distinct,
      (λ t.
          let a = contains_snoc t n s.timers in
          let b = has_key-insert_lem n t data_of s.outstanding_callbacks in
          let c = same t in ground (arith, a, b, c)),
      (λ t.
          let b = has_key-insert_lem n t data_of s.outstanding_callbacks in
          let c = once t in
          elim (Bool-cases (n == t)) [
            | inl hit ↦
                let e : n ≡ t = ground (arith, hit) in
                let none_yet : endings t s.effects ≡ 0 =
                  ap (λ x. endings x s.effects) (sym e) ∙ unended in
                ground (arith, b, hit, none_yet)
            | inr miss ↦ ground (arith, b, c, miss)
          ]),
      λ t later.
          (let (absent, zero_times) = fresh t (omega (arith, later)) in
            let b = has_key-insert_lem n t data_of s.outstanding_callbacks in
            let other : (n == t) ≡ false = ground (arith, later) in
            (ground (arith, b, other, absent), zero_times)),
    )

has_key_known :
    (k t : ℕ) (v : TableCallbackData) (m : List (ℕ × TableCallbackData))
    → has_key k m ≡ true
    → has_key t (insert k v m) ≡ has_key t m
has_key_known k t v m known =
    let e = has_key-insert_lem k t v m in
    elim (Bool-cases (k == t)) [
      | inl hit ↦
          let same : k ≡ t = ground (arith, hit) in
          let here : has_key t m ≡ true = ap (λ x. has_key x m) (sym same) ∙ known in
          ground (arith, e, hit, here)
      | inr miss ↦ ground (arith, e, miss)
    ]

one_more :
    (timer t : ℕ) (called : Bool) (es : List TableEffect)
    → endings t (if called then failed timer ∷ es else es) ≤ one (timer == t) + endings t es
one_more timer t true es = omega arith
one_more timer t false es = omega arith

one_more_done :
    (timer t : ℕ) (success called : Bool) (es : List TableEffect)
    → endings t (if called then done timer success ∷ es else es) ≤ one (timer == t) + endings t es
one_more_done timer t success true es = omega arith
one_more_done timer t success false es = omega arith

-- A command that is sent again.
send_again-IsLive :
    (timer : ℕ) (num_retries : ℤ) (d : TableCallbackData) (s : TableState)
    → has_key timer s.outstanding_callbacks ≡ true
    → IsLive s
    → IsLive (send_again timer num_retries d s)
unfolding send_again
send_again-IsLive timer num_retries d s known h =
    let (distinct, same, once, fresh) = h in
    let kept : (t : ℕ)
        → has_key t (insert timer (with_num_retries num_retries d) s.outstanding_callbacks)
          ≡ has_key t s.outstanding_callbacks =
      λ t. has_key_known timer t (with_num_retries num_retries d) s.outstanding_callbacks known in
    (
      distinct,
      (λ t. same t ∙ sym (kept t)),
      (λ t. let k = kept t in let o = once t in ground (arith, k, o)),
      λ t later. (let (absent, zero_times) = fresh t later in (kept t ∙ absent, zero_times)),
    )

-- An outstanding command that ends, with or without a callback.
ended-IsLive :
    (timer : ℕ) (effects : List TableEffect) (s : TableState)
    → has_key timer s.outstanding_callbacks ≡ true
    → ((t : ℕ) → endings t effects ≤ one (timer == t) + endings t s.effects)
    → IsLive s
    → IsLive (record s {
      outstanding_callbacks = erase timer s.outstanding_callbacks;
      timers = remove timer s.timers;
      effects = effects;
    })
ended-IsLive timer effects s known bound h =
    let (distinct, same, once, fresh) = h in
    (
      remove-Distinct timer s.timers distinct,
      (λ t.
          let a = contains-remove t timer s.timers distinct in
          let b = has_key-erase_lem timer t s.outstanding_callbacks in
          let c = same t in ground (arith, a, b, c)),
      (λ t.
          let b = has_key-erase_lem timer t s.outstanding_callbacks in
          let c = once t in
          let d = bound t in
          elim (Bool-cases (timer == t)) [
            | inl hit ↦
                let e : timer ≡ t = ground (arith, hit) in
                let k : has_key t s.outstanding_callbacks ≡ true =
                  ap (λ x. has_key x s.outstanding_callbacks) (sym e) ∙ known in
                ground (arith, b, c, d, hit, k)
            | inr miss ↦ ground (arith, b, c, d, miss)
          ]),
      λ t later.
          (let (absent, zero_times) = fresh t later in
            let b = has_key-erase_lem timer t s.outstanding_callbacks in
            let d = bound t in
            elim (Bool-cases (timer == t)) [
              | inl hit ↦
                  let e : timer ≡ t = ground (arith, hit) in
                  let k : has_key t s.outstanding_callbacks ≡ true =
                    ap (λ x. has_key x s.outstanding_callbacks) (sym e) ∙ known in
                  absurd (ground (arith, k, absent))
              | inr miss ↦ (ground (arith, b, miss, absent), ground (arith, d, miss, zero_times))
            ]),
    )

give_up-IsLive :
    (timer : ℕ) (d : TableCallbackData) (s : TableState)
    → has_key timer s.outstanding_callbacks ≡ true
    → IsLive s
    → IsLive (give_up timer d s)
unfolding give_up destroy_table_callback
give_up-IsLive timer d s known h =
    ended-IsLive timer (if d.retry.fail_callback then failed timer ∷ s.effects else s.effects) s
      known (λ t. one_more timer t d.retry.fail_callback s.effects) h

finish-IsLive :
    (timer : ℕ) (success : Bool) (d : TableCallbackData) (s : TableState)
    → has_key timer s.outstanding_callbacks ≡ true
    → IsLive s
    → IsLive (finish timer success d s)
unfolding finish destroy_timer_callback destroy_table_callback
finish-IsLive timer success d s known h =
    ended-IsLive timer (if d.done_callback then done timer success ∷ s.effects else s.effects) s
      known (λ t. one_more_done timer t success d.done_callback s.effects) h

on_timeout-IsLive :
    (timer : ℕ) (num_retries : ℤ) (d : TableCallbackData) (s : TableState)
    → has_key timer s.outstanding_callbacks ≡ true
    → IsLive s
    → Ensures IsLive (on_timeout timer num_retries d s)
unfolding on_timeout
on_timeout-IsLive timer (pos zero) d s known h = give_up-IsLive timer d s known h
on_timeout-IsLive timer (pos (suc n)) d s known h = send_again-IsLive timer (pos n) d s known h
on_timeout-IsLive timer (negsuc zero) d s known h =
    send_again-IsLive timer (negsuc zero) d s known h
on_timeout-IsLive timer (negsuc (suc n)) d s known h = tt

on_add_reply-IsLive :
    (timer : ℕ) (reply : Reply) (d : TableCallbackData) (s : TableState)
    → has_key timer s.outstanding_callbacks ≡ true
    → IsLive s
    → Ensures IsLive (on_add_reply timer reply d s)
unfolding on_add_reply
on_add_reply-IsLive timer no_reply d s known h = h
on_add_reply-IsLive timer accepted d s known h = finish-IsLive timer true d s known h
on_add_reply-IsLive timer hash_mismatch d s known h = finish-IsLive timer false d s known h
on_add_reply-IsLive timer error d s known h = tt
on_add_reply-IsLive timer object_not_found d s known h = tt

on_remove_reply-IsLive :
    (timer : ℕ) (reply : Reply) (d : TableCallbackData) (s : TableState)
    → has_key timer s.outstanding_callbacks ≡ true
    → IsLive s
    → Ensures IsLive (on_remove_reply timer reply d s)
unfolding on_remove_reply
on_remove_reply-IsLive timer no_reply d s known h = h
on_remove_reply-IsLive timer accepted d s known h = finish-IsLive timer true d s known h
on_remove_reply-IsLive timer object_not_found d s known h = h
on_remove_reply-IsLive timer error d s known h = tt
on_remove_reply-IsLive timer hash_mismatch d s known h = tt

handle_table_event-IsLive :
    (e : TableEvent) (s : TableState) → IsLive s → Ensures IsLive (handle_table_event e s)
unfolding handle_table_event table_timeout_handler redis_object_table_add_callback
    redis_object_table_remove_callback
handle_table_event-IsLive (issue retry called) s h = issue-IsLive retry called s h
handle_table_event-IsLive (timeout timer) s h =
    Ensures-if (contains timer s.timers) IsLive _ (ok s)
      (λ _.
        Ensures-option (lookup timer s.outstanding_callbacks) IsLive fatal _ (λ _. tt)
          λ d found.
            on_timeout-IsLive timer d.retry.num_retries d s
              (has_key-lookup-some timer s.outstanding_callbacks found) h)
      λ _. h
handle_table_event-IsLive (add_reply timer reply) s h =
    Ensures-option (lookup timer s.outstanding_callbacks) IsLive (ok s) _ (λ _. h)
      λ d found.
        on_add_reply-IsLive timer reply d s
          (has_key-lookup-some timer s.outstanding_callbacks found) h
handle_table_event-IsLive (remove_reply timer reply) s h =
    Ensures-option (lookup timer s.outstanding_callbacks) IsLive (ok s) _ (λ _. h)
      λ d found.
        on_remove_reply-IsLive timer reply d s
          (has_key-lookup-some timer s.outstanding_callbacks found) h

run_from-IsLive :
    (es : List TableEvent) (s : TableState) → IsLive s → Ensures IsLive (run_table_events es s)
unfolding run_table_events
run_from-IsLive [] s h = h
run_from-IsLive (e ∷ es) s h =
    Ensures->>= IsLive IsLive (handle_table_event e s) (run_table_events es)
      (handle_table_event-IsLive e s h) (run_from-IsLive es)

-- After any commands, timeouts and replies that do not abort, the timers of the event loop are those
-- of the commands whose callback data is not freed, so no timer fires on freed data. Of the done and
-- the fail callback of a command at most one was called, and once; if one was, the command's callback
-- data is freed.
pub run_table_events-IsLive :
    (events : List TableEvent) → Ensures IsLive (run_table_events events no_commands)
unfolding has_key contains
run_table_events-IsLive events =
    run_from-IsLive events no_commands
      (tt, (λ t. refl), (λ t. omega arith), λ t later. (refl, refl))
