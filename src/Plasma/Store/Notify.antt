-- ===== src/Plasma/Store/Notify.antt =====
-- Notifications to the subscribers: push_notification and send_notifications of
-- src/plasma/plasma_store.cc. An unordered_map is walked in the order of insertion.
use ray.Common.{
  ℕ, ◌+◌, none, some, List, [], ◌∷◌, ◌++◌, Result, ok, fatal, ◌>>=◌, if◌then◌else◌, remove,
  contains,
}
use ray.Common.Maps.{lookup, insert}
use ray.Plasma.Types.{ObjectInfo}
use ray.Plasma.Store.State.{
  Env, PlasmaStoreState, sent_all, sent_part, would_block, broken_pipe, failed, notification,
  is_empty,
}

-- How the loop of send_notifications ends: by its test, or by one of its breaks.
pub data LoopEnd : Type 0 where
  finished blocked closed : LoopEnd

-- event_loop_add_file for writing, which replaces an earlier callback.
unfoldable pub watch : ℕ → PlasmaStoreState → PlasmaStoreState
watch sock s = record s {
  watched = if contains sock s.watched then s.watched else sock ∷ s.watched;
}

-- event_loop_remove_file
unfoldable pub unwatch : ℕ → PlasmaStoreState → PlasmaStoreState
unwatch sock s = record s { watched = remove sock s.watched }

module _ (env : Env) where
  -- The loop over the queue of one subscriber: the notifications that are left.
  unfoldable pub send_loop :
      ℕ → List ObjectInfo → PlasmaStoreState → Result (PlasmaStoreState × List ObjectInfo × LoopEnd)
  unfolding watch
  send_loop sock [] s = ok (s, [], finished)
  send_loop sock (n ∷ ns) s =
      let s' : PlasmaStoreState = record s { calls = s.calls + 1 } in
      elim (env.send s.calls) [
        | sent_all ↦ send_loop sock ns (record s' { outbox = notification sock n ∷ s.outbox })
        | sent_part ↦ fatal
        | would_block ↦ ok (watch sock s', n ∷ ns, blocked)
        | broken_pipe ↦ ok (s', n ∷ ns, closed)
        | failed ↦ send_loop sock ns s'
      ]

  -- After a broken pipe the code erases the queue and then reads it: undefined.
  unfoldable pub after_sending :
      ℕ → PlasmaStoreState × List ObjectInfo × LoopEnd → Result PlasmaStoreState
  unfolding unwatch
  after_sending sock (s, rest, closed) = fatal
  after_sending sock (s, rest, _) =
      let s' : PlasmaStoreState = record s {
        pending_notifications = insert sock rest s.pending_notifications;
      } in
      ok (if is_empty rest then unwatch sock s' else s')

  -- A socket that is no key would be an access past the end of the map.
  unfoldable pub send_notifications : ℕ → PlasmaStoreState → Result PlasmaStoreState
  send_notifications sock s = elim (lookup sock s.pending_notifications) [
    | none ↦ fatal
    | some queue ↦ send_loop sock queue s >>= after_sending sock
  ]

  -- push_notification, for one subscriber.
  unfoldable pub push_to :
      ObjectInfo → ℕ → List ObjectInfo → PlasmaStoreState → Result PlasmaStoreState
  push_to info sock queue s = send_notifications sock (record s {
    pending_notifications = insert sock (queue ++ info ∷ []) s.pending_notifications;
  })

  unfoldable pub push_loop :
      ObjectInfo → List (ℕ × List ObjectInfo) → PlasmaStoreState → Result PlasmaStoreState
  push_loop info [] s = ok s
  push_loop info ((sock, queue) ∷ rest) s = push_to info sock queue s >>= push_loop info rest

  unfoldable pub push_notification : ObjectInfo → PlasmaStoreState → Result PlasmaStoreState
  unfolding push_loop
  push_notification info s = push_loop info s.pending_notifications s
