-- ===== src/Plasma/Store/Events.antt =====
-- The event loop of the store: start_server and the callbacks that src/plasma/plasma_store.cc registers.
use ray.Common.{ℕ, Option, none, some, List, [], ◌∷◌, Result, ok, fatal, if◌then◌else◌, contains}
use ray.Common.Maps.{lookup}
use ray.Plasma.Store.State.{Env, PlasmaStoreState, Client, PlasmaStoreState_init}
use ray.Plasma.Store.Notify.{send_notifications}
use ray.Plasma.Store.Requests.{get_timeout_handler}
use ray.Plasma.Store.Messages.{Message, process_message}

-- A message of a client with the fuel for its loop, a timer that fires, or room in a socket's buffer.
pub data Event : Type 0 where
  message : (fuel : ℕ) → Client → Message → Event
  timeout : (timer : ℕ) → Event
  writable : (sock : ℕ) → Event

module _ (env : Env) where
  -- A timer or a callback that is not registered does not fire.
  unfoldable pub handle : Event → PlasmaStoreState → Option (Result PlasmaStoreState)
  handle (message fuel client m) s = process_message env fuel client m s
  handle (timeout timer) s = elim (lookup timer s.timers) [
    | none ↦ some (ok s)
    | some req ↦ some (get_timeout_handler env req s)
  ]
  handle (writable sock) s =
      if contains sock s.watched then some (send_notifications env sock s) else some (ok s)

  unfoldable pub run : List Event → PlasmaStoreState → Option (Result PlasmaStoreState)
  run [] s = some (ok s)
  run (e ∷ es) s = elim (handle e s) [
    | none ↦ none
    | some fatal ↦ some fatal
    | some (ok t) ↦ run es t
  ]

  -- event_loop_run on a new store.
  unfoldable pub start_server : (system_memory : ℕ) → List Event → Option (Result PlasmaStoreState)
  start_server system_memory events = run events (PlasmaStoreState_init system_memory)
