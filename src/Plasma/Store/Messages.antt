-- ===== src/Plasma/Store/Messages.antt =====
-- The messages of the clients: process_message, subscribe_to_updates and the disconnection of a client
-- in src/plasma/plasma_store.cc. A message stands for what plasma_read_…Request reads from it.
use ray.Common.{ℕ, Option, none, some, List, [], ◌∷◌, map, Result, ok, ◌>>=◌}
use ray.Common.Maps.{lookup, insert}
use ray.Common.Int.{ℤ}
use ray.Plasma.Types.{ObjectTable, PlasmaObject}
use ray.Plasma.Eviction.{choose_objects_to_evict}
use ray.Plasma.Store.State.{
  Env, PlasmaStoreState, Client, PlasmaError, create_reply, contains_reply, evict_reply,
  connect_reply, file_descriptor, reply,
}
use ray.Plasma.Store.Notify.{push_notification, send_notifications}
use ray.Plasma.Store.Objects.{
  remove_objects, remove_client_from_object_clients, release_object, contains_object, create_object,
}
use ray.Plasma.Store.Requests.{seal_object, process_get_request}

-- `recv_fd` of a subscription gives a file descriptor, or fails.
pub data Message : Type 0 where
  create_request : (object_id data_size metadata_size : ℕ) → Message
  get_request : List ℕ → (timeout_ms : Option ℕ) → Message
  release_request : (object_id : ℕ) → Message
  contains_request : (object_id : ℕ) → Message
  seal_request : (object_id : ℕ) → (digest : List ℕ) → Message
  evict_request : (num_bytes : ℤ) → Message
  subscribe_request : (received : Option ℕ) → Message
  connect_request : Message
  disconnect_client : Message

module _ (env : Env) where
  unfoldable pub reply_created :
      Client → ℕ → PlasmaStoreState × PlasmaError × Option PlasmaObject → Result PlasmaStoreState
  reply_created client object_id (s, error, result) = do
    (s', _) ← reply env (create_reply client.sock object_id result error) s
    elim result [
      | none ↦ ok s'
      | some o ↦ (do
        (s'', _) ← reply env (file_descriptor client.sock o.handle.store_fd) s'
        ok s'')
    ]

  unfoldable pub evict : Client → ℤ → PlasmaStoreState → Result PlasmaStoreState
  evict client num_bytes s = do
    (eviction, freed, chosen) ← choose_objects_to_evict s.objects num_bytes s.eviction_state
    s' ← remove_objects env chosen (record s { eviction_state = eviction })
    (s'', _) ← reply env (evict_reply client.sock freed) s'
    ok s''

  unfoldable pub push_existing : ObjectTable → PlasmaStoreState → Result PlasmaStoreState
  push_existing [] s = ok s
  push_existing ((_, entry) ∷ rest) s = push_notification env entry.info s >>= push_existing rest

  -- `pending_notifications[fd]` makes a queue if there is none.
  unfoldable pub open_queue : ℕ → PlasmaStoreState → PlasmaStoreState
  open_queue fd s = elim (lookup fd s.pending_notifications) [
    | none ↦ record s { pending_notifications = insert fd [] s.pending_notifications }
    | some _ ↦ s
  ]

  unfoldable pub subscribe_to_updates : Option ℕ → PlasmaStoreState → Result PlasmaStoreState
  subscribe_to_updates none s = ok s
  subscribe_to_updates (some fd) s =
      push_existing s.objects (open_queue fd s) >>= send_notifications env fd

  -- The client leaves each object that it was using.
  unfoldable pub leave_objects : Client → List ℕ → PlasmaStoreState → Result PlasmaStoreState
  leave_objects client [] s = ok s
  leave_objects client (object_id ∷ rest) s = do
    (s', _) ← remove_client_from_object_clients env object_id client s
    leave_objects client rest s'

  unfoldable pub disconnect : Client → PlasmaStoreState → Result PlasmaStoreState
  disconnect client s = leave_objects client (map (λ p. p.0) s.objects) s

  -- No outcome means that the fuel of create_object ran out.
  unfoldable pub process_message :
      ℕ → Client → Message → PlasmaStoreState → Option (Result PlasmaStoreState)
  process_message fuel client (create_request object_id data_size metadata_size) s =
      elim (create_object env fuel client object_id data_size metadata_size s) [
        | none ↦ none
        | some r ↦ some (r >>= reply_created client object_id)
      ]
  process_message fuel client (get_request object_ids timeout_ms) s =
      some (process_get_request env client object_ids timeout_ms s)
  process_message fuel client (release_request object_id) s =
      some (release_object env client object_id s)
  process_message fuel client (contains_request object_id) s = some (do
    (s', _) ← reply env (contains_reply client.sock object_id (contains_object object_id s)) s
    ok s')
  process_message fuel client (seal_request object_id digest) s =
      some (seal_object env object_id digest s)
  process_message fuel client (evict_request num_bytes) s = some (evict client num_bytes s)
  process_message fuel client (subscribe_request received) s =
      some (subscribe_to_updates received s)
  process_message fuel client connect_request s =
      some (do (s', _) ← reply env (connect_reply client.sock s.memory_capacity) s; ok s')
  process_message fuel client disconnect_client s = some (disconnect client s)
