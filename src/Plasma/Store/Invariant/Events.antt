-- ===== src/Plasma/Store/Invariant/Events.antt =====
-- Every event keeps the queue of the eviction policy and the object table consistent.
use ray.Common.{
  ℕ, refl, Bool, Option, none, some, List, [], ◌∷◌, map, ok, fatal, ◌>>=◌, Ensures, Ensures->>=,
  Ensures-mono, Yields, Option-cases, Bool-cases, inl, inr, arith, contains,
}
use ray.Common.Int.{ℤ, pos, ◌≤ℤ◌, int_laws}
use ray.Common.Maps.{lookup}
use ray.Plasma.Types.{ObjectTable, PlasmaObject}
use ray.Plasma.Eviction.Cache.{EvictionState_init-IsWellFormed}
use ray.Plasma.Eviction.Choose.{choose_objects_to_evict-Chooses}
use ray.Plasma.Store.State.{
  Env, PlasmaStoreState, PlasmaStoreState_init, Client, PlasmaError, reply, evict_reply,
  create_reply, file_descriptor, Sent,
}
use ray.Plasma.Store.Notify.{push_notification, send_notifications}
use ray.Plasma.Store.Objects.{remove_objects, remove_client_from_object_clients, create_object}
use ray.Plasma.Store.Requests.{get_timeout_handler}
use ray.Plasma.Store.Messages.{
  Message, create_request, get_request, release_request, contains_request, seal_request,
  evict_request, subscribe_request, connect_request, disconnect_client, reply_created, evict,
  push_existing, open_queue, subscribe_to_updates, leave_objects, disconnect, process_message,
}
use ray.Plasma.Store.Events.{Event, message, timeout, writable, handle, run, start_server}
use ray.Plasma.Store.Invariant.{IsConsistent, Keeps}
use ray.Plasma.Store.Invariant.Notices.{
  Keeps-IsConsistent, push_notification-Keeps, send_notifications-Keeps, reply-Keeps,
}
use ray.Plasma.Store.Invariant.Objects.{
  remove_objects-IsConsistent, remove_client-IsConsistent, release_object-IsConsistent,
}
use ray.Plasma.Store.Invariant.Creation.{
  IsConsistent-IsKnown, given_up-IsConsistent, create_object-IsConsistent,
}
use ray.Plasma.Store.Invariant.Returns.{return_from_get-IsConsistent}
use ray.Plasma.Store.Invariant.Requests.{seal_object-IsConsistent, process_get_request-IsConsistent}

module _ (env : Env) where
  reply-IsConsistent :
      (m : Sent) (s : PlasmaStoreState)
      → IsConsistent [] s
      → Ensures (λ r. IsConsistent [] r.0) (reply env m s)
  reply-IsConsistent m s c =
      Ensures-mono (λ (r : PlasmaStoreState × Bool). Keeps s r.0)
        (λ (r : PlasmaStoreState × Bool). IsConsistent [] r.0) (reply env m s)
        (λ r k. Keeps-IsConsistent {s = s} {t = r.0} k c) (reply-Keeps env m s s refl)

  -- A reply with nothing behind it.
  last_reply-IsConsistent :
      (m : Sent) (s : PlasmaStoreState)
      → IsConsistent [] s
      → Ensures (IsConsistent []) (do (t, _) ← reply env m s; ok t)
  last_reply-IsConsistent m s c =
      Ensures->>= (λ (r : PlasmaStoreState × Bool). IsConsistent [] r.0) (IsConsistent [])
        (reply env m s) _ (reply-IsConsistent m s c) (λ r h. h)

  reply_created-IsConsistent :
      (client : Client) (k : ℕ) (s : PlasmaStoreState) (error : PlasmaError)
      (result : Option PlasmaObject)
      → IsConsistent [] s
      → Ensures (IsConsistent []) (reply_created env client k (s, error, result))
  unfolding reply_created
  reply_created-IsConsistent client k s error none c =
      last_reply-IsConsistent (create_reply client.sock k none error) s c
  reply_created-IsConsistent client k s error (some o) c =
      Ensures->>= (λ (r : PlasmaStoreState × Bool). IsConsistent [] r.0) (IsConsistent [])
        (reply env (create_reply client.sock k (some o) error) s) _ (reply-IsConsistent _ s c)
        (λ r h. last_reply-IsConsistent (file_descriptor client.sock o.handle.store_fd) r.0 h)

  evict-IsConsistent :
      (client : Client) (num_bytes : ℤ) (s : PlasmaStoreState)
      → IsConsistent [] s
      → Ensures (IsConsistent []) (evict env client num_bytes s)
  unfolding evict
  evict-IsConsistent client num_bytes s c =
      let (ev, freed, chosen, ran, res) =
        choose_objects_to_evict-Chooses s.objects num_bytes s.eviction_state c.queue
          (IsConsistent-IsKnown s c) in
      let t : PlasmaStoreState = record s { eviction_state = ev } in
      let within : ev.memory_used ≤ℤ pos s.memory_capacity =
        rw res.accounted (omega (int_laws, c.within)) in
      rw ran (
        Ensures->>= (IsConsistent []) (IsConsistent []) (remove_objects env chosen t) _
          (remove_objects-IsConsistent env chosen t
            (given_up-IsConsistent s ev chosen c res.well_formed res.split within))
          (λ u h. last_reply-IsConsistent (evict_reply client.sock freed) u h))

  push_existing-Keeps :
      (objects : ObjectTable) (s t : PlasmaStoreState)
      → Keeps s t
      → Ensures (Keeps s) (push_existing env objects t)
  unfolding push_existing
  push_existing-Keeps [] s t h = h
  push_existing-Keeps ((k, entry) ∷ objects) s t h =
      Ensures->>= (Keeps s) (Keeps s) (push_notification env entry.info t) _
        (push_notification-Keeps env entry.info s t h) (push_existing-Keeps objects s)

  open_queue-Keeps : (fd : ℕ) (s : PlasmaStoreState) → Keeps s (open_queue env fd s)
  unfolding open_queue
  open_queue-Keeps fd s = elim (Option-cases (lookup fd s.pending_notifications)) [
    | inl e ↦ rw (e, open_queue) refl
    | inr (q, e) ↦ rw (e, open_queue) refl
  ]

  subscribe_to_updates-Keeps :
      (received : Option ℕ) (s : PlasmaStoreState)
      → Ensures (Keeps s) (subscribe_to_updates env received s)
  unfolding subscribe_to_updates
  subscribe_to_updates-Keeps none s = refl
  subscribe_to_updates-Keeps (some fd) s =
      Ensures->>= (Keeps s) (Keeps s) (push_existing env s.objects (open_queue env fd s)) _
        (push_existing-Keeps s.objects s (open_queue env fd s) (open_queue-Keeps fd s))
        (send_notifications-Keeps env fd s)

  leave_objects-IsConsistent :
      (client : Client) (ids : List ℕ) (s : PlasmaStoreState)
      → IsConsistent [] s
      → Ensures (IsConsistent []) (leave_objects env client ids s)
  unfolding leave_objects
  leave_objects-IsConsistent client [] s c = c
  leave_objects-IsConsistent client (k ∷ ids) s c =
      Ensures->>= (λ (r : PlasmaStoreState × Bool). IsConsistent [] r.0) (IsConsistent [])
        (remove_client_from_object_clients env k client s) _
        (remove_client-IsConsistent env k client s c)
        (λ r h. leave_objects-IsConsistent client ids r.0 h)

  -- Whatever a client sends, the store stays consistent.
  pub process_message-IsConsistent :
      (fuel : ℕ) (client : Client) (m : Message) (s : PlasmaStoreState)
      → IsConsistent [] s
      → Yields (IsConsistent []) (process_message env fuel client m s)
  unfolding process_message disconnect
  process_message-IsConsistent fuel client (create_request k data_size metadata_size) s c =
      let made = create_object-IsConsistent env fuel client k data_size metadata_size s c in
      elim (Option-cases (create_object env fuel client k data_size metadata_size s)) [
        | inl e ↦ rw (e, process_message) tt
        | inr (r, e) ↦
            rw (e, process_message)
              (Ensures->>=
                (λ (r : PlasmaStoreState × PlasmaError × Option PlasmaObject). IsConsistent [] r.0)
                (IsConsistent []) r _ (rw e at made)
                (λ q h. reply_created-IsConsistent client k q.0 q.1 q.2 h))
      ]
  process_message-IsConsistent fuel client (get_request ids timeout_ms) s c =
      process_get_request-IsConsistent env client ids timeout_ms s c
  process_message-IsConsistent fuel client (release_request k) s c =
      release_object-IsConsistent env client k s c
  process_message-IsConsistent fuel client (contains_request k) s c = last_reply-IsConsistent _ s c
  process_message-IsConsistent fuel client (seal_request k digest) s c =
      seal_object-IsConsistent env k digest s c
  process_message-IsConsistent fuel client (evict_request num_bytes) s c =
      evict-IsConsistent client num_bytes s c
  process_message-IsConsistent fuel client (subscribe_request received) s c =
      Ensures-mono (Keeps s) (IsConsistent []) (subscribe_to_updates env received s)
        (λ t k. Keeps-IsConsistent {s = s} {t = t} k c) (subscribe_to_updates-Keeps received s)
  process_message-IsConsistent fuel client connect_request s c = last_reply-IsConsistent _ s c
  process_message-IsConsistent fuel client disconnect_client s c =
      leave_objects-IsConsistent client (map (λ p. p.0) s.objects) s c

  pub handle-IsConsistent :
      (e : Event) (s : PlasmaStoreState)
      → IsConsistent [] s
      → Yields (IsConsistent []) (handle env e s)
  unfolding handle get_timeout_handler
  handle-IsConsistent (message fuel client m) s c = process_message-IsConsistent fuel client m s c
  handle-IsConsistent (timeout timer) s c = elim (Option-cases (lookup timer s.timers)) [
    | inl e ↦ rw (e, handle) c
    | inr (req, e) ↦ rw (e, handle) (return_from_get-IsConsistent env req s c)
  ]
  handle-IsConsistent (writable sock) s c = elim (Bool-cases (contains sock s.watched)) [
    | inl e ↦ rw e (
        Ensures-mono (Keeps s) (IsConsistent []) (send_notifications env sock s)
          (λ t k. Keeps-IsConsistent {s = s} {t = t} k c)
          (send_notifications-Keeps env sock s s refl))
    | inr e ↦ rw e c
  ]

  run-IsConsistent :
      (es : List Event) (s : PlasmaStoreState)
      → IsConsistent [] s
      → Yields (IsConsistent []) (run env es s)
  unfolding run
  run-IsConsistent [] s c = c
  run-IsConsistent (e ∷ es) s c =
      let handled = handle-IsConsistent e s c in
      elim (Option-cases (handle env e s)) [
        | inl h ↦ rw (h, run) tt
        | inr (fatal, h) ↦ rw (h, run) tt
        | inr (ok t, h) ↦ rw (h, run) (run-IsConsistent es t (rw h at handled))
      ]

  -- Unless it has aborted or the fuel of a creation ran out, a store that has handled any events
  -- from its start, whatever its environment did, keeps in the queue of the eviction policy exactly
  -- the objects that no client uses, each once, in a list and a table that agree; its accounts of
  -- memory do not pass the capacity.
  pub start_server-IsConsistent :
      (system_memory : ℕ) (es : List Event)
      → Yields (IsConsistent []) (start_server env system_memory es)
  unfolding start_server PlasmaStoreState_init contains lookup
  start_server-IsConsistent system_memory es =
      run-IsConsistent es (PlasmaStoreState_init system_memory) (record {
        queue = EvictionState_init-IsWellFormed;
        distinct = tt;
        idle = λ k. refl;
        named = λ k e found. absurd (cc found);
        within = omega arith;
      })
