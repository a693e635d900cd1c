-- ===== src/Plasma/Manager/Invariant.antt =====
-- What holds of the Plasma manager between two callbacks: src/plasma/plasma_manager.cc.
use ray.Common.{
  ℕ, ◌≡◌, refl, sym, ap, ◌∙◌, Bool, true, false, not, none, some, List, [], ◌∷◌, length, Result, ok,
  contains, count, Ensures, Ensures->>=, Ensures-check, Ensures-if, Ensures-option, Ensures-mono,
}
use ray.Common.Maps.{lookup, has_key}
use ray.Plasma.Manager.State.{
  query_local, query_anywhere, QueryType, ObjectStatus, status_local, status_nonexistent, Handler,
  unwatched, messages, data_chunks, ignored_chunks, queued_requests, PlasmaManagerState, Env,
  SendOutcome, sent, hung_up, connection_reset, failed, emit, time, warn_if_sigpipe, status_reply,
  object_table_lookup, send_heartbeat, result_table_lookup, task_table_get_task, push_error,
}
use ray.Plasma.Manager.Waits.{waiting, is_object_local, read_requests}
use ray.Plasma.Manager.Transfers.{init_connection, free_connection}
use ray.Plasma.Manager.Server.{
  send_status, request_status, request_status_done, process_status_request,
  process_add_object_notification, process_object_notification,
  log_object_hash_mismatch_error_object_callback, log_object_hash_mismatch_error_result_callback,
  log_object_hash_mismatch_error_task_callback, Message, data_request_message, data_reply_message,
  fetch_request, wait_request, status_request, disconnect_client, invalid_message, process_message,
  listen, Event, new_client, fetch_timer, heartbeat_timer, message, ready, wait_timer,
  object_notification, object_table_notification, lookup_done, object_added, result_found,
  task_found, handle_ready, is_messages, handle, run, new_state, start_server,
}
use ray.Plasma.Manager.Connections.{
  ConnectionsOnly, process_transfer_request-ConnectionsOnly, send_queued_request-ConnectionsOnly,
  process_data_chunk-ConnectionsOnly, ignore_data_chunk-ConnectionsOnly,
  process_data_request-ConnectionsOnly,
}
use ray.Plasma.Manager.Waiting.{Holds, Ensures-Holds}
use ray.Plasma.Manager.Waiting.Registered.{
  Waits, process_wait_request-Waits, wait_timeout_handler-Waits, read_requests-IsNew,
}
use ray.Plasma.Manager.Fetching.{
  IsManaged, ConnectionsOnly-IsManaged, fetch_timeout_handler-IsManaged,
  process_fetch_requests-IsManaged, object_table_subscribe_callback-IsManaged,
}
use ray.Plasma.Manager.Arrivals.{Arrived, process_delete-IsManaged, process_add-Arrived}

connections :
    (s : PlasmaManagerState) (m : Result PlasmaManagerState)
    → IsManaged s
    → Ensures (ConnectionsOnly s) m
    → Ensures IsManaged m
connections s m h only =
    Ensures-mono (ConnectionsOnly s) IsManaged m (λ t e. ConnectionsOnly-IsManaged s t e h) only

Waits-IsManaged : (s t : PlasmaManagerState) → IsManaged s → Waits s t → IsManaged t
Waits-IsManaged s t (before, (remote, ranges)) (waits, (fetches, local)) = (
  waits,
  (
    (λ o known. ap (contains o) local ∙ remote o (sym (ap (has_key o) fetches) ∙ known)),
    λ o r found. ranges o r (sym (ap (lookup o) fetches) ∙ found),
  ),
)

waits :
    (s : PlasmaManagerState) (m : Result PlasmaManagerState)
    → IsManaged s
    → Holds false (Waits s) m
    → Ensures IsManaged m
waits s m h held =
    Ensures-mono (Waits s) IsManaged m (λ t e. Waits-IsManaged s t h e)
      (Ensures-Holds false (Waits s) m held)

status_sent :
    (outcome : SendOutcome) (s : PlasmaManagerState)
    → IsManaged s
    → Ensures IsManaged (warn_if_sigpipe outcome s)
status_sent sent s h = h
status_sent hung_up s h = h
status_sent connection_reset s h = h
status_sent failed s h = tt

send_status-IsManaged :
    (env : Env) (c o : ℕ) (status : ObjectStatus) (s : PlasmaManagerState)
    → IsManaged s
    → Ensures IsManaged (send_status env c o status s)
send_status-IsManaged env c o status s h =
    let t = emit (status_reply c o status) s in
    status_sent (env.sends (time s)) t (ConnectionsOnly-IsManaged s t refl h)

process_message-IsManaged :
    (env : Env) (c : ℕ) (m : Message) (s : PlasmaManagerState)
    → IsManaged s
    → Ensures IsManaged (process_message env c m s)
unfolding process_message process_status_request
process_message-IsManaged env c (data_request_message o a) s h =
    connections s _ h (process_transfer_request-ConnectionsOnly env o a s)
process_message-IsManaged env c (data_reply_message o size metadata) s h =
    connections s _ h (process_data_request-ConnectionsOnly env c o size metadata s)
process_message-IsManaged env c (fetch_request os) s h = process_fetch_requests-IsManaged os s h
process_message-IsManaged env c (wait_request specs num_ready) s h = waits s _ h (
    process_wait_request-Waits env c (length specs) (read_requests specs []) num_ready s
      (read_requests-IsNew specs [] tt) h.0)
process_message-IsManaged env c (status_request []) s h = tt
process_message-IsManaged env c (status_request (o ∷ [])) s h =
    Ensures-if (is_object_local s o) IsManaged _ _
      (λ _. send_status-IsManaged env c o status_local s h)
      λ _.
        Ensures-if (not s.db) IsManaged _ _
          (λ _. send_status-IsManaged env c o status_nonexistent s h)
          λ _. ConnectionsOnly-IsManaged s (emit (object_table_lookup o) s) refl h
process_message-IsManaged env c (status_request (o ∷ p ∷ os)) s h = tt
process_message-IsManaged env c disconnect_client s h =
    ConnectionsOnly-IsManaged s (free_connection c s) refl h
process_message-IsManaged env c invalid_message s h = tt

handle_ready-IsManaged :
    (env : Env) (c : ℕ) (handler : Handler) (s : PlasmaManagerState)
    → IsManaged s
    → Ensures IsManaged (handle_ready env c handler s)
unfolding handle_ready
handle_ready-IsManaged env c unwatched s h = h
handle_ready-IsManaged env c messages s h = h
handle_ready-IsManaged env c data_chunks s h =
    connections s _ h (process_data_chunk-ConnectionsOnly env c s)
handle_ready-IsManaged env c ignored_chunks s h =
    connections s _ h (ignore_data_chunk-ConnectionsOnly env c s)
handle_ready-IsManaged env c queued_requests s h =
    connections s _ h (send_queued_request-ConnectionsOnly env c s)

handle-IsManaged :
    (env : Env) (e : Event) (s : PlasmaManagerState)
    → IsManaged s
    → Ensures IsManaged (handle env e s)
unfolding handle listen init_connection process_object_notification request_status_done
    log_object_hash_mismatch_error_object_callback log_object_hash_mismatch_error_result_callback
    log_object_hash_mismatch_error_task_callback
handle-IsManaged env new_client s h = ConnectionsOnly-IsManaged s (listen s) refl h
handle-IsManaged env fetch_timer s h = fetch_timeout_handler-IsManaged env s h
handle-IsManaged env heartbeat_timer s h =
    Ensures-check s.db IsManaged _ λ _. ConnectionsOnly-IsManaged s (emit send_heartbeat s) refl h
handle-IsManaged env (message c m) s h =
    Ensures-option (lookup c s.manager_connections) IsManaged (ok s) _ (λ _. h)
      λ conn _.
        Ensures-if (is_messages conn.handler) IsManaged _ (ok s)
          (λ _. process_message-IsManaged env c m s h) λ _. h
handle-IsManaged env (ready c) s h =
    Ensures-option (lookup c s.manager_connections) IsManaged (ok s) _ (λ _. h)
      λ conn _. handle_ready-IsManaged env c conn.handler s h
handle-IsManaged env (wait_timer w) s h =
    Ensures-option (lookup w s.wait_requests) IsManaged (ok s) _ (λ _. h)
      λ r found.
        Ensures-if r.timer IsManaged _ (ok s)
          (λ _. waits s _ h (wait_timeout_handler-Waits env w r s found h.0)) λ _. h
handle-IsManaged env (object_notification none) s h = tt
handle-IsManaged env (object_notification (some (o, true))) s h = process_delete-IsManaged o s h
handle-IsManaged env (object_notification (some (o, false))) s h =
    Ensures-mono (Arrived false env o s) IsManaged (process_add_object_notification env o s)
      (λ t arrived. arrived.0)
      (Ensures-Holds false (Arrived false env o s) (process_add_object_notification env o s)
        (process_add-Arrived false env o s h (λ e. absurd cc)))
handle-IsManaged env (object_table_notification o managers) s h =
    object_table_subscribe_callback-IsManaged env o managers s h
handle-IsManaged env (lookup_done c o count) s h =
    Ensures-check (has_key c s.manager_connections) IsManaged _
      λ _. send_status-IsManaged env c o (request_status o count s) s h
handle-IsManaged env (object_added o true) s h = h
handle-IsManaged env (object_added o false) s h =
    ConnectionsOnly-IsManaged s (emit (result_table_lookup o) s) refl h
handle-IsManaged env (result_found none) s h = tt
handle-IsManaged env (result_found (some task_id)) s h =
    ConnectionsOnly-IsManaged s (emit (task_table_get_task task_id) s) refl h
handle-IsManaged env (task_found none) s h = tt
handle-IsManaged env (task_found (some driver_id)) s h =
    ConnectionsOnly-IsManaged s (emit (push_error driver_id) s) refl h

run-IsManaged :
    (env : Env) (es : List Event) (s : PlasmaManagerState)
    → IsManaged s
    → Ensures IsManaged (run env es s)
unfolding run
run-IsManaged env [] s h = h
run-IsManaged env (e ∷ es) s h =
    Ensures->>= IsManaged IsManaged (handle env e s) (run env es) (handle-IsManaged env e s h)
      (run-IsManaged env es)

new_state_empty :
    (db : Bool) (addr port : ℕ) (type : QueryType) (o : ℕ)
    → waiting type o (new_state db addr port) ≡ []
unfolding new_state lookup
new_state_empty db addr port query_local o = refl
new_state_empty db addr port query_anywhere o = refl

new_state-IsManaged : (db : Bool) (addr port : ℕ) → IsManaged (new_state db addr port)
unfolding new_state lookup has_key
new_state-IsManaged db addr port = (
  (
    (λ w type o. ap (count w) (new_state_empty db addr port type o)),
    (λ w r found. absurd cc),
    λ w late. refl,
  ),
  ((λ o known. absurd cc), λ o r found. absurd cc),
)

-- After any callbacks that do not abort the manager: the vector of an object holds exactly the wait
-- requests that wait for it, once each. Of each wait request the count of satisfied objects is right
-- and less than what it waits for. An object that is being fetched is not local, and the next manager
-- to ask for it is one of those that are known, if there are any. The system calls and the store may
-- answer in any way.
pub start_server-IsManaged :
    (env : Env) (db : Bool) (addr port : ℕ) (events : List Event)
    → Ensures IsManaged (start_server env db addr port events)
unfolding start_server
start_server-IsManaged env db addr port events =
    Ensures-check db IsManaged _
      λ _. run-IsManaged env events (new_state db addr port) (new_state-IsManaged db addr port)
