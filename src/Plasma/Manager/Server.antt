-- ===== src/Plasma/Manager/Server.antt =====
-- Notifications, status requests, messages and the event loop: src/plasma/plasma_manager.cc.
use ray.Common.{
  ℕ, Bool, true, false, not, Option, none, some, List, [], ◌∷◌, length, Result, ok, fatal, ◌>>=◌,
  ◌>>◌, check, ltb, remove, if◌then◌else◌, ◌++◌,
}
use ray.Common.Maps.{lookup, erase, has_key}
use ray.Plasma.Manager.State.{
  QueryType, query_local, query_anywhere, ObjectStatus, status_local, status_remote,
  status_nonexistent, Address, Handler, unwatched, messages, data_chunks, ignored_chunks,
  queued_requests, object_table_add, object_table_remove, object_table_lookup, result_table_lookup,
  task_table_get_task, push_error, send_heartbeat, status_reply, PlasmaManagerState, Env, emit,
  time, warn_if_sigpipe,
}
use ray.Plasma.Manager.Waits.{
  is_object_local, update_object_wait_requests, read_requests, process_wait_request,
  wait_timeout_handler,
}
use ray.Plasma.Manager.Transfers.{
  init_connection, free_connection, process_transfer_request, process_data_request,
  send_queued_request, process_data_chunk, ignore_data_chunk,
}
use ray.Plasma.Manager.Fetches.{
  fetch_timeout_handler, object_table_subscribe_callback, process_fetch_requests,
}

-- A reply to a status request, on the client's connection.
abbrev pub send_status :
    Env → (c object_id : ℕ) → ObjectStatus → PlasmaManagerState → Result PlasmaManagerState
send_status env c object_id status s =
    warn_if_sigpipe (env.sends (time s)) (emit (status_reply c object_id status) s)

unfoldable pub request_status :
    (object_id : ℕ) → (manager_count : ℕ) → PlasmaManagerState → ObjectStatus
request_status object_id manager_count s =
    if is_object_local s object_id
    then status_local
    else if ltb 0 manager_count
    then status_remote
    else status_nonexistent

unfoldable pub request_status_done :
    Env → (c object_id manager_count : ℕ) → PlasmaManagerState → Result PlasmaManagerState
request_status_done env c object_id manager_count s = do
  check (has_key c s.manager_connections)
  send_status env c object_id (request_status object_id manager_count s) s

unfoldable pub process_status_request :
    Env → (c object_id : ℕ) → PlasmaManagerState → Result PlasmaManagerState
process_status_request env c object_id s =
    if is_object_local s object_id
    then send_status env c object_id status_local s
    else if not s.db
    then send_status env c object_id status_nonexistent s
    else ok (emit (object_table_lookup object_id) s)

unfoldable pub process_delete_object_notification :
    (object_id : ℕ) → PlasmaManagerState → PlasmaManagerState
process_delete_object_notification object_id s = record s {
  local_available_objects = remove object_id s.local_available_objects;
  effects = if s.db then object_table_remove object_id ∷ s.effects else s.effects;
}

-- The part of process_add_object_notification before the wait requests.
abbrev pub add_object : (object_id : ℕ) → PlasmaManagerState → PlasmaManagerState
add_object object_id s = record s {
  local_available_objects = s.local_available_objects ++ object_id ∷ [];
  effects = if s.db then object_table_add object_id ∷ s.effects else s.effects;
  fetch_requests = erase object_id s.fetch_requests;
}

unfoldable pub process_add_object_notification :
    Env → (object_id : ℕ) → PlasmaManagerState → Result PlasmaManagerState
process_add_object_notification env object_id s = do
  s' ← update_object_wait_requests env object_id query_local status_local (add_object object_id s)
  update_object_wait_requests env object_id query_anywhere status_local s'

-- `none` is a lost connection to the store.
unfoldable pub process_object_notification :
    Env → (notification : Option (ℕ × Bool)) → PlasmaManagerState → Result PlasmaManagerState
process_object_notification env none s = fatal
process_object_notification env (some (object_id, true)) s =
    ok (process_delete_object_notification object_id s)
process_object_notification env (some (object_id, false)) s =
    process_add_object_notification env object_id s

-- The three callbacks that follow an addition to the object table.

unfoldable pub log_object_hash_mismatch_error_object_callback :
    (object_id : ℕ) → (success : Bool) → PlasmaManagerState → PlasmaManagerState
log_object_hash_mismatch_error_object_callback object_id true s = s
log_object_hash_mismatch_error_object_callback object_id false s =
    emit (result_table_lookup object_id) s

-- A nil task ID is `none`.
unfoldable pub log_object_hash_mismatch_error_result_callback :
    (task_id : Option ℕ) → PlasmaManagerState → Result PlasmaManagerState
log_object_hash_mismatch_error_result_callback none s = fatal
log_object_hash_mismatch_error_result_callback (some task_id) s =
    ok (emit (task_table_get_task task_id) s)

-- Of the task only its driver is read.
unfoldable pub log_object_hash_mismatch_error_task_callback :
    (driver_id : Option ℕ) → PlasmaManagerState → Result PlasmaManagerState
log_object_hash_mismatch_error_task_callback none s = fatal
log_object_hash_mismatch_error_task_callback (some driver_id) s = ok (emit (push_error driver_id) s)

-- A message on a connection, as it is read.
pub data Message : Type 0 where
  data_request_message : (object_id : ℕ) → Address → Message
  data_reply_message : (object_id object_size metadata_size : ℕ) → Message
  fetch_request : (object_ids : List ℕ) → Message
  wait_request : List (ℕ × QueryType) → (num_ready_objects : ℕ) → Message
  status_request : (object_ids : List ℕ) → Message
  disconnect_client : Message
  invalid_message : Message

unfoldable pub process_message :
    Env → (c : ℕ) → Message → PlasmaManagerState → Result PlasmaManagerState
process_message env c (data_request_message object_id a) s =
    process_transfer_request env object_id a s
process_message env c (data_reply_message object_id object_size metadata_size) s =
    process_data_request env c object_id object_size metadata_size s
process_message env c (fetch_request object_ids) s = process_fetch_requests object_ids s
process_message env c (wait_request specs num_ready_objects) s =
    process_wait_request env c (length specs) (read_requests specs []) num_ready_objects s
process_message env c (status_request []) s = fatal
process_message env c (status_request (o ∷ [])) s = process_status_request env c o s
process_message env c (status_request (o ∷ p ∷ os)) s = fatal
process_message env c disconnect_client s = ok (free_connection c s)
process_message env c invalid_message s = fatal

-- ClientConnection_listen
unfoldable pub listen : PlasmaManagerState → PlasmaManagerState
listen s = init_connection none messages s

pub data Event : Type 0 where
  new_client fetch_timer heartbeat_timer : Event
  message : (c : ℕ) → Message → Event
  ready : (c : ℕ) → Event
  wait_timer : (w : ℕ) → Event
  object_notification : Option (ℕ × Bool) → Event
  object_table_notification : (object_id : ℕ) → List Address → Event
  lookup_done : (c object_id manager_count : ℕ) → Event
  object_added : (object_id : ℕ) → (success : Bool) → Event
  result_found : (task_id : Option ℕ) → Event
  task_found : (driver_id : Option ℕ) → Event

-- A socket that is ready for its handler, other than process_message.
unfoldable pub handle_ready :
    Env → (c : ℕ) → Handler → PlasmaManagerState → Result PlasmaManagerState
handle_ready env c unwatched s = ok s
handle_ready env c messages s = ok s
handle_ready env c data_chunks s = process_data_chunk env c s
handle_ready env c ignored_chunks s = ignore_data_chunk env c s
handle_ready env c queued_requests s = send_queued_request env c s

abbrev pub is_messages : Handler → Bool
is_messages handler = elim handler [ messages ↦ true | _ ↦ false ]

-- The event loop calls only the handlers that are registered, and the timers that there are.
unfoldable pub handle : Env → Event → PlasmaManagerState → Result PlasmaManagerState
handle env new_client s = ok (listen s)
handle env fetch_timer s = fetch_timeout_handler env s
handle env heartbeat_timer s = check s.db >> ok (emit send_heartbeat s)
handle env (message c m) s = elim (lookup c s.manager_connections) [
  | none ↦ ok s
  | some conn ↦ if is_messages conn.handler then process_message env c m s else ok s
]
handle env (ready c) s = elim (lookup c s.manager_connections) [
  | none ↦ ok s
  | some conn ↦ handle_ready env c conn.handler s
]
handle env (wait_timer w) s = elim (lookup w s.wait_requests) [
  | none ↦ ok s
  | some wait_req ↦ if wait_req.timer then wait_timeout_handler env w s else ok s
]
handle env (object_notification notification) s = process_object_notification env notification s
handle env (object_table_notification object_id managers) s =
    object_table_subscribe_callback env object_id managers s
handle env (lookup_done c object_id manager_count) s =
    request_status_done env c object_id manager_count s
handle env (object_added object_id success) s =
    ok (log_object_hash_mismatch_error_object_callback object_id success s)
handle env (result_found task_id) s = log_object_hash_mismatch_error_result_callback task_id s
handle env (task_found driver_id) s = log_object_hash_mismatch_error_task_callback driver_id s

unfoldable pub run : Env → List Event → PlasmaManagerState → Result PlasmaManagerState
run env [] s = ok s
run env (e ∷ es) s = handle env e s >>= run env es

-- PlasmaManagerState_init, with a database or without.
unfoldable pub new_state : (db : Bool) → (addr port : ℕ) → PlasmaManagerState
new_state db addr port = record {
  manager_connections = [];
  next_connection = 0;
  db = db;
  addr = addr;
  port = port;
  fetch_requests = [];
  object_wait_requests_local = [];
  object_wait_requests_remote = [];
  wait_requests = [];
  next_wait_request = 0;
  local_available_objects = [];
  effects = [];
}

-- object_table_subscribe_to_notifications needs a database.
unfoldable pub start_server :
    Env → (db : Bool) → (addr port : ℕ) → List Event → Result PlasmaManagerState
start_server env db addr port events = check db >> run env events (new_state db addr port)
