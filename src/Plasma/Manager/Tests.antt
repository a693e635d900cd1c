-- ===== src/Plasma/Manager/Tests.antt =====
-- Runs of the Plasma manager on concrete callbacks, and instances of the theorems.
use ray.Common.{
  ℕ, ◌≡◌, refl, subst, sym, ◌∙◌, ◌==◌, Bool-cases, inl, inr, true, false, none, some, List, [], ◌∷◌,
  ◌++◌, Result, ok, fatal, ◌>>=◌, Ensures, contains, remove,
}
use ray.Common.Maps.{lookup, insert, erase, has_key}
use ray.Plasma.Manager.State.{
  query_local, query_anywhere, QueryType, ObjectStatus, status_local, status_remote,
  status_nonexistent, ObjectRequest, Address, PlasmaRequestBuffer, data_reply, messages,
  queued_requests, ClientConnection, Effect, wait_reply, write_chunk, send_data_reply,
  send_data_request, object_table_request_notifications, watch, connect, object_table_add,
  WaitRequest, PlasmaManagerState, sent, wrote_part, Env, emit, set_connection,
}
use ray.Plasma.Manager.Waits.{
  add_wait_request_for_object, remove_wait_request_for_object, remove_for_objects, return_from_wait,
  update_loop, update_object_wait_requests, is_object_local, wait_loop, read_requests,
  process_wait_request, wait_timeout_handler,
}
use ray.Plasma.Manager.Transfers.{
  init_connection, find_manager, get_manager_connection, queue_reply, process_transfer_request,
  write_object_chunk, send_buffer, send_queued_request, read_object_chunk, process_data_chunk,
  ignore_data_chunk, process_data_request,
}
use ray.Plasma.Manager.Fetches.{
  queue_request, request_transfer_from, retry_fetch, retry_loop, fetch_timeout_handler,
  request_transfer, object_present_callback, object_table_subscribe_callback, fetch_loop,
  process_fetch_requests,
}
use ray.Plasma.Manager.Server.{
  process_add_object_notification, process_object_notification, disconnect_client, process_message,
  wait_request, fetch_request, listen, Event, new_client, message, ready, fetch_timer, wait_timer,
  object_notification, object_table_notification, handle_ready, handle, run, new_state,
  start_server,
}
use ray.Plasma.Manager.Waiting.{CanReply, awaits, Served}
use ray.Plasma.Manager.Fetching.{IsManaged}
use ray.Plasma.Manager.Arrivals.{process_add_object_notification-Completes}
use ray.Plasma.Manager.Invariant.{start_server-IsManaged}
use ray.Plasma.Manager.Faults.{sent_with, wait_timer_disconnected, send_queued_request_partly}

program : Unit {0}
unfolding contains remove lookup insert erase has_key add_wait_request_for_object
    remove_wait_request_for_object remove_for_objects return_from_wait update_loop
    update_object_wait_requests wait_loop read_requests process_wait_request wait_timeout_handler
    init_connection find_manager get_manager_connection queue_reply process_transfer_request
    write_object_chunk send_buffer send_queued_request read_object_chunk process_data_chunk
    ignore_data_chunk process_data_request queue_request request_transfer_from retry_fetch
    retry_loop fetch_timeout_handler request_transfer object_present_callback
    object_table_subscribe_callback fetch_loop process_fetch_requests
    process_add_object_notification process_object_notification process_message listen handle_ready
    handle run new_state start_server
program = tt

abbrev env : Env
env = record {
  connects = λ time a. true;
  adds_file = λ time. true;
  sends = λ time. sent;
  writes = λ time size. wrote_part;
  reads = λ time size. size;
  gets = λ time o. some (3, 1);
  creates = λ time o. true;
}

abbrev managed : List Event → Result PlasmaManagerState
managed events = start_server env true 0 7 events

abbrev calls : Result PlasmaManagerState → List Effect
calls fatal = []
calls (ok s) = s.effects

-- A client waits for two of three objects.
abbrev waits : List Event
waits =
    new_client
    ∷ message 0 (wait_request ((5, query_local) ∷ (6, query_anywhere) ∷ (8, query_local) ∷ []) 2)
    ∷ []

abbrev asked : (status : ObjectStatus) → QueryType → ObjectRequest
asked status type = record { type = type; status = status }

-- The first is local at last, the second was found elsewhere.
waits_calls :
    calls (
      managed (
        waits
        ++ object_table_notification 6 (record { ip = 9; port = 1 } ∷ [])
          ∷ object_notification (some (5, false))
          ∷ []))
    ≡ wait_reply 0 (
        (5, asked status_local query_local)
        ∷ (6, asked status_remote query_anywhere)
        ∷ (8, asked status_nonexistent query_local)
        ∷ [])
      ∷ object_table_add 5
      ∷ object_table_request_notifications (6 ∷ [])
      ∷ []
unfolding program
waits_calls = refl

-- A wait for an object that is named twice aborts the manager when it returns.
named_twice :
    managed (
      new_client
      ∷ message 0 (wait_request ((5, query_local) ∷ (5, query_local) ∷ []) 1)
      ∷ object_notification (some (5, false))
      ∷ [])
    ≡ fatal
unfolding program
named_twice = refl

-- Two managers have an object: the timer asks the second, and then for the locations again.
abbrev two_managers : List Address
two_managers = record { ip = 9; port = 1 } ∷ record { ip = 9; port = 2 } ∷ []

fetch_calls :
    calls (
      managed (
        new_client
        ∷ message 0 (fetch_request (5 ∷ []))
        ∷ object_table_notification 5 two_managers
        ∷ fetch_timer
        ∷ ready 1
        ∷ ready 2
        ∷ []))
    ≡ send_data_request 2 5
      ∷ send_data_request 1 5
      ∷ object_table_request_notifications (5 ∷ [])
      ∷ watch 2
      ∷ connect (record { ip = 9; port = 2 })
      ∷ watch 1
      ∷ connect (record { ip = 9; port = 1 })
      ∷ object_table_request_notifications (5 ∷ [])
      ∷ []
unfolding program
fetch_calls = refl

start_server-IsManaged_example : Ensures IsManaged (start_server env true 0 7 waits)
start_server-IsManaged_example = start_server-IsManaged env true 0 7 waits

abbrev wait_req : WaitRequest
wait_req = record {
  client_conn = 0;
  timer = true;
  num_object_requests = 1;
  object_requests = (5, asked status_nonexistent query_local) ∷ [];
  num_objects_to_wait_for = 1;
  num_satisfied = 0;
}

abbrev client : ClientConnection
client = record {
  cursor = 0;
  transfer_queue = [];
  pending_object_transfers = [];
  ignore_buffer = none;
  ip_addr_port = none;
  handler = messages;
}

-- One client that waits for the object 5.
abbrev one_waits : PlasmaManagerState
one_waits = record {
  manager_connections = (0, client) ∷ [];
  next_connection = 1;
  db = true;
  addr = 0;
  port = 7;
  fetch_requests = [];
  object_wait_requests_local = (5, 0 ∷ []) ∷ [];
  object_wait_requests_remote = [];
  wait_requests = (0, wait_req) ∷ [];
  next_wait_request = 1;
  local_available_objects = [];
  effects = [];
}

one_event :
    managed (new_client ∷ message 0 (wait_request ((5, query_local) ∷ []) 1) ∷ []) ≡ ok one_waits
unfolding program
one_event = refl

one_waits-IsManaged : IsManaged one_waits
one_waits-IsManaged = subst (Ensures IsManaged) one_event (
    start_server-IsManaged env true 0 7
      (new_client ∷ message 0 (wait_request ((5, query_local) ∷ []) 1) ∷ []))

one_waits-Served : Served one_waits
unfolding lookup has_key
one_waits-Served w r found = elim (Bool-cases (0 == w)) [
  | inl hit ↦
      let e : lookup w one_waits.wait_requests ≡ some wait_req = rw hit refl in
      let f : some wait_req ≡ some r = sym e ∙ found in
      let k : wait_req ≡ r = cc in subst (CanReply one_waits) k (refl, refl)
  | inr miss ↦
      let e : lookup w one_waits.wait_requests ≡ none = rw miss refl in
      let f : none ≡ some r = sym e ∙ found in absurd cc
]

process_add_object_notification-Completes_example :
    (t : PlasmaManagerState) × (process_add_object_notification env 5 one_waits ≡ ok t)
    × IsManaged t
    × ((w : ℕ) (type : QueryType) → awaits w type 5 t ≡ false)
    × (has_key 5 t.fetch_requests ≡ false)
    × (is_object_local t 5 ≡ true)
process_add_object_notification-Completes_example =
    process_add_object_notification-Completes env 5 one_waits one_waits-IsManaged one_waits-Served
      λ n. refl

wait_timer_disconnected_example :
    (process_message env 0 disconnect_client one_waits >>= handle env (wait_timer 0)) ≡ fatal
unfolding program
wait_timer_disconnected_example = wait_timer_disconnected env 0 wait_req one_waits refl refl

abbrev transfer : PlasmaRequestBuffer
transfer = record { type = data_reply; object_id = 5; data_size = 3; metadata_size = 1 }

abbrev sending : ClientConnection
sending = record client {
  transfer_queue = transfer ∷ [];
  pending_object_transfers = 5 ∷ [];
  handler = queued_requests;
}

abbrev one_sends : PlasmaManagerState
one_sends = record one_waits { manager_connections = (0, sending) ∷ [] }

send_queued_request_partly_example :
    send_queued_request env 0 one_sends
    ≡ ok (
        set_connection 0
          (sent_with transfer [] sending)
          (emit (write_chunk 0) (emit (send_data_reply 0 5) one_sends)))
unfolding program
send_queued_request_partly_example =
    send_queued_request_partly env 0 sending transfer [] one_sends refl refl refl refl refl refl
