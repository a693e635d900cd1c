-- ===== src/Plasma/Manager/State.antt =====
-- The state of the Plasma manager and what it calls: src/plasma/plasma_manager.cc,
-- src/plasma/plasma_manager.h and ObjectRequest of src/plasma/plasma.h.
use ray.Common.{ℕ, Bool, Option, none, some, List, ◌∷◌, length, Result, ok, fatal}
use ray.Common.Maps.{lookup, insert}

-- PLASMA_QUERY_LOCAL and PLASMA_QUERY_ANYWHERE.
pub data QueryType : Type 0 where
  query_local query_anywhere : QueryType

pub data ObjectStatus : Type 0 where
  status_local status_remote status_nonexistent : ObjectStatus

pub record ObjectRequest : Type 0 where
  pub type : QueryType
  pub status : ObjectStatus

-- The address of a manager: `ip` is its four bytes read as a number.
pub record Address : Type 0 where
  pub ip : ℕ
  pub port : ℕ

-- The number of managers is the length of the vector. `next_manager` is not read before it is set.
pub record FetchRequest : Type 0 where
  pub manager_vector : List Address
  pub next_manager : ℕ

-- `timer` tells whether the request has a timer, which fires until the request is removed.
pub record WaitRequest : Type 0 where
  pub client_conn : ℕ
  pub timer : Bool
  pub num_object_requests : ℕ
  pub object_requests : List (ℕ × ObjectRequest)
  pub num_objects_to_wait_for : ℕ
  pub num_satisfied : ℕ

pub data BufferType : Type 0 where
  data_request data_reply : BufferType

pub record PlasmaRequestBuffer : Type 0 where
  pub type : BufferType
  pub object_id : ℕ
  pub data_size : ℕ
  pub metadata_size : ℕ

-- What the event loop does when a connection's socket is ready: nothing, process_message,
-- process_data_chunk, ignore_data_chunk or send_queued_request.
pub data Handler : Type 0 where
  unwatched messages data_chunks ignored_chunks queued_requests : Handler

-- `ip_addr_port` is the key of a connection to another manager, and `none` for a client.
-- `pending_object_transfers` holds the object IDs of the hash table.
pub record ClientConnection : Type 0 where
  pub cursor : ℕ
  pub transfer_queue : List PlasmaRequestBuffer
  pub pending_object_transfers : List ℕ
  pub ignore_buffer : Option PlasmaRequestBuffer
  pub ip_addr_port : Option Address
  pub handler : Handler

-- The calls of the database, the store, the sockets and the clients.
pub data Effect : Type 0 where
  object_table_add object_table_remove object_table_lookup result_table_lookup :
      (object_id : ℕ) → Effect
  object_table_request_notifications : (object_ids : List ℕ) → Effect
  task_table_get_task : (task_id : ℕ) → Effect
  push_error : (driver_id : ℕ) → Effect
  send_heartbeat : Effect
  plasma_get plasma_create plasma_seal plasma_release : (object_id : ℕ) → Effect
  connect : Address → Effect
  watch write_chunk read_chunk : (conn : ℕ) → Effect
  send_data_request send_data_reply : (conn object_id : ℕ) → Effect
  wait_reply : (conn : ℕ) → List (ℕ × ObjectRequest) → Effect
  status_reply : (conn object_id : ℕ) → ObjectStatus → Effect

-- `addr` is what memcmp reads behind the pointer to the manager's address, four bytes of text, as a
-- number. A connection and a wait request are named by their pointers. `effects` holds the calls, the
-- last first.
pub record PlasmaManagerState : Type 0 where
  pub manager_connections : List (ℕ × ClientConnection)
  pub next_connection : ℕ
  pub db : Bool
  pub addr : ℕ
  pub port : ℕ
  pub fetch_requests : List (ℕ × FetchRequest)
  pub object_wait_requests_local : List (ℕ × List ℕ)
  pub object_wait_requests_remote : List (ℕ × List ℕ)
  pub wait_requests : List (ℕ × WaitRequest)
  pub next_wait_request : ℕ
  pub local_available_objects : List ℕ
  pub effects : List Effect

-- A message that is sent: whole, or with the errors that warn_if_sigpipe tells apart.
pub data SendOutcome : Type 0 where
  sent hung_up connection_reset failed : SendOutcome

-- A write of a chunk: all of it, a part of it but not nothing, or an error.
pub data WriteOutcome : Type 0 where
  wrote_all wrote_part : WriteOutcome
  write_error : (reset : Bool) → WriteOutcome

-- What the system calls and the store answer, by the number of calls before: whether a connection
-- is made, whether the event loop takes a socket, the outcomes of sends and writes, the number of
-- bytes read (0 for an error and the end of file), the sizes of an object that the store has, and
-- whether the store creates an object.
pub record Env : Type 0 where
  pub connects : (time : ℕ) → Address → Bool
  pub adds_file : (time : ℕ) → Bool
  pub sends : (time : ℕ) → SendOutcome
  pub writes : (time : ℕ) → (size : ℕ) → WriteOutcome
  pub reads : (time : ℕ) → (size : ℕ) → ℕ
  pub gets : (time object_id : ℕ) → Option (ℕ × ℕ)
  pub creates : (time object_id : ℕ) → Bool

abbrev pub emit : Effect → PlasmaManagerState → PlasmaManagerState
emit e s = record s { effects = e ∷ s.effects }

abbrev pub time : PlasmaManagerState → ℕ
time s = length s.effects

-- warn_if_sigpipe where its result is not used.
abbrev pub warn_if_sigpipe : SendOutcome → PlasmaManagerState → Result PlasmaManagerState
warn_if_sigpipe sent s = ok s
warn_if_sigpipe hung_up s = ok s
warn_if_sigpipe connection_reset s = ok s
warn_if_sigpipe failed s = fatal

-- A connection's struct behind its pointer, and an assignment to it.
abbrev pub get_connection : ℕ → PlasmaManagerState → Result ClientConnection
get_connection c s = elim (lookup c s.manager_connections) [ none ↦ fatal | some conn ↦ ok conn ]

abbrev pub set_connection : ℕ → ClientConnection → PlasmaManagerState → PlasmaManagerState
set_connection c conn s = record s { manager_connections = insert c conn s.manager_connections }
