-- ===== src/Plasma/Manager/Transfers.antt =====
-- Connections to other managers and the objects that go over them: src/plasma/plasma_manager.cc.
use ray.Common.{
  ℕ, ◌+◌, ◌-◌, min, Bool, true, false, ◌&&◌, not, Option, none, some, List, [], ◌∷◌, ◌++◌, Result,
  ok, fatal, ◌>>=◌, ◌>>◌, check, ◌==◌, contains, remove, if◌then◌else◌,
}
use ray.Common.Maps.{insert, erase}
use ray.Plasma.Manager.State.{
  Address, PlasmaRequestBuffer, data_request, data_reply, Handler, unwatched, messages, data_chunks,
  ignored_chunks, queued_requests, ClientConnection, plasma_get, plasma_create, plasma_seal,
  plasma_release, connect, watch, write_chunk, read_chunk, send_data_request, send_data_reply,
  PlasmaManagerState, SendOutcome, sent, hung_up, connection_reset, failed, wrote_all, wrote_part,
  write_error, Env, emit, time, get_connection, set_connection,
}

abbrev pub bufsize : ℕ
bufsize = 4096

-- ClientConnection_init, with the handler that its caller gives the socket.
unfoldable pub init_connection :
    (ip_addr_port : Option Address) → Handler → PlasmaManagerState → PlasmaManagerState
init_connection ip_addr_port handler s = record s {
  manager_connections =
      insert s.next_connection
        (record {
          cursor = 0;
          transfer_queue = [];
          pending_object_transfers = [];
          ignore_buffer = none;
          ip_addr_port = ip_addr_port;
          handler = handler;
        })
        s.manager_connections;
  next_connection = s.next_connection + 1;
}

-- ClientConnection_free
abbrev pub free_connection : (c : ℕ) → PlasmaManagerState → PlasmaManagerState
free_connection c s = record s { manager_connections = erase c s.manager_connections }

abbrev pub is_key : Address → Option Address → Bool
is_key a none = false
is_key a (some b) = (a.ip == b.ip) && (a.port == b.port)

unfoldable pub find_manager : Address → List (ℕ × ClientConnection) → Option ℕ
find_manager a [] = none
find_manager a ((c, conn) ∷ connections) =
    if is_key a conn.ip_addr_port then some c else find_manager a connections

unfoldable pub get_manager_connection :
    Env → Address → PlasmaManagerState → Option ℕ × PlasmaManagerState
get_manager_connection env a s = elim (find_manager a s.manager_connections) [
  | some c ↦ (some c, s)
  | none ↦
      if env.connects (time s) a
      then (some s.next_connection, init_connection (some a) unwatched (emit (connect a) s))
      else (none, emit (connect a) s)
]

abbrev pub is_empty {ℓ} : {A : Type ℓ} → List A → Bool
is_empty [] = true
is_empty (x ∷ xs) = false

-- The part of process_transfer_request for an object that the store has: the connection is watched
-- again if its queue was empty, and freed if that fails.
unfoldable pub queue_reply :
    Env → (object_id c data_size metadata_size : ℕ) → PlasmaManagerState → Result PlasmaManagerState
queue_reply env object_id c data_size metadata_size s = do
  conn ← get_connection c s
  let empty = is_empty conn.transfer_queue
  if empty && not (env.adds_file (time s))
      then ok (free_connection c (emit (watch c) s))
      else ok (
          set_connection c
            (record conn {
              handler = if empty then queued_requests else conn.handler;
              transfer_queue =
                  conn.transfer_queue
                  ++ (record {
                    type = data_reply;
                    object_id = object_id;
                    data_size = data_size;
                    metadata_size = metadata_size;
                  })
                    ∷ [];
              pending_object_transfers = conn.pending_object_transfers ++ object_id ∷ [];
            })
            (if empty then emit (watch c) s else s))

unfoldable pub process_transfer_request :
    Env → (object_id : ℕ) → Address → PlasmaManagerState → Result PlasmaManagerState
process_transfer_request env object_id a s =
    let (found, s') = get_manager_connection env a s in
    elim found [
      | none ↦ ok s'
      | some c ↦ do
        conn ← get_connection c s'
        if contains object_id conn.pending_object_transfers
            then ok s'
            else (elim (env.gets (time s') object_id) [
              | none ↦ ok (emit (plasma_get object_id) s')
              | some (data_size, metadata_size) ↦
                  queue_reply env object_id c data_size metadata_size
                    (emit (plasma_get object_id) s')
            ])
    ]

-- The error code of warn_if_sigpipe and of write_object_chunk: none, ECONNRESET or another.
pub data Err : Type 0 where
  no_err err_reset err_other : Err

abbrev pub err_of_send : SendOutcome → Result Err
err_of_send sent = ok no_err
err_of_send hung_up = ok err_other
err_of_send connection_reset = ok err_reset
err_of_send failed = fatal

-- The size of the next chunk.
abbrev pub chunk_size : ClientConnection → PlasmaRequestBuffer → ℕ
chunk_size conn buf = min (buf.data_size + buf.metadata_size - conn.cursor) bufsize

unfoldable pub write_object_chunk :
    Env
    → (c : ℕ) → ClientConnection
    → PlasmaRequestBuffer
    → PlasmaManagerState
    → Err × ClientConnection × PlasmaManagerState
write_object_chunk env c conn buf s =
    let size = chunk_size conn buf in
    let s' = emit (write_chunk c) s in
    elim (env.writes (time s) size) [
      | wrote_all ↦
          if size == 0
          then (no_err, record conn { cursor = 0 }, emit (plasma_release buf.object_id) s')
          else (no_err, record conn { cursor = conn.cursor + size }, s')
      | wrote_part ↦ (no_err, conn, s')
      | write_error true ↦ (err_reset, conn, s')
      | write_error false ↦ (err_other, conn, s')
    ]

-- The switch of send_queued_request.
unfoldable pub send_buffer :
    Env
    → (c : ℕ) → ClientConnection
    → PlasmaRequestBuffer
    → PlasmaManagerState
    → Result (Err × ClientConnection × PlasmaManagerState)
send_buffer env c conn buf s = elim buf.type [
  | data_request ↦ do
    err ← err_of_send (env.sends (time s))
    ok (err, conn, emit (send_data_request c buf.object_id) s)
  | data_reply ↦
      if conn.cursor == 0
      then (do
        err ← err_of_send (env.sends (time s))
        let s' = emit (send_data_reply c buf.object_id) s
        elim err [
          | no_err ↦ ok (write_object_chunk env c conn buf s')
          | err_reset ↦ ok (err_reset, conn, s')
          | err_other ↦ ok (err_other, conn, s')
        ])
      else ok (write_object_chunk env c conn buf s)
]

-- The connection once its first buffer is sent: a transferred object is not pending any more.
abbrev pub dequeue :
    PlasmaRequestBuffer → List PlasmaRequestBuffer → ClientConnection → ClientConnection
dequeue buf rest conn = record conn {
  transfer_queue = rest;
  pending_object_transfers = elim buf.type [
    | data_request ↦ conn.pending_object_transfers
    | data_reply ↦ remove buf.object_id conn.pending_object_transfers
  ];
}

unfoldable pub send_queued_request : Env → (c : ℕ) → PlasmaManagerState → Result PlasmaManagerState
send_queued_request env c s = do
  conn ← get_connection c s
  elim conn.transfer_queue [
    | [] ↦ ok (set_connection c (record conn { handler = unwatched }) s)
    | buf ∷ rest ↦ do
      (err, conn', s') ← send_buffer env c conn buf s
      elim err [
        | no_err ↦
            ok (set_connection c (if conn'.cursor == 0 then dequeue buf rest conn' else conn') s')
        | err_reset ↦ ok s'
        | err_other ↦ ok (free_connection c s')
      ]
  ]

-- The connection after a read, and whether the object is complete.
unfoldable pub read_object_chunk :
    Env
    → (c : ℕ) → ClientConnection
    → PlasmaRequestBuffer
    → PlasmaManagerState
    → Bool × ClientConnection
read_object_chunk env c conn buf s =
    let size = chunk_size conn buf in
    let cursor = conn.cursor + min (env.reads (time s) size) size in
    if cursor == buf.data_size + buf.metadata_size
    then (true, record conn { cursor = 0 })
    else (false, record conn { cursor = cursor })

unfoldable pub process_data_chunk : Env → (c : ℕ) → PlasmaManagerState → Result PlasmaManagerState
process_data_chunk env c s = do
  conn ← get_connection c s
  elim conn.transfer_queue [
    | [] ↦ fatal
    | buf ∷ rest ↦
        let (complete, conn') = read_object_chunk env c conn buf s in
        let s' = emit (read_chunk c) s in
        ok (
          if complete
          then set_connection c (record conn' { transfer_queue = rest; handler = messages })
              (emit (plasma_release buf.object_id) (emit (plasma_seal buf.object_id) s'))
          else set_connection c conn' s')
  ]

unfoldable pub ignore_data_chunk : Env → (c : ℕ) → PlasmaManagerState → Result PlasmaManagerState
ignore_data_chunk env c s = do
  conn ← get_connection c s
  elim conn.ignore_buffer [
    | none ↦ fatal
    | some buf ↦
        let (complete, conn') = read_object_chunk env c conn buf s in
        let s' = emit (read_chunk c) s in
        ok (
          if complete
          then set_connection c (record conn' { handler = messages }) s'
          else set_connection c conn' s')
  ]

-- The type of a buffer for reading is not set, and never read.
unfoldable pub process_data_request :
    Env → (c object_id data_size metadata_size : ℕ) → PlasmaManagerState → Result PlasmaManagerState
process_data_request env c object_id data_size metadata_size s = do
  conn ← get_connection c s
  check (conn.cursor == 0)
  let buf : PlasmaRequestBuffer = record {
    type = data_reply;
    object_id = object_id;
    data_size = data_size;
    metadata_size = metadata_size;
  }
  let s' = emit (watch c) (emit (plasma_create object_id) s)
  if not (env.adds_file (time s))
      then ok (free_connection c s')
      else if env.creates (time s) object_id
      then ok (
          set_connection c
            (record conn {
              transfer_queue = conn.transfer_queue ++ buf ∷ [];
              handler = data_chunks;
            })
            s')
      else ok
          (set_connection c (record conn { ignore_buffer = some buf; handler = ignored_chunks }) s')
