-- ===== src/Plasma/Manager/Fetches.antt =====
-- Fetch requests: src/plasma/plasma_manager.cc.
use ray.Common.{
  ℕ, ◌+◌, ◌%◌, Bool, true, false, ◌&&◌, not, none, some, List, [], ◌∷◌, ◌++◌, length, map,
  get_elem?, Result, ok, fatal, ◌>>=◌, ◌>>◌, check, ◌==◌, if◌then◌else◌,
}
use ray.Common.Maps.{lookup, insert, has_key}
use ray.Plasma.Manager.State.{
  Address, FetchRequest, data_request, queued_requests, watch, PlasmaManagerState, Env, emit, time,
  get_connection, set_connection, status_remote, query_anywhere,
}
use ray.Plasma.Manager.Waits.{is_object_local, request_notifications, update_object_wait_requests}
use ray.Plasma.Manager.Transfers.{get_manager_connection, is_empty}

-- The part of request_transfer_from for a manager that is connected.
unfoldable pub queue_request :
    Env → Address → (object_id c : ℕ) → PlasmaManagerState → Result PlasmaManagerState
queue_request env a object_id c s = do
  check (not ((a.ip == s.addr) && (a.port == s.port)))
  conn ← get_connection c s
  let empty = is_empty conn.transfer_queue
  ok (
      set_connection c
        (record conn {
          handler = if empty && env.adds_file (time s) then queued_requests else conn.handler;
          transfer_queue =
              conn.transfer_queue
              ++ (record {
                type = data_request;
                object_id = object_id;
                data_size = 0;
                metadata_size = 0;
              })
                ∷ [];
        })
        (if empty then emit (watch c) s else s))

-- The fetch request after an attempt.
abbrev pub try_next : FetchRequest → FetchRequest
try_next fetch_req = record fetch_req {
  next_manager = (fetch_req.next_manager + 1) % length fetch_req.manager_vector;
}

unfoldable pub request_transfer_from :
    Env → (object_id : ℕ) → FetchRequest → PlasmaManagerState → Result PlasmaManagerState
request_transfer_from env object_id fetch_req s = do
  check (not (is_empty fetch_req.manager_vector))
  elim (get_elem? fetch_req.manager_vector fetch_req.next_manager) [
    | none ↦ fatal
    | some a ↦ do
      let (found, s₁) = get_manager_connection env a s
      s₂ ← elim found [ none ↦ ok s₁ | some c ↦ queue_request env a object_id c s₁ ]
      ok (record s₂ { fetch_requests = insert object_id (try_next fetch_req) s₂.fetch_requests })
  ]

-- One round of fetch_timeout_handler; the flag tells whether to ask for the object's locations again.
unfoldable pub retry_fetch :
    Env → (object_id : ℕ) → PlasmaManagerState → Result (Bool × PlasmaManagerState)
retry_fetch env object_id s = elim (lookup object_id s.fetch_requests) [
  | none ↦ fatal
  | some fetch_req ↦ if is_empty fetch_req.manager_vector then ok (false, s) else (do
    s' ← request_transfer_from env object_id fetch_req s
    ok ((try_next fetch_req).next_manager == 0, s'))
]

unfoldable pub retry_loop :
    Env → (object_ids : List ℕ) → PlasmaManagerState → Result (List ℕ × PlasmaManagerState)
retry_loop env [] s = ok ([], s)
retry_loop env (o ∷ os) s = do
  (again, s₁) ← retry_fetch env o s
  (asked, s₂) ← retry_loop env os s₁
  ok (if again then o ∷ asked else asked, s₂)

unfoldable pub fetch_timeout_handler : Env → PlasmaManagerState → Result PlasmaManagerState
fetch_timeout_handler env s = do
  (asked, s') ← retry_loop env (map (λ p. p.0) s.fetch_requests) s
  if s'.db then request_notifications asked s' else ok s'

unfoldable pub request_transfer :
    Env
    → (object_id : ℕ) → (managers : List Address) → PlasmaManagerState
    → Result PlasmaManagerState
request_transfer env object_id managers s = do
  check (not (is_empty managers))
  if is_object_local s object_id
      then check (not (has_key object_id s.fetch_requests)) >> ok s
      else (do
        check (has_key object_id s.fetch_requests)
        request_transfer_from env object_id (record { manager_vector = managers; next_manager = 0 })
            s)

unfoldable pub object_present_callback :
    Env
    → (object_id : ℕ) → (managers : List Address) → PlasmaManagerState
    → Result PlasmaManagerState
object_present_callback env object_id managers s = do
  check (not (is_empty managers))
  update_object_wait_requests env object_id query_anywhere status_remote s

unfoldable pub object_table_subscribe_callback :
    Env
    → (object_id : ℕ) → (managers : List Address) → PlasmaManagerState
    → Result PlasmaManagerState
object_table_subscribe_callback env object_id managers s = do
  s' ←
      if has_key object_id s.fetch_requests then request_transfer env object_id managers s else ok s
  object_present_callback env object_id managers s'

-- The loop of process_fetch_requests, with the objects to request notifications for.
unfoldable pub fetch_loop : (object_ids : List ℕ) → PlasmaManagerState → List ℕ × PlasmaManagerState
fetch_loop [] s = ([], s)
fetch_loop (o ∷ os) s = elim (is_object_local s o) [
  | true ↦ fetch_loop os s
  | false ↦ elim (has_key o s.fetch_requests) [
    | true ↦ fetch_loop os s
    | false ↦
        let (asked, s') = fetch_loop os (record s {
          fetch_requests =
              insert o (record { manager_vector = []; next_manager = 0 }) s.fetch_requests;
        }) in
        (o ∷ asked, s')
  ]
]

unfoldable pub process_fetch_requests :
    (object_ids : List ℕ) → PlasmaManagerState → Result PlasmaManagerState
process_fetch_requests object_ids s =
    let (asked, s') = fetch_loop object_ids s in request_notifications asked s'
