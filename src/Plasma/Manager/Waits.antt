-- ===== src/Plasma/Manager/Waits.antt =====
-- Wait requests: src/plasma/plasma_manager.cc, and plasma_read_WaitRequest of
-- src/plasma/plasma_protocol.cc.
use ray.Common.{
  ℕ, zero, suc, ◌+◌, Bool, true, false, Option, none, some, List, [], ◌∷◌, ◌++◌, length, get_elem?,
  Result, ok, fatal, ◌>>=◌, ◌>>◌, check, ◌==◌, leb, contains, remove, not, if◌then◌else◌,
}
use ray.Common.Maps.{lookup, insert, erase, has_key}
use ray.Plasma.Manager.State.{
  QueryType, query_local, query_anywhere, ObjectStatus, status_local, status_nonexistent,
  ObjectRequest, WaitRequest, wait_reply, object_table_request_notifications, PlasmaManagerState,
  Env, emit, time, warn_if_sigpipe,
}

-- object_wait_requests_table_ptr_from_type, for reading and for writing.

abbrev pub table : QueryType → PlasmaManagerState → List (ℕ × List ℕ)
table query_local s = s.object_wait_requests_local
table query_anywhere s = s.object_wait_requests_remote

abbrev pub set_table : QueryType → List (ℕ × List ℕ) → PlasmaManagerState → PlasmaManagerState
set_table query_local m s = record s { object_wait_requests_local = m }
set_table query_anywhere m s = record s { object_wait_requests_remote = m }

-- The vector of an ObjectWaitRequests struct; without a struct it is empty.
abbrev pub vector_of : Option (List ℕ) → List ℕ
vector_of none = []
vector_of (some ws) = ws

abbrev pub waiting : QueryType → (object_id : ℕ) → PlasmaManagerState → List ℕ
waiting type object_id s = vector_of (lookup object_id (table type s))

unfoldable pub add_wait_request_for_object :
    (object_id : ℕ) → QueryType → (w : ℕ) → PlasmaManagerState → PlasmaManagerState
add_wait_request_for_object object_id type w s =
    set_table type (insert object_id (waiting type object_id s ++ w ∷ []) (table type s)) s

unfoldable pub remove_wait_request_for_object :
    (object_id : ℕ) → QueryType → (w : ℕ) → PlasmaManagerState → PlasmaManagerState
remove_wait_request_for_object object_id type w s = elim (lookup object_id (table type s)) [
  | none ↦ s
  | some ws ↦ set_table type (insert object_id (remove w ws) (table type s)) s
]

-- The wait request goes together with its timer.
abbrev pub remove_wait_request : (w : ℕ) → PlasmaManagerState → PlasmaManagerState
remove_wait_request w s = record s { wait_requests = erase w s.wait_requests }

-- The loop of return_from_wait.
unfoldable pub remove_for_objects :
    (w : ℕ) → List (ℕ × ObjectRequest) → PlasmaManagerState → PlasmaManagerState
remove_for_objects w [] s = s
remove_for_objects w ((object_id, request) ∷ requests) s =
    remove_for_objects w requests (remove_wait_request_for_object object_id request.type w s)

-- The reply is made from the first num_object_requests items of a vector that has one item for each
-- object request.
unfoldable pub return_from_wait : Env → (w : ℕ) → PlasmaManagerState → Result PlasmaManagerState
return_from_wait env w s = elim (lookup w s.wait_requests) [
  | none ↦ fatal
  | some wait_req ↦ do
    check (has_key wait_req.client_conn s.manager_connections)
    check (leb wait_req.num_object_requests (length wait_req.object_requests))
    s' ←
        warn_if_sigpipe (env.sends (time s))
          (emit (wait_reply wait_req.client_conn wait_req.object_requests) s)
    ok (remove_wait_request w (remove_for_objects w wait_req.object_requests s'))
]

abbrev pub is_nonexistent : ObjectStatus → Bool
is_nonexistent status = elim status [ status_nonexistent ↦ true | _ ↦ false ]

-- The wait request once one more of its objects is there.
abbrev pub satisfy : (object_id : ℕ) → ObjectStatus → ObjectRequest → WaitRequest → WaitRequest
satisfy object_id status request wait_req = record wait_req {
  num_satisfied = wait_req.num_satisfied + 1;
  object_requests = insert object_id (record request { status = status }) wait_req.object_requests;
}

abbrev pub is_done : WaitRequest → Bool
is_done wait_req = wait_req.num_satisfied == wait_req.num_objects_to_wait_for

-- The loop of update_object_wait_requests over the vector, which gives the last index.
unfoldable pub update_loop :
    Env
    → (rounds index object_id : ℕ) → QueryType
    → ObjectStatus
    → PlasmaManagerState
    → Result (ℕ × PlasmaManagerState)
update_loop env zero index object_id type status s = ok (index, s)
update_loop env (suc n) index object_id type status s =
    elim (get_elem? (waiting type object_id s) index) [
      | none ↦ fatal
      | some w ↦ elim (lookup w s.wait_requests) [
        | none ↦ fatal
        | some wait_req ↦ elim (lookup object_id wait_req.object_requests) [
          | none ↦ fatal
          | some request ↦ do
            check (is_nonexistent request.status)
            let updated = satisfy object_id status request wait_req
            let s' = record s { wait_requests = insert w updated s.wait_requests }
            elim (is_done updated) [
              | true ↦ return_from_wait env w s' >>= update_loop env n index object_id type status
              | false ↦ update_loop env n (index + 1) object_id type status s'
            ]
        ]
      ]
    ]

unfoldable pub update_object_wait_requests :
    Env
    → (object_id : ℕ) → QueryType
    → ObjectStatus
    → PlasmaManagerState
    → Result PlasmaManagerState
update_object_wait_requests env object_id type status s =
    if has_key object_id (table type s)
    then (do
      (index, s') ← update_loop env (length (waiting type object_id s)) 0 object_id type status s
      check (index == length (waiting type object_id s'))
      ok (set_table type (erase object_id (table type s')) s'))
    else ok s

abbrev pub is_object_local : PlasmaManagerState → (object_id : ℕ) → Bool
is_object_local s object_id = contains object_id s.local_available_objects

-- What the loop of process_wait_request leaves: the object requests, the number of satisfied ones,
-- and the objects to request notifications for.
pub record Started : Type 0 where
  pub requests : List (ℕ × ObjectRequest)
  pub num_satisfied : ℕ
  pub object_ids_to_request : List ℕ
  pub state : PlasmaManagerState

-- Only for an object that may be anywhere are notifications requested.
abbrev pub requested_if_remote : QueryType → (object_id : ℕ) → List ℕ → List ℕ
requested_if_remote query_local object_id os = os
requested_if_remote query_anywhere object_id os = object_id ∷ os

unfoldable pub wait_loop : (w : ℕ) → List (ℕ × ObjectRequest) → PlasmaManagerState → Started
wait_loop w [] s = record {
  requests = [];
  num_satisfied = 0;
  object_ids_to_request = [];
  state = s;
}
wait_loop w ((object_id, request) ∷ requests) s = elim (is_object_local s object_id) [
  | true ↦
      let rest = wait_loop w requests s in
      record rest {
        requests = (object_id, record request { status = status_local }) ∷ rest.requests;
        num_satisfied = rest.num_satisfied + 1;
      }
  | false ↦
      let rest = wait_loop w requests (add_wait_request_for_object object_id request.type w s) in
      record rest {
        requests = (object_id, request) ∷ rest.requests;
        object_ids_to_request =
            requested_if_remote request.type object_id rest.object_ids_to_request;
      }
]

-- object_table_request_notifications for a vector that may be empty.
abbrev pub request_notifications : List ℕ → PlasmaManagerState → Result PlasmaManagerState
request_notifications [] s = ok s
request_notifications (o ∷ os) s =
    check s.db >> ok (emit (object_table_request_notifications (o ∷ os)) s)

-- plasma_read_WaitRequest: a later request for an object takes the place of an earlier one.
unfoldable pub read_requests :
    List (ℕ × QueryType) → List (ℕ × ObjectRequest) → List (ℕ × ObjectRequest)
read_requests [] m = m
read_requests ((object_id, type) ∷ specs) m =
    read_requests specs (insert object_id (record { type = type; status = status_nonexistent }) m)

unfoldable pub process_wait_request :
    Env
    → (conn : ℕ) → (num_object_requests : ℕ) → List (ℕ × ObjectRequest)
    → (num_ready_objects : ℕ) → PlasmaManagerState
    → Result PlasmaManagerState
process_wait_request env conn num_object_requests object_requests num_ready_objects s =
    let w = s.next_wait_request in
    let started = wait_loop w object_requests s in
    let returns = leb num_ready_objects started.num_satisfied in
    let wait_req : WaitRequest = record {
      client_conn = conn;
      timer = not returns;
      num_object_requests = num_object_requests;
      object_requests = started.requests;
      num_objects_to_wait_for = num_ready_objects;
      num_satisfied = started.num_satisfied;
    } in
    let s' = record started.state {
      wait_requests = insert w wait_req started.state.wait_requests;
      next_wait_request = w + 1;
    } in
    if returns
    then return_from_wait env w s'
    else request_notifications started.object_ids_to_request s'

-- The timer of a wait request; it is gone when the request is.
unfoldable pub wait_timeout_handler : Env → (w : ℕ) → PlasmaManagerState → Result PlasmaManagerState
wait_timeout_handler env w s = return_from_wait env w s
