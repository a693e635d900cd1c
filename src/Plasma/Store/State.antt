-- ===== src/Plasma/Store/State.antt =====
-- The state of the Plasma store, and what it takes from its environment: src/plasma/plasma_store.cc.
-- A pointer to a Client or to a GetRequest is the number that names it. The environment is the
-- kernel, dlmalloc and the clients' ends of the sockets: an answer for each call, by its number.
use ray.Common.{ℕ, ◌+◌, Bool, true, false, Option, List, [], ◌∷◌, Result, ok, fatal}
use ray.Plasma.Types.{ObjectTable, ObjectInfo, ObjectState, created, sealed, PlasmaObject}
use ray.Plasma.Malloc.{MmapRecord}
use ray.Plasma.Eviction.{EvictionState, EvictionState_init}

pub record Client : Type 0 where
  pub address : ℕ
  pub sock : ℕ

-- `timer` is `none` for the value -1.
pub record GetRequest : Type 0 where
  pub client : Client
  pub timer : Option ℕ
  pub object_ids : List ℕ
  pub objects : List (ℕ × PlasmaObject)
  pub num_objects_to_wait_for : ℕ
  pub num_satisfied : ℕ

pub data PlasmaError : Type 0 where
  error_ok object_exists out_of_memory : PlasmaError

-- What the store sends: the replies, a file descriptor, a notification to a subscriber.
pub data Sent : Type 0 where
  create_reply : (sock object_id : ℕ) → Option PlasmaObject → PlasmaError → Sent
  get_reply : (sock : ℕ) (object_ids : List ℕ) → List (ℕ × PlasmaObject) → Sent
  contains_reply : (sock object_id : ℕ) → Bool → Sent
  evict_reply : (sock num_bytes : ℕ) → Sent
  connect_reply : (sock memory_capacity : ℕ) → Sent
  file_descriptor : (sock fd : ℕ) → Sent
  notification : (sock : ℕ) → ObjectInfo → Sent

-- How `send` of a notification ends: all bytes, some bytes, EAGAIN and its like, EPIPE, any other
-- error.
pub data SendOutcome : Type 0 where
  sent_all sent_part would_block broken_pipe failed : SendOutcome

-- How a reply or a file descriptor is written: EPIPE, EBADF and ECONNRESET mean that the client
-- hung up. Of `send_fd` this is the last attempt, after the retries on EMSGSIZE.
pub data WriteOutcome : Type 0 where
  written hung_up unwritable : WriteOutcome

pub record Env : Type 0 where
  pub dlmemalign : (call size : ℕ) → Option ℕ
  -- The records of malloc.c after a call of dlmemalign.
  pub records_by_fd : (call : ℕ) → List MmapRecord
  pub send : (call : ℕ) → SendOutcome
  pub write : (call : ℕ) → WriteOutcome

-- `get_requests` holds the GetRequest objects that are not deleted, `timers` the timers of the event
-- loop with their request, and `watched` the sockets with a callback for writing. `allocated` holds
-- the pointers that dlmemalign gave and dlfree did not get; `outbox` all that was sent, the last
-- first.
pub record PlasmaStoreState : Type 0 where
  pub objects : ObjectTable
  pub memory_capacity : ℕ
  pub eviction_state : EvictionState
  pub object_get_requests : List (ℕ × List ℕ)
  pub get_requests : List (ℕ × GetRequest)
  pub next_request : ℕ
  pub timers : List (ℕ × ℕ)
  pub next_timer : ℕ
  pub pending_notifications : List (ℕ × List ObjectInfo)
  pub watched : List ℕ
  pub allocated : List ℕ
  pub outbox : List Sent
  pub calls : ℕ

unfoldable pub PlasmaStoreState_init : ℕ → PlasmaStoreState
unfolding EvictionState_init
PlasmaStoreState_init system_memory = record {
  objects = [];
  memory_capacity = system_memory;
  eviction_state = EvictionState_init;
  object_get_requests = [];
  get_requests = [];
  next_request = 0;
  timers = [];
  next_timer = 0;
  pending_notifications = [];
  watched = [];
  allocated = [];
  outbox = [];
  calls = 0;
}

abbrev pub is_sealed : ObjectState → Bool
is_sealed created = false
is_sealed sealed = true

abbrev pub is_empty {ℓ} : {A : Type ℓ} → List A → Bool
is_empty [] = true
is_empty (x ∷ xs) = false

-- A reply to a client, by warn_if_sigpipe(plasma_send_…Reply(…)): whether it was written.
unfoldable pub reply : Env → Sent → PlasmaStoreState → Result (PlasmaStoreState × Bool)
reply env m s = elim (env.write s.calls) [
  | written ↦ ok (record s { outbox = m ∷ s.outbox; calls = s.calls + 1 }, true)
  | hung_up ↦ ok (record s { calls = s.calls + 1 }, false)
  | unwritable ↦ fatal
]
