-- ===== src/Plasma/Store/Requests.antt =====
-- Get requests and sealing: src/plasma/plasma_store.cc. A pointer to a GetRequest is a number, and
-- one that is not in `get_requests` dangles.
use ray.Common.{
  ℕ, zero, suc, ◌+◌, Bool, true, false, ◌||◌, Option, none, some, List, [], ◌∷◌, ◌++◌, Result, ok,
  fatal, ◌>>=◌, ◌>>◌, check, if◌then◌else◌, ◌==◌, remove, contains, length, get_elem?,
}
use ray.Common.Maps.{lookup, insert, erase, has_key}
use ray.Common.Int.{pos, negsuc}
use ray.Plasma.Types.{
  ObjectTableEntry, ObjectState, created, sealed, PlasmaObject, get_object_table_entry,
}
use ray.Plasma.Store.State.{
  Env, PlasmaStoreState, Client, GetRequest, get_reply, file_descriptor, reply, is_sealed,
}
use ray.Plasma.Store.Notify.{push_notification}
use ray.Plasma.Store.Objects.{add_client_to_object_clients, plasma_object}

-- The number of different items: the size of an unordered_set of them.
unfoldable pub count_unique : List ℕ → ℕ
count_unique [] = 0
count_unique (x ∷ xs) = if contains x xs then count_unique xs else suc (count_unique xs)

-- GetRequest::GetRequest
unfoldable pub GetRequest_init : Client → List ℕ → GetRequest
GetRequest_init client object_ids = record {
  client = client;
  timer = none;
  object_ids = object_ids;
  objects = [];
  num_objects_to_wait_for = count_unique object_ids;
  num_satisfied = 0;
}

-- A PlasmaObject that says that its object is not present.
unfoldable pub placeholder : PlasmaObject
placeholder = record {
  handle = record { store_fd = 0; mmap_size = 0 };
  data_offset = 0;
  metadata_offset = 0;
  data_size = negsuc 0;
  metadata_size = pos 0;
}

abbrev pub is_present : PlasmaObject → Bool
is_present o = elim o.data_size [ negsuc zero ↦ false | _ ↦ true ]

-- `object_get_requests[object_id]`, which is empty where the key is new.
unfoldable pub requests_of : ℕ → PlasmaStoreState → List ℕ
requests_of object_id s = elim (lookup object_id s.object_get_requests) [
  | none ↦ []
  | some requests ↦ requests
]

unfoldable pub add_get_request_for_object : ℕ → ℕ → PlasmaStoreState → PlasmaStoreState
add_get_request_for_object object_id req s = record s {
  object_get_requests =
      insert object_id (requests_of object_id s ++ req ∷ []) s.object_get_requests;
}

unfoldable pub remove_get_request_for_object : ℕ → ℕ → PlasmaStoreState → PlasmaStoreState
remove_get_request_for_object object_id req s = record s {
  object_get_requests =
      insert object_id (remove req (requests_of object_id s)) s.object_get_requests;
}

unfoldable pub remove_from_all : ℕ → List ℕ → PlasmaStoreState → PlasmaStoreState
remove_from_all req [] s = s
remove_from_all req (object_id ∷ rest) s =
    remove_from_all req rest (remove_get_request_for_object object_id req s)

-- event_loop_remove_timer is AE_OK if the timer is there.
unfoldable pub remove_get_request : ℕ → GetRequest → PlasmaStoreState → Result PlasmaStoreState
remove_get_request req r s =
    let s' : PlasmaStoreState = record s { get_requests = erase req s.get_requests } in
    elim r.timer [
      | none ↦ ok s'
      | some timer ↦
          check (has_key timer s.timers) >> ok (record s' { timers = erase timer s.timers })
    ]

-- Whether a PlasmaObject of a request is present, and its file descriptor. A new object is all zeros.
abbrev pub descriptor : Option PlasmaObject → Bool × ℕ
descriptor none = (true, 0)
descriptor (some o) = (is_present o, o.handle.store_fd)

abbrev pub is_created : ObjectState → Bool
is_created created = true
is_created sealed = false

abbrev pub sealed_entry : Option ObjectTableEntry → Option ObjectTableEntry
sealed_entry none = none
sealed_entry (some entry) = if is_sealed entry.state then some entry else none

abbrev pub is_zero : Option ℕ → Bool
is_zero none = false
is_zero (some n) = n == 0

-- `objects[object_id].data_size = -1`
unfoldable pub mark_absent : ℕ → List (ℕ × PlasmaObject) → List (ℕ × PlasmaObject)
mark_absent object_id objects = elim (lookup object_id objects) [
  | none ↦ insert object_id placeholder objects
  | some o ↦ insert object_id (record o { data_size = negsuc 0 }) objects
]

module _ (env : Env) where
  -- Each present object's file descriptor is sent. `objects[object_id]` is there for every object ID
  -- of the request once process_get_request has run; a missing one would be a new object of zeros.
  unfoldable pub send_file_descriptors :
      ℕ → List ℕ → List (ℕ × PlasmaObject) → PlasmaStoreState → Result PlasmaStoreState
  send_file_descriptors sock [] objects s = ok s
  send_file_descriptors sock (object_id ∷ rest) objects s =
      let (present, fd) = descriptor (lookup object_id objects) in
      (do
        (s', _) ← if present then reply env (file_descriptor sock fd) s else ok (s, false)
        send_file_descriptors sock rest objects s')

  -- Leaves the request in no table and deletes it.
  unfoldable pub return_from_get : ℕ → PlasmaStoreState → Result PlasmaStoreState
  return_from_get req s = elim (lookup req s.get_requests) [
    | none ↦ fatal
    | some r ↦ do
      (s', delivered) ← reply env (get_reply r.client.sock r.object_ids r.objects) s
      s'' ←
          if delivered then send_file_descriptors r.client.sock r.object_ids r.objects s' else ok s'
      remove_get_request req r (remove_from_all req r.object_ids s'')
  ]

  -- PlasmaObject_init into `objects[object_id]`, and one more object satisfied.
  unfoldable pub satisfy :
      ℕ → ℕ → GetRequest → ObjectTableEntry → PlasmaStoreState → Result PlasmaStoreState
  satisfy object_id req r entry s = do
    check (is_sealed entry.state)
    ok (record s {
      get_requests =
          insert req
            (record r {
              objects = insert object_id (plasma_object entry) r.objects;
              num_satisfied = r.num_satisfied + 1;
            })
            s.get_requests;
    })

  -- One round of the loop of update_object_get_requests: the new index.
  unfoldable pub update_request : ℕ → ℕ → PlasmaStoreState → Result (PlasmaStoreState × ℕ)
  update_request object_id index s = elim (get_elem? (requests_of object_id s) index) [
    | none ↦ fatal
    | some req ↦ elim (lookup req s.get_requests) [
      | none ↦ fatal
      | some r ↦ elim (get_object_table_entry s.objects object_id) [
        | none ↦ fatal
        | some entry ↦ do
          s₁ ← satisfy object_id req r entry s
          s₂ ← add_client_to_object_clients env object_id r.client s₁
          if r.num_satisfied + 1 == r.num_objects_to_wait_for
              then (do s₃ ← return_from_get req s₂; ok (s₃, index))
              else ok (s₂, index + 1)
      ]
    ]
  ]

  unfoldable pub update_requests :
      (rounds object_id index : ℕ) → PlasmaStoreState → Result (PlasmaStoreState × ℕ)
  update_requests zero object_id index s = ok (s, index)
  update_requests (suc rounds) object_id index s = do
    (s', index') ← update_request object_id index s
    update_requests rounds object_id index' s'

  unfoldable pub update_object_get_requests : ℕ → PlasmaStoreState → Result PlasmaStoreState
  update_object_get_requests object_id s = do
    (s', index) ← update_requests (length (requests_of object_id s)) object_id 0 s
    check (index == length (requests_of object_id s'))
    ok (record s' { object_get_requests = erase object_id s'.object_get_requests })

  unfoldable pub seal_object : ℕ → List ℕ → PlasmaStoreState → Result PlasmaStoreState
  seal_object object_id digest s = elim (get_object_table_entry s.objects object_id) [
    | none ↦ fatal
    | some entry ↦
        let info = record entry.info { digest = digest } in
        (do
          check (is_created entry.state)
          s' ← push_notification env info (record s {
            objects = insert object_id (record entry { state = sealed; info = info }) s.objects;
          })
          update_object_get_requests object_id s')
  ]

  -- The timer's event is removed by return_from_get.
  unfoldable pub get_timeout_handler : ℕ → PlasmaStoreState → Result PlasmaStoreState
  get_timeout_handler req s = return_from_get req s

  -- One round of the loop of process_get_request.
  unfoldable pub get_one : Client → ℕ → ℕ → PlasmaStoreState → Result PlasmaStoreState
  get_one client req object_id s = elim (lookup req s.get_requests) [
    | none ↦ fatal
    | some r ↦ elim (sealed_entry (get_object_table_entry s.objects object_id)) [
      | some entry ↦
          satisfy object_id req r entry s >>= add_client_to_object_clients env object_id client
      | none ↦ ok (
          add_get_request_for_object object_id req (record s {
            get_requests =
                insert req (record r { objects = mark_absent object_id r.objects }) s.get_requests;
          }))
    ]
  ]

  unfoldable pub get_all : Client → ℕ → List ℕ → PlasmaStoreState → Result PlasmaStoreState
  get_all client req [] s = ok s
  get_all client req (object_id ∷ rest) s =
      get_one client req object_id s >>= get_all client req rest

  -- The end of process_get_request. A timeout of `none` is the value -1.
  unfoldable pub answer_or_wait : Option ℕ → ℕ → PlasmaStoreState → Result PlasmaStoreState
  answer_or_wait timeout_ms req s = elim (lookup req s.get_requests) [
    | none ↦ fatal
    | some r ↦
        if r.num_satisfied == r.num_objects_to_wait_for || is_zero timeout_ms
        then return_from_get req s
        else elim timeout_ms [
          | none ↦ ok s
          | some _ ↦ ok (record s {
            timers = insert s.next_timer req s.timers;
            next_timer = s.next_timer + 1;
            get_requests = insert req (record r { timer = some s.next_timer }) s.get_requests;
          })
        ]
  ]

  unfoldable pub process_get_request :
      Client → List ℕ → Option ℕ → PlasmaStoreState → Result PlasmaStoreState
  process_get_request client object_ids timeout_ms s =
      let req = s.next_request in
      (do
        s' ← get_all client req object_ids (record s {
          get_requests = insert req (GetRequest_init client object_ids) s.get_requests;
          next_request = s.next_request + 1;
        })
        answer_or_wait timeout_ms req s')
