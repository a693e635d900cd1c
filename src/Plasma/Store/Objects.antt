-- ===== src/Plasma/Store/Objects.antt =====
-- Creating, using, releasing and deleting objects: src/plasma/plasma_store.cc.
use ray.Common.{
  ℕ, zero, suc, ◌+◌, Bool, true, false, Option, none, some, List, [], ◌∷◌, ◌++◌, Result, ok, fatal,
  ◌>>=◌, ◌>>◌, check, if◌then◌else◌, remove, contains,
}
use ray.Common.Maps.{insert, erase, has_key}
use ray.Common.Int.{pos}
use ray.Plasma.Types.{ObjectInfo, ObjectTableEntry, created, PlasmaObject, get_object_table_entry}
use ray.Plasma.Malloc.{MapInfo, get_malloc_mapinfo}
use ray.Plasma.Eviction.{require_space, object_created, begin_object_access, end_object_access}
use ray.Plasma.Store.State.{
  Env, PlasmaStoreState, Client, PlasmaError, error_ok, object_exists, out_of_memory, is_sealed,
  is_empty,
}
use ray.Plasma.Store.Notify.{push_notification}

-- The notification that delete_object pushes: its other fields have their defaults.
unfoldable pub deletion : ℕ → ObjectInfo
deletion object_id = record {
  object_id = object_id;
  data_size = 0;
  metadata_size = 0;
  digest = [];
  is_deletion = true;
}

-- OBJECT_FOUND is true.
unfoldable pub contains_object : ℕ → PlasmaStoreState → Bool
contains_object object_id s = elim (get_object_table_entry s.objects object_id) [
  | none ↦ false
  | some entry ↦ is_sealed entry.state
]

-- One call of dlmemalign.
abbrev pub called : PlasmaStoreState → PlasmaStoreState
called s = record s { calls = s.calls + 1 }

unfoldable pub new_entry : ℕ → (data_size metadata_size pointer : ℕ) → MapInfo → ObjectTableEntry
new_entry object_id data_size metadata_size pointer m = record {
  object_id = object_id;
  info = record {
    object_id = object_id;
    data_size = data_size;
    metadata_size = metadata_size;
    digest = [];
    is_deletion = false;
  };
  fd = m.fd;
  map_size = m.map_size;
  offset = m.offset;
  pointer = pointer;
  clients = [];
  state = created;
}

-- The PlasmaObject of an entry: the fields that create_object and PlasmaObject_init set.
unfoldable pub plasma_object : ObjectTableEntry → PlasmaObject
plasma_object entry = record {
  handle = record { store_fd = entry.fd; mmap_size = entry.map_size };
  data_offset = entry.offset;
  metadata_offset = entry.offset + entry.info.data_size;
  data_size = pos entry.info.data_size;
  metadata_size = pos entry.info.metadata_size;
}

module _ (env : Env) where
  unfoldable pub delete_object : ℕ → PlasmaStoreState → Result PlasmaStoreState
  delete_object object_id s = elim (get_object_table_entry s.objects object_id) [
    | none ↦ fatal
    | some entry ↦ do
      check (is_sealed entry.state)
      check (is_empty entry.clients)
      push_notification env (deletion object_id) (record s {
        allocated = remove entry.pointer s.allocated;
        objects = erase object_id s.objects;
      })
  ]

  unfoldable pub remove_objects : List ℕ → PlasmaStoreState → Result PlasmaStoreState
  remove_objects [] s = ok s
  remove_objects (object_id ∷ rest) s = delete_object object_id s >>= remove_objects rest

  -- The part of add_client_to_object_clients for an object that no client uses.
  unfoldable pub begin_access : ℕ → PlasmaStoreState → Result PlasmaStoreState
  begin_access object_id s = do
    (eviction, chosen) ← begin_object_access s.eviction_state object_id
    remove_objects chosen (record s { eviction_state = eviction })

  -- The entry is named by its key. A key without an entry is a dangling pointer.
  unfoldable pub add_client_to_object_clients :
      ℕ → Client → PlasmaStoreState → Result PlasmaStoreState
  add_client_to_object_clients object_id client s =
      elim (get_object_table_entry s.objects object_id) [
        | none ↦ fatal
        | some entry ↦ if contains client.address entry.clients then ok s else (do
          s' ← if is_empty entry.clients then begin_access entry.object_id s else ok s
          ok (record s' {
            objects =
                insert object_id (record entry { clients = entry.clients ++ client.address ∷ [] })
                  s'.objects;
          }))
      ]

  -- Erases the client, and tells the eviction policy if it was the last one.
  unfoldable pub end_access :
      ℕ → ObjectTableEntry → List ℕ → PlasmaStoreState → Result PlasmaStoreState
  end_access object_id entry clients s =
      let s' : PlasmaStoreState = record s {
        objects = insert object_id (record entry { clients = clients }) s.objects;
      } in
      if is_empty clients
      then (do
        (eviction, chosen) ← end_object_access s'.eviction_state entry.object_id
        remove_objects chosen (record s' { eviction_state = eviction }))
      else ok s'

  -- Whether the client was removed.
  unfoldable pub remove_client_from_object_clients :
      ℕ → Client → PlasmaStoreState → Result (PlasmaStoreState × Bool)
  remove_client_from_object_clients object_id client s =
      elim (get_object_table_entry s.objects object_id) [
        | none ↦ fatal
        | some entry ↦
            if contains client.address entry.clients
            then (do
              s' ← end_access object_id entry (remove client.address entry.clients) s
              ok (s', true))
            else ok (s, false)
      ]

  unfoldable pub release_object : Client → ℕ → PlasmaStoreState → Result PlasmaStoreState
  release_object client object_id s = elim (get_object_table_entry s.objects object_id) [
    | none ↦ fatal
    | some entry ↦ do
      (s', removed) ← remove_client_from_object_clients object_id client s
      check removed
      ok s'
  ]

  -- The body of the loop of create_object after dlmemalign has failed: whether there is space now.
  unfoldable pub make_space : ℕ → PlasmaStoreState → Result (PlasmaStoreState × Bool)
  make_space size s = do
    (eviction, success, chosen) ← require_space s.objects s.memory_capacity size s.eviction_state
    s' ← remove_objects chosen (record s { eviction_state = eviction })
    ok (s', success)

  -- The loop of create_object. No outcome means that the fuel ran out; no pointer is
  -- PlasmaError_OutOfMemory.
  unfoldable pub allocate : ℕ → ℕ → PlasmaStoreState → Option (Result (PlasmaStoreState × Option ℕ))
  allocate zero size s = none
  allocate (suc fuel) size s = elim (env.dlmemalign s.calls size) [
    | some pointer ↦
        some (ok (record (called s) { allocated = pointer ∷ s.allocated }, some pointer))
    | none ↦ elim (make_space size (called s)) [
      | fatal ↦ some fatal
      | ok (s', false) ↦ some (ok (s', none))
      | ok (s', true) ↦ allocate fuel size s'
    ]
  ]

  -- The part of create_object behind its loop.
  unfoldable pub add_object :
      Client
      → ℕ
      → (data_size metadata_size : ℕ) → PlasmaStoreState × Option ℕ
      → Result (PlasmaStoreState × PlasmaError × Option PlasmaObject)
  add_object client object_id data_size metadata_size (s, none) = ok (s, out_of_memory, none)
  add_object client object_id data_size metadata_size (s, some pointer) =
      elim (get_malloc_mapinfo (env.records_by_fd s.calls) pointer) [
        | none ↦ fatal
        | some m ↦
            let entry = new_entry object_id data_size metadata_size pointer m in
            (do
              eviction ← object_created s.eviction_state object_id
              s' ← add_client_to_object_clients object_id client (record s {
                objects = insert object_id entry s.objects;
                eviction_state = eviction;
              })
              ok (s', error_ok, some (plasma_object entry)))
      ]

  unfoldable pub create_object :
      ℕ
      → Client
      → ℕ
      → (data_size metadata_size : ℕ) → PlasmaStoreState
      → Option (Result (PlasmaStoreState × PlasmaError × Option PlasmaObject))
  create_object fuel client object_id data_size metadata_size s =
      if has_key object_id s.objects
      then some (ok (s, object_exists, none))
      else elim (allocate fuel (data_size + metadata_size) s) [
        | none ↦ none
        | some r ↦ some (r >>= add_object client object_id data_size metadata_size)
      ]
