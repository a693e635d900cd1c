-- ===== src/Plasma/Tests.antt =====
-- Runs of the store on concrete events, and instances of the theorems.
use ray.Common.{
  ℕ, ◌+◌, ◌*◌, ◌≡◌, ◌≢◌, refl, false, Option, none, some, List, [], ◌∷◌, Result, ok, fatal, Ensures,
  Yields, contains, remove, arith, All, ◌++◌,
}
use ray.Common.Maps.{lookup, insert, erase, has_key}
use ray.Common.Int.{pos, ◌+ℤ◌, ◌-ℤ◌}
use ray.Plasma.Types.{ObjectTableEntry, created, sealed}
use ray.Plasma.Malloc.{get_malloc_mapinfo}
use ray.Plasma.Eviction.{
  EvictionState, EvictionState_init, add_object_to_lru_cache, delete_node,
  remove_object_from_lru_cache, count_to_evict, collect_to_evict, choose_objects_to_evict,
  object_created, reserve_space, require_space, begin_object_access, end_object_access,
}
use ray.Plasma.Store.State.{
  Env, PlasmaStoreState, Client, PlasmaStoreState_init, reply, sent_all, written, GetRequest,
  notification, evict_reply,
}
use ray.Plasma.Store.Notify.{
  watch, unwatch, send_loop, after_sending, send_notifications, push_to, push_loop,
  push_notification,
}
use ray.Plasma.Store.Objects.{
  deletion, contains_object, new_entry, plasma_object, delete_object, remove_objects, begin_access,
  add_client_to_object_clients, end_access, remove_client_from_object_clients, release_object,
  make_space, allocate, add_object, create_object,
}
use ray.Plasma.Store.Requests.{
  count_unique, GetRequest_init, placeholder, requests_of, add_get_request_for_object,
  remove_get_request_for_object, remove_from_all, remove_get_request, mark_absent,
  send_file_descriptors, return_from_get, satisfy, update_request, update_requests,
  update_object_get_requests, seal_object, get_timeout_handler, get_one, get_all, answer_or_wait,
  process_get_request,
}
use ray.Plasma.Store.Messages.{
  create_request, release_request, seal_request, evict_request, subscribe_request, reply_created,
  evict, push_existing, open_queue, subscribe_to_updates, leave_objects, disconnect,
  process_message,
}
use ray.Plasma.Store.Events.{Event, message, handle, run, start_server}
use ray.Plasma.Store.Invariant.{IsConsistent}
use ray.Plasma.Store.Invariant.Events.{start_server-IsConsistent}
use ray.Plasma.Store.Invariant.Creation.{IsConsistent-IsKnown}
use ray.Plasma.Eviction.Cache.{
  lru, Queues, add_object_to_lru_cache-Queues, remove_object_from_lru_cache-Queues,
}
use ray.Plasma.Eviction.Choose.{IsKnown, Chooses, choose_objects_to_evict-Chooses}
use ray.Plasma.Eviction.Space.{Reserves, require_space-Reserves}
use ray.Plasma.Store.Termination.{create_object_ends, create_object_diverges}
use ray.Plasma.Store.Evicting.{evict_keeps_used, evict_unsealed}
use ray.Plasma.Store.Completion.{IsCalm, IdleSealed, evict_completes}
use ray.Plasma.Store.Answers.{process_get_request_answers, process_get_request_stuck}
use ray.Plasma.Store.Gets.{IsPresent}

program : Unit {0}
unfolding contains remove lookup insert erase has_key ◌+ℤ◌ ◌-ℤ◌ get_malloc_mapinfo
    EvictionState_init add_object_to_lru_cache delete_node remove_object_from_lru_cache
    count_to_evict collect_to_evict choose_objects_to_evict object_created reserve_space
    require_space begin_object_access end_object_access PlasmaStoreState_init reply watch unwatch
    send_loop after_sending send_notifications push_to push_loop push_notification deletion
    contains_object new_entry plasma_object delete_object remove_objects begin_access
    add_client_to_object_clients end_access remove_client_from_object_clients release_object
    make_space allocate add_object create_object count_unique GetRequest_init placeholder
    requests_of add_get_request_for_object remove_get_request_for_object remove_from_all
    remove_get_request mark_absent send_file_descriptors return_from_get satisfy update_request
    update_requests update_object_get_requests seal_object get_timeout_handler get_one get_all
    answer_or_wait process_get_request reply_created evict push_existing open_queue
    subscribe_to_updates leave_objects disconnect process_message handle run start_server
program = tt

-- dlmemalign finds room for every object, and the clients read all that the store sends.
abbrev roomy : Env
roomy = record {
  dlmemalign = λ call size. some (1000 + 100 * call);
  records_by_fd = λ call. record { fd = 5; pointer = 1000; size = 100000 } ∷ [];
  send = λ call. sent_all;
  write = λ call. written;
}

abbrev alice : Client
alice = record { address = 1; sock = 10 }

abbrev bob : Client
bob = record { address = 2; sock = 20 }

abbrev state_of : Option (Result PlasmaStoreState) → PlasmaStoreState
state_of (some (ok s)) = s
state_of _ = PlasmaStoreState_init 0

-- Alice makes and seals two objects and releases the first.
abbrev events : List Event
events =
    message 1 alice (create_request 7 10 2)
    ∷ message 1 alice (seal_request 7 [])
    ∷ message 1 alice (create_request 8 20 0)
    ∷ message 1 alice (seal_request 8 [])
    ∷ message 1 alice (release_request 7)
    ∷ []

abbrev stored : PlasmaStoreState
stored = state_of (start_server roomy 100 events)

start_server-IsConsistent_example : Yields (IsConsistent []) (start_server roomy 100 events)
start_server-IsConsistent_example = start_server-IsConsistent roomy 100 events

stored-IsConsistent : IsConsistent [] stored
unfolding program
stored-IsConsistent = start_server-IsConsistent roomy 100 events

abbrev released_entry : ObjectTableEntry
released_entry = record {
  object_id = 7;
  info = record {
    object_id = 7;
    data_size = 10;
    metadata_size = 2;
    digest = [];
    is_deletion = false;
  };
  fd = 5;
  map_size = 100000;
  offset = 0;
  pointer = 1000;
  clients = [];
  state = sealed;
}

abbrev used_entry : ObjectTableEntry
used_entry = record {
  object_id = 8;
  info = record {
    object_id = 8;
    data_size = 20;
    metadata_size = 0;
    digest = [];
    is_deletion = false;
  };
  fd = 5;
  map_size = 100000;
  offset = 300;
  pointer = 1300;
  clients = 1 ∷ [];
  state = sealed;
}

stored_objects : stored.objects ≡ (7, released_entry) ∷ (8, used_entry) ∷ []
unfolding program
stored_objects = refl

-- The store tells a new subscriber of the objects, and evicts the one that was released.
evicted :
    (state_of (
      start_server roomy 100 (
        events
        ++ message 1 bob (subscribe_request (some 30))
          ∷ message 1 bob (evict_request (pos 5))
          ∷ []))).outbox
    ≡ evict_reply 20 12
      ∷ notification 30 (deletion 7)
      ∷ notification 30 used_entry.info
      ∷ notification 30 released_entry.info
      ∷ stored.outbox
unfolding program
evicted = refl

abbrev cache : EvictionState
cache = stored.eviction_state

add_object_to_lru_cache-Queues_example :
    Queues (7 ∷ 8 ∷ []) (pos 0) (add_object_to_lru_cache cache 8)
unfolding program
add_object_to_lru_cache-Queues_example =
    add_object_to_lru_cache-Queues cache stored-IsConsistent.queue 8 refl

remove_object_from_lru_cache-Queues_example :
    Queues [] (pos 0) (remove_object_from_lru_cache cache 7)
unfolding program
remove_object_from_lru_cache-Queues_example =
    remove_object_from_lru_cache-Queues cache stored-IsConsistent.queue 7 refl

stored-IsKnown : All (IsKnown stored.objects) (lru cache)
stored-IsKnown = IsConsistent-IsKnown stored stored-IsConsistent

choose_objects_to_evict-Chooses_example :
    Chooses stored.objects (pos 5) cache (choose_objects_to_evict stored.objects (pos 5) cache)
choose_objects_to_evict-Chooses_example =
    choose_objects_to_evict-Chooses stored.objects (pos 5) cache stored-IsConsistent.queue
      stored-IsKnown

require_space-Reserves_example :
    Reserves stored.objects 100 101 cache (require_space stored.objects 100 101 cache)
unfolding program
require_space-Reserves_example =
    require_space-Reserves stored.objects 100 101 cache stored-IsConsistent.queue stored-IsKnown
      stored-IsConsistent.within

-- dlmemalign finds room for nothing.
abbrev full : Env
full = record roomy { dlmemalign = λ call size. none }

create_object_ends_example : (fuel : ℕ) × (create_object full fuel alice 9 3 4 stored ≢ none)
create_object_ends_example =
    create_object_ends full alice 9 3 4 stored stored-IsConsistent (omega arith)

create_object_diverges_example : create_object full 1000 alice 9 0 0 stored ≡ none
unfolding program
create_object_diverges_example =
    create_object_diverges full 1000 alice 9 stored stored-IsConsistent refl λ call. refl

evict_keeps_used_example :
    Ensures (λ t. lookup 8 t.objects ≡ some used_entry) (evict roomy bob (pos 500) stored)
unfolding program
evict_keeps_used_example =
    evict_keeps_used roomy bob (pos 500) stored 8 used_entry stored-IsConsistent refl refl

-- Alice releases an object that she did not seal.
abbrev abandoned_events : List Event
abandoned_events =
    message 1 alice (create_request 7 10 2) ∷ message 1 alice (release_request 7) ∷ []

abbrev abandoned : PlasmaStoreState
abandoned = state_of (start_server roomy 100 abandoned_events)

abandoned-IsConsistent : IsConsistent [] abandoned
unfolding program
abandoned-IsConsistent = start_server-IsConsistent roomy 100 abandoned_events

abbrev unsealed_entry : ObjectTableEntry
unsealed_entry = record released_entry { state = created }

evict_unsealed_example : evict roomy bob (pos 5) abandoned ≡ fatal
unfolding program
evict_unsealed_example =
    evict_unsealed roomy bob 5 abandoned 7 [] unsealed_entry abandoned-IsConsistent (omega arith)
      refl refl refl

roomy-IsCalm : IsCalm roomy
roomy-IsCalm = record { whole = λ call e. cc; open_pipe = λ call e. cc; writable = λ call e. cc }

stored-IdleSealed : IdleSealed stored
unfolding program
stored-IdleSealed j e found idle = ground arith

evict_completes_example : (t : PlasmaStoreState) × (evict roomy bob (pos 500) stored ≡ ok t)
evict_completes_example =
    evict_completes roomy roomy-IsCalm bob (pos 500) stored stored-IsConsistent stored-IdleSealed

both-IsPresent : All (IsPresent stored) (7 ∷ 8 ∷ [])
unfolding program
both-IsPresent = ((released_entry, refl, refl), ((used_entry, refl, refl), tt))

twice-IsPresent : All (IsPresent stored) (7 ∷ 7 ∷ [])
unfolding program
twice-IsPresent = ((released_entry, refl, refl), ((released_entry, refl, refl), tt))

process_get_request_answers_example :
    (t : PlasmaStoreState) × (process_get_request roomy bob (7 ∷ 8 ∷ []) none stored ≡ ok t)
    × (lookup 0 t.get_requests ≡ none)
unfolding program
process_get_request_answers_example =
    process_get_request_answers roomy roomy-IsCalm bob (7 ∷ 8 ∷ []) stored none stored-IsConsistent
      both-IsPresent refl

process_get_request_stuck_example :
    (t : PlasmaStoreState) × (r : GetRequest) × (process_get_request roomy bob
        (7 ∷ 7 ∷ [])
        none
        stored
      ≡ ok t)
    × (lookup 0 t.get_requests ≡ some r)
    × (r.timer ≡ none)
    × (t.timers ≡ stored.timers)
    × (t.object_get_requests ≡ stored.object_get_requests)
    × (t.outbox ≡ stored.outbox)
unfolding program
process_get_request_stuck_example =
    process_get_request_stuck roomy bob (7 ∷ 7 ∷ []) stored stored-IsConsistent twice-IsPresent
      λ e. cc
