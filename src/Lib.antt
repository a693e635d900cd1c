-- ===== src/Lib.antt =====
-- A model of the Plasma object store and manager, the global scheduler, the local scheduler and the
-- commands to the database of Ray, with proofs about them.
--
-- The program: src/plasma holds the object store that every machine of a Ray cluster runs. Clients
-- (workers, the Plasma manager) make objects in shared memory, seal them, get them and release them
-- through messages on a socket. The store (src/plasma/plasma_store.cc) keeps the object table, the
-- pending get requests and the queues of notifications to subscribers. It asks the eviction policy
-- (src/plasma/eviction_policy.cc) which objects can go when memory is short, and tells it when an
-- object comes into use or goes out of use. Memory comes from dlmalloc, and src/plasma/malloc.c knows
-- which mapped file a pointer lies in.
--
-- The Plasma manager (src/plasma/plasma_manager.cc) runs beside the store. It hears from the store of
-- local objects and from the database of objects elsewhere, answers the clients that wait for objects,
-- fetches objects from other managers, and sends them objects in chunks.
--
-- src/global_scheduler is the process that hands the tasks of a cluster to its local schedulers. It
-- hears from the database of waiting tasks, of local schedulers that come and go, of their heartbeats
-- and of objects; two timers retry the tasks that no scheduler could take and drop the schedulers that
-- have fallen silent. The choice of a scheduler is in global_scheduler_algorithm.cc, everything else
-- in global_scheduler.cc.
--
-- src/local_scheduler is the process that runs the tasks of one machine. Workers and drivers are its
-- clients: they submit tasks, ask for the next task, and tell when they wait for an object. The local
-- scheduler starts workers, keeps the accounts of CPUs and GPUs, and hears from the local store of
-- objects that come and go and from the database of tasks, actors and removed drivers. The queues, the
-- actors and the worker pools are in local_scheduler_algorithm.cc, everything else in
-- local_scheduler.cc. The three programs share no state: the schedulers talk to the same database, and
-- the store notifies the local scheduler. src/common/state sends their commands to the database: each
-- has callback data and a timer, which sends the command again until an answer comes or its retries
-- are used up.
--
-- The files and the code:
--   Common: tests on numbers, lists, maps as association lists, outcomes that may abort, integers.
--   Plasma/Types: src/plasma/plasma.h (ObjectTableEntry, PlasmaObject, object_state) and
--     get_object_table_entry of src/plasma/plasma.cc.
--   Plasma/Malloc: get_malloc_mapinfo of src/plasma/malloc.c.
--   Plasma/Eviction: src/plasma/eviction_policy.cc. `EvictionState` has the source's fields, the
--     functions the source's names less their prefix EvictionState_. Cache, Choose and Space under it
--     hold the proofs about the queue, the choice of objects and the request for space.
--   Plasma/Store: src/plasma/plasma_store.cc. State is its data and its environment; Notify is
--     push_notification and send_notifications; Objects is create_object, delete_object,
--     remove_objects, release_object and the two functions on the clients of an object; Requests is
--     get requests, return_from_get and seal_object; Messages is process_message and
--     subscribe_to_updates; Events is start_server. Invariant, Termination, Evicting, Completion,
--     Gets and Answers hold the proofs.
--   Plasma/Tests: runs on concrete events.
--   Plasma/Manager: src/plasma/plasma_manager.cc. State is its data and its environment; Waits is wait
--     requests, Transfers the connections to other managers and their queues, Fetches fetch requests,
--     Server the notifications, process_message and start_server. Waiting with its children, Connections,
--     Fetching, Arrivals, Invariant and Faults hold the proofs, Tests the runs.
--   Tasks: nil_id, resources, task specifications and tasks of src/common.
--   GlobalScheduler/State: the types of src/global_scheduler/global_scheduler.h, of
--     src/common/state/local_scheduler_table.h, and get_local_scheduler.
--   GlobalScheduler/Algorithm: src/global_scheduler/global_scheduler_algorithm.cc and
--     assign_task_to_local_scheduler of src/global_scheduler/global_scheduler.cc.
--   GlobalScheduler/Server: the callbacks of src/global_scheduler/global_scheduler.cc, under their
--     names; the body of each loop is a function of its own (retry_pending is a round of
--     task_cleanup_handler, check_heartbeat one of heartbeat_timeout_handler).
--   GlobalScheduler/Choice, Assignment, Registry, Heartbeats, Timeouts, Invariant, Pending, RoundRobin,
--     Sizes, Addresses: the proofs.
--   GlobalScheduler/Tests: runs on concrete callbacks.
--   LocalScheduler/State: the structs of src/local_scheduler/local_scheduler_shared.h with
--     SchedulingAlgorithmState of src/local_scheduler/local_scheduler_algorithm.cc in one record, and
--     start_worker.
--   LocalScheduler/Workers: the vectors of workers, acquire_resources, release_resources and
--     assign_task_to_worker.
--   LocalScheduler/Queues, Objects, Actors: the other functions of
--     src/local_scheduler/local_scheduler_algorithm.cc, under their names: the queues of tasks without
--     an actor, what objects and removed drivers do to them, and the actors with the worker pools.
--   LocalScheduler/Clients, Server: src/local_scheduler/local_scheduler.cc: clients, drivers and
--     reconstruction; process_message, the timers and start_server. Each case of process_message that
--     is longer than a call is a function of its own.
--   LocalScheduler/Shutdown: LocalSchedulerState_free, up to the freeing of memory.
--   LocalScheduler/Accounts, Pools, Readiness, Waiting, Registration, Loops, Dropping, Invariant,
--     Dispatch, ActorOrder, Drivers, Dependencies: the proofs.
--   LocalScheduler/Tests: runs on concrete events.
--   Tables/State: src/common/state/table.cc, with REDIS_CALLBACK_HEADER, redis_object_table_add_callback
--     and redis_object_table_remove_callback of src/common/state/redis.cc. Lives, Retries and
--     Destruction hold the proofs, Tests the runs.
--
-- How the code is read:
--   - A CHECK, LOG_FATAL or assert that fails and an access that C++ leaves undefined are `fatal`; asserts
--     are read as in a build without NDEBUG, though a Release build compiles them out.
--   - An object ID, an address, a socket and a timer are numbers; malloc and new give a number that was
--     not given before. A GetRequest is found by its number in the state, so a request that was
--     deleted is one that is not there.
--   - int64_t is ℤ or, for sizes and counts, ℕ: sizes that clients send are taken to be nonnegative
--     and sums not to overflow.
--   - An unordered_map or unordered_set is a list in the order of insertion.
--   - The record `Env` is the parameter for what is not code of the program: the answers of
--     dlmemalign, the records of mapped files, and the outcomes of send and of the replies, one for
--     each call. The event loop is a list of events: a message of a client, a timer that fires, room
--     in a socket.
--   - The loop of create_object has a number of rounds as fuel, which the event of the message names.
--     It is enough for some number, for objects that are not empty: each round that does not end the
--     loop takes objects out of the eviction queue or uses up capacity.
--   - The global scheduler's loops over arrays are recursions on the index, in the order of the code.
--     Its round robin loop has fuel, of which 2 is enough. A pointer into an array that the code uses
--     after erasing the item reads what has moved to that slot; a task that was freed is no longer in
--     `tasks`, and reading it is `fatal`.
--   - Resource quantities, doubles in the code, are whole numbers of a unit, and scores are exact: a
--     score is a count below 2^31, negated.
--   - The calls of the database are the list `db` of what is written; their callbacks are events.
--   - The local scheduler's list iterators are numbers of nodes, and an erased node is no longer in the
--     queue: reading it is `fatal`. A client's struct is found by its pointer, a number; a client that
--     was deleted is not in the list. `effects` lists the messages, the calls of the database and of
--     Plasma, forks and signals. Its `Env` gives the outcomes of write_message and fork by the number of
--     effects before the call. The specification that a message brings lies in `input_buffer`, and a
--     cached pointer reads what is there later; the buffer is taken not to move when it grows.
--   - uthash's HASH_FIND is a parameter of get_local_scheduler_id, since a table of addresses may hold
--     an address more than once and an expansion of its buckets changes which entry is found. It is
--     taken to find an entry with the key if there is one. Of several entries of one ID, delete_entry
--     takes the last that was added; only the number of entries of an ID is read later.
--   - A command to the database goes by the number of its timer, of which uthash compares 32 bits: no
--     more than 2^32 timers are taken to be made. `effects` lists its requests and the
--     calls of its done and fail callbacks, which issue no command of their own in the model; a reply
--     is one of the messages that the two callbacks tell apart.
--   - The manager's connections and wait requests are named by their pointers; one that was freed is no
--     longer in the list, and reading it is `fatal`. A wait request has a timer or not. A connection's
--     `handler` is what the event loop calls when its socket is ready. An address is a number for the
--     four bytes and a port. `Env` gives the outcomes of system calls and of the store by the number of
--     effects before the call; a write of a chunk that is not empty writes a byte or fails. A wait for
--     objects asks for one of the two types of plasma.h.
--   - send_fd's retries on EMSGSIZE are one call with their final outcome. A timeout of -1 is `none`.
--
-- Not modelled: the digest of ObjectTableEntry and the two times of ObjectInfo, which the store never
-- reads or sets; the scores in floating point of global_scheduler_algorithm.cc, which have no caller;
-- the memory of addresses (aux_address); the fields of a task that the schedulers do not read;
-- command line, shared memory check, signal handlers and the freeing of memory at exit; the bytes of
-- messages, which generated flatbuffers code reads and writes; fake_mmap, which dlmalloc calls back.
-- Of the other programs of the repository, the Redis module is not modelled; bindings, vendored code
-- and pure I/O are left out.
pub mod Common
pub mod Tasks
pub mod Plasma
pub mod GlobalScheduler
pub mod LocalScheduler
pub mod Tables
