-- ===== src/Plasma/Manager/Connections.antt =====
-- Transfers change only the connections and make calls: src/plasma/plasma_manager.cc.
use ray.Common.{
  ℕ, ◌≡◌, refl, ap, ◌∙◌, Bool, true, false, ◌&&◌, not, List, [], ◌∷◌, Result, ok, fatal, ◌>>=◌,
  Ensures, Ensures->>=, Ensures-check, Ensures-if, Ensures-option, Ensures-any, if◌then◌else◌, ◌==◌,
  contains, inl, inr, Bool-cases, Option-cases,
}
use ray.Common.Maps.{lookup}
use ray.Plasma.Manager.State.{
  Address, PlasmaRequestBuffer, BufferType, data_request, data_reply, ClientConnection, messages,
  unwatched, watch, read_chunk, plasma_seal, plasma_release, set_connection, PlasmaManagerState,
  Env, WriteOutcome, wrote_all, wrote_part, write_error, emit, time, plasma_get, get_connection,
  send_data_reply,
}
use ray.Plasma.Manager.Transfers.{
  init_connection, find_manager, get_manager_connection, is_empty, queue_reply,
  process_transfer_request, Err, no_err, err_reset, err_other, err_of_send, write_object_chunk,
  send_buffer, send_queued_request, process_data_chunk, ignore_data_chunk, process_data_request,
  chunk_size, read_object_chunk, dequeue, free_connection,
}
use ray.Plasma.Manager.Fetches.{queue_request}

abbrev pub ConnectionsOnly : PlasmaManagerState → PlasmaManagerState → Type 0
ConnectionsOnly s t = t ≡ record s {
  manager_connections = t.manager_connections;
  next_connection = t.next_connection;
  effects = t.effects;
}

pub ConnectionsOnly-trans :
    (s t u : PlasmaManagerState) → ConnectionsOnly s t → ConnectionsOnly t u → ConnectionsOnly s u
ConnectionsOnly-trans s t u e f =
    f
    ∙ ap {A = PlasmaManagerState} {B = PlasmaManagerState}
        (λ v. record v {
          manager_connections = u.manager_connections;
          next_connection = u.next_connection;
          effects = u.effects;
        })
        e

pub get_manager_connection-ConnectionsOnly :
    (env : Env) (a : Address) (s : PlasmaManagerState)
    → ConnectionsOnly s (get_manager_connection env a s).1
unfolding get_manager_connection init_connection
get_manager_connection-ConnectionsOnly env a s =
    elim (Option-cases (find_manager a s.manager_connections)) [
      | inl e ↦ elim (Bool-cases (env.connects (time s) a)) [
        | inl f ↦ rw (e, get_manager_connection, f) refl
        | inr f ↦ rw (e, get_manager_connection, f) refl
      ]
      | inr (c, e) ↦ rw (e, get_manager_connection) refl
    ]

abbrev Only : PlasmaManagerState → Result PlasmaManagerState → Type 0
Only s m = Ensures (ConnectionsOnly s) m

-- Code that reads a connection first.
with_connection :
    (c : ℕ) (s t : PlasmaManagerState) (f : ClientConnection → Result PlasmaManagerState)
    → ((conn : ClientConnection) → Only s (f conn))
    → Only s (get_connection c t >>= f)
with_connection c s t f h =
    Ensures->>= (λ conn. Unit {0}) (ConnectionsOnly s) (get_connection c t) f
      (Ensures-option (lookup c t.manager_connections) (λ conn. Unit {0}) fatal ok (λ _. tt)
        λ conn _. tt)
      λ conn _. h conn

from_earlier :
    (s t : PlasmaManagerState) (m : Result PlasmaManagerState)
    → ConnectionsOnly s t
    → Only t m
    → Only s m
from_earlier s t fatal e h = tt
from_earlier s t (ok u) e h = ConnectionsOnly-trans s t u e h

set-ConnectionsOnly :
    (c : ℕ) (conn : ClientConnection) (s t : PlasmaManagerState)
    → ConnectionsOnly s t
    → ConnectionsOnly s (set_connection c conn t)
set-ConnectionsOnly c conn s t e = ConnectionsOnly-trans s t (set_connection c conn t) e refl

if-ConnectionsOnly :
    (b : Bool) (s t u : PlasmaManagerState)
    → ConnectionsOnly s t
    → ConnectionsOnly s u
    → ConnectionsOnly s (if b then t else u)
if-ConnectionsOnly true s t u e f = e
if-ConnectionsOnly false s t u e f = f

queue_reply-ConnectionsOnly :
    (env : Env) (o c data_size metadata_size : ℕ) (s : PlasmaManagerState)
    → Only s (queue_reply env o c data_size metadata_size s)
unfolding queue_reply
queue_reply-ConnectionsOnly env o c data_size metadata_size s = with_connection c s s _ λ conn.
    Ensures-if (is_empty conn.transfer_queue && not (env.adds_file (time s))) (ConnectionsOnly s) _
      _ (λ _. refl)
      λ _.
        set-ConnectionsOnly c _ s _
          (if-ConnectionsOnly (is_empty conn.transfer_queue) s (emit (watch c) s) s refl refl)

pub process_transfer_request-ConnectionsOnly :
    (env : Env) (o : ℕ) (a : Address) (s : PlasmaManagerState)
    → Ensures (ConnectionsOnly s) (process_transfer_request env o a s)
unfolding process_transfer_request
process_transfer_request-ConnectionsOnly env o a s =
    let t = (get_manager_connection env a s).1 in
    let first = get_manager_connection-ConnectionsOnly env a s in
    Ensures-option (get_manager_connection env a s).0 (ConnectionsOnly s) (ok t) _ (λ _. first)
      λ c _. with_connection c s t _ λ conn.
        Ensures-if (contains o conn.pending_object_transfers) (ConnectionsOnly s) _ _ (λ _. first)
          λ _.
            Ensures-option (env.gets (time t) o) (ConnectionsOnly s) _ _
              (λ _. ConnectionsOnly-trans s t (emit (plasma_get o) t) first refl)
              λ sizes _.
                from_earlier s (emit (plasma_get o) t) _
                  (ConnectionsOnly-trans s t (emit (plasma_get o) t) first refl)
                  (queue_reply-ConnectionsOnly env o c sizes.0 sizes.1 (emit (plasma_get o) t))

chunk-ConnectionsOnly :
    (env : Env) (c : ℕ) (conn : ClientConnection) (buf : PlasmaRequestBuffer)
    (s : PlasmaManagerState) (outcome : WriteOutcome) (empty : Bool)
    → env.writes (time s) (chunk_size conn buf) ≡ outcome
    → (chunk_size conn buf == 0) ≡ empty
    → ConnectionsOnly s (write_object_chunk env c conn buf s).2
unfolding write_object_chunk
chunk-ConnectionsOnly env c conn buf s wrote_all true e f = rw (e, f, write_object_chunk) refl
chunk-ConnectionsOnly env c conn buf s wrote_all false e f = rw (e, f, write_object_chunk) refl
chunk-ConnectionsOnly env c conn buf s wrote_part empty e f = rw (e, write_object_chunk) refl
chunk-ConnectionsOnly env c conn buf s (write_error true) empty e f =
    rw (e, write_object_chunk) refl
chunk-ConnectionsOnly env c conn buf s (write_error false) empty e f =
    rw (e, write_object_chunk) refl

write_object_chunk-ConnectionsOnly :
    (env : Env) (c : ℕ) (conn : ClientConnection) (buf : PlasmaRequestBuffer)
    (s : PlasmaManagerState)
    → ConnectionsOnly s (write_object_chunk env c conn buf s).2
write_object_chunk-ConnectionsOnly env c conn buf s =
    chunk-ConnectionsOnly env c conn buf s (env.writes (time s) (chunk_size conn buf))
      (chunk_size conn buf == 0) refl refl

abbrev Sent : PlasmaManagerState → Err × ClientConnection × PlasmaManagerState → Type 0
Sent s p = ConnectionsOnly s p.2

header-Sent :
    (env : Env) (c : ℕ) (conn : ClientConnection) (buf : PlasmaRequestBuffer)
    (s : PlasmaManagerState) (err : Err)
    → Ensures (Sent s) (elim err [
      | no_err ↦ ok (write_object_chunk env c conn buf (emit (send_data_reply c buf.object_id) s))
      | err_reset ↦ ok (err_reset, conn, emit (send_data_reply c buf.object_id) s)
      | err_other ↦ ok (err_other, conn, emit (send_data_reply c buf.object_id) s)
    ])
header-Sent env c conn buf s no_err =
    let t = emit (send_data_reply c buf.object_id) s in
    ConnectionsOnly-trans s t (write_object_chunk env c conn buf t).2 refl
      (write_object_chunk-ConnectionsOnly env c conn buf t)
header-Sent env c conn buf s err_reset = refl
header-Sent env c conn buf s err_other = refl

send_buffer-Sent :
    (env : Env) (c : ℕ) (conn : ClientConnection) (buf : PlasmaRequestBuffer) (type : BufferType)
    (s : PlasmaManagerState)
    → buf.type ≡ type
    → Ensures (Sent s) (send_buffer env c conn buf s)
unfolding send_buffer
send_buffer-Sent env c conn buf data_request s e =
    rw (e, send_buffer)
      (Ensures->>= (λ err. Unit {0}) (Sent s) (err_of_send (env.sends (time s))) _ (Ensures-any _)
        λ err _. refl)
send_buffer-Sent env c conn buf data_reply s e =
    rw (e, send_buffer)
      (Ensures-if (conn.cursor == 0) (Sent s) _ _
        (λ _.
          Ensures->>= (λ err. Unit {0}) (Sent s) (err_of_send (env.sends (time s))) _
            (Ensures-any _) λ err _. header-Sent env c conn buf s err)
        λ _. write_object_chunk-ConnectionsOnly env c conn buf s)

after_send :
    (c : ℕ) (s t : PlasmaManagerState) (conn' : ClientConnection) (err : Err)
    → ConnectionsOnly s t
    → Only s (elim err [
      | no_err ↦ ok (set_connection c conn' t)
      | err_reset ↦ ok t
      | err_other ↦ ok (free_connection c t)
    ])
after_send c s t conn' no_err e = set-ConnectionsOnly c conn' s t e
after_send c s t conn' err_reset e = e
after_send c s t conn' err_other e = ConnectionsOnly-trans s t (free_connection c t) e refl

pub send_queued_request-ConnectionsOnly :
    (env : Env) (c : ℕ) (s : PlasmaManagerState)
    → Ensures (ConnectionsOnly s) (send_queued_request env c s)
unfolding send_queued_request
send_queued_request-ConnectionsOnly env c s =
    with_connection c s s _ λ conn. queued conn conn.transfer_queue
  where
    queued :
        (conn : ClientConnection) (queue : List PlasmaRequestBuffer)
        → Only s (elim queue [
          | [] ↦ ok (set_connection c (record conn { handler = unwatched }) s)
          | buf ∷ rest ↦ do
            (err, conn', s') ← send_buffer env c conn buf s
            elim err [
              | no_err ↦ ok (
                  set_connection c (if conn'.cursor == 0 then dequeue buf rest conn' else conn') s')
              | err_reset ↦ ok s'
              | err_other ↦ ok (free_connection c s')
            ]
        ])
    queued conn [] = refl
    queued conn (buf ∷ rest) =
        Ensures->>= (Sent s) (ConnectionsOnly s) (send_buffer env c conn buf s) _
          (send_buffer-Sent env c conn buf buf.type s refl)
          λ p e. after_send c s p.2 (if p.1.cursor == 0 then dequeue buf rest p.1 else p.1) p.0 e

pub process_data_chunk-ConnectionsOnly :
    (env : Env) (c : ℕ) (s : PlasmaManagerState)
    → Ensures (ConnectionsOnly s) (process_data_chunk env c s)
unfolding process_data_chunk
process_data_chunk-ConnectionsOnly env c s = with_connection c s s _ λ conn.
    elim conn.transfer_queue
      as (λ queue. Only s (elim queue [
        | [] ↦ fatal
        | buf ∷ rest ↦
            let (complete, conn') = read_object_chunk env c conn buf s in
            let s' = emit (read_chunk c) s in
            ok (
              if complete
              then set_connection c (record conn' { transfer_queue = rest; handler = messages })
                  (emit (plasma_release buf.object_id) (emit (plasma_seal buf.object_id) s'))
              else set_connection c conn' s')
      ])) [
        | [] ↦ tt
        | buf ∷ rest ↦ if-ConnectionsOnly (read_object_chunk env c conn buf s).0 s _ _ refl refl
      ]

pub ignore_data_chunk-ConnectionsOnly :
    (env : Env) (c : ℕ) (s : PlasmaManagerState)
    → Ensures (ConnectionsOnly s) (ignore_data_chunk env c s)
unfolding ignore_data_chunk
ignore_data_chunk-ConnectionsOnly env c s = with_connection c s s _ λ conn.
    Ensures-option conn.ignore_buffer (ConnectionsOnly s) fatal _ (λ _. tt)
      λ buf _. if-ConnectionsOnly (read_object_chunk env c conn buf s).0 s _ _ refl refl

pub process_data_request-ConnectionsOnly :
    (env : Env) (c object_id data_size metadata_size : ℕ) (s : PlasmaManagerState)
    → Ensures (ConnectionsOnly s) (process_data_request env c object_id data_size metadata_size s)
unfolding process_data_request
process_data_request-ConnectionsOnly env c object_id data_size metadata_size s =
    with_connection c s s _ λ conn. Ensures-check (conn.cursor == 0) (ConnectionsOnly s) _ λ _.
      Ensures-if (not (env.adds_file (time s))) (ConnectionsOnly s) _ _ (λ _. refl)
        λ _.
          Ensures-if (env.creates (time s) object_id) (ConnectionsOnly s) _ _ (λ _. refl) λ _. refl

pub queue_request-ConnectionsOnly :
    (env : Env) (a : Address) (o c : ℕ) (s : PlasmaManagerState)
    → Ensures (ConnectionsOnly s) (queue_request env a o c s)
unfolding queue_request
queue_request-ConnectionsOnly env a o c s =
    Ensures-check (not ((a.ip == s.addr) && (a.port == s.port))) (ConnectionsOnly s) _ λ _.
      with_connection c s s _ λ conn.
        set-ConnectionsOnly c _ s _
          (if-ConnectionsOnly (is_empty conn.transfer_queue) s (emit (watch c) s) s refl refl)
