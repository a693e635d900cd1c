-- ===== src/Plasma/Manager/Fetching.antt =====
-- Fetch requests: src/plasma/plasma_manager.cc. An object that is fetched is not local, and the next
-- manager to ask is one of those that are known.
use ray.Common.{
  ℕ, ◌<◌, ◌≡◌, refl, sym, ap, subst, ◌∙◌, Bool, true, false, not, none, some, List, [], ◌∷◌, length,
  get_elem?, ok, fatal, arith, ◌==◌, contains, if◌then◌else◌, inl, inr, Bool-cases, map, Ensures,
  Ensures-mono, Ensures->>=, Ensures-check, Ensures-if, Ensures-option,
}
use ray.Common.Maps.{
  lookup, insert, has_key, lookup-insert, has_key-insert_lem, has_key-lookup-some,
}
use ray.Plasma.Manager.State.{
  Address, FetchRequest, PlasmaManagerState, Env, emit, object_table_request_notifications,
  query_anywhere, status_remote,
}
use ray.Plasma.Manager.Transfers.{get_manager_connection, is_empty}
use ray.Plasma.Manager.Fetches.{
  queue_request, try_next, request_transfer_from, retry_fetch, retry_loop, fetch_timeout_handler,
  request_transfer, object_present_callback, object_table_subscribe_callback, fetch_loop,
  process_fetch_requests,
}
use ray.Plasma.Manager.Waits.{is_object_local, request_notifications, update_object_wait_requests}
use ray.Plasma.Manager.Connections.{
  ConnectionsOnly, ConnectionsOnly-trans, get_manager_connection-ConnectionsOnly,
  queue_request-ConnectionsOnly,
}
use ray.Plasma.Manager.Waiting.{IsWaiting, IsWaiting-of_same, WaitsOnly, Ensures-Holds}
use ray.Plasma.Manager.Waiting.Updates.{Updated, update_object_wait_requests-Updated}

abbrev pub InRange : FetchRequest → Type 0
InRange r = 0 < length r.manager_vector → r.next_manager < length r.manager_vector

abbrev pub IsFetching : PlasmaManagerState → Type 0
IsFetching s =
    ((o : ℕ) → has_key o s.fetch_requests ≡ true → contains o s.local_available_objects ≡ false)
    × ((o : ℕ) (r : FetchRequest) → lookup o s.fetch_requests ≡ some r → InRange r)

-- What holds of the manager between two callbacks.
abbrev pub IsManaged : PlasmaManagerState → Type 0
IsManaged s = IsWaiting s × IsFetching s

try_next-InRange : (r : FetchRequest) → InRange (try_next r)
try_next-InRange r some_known = omega (arith, some_known)

insert-IsFetching :
    (o : ℕ) (r : FetchRequest) (s : PlasmaManagerState)
    → contains o s.local_available_objects ≡ false
    → InRange r
    → IsFetching s
    → IsFetching (record s { fetch_requests = insert o r s.fetch_requests })
insert-IsFetching o r s missing range (remote, ranges) = (
  (λ p known.
      let e = has_key-insert_lem o p r s.fetch_requests in
      elim (Bool-cases (o == p)) [
        | inl hit ↦
            let same : o ≡ p = ground (arith, hit) in
            ap (λ k. contains k s.local_available_objects) (sym same) ∙ missing
        | inr miss ↦
            let f : has_key p (insert o r s.fetch_requests) ≡ has_key p s.fetch_requests =
              e ∙ rw miss refl in
            remote p (sym f ∙ known)
      ]),
  λ p q found.
      let e = lookup-insert o p r s.fetch_requests in
      elim (Bool-cases (o == p)) [
        | inl hit ↦
            let f : some r ≡ some q = sym (e ∙ rw hit refl) ∙ found in
            let g : r ≡ q = cc in subst InRange g range
        | inr miss ↦ ranges p q (sym (e ∙ rw miss refl) ∙ found)
      ],
)

pub ConnectionsOnly-IsManaged :
    (s t : PlasmaManagerState) → ConnectionsOnly s t → IsManaged s → IsManaged t
ConnectionsOnly-IsManaged s t only (waits, fetches) = subst IsManaged (sym only) (
  IsWaiting-of_same s
      (record s {
        manager_connections = t.manager_connections;
        next_connection = t.next_connection;
        effects = t.effects;
      })
      (refl, refl, refl, refl) waits,
  fetches,
)

fetching-IsManaged :
    (o : ℕ) (r : FetchRequest) (s : PlasmaManagerState)
    → contains o s.local_available_objects ≡ false
    → InRange r
    → IsManaged s
    → IsManaged (record s { fetch_requests = insert o r s.fetch_requests })
fetching-IsManaged o r s missing range (waits, fetches) = (
  IsWaiting-of_same s (record s { fetch_requests = insert o r s.fetch_requests })
      (refl, refl, refl, refl) waits,
  insert-IsFetching o r s missing range fetches,
)

request_transfer_from-IsManaged :
    (env : Env) (o : ℕ) (r : FetchRequest) (s : PlasmaManagerState)
    → contains o s.local_available_objects ≡ false
    → IsManaged s
    → Ensures IsManaged (request_transfer_from env o r s)
unfolding request_transfer_from
request_transfer_from-IsManaged env o r s missing h =
    Ensures-check (not (is_empty r.manager_vector)) IsManaged _ λ _.
      Ensures-option (get_elem? r.manager_vector r.next_manager) IsManaged fatal _ (λ _. tt)
        λ a _.
          let p = get_manager_connection env a s in
          let first = get_manager_connection-ConnectionsOnly env a s in
          Ensures->>= (ConnectionsOnly s) IsManaged
            (elim p.0 [ none ↦ ok p.1 | some c ↦ queue_request env a o c p.1 ]) _
            (Ensures-option p.0 (ConnectionsOnly s) (ok p.1) (λ c. queue_request env a o c p.1)
              (λ _. first)
              λ c _.
                Ensures-mono (ConnectionsOnly p.1) (ConnectionsOnly s) (queue_request env a o c p.1)
                  (λ t e. ConnectionsOnly-trans s p.1 t first e)
                  (queue_request-ConnectionsOnly env a o c p.1))
            λ t only.
              fetching-IsManaged o (try_next r) t
                (ap (λ v. contains o v.local_available_objects) only ∙ missing) (try_next-InRange r)
                (ConnectionsOnly-IsManaged s t only h)

fetched-missing :
    (o : ℕ) (r : FetchRequest) (s : PlasmaManagerState)
    → IsManaged s
    → lookup o s.fetch_requests ≡ some r
    → contains o s.local_available_objects ≡ false
fetched-missing o r s (waits, (remote, ranges)) found =
    remote o (has_key-lookup-some o s.fetch_requests found)

retry_fetch-IsManaged :
    (env : Env) (o : ℕ) (s : PlasmaManagerState)
    → IsManaged s
    → Ensures (λ p. IsManaged p.1) (retry_fetch env o s)
unfolding retry_fetch
retry_fetch-IsManaged env o s h =
    let Next = λ (p : Bool × PlasmaManagerState). IsManaged p.1 in
    Ensures-option (lookup o s.fetch_requests) Next fatal _ (λ _. tt)
      λ r found.
        Ensures-if (is_empty r.manager_vector) Next _ _ (λ _. h)
          λ _.
            Ensures->>= IsManaged Next (request_transfer_from env o r s) _
              (request_transfer_from-IsManaged env o r s (fetched-missing o r s h found) h) λ t k. k

retry_loop-IsManaged :
    (env : Env) (os : List ℕ) (s : PlasmaManagerState)
    → IsManaged s
    → Ensures (λ p. IsManaged p.1) (retry_loop env os s)
unfolding retry_loop
retry_loop-IsManaged env [] s h = h
retry_loop-IsManaged env (o ∷ os) s h =
    Ensures->>= (λ (p : Bool × PlasmaManagerState). IsManaged p.1)
      (λ (p : List ℕ × PlasmaManagerState). IsManaged p.1) (retry_fetch env o s) _
      (retry_fetch-IsManaged env o s h)
      λ p k.
        Ensures->>= (λ (q : List ℕ × PlasmaManagerState). IsManaged q.1)
          (λ (q : List ℕ × PlasmaManagerState). IsManaged q.1) (retry_loop env os p.1) _
          (retry_loop-IsManaged env os p.1 k) λ q l. l

pub request_notifications-IsManaged :
    (os : List ℕ) (s : PlasmaManagerState)
    → IsManaged s
    → Ensures IsManaged (request_notifications os s)
request_notifications-IsManaged [] s h = h
request_notifications-IsManaged (o ∷ os) s h =
    Ensures-check s.db IsManaged _
      λ _. ConnectionsOnly-IsManaged s (emit (object_table_request_notifications (o ∷ os)) s) refl h

pub fetch_timeout_handler-IsManaged :
    (env : Env) (s : PlasmaManagerState)
    → IsManaged s
    → Ensures IsManaged (fetch_timeout_handler env s)
unfolding fetch_timeout_handler
fetch_timeout_handler-IsManaged env s h =
    let os = map (λ p. p.0) s.fetch_requests in
    Ensures->>= (λ (p : List ℕ × PlasmaManagerState). IsManaged p.1) IsManaged (retry_loop env os s)
      _ (retry_loop-IsManaged env os s h)
      λ p k.
        Ensures-if p.1.db IsManaged _ (ok p.1) (λ _. request_notifications-IsManaged p.0 p.1 k)
          λ _. k

request_transfer-IsManaged :
    (env : Env) (o : ℕ) (managers : List Address) (s : PlasmaManagerState)
    → IsManaged s
    → Ensures IsManaged (request_transfer env o managers s)
unfolding request_transfer
request_transfer-IsManaged env o managers s h =
    Ensures-check (not (is_empty managers)) IsManaged _ λ _.
      Ensures-if (is_object_local s o) IsManaged _ _
        (λ _. Ensures-check (not (has_key o s.fetch_requests)) IsManaged (ok s) λ _. h)
        λ missing. Ensures-check (has_key o s.fetch_requests) IsManaged _ λ _.
          request_transfer_from-IsManaged env o
            (record { manager_vector = managers; next_manager = 0 }) s missing h

fetch_loop-IsManaged :
    (os : List ℕ) (s : PlasmaManagerState) → IsManaged s → IsManaged (fetch_loop os s).1
unfolding fetch_loop
fetch_loop-IsManaged [] s h = h
fetch_loop-IsManaged (o ∷ os) s h = elim (Bool-cases (is_object_local s o)) [
  | inl e ↦ rw (e, fetch_loop) (fetch_loop-IsManaged os s h)
  | inr e ↦ elim (Bool-cases (has_key o s.fetch_requests)) [
    | inl f ↦ rw (e, fetch_loop, f) (fetch_loop-IsManaged os s h)
    | inr f ↦
        let r : FetchRequest = record { manager_vector = []; next_manager = 0 } in
        let t : PlasmaManagerState = record s { fetch_requests = insert o r s.fetch_requests } in
        rw (e, fetch_loop, f)
          (fetch_loop-IsManaged os t (fetching-IsManaged o r s e (λ known. known) h))
  ]
]

pub process_fetch_requests-IsManaged :
    (os : List ℕ) (s : PlasmaManagerState)
    → IsManaged s
    → Ensures IsManaged (process_fetch_requests os s)
unfolding process_fetch_requests
process_fetch_requests-IsManaged os s h =
    request_notifications-IsManaged (fetch_loop os s).0 (fetch_loop os s).1
      (fetch_loop-IsManaged os s h)

-- Nothing but the wait requests changes, and they are as they should be.
pub WaitsOnly-IsManaged :
    (s t : PlasmaManagerState) → IsWaiting t → WaitsOnly s t → IsManaged s → IsManaged t
WaitsOnly-IsManaged s t waits only (before, fetches) = (waits, subst IsFetching (sym only) fetches)

pub object_table_subscribe_callback-IsManaged :
    (env : Env) (o : ℕ) (managers : List Address) (s : PlasmaManagerState)
    → IsManaged s
    → Ensures IsManaged (object_table_subscribe_callback env o managers s)
unfolding object_table_subscribe_callback object_present_callback
object_table_subscribe_callback-IsManaged env o managers s h =
    Ensures->>= IsManaged IsManaged
      (if has_key o s.fetch_requests then request_transfer env o managers s else ok s) _
      (Ensures-if (has_key o s.fetch_requests) IsManaged _ (ok s)
        (λ _. request_transfer-IsManaged env o managers s h) λ _. h)
      λ t k. Ensures-check (not (is_empty managers)) IsManaged _ λ _.
        Ensures-mono (Updated false env t query_anywhere o) IsManaged
          (update_object_wait_requests env o query_anywhere status_remote t)
          (λ u (waits, only, fewer, safe, nobody). WaitsOnly-IsManaged t u waits only k)
          (Ensures-Holds false (Updated false env t query_anywhere o)
            (update_object_wait_requests env o query_anywhere status_remote t)
            (update_object_wait_requests-Updated false env o query_anywhere status_remote t refl k.0
              (λ e. absurd cc)))
