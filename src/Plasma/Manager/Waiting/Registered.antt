-- ===== src/Plasma/Manager/Waiting/Registered.antt =====
-- Wait requests that come and that time out (process_wait_request and wait_timeout_handler in
-- src/plasma/plasma_manager.cc).
use ray.Common.{
  ℕ, ◌+◌, ◌<◌, ◌≡◌, refl, sym, ap, subst, ◌∙◌, Bool, false, not, none, some, List, [], ◌∷◌, ok,
  arith, leb, if◌then◌else◌, ◌==◌, ==_refl, count, one, inl, inr, Bool-cases,
}
use ray.Common.Maps.{lookup, insert, has_key, lookup-insert, has_key-insert_lem}
use ray.Plasma.Manager.State.{
  QueryType, query_local, query_anywhere, ObjectRequest, WaitRequest, status_nonexistent,
  PlasmaManagerState, Env, emit, object_table_request_notifications,
}
use ray.Plasma.Manager.Waits.{
  waiting, return_from_wait, Started, wait_loop, request_notifications, read_requests,
  process_wait_request, wait_timeout_handler,
}
use ray.Plasma.Manager.Waiting.{
  Holds, Holds-mono, Holds-check, pending, request_of, awaits, num_known, Counted, Fresh, IsWaiting,
  IsWaiting-of_same, Holds-if,
}
use ray.Plasma.Manager.Waiting.Returns.{Returned, return_from_wait-Returned}
use ray.Plasma.Manager.Waiting.Steps.{Returned-counts, lookup-Returned, Returned-Fresh, one_le}
use ray.Plasma.Manager.Waiting.Requests.{
  IsNew, times-lookup, wait_loop-NoRepeats, wait_loop-num_known, wait_loop-waiting,
  wait_loop-Unchanged,
}

-- What the fetch requests depend on.
abbrev pub SameFetches : PlasmaManagerState → PlasmaManagerState → Type 0
SameFetches s t =
    (t.fetch_requests ≡ s.fetch_requests) × (t.local_available_objects ≡ s.local_available_objects)

-- What a wait request that returns leaves, in a state where only it may be done.
abbrev pub Waits : PlasmaManagerState → PlasmaManagerState → Type 0
Waits s t = IsWaiting t × SameFetches s t

pub return_from_wait-Waits :
    (env : Env) (w : ℕ) (r : WaitRequest) (s : PlasmaManagerState)
    → lookup w s.wait_requests ≡ some r
    → Counted s
    → ((x : ℕ) (u : WaitRequest)
        → (w == x) ≡ false
        → lookup x s.wait_requests ≡ some u
        → (num_known u.object_requests ≡ u.num_satisfied)
          × (u.num_satisfied < u.num_objects_to_wait_for))
    → Fresh s
    → Holds false (Waits s) (return_from_wait env w s)
return_from_wait-Waits env w r s found counted undone fresh =
    Holds-mono false (Returned w r s) (Waits s) (return_from_wait env w s)
      (λ t returned.
        let (only, left, vectors) = returned in
        (
          (
            (λ x k p. Returned-counts w x r k p s t found returned (λ y. counted y k p)),
            (λ x u there.
                let (miss, old) = lookup-Returned w x r s t u returned there in
                undone x u miss old),
            Returned-Fresh w r s t returned fresh,
          ),
          (ap (λ v. v.fetch_requests) only, ap (λ v. v.local_available_objects) only),
        ))
      (return_from_wait-Returned false env w r s found
        (λ k p. let e = counted w k p in let f = one_le (awaits w k p s) in omega (arith, e, f))
        (λ e. absurd cc))

-- The state once a new wait request is registered.
module _ (conn num_object_requests num_ready_objects : ℕ) (returns : Bool)
    (m : List (ℕ × ObjectRequest)) (s : PlasmaManagerState) (new : IsNew m) (h : IsWaiting s) where
  abbrev w : ℕ
  w = s.next_wait_request

  abbrev started : Started
  started = wait_loop w m s

  abbrev wait_req : WaitRequest
  wait_req = record {
    client_conn = conn;
    timer = not returns;
    num_object_requests = num_object_requests;
    object_requests = started.requests;
    num_objects_to_wait_for = num_ready_objects;
    num_satisfied = started.num_satisfied;
  }

  abbrev registered : PlasmaManagerState
  registered = record started.state {
    wait_requests = insert w wait_req started.state.wait_requests;
    next_wait_request = w + 1;
  }

  waiting_registered : (t : QueryType) (p : ℕ) → waiting t p registered ≡ waiting t p started.state
  waiting_registered query_local p = refl
  waiting_registered query_anywhere p = refl

  found_registered : lookup w registered.wait_requests ≡ some wait_req
  found_registered =
      lookup-insert w w wait_req started.state.wait_requests
      ∙ ap (λ b. if b then some wait_req else lookup w started.state.wait_requests) (==_refl w)

  others : (x : ℕ) → (w == x) ≡ false → lookup x registered.wait_requests ≡ lookup x s.wait_requests
  others x miss =
      let (a, b, c, d) = wait_loop-Unchanged w m s in
      lookup-insert w x wait_req started.state.wait_requests ∙ rw miss (ap (lookup x) c)

  registered-Counted : Counted registered
  registered-Counted x t p =
      let (counted, undone, fresh) = h in
      let e = ap (count x) (waiting_registered t p) ∙ wait_loop-waiting w m s x t p new in
      let before = counted x t p in
      elim (Bool-cases (w == x)) [
        | inl hit ↦
            let same : w ≡ x = ground (arith, hit) in
            let f : lookup x s.wait_requests ≡ none =
              ap (λ y. lookup y s.wait_requests) (sym same) ∙ fresh w (omega arith) in
            let g : count x (waiting t p s) ≡ 0 =
              before ∙ ap (λ o. one (pending t (request_of p o))) f in
            let i = times-lookup t p started.requests (wait_loop-NoRepeats w m s new) in
            let j : lookup x registered.wait_requests ≡ some wait_req =
              ap (λ y. lookup y registered.wait_requests) (sym same) ∙ found_registered in
            let k = ap (λ o. one (pending t (request_of p o))) j in
            let e' = rw hit at e in omega (arith, e', g, i, k)
        | inr miss ↦
            let j = ap (λ o. one (pending t (request_of p o))) (others x miss) in
            let e' = rw miss at e in omega (arith, e', before, j)
      ]

  registered-Undone :
      (x : ℕ) (u : WaitRequest)
      → (w == x) ≡ false
      → lookup x registered.wait_requests ≡ some u
      → (num_known u.object_requests ≡ u.num_satisfied)
        × (u.num_satisfied < u.num_objects_to_wait_for)
  registered-Undone x u miss there =
      let (counted, undone, fresh) = h in undone x u (sym (others x miss) ∙ there)

  registered-Fresh : Fresh registered
  registered-Fresh x late =
      let (counted, undone, fresh) = h in
      let miss : (w == x) ≡ false = ground (arith, late) in
      others x miss ∙ fresh x (omega (arith, late))

  registered-IsWaiting : leb num_ready_objects started.num_satisfied ≡ false → IsWaiting registered
  registered-IsWaiting few = (
    registered-Counted,
    (λ x u there. elim (Bool-cases (w == x)) [
      | inl hit ↦
          let same : w ≡ x = ground (arith, hit) in
          let j : lookup x registered.wait_requests ≡ some wait_req =
            ap (λ y. lookup y registered.wait_requests) (sym same) ∙ found_registered in
          let e : some wait_req ≡ some u = sym j ∙ there in
          let k : wait_req ≡ u = cc in
          subst
            (λ v.
              (num_known v.object_requests ≡ v.num_satisfied)
              × (v.num_satisfied < v.num_objects_to_wait_for))
            k (wait_loop-num_known w m s new, ground (arith, few))
      | inr miss ↦ registered-Undone x u miss there
    ]),
    registered-Fresh,
  )

  registered-SameFetches : SameFetches s registered
  registered-SameFetches = let (a, b, c, d) = wait_loop-Unchanged w m s in (a, b)

Holds-request_notifications :
    (os : List ℕ) (s t : PlasmaManagerState)
    → Waits s t
    → Holds false (Waits s) (request_notifications os t)
Holds-request_notifications [] s t h = h
Holds-request_notifications (o ∷ os) s t h =
    Holds-check false t.db (Waits s) (ok (emit (object_table_request_notifications (o ∷ os)) t))
      (λ e. absurd cc)
      (let (waits, same) = h in
        (
          IsWaiting-of_same t (emit (object_table_request_notifications (o ∷ os)) t)
              (refl, refl, refl, refl) waits,
          same,
        ))

pub process_wait_request-Waits :
    (env : Env) (conn num_object_requests : ℕ) (m : List (ℕ × ObjectRequest))
    (num_ready_objects : ℕ) (s : PlasmaManagerState)
    → IsNew m
    → IsWaiting s
    → Holds false
        (Waits s)
        (process_wait_request env conn num_object_requests m num_ready_objects s)
unfolding process_wait_request
process_wait_request-Waits env conn n m ready s new h =
    let started = wait_loop s.next_wait_request m s in
    let returns = leb ready started.num_satisfied in
    let req = wait_req conn n ready returns m s new h in
    let t = registered conn n ready returns m s new h in
    let kept = registered-SameFetches conn n ready returns m s new h in
    Holds-if false returns (Waits s) _ _
      (λ _.
        Holds-mono false (Waits t) (Waits s) (return_from_wait env s.next_wait_request t)
          (λ u (waits, same). let (a, b) = same in let (c, d) = kept in (waits, (a ∙ c, b ∙ d)))
          (return_from_wait-Waits env s.next_wait_request req t
            (found_registered conn n ready returns m s new h)
            (registered-Counted conn n ready returns m s new h)
            (registered-Undone conn n ready returns m s new h)
            (registered-Fresh conn n ready returns m s new h)))
      λ few.
        Holds-request_notifications started.object_ids_to_request s t
          (registered-IsWaiting conn n ready returns m s new h few, kept)

-- A wait request that times out.
pub wait_timeout_handler-Waits :
    (env : Env) (w : ℕ) (r : WaitRequest) (s : PlasmaManagerState)
    → lookup w s.wait_requests ≡ some r
    → IsWaiting s
    → Holds false (Waits s) (wait_timeout_handler env w s)
unfolding wait_timeout_handler
wait_timeout_handler-Waits env w r s found (counted, undone, fresh) =
    return_from_wait-Waits env w r s found counted (λ x u miss there. undone x u there) fresh

-- The object requests of a message are new.
read_insert-IsNew :
    (o : ℕ) (type : QueryType) (m : List (ℕ × ObjectRequest))
    → IsNew m
    → IsNew (insert o (record { type = type; status = status_nonexistent }) m)
unfolding insert has_key
read_insert-IsNew o type [] h = (refl, refl, tt)
read_insert-IsNew o type ((k, request) ∷ m) (new, absent, rest) = elim (Bool-cases (k == o)) [
  | inl hit ↦
      let same : k ≡ o = ground (arith, hit) in
      rw hit (refl, ap (λ j. has_key j m) (sym same) ∙ absent, rest)
  | inr miss ↦
      let e = has_key-insert_lem o k (record { type = type; status = status_nonexistent }) m in
      let other : (o == k) ≡ false = ground (arith, miss) in
      rw miss (new, e ∙ rw other absent, read_insert-IsNew o type m rest)
]

pub read_requests-IsNew :
    (specs : List (ℕ × QueryType)) (m : List (ℕ × ObjectRequest))
    → IsNew m
    → IsNew (read_requests specs m)
unfolding read_requests
read_requests-IsNew [] m h = h
read_requests-IsNew ((o, type) ∷ specs) m h =
    read_requests-IsNew specs (insert o (record { type = type; status = status_nonexistent }) m)
      (read_insert-IsNew o type m h)
