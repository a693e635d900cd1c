-- ===== src/Plasma/Store/Answers.antt =====
-- What becomes of a get request for objects that are all there.
use ray.Common.{
  ℕ, ◌≡◌, refl, Bool, true, false, Option, none, some, List, [], ◌∷◌, ok, inl, inr, ◌==◌, arith,
  length, All, Bool-cases, if◌then◌else◌, ◌+◌, ◌≢◌, ◌∙◌, Ensures, Ensures-any, Ensures-check,
  Ensures->>=, Option-cases, ==_refl,
}
use ray.Common.Maps.{lookup, erase, insert, has_key, lookup-insert, lookup-erase}
use ray.Plasma.Types.{PlasmaObject}
use ray.Plasma.Store.State.{
  Env, PlasmaStoreState, Client, GetRequest, get_reply, file_descriptor, reply,
}
use ray.Plasma.Store.Requests.{
  count_unique, GetRequest_init, descriptor, remove_from_all, remove_get_request,
  send_file_descriptors, return_from_get, answer_or_wait, process_get_request, get_all,
}
use ray.Plasma.Store.Invariant.{IsConsistent}
use ray.Plasma.Store.Completion.{IsCalm, reply_completes}
use ray.Plasma.Store.Gets.{IsPresent, IsPresent-mono, Served, get_all_present}

module _ (env : Env) where
  -- The request that process_get_request makes, once its loop is done with objects that are present.
  abbrev Counted : Client → List ℕ → PlasmaStoreState → PlasmaStoreState → Type 0
  Counted client ids s t =
      Served env s.next_request (length ids) (GetRequest_init client ids)
        (record s {
          get_requests = insert s.next_request (GetRequest_init client ids) s.get_requests;
          next_request = s.next_request + 1;
        })
        t

  remove_get_request_gone :
      (req : ℕ) (r : GetRequest) (s : PlasmaStoreState)
      → Ensures (λ t. lookup req t.get_requests ≡ none) (remove_get_request req r s)
  unfolding remove_get_request
  remove_get_request_gone req r s =
      let gone : lookup req (erase req s.get_requests) ≡ none =
        lookup-erase req req s.get_requests ∙ rw (==_refl req) in
      elim (Option-cases r.timer) [
        | inl e ↦ rw (e, remove_get_request) gone
        | inr (timer, e) ↦
            rw (e, remove_get_request)
              (Ensures-check (has_key timer s.timers) (λ t. lookup req t.get_requests ≡ none) _
                (λ _. gone))
      ]

  return_from_get_gone :
      (req : ℕ) (s : PlasmaStoreState)
      → Ensures (λ t. lookup req t.get_requests ≡ none) (return_from_get env req s)
  unfolding return_from_get
  return_from_get_gone req s = elim (Option-cases (lookup req s.get_requests)) [
    | inl e ↦ rw (e, return_from_get) tt
    | inr (r, e) ↦
        let gone : PlasmaStoreState → Type 0 = λ t. lookup req t.get_requests ≡ none in
        rw (e, return_from_get)
          (Ensures->>= (λ _. Unit {0}) gone
            (reply env (get_reply r.client.sock r.object_ids r.objects) s) _ (Ensures-any _)
            (λ q _.
              Ensures->>= (λ _. Unit {0}) gone
                (if q.1
                  then send_file_descriptors env r.client.sock r.object_ids r.objects q.0
                  else ok q.0)
                (λ u. remove_get_request req r (remove_from_all req r.object_ids u)) (Ensures-any _)
                (λ u _. remove_get_request_gone req r (remove_from_all req r.object_ids u))))
  ]

  Keeps_requests :
      (s : PlasmaStoreState) {requests : List (ℕ × GetRequest)} {next : ℕ}
      → IsConsistent [] s
      → IsConsistent [] (record s { get_requests = requests; next_request = next })
  Keeps_requests s c = record {
    queue = c.queue;
    distinct = c.distinct;
    idle = c.idle;
    named = c.named;
    within = c.within;
  }

  module _ (client : Client) (ids : List ℕ) (s : PlasmaStoreState) (c : IsConsistent [] s)
      (present : All (IsPresent s) ids) where
    counted :
        (t : PlasmaStoreState) × (get_all env client s.next_request ids (record s {
          get_requests = insert s.next_request (GetRequest_init client ids) s.get_requests;
          next_request = s.next_request + 1;
        })
          ≡ ok t)
        × Counted client ids s t
    counted =
        let r = GetRequest_init client ids in
        let s' : PlasmaStoreState = record s {
          get_requests = insert s.next_request r s.get_requests;
          next_request = s.next_request + 1;
        } in
        get_all_present env client s.next_request ids s' r (Keeps_requests s c)
          (lookup-insert s.next_request s.next_request r s.get_requests
            ∙ rw (==_refl s.next_request))
          (IsPresent-mono ids s s' (λ j p. p) present)

    -- In a consistent store, a request that names an object twice, with no timeout, is not answered
    -- although all of its objects are sealed in the store: it stays there, nothing is sent, no timer is
    -- set, and the request waits for no object.
    pub process_get_request_stuck :
        count_unique ids ≢ length ids
        → (t : PlasmaStoreState) × (r : GetRequest) × (process_get_request env client ids none s
            ≡ ok t)
          × (lookup s.next_request t.get_requests ≡ some r)
          × (r.timer ≡ none)
          × (t.timers ≡ s.timers)
          × (t.object_get_requests ≡ s.object_get_requests)
          × (t.outbox ≡ s.outbox)
    unfolding process_get_request answer_or_wait GetRequest_init
    process_get_request_stuck twice =
        let (t, ran, served) = counted in
        let missing : (served.request.num_satisfied == served.request.num_objects_to_wait_for)
            ≡ false =
          ground (arith, served.satisfied, served.waits_for) in
        (
          t,
          served.request,
          rw (ran, served.pending, answer_or_wait) (rw missing),
          served.pending,
          served.timer,
          served.timers,
          served.object_get_requests,
          served.outbox,
        )

module _ (env : Env) (calm : IsCalm env) where
  send_file_descriptors_completes :
      (sock : ℕ) (ids : List ℕ) (objects : List (ℕ × PlasmaObject)) (s : PlasmaStoreState)
      → (t : PlasmaStoreState) × (send_file_descriptors env sock ids objects s ≡ ok t)
  unfolding send_file_descriptors
  send_file_descriptors_completes sock [] objects s = (s, refl)
  send_file_descriptors_completes sock (k ∷ ids) objects s =
      let d = descriptor (lookup k objects) in
      elim (Bool-cases d.0) [
        | inl e ↦
            let (u, delivered, sent) = reply_completes env calm (file_descriptor sock d.1) s in
            let (t, ran) = send_file_descriptors_completes sock ids objects u in
            (t, rw (e, sent) ran)
        | inr e ↦ let (t, ran) = send_file_descriptors_completes sock ids objects s in (t, rw e ran)
      ]

  deliver_completes :
      (r : GetRequest) (delivered : Bool) (s : PlasmaStoreState)
      → (t : PlasmaStoreState) × ((if delivered
            then send_file_descriptors env r.client.sock r.object_ids r.objects s
            else ok s)
          ≡ ok t)
  deliver_completes r true s =
      send_file_descriptors_completes r.client.sock r.object_ids r.objects s
  deliver_completes r false s = (s, refl)

  remove_untimed :
      (req : ℕ) (r : GetRequest) (s : PlasmaStoreState)
      → r.timer ≡ none
      → remove_get_request req r s ≡ ok (record s { get_requests = erase req s.get_requests })
  unfolding remove_get_request
  remove_untimed req r s untimed = rw (untimed, remove_get_request)

  return_from_get_completes :
      (req : ℕ) (s : PlasmaStoreState) (r : GetRequest)
      → lookup req s.get_requests ≡ some r
      → r.timer ≡ none
      → (t : PlasmaStoreState) × (return_from_get env req s ≡ ok t)
  unfolding return_from_get
  return_from_get_completes req s r found untimed =
      let (u, delivered, sent) =
        reply_completes env calm (get_reply r.client.sock r.object_ids r.objects) s in
      let (v, handed) = deliver_completes r delivered u in
      let w = remove_from_all req r.object_ids v in
      (
        record w { get_requests = erase req w.get_requests },
        rw (found, return_from_get, sent, handed) (remove_untimed req r w untimed),
      )

  -- In a consistent store and a calm environment, a request for different objects that are all sealed
  -- in the store is finished at once, whatever its timeout: the code ends, and the request does not
  -- stay in the store.
  pub process_get_request_answers :
      (client : Client) (ids : List ℕ) (s : PlasmaStoreState) (timeout_ms : Option ℕ)
      → IsConsistent [] s
      → All (IsPresent s) ids
      → count_unique ids ≡ length ids
      → (t : PlasmaStoreState) × (process_get_request env client ids timeout_ms s ≡ ok t)
        × (lookup s.next_request t.get_requests ≡ none)
  unfolding process_get_request answer_or_wait GetRequest_init
  process_get_request_answers client ids s timeout_ms c present unique =
      let (t, ran, served) = counted env client ids s c present in
      let full : (served.request.num_satisfied == served.request.num_objects_to_wait_for) ≡ true =
        ground (arith, served.satisfied, served.waits_for) in
      let (u, returned) =
        return_from_get_completes s.next_request t served.request served.pending served.timer in
      let gone = rw returned at (return_from_get_gone env s.next_request t) in
      (u, rw (ran, served.pending, answer_or_wait) (rw full returned), gone)
