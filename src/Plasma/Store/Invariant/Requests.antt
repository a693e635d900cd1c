-- ===== src/Plasma/Store/Invariant/Requests.antt =====
-- Get requests and sealing keep the queue of the eviction policy and the object table consistent.
use ray.Common.{
  ℕ, zero, suc, ◌+◌, refl, Bool, true, false, ◌||◌, Option, none, some, List, [], ◌∷◌, ok, ◌>>=◌,
  Ensures, Ensures->>=, Ensures-check, Option-cases, inl, inr, arith, if◌then◌else◌, ◌==◌, length,
  get_elem?,
}
use ray.Common.Maps.{lookup, insert}
use ray.Plasma.Types.{ObjectTableEntry, sealed}
use ray.Plasma.Store.State.{Env, PlasmaStoreState, Client, GetRequest, is_sealed}
use ray.Plasma.Store.Notify.{push_notification}
use ray.Plasma.Store.Objects.{add_client_to_object_clients}
use ray.Plasma.Store.Requests.{
  requests_of, is_created, is_zero, sealed_entry, add_get_request_for_object, return_from_get,
  satisfy, update_request, update_requests, update_object_get_requests, seal_object, get_one,
  get_all, answer_or_wait, process_get_request,
}
use ray.Plasma.Store.Invariant.{IsConsistent, Keeps}
use ray.Plasma.Store.Invariant.Notices.{Keeps-IsConsistent, push_notification-Keeps}
use ray.Plasma.Store.Invariant.Objects.{insert-IsConsistent, add_client-IsConsistent}
use ray.Plasma.Store.Invariant.Returns.{SameObjects-IsConsistent, return_from_get-IsConsistent}

module _ (env : Env) where
  pub satisfy-IsConsistent :
      (k req : ℕ) (r : GetRequest) (entry : ObjectTableEntry) (s : PlasmaStoreState)
      → IsConsistent [] s
      → Ensures (IsConsistent []) (satisfy env k req r entry s)
  unfolding satisfy
  satisfy-IsConsistent k req r entry s c =
      Ensures-check (is_sealed entry.state) (IsConsistent []) _
        (λ _. SameObjects-IsConsistent {s = s} refl c)

  update_request-IsConsistent :
      (k index : ℕ) (s : PlasmaStoreState)
      → IsConsistent [] s
      → Ensures (λ r. IsConsistent [] r.0) (update_request env k index s)
  unfolding update_request
  update_request-IsConsistent k index s c =
      elim (Option-cases (get_elem? (requests_of k s) index)) [
        | inl e ↦ rw (e, update_request) tt
        | inr (req, e) ↦ elim (Option-cases (lookup req s.get_requests)) [
          | inl f ↦ rw (e, f, update_request) tt
          | inr (r, f) ↦ elim (Option-cases (lookup k s.objects)) [
            | inl g ↦ rw (e, f, g, update_request) tt
            | inr (entry, g) ↦
                rw (e, f, g, update_request)
                  (Ensures->>= (IsConsistent []) After (satisfy env k req r entry s) _
                    (satisfy-IsConsistent k req r entry s c)
                    (λ s₁ c₁.
                      Ensures->>= (IsConsistent []) After
                        (add_client_to_object_clients env k r.client s₁) _
                        (add_client-IsConsistent env k r.client s₁ c₁)
                        (λ s₂ c₂.
                          finish req s₂ c₂ (r.num_satisfied + 1 == r.num_objects_to_wait_for))))
          ]
        ]
      ]
    where
      After : PlasmaStoreState × ℕ → Type 0
      After r = IsConsistent [] r.0

      finish :
          (req : ℕ) (t : PlasmaStoreState)
          → IsConsistent [] t
          → (complete : Bool)
          → Ensures
              (λ (r : PlasmaStoreState × ℕ). IsConsistent [] r.0)
              (if complete
                then (do s₃ ← return_from_get env req t; ok (s₃, index))
                else ok (t, index + 1))
      finish req t h true =
          Ensures->>= (IsConsistent []) After (return_from_get env req t) _
            (return_from_get-IsConsistent env req t h) (λ u h'. h')
      finish req t h false = h

  update_requests-IsConsistent :
      (rounds k index : ℕ) (s : PlasmaStoreState)
      → IsConsistent [] s
      → Ensures (λ r. IsConsistent [] r.0) (update_requests env rounds k index s)
  unfolding update_requests
  update_requests-IsConsistent zero k index s c = c
  update_requests-IsConsistent (suc rounds) k index s c =
      Ensures->>= (λ (r : PlasmaStoreState × ℕ). IsConsistent [] r.0)
        (λ (r : PlasmaStoreState × ℕ). IsConsistent [] r.0) (update_request env k index s) _
        (update_request-IsConsistent k index s c)
        (λ r h. update_requests-IsConsistent rounds k r.1 r.0 h)

  update_object_get_requests-IsConsistent :
      (k : ℕ) (s : PlasmaStoreState)
      → IsConsistent [] s
      → Ensures (IsConsistent []) (update_object_get_requests env k s)
  unfolding update_object_get_requests
  update_object_get_requests-IsConsistent k s c =
      Ensures->>= (λ (r : PlasmaStoreState × ℕ). IsConsistent [] r.0) (IsConsistent [])
        (update_requests env (length (requests_of k s)) k 0 s) _
        (update_requests-IsConsistent (length (requests_of k s)) k 0 s c)
        (λ r h.
          Ensures-check (r.1 == length (requests_of k r.0)) (IsConsistent []) _
            (λ _. SameObjects-IsConsistent {s = r.0} refl h))

  pub seal_object-IsConsistent :
      (k : ℕ) (digest : List ℕ) (s : PlasmaStoreState)
      → IsConsistent [] s
      → Ensures (IsConsistent []) (seal_object env k digest s)
  unfolding seal_object
  seal_object-IsConsistent k digest s c = elim (Option-cases (lookup k s.objects)) [
    | inl e ↦ rw (e, seal_object) tt
    | inr (entry, e) ↦
        let info = record entry.info { digest = digest } in
        let entry' = record entry { state = sealed; info = info } in
        let t : PlasmaStoreState = record s { objects = insert k entry' s.objects } in
        let t-consistent : IsConsistent [] t =
          insert-IsConsistent k entry' s.eviction_state s c (c.named k entry e) c.queue refl
            (λ j. ground (arith, c.idle k)) in
        rw (e, seal_object)
          (Ensures-check (is_created entry.state) (IsConsistent []) _ (λ _.
            Ensures->>= (Keeps t) (IsConsistent []) (push_notification env info t) _
              (push_notification-Keeps env info t t refl)
              (λ u kept.
                update_object_get_requests-IsConsistent k u
                  (Keeps-IsConsistent {s = t} {t = u} kept t-consistent))))
  ]

  get_one-IsConsistent :
      (client : Client) (req k : ℕ) (s : PlasmaStoreState)
      → IsConsistent [] s
      → Ensures (IsConsistent []) (get_one env client req k s)
  unfolding get_one add_get_request_for_object
  get_one-IsConsistent client req k s c = elim (Option-cases (lookup req s.get_requests)) [
    | inl f ↦ rw (f, get_one) tt
    | inr (r, f) ↦ elim (Option-cases (sealed_entry (lookup k s.objects))) [
      | inl g ↦ rw (f, g, get_one) (SameObjects-IsConsistent {s = s} refl c)
      | inr (entry, g) ↦
          rw (f, g, get_one)
            (Ensures->>= (IsConsistent []) (IsConsistent []) (satisfy env k req r entry s) _
              (satisfy-IsConsistent k req r entry s c) (add_client-IsConsistent env k client))
    ]
  ]

  get_all-IsConsistent :
      (client : Client) (req : ℕ) (ids : List ℕ) (s : PlasmaStoreState)
      → IsConsistent [] s
      → Ensures (IsConsistent []) (get_all env client req ids s)
  unfolding get_all
  get_all-IsConsistent client req [] s c = c
  get_all-IsConsistent client req (k ∷ ids) s c =
      Ensures->>= (IsConsistent []) (IsConsistent []) (get_one env client req k s) _
        (get_one-IsConsistent client req k s c) (get_all-IsConsistent client req ids)

  answer_or_wait-IsConsistent :
      (timeout_ms : Option ℕ) (req : ℕ) (s : PlasmaStoreState)
      → IsConsistent [] s
      → Ensures (IsConsistent []) (answer_or_wait env timeout_ms req s)
  unfolding answer_or_wait
  answer_or_wait-IsConsistent timeout_ms req s c = elim (Option-cases (lookup req s.get_requests)) [
    | inl f ↦ rw (f, answer_or_wait) tt
    | inr (r, f) ↦
        rw (f, answer_or_wait)
          (finish r timeout_ms (r.num_satisfied == r.num_objects_to_wait_for || is_zero timeout_ms))
  ]
    where
      finish :
          (r : GetRequest) (timeout_ms : Option ℕ) (now : Bool)
          → Ensures (IsConsistent []) (
              if now then return_from_get env req s else elim timeout_ms [
                | none ↦ ok s
                | some _ ↦ ok (record s {
                  timers = insert s.next_timer req s.timers;
                  next_timer = s.next_timer + 1;
                  get_requests = insert req (record r { timer = some s.next_timer }) s.get_requests;
                })
              ])
      finish r timeout_ms true = return_from_get-IsConsistent env req s c
      finish r none false = c
      finish r (some n) false = SameObjects-IsConsistent {s = s} refl c

  pub process_get_request-IsConsistent :
      (client : Client) (ids : List ℕ) (timeout_ms : Option ℕ) (s : PlasmaStoreState)
      → IsConsistent [] s
      → Ensures (IsConsistent []) (process_get_request env client ids timeout_ms s)
  unfolding process_get_request
  process_get_request-IsConsistent client ids timeout_ms s c =
      Ensures->>= (IsConsistent []) (IsConsistent []) (get_all env client s.next_request ids _) _
        (get_all-IsConsistent client s.next_request ids _ (SameObjects-IsConsistent {s = s} refl c))
        (answer_or_wait-IsConsistent timeout_ms s.next_request)
