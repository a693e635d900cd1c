-- ===== src/Plasma/Store/Gets.antt =====
-- Get requests for objects that are all in the store: src/plasma/plasma_store.cc.
use ray.Common.{
  ℕ, ◌+◌, ◌≡◌, refl, ap, ◌∙◌, true, some, List, [], ◌∷◌, ◌++◌, inl, inr, ok, Bool-cases, arith,
  contains, ◌==◌, ==_refl, length, All,
}
use ray.Common.Maps.{lookup, insert, lookup-insert}
use ray.Plasma.Types.{ObjectTableEntry, sealed}
use ray.Plasma.Eviction.{EvictionState, begin_object_access}
use ray.Plasma.Eviction.Cache.{lru, Queues-ok, remove_object_from_lru_cache-Queues}
use ray.Plasma.Store.State.{Env, PlasmaStoreState, Client, GetRequest, is_empty}
use ray.Plasma.Store.Objects.{
  add_client_to_object_clients, begin_access, remove_objects, plasma_object,
}
use ray.Plasma.Store.Requests.{satisfy, get_one, get_all, sealed_entry}
use ray.Plasma.Store.Invariant.{IsConsistent}
use ray.Plasma.Store.Invariant.Objects.{add_client-IsConsistent}
use ray.Plasma.Store.Invariant.Requests.{satisfy-IsConsistent}

-- An object that a get request finds.
abbrev pub IsPresent : PlasmaStoreState → ℕ → Type 0
IsPresent s k = (e : ObjectTableEntry) × (lookup k s.objects ≡ some e) × (e.state ≡ sealed)

-- A client has joined the users of an object: the requests and the outbox are the same, and what was
-- present still is.
record Joined (s t : PlasmaStoreState) : Type 0 where
  consistent : IsConsistent [] t
  get_requests : t.get_requests ≡ s.get_requests
  object_get_requests : t.object_get_requests ≡ s.object_get_requests
  outbox : t.outbox ≡ s.outbox
  timers : t.timers ≡ s.timers
  present : (j : ℕ) → IsPresent s j → IsPresent t j

insert-IsPresent :
    (k : ℕ) (e f : ObjectTableEntry) (s : PlasmaStoreState) (j : ℕ)
    → lookup k s.objects ≡ some e
    → f.state ≡ e.state
    → IsPresent s j
    → (g : ObjectTableEntry) × (lookup j (insert k f s.objects) ≡ some g) × (g.state ≡ sealed)
insert-IsPresent k e f s j found same (g, there, whole) = elim (Bool-cases (k == j)) [
  | inl hit ↦ (f, lookup-insert k j f s.objects ∙ rw hit, ground arith)
  | inr miss ↦ (g, lookup-insert k j f s.objects ∙ rw miss there, whole)
]

pub IsPresent-mono :
    (ids : List ℕ) (s t : PlasmaStoreState)
    → ((j : ℕ) → IsPresent s j → IsPresent t j)
    → All (IsPresent s) ids
    → All (IsPresent t) ids
IsPresent-mono [] s t h p = tt
IsPresent-mono (k ∷ ids) s t h (p, ps) = (h k p, IsPresent-mono ids s t h ps)

sealed_entry_of : (e : ObjectTableEntry) → e.state ≡ sealed → sealed_entry (some e) ≡ some e
sealed_entry_of e whole = rw whole

-- The store once a client has joined the users of an object.
abbrev joined :
    (k : ℕ) → Client → ObjectTableEntry → EvictionState → PlasmaStoreState → PlasmaStoreState
joined k client e ev s = record s {
  objects = insert k (record e { clients = e.clients ++ client.address ∷ [] }) s.objects;
  eviction_state = ev;
}

joined-Joined :
    (k : ℕ) (client : Client) (s : PlasmaStoreState) (e : ObjectTableEntry) (ev : EvictionState)
    → lookup k s.objects ≡ some e
    → IsConsistent [] (joined k client e ev s)
    → Joined s (joined k client e ev s)
joined-Joined k client s e ev found consistent = record {
  consistent = consistent;
  get_requests = refl;
  object_get_requests = refl;
  outbox = refl;
  timers = refl;
  present = λ j p.
      insert-IsPresent k e (record e { clients = e.clients ++ client.address ∷ [] }) s j found refl
        p;
}

module _ (env : Env) where
  -- Adding a user to an object in a consistent store does not abort.
  add_client_completes :
      (k : ℕ) (client : Client) (s : PlasmaStoreState) (e : ObjectTableEntry)
      → IsConsistent [] s
      → lookup k s.objects ≡ some e
      → (t : PlasmaStoreState) × (add_client_to_object_clients env k client s ≡ ok t) × Joined s t
  unfolding add_client_to_object_clients begin_access begin_object_access remove_objects
  add_client_completes k client s e c found =
      let kept = add_client-IsConsistent env k client s c in
      elim (Bool-cases (contains client.address e.clients)) [
        | inl used ↦ (
          s,
          rw (found, add_client_to_object_clients, used),
          record {
            consistent = c;
            get_requests = refl;
            object_get_requests = refl;
            outbox = refl;
            timers = refl;
            present = λ j p. p;
          },
        )
        | inr new ↦ elim (Bool-cases (is_empty e.clients)) [
          | inl idle ↦
              let named : e.object_id ≡ k = c.named k e found in
              let queued : contains e.object_id (lru s.eviction_state) ≡ true =
                rw named (c.idle k ∙ rw found idle) in
              let (ev, ran, w, l, _) =
                Queues-ok (
                  remove_object_from_lru_cache-Queues s.eviction_state c.queue e.object_id
                    queued) in
              let t = joined k client e ev s in
              let added : add_client_to_object_clients env k client s ≡ ok t =
                rw (found, add_client_to_object_clients, new, idle) (rw (begin_access, ran)) in
              (t, added, joined-Joined k client s e ev found (rw added at kept))
          | inr busy ↦
              let t = joined k client e s.eviction_state s in
              let added : add_client_to_object_clients env k client s ≡ ok t =
                rw (found, add_client_to_object_clients, new, busy) in
              (t, added, joined-Joined k client s e s.eviction_state found (rw added at kept))
        ]
      ]

  satisfy_sealed :
      (k req : ℕ) (r : GetRequest) (e : ObjectTableEntry) (s : PlasmaStoreState)
      → e.state ≡ sealed
      → satisfy env k req r e s
        ≡ ok (record s {
          get_requests =
              insert req
                (record r {
                  objects = insert k (plasma_object e) r.objects;
                  num_satisfied = r.num_satisfied + 1;
                })
                s.get_requests;
        })
  unfolding satisfy
  satisfy_sealed k req r e s whole = rw whole

  -- What the loop of process_get_request leaves of a request whose objects are all present.
  pub record Served (req n : ℕ) (r : GetRequest) (s t : PlasmaStoreState) : Type 0 where
    pub consistent : IsConsistent [] t
    pub request : GetRequest
    pub pending : lookup req t.get_requests ≡ some request
    pub waits_for : request.num_objects_to_wait_for ≡ r.num_objects_to_wait_for
    pub satisfied : request.num_satisfied ≡ r.num_satisfied + n
    pub timer : request.timer ≡ r.timer
    pub object_get_requests : t.object_get_requests ≡ s.object_get_requests
    pub outbox : t.outbox ≡ s.outbox
    pub timers : t.timers ≡ s.timers

  pub get_all_present :
      (client : Client) (req : ℕ) (ids : List ℕ) (s : PlasmaStoreState) (r : GetRequest)
      → IsConsistent [] s
      → lookup req s.get_requests ≡ some r
      → All (IsPresent s) ids
      → (t : PlasmaStoreState) × (get_all env client req ids s ≡ ok t)
        × Served req (length ids) r s t
  unfolding get_all get_one
  get_all_present client req [] s r c found present = (
    s,
    refl,
    record {
      consistent = c;
      request = r;
      pending = found;
      waits_for = refl;
      satisfied = omega arith;
      timer = refl;
      object_get_requests = refl;
      outbox = refl;
      timers = refl;
    },
  )
  get_all_present client req (k ∷ ids) s r c found ((e, there, whole), present) =
      let r' : GetRequest = record r {
        objects = insert k (plasma_object e) r.objects;
        num_satisfied = r.num_satisfied + 1;
      } in
      let s₁ : PlasmaStoreState = record s { get_requests = insert req r' s.get_requests } in
      let satisfied : satisfy env k req r e s ≡ ok s₁ = satisfy_sealed k req r e s whole in
      let c₁ : IsConsistent [] s₁ = rw satisfied at (satisfy-IsConsistent env k req r e s c) in
      let (s₂, added, j) = add_client_completes k client s₁ e c₁ there in
      let pending : lookup req s₂.get_requests ≡ some r' =
        ap (lookup req) j.get_requests
        ∙ lookup-insert req req r' s.get_requests
        ∙ rw (==_refl req) in
      let (t, rest, served) =
        get_all_present client req ids s₂ r' j.consistent pending
          (IsPresent-mono ids s₁ s₂ j.present present) in
      (
        t,
        rw (found, there, get_one)
            (rw (sealed_entry_of e whole, get_one) (rw (satisfied, added) rest)),
        record {
          consistent = served.consistent;
          request = served.request;
          pending = served.pending;
          waits_for = served.waits_for;
          satisfied = omega (arith, served.satisfied);
          timer = served.timer;
          object_get_requests = served.object_get_requests ∙ j.object_get_requests;
          outbox = served.outbox ∙ j.outbox;
          timers = served.timers ∙ j.timers;
        },
      )
