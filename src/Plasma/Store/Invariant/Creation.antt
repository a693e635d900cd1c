-- ===== src/Plasma/Store/Invariant/Creation.antt =====
-- create_object keeps the queue of the eviction policy and the object table consistent.
use ray.Common.{
  ℕ, zero, suc, ◌+◌, ◌≡◌, refl, ap, sym, ◌∙◌, Bool, true, false, Option, none, some, List, [], ◌∷◌,
  ◌++◌, ok, Ensures, Ensures->>=, Ensures-check, Ensures-mono, Ensures-both, Ensures-any, Yields,
  Result-cases, Option-cases, Bool-cases, inl, inr, arith, All, contains, remove, contains_snoc,
}
use ray.Common.Maps.{lookup, insert, erase, has_key, lookup-erase, lookup-has_key}
use ray.Plasma.Types.{ObjectTable, PlasmaObject}
use ray.Plasma.Malloc.{get_malloc_mapinfo}
use ray.Plasma.Eviction.{EvictionState, require_space, object_created}
use ray.Common.Int.{pos, ◌≤ℤ◌}
use ray.Plasma.Eviction.Choose.{IsKnown}
use ray.Plasma.Eviction.Space.{require_space-Reserves}
use ray.Plasma.Eviction.Cache.{lru, IsWellFormed, Queues-ok, add_object_to_lru_cache-Queues}
use ray.Plasma.Store.State.{Env, PlasmaStoreState, Client, PlasmaError, is_empty, is_sealed}
use ray.Plasma.Store.Notify.{push_notification}
use ray.Plasma.Store.Objects.{
  delete_object, deletion, remove_objects, make_space, allocate, called, add_object, create_object,
  new_entry, add_client_to_object_clients,
}
use ray.Plasma.Store.Invariant.{IsConsistent, is_idle, Keeps, Core}
use ray.Plasma.Store.Invariant.Notices.{Keeps-IsConsistent, push_notification-Keeps}
use ray.Plasma.Store.Invariant.Objects.{
  insert-IsConsistent, remove_objects-IsConsistent, add_client-IsConsistent,
}

IsKnown-of_idle :
    (objects : ObjectTable) (k : ℕ) → is_idle (lookup k objects) ≡ true → IsKnown objects k
IsKnown-of_idle objects k h = elim (Option-cases (lookup k objects)) [
  | inl e ↦ absurd (cc (ap is_idle e))
  | inr found ↦ found
]

contains_later : (x k : ℕ) (l : List ℕ) → contains k l ≡ true → contains k (x ∷ l) ≡ true
unfolding contains
contains_later x k l h = ground arith

contains_first : (x : ℕ) (l : List ℕ) → contains x (x ∷ l) ≡ true
unfolding contains
contains_first x l = ground arith

All-IsKnown :
    (objects : ObjectTable) (l : List ℕ)
    → ((k : ℕ) → contains k l ≡ true → IsKnown objects k)
    → All (IsKnown objects) l
All-IsKnown objects [] h = tt
All-IsKnown objects (x ∷ l) h =
    (h x (contains_first x l), All-IsKnown objects l (λ k m. h k (contains_later x k l m)))

-- The objects of the queue are in the table.
pub IsConsistent-IsKnown :
    (s : PlasmaStoreState) → IsConsistent [] s → All (IsKnown s.objects) (lru s.eviction_state)
IsConsistent-IsKnown s c =
    All-IsKnown s.objects (lru s.eviction_state)
      (λ k m. IsKnown-of_idle s.objects k (sym (c.idle k) ∙ m))

-- The policy gives up the first objects of its queue.
pub given_up-IsConsistent :
    (s : PlasmaStoreState) (ev : EvictionState) (chosen : List ℕ)
    → IsConsistent [] s
    → IsWellFormed ev
    → lru s.eviction_state ≡ chosen ++ lru ev
    → ev.memory_used ≤ℤ pos s.memory_capacity
    → IsConsistent chosen (record s { eviction_state = ev })
given_up-IsConsistent s ev chosen c w split within = record {
  queue = w;
  distinct = rw split at c.distinct;
  idle = λ k. rw (← split) (c.idle k);
  named = c.named;
  within = within;
}

allocated-IsConsistent :
    (s : PlasmaStoreState) (allocated : List ℕ) (calls : ℕ)
    → IsConsistent [] s
    → IsConsistent [] (record s { allocated = allocated; calls = calls })
allocated-IsConsistent s allocated calls c = record {
  queue = c.queue;
  distinct = c.distinct;
  idle = c.idle;
  named = c.named;
  within = c.within;
}

module _ (env : Env) where
  pub make_space-IsConsistent :
      (size : ℕ) (s : PlasmaStoreState)
      → IsConsistent [] s
      → Ensures (λ r. IsConsistent [] r.0) (make_space env size s)
  unfolding make_space
  make_space-IsConsistent size s c =
      let (ev, success, chosen, ran, res) =
        require_space-Reserves s.objects s.memory_capacity size s.eviction_state c.queue
          (IsConsistent-IsKnown s c) c.within in
      let t : PlasmaStoreState = record s { eviction_state = ev } in
      rw ran (
        Ensures->>= (IsConsistent []) (λ (r : PlasmaStoreState × Bool). IsConsistent [] r.0)
          (remove_objects env chosen t) (λ s'. ok (s', success))
          (remove_objects-IsConsistent env chosen t
            (given_up-IsConsistent s ev chosen c res.well_formed res.split res.within))
          (λ t' h. h))

  delete_object_absent :
      (k x : ℕ) (s : PlasmaStoreState)
      → lookup k s.objects ≡ none
      → Ensures (λ t. lookup k t.objects ≡ none) (delete_object env x s)
  unfolding delete_object
  delete_object_absent k x s h = elim (Option-cases (lookup x s.objects)) [
    | inl e ↦ rw (e, delete_object) tt
    | inr (entry, e) ↦
        let s' : PlasmaStoreState = record s {
          allocated = remove entry.pointer s.allocated;
          objects = erase x s.objects;
        } in
        let absent : (t : PlasmaStoreState) → Type 0 = λ t. lookup k t.objects ≡ none in
        rw (e, delete_object)
          (Ensures-check (is_sealed entry.state) absent _ λ _.
            Ensures-check (is_empty entry.clients) absent _ λ _.
              Ensures-mono (Keeps s') absent (push_notification env (deletion x) s')
                (λ t kept.
                  ap (λ (c : Core). lookup k c.objects) kept
                  ∙ lookup-erase x k s.objects
                  ∙ ground (arith))
                (push_notification-Keeps env (deletion x) s' s' refl))
  ]

  remove_objects_absent :
      (k : ℕ) (chosen : List ℕ) (s : PlasmaStoreState)
      → lookup k s.objects ≡ none
      → Ensures (λ t. lookup k t.objects ≡ none) (remove_objects env chosen s)
  unfolding remove_objects
  remove_objects_absent k [] s h = h
  remove_objects_absent k (x ∷ rest) s h =
      Ensures->>= (λ t. lookup k t.objects ≡ none) (λ t. lookup k t.objects ≡ none)
        (delete_object env x s) (remove_objects env rest) (delete_object_absent k x s h)
        (remove_objects_absent k rest)

  -- A store in which an object can be created.
  abbrev Ready : ℕ → PlasmaStoreState → Type 0
  Ready k s = IsConsistent [] s × (lookup k s.objects ≡ none)

  make_space-Ready :
      (k size : ℕ) (s : PlasmaStoreState)
      → Ready k s
      → Ensures (λ r. Ready k r.0) (make_space env size s)
  unfolding make_space
  make_space-Ready k size s (c, h) =
      Ensures-both (λ (r : PlasmaStoreState × Bool). IsConsistent [] r.0)
        (λ (r : PlasmaStoreState × Bool). lookup k r.0.objects ≡ none) (make_space env size s)
        (make_space-IsConsistent size s c)
        (Ensures->>= (λ _. Unit {0}) (λ (r : PlasmaStoreState × Bool). lookup k r.0.objects ≡ none)
          (require_space s.objects s.memory_capacity size s.eviction_state) _ (Ensures-any _)
          (λ r _.
            Ensures->>= (λ t. lookup k t.objects ≡ none)
              (λ (r : PlasmaStoreState × Bool). lookup k r.0.objects ≡ none)
              (remove_objects env r.2 (record s { eviction_state = r.0 })) _
              (remove_objects_absent k r.2 _ h) (λ t h'. h')))

  allocate-Ready :
      (k fuel size : ℕ) (s : PlasmaStoreState)
      → Ready k s
      → Yields (λ r. Ready k r.0) (allocate env fuel size s)
  unfolding allocate
  allocate-Ready k zero size s c = tt
  allocate-Ready k (suc fuel) size s (c, h) =
      let ready : Ready k (called s) = (Keeps-IsConsistent {s = s} {t = called s} refl c, h) in
      elim (Option-cases (env.dlmemalign s.calls size)) [
        | inr (p, e) ↦
            rw (e, allocate) (allocated-IsConsistent s (p ∷ s.allocated) (s.calls + 1) c, h)
        | inl e ↦ elim (Result-cases (make_space env size (called s))) [
          | inr aborted ↦ rw (e, allocate, aborted) tt
          | inl ((t, true), made) ↦
              rw (e, allocate, made)
                (allocate-Ready k fuel size t
                  (rw made at (make_space-Ready k size (called s) ready)))
          | inl ((t, false), made) ↦
              rw (e, allocate, made) (rw made at (make_space-Ready k size (called s) ready))
        ]
      ]

  add_object-IsConsistent :
      (client : Client) (k data_size metadata_size : ℕ) (s : PlasmaStoreState) (p : Option ℕ)
      → Ready k s
      → Ensures (λ r. IsConsistent [] r.0) (add_object env client k data_size metadata_size (s, p))
  unfolding add_object object_created new_entry
  add_object-IsConsistent client k data_size metadata_size s none (c, h) = c
  add_object-IsConsistent client k data_size metadata_size s (some p) (c, h) =
      elim (Option-cases (get_malloc_mapinfo (env.records_by_fd s.calls) p)) [
        | inl e ↦ rw (e, add_object) tt
        | inr (m, e) ↦
            let entry = new_entry k data_size metadata_size p m in
            let unqueued : contains k (lru s.eviction_state) ≡ false = c.idle k ∙ ap is_idle h in
            let (ev, ran, w, l, kept) =
              Queues-ok (add_object_to_lru_cache-Queues s.eviction_state c.queue k unqueued) in
            let t : PlasmaStoreState = record s {
              objects = insert k entry s.objects;
              eviction_state = ev;
            } in
            let t-consistent : IsConsistent [] t =
              insert-IsConsistent k entry ev s c refl w kept
                (λ j. rw l (contains_snoc j k (lru s.eviction_state))) in
            rw (e, add_object, ran)
              (Ensures->>= (IsConsistent [])
                (λ (r : PlasmaStoreState × PlasmaError × Option PlasmaObject). IsConsistent [] r.0)
                (add_client_to_object_clients env k client t) _
                (add_client-IsConsistent env k client t t-consistent) (λ u h'. h'))
      ]

  -- Whatever create_object does, the store stays consistent.
  pub create_object-IsConsistent :
      (fuel : ℕ) (client : Client) (k data_size metadata_size : ℕ) (s : PlasmaStoreState)
      → IsConsistent [] s
      → Yields
          (λ r. IsConsistent [] r.0)
          (create_object env fuel client k data_size metadata_size s)
  unfolding create_object
  create_object-IsConsistent fuel client k data_size metadata_size s c =
      elim (Bool-cases (has_key k s.objects)) [
        | inl e ↦ rw e c
        | inr e ↦
            let made =
              allocate-Ready k fuel (data_size + metadata_size) s
                (c, lookup-has_key k s.objects e) in
            elim (Option-cases (allocate env fuel (data_size + metadata_size) s)) [
              | inl a ↦ rw (e, a, create_object) tt
              | inr (r, a) ↦
                  rw (e, a, create_object)
                    (Ensures->>= (λ (r : PlasmaStoreState × Option ℕ). Ready k r.0)
                      (λ (r : PlasmaStoreState × PlasmaError × Option PlasmaObject).
                        IsConsistent [] r.0)
                      r (add_object env client k data_size metadata_size) (rw a at made)
                      (λ r ready.
                        add_object-IsConsistent client k data_size metadata_size r.0 r.1 ready))
            ]
      ]
