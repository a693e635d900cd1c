-- ===== src/Plasma/Store/Invariant/Objects.antt =====
-- The operations on objects keep the queue of the eviction policy and the object table consistent.
use ray.Common.{
  ℕ, ◌≡◌, refl, ◌∙◌, Bool, true, false, some, List, [], ◌∷◌, ◌++◌, ok, ◌>>◌, check, Ensures,
  Ensures->>=, Ensures-check, Ensures-mono, Option-cases, Bool-cases, inl, inr, arith, contains,
  remove, if◌then◌else◌, ◌==◌, contains-remove, contains_snoc,
}
use ray.Common.Maps.{lookup, insert, erase, lookup-erase, lookup-insert}
use ray.Plasma.Types.{ObjectTableEntry}
use ray.Plasma.Eviction.{EvictionState, begin_object_access, end_object_access}
use ray.Plasma.Eviction.Cache.{
  lru, IsWellFormed, Queues-ok, add_object_to_lru_cache-Queues, remove_object_from_lru_cache-Queues,
}
use ray.Plasma.Store.State.{Env, PlasmaStoreState, Client, is_empty, is_sealed}
use ray.Plasma.Store.Notify.{push_notification}
use ray.Plasma.Store.Objects.{
  delete_object, deletion, remove_objects, begin_access, add_client_to_object_clients, end_access,
  remove_client_from_object_clients, release_object,
}
use ray.Plasma.Store.Invariant.{IsConsistent, Keeps}
use ray.Plasma.Store.Invariant.Notices.{Keeps-IsConsistent, push_notification-Keeps}

-- Deleting the first of the chosen objects.
erase-IsConsistent :
    (x : ℕ) (rest : List ℕ) (s : PlasmaStoreState) (allocated : List ℕ)
    → IsConsistent (x ∷ rest) s
    → IsConsistent rest (record s { allocated = allocated; objects = erase x s.objects })
unfolding contains
erase-IsConsistent x rest s allocated c = record {
  queue = c.queue;
  distinct = c.distinct.1;
  idle = λ k. rw (lookup-erase x k s.objects) (ground (arith, c.idle k, c.distinct.0));
  named = λ k e found. c.named k e (ground (arith, lookup-erase x k s.objects));
  within = c.within;
}

-- A new version of one entry, with a queue that fits it.
pub insert-IsConsistent :
    (k : ℕ) (e : ObjectTableEntry) (ev : EvictionState) (s : PlasmaStoreState)
    → IsConsistent [] s
    → e.object_id ≡ k
    → IsWellFormed ev
    → ev.memory_used ≡ s.eviction_state.memory_used
    → ((j : ℕ)
        → contains j (lru ev)
          ≡ (if k == j then is_empty e.clients else contains j (lru s.eviction_state)))
    → IsConsistent [] (record s { objects = insert k e s.objects; eviction_state = ev })
insert-IsConsistent k e ev s c named w same fits = record {
  queue = w;
  distinct = w.distinct;
  idle = λ j. rw (lookup-insert k j e s.objects) (ground (arith, fits j, c.idle j));
  named = λ j f found. ground (arith, lookup-insert k j e s.objects, c.named j f);
  within = rw same c.within;
}

abbrev with_client : Client → ObjectTableEntry → ObjectTableEntry
with_client client e = record e { clients = e.clients ++ client.address ∷ [] }

is_empty_snoc : (x : ℕ) (xs : List ℕ) → is_empty (xs ++ x ∷ []) ≡ false
is_empty_snoc x [] = refl
is_empty_snoc x (y ∷ xs) = refl

is_empty-contains : (x : ℕ) (xs : List ℕ) → contains x xs ≡ true → is_empty xs ≡ false
unfolding contains
is_empty-contains x [] h = cc
is_empty-contains x (y ∷ xs) h = refl

module _ (s : PlasmaStoreState) (e : ObjectTableEntry) (ev : EvictionState) (client : Client)
    (k : ℕ) (c : IsConsistent [] s) where
  fits_removed :
      e.object_id ≡ k
      → lru ev ≡ remove e.object_id (lru s.eviction_state)
      → (j : ℕ)
      → contains j (lru ev) ≡ (
          if k == j
          then is_empty (e.clients ++ client.address ∷ [])
          else contains j (lru s.eviction_state))
  fits_removed named l j = rw (
    l,
    named,
    contains-remove j k (lru s.eviction_state) c.distinct,
    is_empty_snoc client.address e.clients,
  )

module _ (s : PlasmaStoreState) (e : ObjectTableEntry) (client : Client) (k : ℕ)
    (c : IsConsistent [] s) (found : lookup k s.objects ≡ some e) where
  fits_unchanged :
      is_empty e.clients ≡ false
      → (j : ℕ)
      → contains j (lru s.eviction_state) ≡ (
          if k == j
          then is_empty (e.clients ++ client.address ∷ [])
          else contains j (lru s.eviction_state))
  fits_unchanged busy j = ground (arith, c.idle k, is_empty_snoc client.address e.clients)

module _ (env : Env) where
  pub delete_object-IsConsistent :
      (x : ℕ) (rest : List ℕ) (s : PlasmaStoreState)
      → IsConsistent (x ∷ rest) s
      → Ensures (IsConsistent rest) (delete_object env x s)
  unfolding delete_object
  delete_object-IsConsistent x rest s c = elim (Option-cases (lookup x s.objects)) [
    | inl e ↦ rw (e, delete_object) tt
    | inr (entry, e) ↦
        let s' : PlasmaStoreState = record s {
          allocated = remove entry.pointer s.allocated;
          objects = erase x s.objects;
        } in
        rw (e, delete_object)
          (Ensures-check (is_sealed entry.state) (IsConsistent rest) _ λ _.
            Ensures-check (is_empty entry.clients) (IsConsistent rest) _ λ _.
              Ensures-mono (Keeps s') (IsConsistent rest) (push_notification env (deletion x) s')
                (λ t k. Keeps-IsConsistent {s = s'} k (erase-IsConsistent x rest s _ c))
                (push_notification-Keeps env (deletion x) s' s' refl))
  ]

  pub remove_objects-IsConsistent :
      (chosen : List ℕ) (s : PlasmaStoreState)
      → IsConsistent chosen s
      → Ensures (IsConsistent []) (remove_objects env chosen s)
  unfolding remove_objects
  remove_objects-IsConsistent [] s c = c
  remove_objects-IsConsistent (x ∷ rest) s c =
      Ensures->>= (IsConsistent rest) (IsConsistent []) (delete_object env x s)
        (remove_objects env rest) (delete_object-IsConsistent x rest s c)
        (remove_objects-IsConsistent rest)

  pub add_client-IsConsistent :
      (k : ℕ) (client : Client) (s : PlasmaStoreState)
      → IsConsistent [] s
      → Ensures (IsConsistent []) (add_client_to_object_clients env k client s)
  unfolding add_client_to_object_clients begin_access begin_object_access remove_objects
  add_client-IsConsistent k client s c = elim (Option-cases (lookup k s.objects)) [
    | inl e ↦ rw (e, add_client_to_object_clients) tt
    | inr (entry, e) ↦ elim (Bool-cases (contains client.address entry.clients)) [
      | inl used ↦ rw (e, add_client_to_object_clients, used) c
      | inr new ↦ elim (Bool-cases (is_empty entry.clients)) [
        | inl idle ↦
            let named : entry.object_id ≡ k = c.named k entry e in
            let queued : contains entry.object_id (lru s.eviction_state) ≡ true =
              rw named (c.idle k ∙ rw e idle) in
            let (ev, ran, w, l, kept) = Queues-ok (
              remove_object_from_lru_cache-Queues s.eviction_state c.queue entry.object_id
                queued) in
            rw (e, add_client_to_object_clients, new, idle)
              (rw (begin_access, ran)
                (insert-IsConsistent k (with_client client entry) ev s c named w kept
                  (fits_removed s entry ev client k c named l)))
        | inr busy ↦
            rw (e, add_client_to_object_clients, new, busy)
              (insert-IsConsistent k (with_client client entry) s.eviction_state s c
                (c.named k entry e) c.queue refl (fits_unchanged s entry client k c e busy))
      ]
    ]
  ]

  end_access-IsConsistent :
      (k : ℕ) (entry : ObjectTableEntry) (clients : List ℕ) (s : PlasmaStoreState)
      → IsConsistent [] s
      → lookup k s.objects ≡ some entry
      → is_empty entry.clients ≡ false
      → Ensures (IsConsistent []) (end_access env k entry clients s)
  unfolding end_access end_object_access remove_objects
  end_access-IsConsistent k entry (x ∷ clients) s c e used =
      insert-IsConsistent k (record entry { clients = x ∷ clients }) s.eviction_state s c
        (c.named k entry e) c.queue refl (λ j. ground (arith, c.idle k))
  end_access-IsConsistent k entry [] s c e used =
      let named : entry.object_id ≡ k = c.named k entry e in
      let unqueued : contains entry.object_id (lru s.eviction_state) ≡ false =
        rw named (c.idle k ∙ rw e used) in
      let (ev, ran, w, l, kept) =
        Queues-ok
          (add_object_to_lru_cache-Queues s.eviction_state c.queue entry.object_id unqueued) in
      rw ran (
        insert-IsConsistent k (record entry { clients = [] }) ev s c named w kept
          (λ j. rw (l, named) (contains_snoc j k (lru s.eviction_state))))

  pub remove_client-IsConsistent :
      (k : ℕ) (client : Client) (s : PlasmaStoreState)
      → IsConsistent [] s
      → Ensures (λ r. IsConsistent [] r.0) (remove_client_from_object_clients env k client s)
  unfolding remove_client_from_object_clients
  remove_client-IsConsistent k client s c = elim (Option-cases (lookup k s.objects)) [
    | inl e ↦ rw (e, remove_client_from_object_clients) tt
    | inr (entry, e) ↦ elim (Bool-cases (contains client.address entry.clients)) [
      | inr absent ↦ rw (e, remove_client_from_object_clients, absent) c
      | inl used ↦
          rw (e, remove_client_from_object_clients, used)
            (Ensures->>= (IsConsistent []) (λ (r : PlasmaStoreState × Bool). IsConsistent [] r.0)
              (end_access env k entry (remove client.address entry.clients) s) (λ s'. ok (s', true))
              (end_access-IsConsistent k entry (remove client.address entry.clients) s c e
                (is_empty-contains client.address entry.clients used))
              (λ t h. h))
    ]
  ]

  pub release_object-IsConsistent :
      (client : Client) (k : ℕ) (s : PlasmaStoreState)
      → IsConsistent [] s
      → Ensures (IsConsistent []) (release_object env client k s)
  unfolding release_object
  release_object-IsConsistent client k s c = elim (Option-cases (lookup k s.objects)) [
    | inl e ↦ rw (e, release_object) tt
    | inr (entry, e) ↦
        rw (e, release_object)
          (Ensures->>= (λ (r : PlasmaStoreState × Bool). IsConsistent [] r.0) (IsConsistent [])
            (remove_client_from_object_clients env k client s) (λ r. check r.1 >> ok r.0)
            (remove_client-IsConsistent k client s c)
            (λ r h. Ensures-check r.1 (IsConsistent []) (ok r.0) (λ _. h)))
  ]
