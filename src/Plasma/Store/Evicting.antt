-- ===== src/Plasma/Store/Evicting.antt =====
-- Which objects an eviction deletes, and when it aborts the store.
use ray.Common.{
  ℕ, ◌<◌, ◌≡◌, refl, ap, sym, ◌∙◌, Bool, false, none, some, List, [], ◌∷◌, ◌++◌, inl, inr, fatal,
  Ensures, Ensures->>=, Ensures-check, Ensures-mono, Option-cases, arith, remove, contains,
  if◌then◌else◌, ◌==◌, contains-append, ◌||◌,
}
use ray.Common.Int.{ℤ, pos}
use ray.Common.Maps.{lookup, erase, lookup-erase}
use ray.Plasma.Types.{ObjectTableEntry, created}
use ray.Plasma.Eviction.{EvictionState}
use ray.Plasma.Eviction.Cache.{lru}
use ray.Plasma.Eviction.Choose.{Chosen, choose_objects_to_evict-Chooses}
use ray.Plasma.Store.State.{Env, PlasmaStoreState, Client, evict_reply, reply, is_sealed, is_empty}
use ray.Plasma.Store.Notify.{push_notification}
use ray.Plasma.Store.Objects.{delete_object, deletion, remove_objects}
use ray.Plasma.Store.Messages.{evict}
use ray.Plasma.Store.Invariant.{IsConsistent, is_idle, Keeps, Core}
use ray.Plasma.Store.Invariant.Notices.{push_notification-Keeps, reply-Keeps}
use ray.Plasma.Store.Invariant.Creation.{IsConsistent-IsKnown}

module _ (env : Env) where
  -- The table without some objects.
  abbrev Without : List ℕ → PlasmaStoreState → PlasmaStoreState → Type 0
  Without ids s t =
      (j : ℕ) → lookup j t.objects ≡ (if contains j ids then none else lookup j s.objects)

  pub delete_object-lookup :
      (k : ℕ) (s : PlasmaStoreState)
      → Ensures
          (λ t. (j : ℕ) → lookup j t.objects ≡ (if k == j then none else lookup j s.objects))
          (delete_object env k s)
  unfolding delete_object
  delete_object-lookup k s = elim (Option-cases (lookup k s.objects)) [
    | inl e ↦ rw (e, delete_object) tt
    | inr (entry, e) ↦
        let s' : PlasmaStoreState = record s {
          allocated = remove entry.pointer s.allocated;
          objects = erase k s.objects;
        } in
        let gone : PlasmaStoreState → Type 0 =
          λ t. (j : ℕ) → lookup j t.objects ≡ (if k == j then none else lookup j s.objects) in
        rw (e, delete_object)
          (Ensures-check (is_sealed entry.state) gone _ λ _.
            Ensures-check (is_empty entry.clients) gone _ λ _.
              Ensures-mono (Keeps s') gone (push_notification env (deletion k) s')
                (λ t kept j.
                  ap (λ (c : Core). lookup j c.objects) kept ∙ lookup-erase k j s.objects)
                (push_notification-Keeps env (deletion k) s' s' refl))
  ]

  pub remove_objects-Without :
      (ids : List ℕ) (s : PlasmaStoreState) → Ensures (Without ids s) (remove_objects env ids s)
  unfolding remove_objects contains
  remove_objects-Without [] s = λ j. refl
  remove_objects-Without (k ∷ ids) s =
      Ensures->>=
        (λ t. (j : ℕ) → lookup j t.objects ≡ (if k == j then none else lookup j s.objects))
        (Without (k ∷ ids) s) (delete_object env k s) _ (delete_object-lookup k s)
        (λ t h.
          Ensures-mono (Without ids t) (Without (k ∷ ids) s) (remove_objects env ids t)
            (λ u h' j. ground (arith, h j, h' j)) (remove_objects-Without ids t))

  -- An object in use is not among the first objects of the queue.
  unqueued :
      (s : PlasmaStoreState) (chosen rest : List ℕ) (k : ℕ) (e : ObjectTableEntry)
      → IsConsistent [] s
      → lru s.eviction_state ≡ chosen ++ rest
      → lookup k s.objects ≡ some e
      → is_empty e.clients ≡ false
      → contains k chosen ≡ false
  unqueued s chosen rest k e c split found used =
      let absent : contains k (lru s.eviction_state) ≡ false = c.idle k ∙ ap is_idle found ∙ used in
      let both : (contains k chosen || contains k rest) ≡ false =
        sym (contains-append k chosen rest) ∙ rw split at absent in
      ground arith

  -- In a consistent store, an eviction, if it does not abort, keeps every object that a client
  -- uses, unchanged.
  pub evict_keeps_used :
      (client : Client) (num_bytes : ℤ) (s : PlasmaStoreState) (k : ℕ) (e : ObjectTableEntry)
      → IsConsistent [] s
      → lookup k s.objects ≡ some e
      → is_empty e.clients ≡ false
      → Ensures (λ t. lookup k t.objects ≡ some e) (evict env client num_bytes s)
  unfolding evict
  evict_keeps_used client num_bytes s k e c found used =
      let (ev, freed, chosen, ran, res) =
        choose_objects_to_evict-Chooses s.objects num_bytes s.eviction_state c.queue
          (IsConsistent-IsKnown s c) in
      let t : PlasmaStoreState = record s { eviction_state = ev } in
      let spared = unqueued s chosen (lru ev) k e c res.split found used in
      rw ran (
        Ensures->>= (Without chosen t) (λ u. lookup k u.objects ≡ some e)
          (remove_objects env chosen t) _ (remove_objects-Without chosen t)
          (λ u h.
            Ensures->>= (λ (r : PlasmaStoreState × Bool). Keeps u r.0)
              (λ u. lookup k u.objects ≡ some e) (reply env (evict_reply client.sock freed) u) _
              (reply-Keeps env (evict_reply client.sock freed) u u refl)
              (λ r kept. ap (λ (c : Core). lookup k c.objects) kept ∙ h k ∙ rw spared found)))

  nonempty-Chosen :
      (s : PlasmaStoreState) (n k : ℕ) (rest : List ℕ) (ev : EvictionState) (freed : ℕ)
      (chosen : List ℕ)
      → 0 < n
      → lru s.eviction_state ≡ k ∷ rest
      → Chosen s.objects (pos n) s.eviction_state ev freed chosen
      → (more : List ℕ) × (chosen ≡ k ∷ more)
  nonempty-Chosen s n k rest ev freed [] positive front res = elim res.enough [
    | inl enough ↦ absurd (omega (arith, res.bytes))
    | inr empty ↦ absurd (cc (res.split))
  ]
  nonempty-Chosen s n k rest ev freed (x ∷ more) positive front res = (more, cc (res.split))

  delete_unsealed :
      (k : ℕ) (s : PlasmaStoreState) (e : ObjectTableEntry)
      → lookup k s.objects ≡ some e
      → e.state ≡ created
      → delete_object env k s ≡ fatal
  unfolding delete_object
  delete_unsealed k s e found unsealed = rw (found, delete_object, unsealed)

  -- In a consistent store, if the object that comes first in the eviction queue was never sealed,
  -- an eviction of at least one byte aborts the store.
  pub evict_unsealed :
      (client : Client) (n : ℕ) (s : PlasmaStoreState) (k : ℕ) (rest : List ℕ)
      (e : ObjectTableEntry)
      → IsConsistent [] s
      → 0 < n
      → lru s.eviction_state ≡ k ∷ rest
      → lookup k s.objects ≡ some e
      → e.state ≡ created
      → evict env client (pos n) s ≡ fatal
  unfolding evict remove_objects
  evict_unsealed client n s k rest e c positive front found unsealed =
      let (ev, freed, chosen, ran, res) =
        choose_objects_to_evict-Chooses s.objects (pos n) s.eviction_state c.queue
          (IsConsistent-IsKnown s c) in
      let (more, first) = nonempty-Chosen s n k rest ev freed chosen positive front res in
      rw (ran, first, delete_unsealed k (record s { eviction_state = ev }) e found unsealed)
