-- ===== src/Plasma/Store/Termination.antt =====
-- The loop of create_object: when it ends.
use ray.Common.{
  ℕ, zero, suc, ◌+◌, ◌≤◌, ◌<◌, ◌≡◌, ◌≢◌, refl, ap, sym, ◌∙◌, true, false, none, List, [], ◌∷◌, ◌⊎◌,
  inl, inr, ok, Ensures, Ensures->>=, Ensures-check, >>=-eq-ok, subst, remove, Ensures-mono,
  Option-cases, Result-cases, Bool-cases, arith, length, length-append,
}
use ray.Common.Int.{pos, neg_part, ◌+ℤ◌, ◌≤ℤ◌, int_laws}
use ray.Common.Maps.{lookup, erase, has_key}
use ray.Plasma.Eviction.{EvictionState}
use ray.Plasma.Eviction.Cache.{lru}
use ray.Plasma.Eviction.Space.{Reserved, require_space-Reserves}
use ray.Plasma.Store.State.{Env, PlasmaStoreState, Client, is_sealed, is_empty}
use ray.Plasma.Store.Notify.{push_notification}
use ray.Plasma.Store.Objects.{
  delete_object, deletion, remove_objects, make_space, allocate, called, create_object,
}
use ray.Plasma.Store.Invariant.{IsConsistent, Keeps, Core}
use ray.Plasma.Store.Invariant.Notices.{Keeps-IsConsistent, push_notification-Keeps}
use ray.Plasma.Store.Invariant.Creation.{IsConsistent-IsKnown, make_space-IsConsistent}

module _ (env : Env) where
  -- remove_objects leaves the eviction policy and the capacity alone.
  abbrev SameSpace : PlasmaStoreState → PlasmaStoreState → Type 0
  SameSpace s t = (t.eviction_state ≡ s.eviction_state) × (t.memory_capacity ≡ s.memory_capacity)

  -- A round that frees space either takes an object out of the queue, or adds to the accounts.
  abbrev Progress : ℕ → PlasmaStoreState → PlasmaStoreState → Type 0
  Progress size s t =
      (length (lru t.eviction_state) < length (lru s.eviction_state))
      ⊎ ((length (lru t.eviction_state) ≡ length (lru s.eviction_state))
          × (t.eviction_state.memory_used ≡ s.eviction_state.memory_used +ℤ pos size))

  Reserved-Progress :
      (size : ℕ) (s : PlasmaStoreState) (ev : EvictionState) (chosen : List ℕ)
      → Reserved s.objects s.memory_capacity size s.eviction_state ev true chosen
      → (length (lru ev) < length (lru s.eviction_state))
        ⊎ ((length (lru ev) ≡ length (lru s.eviction_state))
            × (ev.memory_used ≡ s.eviction_state.memory_used +ℤ pos size))
  Reserved-Progress size s ev [] r = inr (ap length (sym r.split), rw r.accounted (omega int_laws))
  Reserved-Progress size s ev (x ∷ chosen) r =
      inl (omega (arith, ap length r.split, length-append chosen (lru ev)))

  delete_object-SameSpace :
      (k : ℕ) (s : PlasmaStoreState) → Ensures (SameSpace s) (delete_object env k s)
  unfolding delete_object
  delete_object-SameSpace k s = elim (Option-cases (lookup k s.objects)) [
    | inl e ↦ rw (e, delete_object) tt
    | inr (entry, e) ↦
        let s' : PlasmaStoreState = record s {
          allocated = remove entry.pointer s.allocated;
          objects = erase k s.objects;
        } in
        rw (e, delete_object)
          (Ensures-check (is_sealed entry.state) (SameSpace s) _ λ _.
            Ensures-check (is_empty entry.clients) (SameSpace s) _ λ _.
              Ensures-mono (Keeps s') (SameSpace s) (push_notification env (deletion k) s')
                (λ t kept. (
                  ap (λ (c : Core). c.eviction_state) kept,
                  ap (λ (c : Core). c.memory_capacity) kept,
                ))
                (push_notification-Keeps env (deletion k) s' s' refl))
  ]

  remove_objects-SameSpace :
      (chosen : List ℕ) (s : PlasmaStoreState) → Ensures (SameSpace s) (remove_objects env chosen s)
  unfolding remove_objects
  remove_objects-SameSpace [] s = (refl, refl)
  remove_objects-SameSpace (k ∷ chosen) s =
      Ensures->>= (SameSpace s) (SameSpace s) (delete_object env k s) _
        (delete_object-SameSpace k s)
        (λ t h.
          Ensures-mono (SameSpace t) (SameSpace s) (remove_objects env chosen t)
            (λ u h'. (h'.0 ∙ h.0, h'.1 ∙ h.1)) (remove_objects-SameSpace chosen t))

  make_space-Progress :
      (size : ℕ) (s t : PlasmaStoreState)
      → IsConsistent [] s
      → make_space env size s ≡ ok (t, true)
      → Progress size s t × (t.memory_capacity ≡ s.memory_capacity)
  unfolding make_space
  make_space-Progress size s t c made =
      let (ev, success, chosen, ran, res) =
        require_space-Reserves s.objects s.memory_capacity size s.eviction_state c.queue
          (IsConsistent-IsKnown s c) c.within in
      let s' : PlasmaStoreState = record s { eviction_state = ev } in
      let (u, removed, e) =
        >>=-eq-ok (remove_objects env chosen s') (λ u. ok (u, success)) (rw ran at made) in
      let (same, capacity) = (rw removed at (remove_objects-SameSpace chosen s')) in
      let succeeded : success ≡ true = cc in
      let t-u : t ≡ u = cc in
      let progress = Reserved-Progress size s ev chosen (
        subst (λ b. Reserved s.objects s.memory_capacity size s.eviction_state ev b chosen)
          succeeded res) in
      rw (t-u, same, capacity) (progress, refl)

  -- More than the accounts can still grow.
  abbrev room : PlasmaStoreState → ℕ
  room s = neg_part s.eviction_state.memory_used + s.memory_capacity + 1

  allocate_round :
      (size : ℕ) (s : PlasmaStoreState)
      → ((t : PlasmaStoreState)
          → make_space env size (called s) ≡ ok (t, true)
          → (fuel : ℕ) × (allocate env fuel size t ≢ none))
      → (fuel : ℕ) × (allocate env fuel size s ≢ none)
  unfolding allocate
  allocate_round size s after = elim (Option-cases (env.dlmemalign s.calls size)) [
    | inr (p, e) ↦ (1, λ h. cc (rw (e, allocate) at h))
    | inl e ↦ elim (Result-cases (make_space env size (called s))) [
      | inr aborted ↦ (1, λ h. cc (rw (e, aborted, allocate) at h))
      | inl ((t, false), made) ↦ (1, λ h. cc (rw (e, made, allocate) at h))
      | inl ((t, true), made) ↦
          let (fuel, ends) = after t made in (suc fuel, rw (e, made, allocate) ends)
    ]
  ]

  called-IsConsistent : (s : PlasmaStoreState) → IsConsistent [] s → IsConsistent [] (called s)
  called-IsConsistent s c = Keeps-IsConsistent {s = s} {t = called s} refl c

  allocate_ends :
      (size : ℕ)
      → 0 < size
      → (n k : ℕ) (s : PlasmaStoreState) → IsConsistent [] s
      → length (lru s.eviction_state) ≤ n
      → ¬ (s.eviction_state.memory_used +ℤ pos k ≤ℤ pos s.memory_capacity)
      → (fuel : ℕ) × (allocate env fuel size s ≢ none)
  allocate_ends size positive n zero s c few full = absurd (full (omega (int_laws, c.within)))
  allocate_ends size positive zero (suc k) s c few full = allocate_round size s λ t made.
      let (progress, capacity) =
        make_space-Progress size (called s) t (called-IsConsistent s c) made in
      let consistent =
        (rw made at (make_space-IsConsistent env size (called s) (called-IsConsistent s c))) in
      elim progress [
        | inl fewer ↦ absurd (omega arith)
        | inr (same, more) ↦
            allocate_ends size positive zero k t consistent (rw same few)
              (rw (more, capacity) (omega (int_laws, full)))
      ]
  allocate_ends size positive (suc n) (suc k) s c few full = allocate_round size s λ t made.
      let (progress, capacity) =
        make_space-Progress size (called s) t (called-IsConsistent s c) made in
      let consistent =
        (rw made at (make_space-IsConsistent env size (called s) (called-IsConsistent s c))) in
      elim progress [
        | inl fewer ↦
            allocate_ends size positive n (room t) t consistent (omega arith) (omega int_laws)
        | inr (same, more) ↦
            allocate_ends size positive (suc n) k t consistent (rw same few)
              (rw (more, capacity) (omega (int_laws, full)))
      ]

  -- In a consistent store the loop of create_object ends for every object that is not empty, whatever
  -- dlmemalign answers: some number of rounds gives an outcome.
  pub create_object_ends :
      (client : Client) (k data_size metadata_size : ℕ) (s : PlasmaStoreState)
      → IsConsistent [] s
      → 0 < data_size + metadata_size
      → (fuel : ℕ) × (create_object env fuel client k data_size metadata_size s ≢ none)
  unfolding create_object
  create_object_ends client k data_size metadata_size s c positive =
      let (fuel, ends) =
        allocate_ends (data_size + metadata_size) positive (length (lru s.eviction_state)) (room s)
          s c (omega arith) (omega int_laws) in
      (
        fuel,
        elim (Bool-cases (has_key k s.objects)) [
          | inl e ↦ λ h. cc (rw e at h)
          | inr e ↦ elim (Option-cases (allocate env fuel (data_size + metadata_size) s)) [
            | inl a ↦ absurd (ends a)
            | inr (r, a) ↦ λ h. cc (rw (e, a) at h)
          ]
        ],
      )

  -- No space is needed for an empty object, so a round changes nothing that matters.
  make_space-zero :
      (s : PlasmaStoreState)
      → IsConsistent [] s
      → (t : PlasmaStoreState) × (make_space env 0 s ≡ ok (t, true)) × IsConsistent [] t
  unfolding make_space remove_objects
  make_space-zero s c =
      let (ev, success, chosen, ran, res) =
        require_space-Reserves s.objects s.memory_capacity 0 s.eviction_state c.queue
          (IsConsistent-IsKnown s c) c.within in
      let (succeeded, nothing) = res.untouched (omega (int_laws, c.within)) in
      let t : PlasmaStoreState = record s { eviction_state = ev } in
      let made : make_space env 0 s ≡ ok (t, true) = rw (ran, nothing, succeeded) in
      (t, made, rw made at (make_space-IsConsistent env 0 s c))

  allocate_diverges :
      (fuel : ℕ) (s : PlasmaStoreState)
      → IsConsistent [] s
      → ((call : ℕ) → env.dlmemalign call 0 ≡ none)
      → allocate env fuel 0 s ≡ none
  unfolding allocate
  allocate_diverges zero s c refuses = refl
  allocate_diverges (suc fuel) s c refuses =
      let (t, made, c') = make_space-zero (called s) (called-IsConsistent s c) in
      rw (refuses s.calls, made, allocate) (allocate_diverges fuel t c' refuses)

  -- In a consistent store, a new empty object that dlmemalign always refuses blocks the store: no
  -- number of rounds of the loop of create_object gives an outcome.
  pub create_object_diverges :
      (fuel : ℕ) (client : Client) (k : ℕ) (s : PlasmaStoreState)
      → IsConsistent [] s
      → has_key k s.objects ≡ false
      → ((call : ℕ) → env.dlmemalign call 0 ≡ none)
      → create_object env fuel client k 0 0 s ≡ none
  unfolding create_object
  create_object_diverges fuel client k s c new refuses =
      rw (new, allocate_diverges fuel s c refuses, create_object)
