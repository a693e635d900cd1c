-- ===== src/Plasma/Store/Invariant/Returns.antt =====
-- Answering a get request keeps the queue of the eviction policy and the object table consistent.
use ray.Common.{
  ℕ, ◌≡◌, refl, ap, ◌∙◌, Bool, true, false, List, [], ◌∷◌, ok, Ensures, Ensures->>=, Ensures-check,
  Ensures-mono, Option-cases, inl, inr, if◌then◌else◌,
}
use ray.Common.Maps.{lookup, has_key}
use ray.Plasma.Types.{ObjectTable, PlasmaObject}
use ray.Plasma.Eviction.{EvictionState}
use ray.Plasma.Store.State.{
  Env, PlasmaStoreState, GetRequest, Sent, file_descriptor, get_reply, reply,
}
use ray.Plasma.Store.Requests.{
  descriptor, remove_get_request_for_object, remove_from_all, remove_get_request,
  send_file_descriptors, return_from_get,
}
use ray.Plasma.Store.Invariant.{IsConsistent, Keeps, Core}
use ray.Plasma.Store.Invariant.Notices.{reply-Keeps}

-- The parts of the state that get requests do not touch.
pub record Seen : Type 0 where
  pub objects : ObjectTable
  pub memory_capacity : ℕ
  pub eviction_state : EvictionState

abbrev pub seen : PlasmaStoreState → Seen
seen s = record {
  objects = s.objects;
  memory_capacity = s.memory_capacity;
  eviction_state = s.eviction_state;
}

abbrev pub SameObjects : PlasmaStoreState → PlasmaStoreState → Type 0
SameObjects s t = seen t ≡ seen s

pub SameObjects-IsConsistent :
    {s t : PlasmaStoreState} → SameObjects s t → IsConsistent [] s → IsConsistent [] t
SameObjects-IsConsistent {s} {t} h c =
    let eviction : t.eviction_state ≡ s.eviction_state = ap (λ (c : Seen). c.eviction_state) h in
    let objects : t.objects ≡ s.objects = ap (λ (c : Seen). c.objects) h in
    let capacity : t.memory_capacity ≡ s.memory_capacity = ap (λ (c : Seen). c.memory_capacity) h in
    record {
      queue = rw eviction c.queue;
      distinct = rw eviction c.distinct;
      idle = λ k. rw (eviction, objects) (c.idle k);
      named = λ k e found. c.named k e (rw objects at found);
      within = rw (eviction, capacity) c.within;
    }

Keeps-SameObjects : (s t : PlasmaStoreState) → Keeps s t → SameObjects s t
Keeps-SameObjects s t k =
    ap
      (λ (c : Core). record {
        objects = c.objects;
        memory_capacity = c.memory_capacity;
        eviction_state = c.eviction_state;
      })
      k

remove_from_all-SameObjects :
    (req : ℕ) (ids : List ℕ) (s t : PlasmaStoreState)
    → SameObjects s t
    → SameObjects s (remove_from_all req ids t)
unfolding remove_from_all remove_get_request_for_object
remove_from_all-SameObjects req [] s t h = h
remove_from_all-SameObjects req (k ∷ ids) s t h =
    remove_from_all-SameObjects req ids s (remove_get_request_for_object k req t) h

remove_get_request-SameObjects :
    (req : ℕ) (r : GetRequest) (s t : PlasmaStoreState)
    → SameObjects s t
    → Ensures (SameObjects s) (remove_get_request req r t)
unfolding remove_get_request
remove_get_request-SameObjects req r s t h = elim (Option-cases r.timer) [
  | inl e ↦ rw (e, remove_get_request) h
  | inr (timer, e) ↦
      rw (e, remove_get_request) (Ensures-check (has_key timer t.timers) (SameObjects s) _ (λ _. h))
]

module _ (env : Env) where
  reply-SameObjects :
      (m : Sent) (s t : PlasmaStoreState)
      → SameObjects s t
      → Ensures (λ r. SameObjects s r.0) (reply env m t)
  reply-SameObjects m s t h =
      Ensures-mono (λ (r : PlasmaStoreState × Bool). Keeps t r.0)
        (λ (r : PlasmaStoreState × Bool). SameObjects s r.0) (reply env m t)
        (λ r k. Keeps-SameObjects t r.0 k ∙ h) (reply-Keeps env m t t refl)

  send_file_descriptors-SameObjects :
      (sock : ℕ) (ids : List ℕ) (objects : List (ℕ × PlasmaObject)) (s t : PlasmaStoreState)
      → SameObjects s t
      → Ensures (SameObjects s) (send_file_descriptors env sock ids objects t)
  unfolding send_file_descriptors
  send_file_descriptors-SameObjects sock [] objects s t h = h
  send_file_descriptors-SameObjects sock (k ∷ ids) objects s t h =
      let (present, fd) = descriptor (lookup k objects) in
      Ensures->>= (λ (r : PlasmaStoreState × Bool). SameObjects s r.0) (SameObjects s)
        (if present then reply env (file_descriptor sock fd) t else ok (t, false)) _
        (if_cases present fd) (λ r h'. send_file_descriptors-SameObjects sock ids objects s r.0 h')
    where
      if_cases :
          (present : Bool) (fd : ℕ)
          → Ensures
              (λ (r : PlasmaStoreState × Bool). SameObjects s r.0)
              (if present then reply env (file_descriptor sock fd) t else ok (t, false))
      if_cases true fd = reply-SameObjects (file_descriptor sock fd) s t h
      if_cases false fd = h

  return_from_get-SameObjects :
      (req : ℕ) (s : PlasmaStoreState) → Ensures (SameObjects s) (return_from_get env req s)
  unfolding return_from_get
  return_from_get-SameObjects req s = elim (Option-cases (lookup req s.get_requests)) [
    | inl e ↦ rw (e, return_from_get) tt
    | inr (r, e) ↦
        rw (e, return_from_get)
          (Ensures->>= (λ (q : PlasmaStoreState × Bool). SameObjects s q.0) (SameObjects s)
            (reply env (get_reply r.client.sock r.object_ids r.objects) s) _
            (reply-SameObjects _ s s refl)
            (λ q h.
              Ensures->>= (SameObjects s) (SameObjects s)
                (if q.1
                  then send_file_descriptors env r.client.sock r.object_ids r.objects q.0
                  else ok q.0)
                (λ u. remove_get_request req r (remove_from_all req r.object_ids u))
                (descriptors r q.1 q.0 h)
                (λ u h'.
                  remove_get_request-SameObjects req r s _
                    (remove_from_all-SameObjects req r.object_ids s u h'))))
  ]
    where
      descriptors :
          (r : GetRequest) (delivered : Bool) (t : PlasmaStoreState)
          → SameObjects s t
          → Ensures (SameObjects s) (
              if delivered
              then send_file_descriptors env r.client.sock r.object_ids r.objects t
              else ok t)
      descriptors r true t h =
          send_file_descriptors-SameObjects r.client.sock r.object_ids r.objects s t h
      descriptors r false t h = h

  pub return_from_get-IsConsistent :
      (req : ℕ) (s : PlasmaStoreState)
      → IsConsistent [] s
      → Ensures (IsConsistent []) (return_from_get env req s)
  return_from_get-IsConsistent req s c =
      Ensures-mono (SameObjects s) (IsConsistent []) (return_from_get env req s)
        (λ t h. SameObjects-IsConsistent {s = s} {t = t} h c) (return_from_get-SameObjects req s)
