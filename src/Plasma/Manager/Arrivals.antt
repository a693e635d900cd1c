-- ===== src/Plasma/Manager/Arrivals.antt =====
-- Objects that come and go in the store of the Plasma manager: src/plasma/plasma_manager.cc.
use ray.Common.{
  ℕ, ◌≡◌, refl, sym, ap, ◌∙◌, Bool, true, false, none, some, List, [], ◌∷◌, ◌++◌, ok, arith, ◌==◌,
  contains, remove, contains_snoc, inl, inr, Bool-cases,
}
use ray.Common.Maps.{erase, has_key, lookup-erase, has_key-erase_lem}
use ray.Plasma.Manager.State.{
  query_local, query_anywhere, QueryType, status_local, PlasmaManagerState, Env,
}
use ray.Plasma.Manager.Waits.{is_object_local, update_object_wait_requests}
use ray.Plasma.Manager.Server.{
  process_delete_object_notification, add_object, process_add_object_notification,
}
use ray.Plasma.Manager.Waiting.{
  Holds, Holds->>=, Holds-mono, Holds-ok, awaits, Served, IsWaiting-of_same,
}
use ray.Plasma.Manager.Waiting.Returns.{Sends, Safe}
use ray.Plasma.Manager.Waiting.Updates.{Updated, update_object_wait_requests-Updated}
use ray.Plasma.Manager.Fetching.{IsManaged, WaitsOnly-IsManaged}

contains-remove_less :
    (x y : ℕ) (xs : List ℕ) → contains x xs ≡ false → contains x (remove y xs) ≡ false
unfolding contains remove
contains-remove_less x y [] h = refl
contains-remove_less x y (z ∷ xs) h = ground (arith, contains-remove_less x y xs)

pub process_delete-IsManaged :
    (o : ℕ) (s : PlasmaManagerState)
    → IsManaged s
    → IsManaged (process_delete_object_notification o s)
unfolding process_delete_object_notification
process_delete-IsManaged o s (waits_now, (remote, ranges)) = (
  IsWaiting-of_same s (process_delete_object_notification o s) (refl, refl, refl, refl) waits_now,
  ((λ p known. contains-remove_less p o s.local_available_objects (remote p known)), ranges),
)

add_object-IsManaged : (o : ℕ) (s : PlasmaManagerState) → IsManaged s → IsManaged (add_object o s)
add_object-IsManaged o s (waits_now, (remote, ranges)) = (
  IsWaiting-of_same s (add_object o s) (refl, refl, refl, refl) waits_now,
  (
    (λ p known.
        let e = has_key-erase_lem o p s.fetch_requests in
        let f = contains_snoc p o s.local_available_objects in
        let before = remote p in ground (arith, e, f, before, known)),
    λ p r found.
        let e = lookup-erase o p s.fetch_requests in
        elim (Bool-cases (o == p)) [
          | inl hit ↦ let f : none ≡ some r = sym (e ∙ rw hit refl) ∙ found in absurd cc
          | inr miss ↦ ranges p r (sym (e ∙ rw miss refl) ∙ found)
        ],
  ),
)

-- What the arrival of an object leaves.
abbrev pub Arrived :
    (strict : Bool) → Env → (o : ℕ) → PlasmaManagerState → PlasmaManagerState → Type 0
Arrived strict env o s t =
    IsManaged t
    × ((w : ℕ) (type : QueryType) → awaits w type o t ≡ false)
    × (has_key o t.fetch_requests ≡ false)
    × (is_object_local t o ≡ true)
    × Safe strict env t

both_types :
    (o : ℕ) (t : PlasmaManagerState)
    → ((w : ℕ) → awaits w query_local o t ≡ false)
    → ((w : ℕ) → awaits w query_anywhere o t ≡ false)
    → (w : ℕ) (type : QueryType) → awaits w type o t ≡ false
both_types o t local anywhere w query_local = local w
both_types o t local anywhere w query_anywhere = anywhere w

pub process_add-Arrived :
    (strict : Bool) (env : Env) (o : ℕ) (s : PlasmaManagerState)
    → IsManaged s
    → Safe strict env s
    → Holds strict (Arrived strict env o s) (process_add_object_notification env o s)
unfolding process_add_object_notification
process_add-Arrived strict env o s h safe =
    let s₀ = add_object o s in
    let h₀ = add_object-IsManaged o s h in
    Holds->>= strict (Updated strict env s₀ query_local o) (Arrived strict env o s)
      (update_object_wait_requests env o query_local status_local s₀) _
      (update_object_wait_requests-Updated strict env o query_local status_local s₀ refl h₀.0 safe)
      λ s₁ (waits₁, only₁, fewer₁, safe₁, nobody₁).
        Holds-mono strict (Updated strict env s₁ query_anywhere o) (Arrived strict env o s)
          (update_object_wait_requests env o query_anywhere status_local s₁)
          (λ t (waits₂, only₂, fewer₂, safe₂, nobody₂). (
            WaitsOnly-IsManaged s₁ t waits₂ only₂ (WaitsOnly-IsManaged s₀ s₁ waits₁ only₁ h₀),
            both_types o t (λ w. fewer₂ w query_local o (nobody₁ w)) nobody₂,
            ap (λ v. has_key o v.fetch_requests) only₂
                ∙ ap (λ v. has_key o v.fetch_requests) only₁
                ∙ gone,
            ap (λ v. is_object_local v o) only₂ ∙ ap (λ v. is_object_local v o) only₁ ∙ local,
            safe₂,
          ))
          (update_object_wait_requests-Updated strict env o query_anywhere status_local s₁ refl
            waits₁ safe₁)
  where
    gone : has_key o (erase o s.fetch_requests) ≡ false
    gone = let e = has_key-erase_lem o o s.fetch_requests in ground (arith, e)

    local : contains o (s.local_available_objects ++ o ∷ []) ≡ true
    local = let e = contains_snoc o o s.local_available_objects in ground (arith, e)

-- If every wait request has a client that is connected and names no object twice, and no message fails
-- but by a hang-up, the news that an object is local does not abort the manager. After it no wait
-- request waits for the object, it is not fetched any more, it counts as local, and the state is as
-- between any two callbacks.
pub process_add_object_notification-Completes :
    (env : Env) (o : ℕ) (s : PlasmaManagerState)
    → IsManaged s
    → Served s
    → Sends env
    → (t : PlasmaManagerState) × (process_add_object_notification env o s ≡ ok t)
      × IsManaged t
      × ((w : ℕ) (type : QueryType) → awaits w type o t ≡ false)
      × (has_key o t.fetch_requests ≡ false)
      × (is_object_local t o ≡ true)
process_add_object_notification-Completes env o s h served sends =
    let (t, done, (managed, nobody, unfetched, local, safe)) =
      Holds-ok (Arrived true env o s) (process_add_object_notification env o s)
        (process_add-Arrived true env o s h (λ e. (served, sends))) in
    (t, done, managed, nobody, unfetched, local)
