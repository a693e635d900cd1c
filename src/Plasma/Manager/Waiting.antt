-- ===== src/Plasma/Manager/Waiting.antt =====
-- What holds of the wait requests of the Plasma manager between two callbacks.
mod Tables
pub mod Returns
mod Steps
mod Loop
mod Rounds
pub mod Updates
mod Requests
pub mod Registered
use ray.Common.{
  ℕ, zero, suc, ◌+◌, ◌≤◌, ◌<◌, ◌≡◌, refl, sym, ap, subst, ◌∙◌, Bool, true, false, ◌&&◌, Option,
  none, some, List, [], ◌∷◌, length, Result, ok, fatal, ◌>>=◌, ◌>>◌, check, leb, if◌then◌else◌, one,
  count, not, Ensures,
}
use ray.Common.Maps.{lookup, has_key}
use ray.Plasma.Manager.State.{
  QueryType, query_local, query_anywhere, ObjectRequest, WaitRequest, PlasmaManagerState,
}
use ray.Plasma.Manager.Waits.{vector_of, waiting, is_nonexistent}

-- What holds of the value; with `strict` the code does not abort either.
abbrev pub Holds {ℓ} : {A : Type ℓ} → (strict : Bool) → (A → Type 0) → Result A → Type 0
Holds strict P (ok a) = P a
Holds strict P fatal = strict ≡ false

pub Holds->>= {ℓ κ} :
    {A : Type ℓ} {B : Type κ} (strict : Bool) (P : A → Type 0) (Q : B → Type 0) (m : Result A)
    (f : A → Result B)
    → Holds strict P m
    → ((a : A) → P a → Holds strict Q (f a))
    → Holds strict Q (m >>= f)
Holds->>= strict P Q (ok a) f h g = g a h
Holds->>= strict P Q fatal f h g = h

pub Holds-check {κ} :
    {A : Type κ} (strict b : Bool) (Q : A → Type 0) (m : Result A)
    → (strict ≡ true → b ≡ true)
    → Holds strict Q m
    → Holds strict Q (check b >> m)
Holds-check strict true Q m h held = held
Holds-check true false Q m h held = let e = h refl in absurd cc
Holds-check false false Q m h held = refl

pub Holds-mono {ℓ} :
    {A : Type ℓ} (strict : Bool) (P : A → Type 0) (Q : A → Type 0) (m : Result A)
    → ((a : A) → P a → Q a)
    → Holds strict P m
    → Holds strict Q m
Holds-mono strict P Q (ok a) f h = f a h
Holds-mono strict P Q fatal f h = h

pub Ensures-Holds {ℓ} :
    {A : Type ℓ} (strict : Bool) (P : A → Type 0) (m : Result A) → Holds strict P m → Ensures P m
Ensures-Holds strict P (ok a) h = h
Ensures-Holds strict P fatal h = tt

-- With `strict` there is a value.
pub Holds-ok {ℓ} :
    {A : Type ℓ} (P : A → Type 0) (m : Result A) → Holds true P m → (a : A) × (m ≡ ok a) × P a
Holds-ok P (ok a) h = (a, refl, h)
Holds-ok P fatal h = absurd cc

pub Holds-if :
    {A : Type 0} (strict b : Bool) (P : A → Type 0) (m n : Result A)
    → (b ≡ true → Holds strict P m)
    → (b ≡ false → Holds strict P n)
    → Holds strict P (if b then m else n)
Holds-if strict true P m n f g = f refl
Holds-if strict false P m n f g = g refl

pub Holds-either :
    {A : Type 0} (strict b : Bool) (P : A → Type 0) (m n : Result A)
    → (b ≡ true → Holds strict P m)
    → (b ≡ false → Holds strict P n)
    → Holds strict P (elim b [ true ↦ m | false ↦ n ])
Holds-either strict true P m n f g = f refl
Holds-either strict false P m n f g = g refl

abbrev pub same_type : QueryType → QueryType → Bool
same_type query_local query_local = true
same_type query_local query_anywhere = false
same_type query_anywhere query_local = false
same_type query_anywhere query_anywhere = true

-- An object request that is not satisfied, of a type.
abbrev pub pending : QueryType → Option ObjectRequest → Bool
pending type none = false
pending type (some request) = same_type type request.type && is_nonexistent request.status

abbrev pub request_of : ℕ → Option WaitRequest → Option ObjectRequest
request_of object_id none = none
request_of object_id (some wait_req) = lookup object_id wait_req.object_requests

-- Whether a wait request waits for an object.
abbrev pub awaits : (w : ℕ) → QueryType → (object_id : ℕ) → PlasmaManagerState → Bool
awaits w type object_id s = pending type (request_of object_id (lookup w s.wait_requests))

-- The number of object requests that are satisfied.
abbrev pub num_known : List (ℕ × ObjectRequest) → ℕ
num_known [] = 0
num_known ((o, request) ∷ requests) = one (not (is_nonexistent request.status)) + num_known requests

-- The vector of an object holds the wait requests that wait for it, once each.
abbrev pub Counted : PlasmaManagerState → Type 0
Counted s =
    (w : ℕ) (type : QueryType) (o : ℕ) → count w (waiting type o s) ≡ one (awaits w type o s)

abbrev pub IsUndone : WaitRequest → Type 0
IsUndone r =
    (num_known r.object_requests ≡ r.num_satisfied) × (r.num_satisfied < r.num_objects_to_wait_for)

abbrev pub Undone : PlasmaManagerState → Type 0
Undone s = (w : ℕ) (r : WaitRequest) → lookup w s.wait_requests ≡ some r → IsUndone r

abbrev pub Fresh : PlasmaManagerState → Type 0
Fresh s = (w : ℕ) → s.next_wait_request ≤ w → lookup w s.wait_requests ≡ none

abbrev pub IsWaiting : PlasmaManagerState → Type 0
IsWaiting s = Counted s × Undone s × Fresh s

-- The client is connected, and no object was named twice.
abbrev pub CanReply : PlasmaManagerState → WaitRequest → Type 0
CanReply s r =
    (has_key r.client_conn s.manager_connections ≡ true)
    × (leb r.num_object_requests (length r.object_requests) ≡ true)

abbrev pub Served : PlasmaManagerState → Type 0
Served s = (w : ℕ) (r : WaitRequest) → lookup w s.wait_requests ≡ some r → CanReply s r

-- All but the wait requests is as it was.
abbrev pub WaitsOnly : PlasmaManagerState → PlasmaManagerState → Type 0
WaitsOnly s t = t ≡ record s {
  object_wait_requests_local = t.object_wait_requests_local;
  object_wait_requests_remote = t.object_wait_requests_remote;
  wait_requests = t.wait_requests;
  effects = t.effects;
}

pub WaitsOnly-trans : (s t u : PlasmaManagerState) → WaitsOnly s t → WaitsOnly t u → WaitsOnly s u
WaitsOnly-trans s t u e f =
    f
    ∙ ap {A = PlasmaManagerState} {B = PlasmaManagerState}
        (λ v. record v {
          object_wait_requests_local = u.object_wait_requests_local;
          object_wait_requests_remote = u.object_wait_requests_remote;
          wait_requests = u.wait_requests;
          effects = u.effects;
        })
        e

abbrev pub SameWaits : PlasmaManagerState → PlasmaManagerState → Type 0
SameWaits s t =
    (t.object_wait_requests_local ≡ s.object_wait_requests_local)
    × (t.object_wait_requests_remote ≡ s.object_wait_requests_remote)
    × (t.wait_requests ≡ s.wait_requests)
    × (t.next_wait_request ≡ s.next_wait_request)

waiting_of_same :
    (type : QueryType) (o : ℕ) (s t : PlasmaManagerState)
    → SameWaits s t
    → waiting type o t ≡ waiting type o s
waiting_of_same query_local o s t (local, remote, requests, next) =
    ap (λ m. vector_of (lookup o m)) local
waiting_of_same query_anywhere o s t (local, remote, requests, next) =
    ap (λ m. vector_of (lookup o m)) remote

pub IsWaiting-of_same : (s t : PlasmaManagerState) → SameWaits s t → IsWaiting s → IsWaiting t
IsWaiting-of_same s t same (counted, undone, fresh) =
    let (local, remote, requests, next) = same in
    (
      (λ w type o.
          ap (count w) (waiting_of_same type o s t same)
          ∙ counted w type o
          ∙ sym (ap (λ m. one (pending type (request_of o (lookup w m)))) requests)),
      (λ w r found. undone w r (sym (ap (lookup w) requests) ∙ found)),
      λ w late. ap (lookup w) requests ∙ fresh w (subst (λ n. n ≤ w) next late),
    )
