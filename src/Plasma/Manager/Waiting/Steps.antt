-- ===== src/Plasma/Manager/Waiting/Steps.antt =====
-- One wait request in the loop of update_object_wait_requests (src/plasma/plasma_manager.cc): an object
-- request is satisfied, and the wait request may return.
use ray.Common.{
  ℕ, suc, ◌+◌, ◌≤◌, ◌≡◌, refl, sym, ap, subst, ◌∙◌, Bool, true, false, ◌&&◌, not, Option, none,
  some, List, [], ◌∷◌, length, arith, if◌then◌else◌, ◌==◌, count, one, remove, inl, inr, Bool-cases,
  Option-cases,
}
use ray.Common.Maps.{lookup, insert, erase, has_key, lookup-insert, lookup-erase}
use ray.Plasma.Manager.State.{
  QueryType, query_local, query_anywhere, ObjectStatus, ObjectRequest, WaitRequest,
  PlasmaManagerState,
}
use ray.Plasma.Manager.Waits.{waiting, is_nonexistent, satisfy, is_done}
use ray.Plasma.Manager.Waiting.{
  same_type, pending, request_of, awaits, num_known, Fresh, IsUndone, Served,
}
use ray.Plasma.Manager.Waiting.Tables.{touches, touches-lookup, count-remove}
use ray.Plasma.Manager.Waiting.Returns.{Returned}

pub same_type-eq : (a b : QueryType) → same_type a b ≡ true → a ≡ b
same_type-eq query_local query_local h = refl
same_type-eq query_anywhere query_anywhere h = refl
same_type-eq query_local query_anywhere h = absurd cc
same_type-eq query_anywhere query_local h = absurd cc

-- What a wait request that waits for an object holds.
pub awaits_parts :
    (type : QueryType) (o : ℕ) (found : Option WaitRequest)
    → pending type (request_of o found) ≡ true
    → (r : WaitRequest) × (found ≡ some r)
      × (q : ObjectRequest) × (lookup o r.object_requests ≡ some q)
      × (pending type (some q) ≡ true)
awaits_parts type o none h = absurd cc
awaits_parts type o (some r) h = elim (Option-cases (lookup o r.object_requests)) [
  | inl e ↦ let f : false ≡ true = sym (ap (pending type) e) ∙ h in absurd cc
  | inr (q, e) ↦ (r, refl, q, e, sym (ap (pending type) e) ∙ h)
]

pub and-left : (a b : Bool) → (a && b) ≡ true → a ≡ true
and-left true b h = refl
and-left false b h = h

pub and-right : (a b : Bool) → (a && b) ≡ true → b ≡ true
and-right true b h = h
and-right false b h = absurd cc

pub and-false : (a : Bool) → (a && false) ≡ false
and-false true = refl
and-false false = refl

untouched :
    (type : QueryType) (p : ℕ) (m : List (ℕ × ObjectRequest))
    → touches type p m ≡ false
    → pending type (lookup p m) ≡ false
untouched type p m h = elim (Option-cases (lookup p m)) [
  | inl e ↦ ap (pending type) e
  | inr (q, e) ↦ elim (Bool-cases (pending type (some q))) [
    | inl waits ↦
        let same = same_type-eq type q.type (and-left _ _ waits) in
        let hit : touches type p m ≡ true = ap (λ t. touches t p m) same ∙ touches-lookup p m q e in
        let f : true ≡ false = sym hit ∙ h in absurd cc
    | inr waits_not ↦ ap (pending type) e ∙ waits_not
  ]
]

awaits_if :
    (b : Bool) (type : QueryType) (p : ℕ) (o : Option WaitRequest)
    → pending type (request_of p (if b then none else o))
      ≡ (if b then false else pending type (request_of p o))
awaits_if true type p o = refl
awaits_if false type p o = refl

-- Who waits once a wait request is gone.
awaits-erase :
    (w x : ℕ) (type : QueryType) (p : ℕ) (m : List (ℕ × WaitRequest))
    → pending type (request_of p (lookup x (erase w m)))
      ≡ (if w == x then false else pending type (request_of p (lookup x m)))
awaits-erase w x type p m =
    ap (λ o. pending type (request_of p o)) (lookup-erase w x m) ∙ awaits_if (w == x) type p _

pub one_le : (b : Bool) → one b ≤ 1
one_le true = omega arith
one_le false = omega arith

count-returned :
    (w x : ℕ) (b g f : Bool) (ws : List ℕ)
    → count x ws ≡ one g
    → count w ws ≡ one f
    → (b ≡ false → f ≡ false)
    → count x (if b then remove w ws else ws) ≡ one (if w == x then false else g)
count-returned w x true g f ws here mine h =
    let e = count-remove x w ws in
    let few = one_le g in
    elim (Bool-cases (w == x)) [
      | inl hit ↦ rw hit (ground (arith, e, here, few, hit))
      | inr miss ↦ rw miss (ground (arith, e, here, miss))
    ]
count-returned w x false g f ws here mine h = elim (Bool-cases (w == x)) [
  | inl hit ↦
      let same : w ≡ x = ground (arith, hit) in
      let none_left : count w ws ≡ 0 = mine ∙ ap one (h refl) in
      rw hit (ap (λ y. count y ws) (sym same) ∙ none_left)
  | inr miss ↦ rw miss here
]

pub awaits-Returned :
    (w x : ℕ) (r : WaitRequest) (type : QueryType) (p : ℕ) (s t : PlasmaManagerState)
    → Returned w r s t
    → awaits x type p t ≡ (if w == x then false else awaits x type p s)
awaits-Returned w x r type p s t (only, left, vectors) =
    ap (λ m. pending type (request_of p (lookup x m))) left
    ∙ awaits-erase w x type p s.wait_requests

-- A vector still holds those that wait when one wait request has returned.
pub Returned-counts :
    (w x : ℕ) (r : WaitRequest) (type : QueryType) (p : ℕ) (s t : PlasmaManagerState)
    → lookup w s.wait_requests ≡ some r
    → Returned w r s t
    → ((y : ℕ) → count y (waiting type p s) ≡ one (awaits y type p s))
    → count x (waiting type p t) ≡ one (awaits x type p t)
Returned-counts w x r type p s t found returned counts =
    let (only, left, vectors) = returned in
    ap (count x) (vectors type p)
    ∙ count-returned w x (touches type p r.object_requests) (awaits x type p s) (awaits w type p s)
        (waiting type p s) (counts x) (counts w)
        (λ e. ap (λ o. pending type (request_of p o)) found ∙ untouched type p r.object_requests e)
    ∙ ap one (sym (awaits-Returned w x r type p s t returned))

same_branches : (b : Bool) (o : Option WaitRequest) → (if b then o else o) ≡ o
same_branches true o = refl
same_branches false o = refl

-- The wait requests that are left.
pub lookup-Returned :
    (w x : ℕ) (r : WaitRequest) (s t : PlasmaManagerState) (u : WaitRequest)
    → Returned w r s t
    → lookup x t.wait_requests ≡ some u
    → ((w == x) ≡ false) × (lookup x s.wait_requests ≡ some u)
lookup-Returned w x r s t u (only, left, vectors) found =
    let e : lookup x (erase w s.wait_requests) ≡ some u = sym (ap (λ m. lookup x m) left) ∙ found in
    let f = lookup-erase w x s.wait_requests in
    elim (Bool-cases (w == x)) [
      | inl hit ↦ let g : none ≡ some u = sym (f ∙ rw hit refl) ∙ e in absurd cc
      | inr miss ↦ (miss, sym (f ∙ rw miss refl) ∙ e)
    ]

pending_if :
    (b : Bool) (type : QueryType) (new : ObjectRequest) (o : Option ObjectRequest)
    → is_nonexistent new.status ≡ false
    → pending type (if b then some new else o) ≡ (if b then false else pending type o)
pending_if true type new o known = ap (λ b. same_type type new.type && b) known ∙ and-false _
pending_if false type new o known = refl

pub Returned-Fresh :
    (w : ℕ) (r : WaitRequest) (s t : PlasmaManagerState) → Returned w r s t → Fresh s → Fresh t
Returned-Fresh w r s t returned fresh x late =
    let (only, left, vectors) = returned in
    let same : t.next_wait_request ≡ s.next_wait_request = ap (λ v. v.next_wait_request) only in
    let before = fresh x (subst (λ n. n ≤ x) same late) in
    ap (λ m. lookup x m) left
    ∙ lookup-erase w x s.wait_requests
    ∙ ap (λ f. if w == x then none else f) before
    ∙ same_branches (w == x) none

pub Returned-Served :
    (w : ℕ) (r : WaitRequest) (s t : PlasmaManagerState) → Returned w r s t → Served s → Served t
Returned-Served w r s t returned served x u there =
    let (only, left, vectors) = returned in
    let (miss, old) = lookup-Returned w x r s t u returned there in
    let (connected, whole) = served x u old in
    (ap (λ v. has_key u.client_conn v.manager_connections) only ∙ connected, whole)

-- Who waits once a request for an object is satisfied.
pub awaits-satisfy :
    (w x o : ℕ) (status : ObjectStatus) (q : ObjectRequest) (r : WaitRequest) (type : QueryType)
    (p : ℕ) (s : PlasmaManagerState)
    → lookup w s.wait_requests ≡ some r
    → is_nonexistent status ≡ false
    → pending type (request_of p (lookup x (insert w (satisfy o status q r) s.wait_requests)))
      ≡ (if (w == x) && (o == p) then false else awaits x type p s)
awaits-satisfy w x o status q r type p s found known =
    let new = record q { status = status } in
    let u = satisfy o status q r in
    let e = lookup-insert w x u s.wait_requests in
    elim (Bool-cases (w == x)) [
      | inl hit ↦
          let same : w ≡ x = ground (arith, hit) in
          let was : lookup x s.wait_requests ≡ some r =
            ap (λ y. lookup y s.wait_requests) (sym same) ∙ found in
          let now : lookup x (insert w u s.wait_requests) ≡ some u = e ∙ rw hit refl in
          rw hit (
            ap (λ f. pending type (request_of p f)) now
            ∙ ap (pending type) (lookup-insert o p new r.object_requests)
            ∙ pending_if (o == p) type new (lookup p r.object_requests) known
            ∙ ap (λ f. if o == p then false else pending type (request_of p f)) (sym was))
      | inr miss ↦
          let now : lookup x (insert w u s.wait_requests) ≡ lookup x s.wait_requests =
            e ∙ rw miss refl in
          rw miss (ap (λ f. pending type (request_of p f)) now)
    ]

num_known-insert :
    (o : ℕ) (q new : ObjectRequest) (m : List (ℕ × ObjectRequest))
    → lookup o m ≡ some q
    → num_known (insert o new m) + one (not (is_nonexistent q.status))
      ≡ num_known m + one (not (is_nonexistent new.status))
unfolding lookup insert
num_known-insert o q new [] h = cc
num_known-insert o q new ((k, old) ∷ m) h = elim (Bool-cases (k == o)) [
  | inl hit ↦
      let e : old ≡ q = ground (arith, hit, h) in
      let f : num_known ((k, old) ∷ m) ≡ num_known ((k, q) ∷ m) =
        ap (λ v. num_known ((k, v) ∷ m)) e in
      rw hit (omega (arith, f))
  | inr miss ↦
      let rest : lookup o m ≡ some q = ground (arith, miss, h) in
      let e = num_known-insert o q new m rest in rw miss (omega (arith, e))
]

pub length-insert :
    (o : ℕ) (q new : ObjectRequest) (m : List (ℕ × ObjectRequest))
    → lookup o m ≡ some q
    → length (insert o new m) ≡ length m
unfolding lookup insert
length-insert o q new [] h = cc
length-insert o q new ((k, old) ∷ m) h = elim (Bool-cases (k == o)) [
  | inl hit ↦ rw hit refl
  | inr miss ↦
      let rest : lookup o m ≡ some q = ground (arith, miss, h) in
      let e = length-insert o q new m rest in rw miss (ap suc e)
]

-- A wait request that is not done yet.
pub satisfy-IsUndone :
    (o : ℕ) (status : ObjectStatus) (q : ObjectRequest) (r : WaitRequest)
    → lookup o r.object_requests ≡ some q
    → is_nonexistent q.status ≡ true
    → is_nonexistent status ≡ false
    → IsUndone r
    → is_done (satisfy o status q r) ≡ false
    → IsUndone (satisfy o status q r)
satisfy-IsUndone o status q r found was known (counted, few) undone =
    let e = num_known-insert o q (record q { status = status }) r.object_requests found in
    let a : one (not (is_nonexistent q.status)) ≡ 0 = ap (λ b. one (not b)) was in
    let b : one (not (is_nonexistent status)) ≡ 1 = ap (λ b. one (not b)) known in
    (omega (arith, e, a, b, counted), ground (arith, few, undone))
