-- ===== src/Plasma/Manager/Waiting/Tables.antt =====
-- The vectors of wait requests after one operation on them.
use ray.Common.{
  ℕ, ◌-◌, ◌≤◌, ◌≡◌, refl, sym, ap, subst, ◌∙◌, Bool, true, false, ◌&&◌, ◌||◌, Option, none, some,
  List, [], ◌∷◌, ◌++◌, arith, if◌then◌else◌, ◌==◌, count, remove, inl, inr, Bool-cases, get_elem?,
  length,
}
use ray.Common.Maps.{lookup, insert, erase, lookup-insert, lookup-erase}
use ray.Plasma.Manager.State.{
  QueryType, query_local, query_anywhere, ObjectRequest, PlasmaManagerState,
}
use ray.Plasma.Manager.Waits.{
  table, set_table, vector_of, waiting, remove_wait_request_for_object, remove_for_objects,
}
use ray.Plasma.Manager.Waiting.{same_type}

same_type_refl : (t : QueryType) → same_type t t ≡ true
same_type_refl query_local = refl
same_type_refl query_anywhere = refl

pub count-remove :
    (x w : ℕ) (ws : List ℕ)
    → count x (remove w ws) ≡ (if w == x then count x ws - 1 else count x ws)
unfolding remove
count-remove x w [] = ground arith
count-remove x w (y ∷ ws) = ground (arith, count-remove x w ws)

pub remove_absent : (w : ℕ) (ws : List ℕ) → count w ws ≡ 0 → remove w ws ≡ ws
unfolding remove
remove_absent w [] h = refl
remove_absent w (y ∷ ws) h = ground (arith, remove_absent w ws)

pub remove-append : (w : ℕ) (xs ys : List ℕ) → count w xs ≡ 0 → remove w (xs ++ w ∷ ys) ≡ xs ++ ys
unfolding remove
remove-append w [] ys h = ground arith
remove-append w (x ∷ xs) ys h = ground (arith, remove-append w xs ys)

pub get_elem-append :
    (xs : List ℕ) (w : ℕ) (ys : List ℕ) → get_elem? (xs ++ w ∷ ys) (length xs) ≡ some w
get_elem-append [] w ys = refl
get_elem-append (x ∷ xs) w ys = get_elem-append xs w ys

vector_of_if :
    (b : Bool) (ws : List ℕ) (o : Option (List ℕ))
    → vector_of (if b then some ws else o) ≡ (if b then ws else vector_of o)
vector_of_if true ws o = refl
vector_of_if false ws o = refl

vector_of_erased :
    (b : Bool) (o : Option (List ℕ))
    → vector_of (if b then none else o) ≡ (if b then [] else vector_of o)
vector_of_erased true o = refl
vector_of_erased false o = refl

-- A vector after an assignment to one.
pub waiting-insert :
    (type t : QueryType) (o p : ℕ) (ws : List ℕ) (s : PlasmaManagerState)
    → waiting t p (set_table type (insert o ws (table type s)) s)
      ≡ (if same_type type t && (o == p) then ws else waiting t p s)
waiting-insert query_local query_local o p ws s =
    ap vector_of (lookup-insert o p ws s.object_wait_requests_local) ∙ vector_of_if (o == p) ws _
waiting-insert query_anywhere query_anywhere o p ws s =
    ap vector_of (lookup-insert o p ws s.object_wait_requests_remote) ∙ vector_of_if (o == p) ws _
waiting-insert query_local query_anywhere o p ws s = refl
waiting-insert query_anywhere query_local o p ws s = refl

pub waiting-erase :
    (type t : QueryType) (o p : ℕ) (s : PlasmaManagerState)
    → waiting t p (set_table type (erase o (table type s)) s)
      ≡ (if same_type type t && (o == p) then [] else waiting t p s)
waiting-erase query_local query_local o p s =
    ap vector_of (lookup-erase o p s.object_wait_requests_local) ∙ vector_of_erased (o == p) _
waiting-erase query_anywhere query_anywhere o p s =
    ap vector_of (lookup-erase o p s.object_wait_requests_remote) ∙ vector_of_erased (o == p) _
waiting-erase query_local query_anywhere o p s = refl
waiting-erase query_anywhere query_local o p s = refl

pub waiting_same :
    (type t : QueryType) (o p : ℕ) (s : PlasmaManagerState)
    → (same_type type t && (o == p)) ≡ true
    → waiting type o s ≡ waiting t p s
waiting_same query_local query_local o p s h =
    let e : o ≡ p = ground (arith, h) in ap (λ k. waiting query_local k s) e
waiting_same query_anywhere query_anywhere o p s h =
    let e : o ≡ p = ground (arith, h) in ap (λ k. waiting query_anywhere k s) e
waiting_same query_local query_anywhere o p s h = absurd cc
waiting_same query_anywhere query_local o p s h = absurd cc

-- Whether one of the object requests names an object with a type.
abbrev pub touches : QueryType → ℕ → List (ℕ × ObjectRequest) → Bool
touches t p [] = false
touches t p ((o, request) ∷ requests) =
    (same_type request.type t && (o == p)) || touches t p requests

pub touches-lookup :
    (p : ℕ) (requests : List (ℕ × ObjectRequest)) (q : ObjectRequest)
    → lookup p requests ≡ some q
    → touches q.type p requests ≡ true
unfolding lookup
touches-lookup p [] q h = cc
touches-lookup p ((o, request) ∷ requests) q h = elim (Bool-cases (o == p)) [
  | inl hit ↦
      let found : request ≡ q = ground (arith, hit, h) in
      let same = same_type_refl q.type in
      let e : same_type request.type q.type ≡ true =
        ap (λ r. same_type r.type q.type) found ∙ same in
      ground (arith, hit, e)
  | inr miss ↦
      let rest : lookup p requests ≡ some q = ground (arith, miss, h) in
      let e = touches-lookup p requests q rest in ground (arith, e)
]

removed_in :
    (type t : QueryType) (o p w : ℕ) (s : PlasmaManagerState) (found : Option (List ℕ))
    → lookup o (table type s) ≡ found
    → waiting t p (elim found [
      | none ↦ s
      | some ws ↦ set_table type (insert o (remove w ws) (table type s)) s
    ])
      ≡ (if same_type type t && (o == p) then remove w (waiting t p s) else waiting t p s)
unfolding remove
removed_in type t o p w s none e = elim (Bool-cases (same_type type t && (o == p))) [
  | inl hit ↦
      let empty : waiting t p s ≡ [] = sym (waiting_same type t o p s hit) ∙ ap vector_of e in
      empty ∙ sym (ap (remove w) empty) ∙ rw hit refl
  | inr miss ↦ rw miss refl
]
removed_in type t o p w s (some ws) e =
    let inserted = waiting-insert type t o p (remove w ws) s in
    elim (Bool-cases (same_type type t && (o == p))) [
      | inl hit ↦
          let full : waiting t p s ≡ ws = sym (waiting_same type t o p s hit) ∙ ap vector_of e in
          inserted ∙ rw hit (sym (ap (remove w) full))
      | inr miss ↦ inserted ∙ rw miss refl
    ]

waiting-remove_one :
    (type t : QueryType) (o p w : ℕ) (s : PlasmaManagerState)
    → waiting t p (remove_wait_request_for_object o type w s)
      ≡ (if same_type type t && (o == p) then remove w (waiting t p s) else waiting t p s)
unfolding remove_wait_request_for_object
waiting-remove_one type t o p w s = removed_in type t o p w s (lookup o (table type s)) refl

remove-if :
    (w : ℕ) (a b : Bool) (ws : List ℕ)
    → count w ws ≤ 1
    → (if b then remove w (if a then remove w ws else ws) else (if a then remove w ws else ws))
      ≡ (if a || b then remove w ws else ws)
remove-if w true true ws h =
    let e = count-remove w w ws in
    let same : (w == w) ≡ true = ground arith in
    let none_left : count w (remove w ws) ≡ 0 = ground (arith, e, same, h) in
    remove_absent w (remove w ws) none_left
remove-if w true false ws h = refl
remove-if w false true ws h = refl
remove-if w false false ws h = refl

count-if :
    (w : ℕ) (a : Bool) (ws : List ℕ) → count w ws ≤ 1 → count w (if a then remove w ws else ws) ≤ 1
count-if w true ws h = let e = count-remove w w ws in ground (arith, e, h)
count-if w false ws h = h

-- The vectors after the loop of return_from_wait, if the wait request stands in none twice.
pub waiting-remove_for_objects :
    (w : ℕ) (t : QueryType) (p : ℕ) (requests : List (ℕ × ObjectRequest)) (s : PlasmaManagerState)
    → count w (waiting t p s) ≤ 1
    → waiting t p (remove_for_objects w requests s)
      ≡ (if touches t p requests then remove w (waiting t p s) else waiting t p s)
unfolding remove_for_objects
waiting-remove_for_objects w t p [] s h = refl
waiting-remove_for_objects w t p ((o, request) ∷ requests) s h =
    let s1 = remove_wait_request_for_object o request.type w s in
    let first = waiting-remove_one request.type t o p w s in
    let a = same_type request.type t && (o == p) in
    let b = touches t p requests in
    let ws = waiting t p s in
    let few : count w (waiting t p s1) ≤ 1 =
      subst (λ v. count w v ≤ 1) (sym first) (count-if w a ws h) in
    waiting-remove_for_objects w t p requests s1 few
    ∙ ap (λ v. if b then remove w v else v) first
    ∙ remove-if w a b ws h
