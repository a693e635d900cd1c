-- ===== src/Plasma/Manager/Waiting/Requests.antt =====
-- The loop over the objects of a new wait request (process_wait_request in
-- src/plasma/plasma_manager.cc).
use ray.Common.{
  ℕ, ◌+◌, ◌≡◌, refl, sym, ap, ◌∙◌, Bool, true, false, ◌&&◌, not, some, List, [], ◌∷◌, ◌++◌, arith,
  if◌then◌else◌, ◌==◌, count, count-append, one, inl, inr, Bool-cases,
}
use ray.Common.Maps.{lookup, has_key}
use ray.Plasma.Manager.State.{
  QueryType, query_local, query_anywhere, ObjectRequest, PlasmaManagerState,
}
use ray.Plasma.Manager.Waits.{
  waiting, is_nonexistent, add_wait_request_for_object, is_object_local, wait_loop,
}
use ray.Plasma.Manager.Waiting.{same_type, pending, num_known}
use ray.Plasma.Manager.Waiting.Tables.{waiting-insert, waiting_same}
use ray.Plasma.Manager.Waiting.Steps.{and-false}

-- Object requests that no object names twice, none of them satisfied.
abbrev pub IsNew : List (ℕ × ObjectRequest) → Type 0
IsNew [] = Unit {0}
IsNew ((o, request) ∷ requests) =
    (is_nonexistent request.status ≡ true) × (has_key o requests ≡ false) × IsNew requests

abbrev pub NoRepeats : List (ℕ × ObjectRequest) → Type 0
NoRepeats [] = Unit {0}
NoRepeats ((o, request) ∷ requests) = (has_key o requests ≡ false) × NoRepeats requests

-- How many object requests wait for an object.
abbrev pub times : QueryType → ℕ → List (ℕ × ObjectRequest) → ℕ
times t p [] = 0
times t p ((o, request) ∷ requests) =
    one ((o == p) && pending t (some request)) + times t p requests

times_absent :
    (t : QueryType) (p : ℕ) (m : List (ℕ × ObjectRequest)) → has_key p m ≡ false → times t p m ≡ 0
unfolding has_key
times_absent t p [] h = refl
times_absent t p ((o, request) ∷ m) h = elim (Bool-cases (o == p)) [
  | inl hit ↦ absurd (ground (arith, hit, h))
  | inr miss ↦
      let rest : has_key p m ≡ false = ground (arith, miss, h) in
      let e = times_absent t p m rest in rw miss (omega (arith, e))
]

pub times-lookup :
    (t : QueryType) (p : ℕ) (m : List (ℕ × ObjectRequest))
    → NoRepeats m
    → times t p m ≡ one (pending t (lookup p m))
unfolding lookup
times-lookup t p [] h = refl
times-lookup t p ((o, request) ∷ m) (absent, rest) = elim (Bool-cases (o == p)) [
  | inl hit ↦
      let same : o ≡ p = ground (arith, hit) in
      let e = times_absent t p m (ap (λ k. has_key k m) (sym same) ∙ absent) in
      rw hit (omega (arith, e))
  | inr miss ↦ let e = times-lookup t p m rest in rw miss (omega (arith, e))
]

add-waiting :
    (o w x : ℕ) (type t : QueryType) (p : ℕ) (s : PlasmaManagerState)
    → count x (waiting t p (add_wait_request_for_object o type w s))
      ≡ one ((same_type type t && (o == p)) && (w == x)) + count x (waiting t p s)
unfolding add_wait_request_for_object
add-waiting o w x type t p s =
    let e = waiting-insert type t o p (waiting type o s ++ w ∷ []) s in
    elim (Bool-cases (same_type type t && (o == p))) [
      | inl hit ↦
          let f : waiting t p (add_wait_request_for_object o type w s)
              ≡ waiting type o s ++ w ∷ [] =
            e ∙ rw hit refl in
          let a = ap (count x) f in
          let b = count-append x (waiting type o s) (w ∷ []) in
          let c = ap (count x) (waiting_same type t o p s hit) in rw hit (omega (arith, a, b, c))
      | inr miss ↦
          let f : waiting t p (add_wait_request_for_object o type w s) ≡ waiting t p s =
            e ∙ rw miss refl in
          let a = ap (count x) f in rw miss (omega (arith, a))
    ]

same_type_sym : (a b : QueryType) → same_type a b ≡ same_type b a
same_type_sym query_local query_local = refl
same_type_sym query_local query_anywhere = refl
same_type_sym query_anywhere query_local = refl
same_type_sym query_anywhere query_anywhere = refl

and_swap : (a b c : Bool) → c ≡ true → (a && b) ≡ (b && (a && c))
and_swap true true c h = sym h
and_swap true false c h = refl
and_swap false true c h = refl
and_swap false false c h = refl

and_with : (a b : Bool) → b ≡ true → (a && b) ≡ a
and_with true b h = h
and_with false b h = refl

and_without : (a b : Bool) → b ≡ false → (a && b) ≡ false
and_without true b h = h
and_without false b h = refl

asks_for :
    (t : QueryType) (o p : ℕ) (request : ObjectRequest)
    → is_nonexistent request.status ≡ true
    → (same_type request.type t && (o == p)) ≡ ((o == p) && pending t (some request))
asks_for t o p request new =
    ap (λ b. b && (o == p)) (same_type_sym request.type t)
    ∙ and_swap (same_type t request.type) (o == p) (is_nonexistent request.status) new

abbrev pub Unchanged : PlasmaManagerState → PlasmaManagerState → Type 0
Unchanged s t =
    (t.fetch_requests ≡ s.fetch_requests)
    × (t.local_available_objects ≡ s.local_available_objects)
    × (t.wait_requests ≡ s.wait_requests)
    × (t.next_wait_request ≡ s.next_wait_request)

add-Unchanged :
    (o w : ℕ) (type : QueryType) (s : PlasmaManagerState)
    → Unchanged s (add_wait_request_for_object o type w s)
unfolding add_wait_request_for_object
add-Unchanged o w query_local s = (refl, refl, refl, refl)
add-Unchanged o w query_anywhere s = (refl, refl, refl, refl)

module _ (w : ℕ) where
  has_key-wait_loop :
      (p : ℕ) (m : List (ℕ × ObjectRequest)) (s : PlasmaManagerState)
      → has_key p (wait_loop w m s).requests ≡ has_key p m
  unfolding wait_loop has_key
  has_key-wait_loop p [] s = refl
  has_key-wait_loop p ((o, request) ∷ m) s = elim (Bool-cases (is_object_local s o)) [
    | inl e ↦ rw (e, wait_loop) (ap (λ b. if o == p then true else b) (has_key-wait_loop p m s))
    | inr e ↦
        rw (e, wait_loop)
          (ap (λ b. if o == p then true else b)
            (has_key-wait_loop p m (add_wait_request_for_object o request.type w s)))
  ]

  pub wait_loop-NoRepeats :
      (m : List (ℕ × ObjectRequest)) (s : PlasmaManagerState)
      → IsNew m
      → NoRepeats (wait_loop w m s).requests
  unfolding wait_loop
  wait_loop-NoRepeats [] s h = tt
  wait_loop-NoRepeats ((o, request) ∷ m) s (new, absent, rest) =
      elim (Bool-cases (is_object_local s o)) [
        | inl e ↦ rw (e, wait_loop) (has_key-wait_loop o m s ∙ absent, wait_loop-NoRepeats m s rest)
        | inr e ↦
            let s' = add_wait_request_for_object o request.type w s in
            rw (e, wait_loop) (has_key-wait_loop o m s' ∙ absent, wait_loop-NoRepeats m s' rest)
      ]

  pub wait_loop-num_known :
      (m : List (ℕ × ObjectRequest)) (s : PlasmaManagerState)
      → IsNew m
      → num_known (wait_loop w m s).requests ≡ (wait_loop w m s).num_satisfied
  unfolding wait_loop
  wait_loop-num_known [] s h = refl
  wait_loop-num_known ((o, request) ∷ m) s (new, absent, rest) =
      elim (Bool-cases (is_object_local s o)) [
        | inl e ↦ let f = wait_loop-num_known m s rest in rw (e, wait_loop) (omega (arith, f))
        | inr e ↦
            let f = wait_loop-num_known m (add_wait_request_for_object o request.type w s) rest in
            let g : one (not (is_nonexistent request.status)) ≡ 0 = ap (λ b. one (not b)) new in
            rw (e, wait_loop) (omega (arith, f, g))
      ]

  pub wait_loop-waiting :
      (m : List (ℕ × ObjectRequest)) (s : PlasmaManagerState) (x : ℕ) (t : QueryType) (p : ℕ)
      → IsNew m
      → count x (waiting t p (wait_loop w m s).state)
        ≡ (if w == x then times t p (wait_loop w m s).requests else 0) + count x (waiting t p s)
  unfolding wait_loop
  wait_loop-waiting [] s x t p h = ground arith
  wait_loop-waiting ((o, request) ∷ m) s x t p (new, absent, rest) =
      elim (Bool-cases (is_object_local s o)) [
        | inl e ↦
            let f = wait_loop-waiting m s x t p rest in
            let g : one ((o == p) && (same_type t request.type && false)) ≡ 0 = ap one (
              ap (λ b. (o == p) && b) (and-false (same_type t request.type))
              ∙ and-false (o == p)) in
            rw (e, wait_loop)
              (elim (Bool-cases (w == x)) [
                | inl hit ↦ let f' = rw hit at f in rw hit (omega (arith, f', g))
                | inr miss ↦ let f' = rw miss at f in rw miss f'
              ])
        | inr e ↦
            let s' = add_wait_request_for_object o request.type w s in
            let f = wait_loop-waiting m s' x t p rest in
            let g = add-waiting o w x request.type t p s in
            let a = ap one (asks_for t o p request new) in
            let b = same_type request.type t && (o == p) in
            rw (e, wait_loop)
              (elim (Bool-cases (w == x)) [
                | inl hit ↦
                    let f' = rw hit at f in
                    let c = ap one (and_with b (w == x) hit) in rw hit (omega (arith, f', g, a, c))
                | inr miss ↦
                    let f' = rw miss at f in
                    let c = ap one (and_without b (w == x) miss) in
                    rw miss (omega (arith, f', g, c))
              ])
      ]

  pub wait_loop-Unchanged :
      (m : List (ℕ × ObjectRequest)) (s : PlasmaManagerState) → Unchanged s (wait_loop w m s).state
  unfolding wait_loop
  wait_loop-Unchanged [] s = (refl, refl, refl, refl)
  wait_loop-Unchanged ((o, request) ∷ m) s = elim (Bool-cases (is_object_local s o)) [
    | inl e ↦ rw (e, wait_loop) (wait_loop-Unchanged m s)
    | inr e ↦
        let s' = add_wait_request_for_object o request.type w s in
        let (a, b, c, d) = add-Unchanged o w request.type s in
        let (a', b', c', d') = wait_loop-Unchanged m s' in
        rw (e, wait_loop) (a' ∙ a, b' ∙ b, c' ∙ c, d' ∙ d)
  ]
