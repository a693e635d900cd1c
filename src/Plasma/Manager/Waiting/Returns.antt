-- ===== src/Plasma/Manager/Waiting/Returns.antt =====
-- A wait request that returns to its client (return_from_wait in src/plasma/plasma_manager.cc).
use ray.Common.{
  ℕ, ◌≤◌, ◌≡◌, refl, sym, ap, subst, ◌∙◌, Bool, true, false, some, List, [], ◌∷◌, length, leb,
  if◌then◌else◌, count, remove, inl, inr, Option-cases,
}
use ray.Common.Maps.{lookup, erase, has_key}
use ray.Plasma.Manager.State.{
  QueryType, query_local, query_anywhere, ObjectRequest, WaitRequest, wait_reply, Effect,
  PlasmaManagerState, Env, SendOutcome, sent, hung_up, connection_reset, failed, emit, time,
  warn_if_sigpipe,
}
use ray.Plasma.Manager.Waits.{
  waiting, remove_wait_request_for_object, remove_for_objects, remove_wait_request,
  return_from_wait,
}
use ray.Plasma.Manager.Waiting.{Holds, Holds->>=, Holds-check, CanReply, Served, WaitsOnly}
use ray.Plasma.Manager.Waiting.Tables.{touches, waiting-remove_for_objects}

-- No message to a client fails in an unexpected way.
abbrev pub is_failed : SendOutcome → Bool
is_failed outcome = elim outcome [ failed ↦ true | _ ↦ false ]

abbrev pub Sends : Env → Type 0
Sends env = (n : ℕ) → is_failed (env.sends n) ≡ false

-- With `strict` every wait request can be answered.
abbrev pub Safe : (strict : Bool) → Env → PlasmaManagerState → Type 0
Safe strict env s = strict ≡ true → Served s × Sends env

abbrev TablesOnly : PlasmaManagerState → PlasmaManagerState → Type 0
TablesOnly s t = t ≡ record s {
  object_wait_requests_local = t.object_wait_requests_local;
  object_wait_requests_remote = t.object_wait_requests_remote;
}

remove_one-TablesOnly :
    (o w : ℕ) (type : QueryType) (s : PlasmaManagerState)
    → TablesOnly s (remove_wait_request_for_object o type w s)
unfolding remove_wait_request_for_object
remove_one-TablesOnly o w query_local s =
    elim (Option-cases (lookup o s.object_wait_requests_local)) [
      | inl e ↦ rw (e, remove_wait_request_for_object) refl
      | inr (ws, e) ↦ rw (e, remove_wait_request_for_object) refl
    ]
remove_one-TablesOnly o w query_anywhere s =
    elim (Option-cases (lookup o s.object_wait_requests_remote)) [
      | inl e ↦ rw (e, remove_wait_request_for_object) refl
      | inr (ws, e) ↦ rw (e, remove_wait_request_for_object) refl
    ]

remove_for_objects-TablesOnly :
    (w : ℕ) (requests : List (ℕ × ObjectRequest)) (s : PlasmaManagerState)
    → TablesOnly s (remove_for_objects w requests s)
unfolding remove_for_objects
remove_for_objects-TablesOnly w [] s = refl
remove_for_objects-TablesOnly w ((o, request) ∷ requests) s =
    let s1 = remove_wait_request_for_object o request.type w s in
    let t = remove_for_objects w requests s1 in
    remove_for_objects-TablesOnly w requests s1
    ∙ ap {A = PlasmaManagerState} {B = PlasmaManagerState}
        (λ v. record v {
          object_wait_requests_local = t.object_wait_requests_local;
          object_wait_requests_remote = t.object_wait_requests_remote;
        })
        (remove_one-TablesOnly o w request.type s)

pub waiting_other :
    (t : QueryType) (p : ℕ) (requests : List (ℕ × WaitRequest)) (effects : List Effect)
    (s : PlasmaManagerState)
    → waiting t p (record s { wait_requests = requests; effects = effects }) ≡ waiting t p s
waiting_other query_local p requests effects s = refl
waiting_other query_anywhere p requests effects s = refl

abbrev pub Returned : (w : ℕ) → WaitRequest → PlasmaManagerState → PlasmaManagerState → Type 0
Returned w r s t =
    WaitsOnly s t
    × (t.wait_requests ≡ erase w s.wait_requests)
    × ((type : QueryType) (p : ℕ)
        → waiting type p t ≡ (
            if touches type p r.object_requests
            then remove w (waiting type p s)
            else waiting type p s))

Holds-warn_if_sigpipe :
    (strict : Bool) (outcome : SendOutcome) (s : PlasmaManagerState)
    → (strict ≡ true → is_failed outcome ≡ false)
    → Holds strict (λ u. u ≡ s) (warn_if_sigpipe outcome s)
Holds-warn_if_sigpipe strict sent s h = refl
Holds-warn_if_sigpipe strict hung_up s h = refl
Holds-warn_if_sigpipe strict connection_reset s h = refl
Holds-warn_if_sigpipe true failed s h = let e = h refl in absurd cc
Holds-warn_if_sigpipe false failed s h = refl

-- The state once the reply is sent.
replied-Returned :
    (w : ℕ) (r : WaitRequest) (effect : Effect) (s : PlasmaManagerState)
    → ((type : QueryType) (p : ℕ) → count w (waiting type p s) ≤ 1)
    → Returned w r s
        (remove_wait_request w (remove_for_objects w r.object_requests (emit effect s)))
replied-Returned w r effect s few =
    let s' = emit effect s in
    let t = remove_for_objects w r.object_requests s' in
    let only = remove_for_objects-TablesOnly w r.object_requests s' in
    (
      ap {A = PlasmaManagerState} {B = PlasmaManagerState}
          (λ v. record v {
            object_wait_requests_local = t.object_wait_requests_local;
            object_wait_requests_remote = t.object_wait_requests_remote;
            wait_requests = erase w t.wait_requests;
            effects = t.effects;
          })
          only,
      ap (λ (u : PlasmaManagerState). erase w u.wait_requests) only,
      λ type p.
          waiting_other type p (erase w t.wait_requests) t.effects t
          ∙ waiting-remove_for_objects w type p r.object_requests s' (
              subst (λ ws. count w ws ≤ 1)
                (sym (waiting_other type p s.wait_requests (effect ∷ s.effects) s)) (few type p))
          ∙ ap (λ ws. if touches type p r.object_requests then remove w ws else ws)
              (waiting_other type p s.wait_requests (effect ∷ s.effects) s),
    )

pub return_from_wait-Returned :
    (strict : Bool) (env : Env) (w : ℕ) (r : WaitRequest) (s : PlasmaManagerState)
    → lookup w s.wait_requests ≡ some r
    → ((type : QueryType) (p : ℕ) → count w (waiting type p s) ≤ 1)
    → (strict ≡ true → CanReply s r × Sends env)
    → Holds strict (Returned w r s) (return_from_wait env w s)
unfolding return_from_wait
return_from_wait-Returned strict env w r s found few safe =
    rw (found, return_from_wait)
      (Holds-check strict (has_key r.client_conn s.manager_connections) (Returned w r s) _
        (λ e. let ((connected, whole), sends) = safe e in connected)
        (Holds-check strict (leb r.num_object_requests (length r.object_requests)) (Returned w r s)
          _ (λ e. let ((connected, whole), sends) = safe e in whole)
          (let effect = wait_reply r.client_conn r.object_requests in
            Holds->>= strict (λ u. u ≡ emit effect s) (Returned w r s)
              (warn_if_sigpipe (env.sends (time s)) (emit effect s)) _
              (Holds-warn_if_sigpipe strict (env.sends (time s)) (emit effect s)
                (λ e. let (able, sends) = safe e in sends (time s)))
              λ u same.
                subst
                  (λ v.
                    Returned w r s
                      (remove_wait_request w (remove_for_objects w r.object_requests v)))
                  (sym same) (replied-Returned w r effect s few))))
