-- ===== src/Plasma/Manager/Waiting/Updates.antt =====
-- The loop over the wait requests of an object that comes (update_object_wait_requests in
-- src/plasma/plasma_manager.cc).
use ray.Common.{
  ℕ, ◌+◌, ◌≤◌, ◌≡◌, refl, sym, ap, subst, ◌∙◌, Bool, true, false, ◌&&◌, some, List, [], ◌∷◌, ◌++◌,
  length, length-append, ok, arith, ◌==◌, count, one, inl, inr, Bool-cases, get_elem?,
}
use ray.Common.Maps.{lookup, insert, erase, has_key, lookup-has_key}
use ray.Plasma.Manager.State.{
  QueryType, query_local, query_anywhere, ObjectStatus, PlasmaManagerState, Env,
}
use ray.Plasma.Manager.Waits.{
  table, set_table, vector_of, waiting, is_nonexistent, satisfy, is_done, return_from_wait,
  update_loop, update_object_wait_requests,
}
use ray.Plasma.Manager.Waiting.{
  Holds, Holds->>=, Holds-check, Holds-if, Holds-either, same_type, pending, request_of, awaits,
  IsWaiting, WaitsOnly, WaitsOnly-trans,
}
use ray.Plasma.Manager.Waiting.Tables.{get_elem-append, waiting-erase}
use ray.Plasma.Manager.Waiting.Returns.{Safe, Returned, return_from_wait-Returned}
use ray.Plasma.Manager.Waiting.Steps.{same_type-eq, awaits_parts, and-left, and-right, one_le}
use ray.Plasma.Manager.Waiting.Loop.{Fewer, InLoop, waits_of_count}
use ray.Plasma.Manager.Waiting.Rounds.{
  found_updated, after-Safe, kept-InLoop, after-few, Returned-InLoop,
}

update_loop-InLoop :
    (strict : Bool) (env : Env) (origin : PlasmaManagerState) (type : QueryType) (o : ℕ)
    (status : ObjectStatus) (todo : List ℕ) (index : ℕ) (s : PlasmaManagerState)
    → is_nonexistent status ≡ false
    → InLoop strict env origin type o index todo s
    → Holds strict
        (λ p. InLoop strict env origin type o p.0 [] p.1)
        (update_loop env (length todo) index o type status s)
unfolding update_loop
update_loop-InLoop strict env origin type o status [] index s known h = h
update_loop-InLoop strict env origin type o status (w ∷ rest) index s known h =
    let (done, split, long, todo, few, elsewhere, undone, fresh, only, fewer, safe) = h in
    let Looped = λ (p : ℕ × PlasmaManagerState). InLoop strict env origin type o p.0 [] p.1 in
    let (r, found, q, asked, asks) =
      awaits_parts type o (lookup w s.wait_requests)
        (waits_of_count w rest (awaits w type o s) (todo w)) in
    let elem : get_elem? (waiting type o s) index ≡ some w =
      ap (λ v. get_elem? v index) split
      ∙ ap (λ n. get_elem? (done ++ w ∷ rest) n) (sym long)
      ∙ get_elem-append done w rest in
    let u = satisfy o status q r in
    let s' : PlasmaManagerState = record s { wait_requests = insert w u s.wait_requests } in
    let next = update_loop-InLoop strict env origin type o status rest in
    rw (elem, found, asked, update_loop)
      (Holds-check strict (is_nonexistent q.status) Looped _
        (λ _. and-right (same_type type q.type) (is_nonexistent q.status) asks)
        (Holds-either strict (is_done u) Looped _ _
          (λ _.
            Holds->>= strict (Returned w u s') Looped (return_from_wait env w s') _
              (return_from_wait-Returned strict env w u s'
                (found_updated strict env origin type o index w rest status s r q known found asked
                  asks h)
                (after-few strict env origin type o index w rest status s r q known found asked asks
                  h)
                (λ e.
                  let (served, sends) =
                    after-Safe strict env origin type o index w rest status s r q known found asked
                      asks h e in
                  (
                    served w u (
                        found_updated strict env origin type o index w rest status s r q known found
                          asked asks h),
                    sends,
                  )))
              λ t returned. next index t known (
                Returned-InLoop strict env origin type o index w rest status s r q known found asked
                  asks h t returned))
          λ stays. next (index + 1) s' known (
            kept-InLoop strict env origin type o index w rest status s r q known found asked asks h
              stays)))

set_table-WaitsOnly :
    (type : QueryType) (m : List (ℕ × List ℕ)) (s : PlasmaManagerState)
    → WaitsOnly s (set_table type m s)
set_table-WaitsOnly query_local m s = refl
set_table-WaitsOnly query_anywhere m s = refl

same_requests :
    (type : QueryType) (m : List (ℕ × List ℕ)) (s : PlasmaManagerState)
    → (set_table type m s).wait_requests ≡ s.wait_requests
same_requests query_local m s = refl
same_requests query_anywhere m s = refl

abbrev pub Updated :
    (strict : Bool)
    → Env
    → (origin : PlasmaManagerState) → QueryType
    → (o : ℕ) → PlasmaManagerState
    → Type 0
Updated strict env origin type o t =
    IsWaiting t
    × WaitsOnly origin t
    × Fewer origin t
    × Safe strict env t
    × ((x : ℕ) → awaits x type o t ≡ false)

none_waits : (b : Bool) → 0 ≡ one b → b ≡ false
none_waits true h = absurd (omega (arith, h))
none_waits false h = refl

finished-Updated :
    (strict : Bool) (env : Env) (origin : PlasmaManagerState) (type : QueryType) (o index : ℕ)
    (s : PlasmaManagerState)
    → InLoop strict env origin type o index [] s
    → Updated strict env origin type o (set_table type (erase o (table type s)) s)
finished-Updated strict env origin type o index s h =
    let (done, split, long, todo, few, elsewhere, undone, fresh, only, fewer, safe) = h in
    let t = set_table type (erase o (table type s)) s in
    let waits_only = set_table-WaitsOnly type (erase o (table type s)) s in
    let requests = same_requests type (erase o (table type s)) s in
    let nobody = λ (x : ℕ). none_waits (awaits x type o s) (todo x) in
    let awaits_same =
      λ (x : ℕ) (k : QueryType) (p : ℕ). ap (λ m. pending k (request_of p (lookup x m))) requests in
    (
      (
        (λ x k p.
            let e = waiting-erase type k o p s in
            elim (Bool-cases (same_type type k && (o == p))) [
              | inl hit ↦
                  let f : waiting k p t ≡ [] = e ∙ rw hit refl in
                  let a = same_type-eq type k (and-left (same_type type k) (o == p) hit) in
                  let b : o ≡ p =
                    let g = and-right (same_type type k) (o == p) hit in ground (arith, g) in
                  let c : awaits x k p s ≡ false =
                    ap (λ j. awaits x j p s) (sym a)
                    ∙ ap (λ j. awaits x type j s) (sym b)
                    ∙ nobody x in
                  ap (count x) f ∙ sym (ap one (awaits_same x k p ∙ c))
              | inr miss ↦
                  let f : waiting k p t ≡ waiting k p s = e ∙ rw miss refl in
                  ap (count x) f ∙ elsewhere k p miss x ∙ sym (ap one (awaits_same x k p))
            ]),
        (λ x u there. undone x u (sym (ap (lookup x) requests) ∙ there)),
        (λ x late.
            ap (lookup x) requests
            ∙ fresh x (subst (λ n. n ≤ x) (ap (λ v. v.next_wait_request) waits_only) late)),
      ),
      WaitsOnly-trans origin s t only waits_only,
      (λ x k p never. awaits_same x k p ∙ fewer x k p never),
      (λ e.
          let (served, sends) = safe e in
          (
            (λ x u there.
                let (connected, whole) = served x u (sym (ap (lookup x) requests) ∙ there) in
                (
                  ap (λ v. has_key u.client_conn v.manager_connections) waits_only ∙ connected,
                  whole,
                )),
            sends,
          )),
      λ x. awaits_same x type o ∙ nobody x,
    )

-- Once an object has come nobody waits for it any more; what holds of the wait requests still holds.
pub update_object_wait_requests-Updated :
    (strict : Bool) (env : Env) (o : ℕ) (type : QueryType) (status : ObjectStatus)
    (s : PlasmaManagerState)
    → is_nonexistent status ≡ false
    → IsWaiting s
    → Safe strict env s
    → Holds strict (Updated strict env s type o) (update_object_wait_requests env o type status s)
unfolding update_object_wait_requests
update_object_wait_requests-Updated strict env o type status s known (counted, undone, fresh) safe =
    Holds-if strict (has_key o (table type s)) (Updated strict env s type o) _ (ok s)
      (λ _.
        Holds->>= strict (λ (p : ℕ × PlasmaManagerState). InLoop strict env s type o p.0 [] p.1)
          (Updated strict env s type o)
          (update_loop env (length (waiting type o s)) 0 o type status s) _
          (update_loop-InLoop strict env s type o status (waiting type o s) 0 s known (
            [],
            refl,
            refl,
            (λ x. counted x type o),
            (λ x.
                let e = counted x type o in
                let f = one_le (awaits x type o s) in omega (arith, e, f)),
            (λ k p other x. counted x k p),
            undone,
            fresh,
            refl,
            (λ x k p never. never),
            safe,
          ))
          λ p h.
            Holds-check strict (p.0 == length (waiting type o p.1)) (Updated strict env s type o) _
              (λ _.
                let (done, split, long, todo, few, elsewhere, others, new, only, fewer, able) = h in
                let e = ap length split in
                let f = length-append done [] in ground (arith, e, f, long))
              (finished-Updated strict env s type o p.0 p.1 h))
      (λ missing.
        let e : waiting type o s ≡ [] = ap vector_of (lookup-has_key o (table type s) missing) in
        (
          (counted, undone, fresh),
          refl,
          (λ x k p never. never),
          safe,
          λ x. none_waits (awaits x type o s) (sym (ap (count x) e) ∙ counted x type o),
        ))
