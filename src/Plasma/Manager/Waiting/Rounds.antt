-- ===== src/Plasma/Manager/Waiting/Rounds.antt =====
-- One round of the loop over the wait requests of an object that comes (update_object_wait_requests
-- in src/plasma/plasma_manager.cc).
use ray.Common.{
  ℕ, ◌+◌, ◌≤◌, ◌≡◌, refl, sym, ap, subst, ◌∙◌, Bool, true, false, ◌&&◌, none, some, List, [], ◌∷◌,
  ◌++◌, length-append, append_assoc, arith, leb, ◌⊎◌, if◌then◌else◌, ◌==◌, ==_refl, count,
  count-append, one, remove, inl, inr, Bool-cases,
}
use ray.Common.Maps.{lookup, insert, lookup-insert}
use ray.Plasma.Manager.State.{
  QueryType, ObjectStatus, ObjectRequest, WaitRequest, PlasmaManagerState, Env,
}
use ray.Plasma.Manager.Waits.{waiting, is_nonexistent, satisfy, is_done}
use ray.Plasma.Manager.Waiting.{
  same_type, pending, request_of, awaits, Undone, Fresh, IsUndone, CanReply, WaitsOnly-trans,
}
use ray.Plasma.Manager.Waiting.Tables.{touches, touches-lookup, waiting_same, remove-append}
use ray.Plasma.Manager.Waiting.Returns.{Safe, Returned, waiting_other}
use ray.Plasma.Manager.Waiting.Steps.{
  same_type-eq, and-left, and-right, Returned-counts, lookup-Returned, awaits-Returned,
  Returned-Fresh, Returned-Served, awaits-satisfy, length-insert, satisfy-IsUndone, one_le,
}
use ray.Plasma.Manager.Waiting.Loop.{
  Elsewhere, Fewer, InLoop, still_false, other_type, and-false_left,
}

-- One round, for the wait request `w` and its request `q` for the object.
module _ (strict : Bool) (env : Env) (origin : PlasmaManagerState) (type : QueryType)
    (o index w : ℕ) (rest : List ℕ) (status : ObjectStatus) (s : PlasmaManagerState)
    (r : WaitRequest) (q : ObjectRequest) (known : is_nonexistent status ≡ false)
    (found : lookup w s.wait_requests ≡ some r) (asked : lookup o r.object_requests ≡ some q)
    (asks : pending type (some q) ≡ true)
    (h : InLoop strict env origin type o index (w ∷ rest) s) where
  abbrev updated : WaitRequest
  updated = satisfy o status q r

  abbrev after : PlasmaManagerState
  after = record s { wait_requests = insert w updated s.wait_requests }

  pub found_updated : lookup w after.wait_requests ≡ some updated
  found_updated =
      lookup-insert w w updated s.wait_requests
      ∙ ap (λ b. if b then some updated else lookup w s.wait_requests) (==_refl w)

  rest-counts : (x : ℕ) → count x rest ≡ one (awaits x type o after)
  rest-counts x =
      let (done, split, long, todo, few, elsewhere, undone, fresh, only, fewer, safe) = h in
      let e = awaits-satisfy w x o status q r type o s found known in
      let same = ==_refl o in
      let here = todo x in
      let small = one_le (awaits x type o s) in
      elim (Bool-cases (w == x)) [
        | inl hit ↦
            let a : awaits x type o after ≡ false = e ∙ rw (hit, same) refl in
            let b : one (w == x) ≡ 1 = ap one hit in
            let c : count x rest ≡ 0 = omega (arith, here, small, b) in c ∙ sym (ap one a)
        | inr miss ↦
            let a : awaits x type o after ≡ awaits x type o s = e ∙ rw miss refl in
            let b : one (w == x) ≡ 0 = ap one miss in
            let c : count x rest ≡ one (awaits x type o s) = omega (arith, here, b) in
            c ∙ sym (ap one a)
      ]

  after-Elsewhere : Elsewhere type o after
  after-Elsewhere t p other x =
      let (done, split, long, todo, few, elsewhere, undone, fresh, only, fewer, safe) = h in
      let e = awaits-satisfy w x o status q r t p s found known in
      let same = ap (count x) (waiting_other t p after.wait_requests s.effects s) in
      let before = elsewhere t p other x in
      elim (Bool-cases ((w == x) && (o == p))) [
        | inl hit ↦
            let a : w ≡ x = let f = and-left (w == x) (o == p) hit in ground (arith, f) in
            let b : o ≡ p = let f = and-right (w == x) (o == p) hit in ground (arith, f) in
            let c : same_type type t ≡ false =
              and-false_left (same_type type t) (o == p) other (and-right (w == x) (o == p) hit) in
            let d : awaits x t p s ≡ false =
              ap (λ y. awaits y t p s) (sym a)
              ∙ ap (λ k. awaits w t k s) (sym b)
              ∙ ap (λ f. pending t (request_of o f)) found
              ∙ ap (pending t) asked
              ∙ other_type type t q c asks in
            let f : awaits x t p after ≡ false = e ∙ rw hit refl in
            same ∙ before ∙ ap one d ∙ sym (ap one f)
        | inr miss ↦
            let f : awaits x t p after ≡ awaits x t p s = e ∙ rw miss refl in
            same ∙ before ∙ sym (ap one f)
      ]

  -- A request after the round is a request before it, or the updated one.
  lookup-after :
      (x : ℕ) (u : WaitRequest)
      → lookup x after.wait_requests ≡ some u
      → ((w ≡ x) × (updated ≡ u)) ⊎ (((w == x) ≡ false) × (lookup x s.wait_requests ≡ some u))
  lookup-after x u e =
      let f = lookup-insert w x updated s.wait_requests in
      elim (Bool-cases (w == x)) [
        | inl hit ↦
            let same : some updated ≡ some u = sym (f ∙ rw hit refl) ∙ e in
            let a : w ≡ x = ground (arith, hit) in let b : updated ≡ u = cc in inl (a, b)
        | inr miss ↦ inr (miss, sym (f ∙ rw miss refl) ∙ e)
      ]

  after-Fresh : Fresh after
  after-Fresh x late =
      let (done, split, long, todo, few, elsewhere, undone, fresh, only, fewer, safe) = h in
      let none_there = fresh x late in
      let f = lookup-insert w x updated s.wait_requests in
      elim (Bool-cases (w == x)) [
        | inl hit ↦
            let a : w ≡ x = ground (arith, hit) in
            let b : some r ≡ none = sym found ∙ ap (λ y. lookup y s.wait_requests) a ∙ none_there in
            absurd cc
        | inr miss ↦ f ∙ rw miss none_there
      ]

  pub after-Safe : Safe strict env after
  after-Safe e =
      let (done, split, long, todo, few, elsewhere, undone, fresh, only, fewer, safe) = h in
      let (served, sends) = safe e in
      (
        (λ x u there. elim (lookup-after x u there) [
          | inl (same, new) ↦
              let (connected, whole) = served w r found in
              let e = length-insert o q (record q { status = status }) r.object_requests asked in
              subst (CanReply after) new
                (connected, ap (λ n. leb r.num_object_requests n) e ∙ whole)
          | inr (miss, old) ↦ served x u old
        ]),
        sends,
      )

  after-Fewer : Fewer origin after
  after-Fewer x t p never =
      let (done, split, long, todo, few, elsewhere, undone, fresh, only, fewer, safe) = h in
      awaits-satisfy w x o status q r t p s found known
      ∙ still_false ((w == x) && (o == p)) (awaits x t p s) (fewer x t p never)

  -- The wait request stays.
  pub kept-InLoop : is_done updated ≡ false → InLoop strict env origin type o (index + 1) rest after
  kept-InLoop undone_yet =
      let (done, split, long, todo, few, elsewhere, undone, fresh, only, fewer, safe) = h in
      let was : is_nonexistent q.status ≡ true = and-right _ _ asks in
      (
        done ++ w ∷ [],
        waiting_other type o after.wait_requests s.effects s
            ∙ split
            ∙ sym (append_assoc done (w ∷ []) rest),
        (let e = length-append done (w ∷ []) in omega (arith, e, long)),
        rest-counts,
        (λ x. let e = count-append x done (w ∷ []) in let f = few x in omega (arith, e, f)),
        after-Elsewhere,
        (λ x u there. elim (lookup-after x u there) [
          | inl (same, new) ↦
              subst IsUndone new
                (satisfy-IsUndone o status q r asked was known (undone w r found) undone_yet)
          | inr (miss, old) ↦ undone x u old
        ]),
        after-Fresh,
        ap {A = PlasmaManagerState} {B = PlasmaManagerState}
            (λ v. record v { wait_requests = after.wait_requests }) only,
        after-Fewer,
        after-Safe,
      )

  split-after :
      (done : List ℕ)
      → waiting type o s ≡ done ++ w ∷ rest
      → waiting type o after ≡ done ++ w ∷ rest
  split-after done split = waiting_other type o after.wait_requests s.effects s ∙ split

  pub after-few : (t : QueryType) (p : ℕ) → count w (waiting t p after) ≤ 1
  after-few t p =
      let (done, split, long, todo, few, elsewhere, undone, fresh, only, fewer, safe) = h in
      elim (Bool-cases (same_type type t && (o == p))) [
        | inl hit ↦
            let e = waiting_same type t o p after hit in
            let f = ap (count w) (sym e ∙ split-after done split) in
            let g = count-append w done (w ∷ rest) in let i = few w in omega (arith, f, g, i)
        | inr other ↦
            let e = after-Elsewhere t p other w in
            let f = one_le (awaits w t p after) in omega (arith, e, f)
      ]

  -- The wait request returns: it leaves the vector of the object that came.
  waiting-Returned :
      (t : PlasmaManagerState)
      → Returned w updated after t
      → (done : List ℕ) → waiting type o s ≡ done ++ w ∷ rest
      → count w done ≡ 0
      → waiting type o t ≡ done ++ rest
  waiting-Returned t (only_waits, left, vectors) done split absent =
      let new = record q { status = status } in
      let asked_after : lookup o updated.object_requests ≡ some new =
        lookup-insert o o new r.object_requests
        ∙ ap (λ b. if b then some new else lookup o r.object_requests) (==_refl o) in
      let touched : touches type o updated.object_requests ≡ true =
        ap (λ k. touches k o updated.object_requests)
          (same_type-eq type q.type
            (and-left (same_type type q.type) (is_nonexistent q.status) asks))
        ∙ touches-lookup o updated.object_requests new asked_after in
      vectors type o
      ∙ ap (λ b. if b then remove w (waiting type o after) else waiting type o after) touched
      ∙ ap (remove w) (split-after done split)
      ∙ remove-append w done rest absent

  rest-counts-Returned :
      (t : PlasmaManagerState)
      → Returned w updated after t
      → count w rest ≡ 0
      → (x : ℕ) → count x rest ≡ one (awaits x type o t)
  rest-counts-Returned t returned none_left x =
      let e = awaits-Returned w x updated type o after t returned in
      elim (Bool-cases (w == x)) [
        | inl hit ↦
            let same : w ≡ x = ground (arith, hit) in
            let f : awaits x type o t ≡ false = e ∙ rw hit refl in
            ap (λ y. count y rest) (sym same) ∙ none_left ∙ sym (ap one f)
        | inr miss ↦
            let f : awaits x type o t ≡ awaits x type o after = e ∙ rw miss refl in
            rest-counts x ∙ sym (ap one f)
      ]

  Undone-Returned : (t : PlasmaManagerState) → Returned w updated after t → Undone s → Undone t
  Undone-Returned t returned undone x u there =
      let (miss, old) = lookup-Returned w x updated after t u returned there in
      elim (lookup-after x u old) [
        | inl (same, new_one) ↦
            let e : (w == x) ≡ true = ground (arith, same) in
            let f : true ≡ false = sym e ∙ miss in absurd cc
        | inr (miss_too, older) ↦ undone x u older
      ]

  pub Returned-InLoop :
      (t : PlasmaManagerState)
      → Returned w updated after t
      → InLoop strict env origin type o index rest t
  Returned-InLoop t returned =
      let (done, split, long, todo, few, elsewhere, undone, fresh, only, fewer, safe) = h in
      let (only_waits, left, vectors) = returned in
      let few_w = few w in
      let self : one (w == w) ≡ 1 = ap one (==_refl w) in
      (
        done,
        waiting-Returned t returned done split (omega (arith, few_w, self)),
        long,
        rest-counts-Returned t returned (omega (arith, few_w, self)),
        (λ x. let e = few x in omega (arith, e)),
        (λ k p other x.
            Returned-counts w x updated k p after t found_updated returned
              (after-Elsewhere k p other)),
        Undone-Returned t returned undone,
        Returned-Fresh w updated after t returned after-Fresh,
        WaitsOnly-trans origin after t
            (ap {A = PlasmaManagerState} {B = PlasmaManagerState}
              (λ v. record v { wait_requests = after.wait_requests }) only)
            only_waits,
        (λ x k p never.
            awaits-Returned w x updated k p after t returned
            ∙ still_false (w == x) (awaits x k p after) (after-Fewer x k p never)),
        (λ e.
            let (served, sends) = after-Safe e in
            (Returned-Served w updated after t returned served, sends)),
      )
