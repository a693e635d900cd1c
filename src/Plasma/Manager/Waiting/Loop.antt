-- ===== src/Plasma/Manager/Waiting/Loop.antt =====
-- What holds between two rounds of the loop over the wait requests of an object that comes
-- (update_object_wait_requests in src/plasma/plasma_manager.cc).
use ray.Common.{
  ℕ, ◌+◌, ◌≤◌, ◌≡◌, refl, sym, ap, ◌∙◌, Bool, true, false, ◌&&◌, some, List, ◌∷◌, ◌++◌, length,
  arith, if◌then◌else◌, ◌==◌, ==_refl, count, one, inl, inr, Bool-cases,
}
use ray.Plasma.Manager.State.{QueryType, ObjectRequest, PlasmaManagerState, Env}
use ray.Plasma.Manager.Waits.{waiting}
use ray.Plasma.Manager.Waiting.{same_type, pending, awaits, Undone, Fresh, WaitsOnly}
use ray.Plasma.Manager.Waiting.Returns.{Safe}
use ray.Plasma.Manager.Waiting.Steps.{same_type-eq, and-left}

-- Every vector but one holds the wait requests that wait for its object.
abbrev pub Elsewhere : QueryType → (o : ℕ) → PlasmaManagerState → Type 0
Elsewhere type o s =
    (t : QueryType) (p : ℕ)
    → (same_type type t && (o == p)) ≡ false
    → (x : ℕ) → count x (waiting t p s) ≡ one (awaits x t p s)

-- Nobody waits that did not wait.
abbrev pub Fewer : PlasmaManagerState → PlasmaManagerState → Type 0
Fewer s t =
    (x : ℕ) (type : QueryType) (o : ℕ) → awaits x type o s ≡ false → awaits x type o t ≡ false

-- Between two rounds: `todo` holds those of the vector that still wait.
abbrev pub InLoop :
    (strict : Bool)
    → Env
    → (origin : PlasmaManagerState) → QueryType
    → (o index : ℕ) → (todo : List ℕ) → PlasmaManagerState
    → Type 0
InLoop strict env origin type o index todo s =
    (done : List ℕ) × (waiting type o s ≡ done ++ todo)
    × (length done ≡ index)
    × ((x : ℕ) → count x todo ≡ one (awaits x type o s))
    × ((x : ℕ) → count x done + count x todo ≤ 1)
    × Elsewhere type o s
    × Undone s
    × Fresh s
    × WaitsOnly origin s
    × Fewer origin s
    × Safe strict env s

pub waits_of_count : (w : ℕ) (ws : List ℕ) (b : Bool) → count w (w ∷ ws) ≡ one b → b ≡ true
waits_of_count w ws true h = refl
waits_of_count w ws false h = let e = ap one (==_refl w) in absurd (omega (arith, e, h))

pub still_false : (b c : Bool) → c ≡ false → (if b then false else c) ≡ false
still_false true c h = refl
still_false false c h = h

pub other_type :
    (type t : QueryType) (q : ObjectRequest)
    → same_type type t ≡ false
    → pending type (some q) ≡ true
    → pending t (some q) ≡ false
other_type type t q other asks = elim (Bool-cases (pending t (some q))) [
  | inl e ↦
      let a = same_type-eq type q.type (and-left _ _ asks) in
      let b = same_type-eq t q.type (and-left _ _ e) in
      let c : same_type type q.type ≡ false = ap (same_type type) (sym b) ∙ other in
      let d : true ≡ false = sym (and-left _ _ asks) ∙ c in absurd cc
  | inr e ↦ e
]

pub and-false_left : (a b : Bool) → (a && b) ≡ false → b ≡ true → a ≡ false
and-false_left true b h e = let f : true ≡ false = sym e ∙ h in absurd cc
and-false_left false b h e = refl
