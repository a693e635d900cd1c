-- ===== src/Plasma/Eviction/Space.antt =====
-- What EvictionState_require_space promises to the store.
use ray.Common.{
  ℕ, ◌/◌, max, ◌≡◌, refl, ap, ◌∙◌, inl, inr, Bool, true, false, List, [], ◌++◌, Result, ok,
  if◌then◌else◌, All, Bool-cases,
}
use ray.Common.Int.{
  pos, ◌+ℤ◌, ◌-ℤ◌, ◌≤ℤ◌, leb_ℤ, ltb_ℤ, int_laws, le_of_leb_ℤ, not-le_of_leb_ℤ, le_of_ltb_ℤ,
  not-le_of_ltb_ℤ, leb_ℤ_of_le,
}
use ray.Plasma.Types.{ObjectTable}
use ray.Plasma.Eviction.{EvictionState, require_space, reserve_space}
use ray.Plasma.Eviction.Cache.{lru, IsWellFormed}
use ray.Plasma.Eviction.Choose.{total_size, IsKnown, Chosen, choose_objects_to_evict-Chooses}

pub record Reserved (objects : ObjectTable) (capacity size : ℕ) (s s' : EvictionState)
    (success : Bool) (chosen : List ℕ) : Type 0 where
  pub well_formed : IsWellFormed s'
  pub split : lru s ≡ chosen ++ lru s'
  -- The accounts lose the bytes of the chosen objects and gain those of the new one.
  pub accounted :
      s'.memory_used
      ≡ s.memory_used -ℤ pos (total_size objects chosen) +ℤ pos (if success then size else 0)
  pub within : s'.memory_used ≤ℤ pos capacity
  pub untouched : s.memory_used +ℤ pos size ≤ℤ pos capacity → (success ≡ true) × (chosen ≡ [])
  pub exhausted : success ≡ false → lru s' ≡ []

abbrev pub Reserves :
    ObjectTable
    → (capacity size : ℕ) → EvictionState
    → Result (EvictionState × Bool × List ℕ)
    → Type 0
Reserves objects capacity size s r =
    (s' : EvictionState) × (success : Bool) × (chosen : List ℕ) × (r ≡ ok (s', success, chosen))
    × Reserved objects capacity size s s' success chosen

Reserved-untouched :
    (objects : ObjectTable) (capacity size : ℕ) (s : EvictionState)
    → IsWellFormed s
    → s.memory_used +ℤ pos size ≤ℤ pos capacity
    → Reserved objects capacity size s
        (record s { memory_used = s.memory_used +ℤ pos size })
        true
        []
Reserved-untouched objects capacity size s w h = record {
  well_formed = record {
    mirrored = w.mirrored;
    distinct = w.distinct;
    apart = w.apart;
    below = w.below;
  };
  split = refl;
  accounted = omega int_laws;
  within = h;
  untouched = λ _. (refl, refl);
  exhausted = λ e. cc;
}

module _ (objects : ObjectTable) (capacity size : ℕ) (s t : EvictionState) (b : ℕ) (chosen : List ℕ)
    (within : s.memory_used ≤ℤ pos capacity) (short : ¬ (s.memory_used +ℤ pos size ≤ℤ pos capacity))
    (c : Chosen objects (pos (max size (capacity / 5))) s t b chosen) where
  Reserved-enough :
      s.memory_used +ℤ pos size -ℤ pos capacity ≤ℤ pos b
      → Reserved objects capacity size s
          (record t { memory_used = t.memory_used +ℤ pos size })
          true
          chosen
  Reserved-enough h =
      let w = c.well_formed in
      record {
        well_formed = record {
          mirrored = w.mirrored;
          distinct = w.distinct;
          apart = w.apart;
          below = w.below;
        };
        split = c.split;
        accounted =
            ap (λ u. u +ℤ pos size) (c.accounted ∙ ap (λ u. s.memory_used -ℤ pos u) c.bytes);
        within = rw c.accounted (omega int_laws);
        untouched = λ fits. absurd (short fits);
        exhausted = λ e. cc;
      }

  Reserved-too_few :
      ¬ (s.memory_used +ℤ pos size -ℤ pos capacity ≤ℤ pos b)
      → Reserved objects capacity size s t false chosen
  Reserved-too_few h = record {
    well_formed = c.well_formed;
    split = c.split;
    accounted = rw (c.accounted, c.bytes) (omega int_laws);
    within = rw c.accounted (omega int_laws);
    untouched = λ fits. absurd (short fits);
    exhausted = λ _. elim c.enough [ inl freed ↦ absurd (omega int_laws) | inr e ↦ e ];
  }

-- In a cache of known objects, with accounts within the capacity, a request for space never aborts
-- and leaves the accounts exact and within the capacity. It evicts nothing if the object fits,
-- takes what it evicts from the front of the queue, and fails only if it has emptied the queue.
pub require_space-Reserves :
    (objects : ObjectTable) (capacity size : ℕ) (s : EvictionState)
    → IsWellFormed s
    → All (IsKnown objects) (lru s)
    → s.memory_used ≤ℤ pos capacity
    → Reserves objects capacity size s (require_space objects capacity size s)
unfolding require_space reserve_space
require_space-Reserves objects capacity size s w known within =
    let required = s.memory_used +ℤ pos size -ℤ pos capacity in
    elim (Bool-cases (ltb_ℤ (pos 0) required)) [
      | inl t ↦
          let short : ¬ (s.memory_used +ℤ pos size ≤ℤ pos capacity) =
            λ fits. let n = not-le_of_ltb_ℤ (pos 0) required t in omega (int_laws, n) in
          let (u, b, chosen, ran, c) =
            choose_objects_to_evict-Chooses objects (pos (max size (capacity / 5))) s w known in
          elim (Bool-cases (leb_ℤ required (pos b))) [
            | inl e ↦ (
              _,
              true,
              chosen,
              rw (t, ran, e),
              Reserved-enough objects capacity size s u b chosen within short c
                  (le_of_leb_ℤ required (pos b) e),
            )
            | inr e ↦ (
              _,
              false,
              chosen,
              rw (t, ran, e),
              Reserved-too_few objects capacity size s u b chosen within short c
                  (not-le_of_leb_ℤ required (pos b) e),
            )
          ]
      | inr t ↦ (
        _,
        true,
        [],
        rw t (rw (leb_ℤ_of_le required (pos 0) (le_of_ltb_ℤ (pos 0) required t))),
        Reserved-untouched objects capacity size s w
            (omega (int_laws, le_of_ltb_ℤ (pos 0) required t)),
      )
    ]
