-- ===== src/Plasma/Store/Invariant.antt =====
-- The invariant of the store: the eviction policy's queue holds exactly the objects that no client
-- uses. The children prove it of the operations.
pub mod Notices
pub mod Objects
pub mod Creation
pub mod Returns
pub mod Requests
pub mod Events
use ray.Common.{
  ℕ, ◌≡◌, Bool, true, false, Option, none, some, List, [], ◌∷◌, ◌++◌, contains, Distinct,
}
use ray.Common.Int.{pos, ◌≤ℤ◌}
use ray.Common.Maps.{lookup}
use ray.Plasma.Types.{ObjectTable, ObjectTableEntry}
use ray.Plasma.Eviction.{EvictionState}
use ray.Plasma.Eviction.Cache.{lru, IsWellFormed}
use ray.Plasma.Store.State.{PlasmaStoreState, GetRequest, is_empty}

-- Is there an object that no client uses?
abbrev pub is_idle : Option ObjectTableEntry → Bool
is_idle none = false
is_idle (some e) = is_empty e.clients

-- `chosen` are objects that the eviction policy has given up and that are still to be deleted.
pub record IsConsistent (chosen : List ℕ) (s : PlasmaStoreState) : Type 0 where
  pub queue : IsWellFormed s.eviction_state
  pub distinct : Distinct (chosen ++ lru s.eviction_state)
  pub idle : (k : ℕ) → contains k (chosen ++ lru s.eviction_state) ≡ is_idle (lookup k s.objects)
  pub named : (k : ℕ) (e : ObjectTableEntry) → lookup k s.objects ≡ some e → e.object_id ≡ k
  pub within : s.eviction_state.memory_used ≤ℤ pos s.memory_capacity

-- The parts of the state that notifications and replies leave alone.
pub record Core : Type 0 where
  pub objects : ObjectTable
  pub memory_capacity : ℕ
  pub eviction_state : EvictionState
  pub object_get_requests : List (ℕ × List ℕ)
  pub get_requests : List (ℕ × GetRequest)
  pub allocated : List ℕ

abbrev pub core : PlasmaStoreState → Core
core s = record {
  objects = s.objects;
  memory_capacity = s.memory_capacity;
  eviction_state = s.eviction_state;
  object_get_requests = s.object_get_requests;
  get_requests = s.get_requests;
  allocated = s.allocated;
}

abbrev pub Keeps : PlasmaStoreState → PlasmaStoreState → Type 0
Keeps s t = core t ≡ core s
