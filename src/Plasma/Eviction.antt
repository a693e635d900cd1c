-- ===== src/Plasma/Eviction.antt =====
-- The eviction policy: src/plasma/eviction_policy.cc.
-- Released objects stand in a doubly-linked list, the least recently released first, and a hash
-- table leads from an object to its list node. A node is named by its address; malloc hands out
-- `next_address`. int64_t sums are taken not to overflow, which C++ leaves undefined.
pub mod Cache
pub mod Choose
pub mod Space
use ray.Common.{
  ℕ, ◌+◌, ◌/◌, max, Bool, true, false, not, Option, none, some, List, [], ◌∷◌, ◌++◌, Result, ok,
  fatal, ◌>>=◌, ◌>>◌, check, if◌then◌else◌, ◌==◌,
}
use ray.Common.Maps.{lookup, insert, erase, has_key}
use ray.Common.Int.{ℤ, pos, ◌+ℤ◌, ◌-ℤ◌, ltb_ℤ, leb_ℤ}
use ray.Plasma.Types.{ObjectTable, get_object_table_entry, entry_size}

pub record ReleasedObject : Type 0 where
  pub object_id : ℕ
  pub address : ℕ

pub record EvictionState : Type 0 where
  pub memory_used : ℤ
  pub released_objects : List ReleasedObject
  pub released_object_table : List (ℕ × ℕ)
  pub next_address : ℕ

unfoldable pub EvictionState_init : EvictionState
EvictionState_init = record {
  memory_used = pos 0;
  released_objects = [];
  released_object_table = [];
  next_address = 0;
}

unfoldable pub add_object_to_lru_cache : EvictionState → ℕ → Result EvictionState
add_object_to_lru_cache s object_id =
    let node : ReleasedObject = record { object_id = object_id; address = s.next_address } in
    check (not (has_key object_id s.released_object_table))
    >> ok (record s {
      released_objects = s.released_objects ++ node ∷ [];
      released_object_table = insert object_id s.next_address s.released_object_table;
      next_address = s.next_address + 1;
    })

-- DL_DELETE of the node at an address.
unfoldable pub delete_node : ℕ → List ReleasedObject → List ReleasedObject
delete_node a [] = []
delete_node a (n ∷ ns) = if n.address == a then ns else n ∷ delete_node a ns

unfoldable pub remove_object_from_lru_cache : EvictionState → ℕ → Result EvictionState
remove_object_from_lru_cache s object_id = elim (lookup object_id s.released_object_table) [
  | none ↦ fatal
  | some a ↦ ok (record s {
    released_objects = delete_node a s.released_objects;
    released_object_table = erase object_id s.released_object_table;
  })
]

-- The first loop of EvictionState_choose_objects_to_evict: the number of objects to evict and
-- their bytes. An object that is not in the table is a null pointer there.
unfoldable pub count_to_evict : ObjectTable → ℤ → List ReleasedObject → ℕ → ℕ → Result (ℕ × ℕ)
count_to_evict objects required [] num_objects num_bytes = ok (num_objects, num_bytes)
count_to_evict objects required (n ∷ ns) num_objects num_bytes =
    if leb_ℤ required (pos num_bytes)
    then ok (num_objects, num_bytes)
    else elim (get_object_table_entry objects n.object_id) [
      | none ↦ fatal
      | some e ↦ count_to_evict objects required ns (num_objects + 1) (num_bytes + entry_size e)
    ]

-- The second loop: takes the first `num_objects` released objects out of the cache.
unfoldable pub collect_to_evict :
    ℕ → List ReleasedObject → ℕ → List ℕ → EvictionState → Result (EvictionState × List ℕ)
collect_to_evict num_objects [] counter out s = ok (s, out)
collect_to_evict num_objects (n ∷ ns) counter out s =
    if counter == num_objects
    then ok (s, out)
    else remove_object_from_lru_cache s n.object_id
      >>= collect_to_evict num_objects ns (counter + 1) (out ++ n.object_id ∷ [])

-- The new state, the bytes of the chosen objects and the objects.
unfoldable pub choose_objects_to_evict :
    ObjectTable → ℤ → EvictionState → Result (EvictionState × ℕ × List ℕ)
choose_objects_to_evict objects required s = do
  (num_objects, num_bytes) ← count_to_evict objects required s.released_objects 0 0
  (s', chosen) ←
      if num_objects == 0
      then ok (s, [])
      else collect_to_evict num_objects s.released_objects 0 [] s
  ok (record s' { memory_used = s'.memory_used -ℤ pos num_bytes }, num_bytes, chosen)

unfoldable pub object_created : EvictionState → ℕ → Result EvictionState
unfolding add_object_to_lru_cache
object_created s object_id = add_object_to_lru_cache s object_id

-- What EvictionState_require_space does once the objects to evict are chosen.
unfoldable pub reserve_space :
    ℤ → ℕ → EvictionState × ℕ × List ℕ → Result (EvictionState × Bool × List ℕ)
reserve_space required_space size (s, num_bytes_evicted, chosen) =
    if leb_ℤ required_space (pos num_bytes_evicted)
    then ok (record s { memory_used = s.memory_used +ℤ pos size }, true, chosen)
    else ok (s, false, chosen)

-- The new state, whether enough space could be freed, and the objects to evict.
unfoldable pub require_space :
    ObjectTable → (capacity size : ℕ) → EvictionState → Result (EvictionState × Bool × List ℕ)
require_space objects capacity size s =
    let required_space = s.memory_used +ℤ pos size -ℤ pos capacity in
    (if ltb_ℤ (pos 0) required_space
      then choose_objects_to_evict objects (pos (max size (capacity / 5))) s
      else ok (s, 0, []))
    >>= reserve_space required_space size

-- Both choose no object to evict.
unfoldable pub begin_object_access : EvictionState → ℕ → Result (EvictionState × List ℕ)
begin_object_access s object_id = do s' ← remove_object_from_lru_cache s object_id; ok (s', [])

unfoldable pub end_object_access : EvictionState → ℕ → Result (EvictionState × List ℕ)
end_object_access s object_id = do s' ← add_object_to_lru_cache s object_id; ok (s', [])
