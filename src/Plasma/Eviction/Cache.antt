-- ===== src/Plasma/Eviction/Cache.antt =====
-- The linked list and the hash table of the eviction policy, as one queue of object IDs.
use ray.Common.{
  ℕ, ◌+◌, ◌<◌, ◌≡◌, refl, ap, ◌∙◌, true, false, inl, inr, none, some, List, [], ◌∷◌, ◌++◌, map,
  Result, ok, fatal, if◌then◌else◌, ◌==◌, arith, All, contains, remove, Distinct, snoc-Distinct,
  remove-Distinct, Bool-cases,
}
use ray.Common.Maps.{lookup, insert, erase, has_key}
use ray.Common.Int.{ℤ}
use ray.Plasma.Eviction.{
  ReleasedObject, EvictionState, EvictionState_init, add_object_to_lru_cache, delete_node,
  remove_object_from_lru_cache,
}

abbrev pub ids : List ReleasedObject → List ℕ
ids = map λ n. n.object_id

abbrev addresses : List ReleasedObject → List ℕ
addresses = map λ n. n.address

abbrev entries : List ReleasedObject → List (ℕ × ℕ)
entries = map λ n. (n.object_id, n.address)

-- The objects that can be evicted, the least recently released first.
abbrev pub lru : EvictionState → List ℕ
lru s = ids s.released_objects

-- The table leads from each object of the list to its node and has no other entry, no object
-- stands in the list twice, and the next node gets an address of its own.
pub record IsWellFormed (s : EvictionState) : Type 0 where
  pub mirrored : s.released_object_table ≡ entries s.released_objects
  pub distinct : Distinct (lru s)
  pub apart : Distinct (addresses s.released_objects)
  pub below : All (λ n. n.address < s.next_address) s.released_objects

has_key-entries : (k : ℕ) (l : List ReleasedObject) → has_key k (entries l) ≡ contains k (ids l)
unfolding has_key contains
has_key-entries k [] = refl
has_key-entries k (n ∷ l) = ground (arith, has_key-entries k l)

insert-entries :
    (k a : ℕ) (l : List ReleasedObject)
    → contains k (ids l) ≡ false
    → insert k a (entries l) ≡ entries (l ++ record { object_id = k; address = a } ∷ [])
unfolding insert contains
insert-entries k a [] h = refl
insert-entries k a (n ∷ l) h = ground (arith, insert-entries k a l)

ids_snoc :
    (n : ReleasedObject) (l : List ReleasedObject) → ids (l ++ n ∷ []) ≡ ids l ++ n.object_id ∷ []
ids_snoc n [] = refl
ids_snoc n (m ∷ l) = ap (λ t. m.object_id ∷ t) (ids_snoc n l)

addresses_snoc :
    (n : ReleasedObject) (l : List ReleasedObject)
    → addresses (l ++ n ∷ []) ≡ addresses l ++ n.address ∷ []
addresses_snoc n [] = refl
addresses_snoc n (m ∷ l) = ap (λ t. m.address ∷ t) (addresses_snoc n l)

fresh_address :
    (a : ℕ) (l : List ReleasedObject)
    → All (λ n. n.address < a) l
    → contains a (addresses l) ≡ false
unfolding contains
fresh_address a [] h = refl
fresh_address a (n ∷ l) h = ground (arith, fresh_address a l h.1)

below_snoc :
    (a : ℕ) (n : ReleasedObject) (l : List ReleasedObject)
    → n.address < a + 1
    → All (λ m. m.address < a) l
    → All (λ m. m.address < a + 1) (l ++ n ∷ [])
below_snoc a n [] h b = (h, tt)
below_snoc a n (m ∷ l) h b = (omega arith, below_snoc a n l h b.1)

pub EvictionState_init-IsWellFormed : IsWellFormed EvictionState_init
unfolding EvictionState_init
EvictionState_init-IsWellFormed = record { mirrored = refl; distinct = tt; apart = tt; below = tt }

-- What the two operations do to the queue.
pub data Queues (l : List ℕ) (m : ℤ) : Result EvictionState → Type 0 where
  queues : (s : EvictionState) → IsWellFormed s → lru s ≡ l → s.memory_used ≡ m → Queues l m (ok s)

module _ (s : EvictionState) (w : IsWellFormed s) (k : ℕ) where
  -- In a well-formed cache, an object that is not in the queue is added at its end; the cache stays
  -- well-formed and the accounts stay.
  pub add_object_to_lru_cache-Queues :
      contains k (lru s) ≡ false
      → Queues (lru s ++ k ∷ []) s.memory_used (add_object_to_lru_cache s k)
  unfolding add_object_to_lru_cache
  add_object_to_lru_cache-Queues h =
      let l = s.released_objects in
      let n : ReleasedObject = record { object_id = k; address = s.next_address } in
      let absent : has_key k s.released_object_table ≡ false =
        rw w.mirrored (has_key-entries k l ∙ h) in
      rw absent (
        queues _
          (record {
            mirrored = rw w.mirrored (insert-entries k s.next_address l h);
            distinct = rw (ids_snoc n l) (snoc-Distinct k (ids l) h w.distinct);
            apart = rw (addresses_snoc n l) (
                snoc-Distinct s.next_address (addresses l) (fresh_address s.next_address l w.below)
                  w.apart);
            below = below_snoc s.next_address n l (omega arith) w.below;
          })
          (ids_snoc n l) refl)

  -- An object that is in the cache already aborts the store.
  pub add_object_to_lru_cache_present :
      contains k (lru s) ≡ true → add_object_to_lru_cache s k ≡ fatal
  unfolding add_object_to_lru_cache
  add_object_to_lru_cache_present h =
      let present : has_key k s.released_object_table ≡ true =
        rw w.mirrored (has_key-entries k s.released_objects ∙ h) in
      rw present

delete_object_node : ℕ → List ReleasedObject → List ReleasedObject
delete_object_node k [] = []
delete_object_node k (n ∷ l) = if n.object_id == k then l else n ∷ delete_object_node k l

ids-delete_object_node :
    (k : ℕ) (l : List ReleasedObject) → ids (delete_object_node k l) ≡ remove k (ids l)
unfolding delete_object_node remove
ids-delete_object_node k [] = refl
ids-delete_object_node k (n ∷ l) = ground (arith, ids-delete_object_node k l)

erase-entries_absent :
    (k : ℕ) (l : List ReleasedObject) → contains k (ids l) ≡ false → erase k (entries l) ≡ entries l
unfolding erase contains
erase-entries_absent k [] h = refl
erase-entries_absent k (n ∷ l) h = ground (arith, erase-entries_absent k l)

erase-entries :
    (k : ℕ) (l : List ReleasedObject)
    → Distinct (ids l)
    → erase k (entries l) ≡ entries (delete_object_node k l)
unfolding erase delete_object_node
erase-entries k [] d = refl
erase-entries k (n ∷ l) d = ground (arith, erase-entries k l d.1, erase-entries_absent k l)

lookup-contains :
    (k a : ℕ) (l : List ReleasedObject)
    → lookup k (entries l) ≡ some a
    → contains a (addresses l) ≡ true
unfolding lookup contains
lookup-contains k a [] h = cc
lookup-contains k a (n ∷ l) h = ground (arith, lookup-contains k a l)

delete_node-delete_object_node :
    (k a : ℕ) (l : List ReleasedObject)
    → lookup k (entries l) ≡ some a
    → Distinct (addresses l)
    → delete_node a l ≡ delete_object_node k l
unfolding lookup delete_node delete_object_node
delete_node-delete_object_node k a [] h d = refl
delete_node-delete_object_node k a (n ∷ l) h d =
    ground (arith, delete_node-delete_object_node k a l, lookup-contains k a l)

addresses-delete_node :
    (a : ℕ) (l : List ReleasedObject) → addresses (delete_node a l) ≡ remove a (addresses l)
unfolding delete_node remove
addresses-delete_node a [] = refl
addresses-delete_node a (n ∷ l) = ground (arith, addresses-delete_node a l)

below-delete_node :
    (b a : ℕ) (l : List ReleasedObject)
    → All (λ m. m.address < b) l
    → All (λ m. m.address < b) (delete_node a l)
unfolding delete_node
below-delete_node b a [] h = tt
below-delete_node b a (n ∷ l) h = ground (arith, below-delete_node b a l h.1)

lookup-entries :
    (k : ℕ) (l : List ReleasedObject)
    → contains k (ids l) ≡ true
    → (a : ℕ) × (lookup k (entries l) ≡ some a)
unfolding lookup contains
lookup-entries k [] h = cc
lookup-entries k (n ∷ l) h = elim (Bool-cases (n.object_id == k)) [
  | inl e ↦ (n.address, rw e)
  | inr e ↦ let (a, found) = lookup-entries k l (rw e at h) in (a, rw e found)
]

lookup-entries_absent :
    (k : ℕ) (l : List ReleasedObject) → contains k (ids l) ≡ false → lookup k (entries l) ≡ none
unfolding lookup contains
lookup-entries_absent k [] h = refl
lookup-entries_absent k (n ∷ l) h = ground (arith, lookup-entries_absent k l)

module _ (s : EvictionState) (w : IsWellFormed s) (k : ℕ) where
  -- In a well-formed cache, an object of the queue is removed, whatever node the table leads to, and no
  -- other object; the cache stays well-formed and the accounts stay.
  pub remove_object_from_lru_cache-Queues :
      contains k (lru s) ≡ true
      → Queues (remove k (lru s)) s.memory_used (remove_object_from_lru_cache s k)
  unfolding remove_object_from_lru_cache
  remove_object_from_lru_cache-Queues h =
      let l = s.released_objects in
      let (a, found) = lookup-entries k l h in
      let there : lookup k s.released_object_table ≡ some a = rw w.mirrored found in
      let same = delete_node-delete_object_node k a l found w.apart in
      let listed : ids (delete_node a l) ≡ remove k (ids l) =
        rw same (ids-delete_object_node k l) in
      rw (there, remove_object_from_lru_cache)
        (queues _
          (record {
            mirrored = rw (w.mirrored, same) (erase-entries k l w.distinct);
            distinct = rw listed (remove-Distinct k (ids l) w.distinct);
            apart = rw (addresses-delete_node a l) (remove-Distinct a (addresses l) w.apart);
            below = below-delete_node s.next_address a l w.below;
          })
          listed refl)

  -- An object that is not in the cache aborts the store.
  pub remove_object_from_lru_cache_absent :
      contains k (lru s) ≡ false → remove_object_from_lru_cache s k ≡ fatal
  unfolding remove_object_from_lru_cache
  remove_object_from_lru_cache_absent h =
      let there : lookup k s.released_object_table ≡ none =
        rw w.mirrored (lookup-entries_absent k s.released_objects h) in
      rw (there, remove_object_from_lru_cache)

pub Queues-ok :
    {l : List ℕ} {m : ℤ} {r : Result EvictionState}
    → Queues l m r
    → (s : EvictionState) × (r ≡ ok s) × IsWellFormed s × (lru s ≡ l) × (s.memory_used ≡ m)
Queues-ok (queues s w e f) = (s, refl, w, e, f)
