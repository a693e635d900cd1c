-- ===== src/GlobalScheduler/Sizes.antt =====
-- The table of object sizes that create_object_size_hashmap makes.
use ray.Common.{
  ℕ, ◌+◌, ◌≡◌, ◌∙◌, Bool, true, false, Option, none, some, List, [], ◌∷◌, inl, inr, if◌then◌else◌,
  ◌==◌, arith, Option-cases,
}
use ray.Common.Maps.{lookup, insert, lookup-insert}
use ray.Tasks.{TaskSpec, Arg, by_reference, by_value}
use ray.GlobalScheduler.State.{GlobalSchedulerState, SchedulerObjectInfo}
use ray.GlobalScheduler.Algorithm.{add_locations, size_loop, create_object_size_hashmap}

-- The bytes of a location, 0 if the table does not have it.
abbrev pub bytes_of : Option ℕ → ℕ
bytes_of none = 0
bytes_of (some n) = n

-- The size of an object, once for each time that it names the location.
abbrev at_location : (location size : ℕ) → List ℕ → ℕ
at_location location size [] = 0
at_location location size (l ∷ ls) =
    (if l == location then size else 0) + at_location location size ls

abbrev known_at : ℕ → Option SchedulerObjectInfo → ℕ
known_at location none = 0
known_at location (some o) = at_location location o.data_size o.object_locations

abbrev known_size : Option SchedulerObjectInfo → ℕ
known_size none = 0
known_size (some o) = o.data_size

-- What the known objects among the arguments take at a location, and altogether.
abbrev pub data_at : List (ℕ × SchedulerObjectInfo) → ℕ → List Arg → ℕ
data_at known location [] = 0
data_at known location (by_value ∷ args) = data_at known location args
data_at known location (by_reference object_id ∷ args) =
    known_at location (lookup object_id known) + data_at known location args

abbrev pub data_size : List (ℕ × SchedulerObjectInfo) → List Arg → ℕ
data_size known [] = 0
data_size known (by_value ∷ args) = data_size known args
data_size known (by_reference object_id ∷ args) =
    known_size (lookup object_id known) + data_size known args

add_locations-bytes_of :
    (location size : ℕ) (locations : List ℕ) (table : List (ℕ × ℕ))
    → bytes_of (lookup location (add_locations size locations table))
      ≡ bytes_of (lookup location table) + at_location location size locations
unfolding add_locations
add_locations-bytes_of location size [] table = omega arith
add_locations-bytes_of location size (l ∷ ls) table = elim (Option-cases (lookup l table)) [
  | inl e ↦
      let step = lookup-insert l location size table in
      rw e (add_locations-bytes_of location size ls (insert l size table) ∙ ground (arith, step, e))
  | inr (n, e) ↦
      let step = lookup-insert l location (n + size) table in
      rw e (
        add_locations-bytes_of location size ls (insert l (n + size) table)
        ∙ ground (arith, step, e))
]

size_loop-data_at :
    (known : List (ℕ × SchedulerObjectInfo)) (location : ℕ) (args : List Arg) (table : List (ℕ × ℕ))
    (has_args_by_ref : Bool) (size : ℕ)
    → (bytes_of (lookup location (size_loop known args (table, has_args_by_ref, size)).0)
        ≡ bytes_of (lookup location table) + data_at known location args)
      × ((size_loop known args (table, has_args_by_ref, size)).2 ≡ size + data_size known args)
unfolding size_loop
size_loop-data_at known location [] table has_args_by_ref size = (omega arith, omega arith)
size_loop-data_at known location (by_value ∷ args) table has_args_by_ref size =
    size_loop-data_at known location args table has_args_by_ref size
size_loop-data_at known location (by_reference object_id ∷ args) table has_args_by_ref size =
    elim (Option-cases (lookup object_id known)) [
      | inl e ↦
          let (a, b) = size_loop-data_at known location args table true size in
          rw (e, size_loop) (omega (arith, a), omega (arith, b))
      | inr (o, e) ↦
          let (a, b) =
            size_loop-data_at known location args
              (add_locations o.data_size o.object_locations table) true (size + o.data_size) in
          let c = add_locations-bytes_of location o.data_size o.object_locations table in
          rw (e, size_loop) (omega (arith, a, c), omega (arith, b))
    ]

-- Of any location, the table holds the bytes of the task's known arguments by reference, each once for
-- each time that it names the location; the size of the task's data is that of these arguments.
pub create_object_size_hashmap-data_at :
    (s : GlobalSchedulerState) (spec : TaskSpec) (location : ℕ)
    → (bytes_of (lookup location (create_object_size_hashmap s spec).0)
        ≡ data_at s.scheduler_object_info_table location spec.args)
      × ((create_object_size_hashmap s spec).2 ≡ data_size s.scheduler_object_info_table spec.args)
unfolding create_object_size_hashmap lookup
create_object_size_hashmap-data_at s spec location =
    let (a, b) = size_loop-data_at s.scheduler_object_info_table location spec.args [] false 0 in
    (omega (arith, a), omega (arith, b))
