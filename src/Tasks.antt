-- ===== src/Tasks.antt =====
-- Identifiers, resources, task specifications and tasks: src/common/common.cc, src/common/task.h and
-- src/common/format/common.fbs. IDs are numbers; resource quantities are whole numbers of a unit.
use ray.Common.{ℕ, ◌-◌, ◌^◌, Bool, true, false, List, [], ◌∷◌, if◌then◌else◌, ◌==◌}

-- The bytes of NIL_ID are all 255.
abbrev pub nil_id : ℕ
nil_id = 2 ^ 160 - 1

-- A vector of ResourceIndex_MAX quantities.
pub record Resources : Type 0 where
  pub cpu : ℕ
  pub gpu : ℕ

-- An argument by reference, or a value in the specification.
pub data Arg : Type 0 where
  by_reference : (object_id : ℕ) → Arg
  by_value : Arg

-- `returns` are the IDs of the objects that the task returns.
pub record TaskSpec : Type 0 where
  pub driver_id : ℕ
  pub task_id : ℕ
  pub actor_id : ℕ
  pub actor_counter : ℕ
  pub args : List Arg
  pub returns : List ℕ
  pub required_resources : Resources

pub data TaskStatus : Type 0 where
  waiting scheduled queued running done lost reconstructing : TaskStatus

pub record Task : Type 0 where
  pub state : TaskStatus
  pub local_scheduler_id : ℕ
  pub spec : TaskSpec

-- The loop of TaskSpec_is_dependent_on over the arguments.
unfoldable pub is_dependent_on : (object_id : ℕ) → List Arg → Bool
is_dependent_on object_id [] = false
is_dependent_on object_id (by_reference arg_id ∷ args) =
    if arg_id == object_id then true else is_dependent_on object_id args
is_dependent_on object_id (by_value ∷ args) = is_dependent_on object_id args
