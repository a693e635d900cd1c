-- ===== src/Plasma/Types.antt =====
-- The types that the store shares with the eviction policy: src/plasma/plasma.h.
-- An identifier is a number. Sizes that a client sends are taken to be nonnegative.
use ray.Common.{ℕ, ◌+◌, Bool, Option, List}
use ray.Common.Int.{ℤ}
use ray.Common.Maps.{lookup}

-- ObjectInfoT, the record that the generated code of common.fbs gives. `digest` holds its bytes.
pub record ObjectInfo : Type 0 where
  pub object_id : ℕ
  pub data_size : ℕ
  pub metadata_size : ℕ
  pub digest : List ℕ
  pub is_deletion : Bool

pub data ObjectState : Type 0 where
  created sealed : ObjectState

-- A client is named by the address of its Client object.
pub record ObjectTableEntry : Type 0 where
  pub object_id : ℕ
  pub info : ObjectInfo
  pub fd : ℕ
  pub map_size : ℕ
  pub offset : ℕ
  pub pointer : ℕ
  pub clients : List ℕ
  pub state : ObjectState

pub record ObjectHandle : Type 0 where
  pub store_fd : ℕ
  pub mmap_size : ℕ

-- A `data_size` of -1 says that the object is not present.
pub record PlasmaObject : Type 0 where
  pub handle : ObjectHandle
  pub data_offset : ℕ
  pub metadata_offset : ℕ
  pub data_size : ℤ
  pub metadata_size : ℤ

-- The hash table from object IDs to entries.
abbrev pub ObjectTable : Type 0
ObjectTable = List (ℕ × ObjectTableEntry)

-- get_object_table_entry: a null pointer is `none`.
abbrev pub get_object_table_entry : ObjectTable → ℕ → Option ObjectTableEntry
get_object_table_entry objects object_id = lookup object_id objects

abbrev pub entry_size : ObjectTableEntry → ℕ
entry_size e = e.info.data_size + e.info.metadata_size
