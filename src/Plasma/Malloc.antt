-- ===== src/Plasma/Malloc.antt =====
-- The mapping from a pointer to the memory-mapped file that holds it: src/plasma/malloc.c.
use ray.Common.{ℕ, ◌+◌, ◌-◌, ◌&&◌, Option, none, some, List, [], ◌∷◌, leb, ltb, if◌then◌else◌}

pub record MmapRecord : Type 0 where
  pub fd : ℕ
  pub pointer : ℕ
  pub size : ℕ

pub record MapInfo : Type 0 where
  pub fd : ℕ
  pub map_size : ℕ
  pub offset : ℕ

-- `none` stands for the file descriptor -1.
unfoldable pub get_malloc_mapinfo : List MmapRecord → ℕ → Option MapInfo
get_malloc_mapinfo [] addr = none
get_malloc_mapinfo (r ∷ records_by_fd) addr =
    if leb r.pointer addr && ltb addr (r.pointer + r.size)
    then some (record { fd = r.fd; map_size = r.size; offset = addr - r.pointer })
    else get_malloc_mapinfo records_by_fd addr
