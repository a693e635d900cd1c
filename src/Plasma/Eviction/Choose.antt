-- ===== src/Plasma/Eviction/Choose.antt =====
-- Which objects EvictionState_choose_objects_to_evict picks, and what it leaves behind.
use ray.Common.{
  ℕ, ◌+◌, ◌≡◌, refl, ap, ◌∙◌, sym, ◌⊎◌, inl, inr, true, false, none, some, List, [], ◌∷◌, ◌++◌,
  Result, ok, if◌then◌else◌, ◌==◌, arith, All, remove, suc, length, Bool-cases, append_assoc,
  append-nil,
}
use native.Mathlib.Nat.{zero-add}
use ray.Common.Int.{ℤ, pos, ◌-ℤ◌, ◌≤ℤ◌, leb_ℤ}
use ray.Plasma.Types.{ObjectTable, ObjectTableEntry, get_object_table_entry, entry_size}
use ray.Plasma.Eviction.{
  ReleasedObject, EvictionState, count_to_evict, collect_to_evict, choose_objects_to_evict,
}
use ray.Plasma.Eviction.Cache.{
  ids, lru, IsWellFormed, Queues-ok, remove_object_from_lru_cache-Queues,
}
use ray.Common.{contains}

-- The bytes of an object in the table.
abbrev pub size_of : ObjectTable → ℕ → ℕ
size_of objects x = elim (get_object_table_entry objects x) [ none ↦ 0 | some e ↦ entry_size e ]

abbrev pub total_size : ObjectTable → List ℕ → ℕ
total_size objects [] = 0
total_size objects (x ∷ xs) = size_of objects x + total_size objects xs

abbrev pub IsKnown : ObjectTable → ℕ → Type 0
IsKnown objects x = (e : ObjectTableEntry) × (get_object_table_entry objects x ≡ some e)

module _ (objects : ObjectTable) (required : ℤ) where
  -- The shortest prefix of a queue that brings `num_bytes` up to the required bytes.
  pub needed : ℕ → List ℕ → List ℕ
  needed num_bytes [] = []
  needed num_bytes (x ∷ xs) =
      if leb_ℤ required (pos num_bytes) then [] else x ∷ needed (num_bytes + size_of objects x) xs

  -- What it leaves of the queue.
  pub spared : ℕ → List ℕ → List ℕ
  spared num_bytes [] = []
  spared num_bytes (x ∷ xs) =
      if leb_ℤ required (pos num_bytes) then x ∷ xs else spared (num_bytes + size_of objects x) xs

  pub needed-append-spared : (b : ℕ) (l : List ℕ) → needed b l ++ spared b l ≡ l
  unfolding needed spared
  needed-append-spared b [] = refl
  needed-append-spared b (x ∷ l) = ground (arith, needed-append-spared (b + size_of objects x) l)

  pub needed-enough :
      (b : ℕ) (l : List ℕ)
      → (required ≤ℤ pos (b + total_size objects (needed b l))) ⊎ (spared b l ≡ [])
  unfolding needed spared
  needed-enough b [] = inr refl
  needed-enough b (x ∷ l) = ground (arith, needed-enough (b + size_of objects x) l)

  -- A shorter prefix would not have been enough.
  pub needed-shortest :
      (b : ℕ) (l before : List ℕ) (x : ℕ) (after : List ℕ)
      → needed b l ≡ before ++ x ∷ after
      → ¬ (required ≤ℤ pos (b + total_size objects before))
  unfolding needed
  needed-shortest b [] [] x after e = cc
  needed-shortest b [] (y ∷ before) x after e = cc
  needed-shortest b (z ∷ l) [] x after e = ground arith
  needed-shortest b (z ∷ l) (y ∷ before) x after e =
      ground (arith, needed-shortest (b + size_of objects z) l before x after)

  count_to_evict-needed :
      (l : List ReleasedObject) (n b : ℕ)
      → All (IsKnown objects) (ids l)
      → count_to_evict objects required l n b
        ≡ ok (n + length (needed b (ids l)), b + total_size objects (needed b (ids l)))
  unfolding count_to_evict needed
  count_to_evict-needed [] n b known = ground arith
  count_to_evict-needed (x ∷ l) n b ((e, found), known) =
      elim (Bool-cases (leb_ℤ required (pos b))) [
        | inl t ↦ rw t (ground arith)
        | inr t ↦
            rw (t, found, count_to_evict)
              (rw (count_to_evict-needed l (n + 1) (b + entry_size e) known) (ground arith))
      ]

-- The state and the list that `collect_to_evict` returns.
abbrev Collects :
    EvictionState → List ℕ → List ℕ → List ℕ → Result (EvictionState × List ℕ) → Type 0
Collects s out chosen rest r =
    (s' : EvictionState) × (r ≡ ok (s', out ++ chosen))
    × IsWellFormed s'
    × (lru s' ≡ rest)
    × (s'.memory_used ≡ s.memory_used)

remove_head : (x : ℕ) (xs : List ℕ) → remove x (x ∷ xs) ≡ xs
unfolding remove
remove_head x xs = ground arith

contains_head : (x : ℕ) (xs : List ℕ) → contains x (x ∷ xs) ≡ true
unfolding contains
contains_head x xs = ground arith

collect_to_evict-Collects :
    (ns : List ReleasedObject) (p rest out : List ℕ) (num_objects counter : ℕ) (s : EvictionState)
    → num_objects ≡ counter + length p
    → IsWellFormed s
    → lru s ≡ ids ns
    → ids ns ≡ p ++ rest
    → Collects s out p rest (collect_to_evict num_objects ns counter out s)
unfolding collect_to_evict
collect_to_evict-Collects [] [] rest out m c s _ w l e = (s, rw append-nil, w, l ∙ e, refl)
collect_to_evict-Collects [] (x ∷ p) rest out m c s _ w l e = absurd (cc)
collect_to_evict-Collects (n ∷ ns) [] rest out m c s q w l e =
    (s, rw append-nil (ground arith), w, l ∙ e, refl)
collect_to_evict-Collects (n ∷ ns) (x ∷ p) rest out m c s q w l e =
    let k = n.object_id in
    let (s', ran, w', l', kept) =
      Queues-ok (remove_object_from_lru_cache-Queues s w k (rw l (contains_head k (ids ns)))) in
    let (s'', ran', w'', l'', kept') =
      collect_to_evict-Collects ns p rest (out ++ k ∷ []) m (c + 1) s' (omega arith) w'
        (l' ∙ ap (remove k) l ∙ remove_head k (ids ns)) (cc) in
    let later : (c == m) ≡ false = ground arith in
    let same : ok (s'', (out ++ k ∷ []) ++ p) ≡ ok (s'', out ++ x ∷ p) =
      cc (append_assoc out (k ∷ []) p) in
    (s'', rw (later, ran) (ran' ∙ same), w'', l'', kept' ∙ kept)

-- What EvictionState_choose_objects_to_evict promises of its result.
pub record Chosen (objects : ObjectTable) (required : ℤ) (s s' : EvictionState) (num_bytes : ℕ)
    (chosen : List ℕ) : Type 0 where
  pub well_formed : IsWellFormed s'
  pub split : lru s ≡ chosen ++ lru s'
  pub bytes : num_bytes ≡ total_size objects chosen
  pub accounted : s'.memory_used ≡ s.memory_used -ℤ pos num_bytes
  pub enough : (required ≤ℤ pos num_bytes) ⊎ (lru s' ≡ [])
  pub shortest :
      (before : List ℕ) (x : ℕ) (after : List ℕ)
      → chosen ≡ before ++ x ∷ after
      → ¬ (required ≤ℤ pos (total_size objects before))

abbrev pub Chooses : ObjectTable → ℤ → EvictionState → Result (EvictionState × ℕ × List ℕ) → Type 0
Chooses objects required s r =
    (s' : EvictionState) × (num_bytes : ℕ) × (chosen : List ℕ) × (r ≡ ok (s', num_bytes, chosen))
    × Chosen objects required s s' num_bytes chosen

collect_needed :
    (s : EvictionState) (p rest : List ℕ)
    → IsWellFormed s
    → lru s ≡ p ++ rest
    → Collects s [] p rest (
        if length p == 0 then ok (s, []) else collect_to_evict (length p) s.released_objects 0 [] s)
collect_needed s [] rest w e = (s, refl, w, e, refl)
collect_needed s (x ∷ p) rest w e =
    let nonzero : (suc (length p) == 0) ≡ false = ground arith in
    rw nonzero (
      collect_to_evict-Collects s.released_objects (x ∷ p) rest [] (length (x ∷ p)) 0 s
        (omega arith) w refl e)

-- In a cache of known objects the choice never aborts. It takes from the front of the queue, the
-- least recently released first, the fewest objects that free the required bytes, or all objects
-- where these are too few; it reports their bytes and takes them off the accounts.
pub choose_objects_to_evict-Chooses :
    (objects : ObjectTable) (required : ℤ) (s : EvictionState)
    → IsWellFormed s
    → All (IsKnown objects) (lru s)
    → Chooses objects required s (choose_objects_to_evict objects required s)
unfolding choose_objects_to_evict
choose_objects_to_evict-Chooses objects required s w known =
    let p = needed objects required 0 (lru s) in
    let (s', ran, w', l', kept) =
      collect_needed s p (spared objects required 0 (lru s)) w
        (sym (needed-append-spared objects required 0 (lru s))) in
    let used = s'.memory_used -ℤ pos (total_size objects p) in
    (
      record s' { memory_used = used },
      total_size objects p,
      p,
      rw (count_to_evict-needed objects required s.released_objects 0 0 known)
          (rw (zero-add (length p), zero-add (total_size objects p), ran)),
      record {
        well_formed = record {
          mirrored = w'.mirrored;
          distinct = w'.distinct;
          apart = w'.apart;
          below = w'.below;
        };
        split = rw l' (sym (needed-append-spared objects required 0 (lru s)));
        bytes = refl;
        accounted = ap (λ t. t -ℤ pos (total_size objects p)) kept;
        enough = ground (arith, needed-enough objects required 0 (lru s));
        shortest = λ before x after e.
            rw zero-add at (needed-shortest objects required 0 (lru s) before x after e);
      },
    )
