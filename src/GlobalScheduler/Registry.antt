-- ===== src/GlobalScheduler/Registry.antt =====
-- The registered local schedulers and their entries in local_scheduler_plasma_map.
use ray.Common.{
  ℕ, zero, suc, ◌+◌, ◌<◌, ◌≡◌, refl, ap, Bool, true, some, List, [], ◌∷◌, ◌++◌, map, ok, inl, inr,
  ◌==◌, ==_refl, arith, length, get_elem?, Bool-cases, ltb, count, one,
}
use ray.GlobalScheduler.State.{
  GlobalSchedulerState, LocalScheduler, AuxAddressEntry, get_local_scheduler, set_local_scheduler,
}
use ray.GlobalScheduler.Assignment.{ids}
use ray.GlobalScheduler.Server.{
  erase_elem, new_local_scheduler, add_local_scheduler, delete_entry, delete_entries,
  remove_local_scheduler, index_of, process_new_db_client, is_prefix, local_scheduler_type,
  miss_heartbeat,
}

abbrev pub clients : List AuxAddressEntry → List ℕ
clients = map λ e. e.local_scheduler_db_client_id

-- Each local scheduler has its entry: an ID stands in the array as often as in the map.
abbrev pub IsRegistered : GlobalSchedulerState → Type 0
IsRegistered s =
    (k : ℕ) → count k (ids s.local_schedulers) ≡ count k (clients s.local_scheduler_plasma_map)

count_snoc :
    (k : ℕ) (ls : List LocalScheduler) (l : LocalScheduler)
    → count k (ids (ls ++ l ∷ [])) ≡ one (l.id == k) + count k (ids ls)
count_snoc k [] l = refl
count_snoc k (m ∷ ls) l = let e = count_snoc k ls l in omega (arith, e)

count-erase_elem :
    (k i : ℕ) (ls : List LocalScheduler) (l : LocalScheduler)
    → get_elem? ls i ≡ some l
    → count k (ids ls) ≡ one (l.id == k) + count k (ids (erase_elem i ls))
unfolding erase_elem
count-erase_elem k i [] l h = cc
count-erase_elem k zero (m ∷ ls) l h = ground arith
count-erase_elem k (suc i) (m ∷ ls) l h = let e = count-erase_elem k i ls l h in omega (arith, e)

-- The entry of a client is found, and one entry is deleted.
abbrev Deletes : ℕ → List AuxAddressEntry → Type 0
Deletes id es =
    (fs : List AuxAddressEntry) × (delete_entry id es ≡ ok fs)
    × ((k : ℕ) → count k (clients es) ≡ one (id == k) + count k (clients fs))

delete_entry-Deletes :
    (id : ℕ) (es : List AuxAddressEntry) → 0 < count id (clients es) → Deletes id es
unfolding delete_entry
delete_entry-Deletes id [] h = absurd (omega arith)
delete_entry-Deletes id (e ∷ es) h = elim (Bool-cases (e.local_scheduler_db_client_id == id)) [
  | inl hit ↦ (es, rw hit, λ k. ground arith)
  | inr miss ↦
      let positive : 0 < count id (clients es) = ground arith in
      let (fs, deleted, counted) = delete_entry-Deletes id es positive in
      (e ∷ fs, rw (miss, deleted), λ k. (let c = counted k in omega (arith, c)))
]

-- In a consistent registry, removing the scheduler at an index does not abort; it takes the scheduler
-- and one entry away.
pub remove_local_scheduler-IsRegistered :
    (i : ℕ) (s : GlobalSchedulerState) (l : LocalScheduler)
    → IsRegistered s
    → get_elem? s.local_schedulers i ≡ some l
    → (t : GlobalSchedulerState) × (remove_local_scheduler i s ≡ ok t)
      × IsRegistered t
      × (t.local_schedulers ≡ erase_elem i s.local_schedulers)
      × (t.db ≡ s.db)
unfolding remove_local_scheduler
remove_local_scheduler-IsRegistered i s l registered found =
    let here = count-erase_elem l.id i s.local_schedulers l found in
    let same = registered l.id in
    let self = ==_refl l.id in
    let positive : 0 < count l.id (clients s.local_scheduler_plasma_map) =
      ground (arith, here, same, self) in
    let (fs, deleted, counted) = delete_entry-Deletes l.id s.local_scheduler_plasma_map positive in
    (
      record s {
        local_schedulers = erase_elem i s.local_schedulers;
        plasma_local_scheduler_map = delete_entries l.id s.plasma_local_scheduler_map;
        local_scheduler_plasma_map = fs;
      },
      rw (found, remove_local_scheduler, deleted),
      (λ k.
          let a = count-erase_elem k i s.local_schedulers l found in
          let b = counted k in let c = registered k in omega (arith, a, b, c)),
      refl,
      refl,
    )

index_of-get_elem? :
    (id : ℕ) (ls : List LocalScheduler)
    → ltb (index_of id ls) (length ls) ≡ true
    → (l : LocalScheduler) × (get_elem? ls (index_of id ls) ≡ some l) × ((l.id == id) ≡ true)
unfolding index_of
index_of-get_elem? id [] h = absurd (ground arith)
index_of-get_elem? id (l ∷ ls) h = elim (Bool-cases (l.id == id)) [
  | inl hit ↦ (l, rw hit, hit)
  | inr miss ↦
      let inside : ltb (index_of id ls) (length ls) ≡ true = ground (arith, h, miss) in
      let (m, found, same) = index_of-get_elem? id ls inside in (m, rw (miss, found), same)
]

-- In a consistent registry, a notification about a client of the database does not abort, and leaves
-- the registry consistent, whether or not the client registers again or was never registered.
pub process_new_db_client-IsRegistered :
    (id : ℕ) (client_type : List ℕ) (aux_address : ℕ) (is_insertion : Bool)
    (s : GlobalSchedulerState)
    → IsRegistered s
    → (t : GlobalSchedulerState) × (process_new_db_client id client_type aux_address is_insertion s
        ≡ ok t)
      × IsRegistered t
unfolding process_new_db_client add_local_scheduler new_local_scheduler
process_new_db_client-IsRegistered id client_type aux_address is_insertion s registered =
    elim (Bool-cases (is_prefix local_scheduler_type client_type)) [
      | inr other ↦ (s, rw other, registered)
      | inl local ↦ elim (Bool-cases is_insertion) [
        | inl insertion ↦ (
          add_local_scheduler id aux_address s,
          rw (local, insertion),
          λ k.
              (let a = count_snoc k s.local_schedulers (new_local_scheduler id) in
                let b = registered k in omega (arith, a, b)),
        )
        | inr deletion ↦
            elim (Bool-cases (ltb (index_of id s.local_schedulers) (length s.local_schedulers))) [
              | inr unknown ↦ (s, rw (local, deletion, unknown), registered)
              | inl known ↦
                  let (l, found, _) = index_of-get_elem? id s.local_schedulers known in
                  let (t, ran, r, _, _) =
                    remove_local_scheduler-IsRegistered (index_of id s.local_schedulers) s l
                      registered found in
                  (t, rw (local, deletion, known) ran, r)
            ]
      ]
    ]

pub get_local_scheduler-id :
    (id : ℕ) (ls : List LocalScheduler) (l : LocalScheduler)
    → get_local_scheduler id ls ≡ some l
    → l.id ≡ id
unfolding get_local_scheduler
get_local_scheduler-id id [] l h = cc
get_local_scheduler-id id (m ∷ ls) l h = ground (arith, get_local_scheduler-id id ls l)

pub ids-set_local_scheduler :
    (id : ℕ) (new : LocalScheduler) (ls : List LocalScheduler)
    → new.id ≡ id
    → ids (set_local_scheduler id new ls) ≡ ids ls
unfolding set_local_scheduler
ids-set_local_scheduler id new [] h = refl
ids-set_local_scheduler id new (l ∷ ls) h = ground (arith, ids-set_local_scheduler id new ls h)

pub ids-miss_heartbeat : (i : ℕ) (ls : List LocalScheduler) → ids (miss_heartbeat i ls) ≡ ids ls
unfolding miss_heartbeat
ids-miss_heartbeat i [] = refl
ids-miss_heartbeat zero (l ∷ ls) = refl
ids-miss_heartbeat (suc i) (l ∷ ls) = ap (λ t. l.id ∷ t) (ids-miss_heartbeat i ls)
