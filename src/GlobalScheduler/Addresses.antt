-- ===== src/GlobalScheduler/Addresses.antt =====
-- The addresses of Plasma managers that lead to local schedulers.
use ray.Common.{
  ℕ, ◌≡◌, ◌≢◌, refl, Bool-cases, ◌==◌, ap, ◌∙◌, sym, subst, none, some, List, [], ◌∷◌, ◌⊎◌, Result,
  ok, fatal, inl, inr, arith, All, get_elem?, Option-cases, >>=-eq-ok,
}
use ray.Tasks.{nil_id}
use ray.GlobalScheduler.State.{GlobalSchedulerState, LocalScheduler, AuxAddressEntry, HashFind}
use ray.GlobalScheduler.Algorithm.{get_local_scheduler_id}
use ray.GlobalScheduler.Server.{
  add_local_scheduler, delete_entries, delete_entry, remove_local_scheduler,
}

abbrev pub Occurs : AuxAddressEntry → List AuxAddressEntry → Type 0
Occurs e [] = ⊥
Occurs e (f ∷ es) = (e ≡ f) ⊎ Occurs e es

-- No entry has the address.
abbrev pub Unknown : ℕ → List AuxAddressEntry → Type 0
Unknown address = All λ e. e.aux_address ≢ address

-- What uthash documents of HASH_FIND: it finds an entry with the key, any one of them if there are
-- several, and nothing only if there is none.
pub record IsHashFind (hash_find : HashFind) : Type 0 where
  pub finds :
      (address : ℕ) (es : List AuxAddressEntry) (e : AuxAddressEntry)
      → hash_find address es ≡ some e
      → Occurs e es × (e.aux_address ≡ address)
  pub misses :
      (address : ℕ) (es : List AuxAddressEntry) → hash_find address es ≡ none → Unknown address es

-- The ID that an address leads to: that of an entry with the address, and nil if there is none.
abbrev pub LeadsTo : List AuxAddressEntry → (address id : ℕ) → Type 0
LeadsTo es address id =
    (Unknown address es × (id ≡ nil_id))
    ⊎ ((e : AuxAddressEntry) × Occurs e es
        × (e.aux_address ≡ address)
        × (e.local_scheduler_db_client_id ≡ id))

get_local_scheduler_id-LeadsTo :
    (hash_find : HashFind) (address : ℕ) (s : GlobalSchedulerState)
    → IsHashFind hash_find
    → LeadsTo s.plasma_local_scheduler_map address
        (get_local_scheduler_id hash_find (some address) s)
unfolding get_local_scheduler_id
get_local_scheduler_id-LeadsTo hash_find address s law =
    elim (Option-cases (hash_find address s.plasma_local_scheduler_map)) [
      | inl e ↦
          rw (get_local_scheduler_id, e)
            (inl (law.misses address s.plasma_local_scheduler_map e, refl))
      | inr (f, e) ↦
          let (occurs, same) = law.finds address s.plasma_local_scheduler_map f e in
          rw (get_local_scheduler_id, e) (inr (f, occurs, same, refl))
    ]

Unknown-Occurs :
    (address : ℕ) (es : List AuxAddressEntry) (e : AuxAddressEntry)
    → Unknown address es
    → Occurs e es
    → e.aux_address ≢ address
Unknown-Occurs address [] e unknown occurs = absurd occurs
Unknown-Occurs address (f ∷ es) e (new, unknown) (inl same) =
    subst (λ g. g.aux_address ≢ address) (sym same) new
Unknown-Occurs address (f ∷ es) e (new, unknown) (inr occurs) =
    Unknown-Occurs address es e unknown occurs

-- The first entry is the only one of an address that the others do not have.
LeadsTo-cons_here :
    (f : AuxAddressEntry) (es : List AuxAddressEntry) (id : ℕ)
    → Unknown f.aux_address es
    → LeadsTo (f ∷ es) f.aux_address id
    → id ≡ f.local_scheduler_db_client_id
LeadsTo-cons_here f es id unknown (inl ((new, _), _)) = absurd (new refl)
LeadsTo-cons_here f es id unknown (inr (e, inl first, same, leads)) =
    sym leads ∙ ap (λ g. g.local_scheduler_db_client_id) first
LeadsTo-cons_here f es id unknown (inr (e, inr occurs, same, leads)) =
    absurd (Unknown-Occurs f.aux_address es e unknown occurs same)

LeadsTo-cons_elsewhere :
    (f : AuxAddressEntry) (es : List AuxAddressEntry) (address id : ℕ)
    → address ≢ f.aux_address
    → LeadsTo (f ∷ es) address id
    → LeadsTo es address id
LeadsTo-cons_elsewhere f es address id other (inl ((_, unknown), nil)) = inl (unknown, nil)
LeadsTo-cons_elsewhere f es address id other (inr (e, inl first, same, leads)) =
    absurd (other (sym same ∙ ap (λ g. g.aux_address) first))
LeadsTo-cons_elsewhere f es address id other (inr (e, inr occurs, same, leads)) =
    inr (e, occurs, same, leads)

-- Once a local scheduler is added at an address that was not known, the address leads to it, and any
-- other address leads to the ID of an entry that it had before, or to nil if it had none, whichever
-- of several entries of one address uthash finds.
pub get_local_scheduler_id_added :
    (hash_find : HashFind) (id address other : ℕ) (s : GlobalSchedulerState)
    → IsHashFind hash_find
    → Unknown address s.plasma_local_scheduler_map
    → other ≢ address
    → (get_local_scheduler_id hash_find (some address) (add_local_scheduler id address s) ≡ id)
      × LeadsTo s.plasma_local_scheduler_map other
          (get_local_scheduler_id hash_find (some other) (add_local_scheduler id address s))
unfolding add_local_scheduler
get_local_scheduler_id_added hash_find id address other s law unknown apart =
    let t = add_local_scheduler id address s in
    let entry : AuxAddressEntry = record {
      aux_address = address;
      local_scheduler_db_client_id = id;
    } in
    (
      LeadsTo-cons_here entry s.plasma_local_scheduler_map _ unknown
          (get_local_scheduler_id-LeadsTo hash_find address t law),
      LeadsTo-cons_elsewhere entry s.plasma_local_scheduler_map other _ apart
          (get_local_scheduler_id-LeadsTo hash_find other t law),
    )

Occurs-delete_entries :
    (id : ℕ) (es : List AuxAddressEntry) (e : AuxAddressEntry)
    → Occurs e (delete_entries id es)
    → e.local_scheduler_db_client_id ≢ id
unfolding delete_entries
Occurs-delete_entries id [] e h = absurd h
Occurs-delete_entries id (f ∷ es) e h = elim (Bool-cases (f.local_scheduler_db_client_id == id)) [
  | inl hit ↦ Occurs-delete_entries id es e (rw hit at h)
  | inr miss ↦
      elim (rw miss at h)
        as (λ (_ : Occurs e (f ∷ delete_entries id es)). e.local_scheduler_db_client_id ≢ id) [
          | inl first ↦
              subst (λ g. g.local_scheduler_db_client_id ≢ id) (sym first)
                (λ same. ground (arith, miss, same))
          | inr later ↦ Occurs-delete_entries id es e later
        ]
]

abbrev map_of : Result GlobalSchedulerState → List AuxAddressEntry
map_of (ok s) = s.plasma_local_scheduler_map
map_of fatal = []

-- Once the local scheduler at an index is removed, no address leads to it, even if it was
-- registered more than once, where its ID is not nil, whichever of several entries of one address
-- uthash finds.
pub get_local_scheduler_id_removed :
    (hash_find : HashFind) (i address : ℕ) (s t : GlobalSchedulerState) (l : LocalScheduler)
    → IsHashFind hash_find
    → get_elem? s.local_schedulers i ≡ some l
    → l.id ≢ nil_id
    → remove_local_scheduler i s ≡ ok t
    → get_local_scheduler_id hash_find (some address) t ≢ l.id
unfolding remove_local_scheduler
get_local_scheduler_id_removed hash_find i address s t l law found named ran =
    let ran' = rw (found, remove_local_scheduler) at ran in
    let (es, deleted, left) = >>=-eq-ok (delete_entry l.id s.local_scheduler_plasma_map) _ ran' in
    let moved : delete_entries l.id s.plasma_local_scheduler_map ≡ t.plasma_local_scheduler_map =
      ap map_of left in
    elim (get_local_scheduler_id-LeadsTo hash_find address t law) [
      | inl (_, nil) ↦ λ same. named (sym same ∙ nil)
      | inr (e, occurs, _, leads) ↦ λ same.
          Occurs-delete_entries l.id s.plasma_local_scheduler_map e
            (subst (Occurs e) (sym moved) occurs) (leads ∙ same)
    ]
