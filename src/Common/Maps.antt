-- ===== src/Common/Maps.antt =====
-- Association lists keyed by identifiers, for the std::unordered_map and uthash tables of the code.
use Prim.Native.Nat.{ℕ}
use mathlib.Core.Path.{◌≡◌, refl}
use mathlib.Core.Bool.{Bool, true, false}
use mathlib.Core.Option.{Option, none, some}
use mathlib.Core.List.{List, [], ◌∷◌}
use native.Mathlib.Omega.{arith}
use ray.Common.Tests.{◌==◌, if◌then◌else◌}

module _ {ℓ} {V : Type ℓ} where
  unfoldable pub lookup : ℕ → List (ℕ × V) → Option V
  lookup k [] = none
  lookup k ((j, v) ∷ m) = if j == k then some v else lookup k m

  -- Assigns `m[k] = v`; a new key goes to the end.
  unfoldable pub insert : ℕ → V → List (ℕ × V) → List (ℕ × V)
  insert k v [] = (k, v) ∷ []
  insert k v ((j, w) ∷ m) = if j == k then (k, v) ∷ m else (j, w) ∷ insert k v m

  unfoldable pub erase : ℕ → List (ℕ × V) → List (ℕ × V)
  erase k [] = []
  erase k ((j, w) ∷ m) = if j == k then erase k m else (j, w) ∷ erase k m

  -- Without the first entry of a key.
  unfoldable pub erase_first : ℕ → List (ℕ × V) → List (ℕ × V)
  erase_first k [] = []
  erase_first k ((j, w) ∷ m) = if j == k then m else (j, w) ∷ erase_first k m

  unfoldable pub has_key : ℕ → List (ℕ × V) → Bool
  has_key k [] = false
  has_key k ((j, v) ∷ m) = if j == k then true else has_key k m

  pub lookup-insert :
      (key k : ℕ) (new : V) (table : List (ℕ × V))
      → lookup k (insert key new table) ≡ (if key == k then some new else lookup k table)
  unfolding lookup insert
  lookup-insert key k new [] = refl
  lookup-insert key k new ((i, old) ∷ table) = ground (arith, lookup-insert key k new table)

  pub lookup-erase :
      (k j : ℕ) (m : List (ℕ × V)) → lookup j (erase k m) ≡ (if k == j then none else lookup j m)
  unfolding lookup erase
  lookup-erase k j [] = ground arith
  lookup-erase k j ((i, w) ∷ m) = ground (arith, lookup-erase k j m)

  pub has_key-lookup-none : (k : ℕ) (m : List (ℕ × V)) → lookup k m ≡ none → has_key k m ≡ false
  unfolding lookup has_key
  has_key-lookup-none k [] h = refl
  has_key-lookup-none k ((i, w) ∷ m) h = ground (arith, has_key-lookup-none k m)

  pub has_key-lookup-some :
      (k : ℕ) (m : List (ℕ × V)) {v : V} → lookup k m ≡ some v → has_key k m ≡ true
  unfolding lookup has_key
  has_key-lookup-some k [] h = cc
  has_key-lookup-some k ((i, w) ∷ m) {v} h = ground (arith, has_key-lookup-some k m {v = v})

  pub lookup-has_key : (k : ℕ) (m : List (ℕ × V)) → has_key k m ≡ false → lookup k m ≡ none
  unfolding lookup has_key
  lookup-has_key k [] h = refl
  lookup-has_key k ((i, w) ∷ m) h = ground (arith, lookup-has_key k m)

  pub has_key-insert :
      (key k : ℕ) (new : V) (table : List (ℕ × V))
      → has_key k table ≡ true
      → has_key k (insert key new table) ≡ true
  unfolding has_key insert
  has_key-insert key k new [] h = cc
  has_key-insert key k new ((i, old) ∷ table) h = ground (arith, has_key-insert key k new table)

  pub has_key-insert_lem :
      (k t : ℕ) (v : V) (m : List (ℕ × V))
      → has_key t (insert k v m) ≡ (if k == t then true else has_key t m)
  unfolding has_key insert
  has_key-insert_lem k t v [] = refl
  has_key-insert_lem k t v ((j, w) ∷ m) = ground (arith, has_key-insert_lem k t v m)

  pub has_key-erase_lem :
      (k t : ℕ) (m : List (ℕ × V)) → has_key t (erase k m) ≡ (if k == t then false else has_key t m)
  unfolding has_key erase
  has_key-erase_lem k t [] = ground arith
  has_key-erase_lem k t ((j, w) ∷ m) = ground (arith, has_key-erase_lem k t m)
