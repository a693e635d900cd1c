-- ===== src/Common/Lists.antt =====
-- Lists measured by native numbers, and lists of identifiers as sets.
use Prim.Native.Nat.{ℕ, zero, suc, ◌+◌, ◌≤◌}
use mathlib.Core.Option.{Option, none, some}
use mathlib.Core.Path.{◌≡◌, refl}
use mathlib.Core.Bool.{Bool, true, false, ◌||◌}
use mathlib.Core.List.{List, [], ◌∷◌, ◌++◌}
use native.Mathlib.Omega.{arith}
use ray.Common.Tests.{◌==◌, if◌then◌else◌}

module _ {ℓ} {A : Type ℓ} where
  abbrev pub length : List A → ℕ
  length [] = 0
  length (x ∷ xs) = suc (length xs)

  pub length-append : (xs ys : List A) → length (xs ++ ys) ≡ length xs + length ys
  length-append [] ys = omega arith
  length-append (x ∷ xs) ys = omega (arith, length-append xs ys)

  -- A predicate on every item, which computes to a tuple.
  abbrev pub All {κ} : (A → Type κ) → List A → Type κ
  All P [] = Unit
  All P (x ∷ xs) = P x × All P xs

-- Is `x` among `xs`?

unfoldable pub contains : ℕ → List ℕ → Bool
contains x [] = false
contains x (y ∷ ys) = if y == x then true else contains x ys

-- `xs` without the first `x`.
unfoldable pub remove : ℕ → List ℕ → List ℕ
remove x [] = []
remove x (y ∷ ys) = if y == x then ys else y ∷ remove x ys

-- No item twice.
abbrev pub Distinct : List ℕ → Type 0
Distinct [] = Unit {0}
Distinct (x ∷ xs) = (contains x xs ≡ false) × Distinct xs

pub contains-append :
    (x : ℕ) (xs ys : List ℕ) → contains x (xs ++ ys) ≡ (contains x xs || contains x ys)
unfolding contains
contains-append x [] ys = refl
contains-append x (y ∷ xs) ys = ground (arith, contains-append x xs ys)

-- Adding an item at the end.
pub contains_snoc :
    (x y : ℕ) (xs : List ℕ) → contains x (xs ++ y ∷ []) ≡ (if y == x then true else contains x xs)
unfolding contains
contains_snoc x y [] = refl
contains_snoc x y (z ∷ xs) = ground (arith, contains_snoc x y xs)

pub snoc-Distinct :
    (y : ℕ) (xs : List ℕ) → contains y xs ≡ false → Distinct xs → Distinct (xs ++ y ∷ [])
unfolding contains
snoc-Distinct y [] h d = (refl, tt)
snoc-Distinct y (x ∷ xs) h d = ground (arith, contains_snoc x y xs, snoc-Distinct y xs)

pub contains-remove :
    (x y : ℕ) (xs : List ℕ)
    → Distinct xs
    → contains x (remove y xs) ≡ (if y == x then false else contains x xs)
unfolding contains remove
contains-remove x y [] d = ground arith
contains-remove x y (z ∷ xs) d = ground (arith, contains-remove x y xs d.1)

pub remove-Distinct : (y : ℕ) (xs : List ℕ) → Distinct xs → Distinct (remove y xs)
unfolding remove
remove-Distinct y [] d = tt
remove-Distinct y (x ∷ xs) d = ground (arith, contains-remove x y xs d.1, remove-Distinct y xs d.1)

pub length-remove :
    (y : ℕ) (xs : List ℕ) → contains y xs ≡ true → length (remove y xs) + 1 ≡ length xs
unfolding contains remove
length-remove y [] h = cc
length-remove y (x ∷ xs) h = ground (arith, length-remove y xs)

abbrev pub one : Bool → ℕ
one true = 1
one false = 0

-- How often an item stands in a list.
abbrev pub count : ℕ → List ℕ → ℕ
count x [] = 0
count x (y ∷ ys) = one (y == x) + count x ys

pub count-append : (x : ℕ) (xs ys : List ℕ) → count x (xs ++ ys) ≡ count x xs + count x ys
count-append x [] ys = omega arith
count-append x (y ∷ xs) ys = let e = count-append x xs ys in omega (arith, e)

pub count_of_contains : (x : ℕ) (xs : List ℕ) → contains x xs ≡ true → 1 ≤ count x xs
unfolding contains
count_of_contains x [] h = cc
count_of_contains x (y ∷ xs) h = ground (arith, count_of_contains x xs)

pub count_of_not-contains : (x : ℕ) (xs : List ℕ) → contains x xs ≡ false → count x xs ≡ 0
unfolding contains
count_of_not-contains x [] h = refl
count_of_not-contains x (y ∷ xs) h = ground (arith, count_of_not-contains x xs)

pub contains_of_count : (x : ℕ) (xs : List ℕ) → count x xs ≡ 0 → contains x xs ≡ false
unfolding contains
contains_of_count x [] h = refl
contains_of_count x (y ∷ xs) h = ground (arith, contains_of_count x xs)

-- The item at an index.
abbrev pub get_elem? {ℓ} : {A : Type ℓ} → List A → ℕ → Option A
get_elem? [] i = none
get_elem? (x ∷ xs) zero = some x
get_elem? (x ∷ xs) (suc i) = get_elem? xs i
