-- ===== src/Common/Results.antt =====
-- The outcome of code that may abort the process through a failed CHECK, LOG_FATAL or a bad access.
use ray.Common.Tests.{if◌then◌else◌}
use mathlib.Core.Path.{◌≡◌, refl}
use mathlib.Core.Bool.{Bool, true, false}
use mathlib.Core.Option.{Option, none, some}
use mathlib.Core.Logic.{◌⊎◌, inl, inr}

pub data Result {κ} (X : Type κ) : Type κ where
  fatal : Result X
  ok : X → Result X

infixl 5 ◌>>=◌ ◌>>◌
abbrev pub ◌>>=◌ {κ ν} : {X : Type κ} {Y : Type ν} → Result X → (X → Result Y) → Result Y
fatal >>= next = fatal
ok x >>= next = next x

abbrev pub ◌>>◌ {κ} : {X : Type κ} → Result (Unit {0}) → Result X → Result X
step >> next = step >>= λ _. next

-- CHECK(b)
abbrev pub check : Bool → Result (Unit {0})
check holds = elim holds [ true ↦ ok tt | false ↦ fatal ]

-- Inversion of a successful bind, for proofs where the parts stay shut.
pub >>=-eq-ok {κ ν} :
    {X : Type κ} {Y : Type ν} (step : Result X) (next : X → Result Y) {y : Y}
    → (step >>= next) ≡ ok y
    → (x : X) × (step ≡ ok x) × (next x ≡ ok y)
>>=-eq-ok fatal next e = cc
>>=-eq-ok (ok x) next e = (x, refl, e)

-- What holds of the value, if the code does not abort.
abbrev pub Ensures {ℓ κ} : {A : Type ℓ} → (A → Type κ) → Result A → Type κ
Ensures P (ok a) = P a
Ensures P fatal = Unit

pub Ensures->>= {ℓ κ μ ν} :
    {A : Type ℓ} {B : Type κ} (P : A → Type μ) (Q : B → Type ν) (m : Result A) (f : A → Result B)
    → Ensures P m
    → ((a : A) → P a → Ensures Q (f a))
    → Ensures Q (m >>= f)
Ensures->>= P Q (ok a) f h g = g a h
Ensures->>= P Q fatal f h g = tt

pub Ensures-check {κ} :
    {A : Type κ} (b : Bool) (Q : A → Type κ) (m : Result A)
    → (b ≡ true → Ensures Q m)
    → Ensures Q (check b >> m)
Ensures-check true Q m h = h refl
Ensures-check false Q m h = tt

pub Ensures-mono {ℓ κ μ} :
    {A : Type ℓ} (P : A → Type κ) (Q : A → Type μ) (m : Result A)
    → ((a : A) → P a → Q a)
    → Ensures P m
    → Ensures Q m
Ensures-mono P Q (ok a) f h = f a h
Ensures-mono P Q fatal f h = tt

pub Ensures-both {ℓ κ μ} :
    {A : Type ℓ} (P : A → Type κ) (Q : A → Type μ) (m : Result A)
    → Ensures P m
    → Ensures Q m
    → Ensures (λ a. P a × Q a) m
Ensures-both P Q (ok a) h k = (h, k)
Ensures-both P Q fatal h k = tt

-- The same of code on fuel: no outcome means that the fuel ran out.
abbrev pub Yields {ℓ κ} : {A : Type ℓ} → (A → Type κ) → Option (Result A) → Type κ
Yields P none = Unit
Yields P (some r) = Ensures P r

pub Ensures-any {ℓ} : {A : Type ℓ} (m : Result A) → Ensures (λ _. Unit {0}) m
Ensures-any (ok a) = tt
Ensures-any fatal = tt

pub Result-cases {ℓ} : {A : Type ℓ} (m : Result A) → ((a : A) × (m ≡ ok a)) ⊎ (m ≡ fatal)
Result-cases (ok a) = inl (a, refl)
Result-cases fatal = inr refl

-- A split on an option.
pub Ensures-option {ℓ κ μ} :
    {A : Type ℓ} {B : Type κ} (o : Option A) (Q : B → Type μ) (m : Result B) (f : A → Result B)
    → (o ≡ none → Ensures Q m)
    → ((a : A) → o ≡ some a → Ensures Q (f a))
    → Ensures Q (elim o [ none ↦ m | some a ↦ f a ])
Ensures-option none Q m f h k = h refl
Ensures-option (some a) Q m f h k = k a refl

-- A split on a test.
pub Ensures-if {κ μ} :
    {B : Type κ} (b : Bool) (Q : B → Type μ) (m n : Result B)
    → (b ≡ true → Ensures Q m)
    → (b ≡ false → Ensures Q n)
    → Ensures Q (if b then m else n)
Ensures-if true Q m n h k = h refl
Ensures-if false Q m n h k = k refl
