-- ===== src/Common/Results.antt =====
-- The exceptions that the program throws, and computations that may throw.
use mathlib.Core.Path.{◌≡◌, refl}
use mathlib.Core.Logic.{◌⊎◌, inl, inr}

-- std::invalid_argument, std::out_of_range, std::runtime_error, the classes of net_exception.h,
-- and args::UsageError and args::ValidationError.
pub data Exception : Type 0 where
  invalid_argument out_of_range runtime_error : Exception
  socket_exception host_not_found bind_exception send_exception receive_exception : Exception
  usage_error validation_error : Exception

pub data Result {ℓ} (A : Type ℓ) : Type ℓ where
  ok : A → Result A
  throw : Exception → Result A

infixl 5 ◌>>=◌
abbrev pub ◌>>=◌ {α β} : {S : Type α} {T : Type β} → Result S → (S → Result T) → Result T
throw x >>= next = throw x
ok s >>= next = next s

pub Result-cases {ℓ} :
    {A : Type ℓ} (r : Result A) → ((x : Exception) × (r ≡ throw x)) ⊎ ((a : A) × (r ≡ ok a))
Result-cases (throw x) = inl (x, refl)
Result-cases (ok a) = inr (a, refl)

-- What holds of the value, if there is one.
abbrev pub Returns {ℓ κ} : {A : Type ℓ} → (A → Type κ) → Result A → Type κ
Returns P (ok a) = P a
Returns P (throw x) = Unit

pub Returns-mono {ℓ κ μ} :
    {A : Type ℓ} (P : A → Type κ) (Q : A → Type μ)
    → ((a : A) → P a → Q a)
    → (r : Result A) → Returns P r
    → Returns Q r
Returns-mono P Q f (ok a) h = f a h
Returns-mono P Q f (throw x) h = tt

-- The rule for a bind.
pub Returns->>= {ℓ κ μ ν} :
    {A : Type ℓ} {B : Type κ} (P : A → Type μ) (Q : B → Type ν) (m : Result A) (f : A → Result B)
    → Returns P m
    → ((a : A) → P a → Returns Q (f a))
    → Returns Q (m >>= f)
Returns->>= P Q (ok a) f h k = k a h
Returns->>= P Q (throw x) f h k = tt

-- The rule for a bind with the equation of its first step.
pub Returns-known {ℓ κ ν} :
    {A : Type ℓ} {B : Type κ} (Q : B → Type ν) (m : Result A) (f : A → Result B)
    → ((a : A) → m ≡ ok a → Returns Q (f a))
    → Returns Q (m >>= f)
Returns-known Q (ok a) f k = k a refl
Returns-known Q (throw x) f k = tt

-- The rule for a bind whose first step does not matter.
pub Returns-then {ℓ κ ν} :
    {A : Type ℓ} {B : Type κ} (Q : B → Type ν) (m : Result A) (f : A → Result B)
    → ((a : A) → Returns Q (f a))
    → Returns Q (m >>= f)
Returns-then Q (ok a) f k = k a
Returns-then Q (throw x) f k = tt

pub Returns-× {ℓ κ μ} :
    {A : Type ℓ} (P : A → Type κ) (Q : A → Type μ) (r : Result A)
    → Returns P r
    → Returns Q r
    → Returns (λ a. P a × Q a) r
Returns-× P Q (ok a) h k = (h, k)
Returns-× P Q (throw x) h k = tt

pub Returns-trivial {ℓ} : {A : Type ℓ} (r : Result A) → Returns (λ _. Unit {0}) r
Returns-trivial (ok a) = tt
Returns-trivial (throw x) = tt
