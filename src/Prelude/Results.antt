-- ===== src/Prelude/Results.antt =====
-- A computation that may raise: the value, or the exception.
use mathlib.Core.Path.{◌≡◌, refl, ap}
use mathlib.Core.Logic.{◌⊎◌, inl, inr}

pub data Result {ℓ κ} (E : Type κ) (A : Type ℓ) : Type (ℓ ⊔ κ) where
  ok : A → Result E A
  err : E → Result E A

-- The exception of the first step is that of the whole.
infixl 5 ◌>>=◌
abbrev pub ◌>>=◌ {ε ℓ κ} :
    {E : Type ε} {X : Type ℓ} {Y : Type κ} → Result E X → (X → Result E Y) → Result E Y
err exception >>= next = err exception
ok x >>= next = next x

-- A computation that returns has returned from its first step.
pub >>=-eq-ok {ε ℓ κ} :
    {E : Type ε} {X : Type ℓ} {Y : Type κ} (first : Result E X) (next : X → Result E Y) {y : Y}
    → first >>= next ≡ ok y
    → (x : X) × (first ≡ ok x) × (next x ≡ ok y)
>>=-eq-ok (err exception) next returned = cc
>>=-eq-ok (ok x) next returned = (x, refl, returned)

abbrev value_or {ℓ κ} : {E : Type κ} {A : Type ℓ} → A → Result E A → A
value_or d (ok a) = a
value_or d (err e) = d

pub ok-injective {ℓ κ} :
    {E : Type κ} {A : Type ℓ} {a b : A} → ◌≡◌ {A = Result E A} (ok a) (ok b) → a ≡ b
ok-injective {a = a} e = ap (value_or a) e

abbrev error_or {ℓ κ} : {E : Type κ} {A : Type ℓ} → E → Result E A → E
error_or d (ok a) = d
error_or d (err e) = e

pub err-injective {ℓ κ} :
    {E : Type κ} {A : Type ℓ} {a b : E} → ◌≡◌ {A = Result E A} (err a) (err b) → a ≡ b
err-injective {a = a} e = ap (error_or a) e

pub Result-cases {ε ℓ} :
    {E : Type ε} {A : Type ℓ} (r : Result E A) → ((e : E) × (r ≡ err e)) ⊎ ((a : A) × (r ≡ ok a))
Result-cases (err e) = inl (e, refl)
Result-cases (ok a) = inr (a, refl)
