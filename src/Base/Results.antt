-- ===== src/Base/Results.antt =====
-- A value, or the error that a Go function returns in its place.
use mathlib.Core.Path.{◌≡◌, refl}
use mathlib.Core.Logic.{◌⊎◌, inl, inr}
use mathlib.Core.Bool.{Bool, true, false}

pub data Result {ℓ κ} (E : Type ℓ) (A : Type κ) : Type (ℓ ⊔ κ) where
  err : E → Result E A
  ok : A → Result E A

-- `if bad { return e }`
abbrev pub fail_if {ℓ} : {E : Type ℓ} → Bool → E → Result E (Unit {0})
fail_if bad e = elim bad [ true ↦ err e | false ↦ ok tt ]

-- What follows a call runs where the call returned no error.
infixl 5 ◌>>=◌
abbrev pub ◌>>=◌ {ℓ κ ν} :
    {E : Type ℓ} {A : Type κ} {B : Type ν} → Result E A → (A → Result E B) → Result E B
call >>= then_do = elim call [ err e ↦ err e | ok a ↦ then_do a ]

infixl 5 ◌>>◌
abbrev pub ◌>>◌ {ℓ ν} : {E : Type ℓ} {B : Type ν} → Result E (Unit {0}) → Result E B → Result E B
call >> rest = call >>= λ done. rest

-- A chain that succeeds has passed its first step.
pub >>=-eq-ok {ℓ κ ν} :
    {E : Type ℓ} {A : Type κ} {B : Type ν} (call : Result E A) (then_do : A → Result E B) {b : B}
    → (call >>= then_do) ≡ ok b
    → (a : A) × (call ≡ ok a) × (then_do a ≡ ok b)
>>=-eq-ok (err e) then_do h = cc
>>=-eq-ok (ok a) then_do h = (a, refl, h)

pub fail_if-eq-ok {ℓ κ} :
    {E : Type ℓ} {B : Type κ} (bad : Bool) (e : E) (rest : Result E B) {x : B}
    → (fail_if bad e >> rest) ≡ ok x
    → (bad ≡ false) × (rest ≡ ok x)
fail_if-eq-ok true e rest h = cc
fail_if-eq-ok false e rest h = (refl, h)

pub Result-cases {ℓ κ} :
    {E : Type ℓ} {A : Type κ} (call : Result E A)
    → ((e : E) × (call ≡ err e)) ⊎ ((a : A) × (call ≡ ok a))
Result-cases (err e) = inl (e, refl)
Result-cases (ok a) = inr (a, refl)
