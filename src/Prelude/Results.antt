-- ===== src/Prelude/Results.antt =====
-- Results that are a value or an error, for the static assertions, exceptions and faults.
use mathlib.Core.Path.{◌≡◌, refl}
use mathlib.Core.Bool.{Bool, true, false}

pub data Result {ℓ κ} (E : Type ℓ) (A : Type κ) : Type (ℓ ⊔ κ) where
  ok : A → Result E A
  err : E → Result E A

infixl 5 ◌>>=◌ ◌>>◌
abbrev pub ◌>>=◌ {ℓ κ μ} :
    {E : Type ℓ} {A : Type κ} {B : Type μ} → Result E A → (A → Result E B) → Result E B
err fault >>= next = err fault
ok value >>= next = next value

abbrev pub ◌>>◌ {ℓ κ} : {E : Type ℓ} {B : Type κ} → Result E (Unit {0}) → Result E B → Result E B
check >> next = check >>= λ done. next

abbrev pub guard {ℓ} : {E : Type ℓ} → Bool → E → Result E (Unit {0})
guard false fault = err fault
guard true fault = ok tt

-- What a bind and a guard that succeed have run.
pub guard-eq-ok {ℓ κ} :
    {E : Type ℓ} {B : Type κ} (holds : Bool) (fault : E) (next : Result E B) {result : B}
    → (guard holds fault >> next) ≡ ok result
    → (holds ≡ true) × (next ≡ ok result)
guard-eq-ok false fault next eq = cc
guard-eq-ok true fault next eq = (refl, eq)

pub >>=-eq-ok {ℓ κ μ} :
    {E : Type ℓ} {A : Type κ} {B : Type μ} (first : Result E A) (next : A → Result E B) {result : B}
    → (first >>= next) ≡ ok result
    → (value : A) × (first ≡ ok value) × (next value ≡ ok result)
>>=-eq-ok (err fault) next eq = cc
>>=-eq-ok (ok value) next eq = (value, refl, eq)

-- A property of the value, if there is one.
abbrev pub Ensures {ℓ κ μ} : {E : Type ℓ} {A : Type κ} → (A → Type μ) → Result E A → Type μ
Ensures P (ok value) = P value
Ensures P (err fault) = Unit

pub Ensures-bind {ℓ κ μ ν ρ} :
    {E : Type ℓ} {A : Type κ} {B : Type μ} (P : A → Type ν) (Q : B → Type ρ) (first : Result E A)
    (next : A → Result E B)
    → Ensures P first
    → ((value : A) → P value → Ensures Q (next value))
    → Ensures Q (first >>= next)
Ensures-bind P Q (err fault) next p q = tt
Ensures-bind P Q (ok value) next p q = q value p

pub Ensures-any {ℓ κ μ ν} :
    {E : Type ℓ} {A : Type κ} {B : Type μ} (Q : B → Type ν) (first : Result E A)
    (next : A → Result E B)
    → ((value : A) → Ensures Q (next value))
    → Ensures Q (first >>= next)
Ensures-any Q (err fault) next q = tt
Ensures-any Q (ok value) next q = q value

pub Ensures-ok {ℓ κ μ} :
    {E : Type ℓ} {A : Type κ} (P : A → Type μ) (r : Result E A) {value : A}
    → Ensures P r
    → r ≡ ok value
    → P value
Ensures-ok P (err fault) p eq = cc
Ensures-ok P (ok other) {value} p eq = let same : other ≡ value = cc eq in rw same at p
