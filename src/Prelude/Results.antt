-- ===== src/Prelude/Results.antt =====
-- Results of fallible Go functions, for each type of errors, and their `do` blocks.

use mathlib.Core.Path.{◌≡◌, refl}
use mathlib.Core.Logic.{◌⊎◌, inl, inr}
use mathlib.Core.Bool.{Bool, true, false}

pub data Result {ℓ κ} (E : Type κ) (A : Type ℓ) : Type (ℓ ⊔ κ) where
  ok : A → Result E A
  err : E → Result E A

-- `if !test { return failure }`
abbrev pub guard {κ} : {E : Type κ} → Bool → E → Result E (Unit {0})
guard true failure = ok tt
guard false failure = err failure

infixl 5 ◌>>=◌ ◌>>◌
-- A call that returns only an error, and what follows it.
abbrev pub ◌>>◌ {ℓ κ} : {E : Type κ} {B : Type ℓ} → Result E (Unit {0}) → Result E B → Result E B
ok _ >> next = next
err failure >> next = err failure

abbrev pub ◌>>=◌ {ℓ κ μ} :
    {E : Type κ} {A : Type ℓ} {B : Type μ} → Result E A → (A → Result E B) → Result E B
ok value >>= next = next value
err failure >>= next = err failure

-- Whether a call returned no error.
abbrev pub is_ok {ℓ κ} : {E : Type κ} {A : Type ℓ} → Result E A → Bool
is_ok (ok _) = true
is_ok (err _) = false

pub ok-injective {ℓ κ} :
    {E : Type κ} {A : Type ℓ} {a b : A} → ◌≡◌ {A = Result E A} (ok a) (ok b) → a ≡ b
ok-injective h = cc

pub guard-true {κ} : {E : Type κ} (b : Bool) (e : E) → guard b e ≡ ok tt → b ≡ true
guard-true true e h = refl
guard-true false e h = cc

pub Result-cases {ℓ κ} :
    {E : Type κ} {A : Type ℓ} (r : Result E A) → ((a : A) × (r ≡ ok a)) ⊎ ((e : E) × (r ≡ err e))
Result-cases (ok a) = inl (a, refl)
Result-cases (err e) = inr (e, refl)

pub >>-ok {ℓ κ} :
    {E : Type κ} {A : Type ℓ} (m : Result E (Unit {0})) (n : Result E A) {a : A}
    → (m >> n) ≡ ok a
    → m ≡ ok tt
>>-ok (ok tt) n h = refl
>>-ok (err e) n h = cc

pub >>-ok_right {ℓ κ} :
    {E : Type κ} {A : Type ℓ} (m : Result E (Unit {0})) (n : Result E A) {a : A}
    → (m >> n) ≡ ok a
    → n ≡ ok a
>>-ok_right (ok tt) n h = h
>>-ok_right (err e) n h = cc

-- What a successful sequence of two calls says of each.
pub >>=-eq-ok {ℓ κ μ} :
    {E : Type κ} {A : Type ℓ} {B : Type μ} (call : Result E A) (next : A → Result E B) {answer : B}
    → (call >>= next) ≡ ok answer
    → (value : A) × (call ≡ ok value) × (next value ≡ ok answer)
>>=-eq-ok (err failure) next done = cc
>>=-eq-ok (ok value) next done = (value, refl, done)

-- What a guard that was passed says, and what follows it.
pub guard-passed {ℓ κ} :
    {E : Type κ} {A : Type ℓ} (b : Bool) (e : E) (next : Result E A) {answer : A}
    → (guard b e >> next) ≡ ok answer
    → (b ≡ true) × (next ≡ ok answer)
guard-passed true e next h = (refl, h)
guard-passed false e next h = cc
