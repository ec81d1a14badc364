-- ===== src/Base/Outcome.antt =====
-- The outcome of a C call. `failed` is a NULL or `false` that the code returns on purpose; `fault`
-- is undefined behaviour: an access outside an object, or a shift by the width of the type.
use mathlib.Core.Path.{◌≡◌, refl, subst}
use mathlib.Core.Logic.{◌⊎◌, inl, inr}
use mathlib.Core.Bool.{Bool, true, false}

pub data Result {ℓ} (A : Type ℓ) : Type ℓ where
  ok : A → Result A
  failed fault : Result A

-- The rest of a function runs on what a call has returned.
infixl 5 ◌>>=◌
abbrev pub ◌>>=◌ {ℓ ℓ'} :
    {Value : Type ℓ} {Next : Type ℓ'} → Result Value → (Value → Result Next) → Result Next
failed >>= rest = failed
fault >>= rest = fault
ok value >>= rest = rest value

-- The same where the call returns nothing.
infixl 5 ◌>>◌
abbrev pub ◌>>◌ {ℓ} : {Next : Type ℓ} → Result (Unit {0}) → Result Next → Result Next
call >> rest = call >>= λ nothing. rest

-- `if (!test) return NULL;`
abbrev pub require : Bool → Result (Unit {0})
require true = ok tt
require false = failed

-- An access that is defined only where the test holds.
abbrev pub defined : Bool → Result (Unit {0})
defined true = ok tt
defined false = fault

pub defined-ok : (b : Bool) → defined b ≡ ok tt → b ≡ true
defined-ok true e = refl
defined-ok false e = cc

module _ {ℓ ℓ'} {Value : Type ℓ} {Next : Type ℓ'} where
  -- Where a sequence returns, its first call has returned, and so has the rest.
  pub >>=-ok :
      (call : Result Value) (rest : Value → Result Next) {out : Next}
      → (call >>= rest) ≡ ok out
      → (value : Value) × (call ≡ ok value) × (rest value ≡ ok out)
  >>=-ok failed rest returns = cc
  >>=-ok fault rest returns = cc
  >>=-ok (ok value) rest returns = (value, refl, returns)

pub Result-cases {ℓ} :
    {A : Type ℓ} (r : Result A) → (((a : A) × (r ≡ ok a)) ⊎ (r ≡ failed)) ⊎ (r ≡ fault)
Result-cases (ok a) = inl (inl (a, refl))
Result-cases failed = inl (inr refl)
Result-cases fault = inr refl

-- A predicate on the value of a call that returns one.
abbrev pub IsWhenOk {ℓ κ} : {A : Type ℓ} → (A → Type κ) → Result A → Type κ
IsWhenOk P (ok a) = P a
IsWhenOk P failed = Unit
IsWhenOk P fault = Unit

module _ {ℓ ℓ' κ} {A : Type ℓ} {B : Type ℓ'} (P : B → Type κ) where
  pub >>=-IsWhenOk :
      (m : Result A) (f : A → Result B)
      → ((a : A) → m ≡ ok a → IsWhenOk P (f a))
      → IsWhenOk P (m >>= f)
  >>=-IsWhenOk (ok a) f h = h a refl
  >>=-IsWhenOk failed f h = tt
  >>=-IsWhenOk fault f h = tt

module _ {ℓ κ} {A : Type ℓ} (P : A → Type κ) where
  pub IsWhenOk-ok : (m : Result A) {a : A} → IsWhenOk P m → m ≡ ok a → P a
  IsWhenOk-ok m h e = subst (IsWhenOk P) e h
