-- ===== src/Base/Results.antt =====
-- Go's `(T, error)` as one value, for `do`: the result of a call, or the error that it returned.
use mathlib.Core.Path.{◌≡◌, refl, ap}
use mathlib.Core.Logic.{◌⊎◌, ◌↔◌, inl, inr}
use mathlib.Core.Option.{Option, none, some}

pub data Result {ℓ} (E : Type 0) (A : Type ℓ) : Type ℓ where
  err : E → Result E A
  ok : A → Result E A

-- `if err != nil { return err }` between two calls.
infixl 5 ◌>>=◌
abbrev pub ◌>>=◌ {ℓ κ} :
    {E : Type 0} {A : Type ℓ} {B : Type κ} → Result E A → (A → Result E B) → Result E B
r >>= next = elim r [ err why ↦ err why | ok value ↦ next value ]

pub Result-cases {ℓ} :
    {E : Type 0} {A : Type ℓ} (r : Result E A) → ((e : E) × (r ≡ err e)) ⊎ ((a : A) × (r ≡ ok a))
Result-cases (err e) = inl (e, refl)
Result-cases (ok a) = inr (a, refl)

-- A result that is no refusal is the value.
pub ok-injective {ℓ} :
    {E : Type 0} {A : Type ℓ} (a b : A) → ◌≡◌ {A = Result E A} (ok a) (ok b) → a ≡ b
ok-injective {E} {A} a b h = ap (λ (r : Result E A). elim r [ err e ↦ a | ok v ↦ v ]) h

-- Both calls succeed where the two in sequence do.
pub bind-ok {ℓ κ} :
    {E : Type 0} {A : Type ℓ} {B : Type κ} (r : Result E A) (next : A → Result E B) (b : B)
    → (r >>= next) ≡ ok b
    → (a : A) × (r ≡ ok a) × (next a ≡ ok b)
bind-ok (err e) next b h = cc h
bind-ok (ok a) next b h = (a, refl, h)

-- A value that must be there, and an error in the caller's words.
abbrev pub require {ℓ} : {E : Type 0} {A : Type ℓ} → E → Option A → Result E A
require e none = err e
require e (some a) = ok a

abbrev pub wrap {ℓ} : {E F : Type 0} {A : Type ℓ} → (E → F) → Result E A → Result F A
wrap f (err e) = err (f e)
wrap f (ok a) = ok a

pub require-ok {ℓ} :
    {E : Type 0} {A : Type ℓ} (e : E) (o : Option A) (a : A) → (require e o ≡ ok a) ↔ (o ≡ some a)
require-ok e none a = (λ h. cc h, λ h. cc h)
require-ok e (some b) a = (λ h. ap some (ok-injective b a h), λ h. ap (require e) h)

pub wrap-ok {ℓ} :
    {E F : Type 0} {A : Type ℓ} (f : E → F) (r : Result E A) (a : A)
    → (wrap f r ≡ ok a) ↔ (r ≡ ok a)
wrap-ok f (err e) a = (λ h. cc h, λ h. cc h)
wrap-ok f (ok b) a = (λ h. ap ok (ok-injective b a h), λ h. ap (wrap f) h)
