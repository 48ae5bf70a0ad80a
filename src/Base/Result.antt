-- ===== src/Base/Result.antt =====
-- Python's exceptions as values: what a call returns or raises. A method that changes its object
-- before it raises gives the object's state beside the result.
pub data Result {ℓ κ} (E : Type ℓ) (A : Type κ) : Type (ℓ ⊔ κ) where
  ok : A → Result E A
  err : E → Result E A

infixl 5 ◌>>=◌ ◌>>◌
abbrev pub ◌>>=◌ {ℓ κ ν} :
    {E : Type ℓ} {A : Type κ} {B : Type ν} → Result E A → (A → Result E B) → Result E B
ok a >>= f = f a
err e >>= f = err e

abbrev pub ◌>>◌ {ℓ κ ν} :
    {E : Type ℓ} {A : Type κ} {B : Type ν} → Result E A → Result E B → Result E B
m >> k = m >>= λ _. k

-- What a call returns, if it returns, has the property.
abbrev pub Succeeds {ℓ κ ν} : {E : Type ℓ} {A : Type κ} → (A → Type ν) → Result E A → Type ν
Succeeds P (ok a) = P a
Succeeds P (err e) = Unit

pub Succeeds-bind {ℓ κ ν μ ρ} :
    {E : Type ℓ} {A : Type κ} {B : Type ν} (P : A → Type μ) (Q : B → Type ρ) (m : Result E A)
    (f : A → Result E B)
    → Succeeds P m
    → ((a : A) → P a → Succeeds Q (f a))
    → Succeeds Q (m >>= f)
Succeeds-bind P Q (ok a) f h g = g a h
Succeeds-bind P Q (err e) f h g = tt
