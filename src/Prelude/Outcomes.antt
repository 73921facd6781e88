-- ===== src/Prelude/Outcomes.antt =====
-- What a Go function with an `error` result does: it returns a value, returns an error, or panics
-- (an index out of range). A panic passes through every caller.
use mathlib.Core.Path.{◌≡◌, refl}
use mathlib.Core.Logic.{◌⊎◌, inl, inr}

pub data Outcome {ℓ} (E : Type 0) (A : Type ℓ) : Type ℓ where
  ok : A → Outcome E A
  err : E → Outcome E A
  panic : Outcome E A

infixl 5 ◌>>=◌ ◌>>◌
abbrev pub ◌>>=◌ {ℓ κ} :
    {E : Type 0} {A : Type ℓ} {B : Type κ} → Outcome E A → (A → Outcome E B) → Outcome E B
ok a >>= f = f a
err e >>= f = err e
panic >>= f = panic

abbrev pub ◌>>◌ {ℓ κ} :
    {E : Type 0} {A : Type ℓ} {B : Type κ} → Outcome E A → Outcome E B → Outcome E B
m >> k = m >>= λ _. k

pub Outcome-cases {ℓ} :
    {E : Type 0} {A : Type ℓ} (m : Outcome E A)
    → ((a : A) × (m ≡ ok a)) ⊎ (((e : E) × (m ≡ err e)) ⊎ (m ≡ panic))
Outcome-cases (ok a) = inl (a, refl)
Outcome-cases (err e) = inr (inl (e, refl))
Outcome-cases panic = inr (inr refl)

pub ok_injective {ℓ} :
    {E : Type 0} {A : Type ℓ} {a b : A} → Path (Outcome E A) (ok a) (ok b) → a ≡ b
ok_injective h = cc

pub err_not_ok {ℓ} :
    {E : Type 0} {A : Type ℓ} {e : E} {a : A} → Path (Outcome E A) (err e) (ok a) → ⊥
err_not_ok h = cc

pub panic_not_ok {ℓ} : {E : Type 0} {A : Type ℓ} {a : A} → Path (Outcome E A) panic (ok a) → ⊥
panic_not_ok h = cc
