-- ===== src/Common/Results.antt =====
-- Values or errors, with the `>>=` of a `do` block.
use mathlib.Core.Path.{◌≡◌, refl}
use mathlib.Core.Logic.{◌⊎◌, inl, inr}

pub data Result {ℓ} (E : Type 0) (A : Type ℓ) : Type ℓ where
  ok : A → Result E A
  err : E → Result E A

infixl 5 ◌>>=◌ ◌>>◌
abbrev pub ◌>>=◌ {ℓ κ} :
    {E : Type 0} {A : Type ℓ} {B : Type κ} → Result E A → (A → Result E B) → Result E B
ok a >>= f = f a
err e >>= f = err e

abbrev pub ◌>>◌ {ℓ} : {E : Type 0} {B : Type ℓ} → Result E (Unit {0}) → Result E B → Result E B
m >> k = m >>= λ _. k

pub Result-cases {ℓ} :
    {E : Type 0} {A : Type ℓ} (r : Result E A) → ((a : A) × (r ≡ ok a)) ⊎ ((e : E) × (r ≡ err e))
Result-cases (ok a) = inl (a, refl)
Result-cases (err e) = inr (e, refl)

-- What a chain that succeeds went through: its first step, and then the rest of it.
pub chain_parts {ℓ κ} :
    {E : Type 0} {A : Type ℓ} {B : Type κ} {result : B} (step : Result E A) (rest : A → Result E B)
    → (step >>= rest) ≡ ok result
    → (between : A) × (step ≡ ok between) × (rest between ≡ ok result)
chain_parts (ok between) rest done = (between, refl, done)
chain_parts (err e) rest done = cc
