-- ===== src/Prelude/Errors.antt =====
-- Go's `(value, error)` results as values: `ok a` for a nil error.
use mathlib.Core.Path.{◌≡◌, refl}
use mathlib.Core.Logic.{◌⊎◌, inl, inr}

pub data Result {ℓ κ} (E : Type κ) (A : Type ℓ) : Type (ℓ ⊔ κ) where
  ok : A → Result E A
  err : E → Result E A

infixl 5 ◌>>=◌ ◌>>◌
abbrev pub ◌>>=◌ {ℓ κ μ} :
    {E : Type μ} {A : Type ℓ} {B : Type κ} → Result E A → (A → Result E B) → Result E B
ok a >>= f = f a
err e >>= f = err e

abbrev pub ◌>>◌ {κ μ} : {E : Type μ} {B : Type κ} → Result E (Unit {0}) → Result E B → Result E B
m >> k = m >>= λ _. k

-- A successful chain has a successful first call, whose value the rest was given.
pub >>=-eq-ok {ℓ κ μ} :
    {E : Type μ} {A : Type ℓ} {B : Type κ} (call : Result E A) (rest : A → Result E B) {out : B}
    → (call >>= rest) ≡ ok out
    → (x : A) × (call ≡ ok x) × (rest x ≡ ok out)
>>=-eq-ok (err e) rest h = cc
>>=-eq-ok (ok x) rest h = (x, refl, h)

-- A chain that fails does so at its first call or behind it.
pub >>=-eq-err {ℓ κ μ} :
    {E : Type μ} {A : Type ℓ} {B : Type κ} (call : Result E A) (rest : A → Result E B) {e : E}
    → (call >>= rest) ≡ err e
    → (call ≡ err e) ⊎ ((x : A) × (call ≡ ok x) × (rest x ≡ err e))
>>=-eq-err (err e) rest h = inl cc
>>=-eq-err (ok x) rest h = inr (x, refl, h)

-- The run-time panics of Go that the modelled code can raise, and the panic of an expectation of
-- gomega that fails.
pub data Panic : Type 0 where
  index_out_of_range : Panic
  slice_bounds_out_of_range : Panic
  nil_dereference : Panic
  failed_type_assertion : Panic
  bad_regular_expression : Panic
  failed_expectation : Panic

-- To split on a computed result and keep the equation.
pub Result-cases {ℓ κ} :
    {E : Type κ} {A : Type ℓ} (r : Result E A) → ((e : E) × (r ≡ err e)) ⊎ ((a : A) × (r ≡ ok a))
Result-cases (ok a) = inr (a, refl)
Result-cases (err e) = inl (e, refl)
