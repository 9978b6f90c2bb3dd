-- ===== src/Base/Outcome.antt =====
-- Rust's `Result<A, E>`, with the `?` operator as bind.
use mathlib.Core.Path.{◌≡◌, refl}
use mathlib.Core.Logic.{◌⊎◌, inl, inr}
use mathlib.Core.Bool.{Bool, true, false}
use native.Mathlib.Omega.{arith}

pub data Result {ℓ κ} (E : Type κ) (A : Type ℓ) : Type (ℓ ⊔ κ) where
  ok : A → Result E A
  err : E → Result E A

infixl 5 ◌>>=◌ ◌>>◌
abbrev pub ◌>>=◌ {ℓ μ κ} :
    {E : Type κ} {A : Type ℓ} {B : Type μ} → Result E A → (A → Result E B) → Result E B
ok a >>= f = f a
err e >>= f = err e

abbrev pub ◌>>◌ {ℓ κ} : {E : Type κ} {B : Type ℓ} → Result E (Unit {0}) → Result E B → Result E B
m >> k = m >>= λ _. k

-- `if test { return Err(error); }`
abbrev pub refuse_if {κ} : {E : Type κ} → Bool → E → Result E (Unit {0})
refuse_if true error = err error
refuse_if false error = ok tt

-- What holds of the value, if there is one.
module _ {ℓ κ μ} {E : Type κ} {B : Type ℓ} (Q : B → Type μ) where
  abbrev pub Yields : Result E B → Type (ℓ ⊔ κ ⊔ μ)
  Yields r = (b : B) → r ≡ ok b → Q b

  pub Yields-bind {ν} :
      {A : Type ν} (r : Result E A) (f : A → Result E B)
      → ((a : A) → r ≡ ok a → Yields (f a))
      → Yields (r >>= f)
  Yields-bind (ok a) f k = k a refl
  Yields-bind (err e) f k = λ b h. absurd (ground arith)

  pub Yields-refuse_if :
      (test : Bool) (e : E) (f : Result E B)
      → (test ≡ false → Yields f)
      → Yields (refuse_if test e >> f)
  Yields-refuse_if true e f k = λ b h. absurd (ground arith)
  Yields-refuse_if false e f k = k refl

pub ok-injective : {E A : Type 0} {a b : A} → ◌≡◌ {A = Result E A} (ok a) (ok b) → a ≡ b
ok-injective h = ground arith

pub Result-cases :
    {E A : Type 0} (r : Result E A) → ((a : A) × (r ≡ ok a)) ⊎ ((e : E) × (r ≡ err e))
Result-cases (ok a) = inl (a, refl)
Result-cases (err e) = inr (e, refl)
