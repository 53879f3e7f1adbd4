-- ===== src/Common/Results.antt =====
-- Results of code that throws: a value or the error thrown, with `do`.
use mathlib.Core.Path.{◌≡◌, refl, subst}
use mathlib.Core.Bool.{Bool, true, false}
use mathlib.Core.Logic.{◌⊎◌, inl, inr}

pub data Result {ℓ κ} (E : Type ℓ) (A : Type κ) : Type (ℓ ⊔ κ) where
  ok : A → Result E A
  err : E → Result E A

-- `if (!test) throw thrown;`
abbrev pub require {ℓ} : {E : Type ℓ} → Bool → E → Result E (Unit {0})
require false thrown = err thrown
require true thrown = ok tt

module _ {ℓ κ μ} {E : Type ℓ} {A : Type κ} {B : Type μ} where
  -- What was thrown goes on; a value goes to the rest of the block.
  infixl 5 ◌>>=◌
  abbrev pub ◌>>=◌ : Result E A → (A → Result E B) → Result E B
  err thrown >>= rest = err thrown
  ok value >>= rest = rest value

  -- A block that returns has a first step that returns.
  pub >>=-eq-ok :
      (step : Result E A) (rest : A → Result E B) {answer : B}
      → (step >>= rest) ≡ ok answer
      → (value : A) × (step ≡ ok value) × (rest value ≡ ok answer)
  >>=-eq-ok (err thrown) rest e = cc
  >>=-eq-ok (ok value) rest e = (value, refl, e)

module _ {ℓ μ} {E : Type ℓ} {B : Type μ} where
  infixl 5 ◌>>◌
  abbrev pub ◌>>◌ : Result E (Unit {0}) → Result E B → Result E B
  step >> rest = step >>= (λ done. rest)

pub Result-cases {ℓ κ} :
    {E : Type ℓ} {A : Type κ} (r : Result E A)
    → ((value : A) × (r ≡ ok value)) ⊎ ((thrown : E) × (r ≡ err thrown))
Result-cases (err thrown) = inr (thrown, refl)
Result-cases (ok value) = inl (value, refl)

-- The rules that go through a block step by step, for what holds of its value.
module _ {E A : Type 0} (P : A → Type 0) where
  pub ensures-ok : (a : A) → P a → (b : A) → ◌≡◌ {A = Result E A} (ok a) (ok b) → P b
  ensures-ok a h b e = let same : a ≡ b = cc in subst P same h

  pub ensures-bind :
      {B : Type 0} (m : Result E B) (f : B → Result E A)
      → ((x : B) → m ≡ ok x → (b : A) → f x ≡ ok b → P b)
      → (b : A) → (m >>= f) ≡ ok b
      → P b
  ensures-bind (ok x) f h b e = h x refl b e
  ensures-bind (err y) f h b e = cc
