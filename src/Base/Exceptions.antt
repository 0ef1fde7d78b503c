-- ===== src/Base/Exceptions.antt =====
-- A C++ call that may throw: the value, or the exception's message.
use Prim.Native.String.{String}
use mathlib.Core.Path.{◌≡◌, refl}
use mathlib.Core.Logic.{◌⊎◌, inl, inr}

pub data Attempt {ℓ} (A : Type ℓ) : Type ℓ where
  returned : A → Attempt A
  thrown : String → Attempt A

module _ {ℓ} {A : Type ℓ} where
  pub Attempt-cases :
      (r : Attempt A) → ((message : String) × (r ≡ thrown message)) ⊎ ((a : A) × (r ≡ returned a))
  Attempt-cases (thrown message) = inl (message, refl)
  Attempt-cases (returned a) = inr (a, refl)

  -- A property of the value, if there is one.
  abbrev pub OnReturn {κ} : (A → Type κ) → Attempt A → Type κ
  OnReturn P (returned a) = P a
  OnReturn P (thrown message) = Unit
