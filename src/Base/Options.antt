-- ===== src/Base/Options.antt =====
-- Results that are there or not: a chain of steps, each of which can fail.
use mathlib.Core.Path.{◌≡◌, refl}
use mathlib.Core.Option.{Option, none, some}

infixl 4 ◌>>=◌
abbrev pub ◌>>=◌ {ℓ κ} : {A : Type ℓ} {B : Type κ} → Option A → (A → Option B) → Option B
some value >>= next = next value
none >>= next = none

module _ {ℓ κ} {A : Type ℓ} {B : Type κ} where
  -- A chain with a value has one at its first step.
  pub >>=-eq-some :
      (first : Option A) (next : A → Option B) {result : B}
      → (first >>= next) ≡ some result
      → (value : A) × (first ≡ some value) × (next value ≡ some result)
  >>=-eq-some (some value) next found = (value, refl, found)
  >>=-eq-some none next found = cc
