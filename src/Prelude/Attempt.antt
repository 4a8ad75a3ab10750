-- ===== src/Prelude/Attempt.antt =====
-- A Python call that returns a value or raises an exception that the caller does not tell apart.
use mathlib.Core.Path.{◌≡◌, refl}

pub data Attempt {ℓ} (A : Type ℓ) : Type ℓ where
  returned : A → Attempt A
  raised : Attempt A

infixl 5 ◌>>=◌
abbrev pub ◌>>=◌ {ℓ κ} : {A : Type ℓ} {B : Type κ} → Attempt A → (A → Attempt B) → Attempt B
returned a >>= f = f a
raised >>= f = raised

-- Inversion of a bind that returned.
pub >>=-returned {ℓ κ} :
    {A : Type ℓ} {B : Type κ} (m : Attempt A) (f : A → Attempt B) {b : B}
    → (m >>= f) ≡ returned b
    → (a : A) × (m ≡ returned a) × (f a ≡ returned b)
>>=-returned (returned a) f h = (a, refl, h)
>>=-returned raised f h = cc
