-- ===== src/Prelude/Fallible.antt =====
-- A value or an error.
use mathlib.Core.Path.{◌≡◌, refl}

pub data Result {ℓ} (E A : Type ℓ) : Type ℓ where
  ok : A → Result E A
  err : E → Result E A

module _ {ℓ} {E A : Type ℓ} where
  pub ok-injective : {x y : A} → ◌≡◌ {A = Result E A} (ok x) (ok y) → x ≡ y
  ok-injective same = cc

module _ {ℓ} {E A B : Type ℓ} where
  infixl 5 ◌>>=◌
  abbrev pub ◌>>=◌ : Result E A → (A → Result E B) → Result E B
  err why >>= next = err why
  ok x >>= next = next x

  -- A chain succeeds when its first part does and the rest does on what that returned.
  pub >>=-eq-ok :
      (first : Result E A) (next : A → Result E B) {y : B} (whole : (first >>= next) ≡ ok y)
      → (x : A) × (first ≡ ok x) × (next x ≡ ok y)
  >>=-eq-ok (err why) next whole = cc
  >>=-eq-ok (ok x) next whole = (x, refl, whole)
