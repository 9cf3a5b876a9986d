-- ===== src/Prelude/Results.antt =====
-- What a Python function that may raise comes to: its value, or the exception.
use mathlib.Core.Path.{◌≡◌, refl}
use mathlib.Core.Logic.{◌⊎◌, inl, inr}

pub data Result (E A : Type 0) : Type 0 where
  err : (raised : E) → Result E A
  ok : (value : A) → Result E A

module _ {E : Type 0} where
  -- An exception ends the block.
  infixl 5 ◌>>=◌
  abbrev pub ◌>>=◌ : {A B : Type 0} (first : Result E A) (rest : A → Result E B) → Result E B
  first >>= rest = elim first [ err raised ↦ err raised | ok value ↦ rest value ]

  abbrev Same : {A : Type 0} → Result E A → Result E A → Type 0
  Same r r' = r ≡ r'

  pub ok_injective : {A : Type 0} (x y : A) → Same (ok x) (ok y) → x ≡ y
  ok_injective x y same = cc

  -- A block that ends with a value has one at each step.
  pub ok-first :
      {A B : Type 0} (first : Result E A) (rest : A → Result E B) {y : B}
      → Same (first >>= rest) (ok y)
      → (x : A) × Same first (ok x) × Same (rest x) (ok y)
  ok-first (err raised) rest same = cc
  ok-first (ok value) rest same = (value, refl, same)

  pub Result-cases :
      {A : Type 0} (r : Result E A)
      → ((value : A) × Same r (ok value)) ⊎ ((raised : E) × Same r (err raised))
  Result-cases (err raised) = inr (raised, refl)
  Result-cases (ok value) = inl (value, refl)
