-- ===== src/Action.antt =====
-- Code that changes a state and may raise: it gives back the value or the exception, and the state
-- after it.
use retro_doc.Prelude.{Result, ok, err}

abbrev pub Action : Type 0 → Type 0 → Type 0 → Type 0
Action S E A = S → Result E A × S

module _ {S E : Type 0} where
  abbrev pub return : {A : Type 0} → A → Action S E A
  return a = λ s. (ok a, s)

  abbrev pub raise : {A : Type 0} → E → Action S E A
  raise e = λ s. (err e, s)

  abbrev pub lift : {A : Type 0} → Result E A → Action S E A
  lift r = λ s. (r, s)

  unfoldable pub go_on : {A B : Type 0} → Result E A × S → (A → Action S E B) → Result E B × S
  go_on (ok a, s) f = f a s
  go_on (err e, s) f = (err e, s)

  infixl 5 ◌>>=◌
  abbrev pub ◌>>=◌ : {A B : Type 0} → Action S E A → (A → Action S E B) → Action S E B
  m >>= f = λ s. go_on (m s) f

  infixl 5 ◌>>◌
  abbrev pub ◌>>◌ : {A B : Type 0} → Action S E A → Action S E B → Action S E B
  m >> n = λ s. go_on (m s) (λ _. n)
