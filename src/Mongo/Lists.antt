-- ===== src/Mongo/Lists.antt =====
-- Lemmas on the list functions that the laws of a collection speak of.
use retro_doc.Prelude.{
  Bool, true, false, ◌||◌, none, some, List, [], ◌∷◌, ◌++◌, ◌≡◌, subst, ap, refl, Bool-cases, inl,
  inr, arith,
}
use retro_doc.Mongo.{find, any, modify_first}
use mathlib.Core.Option.{some-injective}

module _ {D : Type 0} where
  pub any-append : (p : D → Bool) (xs ys : List D) → any p (xs ++ ys) ≡ (any p xs || any p ys)
  unfolding any
  any-append p [] ys = refl
  any-append p (x ∷ xs) ys =
      let r = any-append p xs ys in elim (Bool-cases (p x)) [ inl h ↦ rw h refl | inr h ↦ rw h r ]

  -- An update that does not change a test changes no answer of it.
  pub any-modify_first :
      (p q : D → Bool) (f : D → D) (xs : List D)
      → ((d : D) → q (f d) ≡ q d)
      → any q (modify_first p f xs) ≡ any q xs
  unfolding any modify_first
  any-modify_first p q f [] h = refl
  any-modify_first p q f (x ∷ xs) h =
      let r = any-modify_first p q f xs h in
      elim (Bool-cases (p x)) [ inl e ↦ rw e (rw (h x) refl) | inr e ↦ rw e (rw r refl) ]

  -- The update passes over what does not match.
  pub modify_first-append :
      (p : D → Bool) (f : D → D) (xs : List D) (d : D) (ys : List D)
      → any p xs ≡ false
      → p d ≡ true
      → modify_first p f (xs ++ d ∷ ys) ≡ xs ++ f d ∷ ys
  unfolding any modify_first
  modify_first-append p f [] d ys h e = rw e refl
  modify_first-append p f (x ∷ xs) d ys h e =
      let r = modify_first-append p f xs d ys in
      elim (Bool-cases (p x)) [
        | inl c ↦ absurd (ground (arith, h, c))
        | inr c ↦ rw c (ap (λ zs. x ∷ zs) (r (ground (arith, h, c)) e))
      ]

  -- The update changes nothing, or the first match.
  pub data Modified (p : D → Bool) (f : D → D) (xs ys : List D) : Type 0 where
    unchanged : ys ≡ xs → Modified p f xs ys
    changed :
        (before after : List D) (d : D)
        → p d ≡ true
        → xs ≡ before ++ d ∷ after
        → ys ≡ before ++ f d ∷ after
        → Modified p f xs ys

  pub modify_first-Modified :
      (p : D → Bool) (f : D → D) (xs : List D) → Modified p f xs (modify_first p f xs)
  unfolding modify_first
  modify_first-Modified p f [] = unchanged refl
  modify_first-Modified p f (x ∷ xs) = elim (Bool-cases (p x)) [
    | inl h ↦ changed [] xs x h refl (rw h refl)
    | inr h ↦ rw h (elim (modify_first-Modified p f xs) [
      | unchanged e ↦ unchanged (ap (λ zs. x ∷ zs) e)
      | changed b a d m e e' ↦ changed (x ∷ b) a d m (ap (λ zs. x ∷ zs) e) (ap (λ zs. x ∷ zs) e')
    ])
  ]

  pub find-append :
      (p : D → Bool) (xs : List D) (d : D) (ys : List D)
      → any p xs ≡ false
      → p d ≡ true
      → find p (xs ++ d ∷ ys) ≡ some d
  unfolding any find
  find-append p [] d ys h e = rw e refl
  find-append p (x ∷ xs) d ys h e =
      let r = find-append p xs d ys in
      elim (Bool-cases (p x)) [
        | inl c ↦ absurd (ground (arith, h, c))
        | inr c ↦ rw c (r (ground (arith, h, c)) e)
      ]

  -- A stronger test is met by no more elements.
  pub any-weaken :
      (p q : D → Bool) (xs : List D)
      → ((d : D) → p d ≡ true → q d ≡ true)
      → any q xs ≡ false
      → any p xs ≡ false
  unfolding any
  any-weaken p q [] i h = refl
  any-weaken p q (x ∷ xs) i h =
      let r = any-weaken p q xs i in
      elim (Bool-cases (p x)) [
        | inl c ↦ absurd (ground (arith, h, i x c))
        | inr c ↦ rw c (r (ground (arith, h)))
      ]

  -- What is found meets the test.
  pub find-holds : (p : D → Bool) (xs : List D) (d : D) → find p xs ≡ some d → p d ≡ true
  unfolding find
  find-holds p [] d h = absurd (ground (arith, h))
  find-holds p (x ∷ xs) d h =
      let r = find-holds p xs d in
      elim (Bool-cases (p x)) [
        | inl c ↦ subst (λ y. p y ≡ true) (some-injective _ _ (rw c at h)) c
        | inr c ↦ r (rw c at h)
      ]

  pub find-none : (p : D → Bool) (xs : List D) → find p xs ≡ none → any p xs ≡ false
  unfolding any find
  find-none p [] h = refl
  find-none p (x ∷ xs) h =
      let r = find-none p xs in
      elim (Bool-cases (p x)) [
        | inl c ↦ absurd (ground (arith, rw c at h))
        | inr c ↦ rw c (r (rw c at h))
      ]
