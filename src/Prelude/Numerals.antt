-- ===== src/Prelude/Numerals.antt =====
-- Decimal numerals: what is printed reads back as the number.
use Prim.Native.Nat.{ℕ, zero, suc, ◌+◌, ◌-◌, ◌*◌, ◌/◌, ◌%◌, ◌<◌, ◌≤◌, compare, Ordering}
use mathlib.Core.Path.{◌≡◌, refl, ap, subst, sym, ◌∙◌}
use mathlib.Core.Logic.{◌⊎◌, inl, inr}
use mathlib.Core.List.{[], ◌∷◌}
use native.Mathlib.Omega.{arith, compare-lt, compare-eq, compare-gt}
use retro_doc.Prelude.Lists.{All}
use retro_doc.Prelude.Texts.{Text, show_nat_from, show_nat, char_of_digit}

-- The value of the digits after those whose value is `n`.
unfoldable read_digits : ℕ → Text → ℕ
read_digits n [] = n
read_digits n (c ∷ s) = read_digits (n * 10 + (c - 48)) s

-- One digit is left, or the last one is put down.
abbrev Round : ℕ → ℕ → Text → Type 0
Round fuel n rest =
    ((n < 10) × (show_nat_from (suc fuel) n rest ≡ char_of_digit n ∷ rest))
    ⊎ ((10 ≤ n)
        × (show_nat_from (suc fuel) n rest
            ≡ show_nat_from fuel (n / 10) (char_of_digit (n % 10) ∷ rest)))

show_nat_from-Round : (fuel n : ℕ) (rest : Text) → Round fuel n rest
unfolding show_nat_from
show_nat_from-Round fuel n rest =
    elim (compare n 10) as (λ x. compare n 10 ≡ x → Round fuel n rest) [
      | Ordering.lt ↦ λ e. inl (compare-lt n 10 e, rw (e, show_nat_from) refl)
      | Ordering.eq ↦ λ e. inr (omega (arith, compare-eq n 10 e), rw (e, show_nat_from) refl)
      | Ordering.gt ↦ λ e. inr (omega (arith, compare-gt n 10 e), rw (e, show_nat_from) refl)
    ]
      refl

read_digits-show_nat_from :
    (fuel n : ℕ) (rest : Text)
    → n < fuel
    → read_digits 0 (show_nat_from fuel n rest) ≡ read_digits n rest
unfolding read_digits
read_digits-show_nat_from zero n rest h = absurd (omega (arith, h))
read_digits-show_nat_from (suc fuel) n rest h =
    let r = read_digits-show_nat_from fuel (n / 10) (char_of_digit (n % 10) ∷ rest) in
    elim (show_nat_from-Round fuel n rest) [
      | inl (k, e) ↦ ap (read_digits 0) e ∙ ap (λ m. read_digits m rest) (omega (arith, k))
      | inr (k, e) ↦
          ap (read_digits 0) e
          ∙ (r (omega (arith, h, k)) ∙ ap (λ m. read_digits m rest) (omega (arith, k)))
    ]

pub show_nat-injective : (m n : ℕ) → show_nat m ≡ show_nat n → m ≡ n
unfolding show_nat read_digits
show_nat-injective m n h =
    sym (read_digits-show_nat_from (suc m) m [] (omega arith))
    ∙ (ap (read_digits 0) h ∙ read_digits-show_nat_from (suc n) n [] (omega arith))

module _ (P : ℕ → Type 0) (digits : (d : ℕ) → d < 10 → P (char_of_digit d)) where
  show_nat_from-All : (fuel n : ℕ) (rest : Text) → All P rest → All P (show_nat_from fuel n rest)
  unfolding show_nat_from
  show_nat_from-All zero n rest h = h
  show_nat_from-All (suc fuel) n rest h =
      let r =
        show_nat_from-All fuel (n / 10) (char_of_digit (n % 10) ∷ rest)
          (digits (n % 10) (omega arith), h) in
      elim (show_nat_from-Round fuel n rest) [
        | inl (k, e) ↦ subst (All P) (sym e) (digits n k, h)
        | inr (k, e) ↦ subst (All P) (sym e) r
      ]

  -- What holds of the ten digits holds of every numeral.
  pub show_nat-All : (n : ℕ) → All P (show_nat n)
  unfolding show_nat
  show_nat-All n = show_nat_from-All (suc n) n [] tt
