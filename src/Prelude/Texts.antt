-- ===== src/Prelude/Texts.antt =====
-- Python `str` as a list of code points, its equality, and decimal printing (`f"{n}"`).
use Prim.Native.Nat.{ℕ, zero, suc, ◌+◌, ◌/◌, ◌%◌, compare, Ordering}
use Prim.Native.Char.{code}
use Prim.Native.String.{String}
use mathlib.Core.Path.{◌≡◌, refl}
use mathlib.Core.Logic.{◌↔◌}
use mathlib.Core.Bool.{Bool, true, false, ◌&&◌}
use mathlib.Core.List.{List, [], ◌∷◌}
use native.Mathlib.Omega.{arith}

abbrev pub Text : Type 0
Text = List ℕ

abbrev pub codes : String → List ℕ
codes String.[] = []
codes (String.◌∷◌ c s) = code c ∷ codes s

abbrev pub text : String → Text
text s = codes s

abbrev pub char_of_digit : ℕ → ℕ
char_of_digit n = 48 + n

-- The digits of `n` in front of `rest`; `fuel` bounds their number.
unfoldable pub show_nat_from : ℕ → ℕ → Text → Text
show_nat_from zero n rest = rest
show_nat_from (suc fuel) n rest =
    let more = show_nat_from fuel (n / 10) (char_of_digit (n % 10) ∷ rest) in
    elim (compare n 10) [ Ordering.lt ↦ char_of_digit n ∷ rest | _ ↦ more ]

-- A number has at most as many digits as its value plus one.
unfoldable pub show_nat : ℕ → Text
unfolding show_nat_from
show_nat n = show_nat_from (suc n) n []

abbrev code_eq : ℕ → ℕ → Bool
code_eq a b = elim (compare a b) [ Ordering.eq ↦ true | _ ↦ false ]

unfoldable pub text_eq : Text → Text → Bool
text_eq [] [] = true
text_eq (a ∷ s) (b ∷ t) = code_eq a b && text_eq s t
text_eq _ _ = false

pub text_eq_refl : (s : Text) → text_eq s s ≡ true
unfolding text_eq
text_eq_refl [] = refl
text_eq_refl (a ∷ s) = ground (arith, text_eq_refl s)

pub text_eq_sound : (s t : Text) → text_eq s t ≡ true → s ≡ t
unfolding text_eq
text_eq_sound [] [] h = refl
text_eq_sound [] (b ∷ t) h = ground arith
text_eq_sound (a ∷ s) [] h = ground arith
text_eq_sound (a ∷ s) (b ∷ t) h = ground (arith, text_eq_sound s t)

pub text_eq_iff : (s t : Text) → (text_eq s t ≡ true) ↔ (s ≡ t)
text_eq_iff s t = (text_eq_sound s t, λ e. rw e (text_eq_refl t))
