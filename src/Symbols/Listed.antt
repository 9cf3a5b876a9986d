-- ===== src/Symbols/Listed.antt =====
-- The symbols that a file declares, in order, and that the table has them all.
use retro_doc.Prelude.{
  ℕ, ◌<◌, ◌==◌, Text, text_eq, text_eq_sound, show_nat, show_nat-injective, show_nat-All, true,
  false, [], ◌∷◌, ◌++◌, ◌≡◌, ◌∙◌, sym, ap, refl, All, Bool-cases, inl, inr, arith,
}
use retro_doc.Strings.{has_char, last_segment}
use retro_doc.Symbols.Table.{Declared, symbol_id}

last_segment-append :
    (d : ℕ) (s t : Text)
    → has_char d t ≡ true
    → (has_char d (s ++ t) ≡ true) × (last_segment d (s ++ t) ≡ last_segment d t)
unfolding has_char last_segment
last_segment-append d [] t h = (h, refl)
last_segment-append d (c ∷ s) t h =
    let (k, e) = last_segment-append d s t h in (ground (arith, k), rw (k, last_segment) e)

NoChar-has_char : (d : ℕ) (s : Text) → All (λ c. (c == d) ≡ false) s → has_char d s ≡ false
unfolding has_char
NoChar-has_char d [] h = refl
NoChar-has_char d (c ∷ s) h = rw (h.0, has_char) (NoChar-has_char d s h.1)

-- An identity ends in its number.
last_segment-symbol_id : (d : Declared) (n : ℕ) → last_segment b'_' (symbol_id d n) ≡ show_nat n
unfolding symbol_id has_char last_segment
last_segment-symbol_id d n =
    let number = b'_' ∷ show_nat n in
    let digits =
      NoChar-has_char b'_' (show_nat n)
        (show_nat-All (λ c. (c == b'_') ≡ false) (λ k h. ground (arith, h)) n) in
    let after_number : last_segment b'_' number ≡ show_nat n = rw (digits, last_segment) refl in
    let (h1, e1) = last_segment-append b'_' (b'_' ∷ d.name) number (ground arith) in
    let (h2, e2) = last_segment-append b'_' (b'_' ∷ d.scope) (b'_' ∷ (d.name ++ number)) h1 in
    let (h3, e3) =
      last_segment-append b'_' d.symbol_type (b'_' ∷ (d.scope ++ b'_' ∷ (d.name ++ number))) h2 in
    e3 ∙ (e2 ∙ (e1 ∙ after_number))

symbol_id-injective : (d e : Declared) (m n : ℕ) → symbol_id d m ≡ symbol_id e n → m ≡ n
symbol_id-injective d e m n h =
    show_nat-injective m n
      (sym (last_segment-symbol_id d m) ∙ (ap (last_segment b'_') h ∙ last_segment-symbol_id e n))

pub symbol_id-other :
    (d e : Declared) (m n : ℕ) → m < n → text_eq (symbol_id d m) (symbol_id e n) ≡ false
symbol_id-other d e m n h = elim (Bool-cases (text_eq (symbol_id d m) (symbol_id e n))) [
  | inl k ↦ absurd (
      omega
        (arith, h, symbol_id-injective d e m n (text_eq_sound (symbol_id d m) (symbol_id e n) k)))
  | inr k ↦ k
]
