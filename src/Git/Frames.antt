-- ===== src/Git/Frames.antt =====
-- The pkt-line format as git documents it, a line with four hexadecimal digits of its length in front,
-- and that the reader reads it back.
use retro_doc.Prelude.{
  ℕ, zero, suc, ◌+◌, ◌-◌, ◌*◌, ◌/◌, ◌%◌, ◌≤◌, ◌<◌, ltb, leb, ◌==◌, Text, Bool, true, false, some,
  List, [], ◌∷◌, ◌++◌, ◌≡◌, ◌∙◌, ap, refl, All, length, length-append, take-append, drop-append,
  take, drop, if◌then◌else◌, arith,
}
use retro_doc.Strings.{lstrip, rstrip, is_space}
use retro_doc.Git.Pkt.{
  hex_value, hex_digits, magnitude, signed, after_sign, int_16, flush, line, header_of, header,
  pkt_lines, iter_pkt_lines,
}

abbrev pub hex_digit : ℕ → ℕ
hex_digit d = if ltb d 10 then 48 + d else 87 + d

-- `%04x`
abbrev pub hex4 : ℕ → Text
hex4 n =
    hex_digit (n / 4096)
    ∷ hex_digit (n / 256 % 16)
    ∷ hex_digit (n / 16 % 16)
    ∷ hex_digit (n % 16)
    ∷ []

pub data Packet : Type 0 where
  flush_packet : Packet
  line_packet : Text → Packet

unfoldable pub print : List Packet → Text
print [] = []
print (flush_packet ∷ ps) = hex4 0 ++ print ps
print (line_packet p ∷ ps) = hex4 (4 + length p) ++ (p ++ print ps)

unfoldable pub payloads : List Packet → List Text
payloads [] = []
payloads (flush_packet ∷ ps) = payloads ps
payloads (line_packet p ∷ ps) = p ∷ payloads ps

-- What four digits can say.
abbrev pub Fits : Packet → Type 0
Fits flush_packet = Unit
Fits (line_packet p) = 4 + length p < 65536

hex_value-hex_digit : (d : ℕ) → d < 16 → hex_value (hex_digit d) ≡ some d
unfolding hex_value
hex_value-hex_digit d h = ground arith

-- A hexadecimal digit is no white space, sign, underscore or `x`.
hex_digit_plain :
    (d : ℕ)
    → d < 16
    → (is_space (hex_digit d) ≡ false)
      × ((hex_digit d == b'-') ≡ false)
      × ((hex_digit d == b'+') ≡ false)
      × ((hex_digit d == b'_') ≡ false)
      × ((hex_digit d == b'x') ≡ false)
      × ((hex_digit d == b'X') ≡ false)
unfolding is_space
hex_digit_plain d h =
    (ground arith, ground arith, ground arith, ground arith, ground arith, ground arith)

hex_digits-cons :
    (n d : ℕ) (b : Bool) (s : Text)
    → d < 16
    → hex_digits n b (hex_digit d ∷ s) ≡ hex_digits (n * 16 + d) true s
unfolding hex_digits
hex_digits-cons n d b s h = rw ((hex_digit_plain d h).3) (rw (hex_value-hex_digit d h) refl)

strip_lem :
    (a b c d : ℕ)
    → is_space a ≡ false
    → is_space d ≡ false
    → lstrip is_space (rstrip is_space (a ∷ b ∷ c ∷ d ∷ [])) ≡ a ∷ b ∷ c ∷ d ∷ []
unfolding lstrip rstrip
strip_lem a b c d ha hd = ground (arith, ha, hd)

unsigned :
    (c d : ℕ) (s : Text)
    → (c == b'-') ≡ false
    → (c == b'+') ≡ false
    → (d == b'x') ≡ false
    → (d == b'X') ≡ false
    → after_sign (c ∷ d ∷ s) ≡ signed false (hex_digits 0 false (c ∷ d ∷ s))
unfolding after_sign magnitude
unsigned c d s minus plus x y = rw minus (rw plus (ground (arith, x, y)))

hex_digits_end : (n : ℕ) → hex_digits n true [] ≡ some n
unfolding hex_digits
hex_digits_end n = refl

int_16-digits :
    (a b c d : ℕ)
    → a < 16
    → b < 16
    → c < 16
    → d < 16
    → int_16 (hex_digit a ∷ hex_digit b ∷ hex_digit c ∷ hex_digit d ∷ [])
      ≡ some (false, (((0 * 16 + a) * 16 + b) * 16 + c) * 16 + d)
unfolding int_16
int_16-digits a b c d ha hb hc hd =
    let pa = hex_digit_plain a ha in
    let pb = hex_digit_plain b hb in
    ap after_sign (
      strip_lem (hex_digit a) (hex_digit b) (hex_digit c) (hex_digit d) pa.0
        (hex_digit_plain d hd).0)
    ∙ (unsigned (hex_digit a) (hex_digit b) (hex_digit c ∷ hex_digit d ∷ []) pa.1 pa.2 pb.4 pb.5
        ∙ ap (signed false) digits)
  where
    digits :
        hex_digits 0 false (hex_digit a ∷ hex_digit b ∷ hex_digit c ∷ hex_digit d ∷ [])
        ≡ some ((((0 * 16 + a) * 16 + b) * 16 + c) * 16 + d)
    digits =
        hex_digits-cons 0 a false (hex_digit b ∷ hex_digit c ∷ hex_digit d ∷ []) ha
        ∙ (hex_digits-cons (0 * 16 + a) b true (hex_digit c ∷ hex_digit d ∷ []) hb
            ∙ (hex_digits-cons ((0 * 16 + a) * 16 + b) c true (hex_digit d ∷ []) hc
                ∙ (hex_digits-cons (((0 * 16 + a) * 16 + b) * 16 + c) d true [] hd
                    ∙ hex_digits_end ((((0 * 16 + a) * 16 + b) * 16 + c) * 16 + d))))

int_16-hex4 : (n : ℕ) → n < 65536 → int_16 (hex4 n) ≡ some (false, n)
int_16-hex4 n h =
    int_16-digits (n / 4096) (n / 256 % 16) (n / 16 % 16) (n % 16) (omega arith) (omega arith)
      (omega arith) (omega arith)
    ∙ ap (λ (m : ℕ). some (false, m)) (omega arith)

header-digits :
    (a b c d : ℕ) (s : Text)
    → header (a ∷ b ∷ c ∷ d ∷ s) ≡ header_of (int_16 (a ∷ b ∷ c ∷ d ∷ [])) (4 + length s)
unfolding header
header-digits a b c d s = rw long (ap (header_of (int_16 (a ∷ b ∷ c ∷ d ∷ []))) (omega arith))
  where
    long : leb 4 (length (a ∷ b ∷ c ∷ d ∷ s)) ≡ true
    long = ground arith

header_of-line :
    (n total : ℕ) → n ≤ total → header_of (some (false, 4 + n)) (4 + total) ≡ line (4 + n)
unfolding header_of
header_of-line n total h = ground (arith, h)

header-line :
    (n : ℕ) (s : Text) → n ≤ length s → 4 + n < 65536 → header (hex4 (4 + n) ++ s) ≡ line (4 + n)
header-line n s h k =
    header-digits _ _ _ _ s
    ∙ (ap (λ r. header_of r (4 + length s)) (int_16-hex4 (4 + n) k) ∙ header_of-line n (length s) h)

header-flush : (s : Text) → header (hex4 0 ++ s) ≡ flush
unfolding header_of
header-flush s =
    header-digits _ _ _ _ s ∙ ap (λ r. header_of r (4 + length s)) (int_16-hex4 0 (omega arith))

module _ {A : Type 0} where
  drop_four : (n : ℕ) (a b c d : A) (xs : List A) → drop (4 + n) (a ∷ b ∷ c ∷ d ∷ xs) ≡ drop n xs
  drop_four n a b c d xs =
      let e : 4 + n ≡ suc (suc (suc (suc n))) = omega arith in
      ap (λ m. drop m (a ∷ b ∷ c ∷ d ∷ xs)) e

pkt_lines-print :
    (ps : List Packet) (fuel : ℕ)
    → All Fits ps
    → length ps ≤ fuel
    → pkt_lines fuel (print ps) ≡ payloads ps
unfolding pkt_lines print payloads
pkt_lines-print [] zero w h = refl
pkt_lines-print [] (suc fuel) w h = refl
pkt_lines-print (p ∷ ps) zero w h = absurd (omega (arith, h))
pkt_lines-print (flush_packet ∷ ps) (suc fuel) w h =
    rw (header-flush (print ps), pkt_lines) (pkt_lines-print ps fuel w.1 (omega (arith, h)))
pkt_lines-print (line_packet p ∷ ps) (suc fuel) w h =
    let r = pkt_lines-print ps fuel w.1 (omega (arith, h)) in
    let e =
      header-line (length p) (p ++ print ps) (omega (arith, length-append p (print ps))) w.0 in
    let body : take (4 + length p - 4) (p ++ print ps) ≡ p =
      ap (λ n. take n (p ++ print ps)) (omega arith) ∙ take-append p (print ps) in
    let rest = drop_four (length p) _ _ _ _ (p ++ print ps) ∙ drop-append p (print ps) in
    rw (e, pkt_lines) (λ i. body i ∷ (ap (pkt_lines fuel) rest ∙ r) i)

length-print : (ps : List Packet) → length ps ≤ length (print ps)
unfolding print
length-print [] = omega arith
length-print (flush_packet ∷ ps) = omega (arith, length-print ps)
length-print (line_packet p ∷ ps) = omega (arith, length-print ps, length-append p (print ps))

-- The lines of a stream of packets, printed as git documents the format, are read back, the flush
-- packets dropped, when each fits its four digits.
pub iter_pkt_lines-print :
    (ps : List Packet) → All Fits ps → iter_pkt_lines (print ps) ≡ payloads ps
unfolding iter_pkt_lines
iter_pkt_lines-print ps w = pkt_lines-print ps (length (print ps)) w (length-print ps)
