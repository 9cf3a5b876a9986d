-- ===== src/Git/Pkt.antt =====
-- `_iter_pkt_lines` of backend/app/repos/git.py, with the `int(_, 16)` that it relies on. Bytes are
-- numbers.
use retro_doc.Prelude.{
  ℕ, zero, suc, ◌+◌, ◌-◌, ◌*◌, ltb, leb, ◌==◌, Text, Bool, true, false, ◌&&◌, ◌||◌, Option, none,
  some, List, [], ◌∷◌, length, take, drop, if◌then◌else◌,
}
use retro_doc.Strings.{lstrip, rstrip, is_space}

unfoldable pub hex_value : ℕ → Option ℕ
hex_value c =
    if leb b'0' c && leb c b'9'
    then some (c - 48)
    else if leb b'a' c && leb c b'f'
    then some (c - 87)
    else if leb b'A' c && leb c b'F'
    then some (c - 55)
    else none

-- Digits with single underscores between them; `after_digit` says that one may end or go on.
unfoldable pub hex_digits : ℕ → Bool → Text → Option ℕ
unfolding hex_value
hex_digits n after_digit [] = if after_digit then some n else none
hex_digits n after_digit (c ∷ s) =
    let skipped = hex_digits n false s in
    if c == b'_'
    then (if after_digit then skipped else none)
    else elim (hex_value c) [ some d ↦ hex_digits (n * 16 + d) true s | none ↦ none ]

unfoldable pub after_prefix : Text → Option ℕ
unfolding hex_digits
after_prefix [] = none
after_prefix (c ∷ s) = if c == b'_' then hex_digits 0 false s else hex_digits 0 false (c ∷ s)

unfoldable pub magnitude : Text → Option ℕ
unfolding after_prefix hex_digits
magnitude [] = none
magnitude (c ∷ []) = hex_digits 0 false (c ∷ [])
magnitude (c ∷ d ∷ s) =
    if c == b'0' && (d == b'x' || d == b'X') then after_prefix s else hex_digits 0 false (c ∷ d ∷ s)

-- The magnitude, with whether there is a minus sign.
unfoldable pub signed : Bool → Option ℕ → Option (Bool × ℕ)
signed minus (some n) = some (minus, n)
signed minus none = none

unfoldable pub after_sign : Text → Option (Bool × ℕ)
unfolding signed magnitude
after_sign [] = none
after_sign (c ∷ s) =
    if c == b'-'
    then signed true (magnitude s)
    else if c == b'+'
    then signed false (magnitude s)
    else signed false (magnitude (c ∷ s))

-- `int(s, 16)`, or `none` for `ValueError`.
unfoldable pub int_16 : Text → Option (Bool × ℕ)
unfolding after_sign lstrip rstrip is_space
int_16 s = after_sign (lstrip is_space (rstrip is_space s))

-- What the four bytes in front say: the loop ends, a flush packet, or a line of this length.
pub data Header : Type 0 where
  stop flush : Header
  line : ℕ → Header

unfoldable pub header_of : Option (Bool × ℕ) → ℕ → Header
header_of none total = stop
header_of (some (minus, n)) total =
    if n == 0 then flush else if minus || (ltb n 4 || ltb total n) then stop else line n

unfoldable pub header : Text → Header
unfolding header_of int_16
header rest = if leb 4 (length rest) then header_of (int_16 (take 4 rest)) (length rest) else stop

-- The loop on what `index` has not passed; a round takes four bytes at least.
unfoldable pub pkt_lines : ℕ → Text → List Text
unfolding header
pkt_lines zero rest = []
pkt_lines (suc fuel) rest = elim (header rest) [
  | stop ↦ []
  | flush ↦ pkt_lines fuel (drop 4 rest)
  | line n ↦ take (n - 4) (drop 4 rest) ∷ pkt_lines fuel (drop n rest)
]

unfoldable pub iter_pkt_lines : Text → List Text
unfolding pkt_lines
iter_pkt_lines s = pkt_lines (length s) s
