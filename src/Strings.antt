-- ===== src/Strings.antt =====
-- The methods of Python's `str` and `bytes` that the services use, on texts: lists of code points, or
-- of bytes.
use retro_doc.Prelude.{
  ℕ, ◌-◌, leb, ◌==◌, Text, text_eq, Bool, true, false, ◌&&◌, ◌||◌, Option, none, some, List, [],
  ◌∷◌, ◌++◌, is_empty, length, take, drop, if◌then◌else◌,
}

-- `s.startswith(p)`
unfoldable pub starts_with : Text → Text → Bool
starts_with [] s = true
starts_with (c ∷ p) [] = false
starts_with (c ∷ p) (d ∷ s) = c == d && starts_with p s

-- `s.endswith(p)`
unfoldable pub ends_with : Text → Text → Bool
unfolding text_eq
ends_with p s = leb (length p) (length s) && text_eq (drop (length s - length p) s) p

-- `s.removesuffix(p)`
unfoldable pub without_suffix : Text → Text → Text
unfolding ends_with
without_suffix p s = if ends_with p s then take (length s - length p) s else s

-- `p in s`
unfoldable pub contains : Text → Text → Bool
unfolding starts_with
contains p [] = is_empty p
contains p (c ∷ s) = starts_with p (c ∷ s) || contains p s

-- `s.lstrip(...)` and `s.rstrip(...)` of the characters that meet a test.
unfoldable pub lstrip : (ℕ → Bool) → Text → Text
lstrip p [] = []
lstrip p (c ∷ s) = let rest = lstrip p s in if p c then rest else c ∷ s

unfoldable pub rstrip : (ℕ → Bool) → Text → Text
rstrip p [] = []
rstrip p (c ∷ s) = let rest = rstrip p s in if is_empty rest && p c then [] else c ∷ rest

-- The white space of `bytes`.
unfoldable pub is_space : ℕ → Bool
is_space c = (leb 9 c && leb c 13) || c == 32

-- The white space of `str`.
unfoldable pub is_unicode_space : ℕ → Bool
unfolding is_space
is_unicode_space c =
    is_space c
    || ((leb 28 c && leb c 31)
        || (c == 133
            || (c == 160
                || (c == 5760
                    || ((leb 8192 c && leb c 8202)
                        || (c == 8232
                            || (c == 8233 || (c == 8239 || (c == 8287 || c == 12288)))))))))

-- `s.split(d, 1)`, or `none` where it has one part.
unfoldable pub split_once : ℕ → Text → Option (Text × Text)
split_once d [] = none
split_once d (c ∷ s) =
    if c == d
    then some ([], s)
    else elim (split_once d s) [ some (a, b) ↦ some (c ∷ a, b) | none ↦ none ]

-- `s.split()`; `word` is the word that is being read.
unfoldable pub words_from : Text → Text → List Text
unfolding is_space
words_from word [] = if is_empty word then [] else word ∷ []
words_from word (c ∷ s) =
    let next = words_from [] s in
    let longer = words_from (word ++ c ∷ []) s in
    if is_space c then (if is_empty word then next else word ∷ next) else longer

unfoldable pub has_char : ℕ → Text → Bool
has_char d [] = false
has_char d (c ∷ s) = c == d || has_char d s

-- `s.rsplit(d, 1)[-1]`
unfoldable pub last_segment : ℕ → Text → Text
unfolding has_char
last_segment d [] = []
last_segment d (c ∷ s) =
    let rest = last_segment d s in if has_char d s then rest else if c == d then s else c ∷ s
