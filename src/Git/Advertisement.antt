-- ===== src/Git/Advertisement.antt =====
-- A smart-HTTP advertisement as git documents it, and that the parser reads it back.
use retro_doc.Prelude.{
  ℕ, ◌==◌, Text, Bool, true, false, ◌&&◌, none, some, List, [], ◌∷◌, ◌++◌, ◌≡◌, ◌∙◌, sym, ap, refl,
  Bool-cases, inl, inr, All, All-append, append_assoc, append-nil, is_empty, arith,
}
use retro_doc.Strings.{starts_with, rstrip, split_once, words_from, is_space}
use retro_doc.Git.Refs.{
  Advertised, symref_head_prefix, service_prefix, symref_of, read_parts, read_ref, split_caps,
  read_line,
}

pub record Ref : Type 0 where
  pub sha : Text
  pub refname : Text

abbrev pub NoChar : ℕ → Text → Type 0
NoChar d s = All (λ c. (c == d) ≡ false) s

-- An identifier that does not start with `#` and has no space, NUL or newline, and a name without NUL
-- or newline, both of which can be decoded.
pub record IsRef (is_utf8 : Text → Bool) (r : Ref) : Type 0 where
  pub sha_some : is_empty r.sha ≡ false
  pub sha_start : starts_with (b'#' ∷ []) r.sha ≡ false
  pub sha_spaceless : NoChar b' ' r.sha
  pub sha_newline : NoChar 10 r.sha
  pub sha_null : NoChar 0 r.sha
  pub name_null : NoChar 0 r.refname
  pub name_newline : NoChar 10 r.refname
  pub decodes : (is_utf8 r.refname && is_utf8 r.sha) ≡ true

abbrev pub ref_text : Ref → Text
ref_text r = r.sha ++ (b' ' ∷ r.refname)

split_once-append : (d : ℕ) (s t : Text) → NoChar d s → split_once d (s ++ d ∷ t) ≡ some (s, t)
unfolding split_once
split_once-append d [] t h = ground arith
split_once-append d (c ∷ s) t h = rw (h.0, split_once) (rw (split_once-append d s t h.1) refl)

split_once-none : (d : ℕ) (s : Text) → NoChar d s → split_once d s ≡ none
unfolding split_once
split_once-none d [] h = refl
split_once-none d (c ∷ s) h = rw (h.0, split_once) (rw (split_once-none d s h.1) refl)

rstrip-cons :
    (p : ℕ → Bool) (c : ℕ) (s t : Text) → p c ≡ false → rstrip p s ≡ t → rstrip p (c ∷ s) ≡ c ∷ t
unfolding rstrip
rstrip-cons p c s t h e = elim (Bool-cases (is_empty (rstrip p s))) [
  | inl k ↦ rw k (rw h (ap (λ x. c ∷ x) e))
  | inr k ↦ rw k (ap (λ x. c ∷ x) e)
]

rstrip-none : (d : ℕ) (s : Text) → NoChar d s → rstrip (λ c. c == d) s ≡ s
unfolding rstrip
rstrip-none d [] h = refl
rstrip-none d (c ∷ s) h = rstrip-cons (λ x. x == d) c s s h.0 (rstrip-none d s h.1)

rstrip-append : (d : ℕ) (s : Text) → NoChar d s → rstrip (λ c. c == d) (s ++ d ∷ []) ≡ s
unfolding rstrip
rstrip-append d [] h = ground arith
rstrip-append d (c ∷ s) h = rstrip-cons (λ x. x == d) c (s ++ d ∷ []) s h.0 (rstrip-append d s h.1)

no_service :
    (s t : Text)
    → is_empty s ≡ false
    → starts_with (b'#' ∷ []) s ≡ false
    → starts_with service_prefix (s ++ t) ≡ false
unfolding starts_with
no_service [] t e h = absurd (ground (arith, e))
no_service (c ∷ s) t e h = ground (arith, h)

module _ (is_utf8 : Text → Bool) (r : Ref) (w : IsRef is_utf8 r) where
  NoChar-text :
      (d : ℕ) → (b' ' == d) ≡ false → NoChar d r.sha → NoChar d r.refname → NoChar d (ref_text r)
  NoChar-text d e hs hn = All-append (λ c. (c == d) ≡ false) r.sha (b' ' ∷ r.refname) hs (e, hn)

  unserviced : (t : Text) → starts_with service_prefix (ref_text r ++ t) ≡ false
  unserviced t =
      ap (starts_with service_prefix) (append_assoc r.sha (b' ' ∷ r.refname) t)
      ∙ no_service r.sha ((b' ' ∷ r.refname) ++ t) w.sha_some w.sha_start

  read_ref-text :
      (line caps : Text) (a : Advertised)
      → rstrip (λ c. c == 10) line ≡ ref_text r
      → read_ref is_utf8 line caps a ≡ read_parts is_utf8 (some (r.sha, r.refname)) caps a
  unfolding read_ref
  read_ref-text line caps a e =
      ap (λ l. read_parts is_utf8 (split_once b' ' l) caps a) e
      ∙ ap (λ o. read_parts is_utf8 o caps a)
          (split_once-append b' ' r.sha r.refname w.sha_spaceless)

  pub read_line-first :
      (caps : Text) (a : Advertised)
      → read_line is_utf8 (ref_text r ++ 0 ∷ caps) a
        ≡ read_parts is_utf8 (some (r.sha, r.refname)) caps a
  unfolding read_line split_caps
  read_line-first caps a =
      rw (unserviced (0 ∷ caps), read_line)
        (ap (λ o. split_caps is_utf8 o (ref_text r ++ 0 ∷ caps) a)
            (split_once-append 0 (ref_text r) caps
              (NoChar-text 0 (ground arith) w.sha_null w.name_null))
          ∙ read_ref-text (ref_text r) caps a (
              rstrip-none 10 (ref_text r)
                (NoChar-text 10 (ground arith) w.sha_newline w.name_newline)))

  pub read_line-other :
      (a : Advertised)
      → read_line is_utf8 (ref_text r ++ 10 ∷ []) a
        ≡ read_parts is_utf8 (some (r.sha, r.refname)) [] a
  unfolding read_line split_caps
  read_line-other a =
      let null = NoChar-text 0 (ground arith) w.sha_null w.name_null in
      rw (unserviced (10 ∷ []), read_line)
        (ap (λ o. split_caps is_utf8 o (ref_text r ++ 10 ∷ []) a)
            (split_once-none 0 (ref_text r ++ 10 ∷ [])
              (All-append (λ c. (c == 0) ≡ false) (ref_text r) (10 ∷ []) null (ground arith, tt)))
          ∙ read_ref-text (ref_text r ++ 10 ∷ []) [] a (
              rstrip-append 10 (ref_text r)
                (NoChar-text 10 (ground arith) w.sha_newline w.name_newline)))

-- The words of the capabilities, with a space between them and a newline behind.
abbrev more_words : List Text → Text
more_words [] = 10 ∷ []
more_words (v ∷ vs) = b' ' ∷ (v ++ more_words vs)

abbrev pub capabilities : List Text → Text
capabilities [] = 10 ∷ []
capabilities (v ∷ vs) = v ++ more_words vs

pub capabilities_some : (caps : List Text) → is_empty (capabilities caps) ≡ false
capabilities_some [] = refl
capabilities_some ([] ∷ []) = refl
capabilities_some ([] ∷ (v ∷ vs)) = refl
capabilities_some ((c ∷ v) ∷ vs) = refl

abbrev pub IsWord : Text → Type 0
IsWord v = (is_empty v ≡ false) × All (λ c. is_space c ≡ false) v

words_from-append :
    (word v rest : Text)
    → All (λ c. is_space c ≡ false) v
    → words_from word (v ++ rest) ≡ words_from (word ++ v) rest
unfolding words_from
words_from-append word [] rest h = ap (λ x. words_from x rest) (sym (append-nil word))
words_from-append word (c ∷ v) rest h = rw h.0 (
    words_from-append (word ++ c ∷ []) v rest h.1
    ∙ ap (λ x. words_from x rest) (append_assoc word (c ∷ []) v))

words_from-more_words :
    (v : Text) (vs : List Text)
    → is_empty v ≡ false
    → All IsWord vs
    → words_from v (more_words vs) ≡ v ∷ vs
unfolding words_from is_space
words_from-more_words v [] e h = rw e refl
words_from-more_words v (u ∷ us) e h =
    let r = words_from-append [] u (more_words us) h.0.1 ∙ words_from-more_words u us h.0.0 h.1 in
    rw e (ap (λ x. v ∷ x) r)

pub words_from-capabilities :
    (vs : List Text) → All IsWord vs → words_from [] (capabilities vs) ≡ vs
unfolding words_from is_space
words_from-capabilities [] h = refl
words_from-capabilities (v ∷ vs) h =
    words_from-append [] v (more_words vs) h.0.1 ∙ words_from-more_words v vs h.0.0 h.1

pub symref_of-found :
    (is_utf8 : Text → Bool) (before : List Text) (target : Text) (after : List Text)
    → All (λ v. starts_with symref_head_prefix v ≡ false) before
    → is_utf8 target ≡ true
    → symref_of is_utf8 (before ++ (symref_head_prefix ++ target) ∷ after) ≡ some (some target)
unfolding symref_of starts_with
symref_of-found is_utf8 [] target after h d = rw d refl
symref_of-found is_utf8 (v ∷ vs) target after h d =
    rw (h.0, symref_of) (symref_of-found is_utf8 vs target after h.1 d)
