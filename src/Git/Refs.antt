-- ===== src/Git/Refs.antt =====
-- `_parse_advertised_refs` of backend/app/repos/git.py. A decoded text is taken as its UTF-8 bytes;
-- `is_utf8` says whether bytes can be decoded.
use retro_doc.Prelude.{
  ◌==◌, Text, text, Dict, put, Bool, ◌&&◌, not, Option, none, some, is_none, List, [], ◌∷◌,
  is_empty, length, drop, if◌then◌else◌,
}
use retro_doc.Strings.{starts_with, rstrip, split_once, words_from}
use retro_doc.Git.Pkt.{iter_pkt_lines}

-- `_SYMREF_HEAD_PREFIX`
abbrev pub symref_head_prefix : Text
symref_head_prefix = text "symref=HEAD:"

abbrev pub service_prefix : Text
service_prefix = text "# service="

-- The variables of the loop.
pub record Advertised : Type 0 where
  pub refs : Dict Text
  pub head_symref : Option Text

module _ (is_utf8 : Text → Bool) where
  -- The first capability that names the target of HEAD. `none` is `UnicodeDecodeError`.
  unfoldable pub symref_of : List Text → Option (Option Text)
  unfolding starts_with
  symref_of [] = some none
  symref_of (cap ∷ caps) =
      let rest = symref_of caps in
      let target = drop (length symref_head_prefix) cap in
      if starts_with symref_head_prefix cap
      then (if is_utf8 target then some (some target) else none)
      else rest

  unfoldable pub with_head : Option (Option Text) → Advertised → Option Advertised
  with_head none a = none
  with_head (some none) a = some a
  with_head (some (some h)) a = some (record a { head_symref = some h })

  unfoldable pub read_parts : Option (Text × Text) → Text → Advertised → Option Advertised
  unfolding put symref_of with_head words_from
  read_parts none caps a = some a
  read_parts (some (sha, refname)) caps a =
      let a' = record a { refs = put refname sha a.refs } in
      if is_utf8 refname && is_utf8 sha
      then (if not (is_empty caps) && is_none a.head_symref
          then with_head (symref_of (words_from [] caps)) a'
          else some a')
      else none

  -- A line without its capabilities, and these.
  unfoldable pub read_ref : Text → Text → Advertised → Option Advertised
  unfolding read_parts rstrip split_once
  read_ref line caps a = read_parts (split_once b' ' (rstrip (λ c. c == 10) line)) caps a

  unfoldable pub split_caps : Option (Text × Text) → Text → Advertised → Option Advertised
  unfolding read_ref
  split_caps none line a = read_ref line [] a
  split_caps (some (before, caps)) line a = read_ref before caps a

  unfoldable pub read_line : Text → Advertised → Option Advertised
  unfolding split_caps split_once starts_with
  read_line line a =
      if starts_with service_prefix line then some a else split_caps (split_once 0 line) line a

  unfoldable pub read_lines : List Text → Advertised → Option Advertised
  unfolding read_line
  read_lines [] a = some a
  read_lines (l ∷ ls) a = elim (read_line l a) [ some a' ↦ read_lines ls a' | none ↦ none ]

  unfoldable pub parse_advertised_refs : Text → Option Advertised
  unfolding read_lines iter_pkt_lines
  parse_advertised_refs payload =
      read_lines (iter_pkt_lines payload) (record { refs = []; head_symref = none })
