-- ===== src/Git/RoundTrip.antt =====
-- The parser of the advertised refs against the format of an advertisement.
use retro_doc.Prelude.{
  Text, text, Dict, put, Bool, true, false, none, some, List, [], ◌∷◌, ◌++◌, ◌≡◌, ◌∙◌, ap, refl,
  All,
}
use retro_doc.Strings.{starts_with}
use retro_doc.Git.Frames.{
  Packet, flush_packet, line_packet, print, payloads, Fits, iter_pkt_lines-print,
}
use retro_doc.Git.Refs.{
  Advertised, symref_head_prefix, symref_of, with_head, read_parts, read_line, read_lines,
  parse_advertised_refs,
}
use retro_doc.Git.Advertisement.{
  capabilities_some, Ref, IsRef, ref_text, capabilities, IsWord, read_line-first, read_line-other,
  words_from-capabilities, symref_of-found,
}

abbrev pub ref_packets : List Ref → List Packet
ref_packets [] = flush_packet ∷ []
ref_packets (r ∷ rs) = line_packet (ref_text r ++ 10 ∷ []) ∷ ref_packets rs

-- The first ref carries the capabilities.
abbrev pub packets : Ref → List Ref → List Text → List Packet
packets r rs caps =
    line_packet (text "# service=git-upload-pack" ++ 10 ∷ [])
    ∷ flush_packet
    ∷ line_packet (ref_text r ++ 0 ∷ capabilities caps)
    ∷ ref_packets rs

abbrev pub put_refs : List Ref → Dict Text → Dict Text
put_refs [] d = d
put_refs (r ∷ rs) d = put_refs rs (put r.refname r.sha d)

module _ (is_utf8 : Text → Bool) where
  read_lines-refs :
      (rs : List Ref) (a : Advertised)
      → All (IsRef is_utf8) rs
      → read_lines is_utf8 (payloads (ref_packets rs)) a
        ≡ some (record a { refs = put_refs rs a.refs })
  unfolding read_lines payloads read_parts
  read_lines-refs [] a h = refl
  read_lines-refs (r ∷ rs) a h =
      let next = record a { refs = put r.refname r.sha a.refs } in
      let e : read_line is_utf8 (ref_text r ++ 10 ∷ []) a ≡ some next =
        read_line-other is_utf8 r h.0 a ∙ rw h.0.decodes refl in
      rw (e, read_lines) (read_lines-refs rs next h.1)

  -- An advertisement printed as git documents it: each ref is an identifier, not empty, without space,
  -- NUL or newline and not starting with `#`, and a name without NUL or newline, both decodable; each
  -- packet fits its four digits; the capabilities are words without white space, and the first of them
  -- that starts with `symref=HEAD:` has a decodable target. The parser returns the refs, a later one
  -- of a name in place of an earlier one, and the target.
  pub parse_advertised_refs-packets :
      (r : Ref) (rs : List Ref) (before : List Text) (target : Text) (after : List Text)
      → let caps = before ++ (symref_head_prefix ++ target) ∷ after in
        IsRef is_utf8 r
        → All (IsRef is_utf8) rs
        → All Fits (packets r rs caps)
        → All IsWord caps
        → All (λ v. starts_with symref_head_prefix v ≡ false) before
        → is_utf8 target ≡ true
        → parse_advertised_refs is_utf8 (print (packets r rs caps))
          ≡ some (record { refs = put_refs (r ∷ rs) []; head_symref = some target })
  unfolding parse_advertised_refs read_lines payloads read_parts with_head
  parse_advertised_refs-packets r rs before target after w ws fits words none_before decodes =
      let caps = before ++ (symref_head_prefix ++ target) ∷ after in
      let a : Advertised = record { refs = []; head_symref = none } in
      let found =
        ap (symref_of is_utf8) (words_from-capabilities caps words)
        ∙ symref_of-found is_utf8 before target after none_before decodes in
      let next : Advertised = record { refs = put r.refname r.sha []; head_symref = some target } in
      let first : read_line is_utf8 (ref_text r ++ 0 ∷ capabilities caps) a ≡ some next =
        read_line-first is_utf8 r w (capabilities caps) a
        ∙ rw w.decodes (
            rw (capabilities_some caps)
              (ap (λ o. with_head is_utf8 o (record next { head_symref = none })) found)) in
      ap (λ ls. read_lines is_utf8 ls a) (iter_pkt_lines-print (packets r rs caps) fits)
      ∙ rw (first, read_lines) (read_lines-refs rs next ws)
