-- ===== src/Git/Name.antt =====
-- `repo_name_from_url` of backend/app/repos/git.py and `_git_blob_path` of
-- backend/app/repos/service.py. `urlparse` and the SHA-256 digest are the parameters `parse_url` and
-- `sha256_hex`.
use retro_doc.Prelude.{
  ℕ, leb, ◌==◌, Text, text, Bool, true, false, ◌&&◌, ◌||◌, List, [], ◌∷◌, ◌++◌, ◌≡◌, ◌∙◌, sym,
  append-nil, append_assoc, ap, refl, Bool-cases, inl, inr, All, map, is_empty, if◌then◌else◌,
  arith,
}
use retro_doc.Strings.{lstrip, rstrip, without_suffix, last_segment}
use retro_doc.Git.Resolve.{UrlParts}

-- The characters that `_UNSAFE_NAME_RE` passes over.
unfoldable pub is_safe : ℕ → Bool
is_safe c =
    (leb b'A' c && leb c b'Z')
    || ((leb b'a' c && leb c b'z')
        || ((leb b'0' c && leb c b'9') || (c == b'.' || (c == b'_' || c == b'-'))))

unfoldable pub replaced : ℕ → ℕ
unfolding is_safe
replaced c = if is_safe c then c else b'-'

unfoldable pub or_repo : Text → Text
unfolding lstrip rstrip
or_repo name =
    if is_empty (lstrip (λ c. c == b'.') (rstrip (λ c. c == b'.') name)) then text "repo" else name

module _ (parse_url : Text → UrlParts) where
  unfoldable pub repo_name_from_url : Text → Text
  unfolding or_repo replaced rstrip last_segment without_suffix
  repo_name_from_url url =
      let segment = last_segment b'/' (rstrip (λ c. c == b'/') (parse_url url).path) in
      or_repo (map replaced (without_suffix (text ".git") segment))

  module _ (sha256_hex : Text → Text) where
    unfoldable pub git_blob_path : Text → Text → Text
    unfolding repo_name_from_url
    git_blob_path url commit =
        text "git/"
        ++ (sha256_hex url ++ (text "/" ++ (commit ++ (text "/src/" ++ repo_name_from_url url))))

-- The parts between slashes; `part` is the one that is being read.
unfoldable pub segments_from : Text → Text → List Text
segments_from part [] = part ∷ []
segments_from part (c ∷ s) =
    let next = segments_from [] s in
    let longer = segments_from (part ++ c ∷ []) s in if c == b'/' then part ∷ next else longer

abbrev pub segments : Text → List Text
segments s = segments_from [] s

abbrev pub NoSlash : Text → Type 0
NoSlash s = All (λ c. (c == b'/') ≡ false) s

abbrev pub IsSafeName : Text → Type 0
IsSafeName s = All (λ c. is_safe c ≡ true) s × (¬ All (λ c. (c == b'.') ≡ true) s)

segments_from-append :
    (part s t : Text) → NoSlash s → segments_from part (s ++ t) ≡ segments_from (part ++ s) t
unfolding segments_from
segments_from-append part [] t h = ap (λ x. segments_from x t) (sym (append-nil part))
segments_from-append part (c ∷ s) t h = rw h.0 (
    segments_from-append (part ++ c ∷ []) s t h.1
    ∙ ap (λ x. segments_from x t) (append_assoc part (c ∷ []) s))

segments-slash : (s t : Text) → NoSlash s → segments (s ++ (b'/' ∷ t)) ≡ s ∷ segments t
unfolding segments_from
segments-slash s t h = segments_from-append [] s (b'/' ∷ t) h

segments_last : (s : Text) → NoSlash s → segments s ≡ s ∷ []
unfolding segments_from
segments_last s h = ap (segments_from []) (sym (append-nil s)) ∙ segments_from-append [] s [] h

replaced-is_safe : (c : ℕ) → is_safe (replaced c) ≡ true
unfolding replaced is_safe
replaced-is_safe c = elim (Bool-cases (is_safe c)) [ inl e ↦ rw e e | inr e ↦ rw e refl ]

map-replaced : (s : Text) → All (λ c. is_safe c ≡ true) (map replaced s)
map-replaced [] = tt
map-replaced (c ∷ s) = (replaced-is_safe c, map-replaced s)

-- Nothing is left where all are taken.
rstrip-All : (p : ℕ → Bool) (s : Text) → All (λ c. p c ≡ true) s → rstrip p s ≡ []
unfolding rstrip
rstrip-All p [] h = refl
rstrip-All p (c ∷ s) h = rw (rstrip-All p s h.1) (rw h.0 refl)

repo-IsSafeName : IsSafeName (text "repo")
unfolding is_safe
repo-IsSafeName = ((refl, (refl, (refl, (refl, tt)))), λ h. ground (arith, h.0))

or_repo-IsSafeName : (s : Text) → All (λ c. is_safe c ≡ true) s → IsSafeName (or_repo s)
unfolding or_repo lstrip
or_repo-IsSafeName s h =
    let dots : ℕ → Bool = λ c. c == b'.' in
    elim (Bool-cases (is_empty (lstrip dots (rstrip dots s)))) [
      | inl e ↦ rw e repo-IsSafeName
      | inr e ↦
          rw e (h, λ k. ground (arith, ap (λ x. is_empty (lstrip dots x)) (rstrip-All dots s k), e))
    ]

safe_slash : (c : ℕ) → is_safe c ≡ true → (c == b'/') ≡ false
unfolding is_safe
safe_slash c h = ground (arith, h)

safe-NoSlash : (s : Text) → All (λ c. is_safe c ≡ true) s → NoSlash s
safe-NoSlash [] h = tt
safe-NoSlash (c ∷ s) h = (safe_slash c h.0, safe-NoSlash s h.1)

module _ (parse_url : Text → UrlParts) (sha256_hex : Text → Text) where
  -- The path of a clone has five parts between slashes whatever the URL is, when the digest and the
  -- commit have no slash: `git`, the digest, the commit, `src` and the name. The name is made of
  -- letters, digits, dots, underscores and dashes, and not of dots alone.
  pub git_blob_path-segments :
      (url commit : Text)
      → NoSlash (sha256_hex url)
      → NoSlash commit
      → let name = repo_name_from_url parse_url url in
        (segments (git_blob_path parse_url sha256_hex url commit)
          ≡ text "git" ∷ sha256_hex url ∷ commit ∷ text "src" ∷ name ∷ [])
        × IsSafeName name
  unfolding git_blob_path repo_name_from_url segments_from
  git_blob_path-segments url commit h k =
      let name = repo_name_from_url parse_url url in
      let segment = last_segment b'/' (rstrip (λ c. c == b'/') (parse_url url).path) in
      let kept = without_suffix (text ".git") segment in
      let w : IsSafeName name = or_repo-IsSafeName (map replaced kept) (map-replaced kept) in
      let last = ap (λ ps. text "src" ∷ ps) (segments_last name (safe-NoSlash name w.0)) in
      let after_digest =
        segments-slash commit (text "src/" ++ name) k ∙ ap (λ ps. commit ∷ ps) last in
      let digest = sha256_hex url in
      (
        ap (λ ps. text "git" ∷ ps)
            (segments-slash digest (commit ++ (text "/src/" ++ name)) h
              ∙ ap (λ ps. digest ∷ ps) after_digest),
        w,
      )
