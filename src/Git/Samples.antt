-- ===== src/Git/Samples.antt =====
-- The theorems on the resolution of a remote, at an advertisement of two branches.
use retro_doc.Prelude.{
  ok, err, ℕ, All, ◌==◌, ◌||◌, is_empty, Text, text, Bool, true, false, none, some, List, [], ◌∷◌,
  ◌++◌, ◌≡◌, refl, drop, arith,
}
use retro_doc.Strings.{split_once, starts_with, is_space}
use retro_doc.Mongo.{any}
use retro_doc.Git.Pkt.{int_16}
use retro_doc.Git.Frames.{print}
use retro_doc.Git.Refs.{Advertised, symref_head_prefix, parse_advertised_refs}
use retro_doc.Git.Advertisement.{Ref, IsRef}
use retro_doc.Git.RoundTrip.{packets, put_refs, parse_advertised_refs-packets}
use retro_doc.Git.Resolve.{
  branch_not_found, bad_gateway, UrlParts, ResolvedGitRef, Answer, http_error, response,
  normalize_repo_url, resolve_git_ref,
}
use retro_doc.Git.Entries.{Advertises}
use retro_doc.Git.Resolutions.{Resolution}
use retro_doc.Git.Resolved.{resolve_git_ref-Resolution}
use retro_doc.Git.Name.{
  segments, IsSafeName, repo_name_from_url, git_blob_path, git_blob_path-segments,
}

abbrev is_utf8 : Text → Bool
is_utf8 s = true

unfoldable parse_url : Text → UrlParts
unfolding split_once
parse_url s = elim (split_once b':' s) [
  | some (scheme, rest) ↦ elim (split_once b'/' (drop 2 rest)) [
    | some (netloc, path) ↦ record { scheme = scheme; netloc = netloc; path = b'/' ∷ path }
    | none ↦ record { scheme = scheme; netloc = drop 2 rest; path = [] }
  ]
  | none ↦ record { scheme = []; netloc = []; path = s }
]

abbrev head : Ref
head = record { sha = text "a1"; refname = text "HEAD" }

abbrev main : Ref
main = record { sha = text "a1"; refname = text "refs/heads/main" }

abbrev work : Ref
work = record { sha = text "b2"; refname = text "refs/heads/work" }

abbrev caps : List Text
caps = text "ofs-delta" ∷ (symref_head_prefix ++ text "refs/heads/main") ∷ []

abbrev advertisement : Text
advertisement = print (packets head (main ∷ work ∷ []) caps)

any-All : (p : ℕ → Bool) (s : Text) → any p s ≡ false → All (λ c. p c ≡ false) s
unfolding any
any-All p [] h = tt
any-All p (c ∷ s) h = (ground (arith, h), any-All p s (ground (arith, h)))

-- A test that is met by no fewer characters.
wider-All :
    (p q : ℕ → Bool) (s : Text)
    → ((c : ℕ) → p c ≡ false → q c ≡ false)
    → any p s ≡ false
    → All (λ c. q c ≡ false) s
unfolding any
wider-All p q [] i h = tt
wider-All p q (c ∷ s) i h = (i c (ground (arith, h)), wider-All p q s i (ground (arith, h)))

ref-IsRef :
    (r : Ref)
    → is_empty r.sha ≡ false
    → starts_with (b'#' ∷ []) r.sha ≡ false
    → any (λ c. c == b' ' || (c == 10 || c == 0)) r.sha ≡ false
    → any (λ c. c == 10 || c == 0) r.refname ≡ false
    → IsRef is_utf8 r
unfolding any
ref-IsRef r some_digit start digits bytes = record {
  sha_some = some_digit;
  sha_start = start;
  sha_spaceless = wider-All _ (λ c. c == b' ') r.sha (λ c h. ground (arith, h)) digits;
  sha_newline = wider-All _ (λ c. c == 10) r.sha (λ c h. ground (arith, h)) digits;
  sha_null = wider-All _ (λ c. c == 0) r.sha (λ c h. ground (arith, h)) digits;
  name_null = wider-All _ (λ c. c == 0) r.refname (λ c h. ground (arith, h)) bytes;
  name_newline = wider-All _ (λ c. c == 10) r.refname (λ c h. ground (arith, h)) bytes;
  decodes = refl;
}

parse_advertised_refs-packets_example :
    parse_advertised_refs is_utf8 advertisement
    ≡ some (record {
      refs = put_refs (head ∷ main ∷ work ∷ []) [];
      head_symref = some (text "refs/heads/main");
    })
unfolding starts_with any is_space
parse_advertised_refs-packets_example =
    parse_advertised_refs-packets is_utf8 head (main ∷ work ∷ []) (text "ofs-delta" ∷ [])
      (text "refs/heads/main") [] (ref-IsRef head refl refl refl refl)
      (ref-IsRef main refl refl refl refl, (ref-IsRef work refl refl refl refl, tt))
      (omega arith, (tt, (omega arith, (omega arith, (omega arith, (tt, tt))))))
      (
        (refl, any-All is_space (text "ofs-delta") refl),
        ((refl, any-All is_space (symref_head_prefix ++ text "refs/heads/main") refl), tt),
      )
      (refl, tt) refl

abbrev content_type : Text
content_type = text "application/x-git-upload-pack-advertisement; charset=utf-8"

abbrev url : Text
url = text "https://host/group/name.git/"

-- The first route does not reach the remote, the second does.
abbrev answers : Text → List Answer
answers _ = http_error ∷ response 200 content_type advertisement ∷ []

abbrev resolved : ResolvedGitRef
resolved = record {
  url = text "https://host/group/name";
  commit = text "b2";
  ref = some (text "work");
}

resolved_work :
    resolve_git_ref parse_url is_utf8 url (some (text "work")) none answers ≡ ok resolved
unfolding resolve_git_ref print parse_url
resolved_work = refl

resolve_git_ref-Resolution_example :
    (normalize_repo_url parse_url is_utf8 url ≡ ok resolved.url)
    × (content : Text) × (a : Advertised) × Advertises content (answers resolved.url)
    × (parse_advertised_refs is_utf8 content ≡ some a)
    × Resolution (some (text "work")) none a resolved
resolve_git_ref-Resolution_example =
    resolve_git_ref-Resolution parse_url is_utf8 url (some (text "work")) none answers resolved
      resolved_work

-- A letter for a digest.
abbrev sha256_hex : Text → Text
sha256_hex s = text "d"

git_blob_path-segments_example :
    (segments (git_blob_path parse_url sha256_hex url (text "b2"))
      ≡ text "git" ∷ text "d" ∷ text "b2" ∷ text "src" ∷ repo_name_from_url parse_url url ∷ [])
    × IsSafeName (repo_name_from_url parse_url url)
git_blob_path-segments_example =
    git_blob_path-segments parse_url sha256_hex url (text "b2") (refl, tt) (refl, (refl, tt))

named : repo_name_from_url parse_url url ≡ text "name"
unfolding repo_name_from_url parse_url
named = refl

dotted : repo_name_from_url parse_url (text "https://host/..") ≡ text "repo"
unfolding repo_name_from_url parse_url
dotted = refl

no_branch :
    resolve_git_ref parse_url is_utf8 url (some (text "gone")) none answers ≡ err branch_not_found
unfolding resolve_git_ref print parse_url
no_branch = refl

unreached :
    resolve_git_ref parse_url is_utf8 url none none (λ url. response 404 [] [] ∷ http_error ∷ [])
    ≡ err bad_gateway
unfolding resolve_git_ref parse_url
unreached = refl

-- A slash in front of `.git` is kept.
slash_kept :
    normalize_repo_url parse_url is_utf8 (text "https://host/name/.git")
    ≡ ok (text "https://host/name/")
unfolding normalize_repo_url parse_url
slash_kept = refl

-- What `int` reads besides hexadecimal digits.
int_16-spaced : int_16 (text " 1_f") ≡ some (false, 31)
unfolding int_16
int_16-spaced = refl
