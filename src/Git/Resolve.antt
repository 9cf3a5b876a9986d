-- ===== src/Git/Resolve.antt =====
-- `_normalize_repo_url`, `_get_advertisement` and `resolve_git_ref` of backend/app/repos/git.py.
-- `urlparse` is the parameter `parse_url`, on the texts that it takes without an exception.
use retro_doc.Prelude.{
  Result, ok, err, ◌>>=◌, ℕ, leb, ◌==◌, Text, text, text_eq, Dict, lookup, Bool, true, false, ◌&&◌,
  ◌||◌, not, Option, none, some, is_some, List, [], ◌∷◌, ◌++◌, map, is_empty, length, drop,
  if◌then◌else◌,
}
use retro_doc.Strings.{starts_with, lstrip, rstrip, without_suffix, is_unicode_space, split_once}
use retro_doc.Cfg.Label.{lower}
use retro_doc.Git.Pkt.{hex_value}
use retro_doc.Git.Refs.{Advertised, parse_advertised_refs}

-- `bad_gateway` is 502, `undecodable` an exception that is not caught, the others are 422.
pub data Error : Type 0 where
  invalid_url invalid_commit inaccessible branch_not_found no_default_branch : Error
  bad_gateway undecodable : Error

pub record UrlParts : Type 0 where
  pub scheme : Text
  pub netloc : Text
  pub path : Text

pub record ResolvedGitRef : Type 0 where
  pub url : Text
  pub commit : Text
  pub ref : Option Text

-- What a route answers: `httpx.HTTPError`, or a response; `content_type` is empty without the header.
pub data Answer : Type 0 where
  http_error : Answer
  response : (status_code : ℕ) (content_type content : Text) → Answer

abbrev pub heads_prefix : Text
heads_prefix = text "refs/heads/"

abbrev pub advertisement_media_type : Text
advertisement_media_type = text "application/x-git-upload-pack-advertisement"

unfoldable pub strip : Text → Text
unfolding lstrip rstrip is_unicode_space
strip s = lstrip is_unicode_space (rstrip is_unicode_space s)

-- `content_type.split(";")[0].strip().lower()`
unfoldable pub media_type : Text → Text
unfolding strip split_once lower
media_type s =
    map lower (strip (elim (split_once b';' s) [ some (before, after) ↦ before | none ↦ s ]))

-- The advertisement of a response, or `none` where it is not one.
unfoldable pub get_advertisement : ℕ → Text → Text → Option Text
unfolding media_type text_eq
get_advertisement status_code content_type content =
    if not (status_code == 200) || not (text_eq (media_type content_type) advertisement_media_type)
    then none
    else some content

-- `unreachable` and `response` after the loop over the routes.
pub record Fetched : Type 0 where
  pub unreachable : Bool
  pub advertisement : Option Text

unfoldable pub fetch : List Answer → Fetched → Fetched
unfolding get_advertisement
fetch [] f = f
fetch (http_error ∷ answers) f = fetch answers (record f { unreachable = true })
fetch (response status_code content_type content ∷ answers) f =
    let next = fetch answers (record { unreachable = false; advertisement = none }) in
    elim (get_advertisement status_code content_type content) [
      | some a ↦ record { unreachable = false; advertisement = some a }
      | none ↦ next
    ]

-- `_COMMIT_RE.fullmatch(commit)`
unfoldable pub all_hex : Text → Bool
unfolding hex_value
all_hex [] = true
all_hex (c ∷ s) = is_some (hex_value c) && all_hex s

unfoldable pub is_commit : Text → Bool
unfolding all_hex
is_commit s = leb 7 (length s) && (leb (length s) 64 && all_hex s)

-- The first branch whose tip is this commit.
unfoldable pub find_tip : Text → Dict Text → Option Text
unfolding text_eq starts_with
find_tip commit [] = none
find_tip commit ((name, sha) ∷ refs) =
    if text_eq sha commit && starts_with heads_prefix name then some name else find_tip commit refs

abbrev pub drop_heads : Text → Text
drop_heads name = drop (length heads_prefix) name

-- `a or b` on texts that may be missing.
unfoldable pub or_text : Option Text → Option Text → Option Text
or_text none b = b
or_text (some s) b = if is_empty s then b else some s

unfoldable pub default_ref : Option Text → Option Text → Dict Text → Option Text
unfolding find_tip
default_ref (some h) head_sha refs = some h
default_ref none none refs = none
default_ref none (some sha) refs = find_tip sha refs

unfoldable pub resolved_default : Text → Option Text → Option Text → Result Error ResolvedGitRef
unfolding starts_with
resolved_default url (some name) (some sha) = ok (record {
  url = url;
  commit = sha;
  ref = some (if starts_with heads_prefix name then drop_heads name else name);
})
resolved_default url none sha = err no_default_branch
resolved_default url (some name) none = err no_default_branch

unfoldable pub named_sha : Option Text → Dict Text → Option Text
unfolding lookup
named_sha none refs = none
named_sha (some name) refs = lookup name refs

unfoldable pub resolve_default : Text → Advertised → Result Error ResolvedGitRef
unfolding resolved_default default_ref or_text named_sha lookup
resolve_default url a =
    let head_sha = lookup (text "HEAD") a.refs in
    let name = default_ref a.head_symref head_sha a.refs in
    resolved_default url name (or_text (named_sha name a.refs) head_sha)

unfoldable pub resolve_branch : Text → Text → Advertised → Result Error ResolvedGitRef
unfolding lookup
resolve_branch url branch a = elim (lookup (heads_prefix ++ branch) a.refs) [
  | some sha ↦ ok (record { url = url; commit = sha; ref = some branch })
  | none ↦ err branch_not_found
]

-- What is asked for, the commit being checked and in lower case.
unfoldable pub resolve_refs :
    Text → Option Text → Option Text → Advertised → Result Error ResolvedGitRef
unfolding find_tip resolve_branch resolve_default
resolve_refs url branch (some commit) a = ok (record {
  url = url;
  commit = commit;
  ref = elim (find_tip commit a.refs) [ some name ↦ some (drop_heads name) | none ↦ none ];
})
resolve_refs url (some branch) none a =
    if is_empty branch then resolve_default url a else resolve_branch url branch a
resolve_refs url none none a = resolve_default url a

module _ (parse_url : Text → UrlParts) (is_utf8 : Text → Bool) where
  unfoldable pub normalize_repo_url : Text → Result Error Text
  unfolding strip rstrip without_suffix text_eq
  normalize_repo_url repo_url =
      let url = strip repo_url in
      let parsed = parse_url url in
      if (text_eq parsed.scheme (text "http") || text_eq parsed.scheme (text "https"))
        && not (is_empty parsed.netloc)
      then ok (without_suffix (text ".git") (rstrip (λ c. c == b'/') url))
      else err invalid_url

  unfoldable pub checked_commit : Option Text → Result Error (Option Text)
  unfolding is_commit lower
  checked_commit none = ok none
  checked_commit (some commit) =
      if is_commit commit then ok (some (map lower commit)) else err invalid_commit

  unfoldable pub resolve_parsed :
      Text → Option Text → Option Text → Option Advertised → Result Error ResolvedGitRef
  unfolding resolve_refs
  resolve_parsed url branch commit none = err undecodable
  resolve_parsed url branch commit (some a) = resolve_refs url branch commit a

  unfoldable pub resolve_fetched :
      Text → Option Text → Option Text → Fetched → Result Error ResolvedGitRef
  unfolding resolve_parsed parse_advertised_refs
  resolve_fetched url branch commit f =
      if f.unreachable then err bad_gateway else elim f.advertisement [
        | some content ↦ resolve_parsed url branch commit (parse_advertised_refs is_utf8 content)
        | none ↦ err inaccessible
      ]

  -- `answers` has what each route would answer for the normalized URL, the direct one first.
  unfoldable pub resolve_git_ref :
      Text → Option Text → Option Text → (Text → List Answer) → Result Error ResolvedGitRef
  unfolding normalize_repo_url checked_commit resolve_fetched fetch
  resolve_git_ref repo_url branch commit answers = do
    url ← normalize_repo_url repo_url
    commit' ← checked_commit commit
    resolve_fetched url branch commit'
        (fetch (answers url) (record { unreachable = false; advertisement = none }))
