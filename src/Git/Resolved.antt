-- ===== src/Git/Resolved.antt =====
-- What a successful `resolve_git_ref` says of the remote.
use retro_doc.Prelude.{
  ok, ok_injective, ok-first, Text, Bool, true, false, Option, none, some, List, map, ◌≡◌, ◌⊎◌, ◌∙◌,
  sym, ap, subst, refl, Bool-cases, Option-cases, inl, inr, arith,
}
use retro_doc.Cfg.Label.{lower}
use retro_doc.Git.Refs.{Advertised, parse_advertised_refs}
use retro_doc.Git.Resolve.{
  UrlParts, ResolvedGitRef, Answer, Fetched, fetch, is_commit, resolve_refs, normalize_repo_url,
  checked_commit, resolve_parsed, resolve_fetched, resolve_git_ref,
}
use retro_doc.Git.Entries.{Advertises, fetch-Advertises}
use retro_doc.Git.Resolutions.{
  Resolution, resolve_refs-Resolution, resolve_refs-given, resolve_refs-url,
}

module _ (parse_url : Text → UrlParts) (is_utf8 : Text → Bool) where
  resolve_fetched-ok :
      (url : Text) (branch commit : Option Text) (f : Fetched) (r : ResolvedGitRef)
      → resolve_fetched parse_url is_utf8 url branch commit f ≡ ok r
      → (content : Text) × (a : Advertised) × (f.advertisement ≡ some content)
        × (parse_advertised_refs is_utf8 content ≡ some a)
        × (resolve_refs url branch commit a ≡ ok r)
  unfolding resolve_fetched resolve_parsed
  resolve_fetched-ok url branch commit f r h = elim (Bool-cases f.unreachable) [
    | inl u ↦ absurd (ground (arith, rw u at h))
    | inr u ↦ elim (Option-cases f.advertisement) [
      | inl e ↦ absurd (ground (arith, rw (e, resolve_fetched) at (rw u at h)))
      | inr (content, e) ↦ elim (Option-cases (parse_advertised_refs is_utf8 content)) [
        | inl p ↦
            absurd
              (ground (arith, rw (p, resolve_parsed) at (rw (e, resolve_fetched) at (rw u at h))))
        | inr (a, p) ↦
            (content, a, e, p, rw (p, resolve_parsed) at (rw (e, resolve_fetched) at (rw u at h)))
      ]
    ]
  ]

  checked_commit-ok :
      (commit commit' : Option Text)
      → checked_commit parse_url is_utf8 commit ≡ ok commit'
      → ((commit ≡ none) × (commit' ≡ none))
        ⊎ ((c : Text) × (commit ≡ some c) × (is_commit c ≡ true) × (commit' ≡ some (map lower c)))
  unfolding checked_commit
  checked_commit-ok none commit' h = inl (refl, sym (ok_injective _ commit' h))
  checked_commit-ok (some c) commit' h = elim (Bool-cases (is_commit c)) [
    | inl v ↦ inr (c, refl, v, sym (ok_injective _ commit' (rw v at h)))
    | inr v ↦ absurd (ground (arith, rw v at h))
  ]

  -- Whatever is resolved: the URL is the normalized one, one of its routes answered with an
  -- advertisement that can be parsed, and the result is the commit that was given, a hexadecimal one,
  -- in lower case, with a branch whose tip it is or none; or, without a commit, the tip of the branch
  -- that was given; or, with neither, the default branch (what HEAD stands for, else a branch at the
  -- commit of HEAD), at the commit of the ref of its name or of HEAD.
  pub resolve_git_ref-Resolution :
      (repo_url : Text) (branch commit : Option Text) (answers : Text → List Answer)
      (r : ResolvedGitRef)
      → resolve_git_ref parse_url is_utf8 repo_url branch commit answers ≡ ok r
      → (normalize_repo_url parse_url is_utf8 repo_url ≡ ok r.url)
        × (content : Text) × (a : Advertised) × Advertises content (answers r.url)
        × (parse_advertised_refs is_utf8 content ≡ some a)
        × Resolution branch commit a r
  unfolding resolve_git_ref
  resolve_git_ref-Resolution repo_url branch commit answers r h =
      let (url, u, h1) = ok-first (normalize_repo_url parse_url is_utf8 repo_url) _ h in
      let (commit', v, h2) = ok-first (checked_commit parse_url is_utf8 commit) _ h1 in
      let f = fetch (answers url) (record { unreachable = false; advertisement = none }) in
      let (content, a, e, p, q) = resolve_fetched-ok url branch commit' f r h2 in
      let found =
        fetch-Advertises (answers url) (record { unreachable = false; advertisement = none })
          content refl e in
      let same : url ≡ r.url = sym (resolve_refs-url a url branch commit' r q) in
      (
        u ∙ ap ok same,
        content,
        a,
        subst (λ x. Advertises content (answers x)) same found,
        p,
        elim (checked_commit-ok commit commit' v) [
          | inl (k, k') ↦
              subst (λ c. Resolution branch c a r) (sym k)
                (resolve_refs-Resolution a url branch r
                  (subst (λ c. resolve_refs url branch c a ≡ ok r) k' q))
          | inr (c, k, w, k') ↦
              subst (λ c'. Resolution branch c' a r) (sym k)
                (resolve_refs-given a url c branch r w
                  (subst (λ c'. resolve_refs url branch c' a ≡ ok r) k' q))
        ],
      )
