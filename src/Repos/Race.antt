-- ===== src/Repos/Race.antt =====
-- A request that loses the race to create a repository.
use retro_doc.Prelude.{
  ℕ, Text, text_eq, text_eq_refl, text_eq_sound, Bool, true, false, Option, some, List, [], ◌∷◌,
  ◌≡◌, ◌∙◌, subst, refl, err, Bool-cases, inl, inr, arith,
}
use retro_doc.Action.{go_on}
use retro_doc.Mongo.{Collection, any, find}
use retro_doc.Mongo.Lists.{any-weaken}
use retro_doc.Links.Model.{is_positive}
use retro_doc.Runs.Model.{Answer, RunCollection}
use retro_doc.Runs.Dispatch.{Payload}
use retro_doc.Git.Resolve.{UrlParts, ResolvedGitRef}
use retro_doc.Repos.Model.{
  RepoDocument, UserRepo, repo_conflicts, link_conflicts, RepoCollection, State, duplicate_key,
  same_text, is_live_git, is_live_git_key, find_live_git_repo, find_live_git_repo_by_key,
}
use retro_doc.Repos.Create.{Holder, Fresh, new_repo, insert_repo, start_new_analysis, join_analysis}
use retro_doc.Repos.Analyze.{joined, join_existing, created_git, analyze_found, analyze_resolved}
use retro_doc.Repos.Twice.{repo_for}
use retro_doc.Repos.Found.{first_sorted_none}

pub text_eq_sym : (s t : Text) → text_eq s t ≡ true → text_eq t s ≡ true
text_eq_sym s t h = subst (λ x. text_eq x s ≡ true) (text_eq_sound s t h) (text_eq_refl s)

pub find-any :
    {D : Type 0} (p : D → Bool) (ds : List D) (d : D) → find p ds ≡ some d → any p ds ≡ true
unfolding find any
find-any p [] d h = absurd (ground (arith, h))
find-any p (x ∷ xs) d h =
    let r = find-any p xs d in
    elim (Bool-cases (p x)) [ inl e ↦ rw e refl | inr e ↦ rw e (r (rw e at h)) ]

-- Who holds the key conflicts with a new repository of it.
is_live_git_key-conflicts :
    (url commit v path : Text) (languages : List Text) (id : ℕ) (d : RepoDocument)
    → is_live_git_key url commit v d ≡ true
    → repo_conflicts (new_repo url (some commit) v path languages id) d ≡ true
unfolding is_live_git_key repo_conflicts new_repo same_text is_positive
is_live_git_key-conflicts url commit v path languages id d h =
    let u = text_eq_sym d.repo_url url (ground (arith, h)) in
    let w = text_eq_sym d.analyzer_version v (ground (arith, h)) in ground (arith, h, u, w)

module _ (rc : RepoCollection) (links : Collection UserRepo link_conflicts) (runs : RunCollection)
    (worker : Payload → Answer) where
  abbrev pub St : Type 0
  St = State rc links runs

  -- A repository that conflicts with a stored one is refused before anything is written.
  pub start_new_analysis-conflict :
      (d : RepoDocument) (h : Holder) (token ref : Option Text) (fresh : Fresh) (s : St)
      → any (repo_conflicts d) (rc.collection.docs s.repos) ≡ true
      → start_new_analysis rc links runs worker d h token ref fresh s ≡ (err duplicate_key, s)
  unfolding start_new_analysis insert_repo go_on
  start_new_analysis-conflict d h token ref fresh s c =
      rw (rc.collection.insert-conflict s.repos d c, insert_repo) refl

  module _ (parse_url : Text → UrlParts) (is_utf8 : Text → Bool) (sha256_hex : Text → Text)
      (meanwhile : St → St) where
    -- No repository is live for the commit and the version when it is looked up, and others write
    -- in between, among it a live repository with the same key: the request ends as a join of the
    -- first such one on what the others left, whatever comes of the join.
    pub analyze_resolved-lost :
        (r : ResolvedGitRef) (v : Text) (token : Option Text) (h : Holder) (fresh : Fresh) (s : St)
        (winner : RepoDocument)
        → any (is_live_git r.url r.commit v) (rc.collection.docs s.repos) ≡ false
        → find (is_live_git_key r.url r.commit v) (rc.collection.docs (meanwhile s).repos)
          ≡ some winner
        → analyze_resolved rc links runs worker parse_url is_utf8 sha256_hex meanwhile r v token h
            fresh s
          ≡ go_on
              (join_analysis rc links runs worker winner h token r.ref fresh (meanwhile s))
              (joined rc links runs worker)
    unfolding analyze_resolved find_live_git_repo find_live_git_repo_by_key analyze_found
        created_git join_existing new_repo
    analyze_resolved-lost r v token h fresh s winner none_live won =
        let d = repo_for rc links runs worker parse_url is_utf8 sha256_hex r v fresh.repo_id in
        let ds = rc.collection.docs (meanwhile s).repos in
        let held = find-any (is_live_git_key r.url r.commit v) ds winner won in
        let conflict : any (repo_conflicts d) ds ≡ true =
          elim (Bool-cases (any (repo_conflicts d) ds)) [
            | inl e ↦ e
            | inr e ↦ absurd (
                ground (
                  arith,
                  held,
                  any-weaken (is_live_git_key r.url r.commit v) (repo_conflicts d) ds
                      (is_live_git_key-conflicts r.url r.commit v d.blob_path [] fresh.repo_id) e,
                ))
          ] in
        let refused = start_new_analysis-conflict d h token r.ref fresh (meanwhile s) conflict in
        let found =
          rc.collection.find_one-docs (meanwhile s).repos (is_live_git_key r.url r.commit v)
          ∙ won in
        rw
          (
            first_sorted_none rc s.repos (is_live_git r.url r.commit v) (λ d. d.analyzer_version)
                none_live,
            analyze_found,
          )
          (rw (refused, created_git) (rw (found, join_existing) refl))
