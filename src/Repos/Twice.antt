-- ===== src/Repos/Twice.antt =====
-- Two requests to analyse the same commit at the same version.
use retro_doc.Prelude.{
  ℕ, ◌==◌, Text, text_eq, Bool, true, false, Option, none, some, [], ◌∷◌, ◌++◌, ◌≡◌, ◌∙◌, ap, refl,
  ok, append_assoc, arith,
}
use retro_doc.Action.{go_on}
use retro_doc.Mongo.{Collection, any}
use retro_doc.Mongo.Lists.{any-append, any-weaken}
use retro_doc.Links.Model.{is_positive}
use retro_doc.Runs.Model.{Answer, pending, RunCollection, new_run, run_conflicts}
use retro_doc.Runs.Dispatch.{Payload, launch_error}
use retro_doc.Git.Resolve.{UrlParts, ResolvedGitRef}
use retro_doc.Git.Name.{git_blob_path}
use retro_doc.Repos.Model.{
  RepoDocument, UserRepo, repo_conflicts, link_conflicts, RepoCollection, State, is_live_git,
  find_live_git_repo,
}
use retro_doc.Repos.Create.{Holder, Fresh, new_repo, link_of, start_new_analysis, join_analysis}
use retro_doc.Repos.Analyze.{joined, join_existing, created_git, analyze_found, analyze_resolved}
use retro_doc.Repos.Steps.{first_payload, start_new_analysis-free}
use retro_doc.Repos.Joined.{with_holder, join_analysis-pending}
use retro_doc.Repos.Found.{new_repo-is_live_git, first_sorted_none, first_sorted_last}

module _ (rc : RepoCollection) (links : Collection UserRepo link_conflicts) (runs : RunCollection)
    (worker : Payload → Answer) (parse_url : Text → UrlParts) (is_utf8 : Text → Bool)
    (sha256_hex : Text → Text) where
  abbrev pub St : Type 0
  St = State rc links runs

  -- The repository that a request creates.
  abbrev pub repo_for : ResolvedGitRef → Text → ℕ → RepoDocument
  repo_for r v id =
      new_repo r.url (some r.commit) v (git_blob_path parse_url sha256_hex r.url r.commit) [] id

  analyze_resolved-new :
      (r : ResolvedGitRef) (v : Text) (token : Option Text) (h : Holder) (fresh : Fresh) (s s1 : St)
      → let d = repo_for r v fresh.repo_id in
        any (is_live_git r.url r.commit v) (rc.collection.docs s.repos) ≡ false
        → start_new_analysis rc links runs worker d h token r.ref fresh s ≡ (ok tt, s1)
        → analyze_resolved rc links runs worker parse_url is_utf8 sha256_hex
            (λ s. s)
            r
            v
            token
            h
            fresh
            s
          ≡ (ok (fresh.repo_id, (pending, false)), s1)
  unfolding analyze_resolved find_live_git_repo analyze_found created_git new_repo
  analyze_resolved-new r v token h fresh s s1 none_live started =
      rw
        (
          first_sorted_none rc s.repos (is_live_git r.url r.commit v) (λ d. d.analyzer_version)
              none_live,
          analyze_found,
        )
        (rw (started, created_git) refl)

  analyze_resolved-joined :
      (r : ResolvedGitRef) (v : Text) (token : Option Text) (h : Holder) (fresh : Fresh)
      (d : RepoDocument) (s s2 : St)
      → rc.first_sorted s.repos (is_live_git r.url r.commit v) (λ d. d.analyzer_version) ≡ some d
      → join_analysis rc links runs worker d h token r.ref fresh s ≡ (ok (d.id, pending), s2)
      → analyze_resolved rc links runs worker parse_url is_utf8 sha256_hex
          (λ s. s)
          r
          v
          token
          h
          fresh
          s
        ≡ (ok (d.id, (pending, true)), s2)
  unfolding analyze_resolved find_live_git_repo analyze_found join_existing joined go_on
  analyze_resolved-joined r v token h fresh d s s2 found join =
      rw (found, analyze_found) (rw (join, go_on) refl)

  -- Two users ask for the same commit at the same version, one after the other, while others write
  -- nothing. No repository is live for it at first, none conflicts with the new one, its identity is
  -- fresh in all collections, and the worker accepts. The first creates the repository and one request
  -- goes out. The second joins it, with no further request and no further repository or run; the
  -- repository has then two holders and a link for each.
  pub analyze_resolved-twice :
      (r : ResolvedGitRef) (v : Text) (token token' ref' : Option Text) (h h' : Holder)
      (fresh fresh' : Fresh) (s : St)
      → let d = repo_for r v fresh.repo_id in
        text_eq h'.uid h.uid ≡ false
        → any (is_live_git r.url r.commit v) (rc.collection.docs s.repos) ≡ false
        → any (repo_conflicts d) (rc.collection.docs s.repos) ≡ false
        → any (λ e. e.id == fresh.repo_id) (rc.collection.docs s.repos) ≡ false
        → any (λ l. fresh.repo_id == l.repo_id) (links.docs s.user_repos) ≡ false
        → any (λ x. fresh.repo_id == x.repo_id) (runs.docs s.pipeline_runs) ≡ false
        → launch_error (worker (first_payload rc links runs worker d token r.ref fresh)) ≡ none
        → let first =
            analyze_resolved rc links runs worker parse_url is_utf8 sha256_hex
              (λ s. s)
              r
              v
              token
              h
              fresh
              s in
          let second =
            analyze_resolved rc links runs worker parse_url is_utf8 sha256_hex
              (λ s. s)
              (record r { ref = ref' })
              v
              token'
              h'
              fresh'
              first.1 in
          (first.0 ≡ ok (fresh.repo_id, (pending, false)))
          × (first.1.sent ≡ s.sent ++ first_payload rc links runs worker d token r.ref fresh ∷ [])
          × (second.0 ≡ ok (fresh.repo_id, (pending, true)))
          × (second.1.sent ≡ first.1.sent)
          × (second.1.pipeline_runs ≡ first.1.pipeline_runs)
          × (rc.collection.docs second.1.repos ≡ rc.collection.docs s.repos ++ with_holder d ∷ [])
          × (links.docs second.1.user_repos
              ≡ links.docs s.user_repos ++ link_of h fresh.repo_id ∷ link_of h' fresh.repo_id ∷ [])
  unfolding analyze_resolved find_live_git_repo analyze_found join_existing joined go_on new_repo
      link_of new_run link_conflicts run_conflicts is_positive any
  analyze_resolved-twice r v token token' ref' h h' fresh fresh' s other none_live none_conflict
        new_id no_link no_run accepted =
      let d = repo_for r v fresh.repo_id in
      let docs0 = rc.collection.docs s.repos in
      let free_link =
        any-weaken (link_conflicts (link_of h d.id)) (λ l. fresh.repo_id == l.repo_id)
          (links.docs s.user_repos) (λ l m. ground (arith, m)) no_link in
      let free_link' =
        any-weaken (link_conflicts (link_of h' d.id)) (λ l. fresh.repo_id == l.repo_id)
          (links.docs s.user_repos) (λ l m. ground (arith, m)) no_link in
      let free_run =
        any-weaken (run_conflicts (new_run fresh.run_id d.id fresh.now))
          (λ x. fresh.repo_id == x.repo_id) (runs.docs s.pipeline_runs) (λ x m. ground (arith, m))
          no_run in
      let (s1, started, docs1, links1, runs1, sent1) =
        start_new_analysis-free rc links runs worker d h token r.ref fresh s none_conflict free_link
          free_run accepted in
      let first = analyze_resolved-new r v token h fresh s s1 none_live started in
      let still_free : any (link_conflicts (link_of h' d.id)) (links.docs s1.user_repos) ≡ false =
        ap (any (link_conflicts (link_of h' d.id))) links1
        ∙ (any-append (link_conflicts (link_of h' d.id)) (links.docs s.user_repos)
              (link_of h d.id ∷ [])
            ∙ ground (arith, free_link', other)) in
      let (repos2, links2, e2, docs2, ldocs2) =
        join_analysis-pending rc links runs worker docs0 d h' token' ref' fresh' s1
          (runs.docs s.pipeline_runs) (new_run fresh.run_id d.id fresh.now) docs1 new_id refl
          still_free runs1 (ground arith) refl in
      let found =
        first_sorted_last rc s1.repos (is_live_git r.url r.commit v) (λ d. d.analyzer_version) docs0
          d docs1 none_live (new_repo-is_live_git r.url r.commit v d.blob_path [] fresh.repo_id) in
      let second =
        analyze_resolved-joined (record r { ref = ref' }) v token' h' fresh' d s1
          (record s1 { repos = repos2; user_repos = links2 }) found e2 in
      rw first (
        rw second (
          refl,
          sent1,
          refl,
          refl,
          refl,
          docs2,
          ldocs2
              ∙ (ap (λ ls. ls ++ link_of h' d.id ∷ []) links1
                  ∙ append_assoc (links.docs s.user_repos) (link_of h d.id ∷ [])
                      (link_of h' d.id ∷ [])),
        ))
