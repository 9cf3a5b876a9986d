-- ===== src/Repos/Joined.antt =====
-- Requests for an analysis that exists already.
use retro_doc.Prelude.{
  ℕ, ◌==◌, Text, Bool, true, false, ◌&&◌, Option, some, is_some, List, [], ◌∷◌, ◌++◌, ◌≡◌, ◌∙◌, ap,
  refl, ok, arith,
}
use retro_doc.Action.{go_on}
use retro_doc.Mongo.{Collection, find, find_last, any, modify_first}
use retro_doc.Mongo.Lists.{modify_first-append, find-append, any-weaken}
use retro_doc.Links.Model.{incremented, is_positive}
use retro_doc.Runs.Model.{Answer, pending, PipelineRun, RunCollection}
use retro_doc.Runs.Dispatch.{Payload}
use retro_doc.Repos.Model.{
  RepoDocument, UserRepo, repo_conflicts, link_conflicts, RepoCollection, State,
}
use retro_doc.Repos.Create.{
  Holder, Fresh, link_of, insert_link, claimed_slot, acquire_repo_link, join_latest, join_analysis,
}
use retro_doc.Repos.Steps.{find_last-append}

abbrev pub with_holder : RepoDocument → RepoDocument
with_holder d = record d { user_count = incremented d.user_count }

incremented_conflicts :
    (id : ℕ) (d e : RepoDocument)
    → (d.id == id && is_positive d.user_count) ≡ true
    → repo_conflicts e (with_holder d) ≡ true
    → repo_conflicts e d ≡ true
unfolding repo_conflicts
incremented_conflicts id d e m h = ground (arith, m, h)

module _ (rc : RepoCollection) (links : Collection UserRepo link_conflicts) (runs : RunCollection)
    (worker : Payload → Answer) where
  abbrev pub St : Type 0
  St = State rc links runs

  -- A user joins the last repository, which somebody holds.
  acquire_repo_link-joins :
      (earlier : List RepoDocument) (d : RepoDocument) (h : Holder) (s : St)
      → rc.collection.docs s.repos ≡ earlier ++ d ∷ []
      → any (λ e. e.id == d.id) earlier ≡ false
      → is_positive d.user_count ≡ true
      → any (link_conflicts (link_of h d.id)) (links.docs s.user_repos) ≡ false
      → (repos : rc.collection.Db) × (user_repos : links.Db) × (acquire_repo_link rc links runs
            worker d.id h s
          ≡ (ok tt, record s { repos = repos; user_repos = user_repos }))
        × (rc.collection.docs repos ≡ earlier ++ with_holder d ∷ [])
        × (links.docs user_repos ≡ links.docs s.user_repos ++ link_of h d.id ∷ [])
  unfolding acquire_repo_link claimed_slot insert_link
  acquire_repo_link-joins earlier d h s docs fresh held free =
      let p : RepoDocument → Bool = λ e. e.id == d.id && is_positive e.user_count in
      let (repos, u, docs1) =
        rc.collection.update_one-docs s.repos p with_holder (incremented_conflicts d.id) in
      let passed : any p earlier ≡ false =
        any-weaken p (λ e. e.id == d.id) earlier (λ e m. ground (arith, m)) fresh in
      let met : p d ≡ true = ground (arith, held) in
      let found : is_some (find p (rc.collection.docs s.repos)) ≡ true =
        ap (λ ds. is_some (find p ds)) docs ∙ ap is_some (find-append p earlier d [] passed met) in
      let (user_repos, v, docs2) = links.insert-free s.user_repos (link_of h d.id) free in
      (
        repos,
        user_repos,
        rw (u, acquire_repo_link) (rw found (rw (v, insert_link) refl)),
        docs1
            ∙ (ap (modify_first p with_holder) docs
                ∙ modify_first-append p with_holder earlier d [] passed met),
        docs2,
      )

  -- A user joins the last repository, whose latest run is pending: the repository has one holder more,
  -- one link is added, and nothing else changes.
  pub join_analysis-pending :
      (earlier : List RepoDocument) (d : RepoDocument) (h : Holder) (token ref : Option Text)
      (fresh : Fresh) (s : St) (before : List PipelineRun) (r : PipelineRun)
      → rc.collection.docs s.repos ≡ earlier ++ d ∷ []
      → any (λ e. e.id == d.id) earlier ≡ false
      → is_positive d.user_count ≡ true
      → any (link_conflicts (link_of h d.id)) (links.docs s.user_repos) ≡ false
      → runs.docs s.pipeline_runs ≡ before ++ r ∷ []
      → (r.repo_id == d.id) ≡ true
      → r.status ≡ pending
      → (repos : rc.collection.Db) × (user_repos : links.Db) × (join_analysis rc links runs worker d
            h token ref fresh s
          ≡ (ok (d.id, pending), record s { repos = repos; user_repos = user_repos }))
        × (rc.collection.docs repos ≡ earlier ++ with_holder d ∷ [])
        × (links.docs user_repos ≡ links.docs s.user_repos ++ link_of h d.id ∷ [])
  unfolding join_analysis join_latest go_on
  join_analysis-pending earlier d h token ref fresh s before r docs new held free latest same
        is_pending =
      let (repos, user_repos, e, docs1, docs2) =
        acquire_repo_link-joins earlier d h s docs new held free in
      let p : PipelineRun → Bool = λ x. x.repo_id == d.id in
      let run : runs.find_latest s.pipeline_runs p ≡ some r =
        runs.find_latest-docs s.pipeline_runs p
        ∙ (ap (find_last p) latest ∙ find_last-append p before r same) in
      (
        repos,
        user_repos,
        rw (e, join_analysis) (rw (run, join_latest) (rw is_pending refl)),
        docs1,
        docs2,
      )
