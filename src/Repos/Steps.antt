-- ===== src/Repos/Steps.antt =====
-- What the steps of `_start_new_analysis` and `_join_analysis` write.
use retro_doc.Prelude.{
  Text, Bool, true, false, Option, none, some, List, [], ◌∷◌, ◌++◌, ◌≡◌, refl, ok,
}
use retro_doc.Action.{go_on}
use retro_doc.Mongo.{Collection, find_last, any}
use retro_doc.Runs.Model.{Answer, PipelineRun, RunCollection, new_run, run_conflicts}
use retro_doc.Runs.Dispatch.{Payload, payload_of, launch_error, dispatch_run, record_failure}
use retro_doc.Repos.Model.{
  RepoDocument, UserRepo, repo_conflicts, link_conflicts, RepoCollection, State,
}
use retro_doc.Repos.Create.{
  Holder, Fresh, source_of, link_of, after_dispatch, insert_repo, insert_user_repo, insert_run,
  start_new_analysis,
}

-- A document at the end that meets a test is the last one that does.
pub find_last-append :
    {D : Type 0} (p : D → Bool) (xs : List D) (d : D)
    → p d ≡ true
    → find_last p (xs ++ d ∷ []) ≡ some d
unfolding find_last
find_last-append p [] d h = rw h refl
find_last-append p (x ∷ xs) d h = rw (find_last-append p xs d h) refl

module _ (rc : RepoCollection) (links : Collection UserRepo link_conflicts) (runs : RunCollection)
    (worker : Payload → Answer) where
  abbrev St : Type 0
  St = State rc links runs

  insert_repo-free :
      (d : RepoDocument) (s : St)
      → any (repo_conflicts d) (rc.collection.docs s.repos) ≡ false
      → (db : rc.collection.Db) × (insert_repo rc links runs worker d s
          ≡ (ok tt, record s { repos = db }))
        × (rc.collection.docs db ≡ rc.collection.docs s.repos ++ d ∷ [])
  unfolding insert_repo
  insert_repo-free d s h =
      let (db, e, docs) = rc.collection.insert-free s.repos d h in
      (db, rw (e, insert_repo) refl, docs)

  insert_user_repo-free :
      (l : UserRepo) (s : St)
      → any (link_conflicts l) (links.docs s.user_repos) ≡ false
      → (db : links.Db) × (insert_user_repo rc links runs worker l s
          ≡ (ok tt, record s { user_repos = db }))
        × (links.docs db ≡ links.docs s.user_repos ++ l ∷ [])
  unfolding insert_user_repo
  insert_user_repo-free l s h =
      let (db, e, docs) = links.insert-free s.user_repos l h in
      (db, rw (e, insert_user_repo) refl, docs)

  insert_run-free :
      (r : PipelineRun) (s : St)
      → any (run_conflicts r) (runs.docs s.pipeline_runs) ≡ false
      → (db : runs.Db) × (insert_run rc links runs worker r s
          ≡ (ok tt, record s { pipeline_runs = db }))
        × (runs.docs db ≡ runs.docs s.pipeline_runs ++ r ∷ [])
  unfolding insert_run
  insert_run-free r s h =
      let (db, e, docs) = runs.insert-free s.pipeline_runs r h in
      (db, rw (e, insert_run) refl, docs)

  -- The request for the first run of a repository.
  abbrev pub first_payload : RepoDocument → Option Text → Option Text → Fresh → Payload
  first_payload d token ref fresh =
      payload_of (source_of d) (new_run fresh.run_id d.id fresh.now) token ref

  -- A new analysis without a conflict, which the worker accepts: one repository, one link and one run
  -- are added, and one request goes out.
  pub start_new_analysis-free :
      (d : RepoDocument) (h : Holder) (token ref : Option Text) (fresh : Fresh) (s : St)
      → any (repo_conflicts d) (rc.collection.docs s.repos) ≡ false
      → any (link_conflicts (link_of h d.id)) (links.docs s.user_repos) ≡ false
      → any (run_conflicts (new_run fresh.run_id d.id fresh.now)) (runs.docs s.pipeline_runs)
        ≡ false
      → launch_error (worker (first_payload d token ref fresh)) ≡ none
      → (s1 : St) × (start_new_analysis rc links runs worker d h token ref fresh s ≡ (ok tt, s1))
        × (rc.collection.docs s1.repos ≡ rc.collection.docs s.repos ++ d ∷ [])
        × (links.docs s1.user_repos ≡ links.docs s.user_repos ++ link_of h d.id ∷ [])
        × (runs.docs s1.pipeline_runs
            ≡ runs.docs s.pipeline_runs ++ new_run fresh.run_id d.id fresh.now ∷ [])
        × (s1.sent ≡ s.sent ++ first_payload d token ref fresh ∷ [])
  unfolding start_new_analysis after_dispatch dispatch_run record_failure go_on
  start_new_analysis-free d h token ref fresh s free_repo free_link free_run accepted =
      let (repos1, e1, docs1) = insert_repo-free d s free_repo in
      let s1 = record s { repos = repos1 } in
      let (links2, e2, docs2) = insert_user_repo-free (link_of h d.id) s1 free_link in
      let s2 = record s1 { user_repos = links2 } in
      let (runs3, e3, docs3) = insert_run-free (new_run fresh.run_id d.id fresh.now) s2 free_run in
      let s3 = record s2 {
        pipeline_runs = runs3;
        sent = s.sent ++ first_payload d token ref fresh ∷ [];
      } in
      (
        s3,
        rw (e1, start_new_analysis)
            (rw (e2, go_on) (rw (e3, go_on) (rw (accepted, dispatch_run) refl))),
        docs1,
        docs2,
        docs3,
        refl,
      )
