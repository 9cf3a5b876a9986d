-- ===== src/Repos/InPlace.antt =====
-- What a relaunch of a repository that is not stale leaves alone.
use retro_doc.Prelude.{
  ℕ, ◌==◌, Text, Bool, false, Option, none, some, List, [], ◌∷◌, ◌++◌, append-nil, ◌≡◌, ◌∙◌, ap,
  refl, Result-cases, Option-cases, inl, inr, ◌⊎◌,
}
use retro_doc.Action.{go_on}
use retro_doc.Mongo.{Collection}
use retro_doc.Runs.Model.{
  Answer, RunCollection, pending, running, completed, failed, PipelineRun, PipelineMeta, fail_run,
}
use retro_doc.Runs.Dispatch.{
  Repo, Payload, Outcome, launch_error, record_failure, dispatch_run, claim_next_run, report,
  stamp_retried, retry_claimed, retry_failed_run, repair_claimed, relaunch_latest,
  relaunch_at_current_version,
}
use retro_doc.Runs.Dispatch
use retro_doc.Versions.Stale.{Versioning, is_stale}
use retro_doc.Git.Resolve.{UrlParts}
use retro_doc.Git.Resolve
use retro_doc.Repos.Model.{RepoDocument, UserRepo, link_conflicts, RepoCollection, State}
use retro_doc.Repos.Create.{Fresh, source_of, after_dispatch, require_version}
use retro_doc.Repos.Relaunch.{
  versions_of, reconcile, resolve_source_ref, relaunch_by_version, relaunch_repo,
}

abbrev pub AtMostOne : List Payload → List Payload → Type 0
AtMostOne before after = (after ≡ before) ⊎ ((p : Payload) × (after ≡ before ++ p ∷ []))

module _ (runs : RunCollection) (worker : Payload → Answer) where
  record_failure-AtMostOne :
      (run : PipelineRun) (now : ℕ) (o : Option (Dispatch.Error × PipelineMeta)) (p : Payload)
      (db : runs.Db)
      → AtMostOne [] (record_failure runs worker run now o p db).sent
  unfolding record_failure fail_run
  record_failure-AtMostOne run now none p db = inr (p, refl)
  record_failure-AtMostOne run now (some (e, meta)) p db =
      elim (Option-cases (runs.update_one db (λ r. r.id == run.id) (fail_run now meta))) [
        | inl k ↦ rw (k, record_failure) (inr (p, refl))
        | inr (u, k) ↦ rw (k, record_failure) (inr (p, refl))
      ]

  report-AtMostOne :
      (n : ℕ) (o : Outcome runs worker (Unit {0}))
      → AtMostOne [] o.sent
      → AtMostOne [] (report runs worker n o).sent
  unfolding report
  report-AtMostOne n o h = elim (Result-cases o.result) [
    | inl (a, e) ↦ rw (e, report) h
    | inr (x, e) ↦ rw (e, report) h
  ]

  dispatch_run-AtMostOne :
      (repo : Repo) (run : PipelineRun) (token ref : Option Text) (now : ℕ) (db : runs.Db)
      → AtMostOne [] (dispatch_run runs worker repo run token ref now db).sent
  unfolding dispatch_run
  dispatch_run-AtMostOne repo run token ref now db = record_failure-AtMostOne run now _ _ db

  retry_claimed-AtMostOne :
      (c : Option PipelineRun × runs.Db) (repo : Repo) (run : PipelineRun) (token ref : Option Text)
      (now : ℕ)
      → AtMostOne [] (retry_claimed runs worker c repo run token ref now).sent
  unfolding retry_claimed
  retry_claimed-AtMostOne (none, db) repo run token ref now = inl refl
  retry_claimed-AtMostOne (some retry, db) repo run token ref now =
      elim (Option-cases (stamp_retried runs worker run now db)) [
        | inl e ↦ rw (e, retry_claimed) (inl refl)
        | inr (db', e) ↦
            rw (e, retry_claimed)
              (report-AtMostOne repo.id _ (dispatch_run-AtMostOne repo retry token ref now db'))
      ]

  repair_claimed-AtMostOne :
      (c : Option PipelineRun × runs.Db) (repo : Repo) (token ref : Option Text) (now : ℕ)
      → AtMostOne [] (repair_claimed runs worker c repo token ref now).sent
  unfolding repair_claimed
  repair_claimed-AtMostOne (none, db) repo token ref now = inl refl
  repair_claimed-AtMostOne (some repair, db) repo token ref now =
      report-AtMostOne repo.id _ (dispatch_run-AtMostOne repo repair token ref now db)

  relaunch_latest-AtMostOne :
      (o : Option PipelineRun) (repo : Repo) (token ref : Option Text) (id now : ℕ) (db : runs.Db)
      → AtMostOne [] (relaunch_latest runs worker o repo token ref id now db).sent
  unfolding relaunch_latest retry_failed_run
  relaunch_latest-AtMostOne none repo token ref id now db =
      repair_claimed-AtMostOne _ repo token ref now
  relaunch_latest-AtMostOne (some run) repo token ref id now db =
      elim run.status
          as (λ x.
            run.status ≡ x
            → AtMostOne [] (relaunch_latest runs worker (some run) repo token ref id now db).sent) [
              | failed ↦
                  λ e. rw (e, relaunch_latest) (retry_claimed-AtMostOne _ repo run token ref now)
              | pending ↦ λ e. rw (e, relaunch_latest) (inl refl)
              | running ↦ λ e. rw (e, relaunch_latest) (inl refl)
              | completed ↦ λ e. rw (e, relaunch_latest) (inl refl)
            ]
        refl

  pub relaunch_at_current_version-AtMostOne :
      (repo : Repo) (token ref : Option Text) (id now : ℕ) (db : runs.Db)
      → AtMostOne [] (relaunch_at_current_version runs worker repo token ref id now db).sent
  unfolding relaunch_at_current_version
  relaunch_at_current_version-AtMostOne repo token ref id now db =
      relaunch_latest-AtMostOne _ repo token ref id now db

AtMostOne-append :
    (before after : List Payload) → AtMostOne [] after → AtMostOne before (before ++ after)
AtMostOne-append before after (inl e) = inl (ap (λ l. before ++ l) e ∙ append-nil before)
AtMostOne-append before after (inr (p, e)) = inr (p, ap (λ l. before ++ l) e)

module _ (rc : RepoCollection) (links : Collection UserRepo link_conflicts) (runs : RunCollection)
    (worker : Payload → Answer) where
  abbrev pub St : Type 0
  St = State rc links runs

  -- The runs may have changed, and a request may have gone out; nothing else changed.
  abbrev pub InPlace : St → St → Type 0
  InPlace s s' =
      (s'.repos ≡ s.repos)
      × (s'.user_repos ≡ s.user_repos)
      × (s'.blobs ≡ s.blobs)
      × AtMostOne s.sent s'.sent

  after_dispatch-InPlace :
      {A : Type 0} (o : Outcome runs worker A) (s : St)
      → AtMostOne [] o.sent
      → InPlace s (after_dispatch rc links runs worker o s).1
  unfolding after_dispatch
  after_dispatch-InPlace o s h = elim (Result-cases o.result) [
    | inl (a, e) ↦ rw (e, after_dispatch) (refl, refl, refl, AtMostOne-append s.sent o.sent h)
    | inr (x, e) ↦ rw (e, after_dispatch) (refl, refl, refl, AtMostOne-append s.sent o.sent h)
  ]

  module _ (parse_url : Text → UrlParts) (sha256_hex : Text → Text) (meanwhile : St → St)
      (is_utf8 : Text → Bool) (versioning : Versioning) (grace_period : ℕ) (ask : ℕ → Answer)
      (meanwhile_runs : runs.Db → runs.Db) where
    -- A relaunch of a repository that is not stale at the version the worker answers with, if it
    -- answers, whether it is accepted or refused: no repository, link or blob is added or changed, and
    -- at most one request goes out.
    pub relaunch_repo-InPlace :
        (repo : RepoDocument) (link : UserRepo) (uid : Text) (token : Option Text)
        (answers : Text → List Resolve.Answer) (version : Option Text) (fresh : Fresh) (s : St)
        → ((v : Text) → version ≡ some v → is_stale versioning (versions_of repo) v ≡ false)
        → InPlace s
            (relaunch_repo rc links runs worker parse_url sha256_hex meanwhile is_utf8 versioning
              grace_period ask meanwhile_runs repo link uid token answers version fresh s).1
    unfolding relaunch_repo require_version reconcile relaunch_by_version go_on source_of
    relaunch_repo-InPlace repo link uid token answers version fresh s h =
        let s1 : St =
          (reconcile rc links runs worker parse_url sha256_hex meanwhile is_utf8 versioning
            grace_period ask meanwhile_runs repo fresh.now s).1 in
        elim (Result-cases (
          resolve_source_ref rc links runs worker parse_url sha256_hex meanwhile is_utf8 versioning
            grace_period ask meanwhile_runs repo answers)) [
              | inr (x, e) ↦ rw (e, relaunch_repo) (refl, refl, refl, inl refl)
              | inl (ref, e) ↦ elim (Option-cases version) [
                | inl k ↦ rw (e, relaunch_repo) (rw (k, go_on) (refl, refl, refl, inl refl))
                | inr (v, k) ↦
                    rw (e, relaunch_repo)
                      (rw (k, go_on)
                        (rw (h v k) (
                          after_dispatch-InPlace _ s1 (
                            relaunch_at_current_version-AtMostOne runs worker (source_of repo) token
                              ref fresh.run_id fresh.now s1.pipeline_runs))))
              ]
            ]
