-- ===== src/Runs/Retries.antt =====
-- What a failed dispatch leaves, and what a retry that is asked for twice does.
use retro_doc.Prelude.{
  ok, err, ℕ, ◌==◌, Text, true, false, ◌&&◌, Option, none, some, is_none, List, [], ◌∷◌, ◌++◌, ◌≡◌,
  ◌∙◌, ap, refl, arith,
}
use retro_doc.Mongo.{any, modify_first}
use retro_doc.Mongo.Lists.{any-modify_first, modify_first-append}
use retro_doc.Runs.Model.{
  pending, PipelineMeta, PipelineRun, RunCollection, is_live, run_conflicts, new_run, fail_run,
  Answer,
}
use retro_doc.Runs.Dispatch.{
  Repo, Payload, Error, payload_of, launch_error, Outcome, record_failure, dispatch_run,
  claim_next_run, report, repair_claimed, stamp_retried, retry_claimed, retry_failed_run,
}
use retro_doc.Runs.Claims.{
  is_held, is_held-append, has_id, claim_next_run-free, claim_next_run-held, is_held-claimed,
  update_one-failed,
}

module _ (runs : RunCollection) (worker : Payload → Answer) where
  -- A dispatch that the worker refuses raises the error and fails the run, the last one.
  dispatch_run-refused :
      (repo : Repo) (r : PipelineRun) (token ref : Option Text) (now : ℕ) (db : runs.Db)
      (earlier : List PipelineRun) (e : Error) (meta : PipelineMeta)
      → runs.docs db ≡ earlier ++ r ∷ []
      → any (has_id r.id) earlier ≡ false
      → launch_error (worker (payload_of repo r token ref)) ≡ some (e, meta)
      → let o = dispatch_run runs worker repo r token ref now db in
        (o.result ≡ err e) × (runs.docs o.db ≡ earlier ++ fail_run now meta r ∷ [])
  unfolding dispatch_run record_failure
  dispatch_run-refused repo r token ref now db earlier e meta docs fresh h =
      let (db', u, docs') = update_one-failed runs db (λ x. x.id == r.id) now meta in
      rw (h, dispatch_run)
        (rw (u, record_failure)
          (
            refl,
            docs'
                ∙ ap (modify_first _ _) docs
                ∙ modify_first-append _ _ earlier r [] fresh (ground arith),
          ))

  is_held-failed :
      (repo_id : ℕ) (earlier : List PipelineRun) (r : PipelineRun) (now : ℕ) (meta : PipelineMeta)
      → is_held repo_id earlier ≡ false
      → is_held repo_id (earlier ++ fail_run now meta r ∷ []) ≡ false
  unfolding is_held fail_run is_live
  is_held-failed repo_id earlier r now meta h = is_held-append repo_id earlier _ ∙ ground (arith, h)

  report-err :
      (n : ℕ) (o : Outcome runs worker (Unit {0})) (e : Error)
      → o.result ≡ err e
      → ((report runs worker n o).result ≡ err e) × ((report runs worker n o).db ≡ o.db)
  unfolding report
  report-err n o e h = rw (h, report) (refl, refl)

  -- A new run of a repository that no live run holds, whose dispatch the worker refuses: the caller
  -- gets the error, the run is kept behind the others as failed, and the next claim of the
  -- repository succeeds.
  pub repair_claimed-refused :
      (repo : Repo) (token ref : Option Text) (id id' now now' now'' : ℕ) (db : runs.Db) (e : Error)
      (meta : PipelineMeta)
      → is_held repo.id (runs.docs db) ≡ false
      → any (has_id id) (runs.docs db) ≡ false
      → launch_error (worker (payload_of repo (new_run id repo.id now) token ref)) ≡ some (e, meta)
      → let o =
          repair_claimed runs worker
            (claim_next_run runs worker repo.id id now db)
            repo
            token
            ref
            now' in
        (o.result ≡ err e)
        × (runs.docs o.db ≡ runs.docs db ++ fail_run now' meta (new_run id repo.id now) ∷ [])
        × ((claim_next_run runs worker repo.id id' now'' o.db).0 ≡ some (new_run id' repo.id now''))
  unfolding repair_claimed new_run
  repair_claimed-refused repo token ref id id' now now' now'' db e meta free fresh h =
      let (db1, c, docs) = claim_next_run-free runs worker repo.id id now db free in
      let r = new_run id repo.id now in
      let (res, docs') =
        dispatch_run-refused repo r token ref now' db1 (runs.docs db) e meta docs fresh h in
      let q = report-err repo.id (dispatch_run runs worker repo r token ref now' db1) e res in
      let docs_q = ap runs.docs q.1 ∙ docs' in
      let after =
        claim_next_run-free runs worker repo.id id' now'' _
          (ap (is_held repo.id) docs_q ∙ is_held-failed repo.id (runs.docs db) r now' meta free) in
      rw c (q.0, docs_q, ap (λ x. x.0) after.1)

  -- The stamp changes no status, so it holds no repository and frees none.
  stamp_retried-is_held :
      (run : PipelineRun) (now : ℕ) (db : runs.Db)
      → (db' : runs.Db) × (stamp_retried runs worker run now db ≡ some db')
        × ((repo_id : ℕ) → is_held repo_id (runs.docs db') ≡ is_held repo_id (runs.docs db))
  unfolding run_conflicts is_held stamp_retried
  stamp_retried-is_held run now db =
      let stamp = λ (r : PipelineRun). record r { retried_at = some now } in
      let (db', u, docs) =
        runs.update_one-docs db (λ r. r.id == run.id && is_none r.retried_at) stamp
          (λ d e m h. h) in
      (
        db',
        rw (u, stamp_retried) refl,
        λ repo_id.
            ap (is_held repo_id) docs ∙ any-modify_first _ _ stamp (runs.docs db) (λ d. refl),
      )

  dispatch_run-accepted :
      (repo : Repo) (r : PipelineRun) (token ref : Option Text) (now : ℕ) (db : runs.Db)
      → launch_error (worker (payload_of repo r token ref)) ≡ none
      → dispatch_run runs worker repo r token ref now db
        ≡ record { result = ok tt; db = db; sent = payload_of repo r token ref ∷ [] }
  unfolding dispatch_run record_failure
  dispatch_run-accepted repo r token ref now db h = rw (h, dispatch_run) refl

  retry_failed_run-held :
      (repo : Repo) (run : PipelineRun) (token ref : Option Text) (id now : ℕ) (db : runs.Db)
      → is_held repo.id (runs.docs db) ≡ true
      → retry_failed_run runs worker repo run token ref id now db
        ≡ record { result = ok (repo.id, pending); db = db; sent = [] }
  unfolding retry_failed_run retry_claimed
  retry_failed_run-held repo run token ref id now db h =
      ap (λ c. retry_claimed runs worker c repo run token ref now)
        (claim_next_run-held runs worker repo.id id now db h)

  retry_failed_run-free :
      (repo : Repo) (run : PipelineRun) (token ref : Option Text) (id now : ℕ) (db : runs.Db)
      → is_held repo.id (runs.docs db) ≡ false
      → let p = payload_of repo (new_run id repo.id now) token ref in
        launch_error (worker p) ≡ none
        → (db' : runs.Db) × (retry_failed_run runs worker repo run token ref id now db
            ≡ record { result = ok (repo.id, pending); db = db'; sent = p ∷ [] })
          × (is_held repo.id (runs.docs db') ≡ true)
  unfolding retry_failed_run retry_claimed report
  retry_failed_run-free repo run token ref id now db free h =
      let r = new_run id repo.id now in
      let (db1, c, docs) = claim_next_run-free runs worker repo.id id now db free in
      let (db2, u, same) = stamp_retried-is_held run now db1 in
      let d = dispatch_run-accepted repo r token ref now db2 h in
      (
        db2,
        ap (λ c. retry_claimed runs worker c repo run token ref now) c
            ∙ (rw (u, retry_claimed) refl ∙ ap (report runs worker repo.id) d),
        same repo.id ∙ is_held-claimed runs worker repo.id id now db db1 docs,
      )

  -- Two requests to retry a failed run, one after the other, when no live run holds the repository
  -- and the worker accepts: the first sends one request for the new run, the second sends none,
  -- writes nothing and answers PENDING as the first.
  pub retry_failed_run-twice :
      (repo : Repo) (run : PipelineRun) (token ref token' ref' : Option Text) (id id' now now' : ℕ)
      (db : runs.Db)
      → is_held repo.id (runs.docs db) ≡ false
      → launch_error (worker (payload_of repo (new_run id repo.id now) token ref)) ≡ none
      → let first = retry_failed_run runs worker repo run token ref id now db in
        let second = retry_failed_run runs worker repo run token' ref' id' now' first.db in
        (first.sent ≡ payload_of repo (new_run id repo.id now) token ref ∷ [])
        × (first.result ≡ ok (repo.id, pending))
        × (second ≡ record { result = ok (repo.id, pending); db = first.db; sent = [] })
  retry_failed_run-twice repo run token ref token' ref' id id' now now' db free h =
      let (db', e, held) = retry_failed_run-free repo run token ref id now db free h in
      rw e (refl, refl, retry_failed_run-held repo run token' ref' id' now' db' held)
