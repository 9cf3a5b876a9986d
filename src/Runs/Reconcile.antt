-- ===== src/Runs/Reconcile.antt =====
-- What a reconciliation of the runs of a repository with the worker can do.
use retro_doc.Prelude.{
  ℕ, ◌==◌, Text, true, false, ◌&&◌, some, lookup, List, ◌∷◌, ◌++◌, ◌≡◌, ◌∙◌, ap, refl, arith,
}
use retro_doc.Mongo.{any, find, modify_first}
use retro_doc.Mongo.Lists.{any-weaken, find-append, modify_first-append}
use retro_doc.Runs.Model.{
  PipelineStatus, pending, running, completed, failed, same_status, PipelineMeta, PipelineRun,
  RunCollection, is_live, fail_run, new_run, Answer, dead_runtime_statuses, probe_instance,
  is_candidate, settle, judge, reconcile_found, reconcile_pipeline_run,
}
use retro_doc.Runs.Claims.{is_held, is_held-append, has_id, update_one-failed, claim_next_run-free}
use retro_doc.Runs.Dispatch.{Payload, claim_next_run}

-- The runs before and after a reconciliation, `seen` being what the collection holds once the
-- worker has answered: it is left alone, or one live run of it is failed with the verdict on the
-- worker's answer on that run.
pub data Reconciled (ask : ℕ → Answer) (now : ℕ) (seen final : List PipelineRun) : Type 0 where
  left_alone : final ≡ seen → Reconciled ask now seen final
  one_failed :
      (before after : List PipelineRun) (r : PipelineRun) (runtime_status : Text)
      (verdict : PipelineMeta)
      → seen ≡ before ++ r ∷ after
      → final ≡ before ++ fail_run now verdict r ∷ after
      → is_live r.status ≡ true
      → probe_instance (ask r.id) ≡ some runtime_status
      → lookup runtime_status dead_runtime_statuses ≡ some verdict
      → Reconciled ask now seen final

module _ (runs : RunCollection) (grace_period : ℕ) where
  is_candidate-is_live :
      (repo_id now : ℕ) (r : PipelineRun)
      → is_candidate runs grace_period repo_id now r ≡ true
      → (is_live r.status ≡ true) × ((repo_id == r.repo_id && is_live r.status) ≡ true)
  unfolding is_candidate is_live
  is_candidate-is_live repo_id now r h = (ground (arith, h), ground (arith, h))

  same_status_refl : (s : PipelineStatus) → same_status s s ≡ true
  unfolding same_status
  same_status_refl pending = refl
  same_status_refl running = refl
  same_status_refl completed = refl
  same_status_refl failed = refl

  settle-fails :
      (r : PipelineRun) (before after : List PipelineRun) (verdict : PipelineMeta) (now : ℕ)
      (db : runs.Db)
      → runs.docs db ≡ before ++ r ∷ after
      → any (has_id r.id) before ≡ false
      → runs.docs (settle runs grace_period r verdict now db)
        ≡ before ++ fail_run now verdict r ∷ after
  unfolding settle
  settle-fails r before after verdict now db docs fresh =
      let p = λ (x : PipelineRun). x.id == r.id && same_status x.status r.status in
      let (db', u, docs') = update_one-failed runs db p now verdict in
      rw (u, settle)
        (docs'
          ∙ ap (modify_first p (fail_run now verdict)) docs
          ∙ modify_first-append p (fail_run now verdict) before r after
              (any-weaken p (has_id r.id) before (λ d h. ground (arith, h)) fresh)
              (ground (arith, same_status_refl r.status)))

  is_held-settled :
      (repo_id : ℕ) (before after : List PipelineRun) (r : PipelineRun) (now : ℕ)
      (verdict : PipelineMeta)
      → is_held repo_id before ≡ false
      → is_held repo_id after ≡ false
      → is_held repo_id (before ++ fail_run now verdict r ∷ after) ≡ false
  unfolding is_held fail_run is_live
  is_held-settled repo_id before after r now verdict hb ha =
      is_held-append repo_id before _ ∙ ground (arith, hb, ha)

  -- The one live run of a repository, older than the grace period, of which the worker says that it
  -- is dead: if nobody else writes, a reconciliation fails it, leaves every other run as it was, and
  -- the next claim of the repository succeeds.
  pub reconcile_pipeline_run-frees :
      (worker : Payload → Answer) (repo_id id now now' : ℕ) (ask : ℕ → Answer) (db : runs.Db)
      (before after : List PipelineRun) (r : PipelineRun) (runtime_status : Text)
      (verdict : PipelineMeta)
      → runs.docs db ≡ before ++ r ∷ after
      → is_held repo_id before ≡ false
      → is_held repo_id after ≡ false
      → any (has_id r.id) before ≡ false
      → is_candidate runs grace_period repo_id now r ≡ true
      → probe_instance (ask r.id) ≡ some runtime_status
      → lookup runtime_status dead_runtime_statuses ≡ some verdict
      → let final = reconcile_pipeline_run runs grace_period repo_id now ask (λ x. x) db in
        (runs.docs final ≡ before ++ fail_run now verdict r ∷ after)
        × ((claim_next_run runs worker repo_id id now' final).0 ≡ some (new_run id repo_id now'))
  unfolding reconcile_pipeline_run reconcile_found judge is_held
  reconcile_pipeline_run-frees worker repo_id id now now' ask db before after r s v docs hb ha fresh
        old h l =
      let p = is_candidate runs grace_period repo_id now in
      let found : runs.find_one db p ≡ some r =
        runs.find_one-docs db p
        ∙ (ap (find p) docs
            ∙ find-append p before r after
                (any-weaken p _ before (λ d e. (is_candidate-is_live repo_id now d e).1) hb) old) in
      let final : reconcile_pipeline_run runs grace_period repo_id now ask (λ x. x) db
          ≡ settle runs grace_period r v now db =
        ap (λ c. reconcile_found runs grace_period c now ask (λ x. x) db) found
        ∙ (ap (λ t. judge runs grace_period t r now db) h ∙ rw (l, judge) refl) in
      let docs' = ap runs.docs final ∙ settle-fails r before after v now db docs fresh in
      (
        docs',
        ap (λ x. x.0)
            (claim_next_run-free runs worker repo_id id now' _
              (ap (is_held repo_id) docs' ∙ is_held-settled repo_id before after r now v hb ha)).1,
      )
