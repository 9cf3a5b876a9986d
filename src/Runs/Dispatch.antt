-- ===== src/Runs/Dispatch.antt =====
-- `start_orchestration` of backend/app/pipeline/service.py, and `_claim_next_run`, `_dispatch_run`,
-- `_retry_failed_run`, `_relaunch_at_current_version` of backend/app/repos/service.py.
use retro_doc.Prelude.{
  Result, ok, err, ℕ, ◌==◌, Text, text, true, false, ◌&&◌, Option, none, some, is_none, List, [],
  ◌∷◌, ◌++◌, if◌then◌else◌,
}
use retro_doc.Runs.Model.{
  PipelineStatus, pending, completed, failed, PipelineMeta, PipelineRun, RunCollection, new_run,
  fail_run, Answer, no_answer, answer,
}

-- The part of `RepoDocument` that a dispatch reads; `repo_hash` is set on git repositories alone.
pub record Repo : Type 0 where
  pub id : ℕ
  pub repo_url : Text
  pub repo_hash : Option Text
  pub blob_path : Text
  pub languages : List Text

-- The body of the request that starts an orchestration.
pub record Payload : Type 0 where
  pub source : Text
  pub blob_path : Text
  pub languages : List Text
  pub instance_id : ℕ
  pub repo_id : ℕ
  pub repo_url : Option Text
  pub commit : Option Text
  pub ref : Option Text
  pub token : Option Text

pub data Error : Type 0 where
  unprocessable bad_gateway at_current_version in_progress duplicate_key : Error

-- `_dispatch_run`'s choice of the arguments, with the payload that `start_orchestration` makes.
unfoldable pub payload_of : Repo → PipelineRun → Option Text → Option Text → Payload
payload_of repo run token ref = elim repo.repo_hash [
  | some commit ↦ record {
    source = text "git";
    blob_path = repo.blob_path;
    languages = repo.languages;
    instance_id = run.id;
    repo_id = run.repo_id;
    repo_url = some repo.repo_url;
    commit = some commit;
    ref = ref;
    token = token;
  }
  | none ↦ record {
    source = text "zip";
    blob_path = repo.blob_path ++ text ".zip";
    languages = repo.languages;
    instance_id = run.id;
    repo_id = run.repo_id;
    repo_url = none;
    commit = none;
    ref = none;
    token = none;
  }
]

-- Whether the worker took the orchestration, and if not, the error and what is written on the run.
unfoldable pub launch_error : Answer → Option (Error × PipelineMeta)
launch_error no_answer = some (
  bad_gateway,
  record { message = text "Failed to start the analysis pipeline."; step = text "launch" },
)
launch_error (answer status_code true (some id)) = none
launch_error (answer status_code true none) = some (
  bad_gateway,
  record { message = text "Failed to start the analysis pipeline."; step = text "launch" },
)
launch_error (answer status_code false value) =
    if status_code == 422
    then some (
      unprocessable,
      record {
        message = text "One or more selected languages seems no longer supported.";
        step = text "launch";
      },
    )
    else some (
      bad_gateway,
      record { message = text "Failed to start the analysis pipeline."; step = text "launch" },
    )

module _ (runs : RunCollection) (worker : Payload → Answer) where
  -- The result, the runs, and the requests that went out, the latest last.
  pub record Outcome (A : Type 0) : Type 0 where
    pub result : Result Error A
    pub db : runs.Db
    pub sent : List Payload

  -- `pipeline_run.set` writes the document with the run's own id.
  unfoldable pub record_failure :
      PipelineRun → ℕ → Option (Error × PipelineMeta) → Payload → runs.Db → Outcome (Unit {0})
  unfolding fail_run
  record_failure run now none p db = record { result = ok tt; db = db; sent = p ∷ [] }
  record_failure run now (some (e, meta)) p db =
      elim (runs.update_one db (λ r. r.id == run.id) (fail_run now meta)) [
        | some (db', matched) ↦ record { result = err e; db = db'; sent = p ∷ [] }
        | none ↦ record { result = err duplicate_key; db = db; sent = p ∷ [] }
      ]

  unfoldable pub dispatch_run :
      Repo → PipelineRun → Option Text → Option Text → ℕ → runs.Db → Outcome (Unit {0})
  unfolding payload_of launch_error record_failure
  dispatch_run repo run token ref now db =
      let p = payload_of repo run token ref in record_failure run now (launch_error (worker p)) p db

  -- `id` is the identity that the insert gives the run.
  unfoldable pub claim_next_run : ℕ → ℕ → ℕ → runs.Db → Option PipelineRun × runs.Db
  unfolding new_run
  claim_next_run repo_id id now db = elim (runs.insert db (new_run id repo_id now)) [
    | some db' ↦ (some (new_run id repo_id now), db')
    | none ↦ (none, db)
  ]

  -- The answer of a caller that dispatched: PENDING, or the exception of the dispatch.
  unfoldable pub report : ℕ → Outcome (Unit {0}) → Outcome (ℕ × PipelineStatus)
  report repo_id o = elim o.result [
    | ok _ ↦ record { result = ok (repo_id, pending); db = o.db; sent = o.sent }
    | err e ↦ record { result = err e; db = o.db; sent = o.sent }
  ]

  -- The stamp of the attempt that is retried.
  unfoldable pub stamp_retried : PipelineRun → ℕ → runs.Db → Option runs.Db
  stamp_retried run now db =
      elim (runs.update_one db (λ r. r.id == run.id && is_none r.retried_at)
        (λ r. record r { retried_at = some now })) [ some (db', matched) ↦ some db' | none ↦ none ]

  unfoldable pub retry_claimed :
      Option PipelineRun × runs.Db
      → Repo
      → PipelineRun
      → Option Text
      → Option Text
      → ℕ
      → Outcome (ℕ × PipelineStatus)
  unfolding stamp_retried dispatch_run report
  retry_claimed (none, db) repo run token ref now = record {
    result = ok (repo.id, pending);
    db = db;
    sent = [];
  }
  retry_claimed (some retry, db) repo run token ref now = elim (stamp_retried run now db) [
    | some db' ↦ report repo.id (dispatch_run repo retry token ref now db')
    | none ↦ record { result = err duplicate_key; db = db; sent = [] }
  ]

  unfoldable pub retry_failed_run :
      Repo
      → PipelineRun
      → Option Text
      → Option Text
      → ℕ
      → ℕ
      → runs.Db
      → Outcome (ℕ × PipelineStatus)
  unfolding claim_next_run retry_claimed
  retry_failed_run repo run token ref id now db =
      retry_claimed (claim_next_run repo.id id now db) repo run token ref now

  unfoldable pub repair_claimed :
      Option PipelineRun × runs.Db
      → Repo
      → Option Text
      → Option Text
      → ℕ
      → Outcome (ℕ × PipelineStatus)
  unfolding dispatch_run report
  repair_claimed (none, db) repo token ref now = record {
    result = ok (repo.id, pending);
    db = db;
    sent = [];
  }
  repair_claimed (some repair, db) repo token ref now =
      report repo.id (dispatch_run repo repair token ref now db)

  -- `_relaunch_at_current_version`, by the status of the latest run.
  unfoldable pub relaunch_latest :
      Option PipelineRun
      → Repo
      → Option Text
      → Option Text
      → ℕ
      → ℕ
      → runs.Db
      → Outcome (ℕ × PipelineStatus)
  unfolding retry_failed_run repair_claimed
  relaunch_latest none repo token ref id now db =
      repair_claimed (claim_next_run repo.id id now db) repo token ref now
  relaunch_latest (some run) repo token ref id now db = elim run.status [
    | failed ↦ retry_failed_run repo run token ref id now db
    | completed ↦ record { result = err at_current_version; db = db; sent = [] }
    | _ ↦ record { result = err in_progress; db = db; sent = [] }
  ]

  unfoldable pub relaunch_at_current_version :
      Repo → Option Text → Option Text → ℕ → ℕ → runs.Db → Outcome (ℕ × PipelineStatus)
  unfolding relaunch_latest
  relaunch_at_current_version repo token ref id now db =
      relaunch_latest (runs.find_latest db (λ r. r.repo_id == repo.id)) repo token ref id now db
