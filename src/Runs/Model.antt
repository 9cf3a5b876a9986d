-- ===== src/Runs/Model.antt =====
-- `PipelineRunDocument` of backend/app/pipeline/models.py, the answers of the worker, and
-- `_probe_instance`, `reconcile_pipeline_run` of backend/app/pipeline/service.py.
use retro_doc.Prelude.{
  ℕ, ◌+◌, ltb, ◌==◌, Text, text, Dict, lookup, text_eq, Bool, true, false, ◌&&◌, ◌||◌, Option, none,
  some, [], ◌∷◌, if◌then◌else◌,
}
use retro_doc.Mongo.{Collection}

pub data PipelineStatus : Type 0 where
  pending running completed failed : PipelineStatus

pub record PipelineMeta : Type 0 where
  pub message : Text
  pub step : Text

-- Times are seconds.
pub record PipelineRun : Type 0 where
  pub id : ℕ
  pub repo_id : ℕ
  pub status : PipelineStatus
  pub started_at : ℕ
  pub finished_at : Option ℕ
  pub retried_at : Option ℕ
  pub meta : Option PipelineMeta

-- The filter of the partial unique index: sorted, `completed < failed < pending < running`.
unfoldable pub is_live : PipelineStatus → Bool
is_live pending = true
is_live running = true
is_live completed = false
is_live failed = false

unfoldable pub same_status : PipelineStatus → PipelineStatus → Bool
same_status pending pending = true
same_status running running = true
same_status completed completed = true
same_status failed failed = true
same_status _ _ = false

-- The unique index on `repo_id` over the live runs.
unfoldable pub run_conflicts : PipelineRun → PipelineRun → Bool
unfolding is_live
run_conflicts a b = a.repo_id == b.repo_id && (is_live a.status && is_live b.status)

abbrev pub RunCollection : Type 1
RunCollection = Collection PipelineRun run_conflicts

-- A new document's defaults.
unfoldable pub new_run : ℕ → ℕ → ℕ → PipelineRun
new_run id repo_id now = record {
  id = id;
  repo_id = repo_id;
  status = pending;
  started_at = now;
  finished_at = none;
  retried_at = none;
  meta = none;
}

unfoldable pub fail_run : ℕ → PipelineMeta → PipelineRun → PipelineRun
fail_run now meta r = record r { status = failed; finished_at = some now; meta = some meta }

-- `_DEAD_RUNTIME_STATUSES`
abbrev pub dead_runtime_statuses : Dict PipelineMeta
dead_runtime_statuses =
    (
      text "NotFound",
      record {
        message = text "The analysis worker has no record of this run.";
        step = text "launch";
      },
    )
    ∷ (
      text "Failed",
      record {
        message = text "The analysis worker reported this run as failed.";
        step = text "run";
      },
    )
    ∷ (
      text "Terminated",
      record { message = text "The analysis was stopped before it finished."; step = text "run" },
    )
    ∷ (
      text "Canceled",
      record { message = text "The analysis was canceled before it finished."; step = text "run" },
    )
    ∷ []

-- What comes back from the worker: no answer, or a status code, whether `raise_for_status` lets it
-- pass, and the field that is read from the body, if the body has it.
pub data Answer : Type 0 where
  no_answer : Answer
  answer : (status_code : ℕ) (is_success : Bool) (value : Option Text) → Answer

-- `_probe_instance`
unfoldable pub probe_instance : Answer → Option Text
probe_instance no_answer = none
probe_instance (answer status_code is_success value) =
    if status_code == 404
    then some (text "NotFound")
    else if status_code == 401 || status_code == 403
    then none
    else if is_success
    then value
    else none

module _ (runs : RunCollection) (grace_period : ℕ) where
  -- A live run of the repository that is older than the grace period.
  unfoldable pub is_candidate : ℕ → ℕ → PipelineRun → Bool
  unfolding is_live
  is_candidate repo_id now r =
      r.repo_id == repo_id && (is_live r.status && ltb (r.started_at + grace_period) now)

  -- The update is conditional on the status that the probe answered for. An exception is swallowed.
  unfoldable pub settle : PipelineRun → PipelineMeta → ℕ → runs.Db → runs.Db
  unfolding same_status fail_run
  settle candidate verdict now db =
      elim (runs.update_one db (λ r. r.id == candidate.id && same_status r.status candidate.status)
        (fail_run now verdict)) [ some (db', matched) ↦ db' | none ↦ db ]

  unfoldable pub judge : Option Text → PipelineRun → ℕ → runs.Db → runs.Db
  unfolding settle lookup text_eq
  judge none candidate now db = db
  judge (some runtime_status) candidate now db =
      elim (lookup runtime_status dead_runtime_statuses) [
        | some verdict ↦ settle candidate verdict now db
        | none ↦ db
      ]

  unfoldable pub reconcile_found :
      Option PipelineRun → ℕ → (ℕ → Answer) → (runs.Db → runs.Db) → runs.Db → runs.Db
  unfolding judge probe_instance
  reconcile_found none now ask meanwhile db = db
  reconcile_found (some c) now ask meanwhile db =
      judge (probe_instance (ask c.id)) c now (meanwhile db)

  -- `meanwhile` is what others write while the worker is asked.
  unfoldable pub reconcile_pipeline_run :
      ℕ → ℕ → (ℕ → Answer) → (runs.Db → runs.Db) → runs.Db → runs.Db
  unfolding reconcile_found is_candidate
  reconcile_pipeline_run repo_id now ask meanwhile db =
      reconcile_found (runs.find_one db (is_candidate repo_id now)) now ask meanwhile db
