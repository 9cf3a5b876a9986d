-- ===== src/Runs/Samples.antt =====
-- The theorems on runs at concrete contents of the collection, and runs of the definitions.
use retro_doc.Prelude.{
  ok, err, ℕ, text, true, false, none, some, List, [], ◌∷◌, ◌++◌, ◌≡◌, refl, lookup, text_eq,
}
use retro_doc.Mongo.{any, find, find_last, modify_first}
use retro_doc.Mongo.Kept.{kept, insert_kept}
use retro_doc.Runs.Model.{
  pending, completed, PipelineMeta, PipelineRun, RunCollection, is_live, run_conflicts, new_run,
  fail_run, Answer, answer, probe_instance, is_candidate, reconcile_pipeline_run,
}
use retro_doc.Runs.Dispatch.{
  Repo, Payload, unprocessable, at_current_version, payload_of, launch_error, claim_next_run,
  repair_claimed, retry_failed_run, relaunch_at_current_version,
}
use retro_doc.Runs.Claims.{is_held, claim_next_run-exclusive}
use retro_doc.Runs.Retries.{repair_claimed-refused, retry_failed_run-twice}
use retro_doc.Runs.Reconcile.{reconcile_pipeline_run-frees}

abbrev runs : RunCollection
runs = kept run_conflicts

abbrev repo : Repo
repo = record {
  id = 7;
  repo_url = text "https://host/a";
  repo_hash = none;
  blob_path = text "zips/a";
  languages = text "java" ∷ [];
}

-- A worker that takes everything, and one that knows no selected language.
abbrev taking : Payload → Answer
taking p = answer 202 true (some (text "1"))

abbrev refusing : Payload → Answer
refusing p = answer 422 false none

abbrev finished : PipelineRun
finished = record (new_run 1 7 10) { status = completed; finished_at = some 20 }

abbrev broken : PipelineRun
broken = fail_run 40 (record { message = text "m"; step = text "s" }) (new_run 2 7 30)

abbrev history : List PipelineRun
history = finished ∷ broken ∷ []

abbrev stuck : PipelineRun
stuck = new_run 3 7 50

abbrev lost : PipelineMeta
lost = record {
  message = text "The analysis worker has no record of this run.";
  step = text "launch";
}

abbrev forgetting : ℕ → Answer
forgetting id = answer 404 false none

claim_next_run-exclusive_example :
    claim_next_run runs taking 7 4 61 (history ++ new_run 3 7 60 ∷ [])
    ≡ (none, history ++ new_run 3 7 60 ∷ [])
unfolding claim_next_run run_conflicts is_live insert_kept fail_run
claim_next_run-exclusive_example =
    claim_next_run-exclusive runs taking 7 3 4 60 61 history (history ++ new_run 3 7 60 ∷ [])
      (new_run 3 7 60) refl

repair_claimed-refused_example :
    let o =
      repair_claimed runs refusing
        (claim_next_run runs refusing 7 3 60 history)
        repo
        none
        none
        61 in
    let meta : PipelineMeta = record {
      message = text "One or more selected languages seems no longer supported.";
      step = text "launch";
    } in
    (o.result ≡ err unprocessable)
    × (o.db ≡ history ++ fail_run 61 meta (new_run 3 7 60) ∷ [])
    × ((claim_next_run runs refusing 7 4 62 o.db).0 ≡ some (new_run 4 7 62))
unfolding launch_error is_held is_live any new_run fail_run
repair_claimed-refused_example =
    repair_claimed-refused runs refusing repo none none 3 4 60 61 62 history unprocessable _ refl
      refl refl

retry_failed_run-twice_example :
    let first = retry_failed_run runs taking repo broken none none 3 60 history in
    let second = retry_failed_run runs taking repo broken none none 4 61 first.db in
    (first.sent ≡ payload_of repo (new_run 3 7 60) none none ∷ [])
    × (first.result ≡ ok (7, pending))
    × (second ≡ record { result = ok (7, pending); db = first.db; sent = [] })
unfolding launch_error is_held is_live any new_run fail_run
retry_failed_run-twice_example =
    retry_failed_run-twice runs taking repo broken none none none none 3 4 60 61 history refl refl

reconcile_pipeline_run-frees_example :
    let final = reconcile_pipeline_run runs 5 7 100 forgetting (λ x. x) (history ++ stuck ∷ []) in
    (final ≡ history ++ fail_run 100 lost stuck ∷ [])
    × ((claim_next_run runs taking 7 9 101 final).0 ≡ some (new_run 9 7 101))
unfolding is_candidate probe_instance is_held is_live any lookup new_run fail_run text_eq
reconcile_pipeline_run-frees_example =
    reconcile_pipeline_run-frees runs 5 taking 7 9 100 101 forgetting (history ++ stuck ∷ [])
      history [] stuck (text "NotFound") lost refl refl refl refl refl refl refl

-- A run of the current version that completed is not relaunched.
relaunch_completed :
    (relaunch_at_current_version runs taking repo none none 3 60 (finished ∷ [])).result
    ≡ err at_current_version
unfolding relaunch_at_current_version find_last
relaunch_completed = refl

-- A run that completed while the worker was asked is kept.
completed_meanwhile :
    reconcile_pipeline_run runs 5 7 100 forgetting
      (λ ds. record stuck { status = completed } ∷ [])
      (stuck ∷ [])
    ≡ record stuck { status = completed } ∷ []
unfolding reconcile_pipeline_run find new_run modify_first
completed_meanwhile = refl
