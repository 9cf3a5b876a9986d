-- ===== src/Repos/Create.antt =====
-- `_acquire_repo_link`, `_join_analysis` and `_start_new_analysis` of
-- backend/app/repos/service.py. MongoDB gives a document its identity when it is inserted: the
-- identities that an operation would get are its argument `fresh`, as is the time.
use retro_doc.Prelude.{
  Bool, ℕ, ◌==◌, Text, true, false, ◌&&◌, Option, none, some, List, ◌++◌, Result, ok, err,
}
use retro_doc.Action.{Action, ◌>>◌}
use retro_doc.Mongo.{Collection}
use retro_doc.Links.Model.{pos, incremented, decremented, is_positive}
use retro_doc.Runs.Model.{
  Answer, PipelineStatus, pending, failed, PipelineRun, RunCollection, new_run,
}
use retro_doc.Runs.Dispatch.{Repo, Payload, Outcome, dispatch_run, retry_failed_run}
use retro_doc.Runs.Dispatch
use retro_doc.Git.Resolve.{UrlParts, ResolvedGitRef, resolve_git_ref}
use retro_doc.Git.Resolve
use retro_doc.Repos.Model.{
  RepoDocument, UserRepo, link_conflicts, RepoCollection, Error, not_available, already_added,
  no_version, duplicate_key, dispatch_error, git_error, State,
}

-- Who asks, and how the repository is listed for them.
pub record Holder : Type 0 where
  pub uid : Text
  pub name : Text
  pub color : Option Text

pub record Fresh : Type 0 where
  pub repo_id : ℕ
  pub run_id : ℕ
  pub now : ℕ

-- What a dispatch reads of the document.
unfoldable pub source_of : RepoDocument → Repo
source_of d = record {
  id = d.id;
  repo_url = d.repo_url;
  repo_hash = d.repo_hash;
  blob_path = d.blob_path;
  languages = d.languages;
}

unfoldable pub link_of : Holder → ℕ → UserRepo
link_of h repo_id = record { name = h.name; user_id = h.uid; repo_id = repo_id; color = h.color }

-- A new document; the defaults are written out.
unfoldable pub new_repo : Text → Option Text → Text → Text → List Text → ℕ → RepoDocument
new_repo url commit v path languages id = record {
  id = id;
  repo_url = url;
  repo_hash = commit;
  analyzer_version = v;
  ran_analyzer_version = none;
  blob_path = path;
  user_count = pos 1;
  languages = languages;
}

unfoldable pub lift_error : Dispatch.Error → Error
lift_error Dispatch.Error.duplicate_key = duplicate_key
lift_error e = dispatch_error e

-- `version` is what `get_analyzer_version` gives, or `none` where it raises.
unfoldable pub require_version : Option Text → Result Error Text
require_version none = err no_version
require_version (some v) = ok v

unfoldable pub lift_git : {A : Type 0} → Result Resolve.Error A → Result Error A
lift_git (ok a) = ok a
lift_git (err e) = err (git_error e)

-- The identity and the status, and whether an analysis was joined.
abbrev pub Created : Type 0
Created = ℕ × (PipelineStatus × Bool)

module _ (rc : RepoCollection) (links : Collection UserRepo link_conflicts) (runs : RunCollection)
    (worker : Payload → Answer) where
  abbrev St : Type 0
  St = State rc links runs

  -- What a dispatch did to the runs, done to the state.
  unfoldable pub after_dispatch : {A : Type 0} → Outcome runs worker A → Action St Error A
  unfolding lift_error
  after_dispatch o s =
      let s' = record s { pipeline_runs = o.db; sent = s.sent ++ o.sent } in
      elim o.result [ ok a ↦ (ok a, s') | err e ↦ (err (lift_error e), s') ]

  -- The link is refused: the slot is given back.
  unfoldable pub undo_slot : ℕ → Action St Error (Unit {0})
  unfolding decremented
  undo_slot repo_id s =
      elim (rc.collection.update_one s.repos (λ d. d.id == repo_id)
        (λ d. record d { user_count = decremented d.user_count })) [
          | some (db, matched) ↦ (err already_added, record s { repos = db })
          | none ↦ (err duplicate_key, s)
        ]

  unfoldable pub insert_link : UserRepo → Action St Error (Unit {0})
  unfolding undo_slot
  insert_link link s = elim (links.insert s.user_repos link) [
    | some db ↦ (ok tt, record s { user_repos = db })
    | none ↦ undo_slot link.repo_id s
  ]

  unfoldable pub claimed_slot :
      Option (rc.collection.Db × Bool) → UserRepo → Action St Error (Unit {0})
  unfolding insert_link
  claimed_slot none link s = (err duplicate_key, s)
  claimed_slot (some (db, true)) link s = insert_link link (record s { repos = db })
  claimed_slot (some (db, false)) link s = (err not_available, record s { repos = db })

  unfoldable pub acquire_repo_link : ℕ → Holder → Action St Error (Unit {0})
  unfolding claimed_slot incremented is_positive link_of
  acquire_repo_link repo_id h s =
      claimed_slot
        (rc.collection.update_one s.repos (λ d. d.id == repo_id && is_positive d.user_count)
          (λ d. record d { user_count = incremented d.user_count }))
        (link_of h repo_id) s

  -- The answer of a join, by the latest run of the repository.
  unfoldable pub join_latest :
      Option PipelineRun
      → RepoDocument
      → Option Text
      → Option Text
      → Fresh
      → Action St Error (ℕ × PipelineStatus)
  unfolding after_dispatch retry_failed_run source_of
  join_latest none repo token ref fresh s = (ok (repo.id, pending), s)
  join_latest (some run) repo token ref fresh s = elim run.status [
    | failed ↦
        after_dispatch
          (retry_failed_run runs worker (source_of repo) run token ref fresh.run_id fresh.now
            s.pipeline_runs)
          s
    | status ↦ (ok (repo.id, status), s)
  ]

  unfoldable pub join_analysis :
      RepoDocument
      → Holder
      → Option Text
      → Option Text
      → Fresh
      → Action St Error (ℕ × PipelineStatus)
  unfolding acquire_repo_link join_latest
  join_analysis repo h token ref fresh = do
    acquire_repo_link repo.id h
    λ s.
        join_latest (runs.find_latest s.pipeline_runs (λ r. r.repo_id == repo.id)) repo token ref
          fresh s

  unfoldable pub insert_repo : RepoDocument → Action St Error (Unit {0})
  insert_repo d s = elim (rc.collection.insert s.repos d) [
    | some db ↦ (ok tt, record s { repos = db })
    | none ↦ (err duplicate_key, s)
  ]

  unfoldable pub insert_user_repo : UserRepo → Action St Error (Unit {0})
  insert_user_repo link s = elim (links.insert s.user_repos link) [
    | some db ↦ (ok tt, record s { user_repos = db })
    | none ↦ (err duplicate_key, s)
  ]

  unfoldable pub insert_run : PipelineRun → Action St Error (Unit {0})
  insert_run run s = elim (runs.insert s.pipeline_runs run) [
    | some db ↦ (ok tt, record s { pipeline_runs = db })
    | none ↦ (err duplicate_key, s)
  ]

  unfoldable pub start_new_analysis :
      RepoDocument → Holder → Option Text → Option Text → Fresh → Action St Error (Unit {0})
  unfolding insert_repo insert_user_repo insert_run link_of new_run dispatch_run source_of
      after_dispatch
  start_new_analysis repo h token ref fresh = do
    insert_repo repo
    insert_user_repo (link_of h repo.id)
    insert_run (new_run fresh.run_id repo.id fresh.now)
    λ s.
        after_dispatch
          (dispatch_run runs worker (source_of repo) (new_run fresh.run_id repo.id fresh.now) token
            ref fresh.now s.pipeline_runs)
          s
