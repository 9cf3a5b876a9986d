-- ===== src/Repos/Relaunch.antt =====
-- `_relaunch_at_new_version`, `_resolve_source_ref` and `relaunch_repo` of
-- backend/app/repos/service.py.
use retro_doc.Prelude.{ℕ, Text, Bool, true, false, Option, none, some, List, Result, ok, err}
use retro_doc.Action.{Action, lift, ◌>>=◌, ◌>>◌}
use retro_doc.Mongo.{Collection}
use retro_doc.Runs.Model.{Answer, PipelineStatus, pending, RunCollection, reconcile_pipeline_run}
use retro_doc.Runs.Dispatch.{Payload, relaunch_at_current_version}
use retro_doc.Versions.Stale.{Versioning, RepoVersions, is_stale}
use retro_doc.Git.Resolve.{UrlParts, ResolvedGitRef, resolve_git_ref}
use retro_doc.Git.Resolve
use retro_doc.Git.Name.{git_blob_path}
use retro_doc.Repos.Model.{
  RepoDocument, UserRepo, link_conflicts, RepoCollection, Error, duplicate_key, State,
  find_live_git_repo, find_live_git_repo_by_key, find_live_zip_repo, find_live_zip_repo_by_key,
}
use retro_doc.Repos.Create.{
  Holder, Fresh, source_of, new_repo, after_dispatch, join_analysis, start_new_analysis,
  require_version, lift_git,
}

unfoldable pub versions_of : RepoDocument → RepoVersions
versions_of d = record {
  analyzer_version = d.analyzer_version;
  ran_analyzer_version = d.ran_analyzer_version;
}

-- The name and the color are those of the link.
unfoldable pub holder_of : Text → UserRepo → Holder
holder_of uid link = record { uid = uid; name = link.name; color = link.color }

module _ (rc : RepoCollection) (links : Collection UserRepo link_conflicts) (runs : RunCollection)
    (worker : Payload → Answer) where
  abbrev St : Type 0
  St = State rc links runs

  unfoldable pub join_or_raise :
      Option RepoDocument
      → Holder
      → Option Text
      → Option Text
      → Fresh
      → Action St Error (ℕ × PipelineStatus)
  unfolding join_analysis
  join_or_raise none h token ref fresh s = (err duplicate_key, s)
  join_or_raise (some repo) h token ref fresh s =
      join_analysis rc links runs worker repo h token ref fresh s

  -- The lookups of the two source shapes.
  unfoldable pub find_existing : Option Text → Text → Text → Text → St → Option RepoDocument
  unfolding find_live_zip_repo find_live_git_repo
  find_existing none url path v s = find_live_zip_repo rc links runs path v s
  find_existing (some commit) url path v s = find_live_git_repo rc links runs url commit v s

  unfoldable pub find_winner : Option Text → Text → Text → Text → St → Option RepoDocument
  unfolding find_live_zip_repo_by_key find_live_git_repo_by_key
  find_winner none url path v s = find_live_zip_repo_by_key rc links runs path v s
  find_winner (some commit) url path v s = find_live_git_repo_by_key rc links runs url commit v s

  unfoldable pub created_new :
      Result Error (Unit {0}) × St
      → RepoDocument
      → Holder
      → Option Text
      → Option Text
      → Fresh
      → Result Error (ℕ × PipelineStatus) × St
  unfolding join_or_raise find_winner
  created_new (ok _, s) repo h token ref fresh = (ok (repo.id, pending), s)
  created_new (err duplicate_key, s) repo h token ref fresh =
      join_or_raise
        (find_winner repo.repo_hash repo.repo_url repo.blob_path repo.analyzer_version s) h token
        ref fresh s
  created_new (err e, s) repo h token ref fresh = (err e, s)

  module _ (parse_url : Text → UrlParts) (sha256_hex : Text → Text) (meanwhile : St → St) where
    unfoldable pub source_path : RepoDocument → Text
    unfolding git_blob_path
    source_path repo = elim repo.repo_hash [
      | none ↦ repo.blob_path
      | some commit ↦ git_blob_path parse_url sha256_hex repo.repo_url commit
    ]

    -- `meanwhile` is what others write between the lookup and the insertion.
    unfoldable pub moved :
        Option RepoDocument
        → RepoDocument
        → Text
        → Holder
        → Option Text
        → Option Text
        → Fresh
        → Action St Error (ℕ × PipelineStatus)
    unfolding join_or_raise created_new start_new_analysis new_repo source_path
    moved (some d) repo v h token ref fresh s = join_or_raise (some d) h token ref fresh s
    moved none repo v h token ref fresh s =
        let d =
          new_repo repo.repo_url repo.repo_hash v (source_path repo) repo.languages fresh.repo_id in
        created_new (start_new_analysis rc links runs worker d h token ref fresh (meanwhile s)) d h
          token ref fresh

    unfoldable pub relaunch_at_new_version :
        RepoDocument
        → Text
        → Holder
        → Option Text
        → Option Text
        → Fresh
        → Action St Error (ℕ × PipelineStatus)
    unfolding moved find_existing source_path
    relaunch_at_new_version repo v h token ref fresh s =
        moved (find_existing repo.repo_hash repo.repo_url (source_path repo) v s) repo v h token ref
          fresh s

    module _ (is_utf8 : Text → Bool) (versioning : Versioning) (grace_period : ℕ) (ask : ℕ → Answer)
        (meanwhile_runs : runs.Db → runs.Db) where
      unfoldable pub resolve_source_ref :
          RepoDocument → (Text → List Resolve.Answer) → Result Error (Option Text)
      unfolding lift_git resolve_git_ref
      resolve_source_ref repo answers = elim repo.repo_hash [
        | none ↦ ok none
        | some commit ↦
            elim (lift_git
              (resolve_git_ref parse_url is_utf8 repo.repo_url none (some commit) answers)) [
                | ok resolved ↦ ok resolved.ref
                | err e ↦ err e
              ]
      ]

      unfoldable pub reconcile : RepoDocument → ℕ → Action St Error (Unit {0})
      unfolding reconcile_pipeline_run
      reconcile repo now s = (
        ok tt,
        record s {
          pipeline_runs =
              reconcile_pipeline_run runs grace_period repo.id now ask meanwhile_runs
                s.pipeline_runs;
        },
      )

      unfoldable pub relaunch_by_version :
          Bool
          → RepoDocument
          → Text
          → Holder
          → Option Text
          → Option Text
          → Fresh
          → Action St Error (ℕ × PipelineStatus)
      unfolding relaunch_at_new_version after_dispatch relaunch_at_current_version source_of
      relaunch_by_version true repo v h token ref fresh s =
          relaunch_at_new_version repo v h token ref fresh s
      relaunch_by_version false repo v h token ref fresh s =
          after_dispatch rc links runs worker
            (relaunch_at_current_version runs worker (source_of repo) token ref fresh.run_id
              fresh.now s.pipeline_runs)
            s

      unfoldable pub relaunch_repo :
          RepoDocument
          → UserRepo
          → Text
          → Option Text
          → (Text → List Resolve.Answer)
          → Option Text
          → Fresh
          → Action St Error (ℕ × PipelineStatus)
      unfolding resolve_source_ref require_version reconcile relaunch_by_version is_stale
          versions_of holder_of
      relaunch_repo repo link uid token answers version fresh = do
        ref ← lift (resolve_source_ref repo answers)
        v ← lift (require_version version)
        reconcile repo fresh.now
        relaunch_by_version (is_stale versioning (versions_of repo) v) repo v (holder_of uid link)
            token ref fresh
