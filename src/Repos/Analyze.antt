-- ===== src/Repos/Analyze.antt =====
-- `analyze_git` of backend/app/repos/service.py.
use retro_doc.Prelude.{Bool, ℕ, Text, true, false, Option, none, some, List, [], Result, ok, err}
use retro_doc.Action.{Action, lift, ◌>>=◌, go_on}
use retro_doc.Mongo.{Collection}
use retro_doc.Runs.Model.{Answer, PipelineStatus, pending, RunCollection}
use retro_doc.Runs.Dispatch.{Payload}
use retro_doc.Git.Resolve.{UrlParts, ResolvedGitRef, resolve_git_ref}
use retro_doc.Git.Resolve
use retro_doc.Git.Name.{git_blob_path}
use retro_doc.Repos.Model.{
  RepoDocument, UserRepo, link_conflicts, RepoCollection, Error, duplicate_key, State,
  find_live_git_repo, find_live_git_repo_by_key,
}
use retro_doc.Repos.Create.{
  Holder, Fresh, Created, new_repo, require_version, lift_git, join_analysis, start_new_analysis,
}

module _ (rc : RepoCollection) (links : Collection UserRepo link_conflicts) (runs : RunCollection)
    (worker : Payload → Answer) where
  abbrev St : Type 0
  St = State rc links runs

  unfoldable pub joined : ℕ × PipelineStatus → Action St Error Created
  joined (id, status) s = (ok (id, (status, true)), s)

  unfoldable pub join_existing :
      Option RepoDocument
      → Error
      → Holder
      → Option Text
      → Option Text
      → Fresh
      → Action St Error Created
  unfolding join_analysis joined
  join_existing none e h token ref fresh s = (err e, s)
  join_existing (some repo) e h token ref fresh s =
      go_on (join_analysis rc links runs worker repo h token ref fresh s) joined

  -- After an attempt to create: on `DuplicateKeyError` the winner is joined.
  unfoldable pub created_git :
      Result Error (Unit {0}) × St
      → RepoDocument
      → Text
      → Holder
      → Option Text
      → Option Text
      → Fresh
      → Result Error Created × St
  unfolding join_existing find_live_git_repo_by_key
  created_git (ok _, s) repo commit h token ref fresh = (ok (repo.id, (pending, false)), s)
  created_git (err duplicate_key, s) repo commit h token ref fresh =
      join_existing
        (find_live_git_repo_by_key rc links runs repo.repo_url commit repo.analyzer_version s)
        duplicate_key h token ref fresh s
  created_git (err e, s) repo commit h token ref fresh = (err e, s)

  module _ (parse_url : Text → UrlParts) (is_utf8 : Text → Bool) (sha256_hex : Text → Text)
      (meanwhile : St → St) where
    -- `meanwhile` is what others write between the lookup and the insertion.
    unfoldable pub analyze_found :
        Option RepoDocument
        → ResolvedGitRef
        → Text
        → Option Text
        → Holder
        → Fresh
        → Action St Error Created
    unfolding join_existing created_git start_new_analysis new_repo git_blob_path
    analyze_found (some d) r v token h fresh s =
        join_existing (some d) duplicate_key h token r.ref fresh s
    analyze_found none r v token h fresh s =
        let path = git_blob_path parse_url sha256_hex r.url r.commit in
        let repo = new_repo r.url (some r.commit) v path [] fresh.repo_id in
        created_git (start_new_analysis rc links runs worker repo h token r.ref fresh (meanwhile s))
          repo r.commit h token r.ref fresh

    unfoldable pub analyze_resolved :
        ResolvedGitRef → Text → Option Text → Holder → Fresh → Action St Error Created
    unfolding analyze_found find_live_git_repo
    analyze_resolved r v token h fresh s =
        analyze_found (find_live_git_repo rc links runs r.url r.commit v s) r v token h fresh s

    unfoldable pub analyze_git :
        Text
        → Option Text
        → Option Text
        → Option Text
        → Holder
        → (Text → List Resolve.Answer)
        → Option Text
        → Fresh
        → Action St Error Created
    unfolding lift_git resolve_git_ref require_version analyze_resolved
    analyze_git repo_url branch commit token h answers version fresh = do
      r ← lift (lift_git (resolve_git_ref parse_url is_utf8 repo_url branch commit answers))
      v ← lift (require_version version)
      analyze_resolved r v token h fresh
