-- ===== src/Repos/Upload.antt =====
-- `analyze_file` and `create_repo` of backend/app/repos/service.py. Arguments say how the upload ends,
-- what `uuid4` and `get_analyzer_version` give, and what `validate_languages` finds in its cache and is
-- answered by the worker.
use retro_doc.Prelude.{
  ℕ, Text, text, Bool, true, false, ◌||◌, not, Option, none, some, is_some, List, [], ◌∷◌, ◌++◌,
  is_empty, Result, ok, err, if◌then◌else◌,
}
use retro_doc.Action.{Action, return, lift, ◌>>=◌, ◌>>◌}
use retro_doc.Mongo.{Collection}
use retro_doc.Strings.{ends_with, without_suffix}
use retro_doc.Runs.Model.{Answer, pending, PipelineRun, RunCollection, new_run}
use retro_doc.Runs.Dispatch.{Payload, launch_error, record_failure}
use retro_doc.Git.Resolve.{UrlParts}
use retro_doc.Git.Resolve
use retro_doc.Languages
use retro_doc.Languages.{LanguagesCache, Call, bad_gateway, unsupported, validate_languages}
use retro_doc.Repos.Model.{
  RepoDocument, UserRepo, link_conflicts, RepoCollection, Error, not_a_zip, git_field_on_zip,
  no_filename, filtered_git, no_source, upload_failed, worker_unreachable, unsupported_languages,
  State,
}
use retro_doc.Repos.Create.{
  Holder, Fresh, link_of, new_repo, after_dispatch, insert_repo, insert_user_repo, insert_run,
  require_version, Created,
}
use retro_doc.Repos.Analyze.{analyze_git}

unfoldable pub require_zip : Text → Result Error (Unit {0})
unfolding ends_with
require_zip filename =
    if is_empty filename || not (ends_with (text ".zip") filename) then err not_a_zip else ok tt

abbrev pub blob_name : Text → Text → Text → Text
blob_name uid uuid filename =
    text "user/" ++ (uid ++ (text "/" ++ (uuid ++ (text "/src/" ++ filename))))

-- The request of `start_orchestration` without a `repo_url`.
unfoldable pub zip_payload : Text → List Text → PipelineRun → Payload
zip_payload blob languages run = record {
  source = text "zip";
  blob_path = blob;
  languages = languages;
  instance_id = run.id;
  repo_id = run.repo_id;
  repo_url = none;
  commit = none;
  ref = none;
  token = none;
}

unfoldable pub uploaded_repo : Text → Text → Text → List Text → ℕ → RepoDocument
unfolding new_repo without_suffix
uploaded_repo filename blob v languages id =
    new_repo filename none v (without_suffix (text ".zip") blob) languages id

-- The arguments of a request to create a repository.
pub record CreateRequest : Type 0 where
  pub filename : Option Text
  pub has_file : Bool
  pub repo_url : Option Text
  pub branch : Option Text
  pub commit : Option Text
  pub token : Option Text
  pub languages : List Text

-- What an upload asks of the rest of the system.
pub record Upload : Type 0 where
  pub uuid : Text
  pub succeeds : Bool
  pub ttl : ℕ
  pub languages_cache : LanguagesCache
  pub first_call : Call
  pub second_call : Call

-- `validate_languages` as the upload meets it; what it leaves in its cache is not in the state here.
unfoldable pub checked_languages :
    List Text → Upload → Result Languages.Error (Unit {0}) × LanguagesCache
unfolding validate_languages
checked_languages languages upload =
    validate_languages upload.ttl languages upload.first_call upload.second_call
      upload.languages_cache

-- The exceptions of `validate_languages` are those of `create_repo`.
unfoldable pub languages_error : Languages.Error → Error
languages_error bad_gateway = worker_unreachable
languages_error unsupported = unsupported_languages

unfoldable pub reraised : Result Languages.Error (Unit {0}) → Result Error (Unit {0})
unfolding languages_error
reraised (ok u) = ok tt
reraised (err e) = err (languages_error e)

unfoldable pub required_name : Option Text → Result Error Text
required_name none = err no_filename
required_name (some filename) = if is_empty filename then err no_filename else ok filename

-- The checks of the zip path: the file's name, or the error.
unfoldable pub check_zip : CreateRequest → Result Error Text
unfolding required_name
check_zip r =
    if is_some r.branch || (is_some r.commit || is_some r.token)
    then err git_field_on_zip
    else required_name r.filename

module _ (rc : RepoCollection) (links : Collection UserRepo link_conflicts) (runs : RunCollection)
    (worker : Payload → Answer) where
  abbrev St : Type 0
  St = State rc links runs

  unfoldable pub upload_blob : Text → Bool → Action St Error (Unit {0})
  upload_blob blob true s = (ok tt, record s { blobs = s.blobs ++ blob ∷ [] })
  upload_blob blob false s = (err upload_failed, s)

  unfoldable pub start_zip : Text → List Text → PipelineRun → ℕ → Action St Error (Unit {0})
  unfolding zip_payload record_failure launch_error after_dispatch
  start_zip blob languages run now s =
      let p = zip_payload blob languages run in
      after_dispatch rc links runs worker
        (record_failure runs worker run now (launch_error (worker p)) p s.pipeline_runs) s

  unfoldable pub analyze_file :
      Text → List Text → Holder → Option Text → Upload → Fresh → Action St Error ℕ
  unfolding require_zip require_version upload_blob uploaded_repo insert_repo insert_user_repo
      link_of insert_run new_run start_zip
  analyze_file filename languages h version upload fresh = do
    lift (require_zip filename)
    v ← lift (require_version version)
    upload_blob (blob_name h.uid upload.uuid filename) upload.succeeds
    insert_repo rc links runs worker
        (uploaded_repo filename (blob_name h.uid upload.uuid filename) v languages fresh.repo_id)
    insert_user_repo rc links runs worker (link_of h fresh.repo_id)
    insert_run rc links runs worker (new_run fresh.run_id fresh.repo_id fresh.now)
    start_zip (blob_name h.uid upload.uuid filename) languages
        (new_run fresh.run_id fresh.repo_id fresh.now) fresh.now
    return fresh.repo_id

  unfoldable pub create_zip :
      CreateRequest → Holder → Option Text → Upload → Fresh → Action St Error Created
  unfolding check_zip analyze_file checked_languages reraised
  create_zip r h version upload fresh = do
    filename ← lift (check_zip r)
    lift (reraised (checked_languages r.languages upload).0)
    id ← analyze_file filename r.languages h version upload fresh
    return (id, (pending, false))

  module _ (parse_url : Text → UrlParts) (is_utf8 : Text → Bool) (sha256_hex : Text → Text)
      (meanwhile : St → St) where
    unfoldable pub create_git :
        Text
        → CreateRequest
        → Holder
        → (Text → List Resolve.Answer)
        → Option Text
        → Fresh
        → Action St Error Created
    unfolding analyze_git
    create_git url r h answers version fresh s =
        if is_empty r.languages
        then analyze_git rc links runs worker parse_url is_utf8 sha256_hex meanwhile url r.branch
            r.commit r.token h answers version fresh s
        else (err filtered_git, s)

    unfoldable pub create_from :
        Option Text
        → Bool
        → CreateRequest
        → Holder
        → (Text → List Resolve.Answer)
        → Option Text
        → Upload
        → Fresh
        → Action St Error Created
    unfolding create_zip create_git
    create_from none true r h answers version upload fresh s = create_zip r h version upload fresh s
    create_from (some url) false r h answers version upload fresh s =
        create_git url r h answers version fresh s
    create_from none false r h answers version upload fresh s = (err no_source, s)
    create_from (some url) true r h answers version upload fresh s = (err no_source, s)

    unfoldable pub create_repo :
        CreateRequest
        → Holder
        → (Text → List Resolve.Answer)
        → Option Text
        → Upload
        → Fresh
        → Action St Error Created
    unfolding create_from
    create_repo r h answers version upload fresh =
        create_from r.repo_url r.has_file r h answers version upload fresh
