-- ===== src/Repos/Samples.antt =====
-- The theorems on repositories at concrete contents of the collections.
use retro_doc.Prelude.{
  List, ℕ, ltb, ◌==◌, Text, text, text_eq, Bool, true, false, none, some, [], ◌∷◌, ◌++◌, ◌≡◌, refl,
  subst, ok, err, Result, arith,
}
use mathlib.Core.Option.{some-injective}
use retro_doc.Action.{go_on}
use retro_doc.Mongo.{find_newest, Collection, any, find, find_last}
use retro_doc.Mongo.Kept.{kept, insert_kept}
use retro_doc.Strings.{ends_with}
use retro_doc.Links.Model.{is_positive}
use retro_doc.Runs.Model.{
  PipelineRun, pending, completed, PipelineStatus, RunCollection, run_conflicts, is_live, new_run,
  Answer, no_answer, answer,
}
use retro_doc.Runs.Dispatch.{Payload, payload_of, launch_error, at_current_version}
use retro_doc.Versions.Stale.{Versioning, is_stale, is_behind}
use retro_doc.Git.Resolve.{UrlParts, ResolvedGitRef}
use retro_doc.Repos.Model.{
  RepoDocument, UserRepo, Error, dispatch_error, repo_conflicts, link_conflicts, State, is_text,
  same_text, is_at_version, is_live_git, is_live_git_key,
}
use retro_doc.Repos.Create.{Holder, Fresh, new_repo, source_of, link_of, join_analysis}
use retro_doc.Repos.Analyze.{joined, analyze_resolved}
use retro_doc.Repos.Relaunch.{versions_of, relaunch_at_new_version, relaunch_repo}
use retro_doc.Repos.Upload.{
  CreateRequest, Upload, zip_payload, uploaded_repo, require_zip, create_repo,
}
use retro_doc.Repos.Steps.{first_payload}
use retro_doc.Repos.Joined.{with_holder}
use retro_doc.Repos.Twice.{repo_for, analyze_resolved-twice}
use retro_doc.Repos.Race.{analyze_resolved-lost}
use retro_doc.Repos.Elsewhere.{relaunch_at_new_version-other}
use retro_doc.Repos.Uploads.{Accepted, zip_payload-payload_of, create_repo-Accepted}
use retro_doc.Repos.InPlace.{InPlace, relaunch_repo-InPlace}
use retro_doc.Repos.Read.{
  get_pipeline_history, find_latest_pipeline_run, get_pipeline_with_attempts, reported, get_repos,
  get_pipeline_with_attempts-reported,
}
use retro_doc.Repos.Kept.{kept_repos}

abbrev runs : RunCollection
runs = kept run_conflicts

abbrev links : Collection UserRepo link_conflicts
links = kept link_conflicts

abbrev taking : Payload → Answer
taking p = answer 202 true (some (text "1"))

abbrev parse_url : Text → UrlParts
parse_url url = record { scheme = text "https"; netloc = text "host"; path = text "/name" }

abbrev is_utf8 : Text → Bool
is_utf8 s = true

abbrev sha256_hex : Text → Text
sha256_hex s = text "d"

-- Versions that do not parse.
abbrev opaque_versions : Versioning
opaque_versions = record {
  Version = ℕ;
  parse = λ t. none;
  is_less = ltb;
  is_less-irreflexive = λ v. ground arith;
  is_less-asymmetric = λ v w h. ground (arith, h);
}

-- A repository of an older version, with one holder and a completed run.
abbrev old : RepoDocument
old =
    new_repo (text "https://host/name") (some (text "a1")) (text "1") (text "git/d/a1/src/name") []
      1

abbrev old_link : UserRepo
old_link = record { name = text "n"; user_id = text "u"; repo_id = 1; color = none }

abbrev State0 : Type 0
State0 = State kept_repos links runs

abbrev start : State0
start = record {
  repos = old ∷ [];
  user_repos = old_link ∷ [];
  pipeline_runs = record (new_run 1 1 10) { status = completed } ∷ [];
  blobs = [];
  sent = [];
}

abbrev resolved : ResolvedGitRef
resolved = record { url = text "https://host/name"; commit = text "a1"; ref = some (text "main") }

abbrev alice : Holder
alice = record { uid = text "u"; name = text "n"; color = none }

abbrev bob : Holder
bob = record { uid = text "w"; name = text "m"; color = none }

abbrev fresh : Fresh
fresh = record { repo_id = 2; run_id = 2; now = 20 }

abbrev later : Fresh
later = record { repo_id = 3; run_id = 3; now = 30 }

-- The new repository, at version 2.
abbrev created : RepoDocument
created = repo_for kept_repos links runs taking parse_url is_utf8 sha256_hex resolved (text "2") 2

analyze_resolved-twice_example :
    let first =
      analyze_resolved kept_repos links runs taking parse_url is_utf8 sha256_hex
        (λ s. s)
        resolved
        (text "2")
        none
        alice
        fresh
        start in
    let second =
      analyze_resolved kept_repos links runs taking parse_url is_utf8 sha256_hex
        (λ s. s)
        (record resolved { ref = none })
        (text "2")
        none
        bob
        later
        first.1 in
    (first.0 ≡ ok (2, (pending, false)))
    × (first.1.sent
        ≡ first_payload kept_repos links runs taking created none (some (text "main")) fresh ∷ [])
    × (second.0 ≡ ok (2, (pending, true)))
    × (second.1.sent ≡ first.1.sent)
    × (second.1.pipeline_runs ≡ first.1.pipeline_runs)
    × (second.1.repos ≡ old ∷ with_holder created ∷ [])
    × (second.1.user_repos ≡ old_link ∷ link_of alice 2 ∷ link_of bob 2 ∷ [])
unfolding any is_live_git is_at_version repo_conflicts is_text new_repo text_eq launch_error
    is_positive same_text new_run
analyze_resolved-twice_example =
    analyze_resolved-twice kept_repos links runs taking parse_url is_utf8 sha256_hex resolved
      (text "2") none none none alice bob fresh later start refl refl refl refl refl refl refl

-- Meanwhile, somebody else has created the repository for the same commit and version.
abbrev taken : State0 → State0
taken s = record s { repos = s.repos ++ record created { id = 9 } ∷ [] }

analyze_resolved-lost_example :
    analyze_resolved kept_repos links runs taking parse_url is_utf8 sha256_hex taken resolved
      (text "2")
      none
      alice
      fresh
      start
    ≡ go_on
        (join_analysis kept_repos links runs taking
          (record created { id = 9 })
          alice
          none
          (some (text "main"))
          fresh
          (taken start))
        (joined kept_repos links runs taking)
unfolding any find is_live_git is_at_version is_live_git_key is_text new_repo text_eq is_positive
analyze_resolved-lost_example =
    analyze_resolved-lost kept_repos links runs taking parse_url is_utf8 sha256_hex taken resolved
      (text "2") none alice fresh start (record created { id = 9 }) refl refl

relaunch_at_new_version-other_example : (9 == 1) ≡ false
unfolding relaunch_at_new_version text_eq is_stale is_behind new_repo versions_of find go_on
    insert_kept repo_conflicts link_conflicts find_last
relaunch_at_new_version-other_example =
    relaunch_at_new_version-other kept_repos links runs taking opaque_versions parse_url sha256_hex
      taken old (text "2") alice none none fresh start 9 pending refl (λ h. refl, tt)
      (λ h. refl, (λ h. ground (arith, h), tt)) refl

zip_payload-payload_of_example :
    zip_payload (text "user/u/x/src/a.zip") [] (new_run 2 2 20)
    ≡ payload_of
        (source_of (uploaded_repo (text "a.zip") (text "user/u/x/src/a.zip") (text "2") [] 2))
        (new_run 2 2 20)
        (some (text "t"))
        none
unfolding require_zip ends_with text_eq
zip_payload-payload_of_example =
    zip_payload-payload_of (text "u") (text "x") (text "a.zip") (text "2") [] 2 (new_run 2 2 20)
      (some (text "t")) none refl

abbrev request : CreateRequest
request = record {
  filename = some (text "a.zip");
  has_file = true;
  repo_url = none;
  branch = none;
  commit = none;
  token = none;
  languages = text "java" ∷ [];
}

abbrev upload : Upload
upload = record {
  uuid = text "x";
  succeeds = true;
  ttl = 60;
  languages_cache = record { languages = some (text "java" ∷ []); expires_at = 100 };
  first_call = record { now = 50; meanwhile = λ c. c; answer = none };
  second_call = record { now = 50; meanwhile = λ c. c; answer = none };
}

create_repo-Accepted_example : Accepted request upload (2, (pending, false))
unfolding create_repo text_eq ends_with launch_error repo_conflicts go_on insert_kept link_conflicts
    run_conflicts
create_repo-Accepted_example =
    create_repo-Accepted kept_repos links runs taking parse_url is_utf8 sha256_hex (λ s. s) request
      alice (λ url. []) (some (text "2")) upload fresh start (2, (pending, false)) refl

-- The worker has version 1, the one of the repository, whose run is completed.
abbrev relaunched : Result Error (ℕ × PipelineStatus) × State0
relaunched =
    relaunch_repo kept_repos links runs taking parse_url sha256_hex (λ s. s) is_utf8 opaque_versions
      60 (λ id. no_answer) (λ db. db) (record old { repo_hash = none }) old_link (text "u") none
      (λ url. []) (some (text "1")) fresh start

relaunch_repo-InPlace_example : InPlace kept_repos links runs taking start relaunched.1
unfolding is_stale is_behind text_eq versions_of new_repo
relaunch_repo-InPlace_example =
    relaunch_repo-InPlace kept_repos links runs taking parse_url sha256_hex (λ s. s) is_utf8
      opaque_versions 60 (λ id. no_answer) (λ db. db) (record old { repo_hash = none }) old_link
      (text "u") none (λ url. []) (some (text "1")) fresh start
      (λ v h.
        subst (λ x. is_stale opaque_versions (versions_of old) x ≡ false)
          (some-injective (text "1") v h) refl)

refused : relaunched.0 ≡ err (dispatch_error at_current_version)
unfolding relaunch_repo is_live text_eq is_stale go_on find_last find
refused = refl

-- Two attempts of one repository, and one of another.
abbrev attempts : List PipelineRun
attempts = new_run 1 1 10 ∷ new_run 5 2 15 ∷ new_run 7 1 20 ∷ []

get_pipeline_with_attempts-reported_example :
    get_pipeline_with_attempts kept_repos links runs 1 attempts
    ≡ reported (some (new_run 7 1 20)) (new_run 7 1 20 ∷ new_run 1 1 10 ∷ [])
unfolding find_latest_pipeline_run get_pipeline_history find_last find_newest new_run
get_pipeline_with_attempts-reported_example =
    get_pipeline_with_attempts-reported kept_repos links runs 1 attempts

listed : get_repos kept_repos links runs (text "u") (λ name. true) start ≡ (old, old_link) ∷ []
unfolding get_repos find_newest text_eq new_repo
listed = refl
