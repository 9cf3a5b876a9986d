-- ===== src/Repos/Model.antt =====
-- `RepoDocument` of backend/app/repos/models.py, `UserRepoDocument` of backend/app/users/models.py, the
-- lookups of live repositories of backend/app/repos/service.py, and the state that its operations
-- change.
use retro_doc.Prelude.{
  ℕ, ◌==◌, Text, text_eq, Bool, true, false, ◌&&◌, ◌||◌, Option, none, some, is_none, List, ◌∷◌,
  ◌++◌, ◌≡◌, Result,
}
use retro_doc.Mongo.{Collection, any}
use retro_doc.Links.Model.{ℤ, is_positive}
use retro_doc.Runs.Model.{RunCollection}
use retro_doc.Runs.Dispatch.{Payload, Outcome}
use retro_doc.Runs.Dispatch
use retro_doc.Git.Resolve

-- The dates are left out. Versions, commits and paths are texts.
pub record RepoDocument : Type 0 where
  pub id : ℕ
  pub repo_url : Text
  pub repo_hash : Option Text
  pub analyzer_version : Text
  pub ran_analyzer_version : Option Text
  pub blob_path : Text
  pub user_count : ℤ
  pub languages : List Text

pub record UserRepo : Type 0 where
  pub name : Text
  pub user_id : Text
  pub repo_id : ℕ
  pub color : Option Text

unfoldable pub is_text : Text → Option Text → Bool
unfolding text_eq
is_text s none = false
is_text s (some t) = text_eq t s

-- Both are set, and the same.
unfoldable pub same_text : Option Text → Option Text → Bool
unfolding is_text
same_text none b = false
same_text (some s) b = is_text s b

-- The two partial unique indexes, over the repositories with a positive count.
unfoldable pub repo_conflicts : RepoDocument → RepoDocument → Bool
unfolding is_positive text_eq same_text
repo_conflicts a b =
    (is_positive a.user_count && is_positive b.user_count)
    && (text_eq a.analyzer_version b.analyzer_version
        && ((text_eq a.repo_url b.repo_url && same_text a.repo_hash b.repo_hash)
            || text_eq a.blob_path b.blob_path))

-- The unique index on the user and the repository.
unfoldable pub link_conflicts : UserRepo → UserRepo → Bool
unfolding text_eq
link_conflicts a b = text_eq a.user_id b.user_id && a.repo_id == b.repo_id

-- The repositories, with a query that sorts by a field and takes the first: it answers with one of the
-- matches, if there are any.
pub record RepoCollection : Type 1 where
  pub collection : Collection RepoDocument repo_conflicts
  pub first_sorted :
      collection.Db → (RepoDocument → Bool) → (RepoDocument → Text) → Option RepoDocument
  pub first_sorted-none :
      (db : collection.Db) (p : RepoDocument → Bool) (key : RepoDocument → Text)
      → first_sorted db p key ≡ none
      → any p (collection.docs db) ≡ false
  pub first_sorted-some :
      (db : collection.Db) (p : RepoDocument → Bool) (key : RepoDocument → Text) (d : RepoDocument)
      → first_sorted db p key ≡ some d
      → (p d ≡ true)
        × (before : List RepoDocument) × (after : List RepoDocument) × (collection.docs db
            ≡ before ++ d ∷ after)

-- `Or(Eq(ran_analyzer_version, v), And(Eq(ran_analyzer_version, None), Eq(analyzer_version, v)))`
unfoldable pub is_at_version : Text → RepoDocument → Bool
unfolding is_text text_eq
is_at_version v d =
    is_text v d.ran_analyzer_version
    || (is_none d.ran_analyzer_version && text_eq d.analyzer_version v)

unfoldable pub is_live_git : Text → Text → Text → RepoDocument → Bool
unfolding text_eq is_text is_positive is_at_version
is_live_git url commit v d =
    text_eq d.repo_url url
    && (is_text commit d.repo_hash && (is_positive d.user_count && is_at_version v d))

unfoldable pub is_live_git_key : Text → Text → Text → RepoDocument → Bool
unfolding text_eq is_text is_positive
is_live_git_key url commit v d =
    text_eq d.repo_url url
    && (is_text commit d.repo_hash && (text_eq d.analyzer_version v && is_positive d.user_count))

unfoldable pub is_live_zip : Text → Text → RepoDocument → Bool
unfolding text_eq is_positive is_at_version
is_live_zip path v d =
    text_eq d.blob_path path
    && (is_none d.repo_hash && (is_positive d.user_count && is_at_version v d))

unfoldable pub is_live_zip_key : Text → Text → RepoDocument → Bool
unfolding text_eq is_positive
is_live_zip_key path v d =
    text_eq d.blob_path path && (text_eq d.analyzer_version v && is_positive d.user_count)

-- The exceptions of these operations, and those that they pass on.
pub data Error : Type 0 where
  not_available already_added not_a_zip git_field_on_zip no_filename filtered_git no_source : Error
  worker_unreachable unsupported_languages no_version upload_failed duplicate_key : Error
  dispatch_error : Dispatch.Error → Error
  git_error : Resolve.Error → Error

module _ (rc : RepoCollection) (links : Collection UserRepo link_conflicts)
    (runs : RunCollection) where
  -- The three collections, the blobs that were uploaded, and the requests that went out, the latest last.
  pub record State : Type 0 where
    pub repos : rc.collection.Db
    pub user_repos : links.Db
    pub pipeline_runs : runs.Db
    pub blobs : List Text
    pub sent : List Payload

  abbrev pub Action : Type 0 → Type 0
  Action A = State → Result Error A × State

  unfoldable pub find_live_git_repo : Text → Text → Text → State → Option RepoDocument
  unfolding is_live_git
  find_live_git_repo url commit v s =
      rc.first_sorted s.repos (is_live_git url commit v) (λ d. d.analyzer_version)

  unfoldable pub find_live_git_repo_by_key : Text → Text → Text → State → Option RepoDocument
  unfolding is_live_git_key
  find_live_git_repo_by_key url commit v s =
      rc.collection.find_one s.repos (is_live_git_key url commit v)

  unfoldable pub find_live_zip_repo : Text → Text → State → Option RepoDocument
  unfolding is_live_zip
  find_live_zip_repo path v s =
      rc.first_sorted s.repos (is_live_zip path v) (λ d. d.analyzer_version)

  unfoldable pub find_live_zip_repo_by_key : Text → Text → State → Option RepoDocument
  unfolding is_live_zip_key
  find_live_zip_repo_by_key path v s = rc.collection.find_one s.repos (is_live_zip_key path v)
