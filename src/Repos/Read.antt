-- ===== src/Repos/Read.antt =====
-- `get_pipeline_history`, `get_pipeline_with_attempts`, `_find_latest_pipeline_run`, `get_repos`,
-- `join_repo` and `update_user_repo` of backend/app/repos/service.py.
use retro_doc.Prelude.{
  ℕ, ◌==◌, Text, text_eq, Bool, true, false, ◌&&◌, ◌||◌, Option, none, some, List, [], ◌∷◌, ◌++◌,
  ◌≡◌, refl, Result, ok, err, if◌then◌else◌,
}
use retro_doc.Action.{Action, go_on}
use retro_doc.Mongo.{Collection, find_newest, find_last}
use retro_doc.Links.Model.{is_positive}
use retro_doc.Runs.Model.{Answer, PipelineRun, RunCollection}
use retro_doc.Runs.Dispatch.{Payload}
use retro_doc.Repos.Model.{
  RepoDocument, UserRepo, link_conflicts, RepoCollection, State, Error, not_available,
}
use retro_doc.Repos.Create.{Holder, acquire_repo_link}

-- The fields that a request to change a link sets: `color` may be set to nothing, while a name of
-- nothing is no name.
pub record LinkUpdate : Type 0 where
  pub name : Option Text
  pub color : Option (Option Text)

unfoldable pub renamed : Option Text → UserRepo → UserRepo
renamed none link = link
renamed (some name) link = record link { name = name }

unfoldable pub recolored : Option (Option Text) → UserRepo → UserRepo
recolored none link = link
recolored (some color) link = record link { color = color }

-- The link that is saved.
unfoldable pub update_user_repo : LinkUpdate → UserRepo → UserRepo
unfolding renamed recolored
update_user_repo u link = recolored u.color (renamed u.name link)

unfoldable pub find_id : ℕ → List RepoDocument → Option RepoDocument
find_id id [] = none
find_id id (d ∷ ds) = if d.id == id then some d else find_id id ds

-- The links with their repositories, those without one left out.
unfoldable pub with_repos : List RepoDocument → List UserRepo → List (RepoDocument × UserRepo)
unfolding find_id
with_repos ds [] = []
with_repos ds (l ∷ ls) =
    let rest = with_repos ds ls in
    elim (find_id l.repo_id ds) [ some d ↦ (d, l) ∷ rest | none ↦ rest ]

unfoldable pub first_run : List PipelineRun → Result Error (PipelineRun × List PipelineRun)
first_run [] = err not_available
first_run (r ∷ rs) = ok (r, r ∷ rs)

unfoldable pub is_listed_id : ℕ → List UserRepo → Bool
is_listed_id id [] = false
is_listed_id id (l ∷ ls) = l.repo_id == id || is_listed_id id ls

module _ (rc : RepoCollection) (links : Collection UserRepo link_conflicts)
    (runs : RunCollection) where
  unfoldable pub find_latest_pipeline_run : ℕ → runs.Db → Option PipelineRun
  find_latest_pipeline_run repo_id db = runs.find_latest db (λ r. r.repo_id == repo_id)

  unfoldable pub get_pipeline_history : ℕ → runs.Db → List PipelineRun
  get_pipeline_history repo_id db = runs.find_all db (λ r. r.repo_id == repo_id)

  -- Without a run, 404.
  unfoldable pub get_pipeline_with_attempts :
      ℕ → runs.Db → Result Error (PipelineRun × List PipelineRun)
  unfolding first_run get_pipeline_history
  get_pipeline_with_attempts repo_id db = first_run (get_pipeline_history repo_id db)

  -- `matches` is the regular expression for the search, as MongoDB matches it on a name.
  unfoldable pub get_repos :
      Text → (Text → Bool) → State rc links runs → List (RepoDocument × UserRepo)
  unfolding with_repos is_listed_id text_eq
  get_repos uid matches s =
      let listed = links.find_all s.user_repos (λ l. text_eq l.user_id uid && matches l.name) in
      with_repos (rc.collection.find_all s.repos (λ d. is_listed_id d.id listed)) listed

  module _ (worker : Payload → Answer) where
    -- The name and the color of the holder are not used: the repository's URL is the name.
    unfoldable pub join_found :
        Option RepoDocument → ℕ → Holder → Action (State rc links runs) Error Text
    unfolding acquire_repo_link go_on
    join_found none repo_id h s = (err not_available, s)
    join_found (some d) repo_id h s =
        go_on
          (acquire_repo_link rc links runs worker repo_id
            (record { uid = h.uid; name = d.repo_url; color = none }) s)
          (λ _ s'. (ok d.repo_url, s'))

    unfoldable pub join_repo : ℕ → Holder → Action (State rc links runs) Error Text
    unfolding join_found is_positive
    join_repo repo_id h s =
        join_found
          (rc.collection.find_one s.repos (λ d. d.id == repo_id && is_positive d.user_count))
          repo_id h s

-- The run that is reported, from the latest one.
unfoldable pub reported :
    Option PipelineRun → List PipelineRun → Result Error (PipelineRun × List PipelineRun)
reported none all = err not_available
reported (some r) all = ok (r, all)

module _ {D : Type 0} where
  -- The first of the matches, the latest first, is the last match.
  data HeadsWith : Option D → List D → Type 0 where
    no_head : HeadsWith none []
    has_head : (d : D) (ds : List D) → HeadsWith (some d) (d ∷ ds)

  append-HeadsWith :
      (o o' : Option D) (xs ys : List D)
      → HeadsWith o xs
      → HeadsWith o' ys
      → HeadsWith (elim o [ some e ↦ some e | none ↦ o' ]) (xs ++ ys)
  append-HeadsWith _ o' _ ys no_head h = h
  append-HeadsWith _ o' _ ys (has_head d ds) h = has_head d (ds ++ ys)

  test-HeadsWith :
      (b : Bool) (d : D) → HeadsWith (if b then some d else none) (if b then d ∷ [] else [])
  test-HeadsWith true d = has_head d []
  test-HeadsWith false d = no_head

  find_newest-HeadsWith :
      (p : D → Bool) (ds : List D) → HeadsWith (find_last p ds) (find_newest p ds)
  unfolding find_last find_newest
  find_newest-HeadsWith p [] = no_head
  find_newest-HeadsWith p (d ∷ ds) =
      append-HeadsWith (find_last p ds) _ (find_newest p ds) _ (find_newest-HeadsWith p ds)
        (test-HeadsWith (p d) d)

module _ (rc : RepoCollection) (links : Collection UserRepo link_conflicts)
    (runs : RunCollection) where
  first_run-reported :
      (o : Option PipelineRun) (rs : List PipelineRun)
      → HeadsWith o rs
      → first_run rs ≡ reported o rs
  unfolding first_run reported
  first_run-reported _ _ no_head = refl
  first_run-reported _ _ (has_head r rs) = refl

  -- The run that a reader gets, with all attempts of the repository, is the one that the write paths
  -- act on; a reader gets 404 exactly when these find none.
  pub get_pipeline_with_attempts-reported :
      (repo_id : ℕ) (db : runs.Db)
      → get_pipeline_with_attempts rc links runs repo_id db
        ≡ reported
            (find_latest_pipeline_run rc links runs repo_id db)
            (get_pipeline_history rc links runs repo_id db)
  unfolding get_pipeline_with_attempts get_pipeline_history find_latest_pipeline_run
  get_pipeline_with_attempts-reported repo_id db =
      let p : PipelineRun → Bool = λ r. r.repo_id == repo_id in
      let h = find_newest-HeadsWith p (runs.docs db) in
      rw (runs.find_all-docs db p) (
        rw (runs.find_latest-docs db p)
          (first_run-reported (find_last p (runs.docs db)) (find_newest p (runs.docs db)) h))
