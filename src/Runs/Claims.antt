-- ===== src/Runs/Claims.antt =====
-- What the claim of a run, its dispatch and its retry guarantee.
use retro_doc.Prelude.{
  ℕ, ◌==◌, Bool, true, false, ◌&&◌, ◌||◌, none, some, is_some, List, [], ◌∷◌, ◌++◌, ◌≡◌, ◌∙◌, sym,
  subst, ap, refl, Bool-cases, inl, inr, arith,
}
use retro_doc.Mongo.{any, find, modify_first}
use retro_doc.Mongo.Lists.{any-append}
use retro_doc.Runs.Model.{
  PipelineMeta, PipelineRun, RunCollection, is_live, run_conflicts, new_run, fail_run, Answer,
}
use retro_doc.Runs.Dispatch.{Payload, claim_next_run}

-- Whether a run with this identity is among the documents.
abbrev pub has_id : ℕ → PipelineRun → Bool
has_id id r = r.id == id

-- Whether the unique index refuses a new run of the repository.
unfoldable pub is_held : ℕ → List PipelineRun → Bool
unfolding any run_conflicts is_live
is_held repo_id ds = any (λ r. repo_id == r.repo_id && is_live r.status) ds

is_held-new_run :
    (repo_id id now : ℕ) (ds : List PipelineRun)
    → any (run_conflicts (new_run id repo_id now)) ds ≡ is_held repo_id ds
unfolding is_held run_conflicts is_live new_run
is_held-new_run repo_id id now ds = refl

pub is_held-append :
    (repo_id : ℕ) (xs ys : List PipelineRun)
    → is_held repo_id (xs ++ ys) ≡ (is_held repo_id xs || is_held repo_id ys)
unfolding is_held
is_held-append repo_id xs ys = any-append _ xs ys

module _ (runs : RunCollection) (worker : Payload → Answer) where
  -- A claim of a repository that is not held inserts its run behind the others.
  pub claim_next_run-free :
      (repo_id id now : ℕ) (db : runs.Db)
      → is_held repo_id (runs.docs db) ≡ false
      → (db' : runs.Db) × (claim_next_run runs worker repo_id id now db
          ≡ (some (new_run id repo_id now), db'))
        × (runs.docs db' ≡ runs.docs db ++ new_run id repo_id now ∷ [])
  unfolding claim_next_run
  claim_next_run-free repo_id id now db h =
      let (db', e, docs) =
        runs.insert-free db (new_run id repo_id now)
          (is_held-new_run repo_id id now (runs.docs db) ∙ h) in
      (db', rw (e, claim_next_run) refl, docs)

  pub claim_next_run-held :
      (repo_id id now : ℕ) (db : runs.Db)
      → is_held repo_id (runs.docs db) ≡ true
      → claim_next_run runs worker repo_id id now db ≡ (none, db)
  unfolding claim_next_run
  claim_next_run-held repo_id id now db h =
      rw
        (
          runs.insert-conflict db (new_run id repo_id now)
              (is_held-new_run repo_id id now (runs.docs db) ∙ h),
          claim_next_run,
        )
        refl

  pub is_held-claimed :
      (repo_id id now : ℕ) (db db' : runs.Db)
      → runs.docs db' ≡ runs.docs db ++ new_run id repo_id now ∷ []
      → is_held repo_id (runs.docs db') ≡ true
  unfolding new_run is_held is_live
  is_held-claimed repo_id id now db db' e =
      ap (is_held repo_id) e ∙ (is_held-append repo_id (runs.docs db) _ ∙ ground (arith))

  -- Once a claim of a repository has succeeded, whatever other claim of it follows at once is
  -- refused and writes nothing.
  pub claim_next_run-exclusive :
      (repo_id id id' now now' : ℕ) (db db' : runs.Db) (r : PipelineRun)
      → claim_next_run runs worker repo_id id now db ≡ (some r, db')
      → claim_next_run runs worker repo_id id' now' db' ≡ (none, db')
  claim_next_run-exclusive repo_id id id' now now' db db' r h =
      elim (Bool-cases (is_held repo_id (runs.docs db))) [
        | inl held ↦
            absurd
              (ground (arith, ap (λ c. c.0) (sym h ∙ claim_next_run-held repo_id id now db held)))
        | inr free ↦
            let (db1, e, docs) = claim_next_run-free repo_id id now db free in
            let same : db1 ≡ db' = ap (λ c. c.1) (sym e ∙ h) in
            claim_next_run-held repo_id id' now' db' (
              subst (λ x. is_held repo_id (runs.docs x) ≡ true) same
                (is_held-claimed repo_id id now db db1 docs))
      ]

module _ (runs : RunCollection) where
  -- A run that is failed conflicts with nothing.
  pub update_one-failed :
      (db : runs.Db) (p : PipelineRun → Bool) (now : ℕ) (meta : PipelineMeta)
      → (db' : runs.Db) × (runs.update_one db p (fail_run now meta)
          ≡ some (db', is_some (find p (runs.docs db))))
        × (runs.docs db' ≡ modify_first p (fail_run now meta) (runs.docs db))
  unfolding run_conflicts fail_run is_live
  update_one-failed db p now meta =
      runs.update_one-docs db p (fail_run now meta) (λ d e _. lowers d e)
    where
      lowers :
          (d e : PipelineRun)
          → run_conflicts e (fail_run now meta d) ≡ true
          → run_conflicts e d ≡ true
      lowers d e h = absurd (ground (arith, h))
