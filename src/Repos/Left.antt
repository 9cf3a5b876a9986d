-- ===== src/Repos/Left.antt =====
-- That the attempt to create a repository leaves the others at the versions they have.
use retro_doc.Prelude.{
  ℕ, ◌==◌, Text, false, Option, [], ◌∷◌, ◌≡◌, sym, subst, ok, err, Result, Option-cases, inl, inr,
  All, All-append, Bool-cases, Result-cases, arith,
}
use retro_doc.Action.{go_on}
use retro_doc.Mongo.{Collection, any}
use retro_doc.Runs.Model.{Answer, RunCollection, PipelineRun}
use retro_doc.Runs.Dispatch.{Payload, Outcome}
use retro_doc.Versions.Stale.{Versioning}
use retro_doc.Repos.Model.{
  RepoDocument, UserRepo, link_conflicts, RepoCollection, State, Error, repo_conflicts,
}
use retro_doc.Repos.Create.{
  Holder, Fresh, after_dispatch, insert_repo, insert_user_repo, insert_run, start_new_analysis,
}
use retro_doc.Repos.Moved.{IsLeft}

module _ (rc : RepoCollection) (links : Collection UserRepo link_conflicts) (runs : RunCollection)
    (worker : Payload → Answer) (versioning : Versioning) (v : Text) (id : ℕ) where
  abbrev pub St : Type 0
  St = State rc links runs

  abbrev pub AllLeft : St → Type 0
  AllLeft s = All (IsLeft versioning v id) (rc.collection.docs s.repos)

  go_on-keeps :
      {A B : Type 0} (P : St → Type 0) (m : Result Error A × St) (f : A → St → Result Error B × St)
      → P m.1
      → ((a : A) (s : St) → P s → P (f a s).1)
      → P (go_on m f).1
  unfolding go_on
  go_on-keeps P (ok a, s) f w k = k a s w
  go_on-keeps P (err e, s) f w k = w

  insert_repo-left :
      (d : RepoDocument) (s : St)
      → (d.id == id) ≡ false
      → AllLeft s
      → AllLeft (insert_repo rc links runs worker d s).1
  unfolding insert_repo
  insert_repo-left d s other w =
      elim (Bool-cases (any (repo_conflicts d) (rc.collection.docs s.repos))) [
        | inl c ↦ rw (rc.collection.insert-conflict s.repos d c, insert_repo) w
        | inr c ↦
            let (db, e, docs) = rc.collection.insert-free s.repos d c in
            rw (e, insert_repo)
              (subst (All (IsLeft versioning v id)) (sym docs) (
                All-append (IsLeft versioning v id) (rc.collection.docs s.repos) (d ∷ []) w
                  ((λ k. absurd (ground (arith, k, other))), tt)))
      ]

  insert_user_repo-left :
      (l : UserRepo) (s : St) → AllLeft s → AllLeft (insert_user_repo rc links runs worker l s).1
  unfolding insert_user_repo
  insert_user_repo-left l s w = elim (Option-cases (links.insert s.user_repos l)) [
    | inl e ↦ rw (e, insert_user_repo) w
    | inr (db, e) ↦ rw (e, insert_user_repo) w
  ]

  insert_run-left :
      (r : PipelineRun) (s : St) → AllLeft s → AllLeft (insert_run rc links runs worker r s).1
  unfolding insert_run
  insert_run-left r s w = elim (Option-cases (runs.insert s.pipeline_runs r)) [
    | inl e ↦ rw (e, insert_run) w
    | inr (db, e) ↦ rw (e, insert_run) w
  ]

  after_dispatch-left :
      {A : Type 0} (o : Outcome runs worker A) (s : St)
      → AllLeft s
      → AllLeft (after_dispatch rc links runs worker o s).1
  unfolding after_dispatch
  after_dispatch-left o s w = elim (Result-cases o.result) [
    | inl (a, e) ↦ rw (e, after_dispatch) w
    | inr (x, e) ↦ rw (e, after_dispatch) w
  ]

  pub start_new_analysis-left :
      (d : RepoDocument) (h : Holder) (token ref : Option Text) (fresh : Fresh) (s : St)
      → (d.id == id) ≡ false
      → AllLeft s
      → AllLeft (start_new_analysis rc links runs worker d h token ref fresh s).1
  unfolding start_new_analysis
  start_new_analysis-left d h token ref fresh s other w =
      go_on-keeps AllLeft _ _ (insert_repo-left d s other w) (λ a s1 w1.
        go_on-keeps AllLeft _ _ (insert_user_repo-left _ s1 w1) (λ a s2 w2.
          go_on-keeps AllLeft _ _ (insert_run-left _ s2 w2)
            (λ a s3 w3. after_dispatch-left _ s3 w3)))
