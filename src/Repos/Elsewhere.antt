-- ===== src/Repos/Elsewhere.antt =====
-- Where a relaunch at a newer version leads.
use retro_doc.Prelude.{
  ℕ, ◌==◌, Text, Bool, true, false, Option, none, some, ◌≡◌, ◌∙◌, sym, subst, refl, ok, err, Result,
  Option-cases, inl, inr, All, arith,
}
use retro_doc.Mongo.{Collection}
use retro_doc.Mongo.Lists.{find-holds}
use retro_doc.Runs.Model.{Answer, RunCollection, PipelineStatus, pending}
use retro_doc.Runs.Dispatch.{Payload}
use retro_doc.Versions.Stale.{Versioning, is_stale}
use retro_doc.Git.Resolve.{UrlParts}
use retro_doc.Repos.Model.{
  RepoDocument, UserRepo, link_conflicts, RepoCollection, State, Error, duplicate_key, is_live_git,
  is_live_git_key, is_live_zip, is_live_zip_key, find_live_git_repo, find_live_git_repo_by_key,
  find_live_zip_repo, find_live_zip_repo_by_key,
}
use retro_doc.Repos.Create.{Holder, Fresh, new_repo, start_new_analysis}
use retro_doc.Repos.Relaunch.{
  versions_of, join_or_raise, find_existing, find_winner, created_new, source_path, moved,
  relaunch_at_new_version,
}
use retro_doc.Repos.Moved.{
  find-All, All-middle, IsLeft, IsLeft-other, analyzer_version-stale, is_at_version-stale,
  join_analysis-id, id_told,
}
use retro_doc.Repos.Left.{AllLeft, start_new_analysis-left}

module _ (rc : RepoCollection) (links : Collection UserRepo link_conflicts) (runs : RunCollection)
    (worker : Payload → Answer) (versioning : Versioning) (v : Text) (id : ℕ) where
  first_sorted-other :
      (s : State rc links runs) (p : RepoDocument → Bool) (key : RepoDocument → Text)
      (d : RepoDocument)
      → ((e : RepoDocument) → p e ≡ true → is_stale versioning (versions_of e) v ≡ false)
      → AllLeft rc links runs worker versioning v id s
      → rc.first_sorted s.repos p key ≡ some d
      → (d.id == id) ≡ false
  first_sorted-other s p key d at_version w h =
      let (m, before, after, docs) = rc.first_sorted-some s.repos p key d h in
      IsLeft-other versioning v id d
        (All-middle (IsLeft versioning v id) before d after
          (subst (All (IsLeft versioning v id)) docs w))
        (at_version d m)

  find_one-other :
      (s : State rc links runs) (p : RepoDocument → Bool) (d : RepoDocument)
      → ((e : RepoDocument) → p e ≡ true → is_stale versioning (versions_of e) v ≡ false)
      → AllLeft rc links runs worker versioning v id s
      → rc.collection.find_one s.repos p ≡ some d
      → (d.id == id) ≡ false
  find_one-other s p d at_version w h =
      let found = sym (rc.collection.find_one-docs s.repos p) ∙ h in
      IsLeft-other versioning v id d
        (find-All (IsLeft versioning v id) p (rc.collection.docs s.repos) d found w)
        (at_version d (find-holds p (rc.collection.docs s.repos) d found))

  pub find_existing-other :
      (commit : Option Text) (url path : Text) (d : RepoDocument) (s : State rc links runs)
      → AllLeft rc links runs worker versioning v id s
      → find_existing rc links runs worker commit url path v s ≡ some d
      → (d.id == id) ≡ false
  unfolding find_existing find_live_git_repo find_live_zip_repo is_live_git is_live_zip
  find_existing-other none url path d s w h =
      first_sorted-other s (is_live_zip path v) (λ e. e.analyzer_version) d
        (λ e m. is_at_version-stale versioning v e (ground (arith, m))) w h
  find_existing-other (some commit) url path d s w h =
      first_sorted-other s (is_live_git url commit v) (λ e. e.analyzer_version) d
        (λ e m. is_at_version-stale versioning v e (ground (arith, m))) w h

  find_winner-other :
      (commit : Option Text) (url path : Text) (d : RepoDocument) (s : State rc links runs)
      → AllLeft rc links runs worker versioning v id s
      → find_winner rc links runs worker commit url path v s ≡ some d
      → (d.id == id) ≡ false
  unfolding find_winner find_live_git_repo_by_key find_live_zip_repo_by_key is_live_git_key
      is_live_zip_key
  find_winner-other none url path d s w h =
      find_one-other s (is_live_zip_key path v) d
        (λ e m. analyzer_version-stale versioning v e (ground (arith, m))) w h
  find_winner-other (some commit) url path d s w h =
      find_one-other s (is_live_git_key url commit v) d
        (λ e m. analyzer_version-stale versioning v e (ground (arith, m))) w h

  join_or_raise-other :
      (o : Option RepoDocument) (h : Holder) (token ref : Option Text) (fresh : Fresh)
      (s : State rc links runs) (n : ℕ) (status : PipelineStatus)
      → ((d : RepoDocument) → o ≡ some d → (d.id == id) ≡ false)
      → (join_or_raise rc links runs worker o h token ref fresh s).0 ≡ ok (n, status)
      → (n == id) ≡ false
  unfolding join_or_raise
  join_or_raise-other none h token ref fresh s n status other e = absurd (ground (arith, e))
  join_or_raise-other (some d) h token ref fresh s n status other e =
      subst (λ x. (x == id) ≡ false)
        (sym (join_analysis-id rc links runs worker d h token ref fresh s n status e))
        (other d refl)

  created_new-other :
      (m : Result Error (Unit {0}) × State rc links runs) (d : RepoDocument) (h : Holder)
      (token ref : Option Text) (fresh : Fresh) (n : ℕ) (status : PipelineStatus)
      → d.analyzer_version ≡ v
      → (d.id == id) ≡ false
      → AllLeft rc links runs worker versioning v id m.1
      → (created_new rc links runs worker m d h token ref fresh).0 ≡ ok (n, status)
      → (n == id) ≡ false
  unfolding created_new
  created_new-other (ok _, s) d h token ref fresh n status at_v other w e =
      subst (λ x. (x == id) ≡ false) (sym (id_told d.id n pending status e)) other
  created_new-other (err duplicate_key, s) d h token ref fresh n status at_v other w e =
      join_or_raise-other _ h token ref fresh s n status
        (λ x k. find_winner-other d.repo_hash d.repo_url d.blob_path x s w (
          subst
            (λ t. find_winner rc links runs worker d.repo_hash d.repo_url d.blob_path t s ≡ some x)
            at_v k))
        e
  created_new-other (err _, s) d h token ref fresh n status at_v other w e =
      absurd (ground (arith, e))

module _ (rc : RepoCollection) (links : Collection UserRepo link_conflicts) (runs : RunCollection)
    (worker : Payload → Answer) (versioning : Versioning) (parse_url : Text → UrlParts)
    (sha256_hex : Text → Text) (meanwhile : State rc links runs → State rc links runs) where
  -- A relaunch at a newer version, of a repository whose stored document is stale at that version,
  -- both when the lookup is made and after others have written, while the identity of a new one is
  -- not its own: whatever it answers with, joined or created, is another repository.
  pub relaunch_at_new_version-other :
      (repo : RepoDocument) (v : Text) (h : Holder) (token ref : Option Text) (fresh : Fresh)
      (s : State rc links runs) (n : ℕ) (status : PipelineStatus)
      → (fresh.repo_id == repo.id) ≡ false
      → All (IsLeft versioning v repo.id) (rc.collection.docs s.repos)
      → All (IsLeft versioning v repo.id) (rc.collection.docs (meanwhile s).repos)
      → (relaunch_at_new_version rc links runs worker parse_url sha256_hex meanwhile repo v h token
          ref fresh s).0
        ≡ ok (n, status)
      → (n == repo.id) ≡ false
  unfolding relaunch_at_new_version moved join_or_raise new_repo
  relaunch_at_new_version-other repo v h token ref fresh s n status new w w' e =
      let path = source_path rc links runs worker parse_url sha256_hex meanwhile repo in
      let d = new_repo repo.repo_url repo.repo_hash v path repo.languages fresh.repo_id in
      elim (Option-cases
        (find_existing rc links runs worker repo.repo_hash repo.repo_url path v s)) [
          | inl k ↦
              created_new-other rc links runs worker versioning v repo.id
                (start_new_analysis rc links runs worker d h token ref fresh (meanwhile s)) d h
                token ref fresh n status refl new
                (start_new_analysis-left rc links runs worker versioning v repo.id d h token ref
                  fresh (meanwhile s) new w')
                (rw (k, moved) at e)
          | inr (x, k) ↦
              join_or_raise-other rc links runs worker versioning v repo.id (some x) h token ref
                fresh s n status
                (λ y q.
                  find_existing-other rc links runs worker versioning v repo.id repo.repo_hash
                    repo.repo_url path y s w (k ∙ q))
                (rw (k, moved) at e)
        ]
