-- ===== src/Repos/Moved.antt =====
-- Which repository a join answers with, and which repositories are at the worker's version.
use retro_doc.Prelude.{
  ℕ, ◌==◌, Text, text_eq, text_eq_sound, Bool, true, false, Option, none, some, List, [], ◌∷◌, ◌++◌,
  ◌≡◌, ◌∙◌, sym, ap, subst, refl, ok, err, Result, ok_injective, Result-cases, Bool-cases,
  Option-cases, inl, inr, All, arith,
}
use mathlib.Core.Option.{some-injective}
use retro_doc.Action.{go_on}
use retro_doc.Mongo.{Collection, find}
use retro_doc.Runs.Model.{
  Answer, RunCollection, PipelineStatus, pending, running, completed, failed, PipelineRun,
}
use retro_doc.Runs.Dispatch.{
  Payload, Repo, Outcome, report, retry_claimed, retry_failed_run, stamp_retried, dispatch_run,
}
use retro_doc.Versions.Stale.{Versioning, is_behind, is_stale, is_behind_refl}
use retro_doc.Repos.Model.{
  RepoDocument, UserRepo, link_conflicts, RepoCollection, State, is_text, is_at_version,
}
use retro_doc.Repos.Create.{
  Holder, Fresh, source_of, after_dispatch, acquire_repo_link, join_latest, join_analysis,
}
use retro_doc.Repos.Relaunch.{versions_of}

pub go_on-ok :
    {S E A B : Type 0} (m : Result E A × S) (f : A → S → Result E B × S) (b : B)
    → (go_on m f).0 ≡ ok b
    → (a : A) × (m.0 ≡ ok a) × ((f a m.1).0 ≡ ok b)
unfolding go_on
go_on-ok (ok a, s) f b h = (a, refl, h)
go_on-ok (err e, s) f b h = absurd (ground (arith, h))

pub find-All :
    {D : Type 0} (P : D → Type 0) (p : D → Bool) (ds : List D) (d : D)
    → find p ds ≡ some d
    → All P ds
    → P d
unfolding find
find-All P p [] d h w = absurd (ground (arith, h))
find-All P p (x ∷ xs) d h w =
    let r = find-All P p xs d in
    elim (Bool-cases (p x)) [
      | inl c ↦ subst P (some-injective _ _ (rw c at h)) w.0
      | inr c ↦ r (rw c at h) w.1
    ]

pub All-middle :
    {D : Type 0} (P : D → Type 0) (before : List D) (d : D) (after : List D)
    → All P (before ++ d ∷ after)
    → P d
All-middle P [] d after w = w.0
All-middle P (b ∷ bs) d after w = All-middle P bs d after w.1

module _ (versioning : Versioning) where
  pub analyzer_version-stale :
      (v : Text) (d : RepoDocument)
      → text_eq d.analyzer_version v ≡ true
      → is_stale versioning (versions_of d) v ≡ false
  unfolding is_stale versions_of
  analyzer_version-stale v d h =
      let e : is_behind versioning d.analyzer_version v ≡ false =
        ap (λ x. is_behind versioning x v) (text_eq_sound d.analyzer_version v h)
        ∙ is_behind_refl versioning v in
      rw e refl

  -- A repository whose output is at the worker's version is not stale.
  pub is_at_version-stale :
      (v : Text) (d : RepoDocument)
      → is_at_version v d ≡ true
      → is_stale versioning (versions_of d) v ≡ false
  unfolding is_at_version is_stale versions_of is_text
  is_at_version-stale v d h = elim (Option-cases d.ran_analyzer_version) [
    | inl e ↦ analyzer_version-stale v d (ground (arith, rw (e, is_at_version) at h))
    | inr (w, e) ↦
        let same = text_eq_sound w v (ground (arith, rw (e, is_at_version) at h)) in
        let k : is_behind versioning w v ≡ false =
          ap (λ x. is_behind versioning x v) same ∙ is_behind_refl versioning v in
        rw (e, is_stale) (ground (arith, k))
  ]

-- Nothing that is stored under this identity is at the worker's version.
abbrev pub IsLeft : Versioning → Text → ℕ → RepoDocument → Type 0
IsLeft versioning v id d = (d.id == id) ≡ true → is_stale versioning (versions_of d) v ≡ true

pub IsLeft-other :
    (versioning : Versioning) (v : Text) (id : ℕ) (d : RepoDocument)
    → IsLeft versioning v id d
    → is_stale versioning (versions_of d) v ≡ false
    → (d.id == id) ≡ false
IsLeft-other versioning v id d w h = elim (Bool-cases (d.id == id)) [
  | inl e ↦ absurd (ground (arith, w e, h))
  | inr e ↦ e
]

pub id_told :
    {E : Type 0} (m n : ℕ) (st st' : PipelineStatus)
    → let told : ℕ × PipelineStatus → Result E (ℕ × PipelineStatus) = ok in
      told (m, st) ≡ told (n, st') → n ≡ m
id_told m n st st' h = ap (λ (x : ℕ × PipelineStatus). x.0) (sym (ok_injective (m, st) (n, st') h))

module _ (rc : RepoCollection) (links : Collection UserRepo link_conflicts) (runs : RunCollection)
    (worker : Payload → Answer) where
  abbrev pub St : Type 0
  St = State rc links runs

  report-id :
      (n : ℕ) (o : Outcome runs worker (Unit {0})) (id : ℕ) (status : PipelineStatus)
      → (report runs worker n o).result ≡ ok (id, status)
      → id ≡ n
  unfolding report
  report-id n o id status h = elim (Result-cases o.result) [
    | inl (a, e) ↦ id_told n id pending status (rw (e, report) at h)
    | inr (e', e) ↦ absurd (ground (arith, rw (e, report) at h))
  ]

  retry_claimed-id :
      (c : Option PipelineRun × runs.Db) (repo : Repo) (run : PipelineRun) (token ref : Option Text)
      (now : ℕ) (id : ℕ) (status : PipelineStatus)
      → (retry_claimed runs worker c repo run token ref now).result ≡ ok (id, status)
      → id ≡ repo.id
  unfolding retry_claimed
  retry_claimed-id (none, db) repo run token ref now id status h =
      id_told repo.id id pending status h
  retry_claimed-id (some retry, db) repo run token ref now id status h =
      elim (Option-cases (stamp_retried runs worker run now db)) [
        | inl e ↦ absurd (ground (arith, rw (e, retry_claimed) at h))
        | inr (db', e) ↦
            report-id repo.id (dispatch_run runs worker repo retry token ref now db') id status
              (rw (e, retry_claimed) at h)
      ]

  after_dispatch-ok :
      {A : Type 0} (o : Outcome runs worker A) (s : St) (a : A)
      → (after_dispatch rc links runs worker o s).0 ≡ ok a
      → o.result ≡ ok a
  unfolding after_dispatch
  after_dispatch-ok o s a h = elim (Result-cases o.result) [
    | inl (b, e) ↦ e ∙ ap ok (ok_injective b a (rw (e, after_dispatch) at h))
    | inr (e', e) ↦ absurd (ground (arith, rw (e, after_dispatch) at h))
  ]

  join_latest-id :
      (o : Option PipelineRun) (d : RepoDocument) (token ref : Option Text) (fresh : Fresh) (s : St)
      (id : ℕ) (status : PipelineStatus)
      → (join_latest rc links runs worker o d token ref fresh s).0 ≡ ok (id, status)
      → id ≡ d.id
  unfolding join_latest retry_failed_run source_of
  join_latest-id none d token ref fresh s id status h = id_told d.id id pending status h
  join_latest-id (some run) d token ref fresh s id status h =
      elim run.status as (λ x. run.status ≡ x → id ≡ d.id) [
        | failed ↦ λ e.
            retry_claimed-id _ (source_of d) run token ref fresh.now id status
              (after_dispatch-ok _ s (id, status) (rw (e, join_latest) at h))
        | pending ↦ λ e. id_told d.id id pending status (rw (e, join_latest) at h)
        | running ↦ λ e. id_told d.id id running status (rw (e, join_latest) at h)
        | completed ↦ λ e. id_told d.id id completed status (rw (e, join_latest) at h)
      ]
        refl

  pub join_analysis-id :
      (d : RepoDocument) (h : Holder) (token ref : Option Text) (fresh : Fresh) (s : St) (id : ℕ)
      (status : PipelineStatus)
      → (join_analysis rc links runs worker d h token ref fresh s).0 ≡ ok (id, status)
      → id ≡ d.id
  unfolding join_analysis
  join_analysis-id d h token ref fresh s id status k =
      let (a, e, q) = go_on-ok (acquire_repo_link rc links runs worker d.id h s) _ (id, status) k in
      join_latest-id _ d token ref fresh _ id status q
