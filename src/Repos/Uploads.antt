-- ===== src/Repos/Uploads.antt =====
-- What an upload is stored under, and which requests are let through.
use retro_doc.Prelude.{
  ℕ, ◌-◌, leb, Text, text, text_eq, text_eq_refl, text_eq_sound, Bool, true, false, ◌||◌, Option,
  none, some, is_some, List, [], ◌∷◌, ◌++◌, ◌≡◌, ◌∙◌, sym, ap, subst, refl, ok, err, Result,
  append_assoc, length, length-append, take, drop, take-append, drop-append, take-drop, is_empty,
  Bool-cases, inl, inr, ok_injective, arith,
}
use retro_doc.Strings.{ends_with, without_suffix}
use retro_doc.Mongo.{Collection}
use retro_doc.Runs.Model.{Answer, RunCollection, pending, PipelineRun}
use retro_doc.Runs.Dispatch.{Payload, payload_of}
use retro_doc.Git.Resolve.{UrlParts}
use retro_doc.Git.Resolve
use retro_doc.Languages
use retro_doc.Languages.{validate_languages}
use retro_doc.Repos.Model.{UserRepo, link_conflicts, RepoCollection, State}
use retro_doc.Repos.Create.{Holder, Fresh, Created, new_repo, source_of}
use retro_doc.Repos.Upload.{
  require_zip, blob_name, zip_payload, uploaded_repo, CreateRequest, Upload, required_name,
  check_zip, analyze_file, checked_languages, reraised, create_zip, create_git, create_from,
  create_repo,
}
use retro_doc.Repos.Moved.{go_on-ok}

ends_with-append : (p t : Text) → ends_with p t ≡ true → take (length t - length p) t ++ p ≡ t
unfolding ends_with
ends_with-append p t h =
    ap (λ s. take (length t - length p) t ++ s) (sym (text_eq_sound _ p (ground (arith, h))))
    ∙ take-drop (length t - length p) t

without_suffix-append : (p u : Text) → without_suffix p (u ++ p) ≡ u
unfolding without_suffix ends_with
without_suffix-append p u =
    let n : length (u ++ p) - length p ≡ length u = omega (arith, length-append u p) in
    let long : leb (length p) (length (u ++ p)) ≡ true = ground (arith, length-append u p) in
    let rest : text_eq (drop (length (u ++ p) - length p) (u ++ p)) p ≡ true =
      ap (λ k. text_eq (drop k (u ++ p)) p) n
      ∙ (ap (λ s. text_eq s p) (drop-append u p) ∙ text_eq_refl p) in
    let ends : ends_with p (u ++ p) ≡ true = rw long rest in
    rw (ends, without_suffix) (ap (λ k. take k (u ++ p)) n ∙ take-append u p)

-- A path that ends in a file's name loses and gets back the suffix of the name.
suffix_kept :
    (p before t : Text) → ends_with p t ≡ true → without_suffix p (before ++ t) ++ p ≡ before ++ t
suffix_kept p before t h =
    let u = take (length t - length p) t in
    let e : before ++ t ≡ (before ++ u) ++ p =
      ap (λ s. before ++ s) (sym (ends_with-append p t h)) ∙ sym (append_assoc before u p) in
    ap (λ s. without_suffix p s ++ p) e
    ∙ (ap (λ s. s ++ p) (without_suffix-append p (before ++ u)) ∙ sym e)

require_zip-ok :
    (filename : Text) → require_zip filename ≡ ok tt → ends_with (text ".zip") filename ≡ true
unfolding require_zip
require_zip-ok filename h = elim (Bool-cases (ends_with (text ".zip") filename)) [
  | inl e ↦ e
  | inr e ↦ absurd (ground (arith, e, h))
]

-- The first request for an uploaded file with an accepted name, which is sent with the name of the
-- blob, is the one that a dispatch of its repository sends for the run, whatever the token and the
-- ref: a later attempt finds the same blob.
pub zip_payload-payload_of :
    (uid uuid filename v : Text) (languages : List Text) (id : ℕ) (run : PipelineRun)
    (token ref : Option Text)
    → require_zip filename ≡ ok tt
    → let blob = blob_name uid uuid filename in
      zip_payload blob languages run
      ≡ payload_of (source_of (uploaded_repo filename blob v languages id)) run token ref
unfolding require_zip zip_payload payload_of source_of uploaded_repo new_repo
zip_payload-payload_of uid uuid filename v languages id run token ref h =
    let zip = text ".zip" in
    let before = text "user/" ++ (uid ++ (text "/" ++ (uuid ++ text "/src/"))) in
    let e : before ++ filename ≡ blob_name uid uuid filename =
      ap (λ s. text "user/" ++ s)
        (append_assoc uid (text "/" ++ (uuid ++ text "/src/")) filename
          ∙ ap (λ s. uid ++ (text "/" ++ s)) (append_assoc uuid (text "/src/") filename)) in
    ap (λ blob. zip_payload blob languages run)
      (sym (
        subst (λ b. without_suffix zip b ++ zip ≡ b) e
          (suffix_kept zip before filename (require_zip-ok filename h))))

-- What the arguments of an accepted request are.
pub data Accepted (r : CreateRequest) (upload : Upload) (created : Created) : Type 0 where
  zip :
      (filename : Text)
      → r.has_file ≡ true
      → r.repo_url ≡ none
      → r.branch ≡ none
      → r.commit ≡ none
      → r.token ≡ none
      → r.filename ≡ some filename
      → ends_with (text ".zip") filename ≡ true
      → (validate_languages upload.ttl r.languages upload.first_call upload.second_call
          upload.languages_cache).0
        ≡ ok tt
      → created.1 ≡ (pending, false)
      → Accepted r upload created
  git :
      (url : Text)
      → r.has_file ≡ false
      → r.repo_url ≡ some url
      → r.languages ≡ []
      → Accepted r upload created

is_some-none : {A : Type 0} (o : Option A) → is_some o ≡ false → o ≡ none
is_some-none none h = refl
is_some-none (some a) h = absurd (ground (arith, h))

required_name-ok :
    (o : Option Text) (filename : Text) → required_name o ≡ ok filename → o ≡ some filename
unfolding required_name
required_name-ok none filename h = absurd (ground (arith, h))
required_name-ok (some s) filename h = elim (Bool-cases (is_empty s)) [
  | inl e ↦ absurd (ground (arith, rw e at h))
  | inr e ↦ ap some (ok_injective s filename (rw e at h))
]

check_zip-ok :
    (r : CreateRequest) (filename : Text)
    → check_zip r ≡ ok filename
    → (r.branch ≡ none) × (r.commit ≡ none) × (r.token ≡ none) × (r.filename ≡ some filename)
unfolding check_zip
check_zip-ok r filename h =
    elim (Bool-cases (is_some r.branch || (is_some r.commit || is_some r.token))) [
      | inl e ↦ absurd (ground (arith, rw (e, check_zip) at h))
      | inr e ↦ (
        is_some-none r.branch (ground (arith, e)),
        is_some-none r.commit (ground (arith, e)),
        is_some-none r.token (ground (arith, e)),
        required_name-ok r.filename filename (rw (e, check_zip) at h),
      )
    ]

reraised-ok : (v : Result Languages.Error (Unit {0})) (u : Unit {0}) → reraised v ≡ ok u → v ≡ ok tt
unfolding reraised
reraised-ok (ok _) u h = refl
reraised-ok (err e) u h = absurd (ground (arith, h))

module _ (rc : RepoCollection) (links : Collection UserRepo link_conflicts) (runs : RunCollection)
    (worker : Payload → Answer) where
  abbrev St : Type 0
  St = State rc links runs

  create_zip-ok :
      (r : CreateRequest) (h : Holder) (version : Option Text) (upload : Upload) (fresh : Fresh)
      (s : St) (created : Created)
      → (create_zip rc links runs worker r h version upload fresh s).0 ≡ ok created
      → (filename : Text) × (check_zip r ≡ ok filename)
        × ((validate_languages upload.ttl r.languages upload.first_call upload.second_call
              upload.languages_cache).0
            ≡ ok tt)
        × (ends_with (text ".zip") filename ≡ true)
        × (created.1 ≡ (pending, false))
  unfolding create_zip analyze_file checked_languages
  create_zip-ok r h version upload fresh s created e =
      let (filename, e1, k1) = go_on-ok (check_zip r, s) _ created e in
      let (u, e2, k2) =
        go_on-ok (reraised (checked_languages r.languages upload).0, s) _ created k1 in
      let (id, e3, k3) =
        go_on-ok (analyze_file rc links runs worker filename r.languages h version upload fresh s) _
          created k2 in
      let (u', e4, k4) = go_on-ok (require_zip filename, s) _ id e3 in
      (
        filename,
        e1,
        reraised-ok (checked_languages r.languages upload).0 u e2,
        require_zip-ok filename e4,
        ap (λ (x : Created). x.1) (sym (ok_injective (id, (pending, false)) created k3)),
      )

  module _ (parse_url : Text → UrlParts) (is_utf8 : Text → Bool) (sha256_hex : Text → Text)
      (meanwhile : St → St) where
    create_from-Accepted :
        (r : CreateRequest) (h : Holder) (answers : Text → List Resolve.Answer)
        (version : Option Text) (upload : Upload) (fresh : Fresh) (s : St) (created : Created)
        (url : Option Text) (has_file : Bool)
        → r.repo_url ≡ url
        → r.has_file ≡ has_file
        → (create_from rc links runs worker parse_url is_utf8 sha256_hex meanwhile url has_file r h
            answers version upload fresh s).0
          ≡ ok created
        → Accepted r upload created
    unfolding create_from create_git
    create_from-Accepted r h answers version upload fresh s created none true u f e =
        let (filename, checked, valid, suffix, status) =
          create_zip-ok r h version upload fresh s created e in
        let (b, c, t, n) = check_zip-ok r filename checked in
        zip filename f u b c t n suffix valid status
    create_from-Accepted r h answers version upload fresh s created (some url) false u f e =
        elim r.languages as (λ ls. r.languages ≡ ls → Accepted r upload created) [
          | [] ↦ λ l. git url f u l
          | l ∷ ls ↦ λ k. absurd (ground (arith, rw (k, create_git) at e))
        ]
          refl
    create_from-Accepted r h answers version upload fresh s created none false u f e =
        absurd (ground (arith, e))
    create_from-Accepted r h answers version upload fresh s created (some url) true u f e =
        absurd (ground (arith, e))

    -- A request to create a repository that succeeds has either a file, a name for it that ends in
    -- `.zip`, no URL, branch, commit or token and languages that `validate_languages` accepts, and
    -- is answered with PENDING and not as a join; or a URL, no file and no languages.
    pub create_repo-Accepted :
        (r : CreateRequest) (h : Holder) (answers : Text → List Resolve.Answer)
        (version : Option Text) (upload : Upload) (fresh : Fresh) (s : St) (created : Created)
        → (create_repo rc links runs worker parse_url is_utf8 sha256_hex meanwhile r h answers
            version upload fresh s).0
          ≡ ok created
        → Accepted r upload created
    unfolding create_repo
    create_repo-Accepted r h answers version upload fresh s created e =
        create_from-Accepted r h answers version upload fresh s created r.repo_url r.has_file refl
          refl e
