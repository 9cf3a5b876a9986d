-- ===== src/Repos/Found.antt =====
-- What the lookup of a live repository finds.
use retro_doc.Prelude.{
  ℕ, Text, text_eq_refl, Bool, true, false, none, some, List, [], ◌∷◌, ◌++◌, ◌≡◌, ◌∙◌, sym, ap,
  refl, ◌≢◌, Option-cases, inl, inr, arith,
}
use retro_doc.Mongo.{any}
use retro_doc.Links.Model.{is_positive}
use retro_doc.Repos.Model.{RepoDocument, RepoCollection, is_text, is_at_version, is_live_git}
use retro_doc.Repos.Create.{new_repo}

module _ {D : Type 0} (p : D → Bool) where
  pub any-middle :
      (before : List D) (d : D) (after : List D) → p d ≡ true → any p (before ++ d ∷ after) ≡ true
  unfolding any
  any-middle [] d after h = ground (arith, h)
  any-middle (b ∷ bs) d after h = ground (arith, any-middle bs d after h)

  append_some : (before : List D) (d : D) (after : List D) → [] ≢ (before ++ d ∷ after)
  append_some [] d after h = cc
  append_some (b ∷ bs) d after h = cc

  -- A document that meets the test, which the earlier ones do not, is the last one.
  pub met_last :
      (earlier : List D) (n : D) (before : List D) (d : D) (after : List D)
      → earlier ++ n ∷ [] ≡ before ++ d ∷ after
      → any p earlier ≡ false
      → p d ≡ true
      → d ≡ n
  unfolding any
  met_last [] n [] d after e h m = cc
  met_last [] n (b ∷ bs) d after e h m = absurd (append_some bs d after (cc))
  met_last (x ∷ xs) n [] d after e h m =
      let same : x ≡ d = cc in absurd (ground (arith, h, m, ap p same))
  met_last (x ∷ xs) n (b ∷ bs) d after e h m = met_last xs n bs d after (cc) (ground (arith, h)) m

-- A new repository is live at its version.
pub new_repo-is_live_git :
    (url commit v path : Text) (languages : List Text) (id : ℕ)
    → is_live_git url commit v (new_repo url (some commit) v path languages id) ≡ true
unfolding is_live_git is_at_version is_positive is_text new_repo
new_repo-is_live_git url commit v path languages id =
    rw (text_eq_refl url) (rw (text_eq_refl commit) (rw (text_eq_refl v) refl))

module _ (rc : RepoCollection) where
  pub first_sorted_none :
      (db : rc.collection.Db) (p : RepoDocument → Bool) (key : RepoDocument → Text)
      → any p (rc.collection.docs db) ≡ false
      → rc.first_sorted db p key ≡ none
  first_sorted_none db p key h = elim (Option-cases (rc.first_sorted db p key)) [
    | inl e ↦ e
    | inr (d, e) ↦
        let (m, before, after, docs) = rc.first_sorted-some db p key d e in
        absurd (ground (arith, h, ap (any p) docs, any-middle p before d after m))
  ]

  pub first_sorted_last :
      (db : rc.collection.Db) (p : RepoDocument → Bool) (key : RepoDocument → Text)
      (earlier : List RepoDocument) (n : RepoDocument)
      → rc.collection.docs db ≡ earlier ++ n ∷ []
      → any p earlier ≡ false
      → p n ≡ true
      → rc.first_sorted db p key ≡ some n
  first_sorted_last db p key earlier n docs h m = elim (Option-cases (rc.first_sorted db p key)) [
    | inl e ↦ absurd (
        ground
          (arith, rc.first_sorted-none db p key e, ap (any p) docs, any-middle p earlier n [] m))
    | inr (d, e) ↦
        let (m', before, after, docs') = rc.first_sorted-some db p key d e in
        e ∙ ap some (met_last p earlier n before d after (sym docs ∙ docs') h m')
  ]
