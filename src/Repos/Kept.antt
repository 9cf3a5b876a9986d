-- ===== src/Repos/Kept.antt =====
-- The repositories as a list, which meets the laws: the theorems are applied to it at concrete
-- contents.
use retro_doc.Prelude.{Bool, some, List, [], ◌∷◌, ◌++◌, ◌≡◌, ap, Bool-cases, inl, inr, arith}
use mathlib.Core.Option.{some-injective}
use retro_doc.Mongo.{find}
use retro_doc.Mongo.Lists.{find-none, find-holds}
use retro_doc.Mongo.Kept.{kept}
use retro_doc.Repos.Model.{repo_conflicts, RepoCollection}

pub find-split :
    {D : Type 0} (p : D → Bool) (ds : List D) (d : D)
    → find p ds ≡ some d
    → (before : List D) × (after : List D) × (ds ≡ before ++ d ∷ after)
unfolding find
find-split p [] d h = absurd (ground (arith, h))
find-split p (x ∷ xs) d h =
    let r = find-split p xs d in
    elim (Bool-cases (p x)) [
      | inl c ↦ ([], xs, ap (λ y. y ∷ xs) (some-injective x d (rw c at h)))
      | inr c ↦ let (before, after, e) = r (rw c at h) in (x ∷ before, after, ap (λ ys. x ∷ ys) e)
    ]

-- Among several matches, the first one stored.
abbrev pub kept_repos : RepoCollection
kept_repos = record {
  collection = kept repo_conflicts;
  first_sorted = λ db p key. find p db;
  first_sorted-none = λ db p key h. find-none p db h;
  first_sorted-some = λ db p key d h.
      let (before, after, e) = find-split p db d h in (find-holds p db d h, before, after, e);
}
