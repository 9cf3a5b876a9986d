-- ===== src/Versions/Stale.antt =====
-- `_is_behind` and `is_stale` of backend/app/repos/service.py.
use retro_doc.Prelude.{
  Text, text_eq, text_eq_refl, Bool, true, false, not, ◌&&◌, Option, none, some, ◌≡◌, refl, arith,
}

-- `Version` of the packaging library: a parameter. `parse` gives `none` for `InvalidVersion`, and the
-- order of versions is strict.
pub record Versioning : Type 1 where
  pub Version : Type 0
  pub parse : Text → Option Version
  pub is_less : Version → Version → Bool
  pub is_less-irreflexive : (v : Version) → is_less v v ≡ false
  pub is_less-asymmetric : (v w : Version) → is_less v w ≡ true → is_less w v ≡ false

-- The versions of a repository: the one it was asked for, and the one that ran.
pub record RepoVersions : Type 0 where
  pub analyzer_version : Text
  pub ran_analyzer_version : Option Text

module _ (versioning : Versioning) where
  open versioning use {Version, parse, is_less, is_less-irreflexive, is_less-asymmetric}

  unfoldable pub is_older : Option Version → Option Version → Text → Text → Bool
  unfolding text_eq
  is_older (some v) (some w) value current = is_less v w
  is_older (some v) none value current = not (text_eq value current)
  is_older none w value current = not (text_eq value current)

  unfoldable pub is_behind : Text → Text → Bool
  unfolding is_older
  is_behind value current = is_older (parse value) (parse current) value current

  unfoldable pub is_stale : RepoVersions → Text → Bool
  unfolding is_behind
  is_stale repo current =
      is_behind repo.analyzer_version current
      && elim repo.ran_analyzer_version [ some stamped ↦ is_behind stamped current | none ↦ true ]

  is_older_refl : (v : Option Version) (t : Text) → is_older v v t t ≡ false
  unfolding is_older
  is_older_refl none t = rw (text_eq_refl t) refl
  is_older_refl (some v) t = is_less-irreflexive v

  -- A version is not behind itself, whether or not it parses.
  pub is_behind_refl : (t : Text) → is_behind t t ≡ false
  unfolding is_behind
  is_behind_refl t = is_older_refl (parse t) t

  -- A repository is not stale when the worker's version is the one it was asked for or the one that
  -- ran, whether or not it parses.
  pub is_stale-current :
      (repo : RepoVersions) (current : Text)
      → (is_stale (record repo { analyzer_version = current }) current ≡ false)
        × (is_stale (record repo { ran_analyzer_version = some current }) current ≡ false)
  unfolding is_stale
  is_stale-current repo current =
      (rw (is_behind_refl current) refl, ground (arith, is_behind_refl current))

  -- With versions that parse, a repository is not stale when the worker has rolled back to a version
  -- before the one that the repository was asked for.
  pub is_stale-rolled_back :
      (repo : RepoVersions) (current : Text) (v w : Version)
      → parse repo.analyzer_version ≡ some v
      → parse current ≡ some w
      → is_less w v ≡ true
      → is_stale repo current ≡ false
  unfolding is_stale is_behind is_older
  is_stale-rolled_back repo current v w pv pw h = rw pv (rw pw (rw (is_less-asymmetric w v h) refl))
