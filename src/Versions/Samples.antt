-- ===== src/Versions/Samples.antt =====
-- The theorems on versions at concrete values: the versions are numbers in unary, `I`, `II` and so on.
use retro_doc.Prelude.{
  ℕ, ltb, text, length, is_empty, true, false, none, some, [], ◌∷◌, ◌≡◌, All, refl, arith,
  if◌then◌else◌,
}
use retro_doc.Versions.Cache.{
  VersionCache, Read, get_analyzer_version, reads, get_analyzer_version-outage,
  get_analyzer_version-fresh,
}
use retro_doc.Versions.Stale.{
  Versioning, RepoVersions, is_stale, is_stale-current, is_stale-rolled_back,
}

abbrev unary : Versioning
unary = record {
  Version = ℕ;
  parse = λ t. if is_empty t then none else some (length t);
  is_less = ltb;
  is_less-irreflexive = λ v. ground arith;
  is_less-asymmetric = λ v w h. ground (arith, h);
}

abbrev stamped : RepoVersions
stamped = record { analyzer_version = text "III"; ran_analyzer_version = some (text "II") }

abbrev empty_cache : VersionCache
empty_cache = record { version = none; expires_at = 0; retry_after = 0 }

abbrev at_time : ℕ → Read
at_time now = record { now = now; meanwhile = λ c. c; answer = some (text "II"); answered_at = now }

get_analyzer_version-outage_example :
    let after =
      reads 60 5
        (at_time 101 ∷ at_time 104 ∷ [])
        (get_analyzer_version 60 5 none 100 empty_cache).1 in
    (after.1 ≡ 0) × All (λ x. x ≡ none) after.0
get_analyzer_version-outage_example =
    get_analyzer_version-outage 60 5 100 empty_cache (at_time 101 ∷ at_time 104 ∷ [])
      ((omega arith, omega arith), ((omega arith, omega arith), tt))

get_analyzer_version-fresh_example :
    let after =
      reads 60 5
        (at_time 101 ∷ at_time 159 ∷ [])
        (get_analyzer_version 60 5 (some (text "I")) 100 empty_cache).1 in
    (after.1 ≡ 0) × All (λ x. x ≡ some (text "I")) after.0
get_analyzer_version-fresh_example =
    get_analyzer_version-fresh 60 5 (text "I") 100 empty_cache (at_time 101 ∷ at_time 159 ∷ [])
      (omega arith, (omega arith, tt))

-- A read after the failure's time asks the worker again.
after_outage :
    (reads 60 5 (at_time 104 ∷ at_time 105 ∷ []) (get_analyzer_version 60 5 none 100 empty_cache).1)
    ≡ (none ∷ some (text "II") ∷ [], 1)
unfolding reads get_analyzer_version
after_outage = refl

is_stale-current_example :
    (is_stale unary (record stamped { analyzer_version = text "III" }) (text "III") ≡ false)
    × (is_stale unary (record stamped { ran_analyzer_version = some (text "III") }) (text "III")
        ≡ false)
is_stale-current_example = is_stale-current unary stamped (text "III")

is_stale-rolled_back_example : is_stale unary stamped (text "II") ≡ false
is_stale-rolled_back_example = is_stale-rolled_back unary stamped (text "II") 3 2 refl refl refl

-- The worker has moved on from both versions.
moved_on : is_stale unary stamped (text "IIII") ≡ true
unfolding is_stale
moved_on = refl
