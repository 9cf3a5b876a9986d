-- ===== src/Languages.antt =====
-- backend/app/languages/service.py: the cached list of the languages that the worker supports, and the
-- check of a language filter. Times are seconds.
pub mod Verdict
mod Samples
use retro_doc.Prelude.{
  ℕ, ◌+◌, ltb, Text, text_eq, Bool, true, false, ◌&&◌, ◌||◌, not, Option, none, some, List, [], ◌∷◌,
  is_empty, Result, ok, err, if◌then◌else◌,
}
use retro_doc.Action.{Action, return, raise, ◌>>=◌, go_on}

-- `_languages_cache`
pub record LanguagesCache : Type 0 where
  pub languages : Option (List Text)
  pub expires_at : ℕ

pub data Error : Type 0 where
  bad_gateway unsupported : Error

-- A call: the time it starts, what others leave in the cache before it has the lock, and what the
-- worker would answer, `none` being an exception.
pub record Call : Type 0 where
  pub now : ℕ
  pub meanwhile : LanguagesCache → LanguagesCache
  pub answer : Option (List Text)

-- The cached list, where it may be used.
unfoldable pub cached : Bool → ℕ → LanguagesCache → Option (List Text)
cached force now c = if not force && ltb now c.expires_at then c.languages else none

unfoldable pub is_listed : Text → List Text → Bool
unfolding text_eq
is_listed l [] = false
is_listed l (s ∷ ss) = text_eq s l || is_listed l ss

-- `[language for language in languages if language not in supported]`
unfoldable pub invalid : List Text → List Text → List Text
unfolding is_listed
invalid [] supported = []
invalid (l ∷ ls) supported =
    let rest = invalid ls supported in if is_listed l supported then rest else l ∷ rest

module _ (ttl : ℕ) where
  unfoldable pub fetched : Option (List Text) → ℕ → Action LanguagesCache Error (List Text)
  fetched none now c = (err bad_gateway, c)
  fetched (some ls) now c = (ok ls, record { languages = some ls; expires_at = now + ttl })

  unfoldable pub after_lock : Option (List Text) → Call → Action LanguagesCache Error (List Text)
  unfolding fetched
  after_lock (some ls) call c = (ok ls, c)
  after_lock none call c = fetched call.answer call.now c

  unfoldable pub before_lock :
      Option (List Text) → Bool → Call → Action LanguagesCache Error (List Text)
  unfolding after_lock cached
  before_lock (some ls) force call c = (ok ls, c)
  before_lock none force call c =
      after_lock (cached force call.now (call.meanwhile c)) call (call.meanwhile c)

  unfoldable pub get_supported_languages : Bool → Call → Action LanguagesCache Error (List Text)
  unfolding before_lock cached
  get_supported_languages force call c = before_lock (cached force call.now c) force call c

  -- The error of languages that are left over.
  unfoldable pub refuse_invalid : List Text → List Text → Action LanguagesCache Error (Unit {0})
  unfolding invalid
  refuse_invalid languages supported c =
      if is_empty (invalid languages supported) then (ok tt, c) else (err unsupported, c)

  -- The list is refreshed once before an error.
  unfoldable pub check_invalid : Bool → List Text → Call → Action LanguagesCache Error (Unit {0})
  unfolding get_supported_languages refuse_invalid
  check_invalid true languages second c = (ok tt, c)
  check_invalid false languages second c =
      go_on (get_supported_languages true second c) (refuse_invalid languages)

  unfoldable pub validate_languages :
      List Text → Call → Call → Action LanguagesCache Error (Unit {0})
  unfolding get_supported_languages invalid check_invalid
  validate_languages [] first second c = (ok tt, c)
  validate_languages (l ∷ ls) first second c =
      go_on (get_supported_languages false first c)
        (λ supported. check_invalid (is_empty (invalid (l ∷ ls) supported)) (l ∷ ls) second)
