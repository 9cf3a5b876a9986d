-- ===== src/Languages/Verdict.antt =====
-- When a language filter is accepted or refused.
use retro_doc.Prelude.{
  ℕ, ltb, Text, true, false, none, some, List, [], ◌≡◌, ◌⊎◌, is_empty, All, Result, ok, err,
}
use retro_doc.Languages.{LanguagesCache, Error, bad_gateway, unsupported, Call, is_listed, invalid}

-- Nothing that a call at time `now` may take from the cache.
abbrev pub Stale : ℕ → LanguagesCache → Type 0
Stale now c = (c.languages ≡ none) ⊎ (ltb now c.expires_at ≡ false)

-- The list that a call goes by: the one that the cache held and that had not expired, else the one that
-- others left in it meanwhile and that had not expired, else the one that the worker answered.
pub data Known (call : Call) (c : LanguagesCache) (supported : List Text) : Type 0 where
  held : c.languages ≡ some supported → ltb call.now c.expires_at ≡ true → Known call c supported
  renewed :
      Stale call.now c
      → (call.meanwhile c).languages ≡ some supported
      → ltb call.now (call.meanwhile c).expires_at ≡ true
      → Known call c supported
  answered :
      Stale call.now c
      → Stale call.now (call.meanwhile c)
      → call.answer ≡ some supported
      → Known call c supported

-- There is no such list.
pub data Unknown (call : Call) (c : LanguagesCache) : Type 0 where
  unknown :
      Stale call.now c → Stale call.now (call.meanwhile c) → call.answer ≡ none → Unknown call c

-- A language of the filter is not in the list that a call goes by.
pub data Unlisted (languages : List Text) (call : Call) (c : LanguagesCache) : Type 0 where
  unlisted :
      (supported : List Text)
      → Known call c supported
      → is_empty (invalid languages supported) ≡ false
      → Unlisted languages call c

abbrev pub AllListed : List Text → List Text → Type 0
AllListed languages supported = All (λ l. is_listed l supported ≡ true) languages

-- The result with its grounds; for one filter, one pair of calls and one cache.
pub data Verdict (languages : List Text) (first second : Call) (c : LanguagesCache)
    : Result Error (Unit {0}) → Type 0 where
  no_filter : languages ≡ [] → Verdict languages first second c (ok tt)
  supported_first :
      (supported : List Text)
      → Known first c supported
      → AllListed languages supported
      → Verdict languages first second c (ok tt)
  supported_second :
      (supported : List Text)
      → Unlisted languages first c
      → second.answer ≡ some supported
      → AllListed languages supported
      → Verdict languages first second c (ok tt)
  refused :
      (supported : List Text)
      → Unlisted languages first c
      → second.answer ≡ some supported
      → is_empty (invalid languages supported) ≡ false
      → Verdict languages first second c (err unsupported)
  not_answered :
      is_empty languages ≡ false
      → Unknown first c
      → Verdict languages first second c (err bad_gateway)
  not_refreshed :
      Unlisted languages first c
      → second.answer ≡ none
      → Verdict languages first second c (err bad_gateway)

module _ (ttl : ℕ) where
  -- What a call gives: the list that it goes by, or the error when there is none.
  data Got (call : Call) (c : LanguagesCache) : Result Error (List Text) → Type 0 where
    got : (ls : List Text) → Known call c ls → Got call c (ok ls)
    not_got : Unknown call c → Got call c (err bad_gateway)
