-- ===== src/Languages/Samples.antt =====
-- The theorem on language filters at a cache that misses a language.
use retro_doc.Prelude.{text, text_eq, some, [], ◌∷◌, ◌≡◌, refl, ok, err}
use retro_doc.Languages.{LanguagesCache, unsupported, Call, cached, validate_languages}
use retro_doc.Languages.Verdict.{Verdict}
use retro_doc.Action.{go_on}

abbrev cache : LanguagesCache
cache = record { languages = some (text "java" ∷ []); expires_at = 100 }

abbrev call : Call
call = record { now = 50; meanwhile = λ c. c; answer = some (text "java" ∷ text "cobol" ∷ []) }

-- The list is refreshed before an error.
refreshed :
    validate_languages 60 (text "cobol" ∷ []) call call cache
    ≡ (ok tt, record { languages = some (text "java" ∷ text "cobol" ∷ []); expires_at = 110 })
unfolding validate_languages cached text_eq go_on
refreshed = refl

not_supported : (validate_languages 60 (text "ada" ∷ []) call call cache).0 ≡ err unsupported
unfolding validate_languages cached text_eq go_on
not_supported = refl
