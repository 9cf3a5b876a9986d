-- ===== src/Git/Entries.antt =====
-- The entries of an advertisement, and what the steps of `resolve_git_ref` take from them.
use retro_doc.Prelude.{
  ok, ok_injective, Text, text_eq, text_eq_sound, Dict, lookup, true, false, ◌&&◌, Option, none,
  some, List, [], ◌∷◌, is_empty, if◌then◌else◌, ◌≡◌, ◌⊎◌, ◌∙◌, sym, ap, subst, refl, Bool-cases,
  Option-cases, inl, inr, arith,
}
use mathlib.Core.Option.{some-injective}
use retro_doc.Strings.{starts_with}
use retro_doc.Git.Resolve.{
  ResolvedGitRef, Answer, http_error, response, heads_prefix, get_advertisement, Fetched, fetch,
  find_tip, or_text, resolved_default, drop_heads,
}

-- A ref of the advertisement; it computes to a sum.
abbrev pub IsEntry : Text → Text → Dict Text → Type 0
IsEntry name sha [] = ⊥
IsEntry name sha ((n, s) ∷ refs) = ((name ≡ n) × (sha ≡ s)) ⊎ IsEntry name sha refs

-- One of the answers is this advertisement.
abbrev pub Advertises : Text → List Answer → Type 0
Advertises content [] = ⊥
Advertises content (http_error ∷ answers) = Advertises content answers
Advertises content (response status_code content_type body ∷ answers) =
    (get_advertisement status_code content_type body ≡ some content) ⊎ Advertises content answers

pub lookup-IsEntry :
    (name sha : Text) (refs : Dict Text) → lookup name refs ≡ some sha → IsEntry name sha refs
unfolding lookup
lookup-IsEntry name sha [] h = absurd (ground (arith, h))
lookup-IsEntry name sha ((n, s) ∷ refs) h =
    let r = lookup-IsEntry name sha refs in
    elim (Bool-cases (text_eq n name)) [
      | inl e ↦ inl (sym (text_eq_sound n name e), sym (some-injective _ _ (rw e at h)))
      | inr e ↦ inr (r (rw e at h))
    ]

pub find_tip-IsEntry :
    (commit name : Text) (refs : Dict Text)
    → find_tip commit refs ≡ some name
    → (starts_with heads_prefix name ≡ true) × IsEntry name commit refs
unfolding find_tip
find_tip-IsEntry commit name [] h = absurd (ground (arith, h))
find_tip-IsEntry commit name ((n, s) ∷ refs) h =
    let r = find_tip-IsEntry commit name refs in
    elim (Bool-cases (text_eq s commit && starts_with heads_prefix n)) [
      | inl e ↦
          let same : n ≡ name = some-injective _ _ (rw e at h) in
          (
            subst (λ x. starts_with heads_prefix x ≡ true) same (ground (arith, e)),
            inl (sym same, sym (text_eq_sound s commit (ground (arith, e)))),
          )
      | inr e ↦ let q = r (rw e at h) in (q.0, inr q.1)
    ]

pub fetch-Advertises :
    (answers : List Answer) (f : Fetched) (content : Text)
    → f.advertisement ≡ none
    → (fetch answers f).advertisement ≡ some content
    → Advertises content answers
unfolding fetch
fetch-Advertises [] f content e h = absurd (ground (arith, e, h))
fetch-Advertises (http_error ∷ answers) f content e h =
    fetch-Advertises answers (record f { unreachable = true }) content e h
fetch-Advertises (response status_code content_type body ∷ answers) f content e h =
    let r =
      fetch-Advertises answers (record { unreachable = false; advertisement = none }) content
        refl in
    elim (Option-cases (get_advertisement status_code content_type body)) [
      | inl k ↦ inr (r (rw (k, fetch) at h))
      | inr (a, k) ↦ inl (k ∙ (rw (k, fetch) at h))
    ]

pub or_text-cases :
    (a b : Option Text) (s : Text) → or_text a b ≡ some s → (a ≡ some s) ⊎ (b ≡ some s)
unfolding or_text
or_text-cases none b s h = inr h
or_text-cases (some t) b s h = elim (Bool-cases (is_empty t)) [
  | inl e ↦ inr (rw e at h)
  | inr e ↦ inl (rw e at h)
]

pub resolved_default-ok :
    (url : Text) (name sha : Option Text) (r : ResolvedGitRef)
    → resolved_default url name sha ≡ ok r
    → sha ≡ some r.commit
unfolding resolved_default
resolved_default-ok url (some name) (some sha) r h =
    ap some (ap (λ x. x.commit) (ok_injective _ r h))
resolved_default-ok url none sha r h = absurd (ground (arith, h))
resolved_default-ok url (some name) none r h = absurd (ground (arith, h))

pub resolved_default-ref :
    (url : Text) (name sha : Option Text) (r : ResolvedGitRef)
    → resolved_default url name sha ≡ ok r
    → (n : Text) × (name ≡ some n)
      × (r.ref ≡ some (if starts_with heads_prefix n then drop_heads n else n))
unfolding resolved_default
resolved_default-ref url (some name) (some sha) r h =
    (name, refl, sym (ap (λ x. x.ref) (ok_injective _ r h)))
resolved_default-ref url none sha r h = absurd (ground (arith, h))
resolved_default-ref url (some name) none r h = absurd (ground (arith, h))

pub resolved_default-url :
    (url : Text) (name sha : Option Text) (r : ResolvedGitRef)
    → resolved_default url name sha ≡ ok r
    → r.url ≡ url
unfolding resolved_default
resolved_default-url url (some name) (some sha) r h = sym (ap (λ x. x.url) (ok_injective _ r h))
resolved_default-url url none sha r h = absurd (ground (arith, h))
resolved_default-url url (some name) none r h = absurd (ground (arith, h))
