-- ===== src/Git/Resolutions.antt =====
-- What the steps of `resolve_git_ref` resolve a request to, for an advertisement that was parsed.
use retro_doc.Prelude.{
  ok, ok_injective, Text, text, lookup, true, false, Option, none, some, ◌∷◌, ◌++◌, map, is_empty,
  ◌≡◌, ◌⊎◌, ◌∙◌, [], if◌then◌else◌, sym, ap, subst, refl, Bool-cases, Option-cases, inl, inr, arith,
}
use retro_doc.Strings.{starts_with}
use retro_doc.Cfg.Label.{lower}
use retro_doc.Git.Refs.{Advertised}
use retro_doc.Git.Resolve.{
  ResolvedGitRef, heads_prefix, is_commit, find_tip, named_sha, drop_heads, or_text, default_ref,
  resolved_default, resolve_default, resolve_branch, resolve_refs,
}
use retro_doc.Git.Entries.{
  IsEntry, lookup-IsEntry, find_tip-IsEntry, or_text-cases, resolved_default-ok,
  resolved_default-ref, resolved_default-url,
}

-- The name of the default branch: what HEAD stands for, else a branch whose tip is the commit of HEAD.
pub data IsDefault (a : Advertised) (name : Text) : Type 0 where
  symref : a.head_symref ≡ some name → IsDefault a name
  at_head :
      (sha : Text)
      → a.head_symref ≡ none
      → lookup (text "HEAD") a.refs ≡ some sha
      → starts_with heads_prefix name ≡ true
      → IsEntry name sha a.refs
      → IsDefault a name

-- No branch is asked for.
abbrev pub NoBranch : Option Text → Type 0
NoBranch branch = (branch ≡ none) ⊎ (branch ≡ some [])

-- How a request is resolved: to the commit that was given, in lower case, with a branch whose tip it
-- is or none; to the tip of the branch that was given; or, without either, to the default branch, at
-- the commit of the ref of its name or of HEAD.
pub data Resolution (branch commit : Option Text) (a : Advertised) (r : ResolvedGitRef)
    : Type 0 where
  given :
      (c : Text)
      → commit ≡ some c
      → is_commit c ≡ true
      → r.commit ≡ map lower c
      → (r.ref ≡ none)
        ⊎ ((name : Text) × (r.ref ≡ some (drop_heads name))
            × (starts_with heads_prefix name ≡ true)
            × IsEntry name r.commit a.refs)
      → Resolution branch commit a r
  tip_of_branch :
      (b : Text)
      → commit ≡ none
      → branch ≡ some b
      → is_empty b ≡ false
      → r.ref ≡ some b
      → IsEntry (heads_prefix ++ b) r.commit a.refs
      → Resolution branch commit a r
  tip_of_default :
      (name : Text)
      → commit ≡ none
      → NoBranch branch
      → IsDefault a name
      → r.ref ≡ some (if starts_with heads_prefix name then drop_heads name else name)
      → IsEntry name r.commit a.refs ⊎ IsEntry (text "HEAD") r.commit a.refs
      → Resolution branch commit a r

module _ (a : Advertised) where
  default_ref-IsDefault :
      (o head : Option Text) (name : Text)
      → a.head_symref ≡ o
      → lookup (text "HEAD") a.refs ≡ head
      → default_ref o head a.refs ≡ some name
      → IsDefault a name
  unfolding default_ref
  default_ref-IsDefault (some n) head name e k h = symref (e ∙ h)
  default_ref-IsDefault none none name e k h = absurd (ground (arith, h))
  default_ref-IsDefault none (some sha) name e k h =
      let (b, i) = find_tip-IsEntry sha name a.refs h in at_head sha e k b i

  resolved_default-Resolution :
      (url : Text) (branch o : Option Text) (r : ResolvedGitRef)
      → let head_sha = lookup (text "HEAD") a.refs in
        NoBranch branch
        → default_ref a.head_symref head_sha a.refs ≡ o
        → resolved_default url o (or_text (named_sha o a.refs) head_sha) ≡ ok r
        → Resolution branch none a r
  unfolding named_sha
  resolved_default-Resolution url branch o r n e h =
      let head_sha = lookup (text "HEAD") a.refs in
      let sha_given = or_text (named_sha o a.refs) head_sha in
      let (name, named, ref) = resolved_default-ref url o sha_given r h in
      let found = resolved_default-ok url o sha_given r h in
      tip_of_default name refl n
        (default_ref-IsDefault a.head_symref head_sha name refl refl (e ∙ named)) ref
        (elim (or_text-cases (named_sha o a.refs) head_sha r.commit found) [
          | inl k ↦ inl (
              lookup-IsEntry name r.commit a.refs
                (subst (λ x. named_sha x a.refs ≡ some r.commit) named k))
          | inr k ↦ inr (lookup-IsEntry (text "HEAD") r.commit a.refs k)
        ])

  resolve_default-Resolution :
      (url : Text) (branch : Option Text) (r : ResolvedGitRef)
      → NoBranch branch
      → resolve_default url a ≡ ok r
      → Resolution branch none a r
  unfolding resolve_default
  resolve_default-Resolution url branch r n h = resolved_default-Resolution url branch _ r n refl h

  resolve_branch-Resolution :
      (url b : Text) (r : ResolvedGitRef)
      → is_empty b ≡ false
      → resolve_branch url b a ≡ ok r
      → Resolution (some b) none a r
  unfolding resolve_branch
  resolve_branch-Resolution url b r n h = elim (Option-cases (lookup (heads_prefix ++ b) a.refs)) [
    | inl e ↦ absurd (ground (arith, rw (e, resolve_branch) at h))
    | inr (sha, e) ↦
        let found : record { url = url; commit = sha; ref = some b } ≡ r =
          ok_injective _ r (rw (e, resolve_branch) at h) in
        tip_of_branch b refl refl n (sym (ap (λ x. x.ref) found)) (
          subst (λ c. IsEntry (heads_prefix ++ b) c a.refs) (ap (λ x. x.commit) found)
            (lookup-IsEntry (heads_prefix ++ b) sha a.refs e))
  ]

  is_empty-nil : (b : Text) → is_empty b ≡ true → b ≡ []
  is_empty-nil [] e = refl
  is_empty-nil (c ∷ b) e = absurd (ground (arith, e))

  pub resolve_refs-Resolution :
      (url : Text) (branch : Option Text) (r : ResolvedGitRef)
      → resolve_refs url branch none a ≡ ok r
      → Resolution branch none a r
  unfolding resolve_refs
  resolve_refs-Resolution url none r h = resolve_default-Resolution url none r (inl refl) h
  resolve_refs-Resolution url (some b) r h = elim (Bool-cases (is_empty b)) [
    | inl e ↦
        resolve_default-Resolution url (some b) r (inr (ap some (is_empty-nil b e))) (rw e at h)
    | inr e ↦ resolve_branch-Resolution url b r e (rw e at h)
  ]

  resolve_default-url :
      (url : Text) (r : ResolvedGitRef) → resolve_default url a ≡ ok r → r.url ≡ url
  unfolding resolve_default
  resolve_default-url url r h = resolved_default-url url _ _ r h

  pub resolve_refs-url :
      (url : Text) (branch commit : Option Text) (r : ResolvedGitRef)
      → resolve_refs url branch commit a ≡ ok r
      → r.url ≡ url
  unfolding resolve_refs resolve_branch
  resolve_refs-url url branch (some c) r h = sym (ap (λ x. x.url) (ok_injective _ r h))
  resolve_refs-url url none none r h = resolve_default-url url r h
  resolve_refs-url url (some b) none r h = elim (Bool-cases (is_empty b)) [
    | inl e ↦ resolve_default-url url r (rw e at h)
    | inr e ↦ elim (Option-cases (lookup (heads_prefix ++ b) a.refs)) [
      | inl k ↦ absurd (ground (arith, rw (k, resolve_branch) at (rw e at h)))
      | inr (sha, k) ↦
          sym (ap (λ x. x.url) (ok_injective _ r (rw (k, resolve_branch) at (rw e at h))))
    ]
  ]

  pub resolve_refs-given :
      (url c : Text) (branch : Option Text) (r : ResolvedGitRef)
      → is_commit c ≡ true
      → resolve_refs url branch (some (map lower c)) a ≡ ok r
      → Resolution branch (some c) a r
  unfolding resolve_refs
  resolve_refs-given url c branch r v h = elim (Option-cases (find_tip (map lower c) a.refs)) [
    | inl e ↦
        let found = ok_injective _ r (rw (e, resolve_refs) at h) in
        given c refl v (sym (ap (λ x. x.commit) found)) (inl (sym (ap (λ x. x.ref) found)))
    | inr (name, e) ↦
        let found = ok_injective _ r (rw (e, resolve_refs) at h) in
        let q = find_tip-IsEntry (map lower c) name a.refs e in
        given c refl v (sym (ap (λ x. x.commit) found)) (
          inr (
            name,
            sym (ap (λ x. x.ref) found),
            q.0,
            subst (λ x. IsEntry name x a.refs) (ap (λ x. x.commit) found) q.1,
          ))
  ]
