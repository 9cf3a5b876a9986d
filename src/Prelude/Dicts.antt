-- ===== src/Prelude/Dicts.antt =====
-- Python's `dict` with `str` keys, as an association list in the order of insertion.
use Prim.Native.Nat.{ℕ, suc, ◌+◌}
use mathlib.Core.Path.{◌≡◌, refl}
use mathlib.Core.Option.{Option, none, some}
use mathlib.Core.List.{List, [], ◌∷◌, ◌++◌}
use native.Mathlib.Omega.{arith}
use retro_doc.Prelude.Tests.{if◌then◌else◌}
use retro_doc.Prelude.Lists.{length, length-append}
use retro_doc.Prelude.Texts.{Text, text_eq, text_eq_iff}

abbrev pub Dict {ℓ} : Type ℓ → Type ℓ
Dict V = List (Text × V)

module _ {ℓ} {V : Type ℓ} where
  -- `d.get(k)`
  unfoldable pub lookup : Text → Dict V → Option V
  lookup k [] = none
  lookup k ((j, v) ∷ d) = if text_eq j k then some v else lookup k d

  -- `d[k] = v`
  unfoldable pub put : Text → V → Dict V → Dict V
  put k v [] = (k, v) ∷ []
  put k v ((j, w) ∷ d) = if text_eq j k then (k, v) ∷ d else (j, w) ∷ put k v d

  pub lookup-nil : (k : Text) → lookup k [] ≡ none
  unfolding lookup
  lookup-nil k = refl

  pub lookup-put :
      (k j : Text) (v : V) (d : Dict V)
      → lookup j (put k v d) ≡ (if text_eq k j then some v else lookup j d)
  unfolding lookup put
  lookup-put k j v [] = refl
  lookup-put k j v ((i, w) ∷ d) =
      ground (arith, text_eq_iff k j, text_eq_iff i k, text_eq_iff i j, lookup-put k j v d)

module _ {A : Type 0} where
  -- `d.setdefault(k, []).append(n)`
  unfoldable pub push : Text → A → Dict (List A) → Dict (List A)
  push k n [] = (k, n ∷ []) ∷ []
  push k n ((j, ns) ∷ d) = if text_eq j k then (j, ns ++ n ∷ []) ∷ d else (j, ns) ∷ push k n d

  -- `sum(len(v) for v in d.values())`
  unfoldable pub count_values : Dict (List A) → ℕ
  count_values [] = 0
  count_values ((k, ns) ∷ d) = length ns + count_values d

  pub count_values-push :
      (k : Text) (n : A) (d : Dict (List A)) → count_values (push k n d) ≡ suc (count_values d)
  unfolding count_values push
  count_values-push k n [] = omega arith
  count_values-push k n ((j, ns) ∷ d) =
      ground (arith, length-append ns (n ∷ []), count_values-push k n d)
