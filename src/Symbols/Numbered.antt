-- ===== src/Symbols/Numbered.antt =====
-- A table that lists its symbols under their numbers.
use retro_doc.Prelude.{
  ℕ, suc, ◌+◌, Text, text_eq, Dict, lookup, put, push, Option, none, some, List, [], ◌∷◌, ◌++◌, ◌≡◌,
  ◌∙◌, sym, ap, refl, length, length-append, Bool-cases, text_eq_iff, inl, inr, if◌then◌else◌,
  arith,
}
use retro_doc.Symbols.Table.{Declared, Symbol, Table, symbol_id, add_symbol}
use retro_doc.Symbols.Listed.{symbol_id-other}

-- The texts at a key, none without the key.
abbrev pub or_nil : Option (List Text) → List Text
or_nil none = []
or_nil (some xs) = xs

lookup-push :
    (k j v : Text) (d : Dict (List Text))
    → or_nil (lookup j (push k v d))
      ≡ (if text_eq k j then or_nil (lookup j d) ++ v ∷ [] else or_nil (lookup j d))
unfolding lookup push
lookup-push k j v [] = elim (Bool-cases (text_eq k j)) [ inl e ↦ rw e refl | inr e ↦ rw e refl ]
lookup-push k j v ((i, xs) ∷ d) =
    ground (arith, text_eq_iff k j, text_eq_iff i k, text_eq_iff i j, lookup-push k j v d)

module _ (file_path : Text) where
  abbrev pub entry : Declared → ℕ → Text × Symbol
  entry d n = (symbol_id d n, record { id = symbol_id d n; declared = d; file = file_path })

  -- Each declaration under the identity that its place gives it; `n` of them come before.
  abbrev pub entries : ℕ → List Declared → Dict Symbol
  entries n [] = []
  entries n (d ∷ ds) = entry d (suc n) ∷ entries (suc n) ds

  -- The identities of those that have this scope.
  abbrev pub ids_in : Text → ℕ → List Declared → List Text
  ids_in scope n [] = []
  ids_in scope n (d ∷ ds) =
      let rest = ids_in scope (suc n) ds in
      if text_eq d.scope scope then symbol_id d (suc n) ∷ rest else rest

  put-entries :
      (n : ℕ) (done : List Declared) (d : Declared) (m : ℕ)
      → m ≡ n + length done
      → put
          (symbol_id d (suc m))
          (record { id = symbol_id d (suc m); declared = d; file = file_path })
          (entries n done)
        ≡ entries n (done ++ d ∷ [])
  unfolding put
  put-entries n [] d m e = ap (λ k. entry d (suc k) ∷ []) (omega (arith, e))
  put-entries n (x ∷ xs) d m e =
      rw (symbol_id-other x d (suc n) (suc m) (omega (arith, e)), put)
        (ap (λ es. entry x (suc n) ∷ es) (put-entries (suc n) xs d m (omega (arith, e))))

  ids_in-append :
      (scope : Text) (n : ℕ) (done : List Declared) (d : Declared) (m : ℕ)
      → m ≡ n + length done
      → ids_in scope n (done ++ d ∷ []) ≡ (
          if text_eq d.scope scope
          then ids_in scope n done ++ symbol_id d (suc m) ∷ []
          else ids_in scope n done)
  ids_in-append scope n [] d m e =
      ap (λ k. if text_eq d.scope scope then symbol_id d (suc k) ∷ [] else []) (omega (arith, e))
  ids_in-append scope n (x ∷ xs) d m e =
      let r = ids_in-append scope (suc n) xs d m (omega (arith, e)) in
      elim (Bool-cases (text_eq x.scope scope)) [
        | inl c ↦ rw c (
            rw r
              (elim (Bool-cases (text_eq d.scope scope)) [ inl k ↦ rw k refl | inr k ↦ rw k refl ]))
        | inr c ↦ rw c r
      ]

  -- The table after these declarations.
  pub record Lists (done : List Declared) (t : Table) : Type 0 where
    pub all_listed : t.symbols ≡ entries 0 done
    pub all_counted : t.counter ≡ length done
    pub all_scoped : (scope : Text) → or_nil (lookup scope t.scopes) ≡ ids_in scope 0 done

  pub add_symbol-Lists :
      (d : Declared) (done : List Declared) (t : Table)
      → Lists done t
      → Lists (done ++ d ∷ []) (add_symbol file_path d t)
  unfolding add_symbol
  add_symbol-Lists d done t w = record {
    all_listed =
        ap
          (put (symbol_id d (suc t.counter))
            (record { id = symbol_id d (suc t.counter); declared = d; file = file_path }))
          w.all_listed
        ∙ put-entries 0 done d t.counter (omega (arith, w.all_counted));
    all_counted = omega (arith, w.all_counted, length-append done (d ∷ []));
    all_scoped = λ scope.
        lookup-push d.scope scope (symbol_id d (suc t.counter)) t.scopes
        ∙ (ap (λ xs. if text_eq d.scope scope then xs ++ symbol_id d (suc t.counter) ∷ [] else xs)
              (w.all_scoped scope)
            ∙ sym (ids_in-append scope 0 done d t.counter (omega (arith, w.all_counted))));
  }
